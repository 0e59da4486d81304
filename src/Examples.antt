-- ===== src/Examples.antt =====
-- The theorems at concrete inputs.
mod World
mod Passwords
mod Ports
mod Groups
mod Handlers
mod Listeners
mod Access
mod Updates
mod Releases
mod Backends
