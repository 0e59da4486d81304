-- ===== src/Agent.antt =====
-- internal/agent: the agent that runs as root beside the server. `Updater` installs releases
-- (internal/agent/update.go), `Sync` answers the requests of internal/agent/agent.go.
pub mod Updater
pub mod Sync
