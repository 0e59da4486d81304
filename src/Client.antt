-- ===== src/Client.antt =====
-- internal/client: the program on the client's side. `Retry` has the loop of `Run` (client.go), `Update`
-- the updates that the server pushes (update.go).
pub mod Retry
pub mod Update
