-- ===== src/Lib.antt =====
-- SpawnRelay: a relay server opens public ports and carries their traffic through a tunnel to the
-- clients behind it. This library models the server's logic: what the handlers of the HTTP API do to
-- the stored document, to the public listeners and to the rules of the firewall, and who may call
-- them.
--
-- The parts, and the files of the repository:
--   Store       internal/store/store.go: the document and its lookups (ClientByID, ForwardsInGroup,
--               PortConflict, GroupIDs), Validate and ValidateName. Order and TextOrder have the sorts.
--   PortSpec    internal/store/portspec.go: ParsePortSpec in Match and Parse, RenderPortSpec in Render.
--   Tunnel      internal/server/tunnel.go: start, stop, Apply, ApplyGroup, Remove and SyncAll;
--               Peers has the peers of UDP forwards, Rollback the outcomes of ApplyGroup.
--   Firewall    internal/server/firewall.go: desired; Manager has Sync and ForwardState.
--   Backend     internal/firewall: Key, Validate and sortedRules, and the Sync of ufw (Ufw), firewalld
--               (Firewalld) and iptables (Iptables). Desired: the server's rules are valid.
--   Agent       internal/agent/agent.go: sync (Sync). internal/agent/update.go: Updater, with Start, run,
--               rollback and waitHealthy; Fetch has fetchBinary and the checksums.
--   Release     the tags and versions of releases (ValidTag, parseVersion, newerVersion).
--   SelfUpdate  internal/server/selfupdate.go: check, availability, last, start and stageAndInstall.
--   Server      internal/server/api.go and groups.go. The record Server holds the document in memory,
--               the one in the state file, the running listeners and the connected clients. Forwards,
--               Groups, Clients and Settings have the handlers: a handler takes the decoded request,
--               the time and the new ids, and returns the state behind it and the HTTP status. Sessions
--               has handleConn and dropSession of internal/server/tunnel.go. Reach is the relation of all
--               sequences of handlers and sessions.
--   Auth        internal/server/auth.go: sessions, the login limit, authenticate and guard; Login has
--               handleLogin, Password the change of the password.
--   Update      internal/server/update.go: the record of a client's last update, PushUpdate and
--               noteReconnect.
--   Client      internal/client: the delays of Run (Retry), and runUpdate (Update).
--   Protocol    internal/protocol/protocol.go: WriteFrame and ReadFrame.
--   Common      names that the parts share. Examples: the theorems at concrete inputs.
--
-- How they meet: a handler of Server checks a request with Store and PortSpec, calls Tunnel inside
-- Store.Update (the definition saved), and on success notifies the client and syncs the firewall.
-- What leaves the process is recorded in the field trace.
--
-- Texts are lists of code points. Ports and times are natural numbers: a negative port of a request
-- stands as 0, which is rejected alike; times are nanoseconds. A mutex makes each handler's update one
-- step; handlers are modelled one after another. The loops of the modelled code run over a list or over
-- the ports of a range and are structural recursions, but for waitHealthy, whose fuel is the number of its
-- rounds: one for each second of the timeout and two more are enough, since a second passes in each.
--
-- Parameters: the ports that other processes hold (busy), whether the state file can be written
-- (saves), simple case folding of code points (fold), the check of the password at a login (accepts),
-- the derivation of keys and hex (derive, encode, decode), the digest of a token (hash), the new ids
-- and tokens, and which binaries are on the disk; which commands of the firewall's tools succeed and
-- what they show; what downloads, renames and commands do in an update (the records Host and Source).
--
-- Not modelled: the text of messages, the bodies of responses, the log, the loops that copy traffic,
-- TLS, the parsers of the tools' output, nftables, and the start of the processes.
mod Common
pub mod Protocol
pub mod Store
pub mod PortSpec
pub mod Tunnel
pub mod Firewall
pub mod Server
pub mod Auth
pub mod Update
pub mod Release
pub mod SelfUpdate
pub mod Backend
pub mod Client
pub mod Agent
mod Examples
