-- ===== src/Server.antt =====
-- internal/server: the state that the handlers of the API share, and the operations they call.
-- A handler takes the decoded request, what the clock and the generator of ids give, and the state;
-- it returns the state behind it and the HTTP status. A body that `readJSON` rejects is `none`. The
-- bodies of the responses and the log are left out.
pub mod Invariant
pub mod Forwards
pub mod Groups
pub mod Clients
pub mod Settings
pub mod Roster
pub mod Sessions
pub mod Reach
use spawn_relay.Common.{
  ℕ, ◌==◌, Bool, true, false, not, ◌&&◌, ◌||◌, List, [], ◌∷◌, ◌++◌, Option, none, some, Text, codes,
  text_eq, itoa, if◌then◌else◌, keep, find,
}
use spawn_relay.Store.{State, Forward, Client, Error, not_found, conflict, validation, internal}
use spawn_relay.Store.Order.{forwards_for_client}
use spawn_relay.Tunnel.{Kind, Runners}
use spawn_relay.Firewall.{Rule, desired}

-- The configuration of the server and its surroundings: `busy` is the argument of `Tunnel`, and
-- `saves` says whether the state file can be written.
pub record Env : Type 0 where
  pub tunnel_port : ℕ
  pub admin_port : ℕ
  pub busy : Kind → ℕ → Bool
  pub saves : Bool

-- `protocol.ForwardInfo`
pub record ForwardInfo : Type 0 where
  pub name : Text
  pub protocol : Text
  pub public_port : ℕ
  pub target : Text

-- what leaves the process: a "forwards" message, a "shutdown" of a session, a request to the agent
pub data Effect : Type 0 where
  forwards_sent : Text → List ForwardInfo → Effect
  session_closed : Text → Effect
  firewall_synced : Text → List Rule → Effect

-- `state` is in memory and `disk` in the state file; `online` holds the ids of the clients that have
-- a session.
pub record Server : Type 0 where
  pub state : State
  pub disk : State
  pub runners : Runners
  pub online : List Text
  pub trace : List Effect

abbrev emit : Effect → Server → Server
emit e s = record s { trace = s.trace ++ e ∷ [] }

-- `Forward.Target`
abbrev target_of : Forward → Text
target_of f = f.target_host ++ (codes ":" ++ itoa f.target_port)

abbrev info_of : Forward → ForwardInfo
info_of f = record {
  name = f.name;
  protocol = f.protocol;
  public_port = f.public_port;
  target = target_of f;
}

abbrev infos_of : List Forward → List ForwardInfo
infos_of [] = []
infos_of (f ∷ fs) = if f.enabled then info_of f ∷ infos_of fs else infos_of fs

abbrev pub has_session : Text → List Text → Bool
has_session id [] = false
has_session id (k ∷ ks) = text_eq k id || has_session id ks

-- `NotifyForwards`
unfoldable pub notify_forwards : Text → Server → Server
notify_forwards id s =
    if has_session id s.online
    then emit (forwards_sent id (infos_of (forwards_for_client s.state id))) s
    else s

-- `DisconnectClient`
unfoldable pub disconnect_client : Text → Server → Server
disconnect_client id s =
    if has_session id s.online
    then emit (session_closed id) (record s { online = keep (λ k. not (text_eq k id)) s.online })
    else s

-- the call of `fwManager.Sync`: the agent is asked for the desired rules
unfoldable pub sync_firewall : Env → Server → Server
sync_firewall env s =
    let (mode, rules) = desired env.tunnel_port env.admin_port s.state in
    emit (firewall_synced mode rules) s

-- `writeStoreError`
abbrev pub error_status : Error → ℕ
error_status not_found = 404
error_status conflict = 409
error_status validation = 400
error_status internal = 500

-- `Store.Update` behind `fn`: what `fn` changed in memory stays changed, with an error too.
unfoldable pub saved : Env → Server × Option Error → Server × Option Error
saved env (s, some e) = (s, some e)
saved env (s, none) = if env.saves then (record s { disk = s.state }, none) else (s, some internal)

abbrev pub set_forwards : List Forward → Server → Server
set_forwards fs s = record s { state = record s.state { forwards = fs } }

-- `reservedPort`
abbrev pub is_reserved : Env → ℕ → Bool
is_reserved env port = port == env.tunnel_port || port == env.admin_port
