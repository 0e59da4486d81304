-- ===== src/Server/Sessions.antt =====
-- internal/server/tunnel.go: the sessions of the clients. `handleConn` is modelled from the hello that it
-- has read; `online` stands for the keys of the map `sessions`. `noteReconnect` is in Update.
pub mod Handshake
pub mod Managed
use spawn_relay.Common.{
  ℕ, ◌==◌, Bool, true, false, not, List, [], ◌∷◌, ◌++◌, Option, none, some, Text, text_eq, is_empty,
  keep, if◌then◌else◌,
}
use spawn_relay.Store.{State, Client, Error, not_found, client_by_token}
use spawn_relay.Server.{
  Env, Server, Effect, session_closed, emit, has_session, saved, notify_forwards,
}
use spawn_relay.Server.Clients.{set_clients, change_client}

-- `protocol.Version`
abbrev pub protocol_version : ℕ
protocol_version = 1

-- `protocol.Hello`, less `AllowUpdate`
pub record Hello : Type 0 where
  pub version : ℕ
  pub token : Text
  pub hostname : Text
  pub os : Text
  pub arch : Text
  pub client_version : Text

-- what `handleConn` writes to a client
abbrev pub seen : Text → ℕ → Hello → Client → Client
seen remote now hello c = record c {
  last_seen_at = some now;
  last_addr = remote;
  hostname = hello.hostname;
  os = hello.os;
  arch = hello.arch;
  client_version = hello.client_version;
}

-- the assignments through the pointer that `ClientByToken` returned
unfoldable pub change_by_token : Text → (Client → Client) → List Client → List Client
change_by_token tok f [] = []
change_by_token tok f (c ∷ cs) =
    if text_eq c.token tok then f c ∷ cs else c ∷ change_by_token tok f cs

-- the answer to a hello: an error, or the client's id
pub data Greeting : Type 0 where
  unsupported : Greeting
  invalid_token : Greeting
  welcome : Text → Greeting

-- the function that `handleConn` gives to `Update`
pub note_hello : Text → ℕ → Hello → Server → Server × Option Error
note_hello remote now hello s = elim (client_by_token s.state hello.token) [
  | none ↦ (s, some not_found)
  | some c ↦
      (set_clients (change_by_token hello.token (seen remote now hello) s.state.clients) s, none)
]

-- the session takes the place of another one of the client, which is shut down
pub register : Text → Server → Server
register id s =
    if has_session id s.online
    then emit (session_closed id) s
    else record s { online = s.online ++ id ∷ [] }

-- `dropSession`; `current` is whether the map still holds this session. The result of its `Update` is
-- ignored.
pub drop_session : Env → Bool → Text → ℕ → Server → Server
drop_session env current id now s =
    let t : Server =
      if current then record s { online = keep (λ k. not (text_eq k id)) s.online } else s in
    (saved env (
      set_clients (change_client id (λ c. record c { last_seen_at = some now }) t.state.clients) t,
      none,
    )).0

-- behind the update, with the id that it found; `wrote` is whether the answer could be written
admit : Env → Bool → ℕ → Text → Server × Option Error → Server × Greeting
unfolding register drop_session
admit env wrote now id (s, some e) = (s, invalid_token)
admit env wrote now id (s, none) =
    if wrote
    then (notify_forwards id (register id s), welcome id)
    else (drop_session env true id now (register id s), welcome id)

abbrev pub id_of : Option Client → Text
id_of none = []
id_of (some c) = c.id

-- `handleConn`
unfoldable pub connect : Env → Bool → Text → ℕ → Hello → Server → Server × Greeting
unfolding note_hello admit
connect env wrote remote now hello s =
    if not (hello.version == protocol_version)
    then (s, unsupported)
    else admit env wrote now (id_of (client_by_token s.state hello.token))
        (saved env (note_hello remote now hello s))
