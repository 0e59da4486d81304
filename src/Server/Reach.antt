-- ===== src/Server/Reach.antt =====
-- internal/server: every sequence of handlers, sessions and calls of the API, in any order.
use spawn_relay.Common.{ℕ, ◌≡◌, Bool, Option, Text}
use spawn_relay.Server.{Env, Server}
use spawn_relay.Server.Invariant.{IsWellFormed}
use spawn_relay.Server.Roster.{clients_of}
use spawn_relay.Server.Forwards.{ForwardInput, create_forward, update_forward, delete_forward}
use spawn_relay.Server.Forwards.Invariant.{
  IsFresh, create_forward-IsWellFormed, update_forward-IsWellFormed, delete_forward-IsWellFormed,
}
use spawn_relay.Server.Forwards.Roster.{
  clients-create_forward, clients-update_forward, clients-delete_forward,
}
use spawn_relay.Server.Groups.{GroupInput, create_group, update_group, delete_group}
use spawn_relay.Server.Groups.Handlers.{
  create_group-IsWellFormed, update_group-IsWellFormed, delete_group-IsWellFormed,
}
use spawn_relay.Server.Groups.Members.{AreFresh}
use spawn_relay.Server.Groups.Roster.{
  clients-create_group, clients-update_group, clients-delete_group,
}
use spawn_relay.Server.Clients.{create_client, update_client, rotate_token, delete_client}
use spawn_relay.Server.Clients.Managed.{IsManaged}
use spawn_relay.Server.Clients.Handlers.{
  IsNewId, create_client-IsManaged, update_client-IsManaged, rotate_token-IsManaged,
}
use spawn_relay.Server.Clients.Deletion.{delete_client-IsManaged}
use spawn_relay.Server.Settings.{SettingsInput, Config, put_settings, create_token, delete_token}
use spawn_relay.Server.Settings.Core.{
  IsKept-IsManaged, put_settings-IsKept, create_token-IsKept, delete_token-IsKept,
}
use spawn_relay.Server.Sessions.{Hello, connect, drop_session}
use spawn_relay.Server.Sessions.Managed.{connect-IsManaged, drop_session-IsManaged}

module _ (fold : ℕ → ℕ) (env : Env) where
  -- One request that is handled, or one event of a session. The new ids are the ones that `NewID` may
  -- return: not in use.
  pub data Step : Config → Config → Type 0 where
    created_forward :
        (id : Text) (now : ℕ) (inp : Option ForwardInput) (c : Config)
        → IsFresh id c.server.state.forwards
        → Step c (record c { server = (create_forward env id now inp c.server).0 })
    updated_forward :
        (id : Text) (now : ℕ) (inp : Option ForwardInput) (c : Config)
        → Step c (record c { server = (update_forward env id now inp c.server).0 })
    deleted_forward :
        (id : Text) (c : Config) → Step c (record c { server = (delete_forward env id c.server).0 })
    created_group :
        (id : Text) (fresh : ℕ → Text) (now : ℕ) (inp : Option GroupInput) (c : Config)
        → AreFresh fresh c.server.state.forwards
        → Step c (record c { server = (create_group env id fresh now inp c.server).0 })
    updated_group :
        (id : Text) (fresh : ℕ → Text) (now : ℕ) (inp : Option GroupInput) (c : Config)
        → AreFresh fresh c.server.state.forwards
        → Step c (record c { server = (update_group env id fresh now inp c.server).0 })
    deleted_group :
        (id : Text) (c : Config) → Step c (record c { server = (delete_group env id c.server).0 })
    created_client :
        (id token : Text) (now : ℕ) (inp : Option Text) (c : Config)
        → IsNewId fold env id c.server
        → Step c (record c { server = (create_client fold env id token now inp c.server).0 })
    updated_client :
        (id : Text) (now : ℕ) (inp : Option (Option Text)) (c : Config)
        → Step c (record c { server = (update_client fold env id now inp c.server).0 })
    rotated_token :
        (id token : Text) (now : ℕ) (c : Config)
        → Step c (record c { server = (rotate_token fold env id token now c.server).0 })
    deleted_client :
        (id : Text) (c : Config)
        → Step c (record c { server = (delete_client fold env id c.server).0 })
    changed_settings : (inp : Option SettingsInput) (c : Config) → Step c (put_settings env inp c).0
    created_token :
        (id prefix digest : Text) (now : ℕ) (inp : Option Text) (c : Config)
        → Step c (record c { server = (create_token env id prefix digest now inp c.server).0 })
    deleted_token :
        (id : Text) (c : Config) → Step c (record c { server = (delete_token env id c.server).0 })
    connected :
        (wrote : Bool) (remote : Text) (now : ℕ) (hello : Hello) (c : Config)
        → Step c (record c { server = (connect env wrote remote now hello c.server).0 })
    dropped :
        (current : Bool) (id : Text) (now : ℕ) (c : Config)
        → Step c (record c { server = drop_session env current id now c.server })

  pub data Reach (c : Config) : Config → Type 0 where
    here : Reach c c
    next : {d e : Config} → Reach c d → Step d e → Reach c e

  with_roster :
      (s t : Server)
      → IsManaged fold env s
      → IsWellFormed env t
      → clients_of t ≡ clients_of s
      → IsManaged fold env t
  with_roster s t h w e = record { well_formed = w; roster = rw e h.roster }

  Step-IsManaged :
      {c d : Config} → Step c d → IsManaged fold env c.server → IsManaged fold env d.server
  Step-IsManaged (created_forward id now inp c new) h =
      with_roster c.server (create_forward env id now inp c.server).0 h
        (create_forward-IsWellFormed env id now inp c.server h.well_formed new)
        (clients-create_forward env id now inp c.server)
  Step-IsManaged (updated_forward id now inp c) h =
      with_roster c.server (update_forward env id now inp c.server).0 h
        (update_forward-IsWellFormed env id now inp c.server h.well_formed)
        (clients-update_forward env id now inp c.server)
  Step-IsManaged (deleted_forward id c) h =
      with_roster c.server (delete_forward env id c.server).0 h
        (delete_forward-IsWellFormed env id c.server h.well_formed)
        (clients-delete_forward env id c.server)
  Step-IsManaged (created_group id fresh now inp c new) h =
      with_roster c.server (create_group env id fresh now inp c.server).0 h
        (create_group-IsWellFormed env id fresh now inp c.server h.well_formed new)
        (clients-create_group env id fresh now inp c.server)
  Step-IsManaged (updated_group id fresh now inp c new) h =
      with_roster c.server (update_group env id fresh now inp c.server).0 h
        (update_group-IsWellFormed env id fresh now inp c.server h.well_formed new)
        (clients-update_group env id fresh now inp c.server)
  Step-IsManaged (deleted_group id c) h =
      with_roster c.server (delete_group env id c.server).0 h
        (delete_group-IsWellFormed env id c.server h.well_formed)
        (clients-delete_group env id c.server)
  Step-IsManaged (created_client id token now inp c new) h =
      create_client-IsManaged fold env id token now inp c.server h new
  Step-IsManaged (updated_client id now inp c) h =
      update_client-IsManaged fold env id now inp c.server h
  Step-IsManaged (rotated_token id token now c) h =
      rotate_token-IsManaged fold env id token now c.server h
  Step-IsManaged (deleted_client id c) h = delete_client-IsManaged fold env id c.server h
  Step-IsManaged (changed_settings inp c) h =
      IsKept-IsManaged fold env c.server (put_settings env inp c).0.server
        (put_settings-IsKept env inp c) h
  Step-IsManaged (created_token id prefix digest now inp c) h =
      IsKept-IsManaged fold env c.server (create_token env id prefix digest now inp c.server).0
        (create_token-IsKept env id prefix digest now inp c.server) h
  Step-IsManaged (deleted_token id c) h =
      IsKept-IsManaged fold env c.server (delete_token env id c.server).0
        (delete_token-IsKept env id c.server) h
  Step-IsManaged (connected wrote remote now hello c) h =
      connect-IsManaged fold env wrote remote now hello c.server h
  Step-IsManaged (dropped current id now c) h =
      drop_session-IsManaged fold env current id now c.server h

  -- Every sequence of handlers and sessions, in any order and with any requests, from a state
  -- in which the server is well formed and the ids and the case-folded names of the clients are
  -- distinct leads to such a state, if the ids that `NewID` returns are new and distinct. The
  -- handlers are those of forwards, groups, clients, settings and tokens; a session begins with
  -- a hello and ends with its drop. Well formed: forwards have distinct ids, no two need one
  -- socket, each is valid, off the relay's own ports and owned by a client, and the listeners
  -- are bound.
  pub Reach-IsManaged :
      {c d : Config} → IsManaged fold env c.server → Reach c d → IsManaged fold env d.server
  Reach-IsManaged h here = h
  Reach-IsManaged h (next r st) = Step-IsManaged st (Reach-IsManaged h r)
