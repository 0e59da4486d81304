-- ===== src/Server/Clients.antt =====
-- internal/server/api.go: the handlers of clients.
pub mod Invariant
pub mod Managed
pub mod Handlers
pub mod Deletion
use spawn_relay.Common.{
  ℕ, ltb, Bool, true, false, not, ◌&&◌, ◌||◌, List, [], ◌∷◌, ◌++◌, Option, none, some, Text,
  text_eq, trim_space, if◌then◌else◌, keep, any, map, length, find,
}
use spawn_relay.Store.{State, Forward, Client, Error, not_found, conflict, client_by_id}
use spawn_relay.Store.Validate.{validate_name}
use spawn_relay.Tunnel.{remove_all}
use spawn_relay.Server.{Env, Server, saved, disconnect_client, sync_firewall, error_status}

abbrev pub set_clients : List Client → Server → Server
set_clients cs s = record s { state = record s.state { clients = cs } }

-- the assignments through the pointer that `ClientByID` returned
unfoldable pub change_client : Text → (Client → Client) → List Client → List Client
change_client id f [] = []
change_client id f (c ∷ cs) = if text_eq c.id id then f c ∷ cs else c ∷ change_client id f cs

unfoldable pub new_client : Text → Text → Text → ℕ → Client
new_client id name token now = record {
  id = id;
  name = name;
  token = token;
  created_at = now;
  updated_at = now;
  last_seen_at = none;
  last_addr = [];
  hostname = [];
  os = [];
  arch = [];
  client_version = [];
}

-- `fold` takes a code point to the least one of its orbit under Unicode case folding.
module _ (fold : ℕ → ℕ) where
  -- `strings.EqualFold`
  abbrev pub equal_fold : Text → Text → Bool
  equal_fold a b = text_eq (map fold a) (map fold b)

  -- the loop over the clients of `handleCreateClient`
  unfoldable pub name_taken : Text → List Client → Bool
  name_taken name cs = any (λ o. equal_fold o.name name) cs

  -- that of `handleUpdateClient`
  unfoldable pub name_taken_by_other : Text → Text → List Client → Bool
  name_taken_by_other id name cs = any (λ o. not (text_eq o.id id) && equal_fold o.name name) cs

module _ (fold : ℕ → ℕ) (env : Env) where
  add_client : Client → Server → Server × Option Error
  add_client c s =
      if name_taken fold c.name s.state.clients
      then (s, some conflict)
      else (set_clients (s.state.clients ++ c ∷ []) s, none)

  pub answer : ℕ → Server × Option Error → Server × ℕ
  answer status (s, some e) = (s, error_status e)
  answer status (s, none) = (s, status)

  -- `handleCreateClient`; `id` and `token` are the new id and the new token
  unfoldable pub create_client : Text → Text → ℕ → Option Text → Server → Server × ℕ
  unfolding add_client answer
  create_client id token now none s = (s, 400)
  create_client id token now (some raw) s = elim (validate_name (trim_space raw)) [
    | some e ↦ (s, error_status e)
    | none ↦ answer 201 (saved env (add_client (new_client id (trim_space raw) token now) s))
  ]

  rename : Text → ℕ → Client → Client
  rename name now c = record c { name = name; updated_at = now }

  touch : ℕ → Client → Client
  touch now c = record c { updated_at = now }

  -- the function that `handleUpdateClient` gives to `Update`, on the client with the id
  edit_client : Text → ℕ → Option Text → Server → Server × Option Error
  unfolding rename touch
  edit_client id now none s = (set_clients (change_client id (touch now) s.state.clients) s, none)
  edit_client id now (some raw) s = elim (validate_name (trim_space raw)) [
    | some e ↦ (s, some e)
    | none ↦
        if name_taken_by_other fold id (trim_space raw) s.state.clients
        then (s, some conflict)
        else (set_clients (change_client id (rename (trim_space raw) now) s.state.clients) s, none)
  ]

  pub find_client : Text → Server → (Server → Server × Option Error) → Server × Option Error
  find_client id s body = elim (client_by_id s.state id) [
    | none ↦ (s, some not_found)
    | some _ ↦ body s
  ]

  -- `handleUpdateClient`; the request is the optional name
  unfoldable pub update_client : Text → ℕ → Option (Option Text) → Server → Server × ℕ
  unfolding edit_client answer find_client
  update_client id now none s = (s, 400)
  update_client id now (some name) s =
      answer 200 (saved env (find_client id s (edit_client id now name)))

  retoken : Text → ℕ → Client → Client
  retoken token now c = record c { token = token; updated_at = now }

  then_disconnect : Text → Server × ℕ → Option Error → Server × ℕ
  then_disconnect id (s, status) (some _) = (s, status)
  then_disconnect id (s, status) none = (disconnect_client id s, status)

  -- `handleRotateClientToken`; `token` is the new token
  unfoldable pub rotate_token : Text → Text → ℕ → Server → Server × ℕ
  unfolding answer find_client retoken then_disconnect
  rotate_token id token now s =
      let r = saved env (
        find_client id s
          (λ t. (set_clients (change_client id (retoken token now) t.state.clients) t, none))) in
      then_disconnect id (answer 200 r) r.1

  abbrev pub owned_by : Text → List Forward → List Forward
  owned_by id fs = keep (λ f. text_eq f.client_id id) fs

  -- the function that `handleDeleteClient` gives to `Update`, on the client with the id
  drop_client : Text → Server → Server × Option Error
  drop_client id s = (
    record s {
      state = record s.state {
        forwards = keep (λ f. not (text_eq f.client_id id)) s.state.forwards;
        clients = keep (λ c. not (text_eq c.id id)) s.state.clients;
      };
    },
    none,
  )

  -- what follows the update: the listeners of the removed forwards, the session and the firewall
  clear_client : Text → List Forward → Server → Server
  clear_client id removed s =
      let t = disconnect_client id (record s { runners = remove_all s.runners removed }) in
      if ltb 0 (length removed) then sync_firewall env t else t

  finish_delete : Text → List Forward → Server × Option Error → Server × ℕ
  finish_delete id removed (s, some e) = (s, error_status e)
  finish_delete id removed (s, none) = (clear_client id removed s, 200)

  -- `handleDeleteClient`
  unfoldable pub delete_client : Text → Server → Server × ℕ
  unfolding find_client drop_client clear_client finish_delete
  delete_client id s =
      finish_delete id (owned_by id s.state.forwards)
        (saved env (find_client id s (drop_client id)))
