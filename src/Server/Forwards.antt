-- ===== src/Server/Forwards.antt =====
-- internal/server/api.go: the handlers of single forwards.
pub mod Replace
pub mod Invariant
pub mod Created
pub mod Unsaved
pub mod Roster
use spawn_relay.Common.{
  ℕ, ◌==◌, Bool, true, false, not, ◌&&◌, ◌||◌, List, [], ◌∷◌, ◌++◌, Option, none, some, Text, codes,
  text_eq, itoa, trim_space, to_lower, is_empty, if◌then◌else◌, keep, find, ltb, length,
}
use spawn_relay.Store.{
  State, Forward, Client, Error, not_found, conflict, validation, internal, client_by_id,
  forward_by_id, port_conflict, proto_tcp,
}
use spawn_relay.Store.Validate.{validate}
use spawn_relay.Store.Order.{forwards_in_group}
use spawn_relay.Tunnel.{Runners, BindError, apply, remove}
use spawn_relay.Server.{
  Env, Server, saved, set_forwards, is_reserved, notify_forwards, sync_firewall, error_status,
}

-- `forwardInput`. A negative port stands as 0: `Validate` rejects both.
pub record ForwardInput : Type 0 where
  pub client_id : Option Text
  pub name : Option Text
  pub protocol : Option Text
  pub public_port : Option ℕ
  pub target_host : Option Text
  pub target_port : Option ℕ
  pub enabled : Option Bool

abbrev or_else {ℓ} : {A : Type ℓ} → Option A → A → A
or_else none d = d
or_else (some a) d = a

abbrev map_or : Option Text → (Text → Text) → Text → Text
map_or none f d = d
map_or (some a) f d = f a

-- `forwardInput.applyTo`
unfoldable pub apply_to : ForwardInput → Forward → Forward
apply_to inp f = record f {
  client_id = map_or inp.client_id trim_space f.client_id;
  name = map_or inp.name trim_space f.name;
  protocol = map_or inp.protocol (λ p. to_lower (trim_space p)) f.protocol;
  public_port = or_else inp.public_port f.public_port;
  target_host = map_or inp.target_host trim_space f.target_host;
  target_port = or_else inp.target_port f.target_port;
  enabled = or_else inp.enabled f.enabled;
}

-- the two convenient defaults: the same port on both ends
pub default_ports : ForwardInput → Forward → Forward
default_ports inp f = elim inp.public_port [
  | none ↦ elim inp.target_port [ none ↦ f | some _ ↦ record f { public_port = f.target_port } ]
  | some _ ↦ elim inp.target_port [ none ↦ record f { target_port = f.public_port } | some _ ↦ f ]
]

pub default_name : Forward → Forward
default_name f =
    if is_empty f.name
    then record f { name = f.protocol ++ (codes "-" ++ itoa f.public_port) }
    else f

-- what `handleCreateForward` starts from
unfoldable pub initial_forward : Text → ℕ → Forward
initial_forward id now = record {
  id = id;
  client_id = [];
  group_id = id;
  name = [];
  protocol = proto_tcp;
  public_port = 0;
  target_host = codes "127.0.0.1";
  target_port = 0;
  enabled = true;
  created_at = now;
  updated_at = now;
}

-- the forward that it checks
unfoldable pub new_forward : Text → ℕ → ForwardInput → Forward
unfolding default_ports default_name apply_to initial_forward
new_forward id now inp = default_name (default_ports inp (apply_to inp (initial_forward id now)))

-- `*f = next` for the forward `f` that `ForwardByID` found
abbrev pub replace : Forward → List Forward → List Forward
replace next [] = []
replace next (f ∷ fs) = if text_eq f.id next.id then next ∷ fs else f ∷ replace next fs

abbrev pub without : Text → List Forward → List Forward
without id fs = keep (λ f. not (text_eq f.id id)) fs

module _ (env : Env) where
  -- `tunnel.Apply` inside an update: a bind error is a conflict
  abbrev pub listen : Forward → (Server → Server) → Server → Server × Option Error
  listen f commit s =
      let (rs, failed) = apply env.busy s.runners f in
      elim failed [
        | some _ ↦ (record s { runners = rs }, some conflict)
        | none ↦ (commit (record s { runners = rs }), none)
      ]

  abbrev add_forward : Forward → Server → Server
  add_forward f s = set_forwards (s.state.forwards ++ f ∷ []) s

  -- the function that `handleCreateForward` gives to `Update`
  pub insert_forward : Forward → Server → Server × Option Error
  insert_forward f s = elim (client_by_id s.state f.client_id) [
    | none ↦ (s, some validation)
    | some _ ↦ elim (port_conflict s.state f) [
      | some _ ↦ (s, some conflict)
      | none ↦ listen f (add_forward f) s
    ]
  ]

  abbrev announce : Text → ℕ → Server → Server × ℕ
  announce client status s = (sync_firewall env (notify_forwards client s), status)

  create_checked : Forward → Server → Server × ℕ
  create_checked f s =
      let (s', failed) = saved env (insert_forward f s) in
      elim failed [
        | some e ↦ (record s' { runners = remove s'.runners f.id }, error_status e)
        | none ↦ announce f.client_id 201 s'
      ]

  -- `handleCreateForward`; `id` is the new id
  unfoldable pub create_forward : Text → ℕ → Option ForwardInput → Server → Server × ℕ
  unfolding create_checked insert_forward
  create_forward id now none s = (s, 400)
  create_forward id now (some inp) s =
      let f = new_forward id now inp in
      elim (validate f) [
        | some e ↦ (s, error_status e)
        | none ↦ if is_reserved env f.public_port then (s, 409) else create_checked f s
      ]

  -- the checks on `next` in the function that `handleUpdateForward` gives to `Update`
  check_update : State → Forward → Forward → Option Error
  check_update st f next =
      if not (text_eq next.client_id f.client_id)
        && ltb 1 (length (forwards_in_group st f.group_id))
      then some validation
      else elim (validate next) [
        | some e ↦ some e
        | none ↦
            if is_reserved env next.public_port
            then some conflict
            else elim (client_by_id st next.client_id) [
              | none ↦ some validation
              | some _ ↦ elim (port_conflict st next) [ some _ ↦ some conflict | none ↦ none ]
            ]
      ]

  abbrev put_forward : Forward → Server → Server
  put_forward next s = set_forwards (replace next s.state.forwards) s

  change_forward : Forward → Forward → Server → Server × Option Error
  change_forward f next s = elim (check_update s.state f next) [
    | some e ↦ (s, some e)
    | none ↦ listen next (put_forward next) s
  ]

  update_found : ℕ → ForwardInput → Forward → Server → Server × ℕ
  update_found now inp f s =
      let next : Forward = record (apply_to inp f) { updated_at = now } in
      let (s', failed) = saved env (change_forward f next s) in
      elim failed [
        | some e ↦ (s', error_status e)
        | none ↦
            let told = notify_forwards next.client_id s' in
            (
              sync_firewall env (
                  if text_eq f.client_id next.client_id
                  then told
                  else notify_forwards f.client_id told),
              200,
            )
      ]

  -- `handleUpdateForward`
  unfoldable pub update_forward : Text → ℕ → Option ForwardInput → Server → Server × ℕ
  unfolding update_found change_forward check_update
  update_forward id now none s = (s, 400)
  update_forward id now (some inp) s = elim (forward_by_id s.state id) [
    | none ↦ (s, 404)
    | some f ↦ update_found now inp f s
  ]

  delete_found : Text → Forward → Server → Server × ℕ
  delete_found id f s =
      let (s', failed) = saved env (set_forwards (without id s.state.forwards) s, none) in
      elim failed [
        | some e ↦ (s', error_status e)
        | none ↦ announce f.client_id 200 (record s' { runners = remove s'.runners id })
      ]

  -- `handleDeleteForward`
  unfoldable pub delete_forward : Text → Server → Server × ℕ
  unfolding delete_found
  delete_forward id s = elim (forward_by_id s.state id) [
    | none ↦ (s, 404)
    | some f ↦ delete_found id f s
  ]
