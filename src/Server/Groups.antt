-- ===== src/Server/Groups.antt =====
-- internal/server/groups.go: forward groups, the forwards created from one port spec.
pub mod Commit
pub mod Members
pub mod Invariant
pub mod Expand
pub mod Prior
pub mod Change
pub mod Handlers
pub mod Roster
use spawn_relay.Common.{
  ℕ, zero, suc, ◌+◌, ◌==◌, Bool, true, false, not, ◌&&◌, ◌||◌, List, [], ◌∷◌, ◌++◌, Option, none,
  some, Text, codes, text_eq, trim_space, to_lower, is_empty, if◌then◌else◌, keep, find,
}
use spawn_relay.Store.{
  State, Forward, Client, Error, Result, ok, err, ◌>>=◌, not_found, conflict, validation, internal,
  client_by_id, clash, proto_tcp,
}
use spawn_relay.Store.Validate.{validate, validate_name}
use spawn_relay.Store.Order.{forwards_in_group}
use spawn_relay.PortSpec.{PortEntry}
use spawn_relay.PortSpec.Parse.{parse_port_spec}
use spawn_relay.PortSpec.Render.{render_port_spec, group_spec}
use spawn_relay.Tunnel.{Runners, BindError, last_by_id, apply_group, remove_all}
use spawn_relay.Server.{
  Env, Server, saved, set_forwards, is_reserved, notify_forwards, sync_firewall, error_status,
}

pub record GroupInput : Type 0 where
  pub client_id : Option Text
  pub name : Option Text
  pub protocol : Option Text
  pub ports : Option Text
  pub target_host : Option Text
  pub enabled : Option Bool

pub record GroupFields : Type 0 where
  pub client_id : Text
  pub name : Text
  pub protocol : Text
  pub ports : Text
  pub target_host : Text
  pub enabled : Bool

abbrev map_or {ℓ} : {A : Type ℓ} → Option A → (A → A) → A → A
map_or none f d = d
map_or (some a) f d = f a

-- `groupInput.applyTo`
unfoldable pub apply_fields : GroupInput → GroupFields → GroupFields
apply_fields inp g = record {
  client_id = map_or inp.client_id trim_space g.client_id;
  name = map_or inp.name trim_space g.name;
  protocol = map_or inp.protocol (λ p. to_lower (trim_space p)) g.protocol;
  ports = map_or inp.ports (λ p. p) g.ports;
  target_host = map_or inp.target_host trim_space g.target_host;
  enabled = map_or inp.enabled (λ b. b) g.enabled;
}

-- `groupPortConflict`
unfoldable pub group_port_conflict : State → Text → Forward → Option Forward
group_port_conflict st group_id f =
    find (λ o. not (text_eq o.group_id group_id) && clash f o) st.forwards

-- `prevByKey`: the last member with the port and the protocol
unfoldable pub prev_by_key : ℕ → Text → List Forward → Option Forward
prev_by_key port proto [] = none
prev_by_key port proto (f ∷ fs) = elim (prev_by_key port proto fs) [
  | some g ↦ some g
  | none ↦ if f.public_port == port && text_eq f.protocol proto then some f else none
]

abbrev pub id_or : Option Forward → Text → Text
id_or none id = id
id_or (some old) id = old.id

abbrev created_or : Option Forward → ℕ → ℕ
created_or none now = now
created_or (some old) now = old.created_at

-- the member for one entry; `id` is the new id that is drawn for it
unfoldable pub member : Text → GroupFields → List Forward → ℕ → Text → PortEntry → Forward
member group_id g prev now id e =
    let old = prev_by_key e.public_port e.protocol prev in
    record {
      id = id_or old id;
      client_id = g.client_id;
      group_id = group_id;
      name = g.name;
      protocol = e.protocol;
      public_port = e.public_port;
      target_host = g.target_host;
      target_port = e.target_port;
      enabled = g.enabled;
      created_at = created_or old now;
      updated_at = now;
    }

-- the default name
abbrev named : GroupFields → List PortEntry → GroupFields
named g es = if is_empty g.name then record g { name = render_port_spec es } else g

abbrev check : Option Error → Result (Unit {0})
check none = ok tt
check (some e) = err e

module _ (env : Env) where
  -- the loop over the entries; `fresh` numbers the ids that `NewID` returns
  pub expand_entries :
      Text
      → GroupFields
      → List Forward
      → ℕ
      → (ℕ → Text)
      → ℕ
      → List PortEntry
      → Result (List Forward)
  expand_entries group_id g prev now fresh i [] = ok []
  expand_entries group_id g prev now fresh i (e ∷ es) = do
    _ ← check (validate (member group_id g prev now (fresh i) e))
    _ ← (if is_reserved env e.public_port then err conflict else ok (tt {0}))
    fs ← expand_entries group_id g prev now fresh (suc i) es
    ok (member group_id g prev now (fresh i) e ∷ fs)

  -- `expandGroup`
  unfoldable pub expand_group :
      Text → GroupFields → List Forward → ℕ → (ℕ → Text) → Result (List Forward)
  unfolding expand_entries
  expand_group group_id g prev now fresh = do
    es ← parse_port_spec g.ports g.protocol
    _ ← check (validate_name (named g es).name)
    expand_entries group_id (named g es) prev now fresh 0 es

abbrev pub drop_id : Text → List Forward → List Forward
drop_id id pending = keep (λ n. not (text_eq n.id id)) pending

-- The two loops that build `kept`. `pending` stands for the map `nextByID`: the members of `next`
-- that are still in it, in their order, which the last loop appends.
pub swap_members : Text → List Forward → List Forward → List Forward
swap_members group_id pending [] = pending
swap_members group_id pending (o ∷ os) =
    let other = o ∷ swap_members group_id pending os in
    let mine : List Forward = elim (last_by_id o.id pending) [
      | none ↦ swap_members group_id pending os
      | some n ↦ n ∷ swap_members group_id (drop_id o.id pending) os
    ] in
    if text_eq o.group_id group_id then mine else other

-- the first conflict of the loop over `next`
pub any_conflict : State → Text → List Forward → Bool
any_conflict st group_id [] = false
any_conflict st group_id (f ∷ fs) = elim (group_port_conflict st group_id f) [
  | some _ ↦ true
  | none ↦ any_conflict st group_id fs
]

module _ (env : Env) where
  -- `commitGroup` behind the checks
  pub swap_group : Text → List Forward → List Forward → Server → Server × Option Error
  swap_group group_id next prev s =
      let (rs, failed) = apply_group env.busy s.runners next prev in
      elim failed [
        | some _ ↦ (record s { runners = rs }, some conflict)
        | none ↦ (
          set_forwards (swap_members group_id next s.state.forwards) (record s { runners = rs }),
          none,
        )
      ]

  -- `commitGroup`. Without members `next[0]` panics, which stands as an internal error.
  unfoldable pub commit_group : Text → List Forward → List Forward → Server → Server × Option Error
  unfolding swap_group swap_members any_conflict group_port_conflict
  commit_group group_id [] prev s = (s, some internal)
  commit_group group_id (f ∷ fs) prev s = elim (client_by_id s.state f.client_id) [
    | none ↦ (s, some validation)
    | some _ ↦
        if any_conflict s.state group_id (f ∷ fs)
        then (s, some conflict)
        else swap_group group_id (f ∷ fs) prev s
  ]

  abbrev announce : Text → ℕ → Server → Server × ℕ
  announce client status s = (sync_firewall env (notify_forwards client s), status)

  abbrev fresh_fields : GroupFields
  fresh_fields = record {
    client_id = [];
    name = [];
    protocol = proto_tcp;
    ports = [];
    target_host = codes "127.0.0.1";
    enabled = true;
  }

  create_members : Text → GroupFields → List Forward → Server → Server × ℕ
  create_members group_id g members s =
      let (s', failed) = saved env (commit_group group_id members [] s) in
      elim failed [ some e ↦ (s', error_status e) | none ↦ announce g.client_id 201 s' ]

  -- `handleCreateGroup`; `group_id` is the new id of the group, `fresh` numbers those of the members
  unfoldable pub create_group : Text → (ℕ → Text) → ℕ → Option GroupInput → Server → Server × ℕ
  unfolding create_members
  create_group group_id fresh now none s = (s, 400)
  create_group group_id fresh now (some inp) s =
      let g = apply_fields inp fresh_fields in
      elim (expand_group env group_id g [] now fresh) [
        | err e ↦ (s, error_status e)
        | ok members ↦ create_members group_id g members s
      ]

  abbrev all_enabled : List Forward → Bool
  all_enabled [] = true
  all_enabled (f ∷ fs) = f.enabled && all_enabled fs

  -- the fields of a group that `handleUpdateGroup` takes from `groupOut`
  abbrev current_fields : Forward → List Forward → GroupFields
  current_fields first members = record {
    client_id = first.client_id;
    name = first.name;
    protocol = proto_tcp;
    ports = group_spec members;
    target_host = first.target_host;
    enabled = all_enabled members;
  }

  -- the function that `handleUpdateGroup` gives to `Update`, on a group with members
  change_group :
      Text → (ℕ → Text) → ℕ → GroupInput → Forward → List Forward → Server → Server × Option Error
  change_group id fresh now inp first prev s =
      elim (expand_group env id (apply_fields inp (current_fields first prev)) prev now fresh) [
        | err e ↦ (s, some e)
        | ok next ↦ commit_group id next prev s
      ]

  update_members : Text → (ℕ → Text) → ℕ → GroupInput → List Forward → Server → Server × ℕ
  update_members id fresh now inp [] s = (s, 404)
  update_members id fresh now inp (first ∷ prev) s =
      let (s', failed) = saved env (change_group id fresh now inp first (first ∷ prev) s) in
      let g = apply_fields inp (current_fields first (first ∷ prev)) in
      elim failed [
        | some e ↦ (s', error_status e)
        | none ↦
            let told = notify_forwards g.client_id s' in
            (
              sync_firewall env (
                  if text_eq first.client_id g.client_id
                  then told
                  else notify_forwards first.client_id told),
              200,
            )
      ]

  -- `handleUpdateGroup`
  unfoldable pub update_group : Text → (ℕ → Text) → ℕ → Option GroupInput → Server → Server × ℕ
  unfolding update_members change_group
  update_group id fresh now none s = (s, 400)
  update_group id fresh now (some inp) s =
      update_members id fresh now inp (forwards_in_group s.state id) s

  delete_members : Text → List Forward → Server → Server × ℕ
  delete_members id [] s = (s, 404)
  delete_members id (first ∷ removed) s =
      let kept = keep (λ o. not (text_eq o.group_id id)) s.state.forwards in
      let (s', failed) = saved env (set_forwards kept s, none) in
      elim failed [
        | some e ↦ (s', error_status e)
        | none ↦
            announce first.client_id 200
              (record s' { runners = remove_all s'.runners (first ∷ removed) })
      ]

  -- `handleDeleteGroup`
  unfoldable pub delete_group : Text → Server → Server × ℕ
  unfolding delete_members
  delete_group id s = delete_members id (forwards_in_group s.state id) s
