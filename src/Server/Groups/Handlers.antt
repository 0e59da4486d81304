-- ===== src/Server/Groups/Handlers.antt =====
-- internal/server/groups.go: the handlers of groups and the state that they leave.
use spawn_relay.Common.{
  ℕ, ◌≡◌, refl, false, not, List, [], ◌∷◌, Option, none, some, Text, text_eq, All, Pairwise,
  Bool-cases, Option-cases, inl, inr, keep,
}
use spawn_relay.Store.{Forward, Result, ok, err}
use spawn_relay.Store.Conflict.{Separate}
use spawn_relay.Store.Order.{forwards_in_group}
use spawn_relay.Tunnel.{remove_all}
use spawn_relay.Tunnel.Group.{remove_all-IsBound}
use spawn_relay.Server.{Env, Server, saved, set_forwards, notify_forwards, sync_firewall}
use spawn_relay.Server.Invariant.{
  IsWellFormed, saved-IsWellFormed, notify_forwards-IsWellFormed, sync_firewall-IsWellFormed,
  keep-IsStored,
}
use spawn_relay.Server.Groups.{
  GroupInput, GroupFields, apply_fields, commit_group, expand_group, create_members, create_group,
  fresh_fields, current_fields, change_group, update_members, update_group, delete_members,
  delete_group,
}
use spawn_relay.Server.Groups.Commit.{Others}
use spawn_relay.Server.Groups.Members.{AreFresh}
use spawn_relay.Server.Groups.Invariant.{IsReady, commit_group-IsWellFormed}
use spawn_relay.Server.Groups.Expand.{expand_group-IsReady}
use spawn_relay.Server.Groups.Prior.{in_group-Separate, in_group-AreFresh, in_group-Others}

module _ (env : Env) where
  announce-IsWellFormed :
      (id : Text) (s : Server)
      → IsWellFormed env s
      → IsWellFormed env (sync_firewall env (notify_forwards id s))
  announce-IsWellFormed id s h =
      sync_firewall-IsWellFormed env (notify_forwards id s)
        (notify_forwards-IsWellFormed env id s h)

  create_members-IsWellFormed :
      (group_id : Text) (g : GroupFields) (members : List Forward) (s : Server)
      → IsWellFormed env s
      → IsReady env group_id g.client_id s.state.forwards members
      → IsWellFormed env (create_members env group_id g members s).0
  unfolding create_members
  create_members-IsWellFormed group_id g members s h r =
      let c = commit_group env group_id members [] s in
      let kept =
        saved-IsWellFormed env c.0 c.1
          (commit_group-IsWellFormed env group_id g.client_id members [] s h r) in
      elim (Option-cases (saved env c).1) [
        | inr (e, failed) ↦ rw (failed, create_members) kept
        | inl done ↦
            rw (done, create_members) (announce-IsWellFormed g.client_id (saved env c).0 kept)
      ]

  -- Creating a group keeps the server well formed, whatever the request and on every branch, if
  -- the ids that `NewID` returns for its members are new and distinct.
  pub create_group-IsWellFormed :
      (group_id : Text) (fresh : ℕ → Text) (now : ℕ) (inp : Option GroupInput) (s : Server)
      → IsWellFormed env s
      → AreFresh fresh s.state.forwards
      → IsWellFormed env (create_group env group_id fresh now inp s).0
  unfolding create_group
  create_group-IsWellFormed group_id fresh now none s h new = h
  create_group-IsWellFormed group_id fresh now (some inp) s h new =
      go (expand_group env group_id g [] now fresh) refl
    where
      g : GroupFields
      g = apply_fields inp (fresh_fields env)

      go :
          (r : Result (List Forward))
          → expand_group env group_id g [] now fresh ≡ r
          → IsWellFormed env (create_group env group_id fresh now (some inp) s).0
      go (err x) e = rw (e, create_group) h
      go (ok members) e =
          rw (e, create_group)
            (create_members-IsWellFormed group_id g members s h (
              expand_group-IsReady env group_id g [] now fresh s.state.forwards members tt
                (record { distinct = new.distinct; unused = λ i. tt }) new tt e))

  change_group-IsWellFormed :
      (id : Text) (fresh : ℕ → Text) (now : ℕ) (inp : GroupInput) (first : Forward)
      (prev : List Forward) (s : Server)
      → IsWellFormed env s
      → Pairwise Separate prev
      → AreFresh fresh prev
      → AreFresh fresh s.state.forwards
      → All (λ p. Others id (λ o. text_eq o.id p.id ≡ false) s.state.forwards) prev
      → IsWellFormed env (change_group env id fresh now inp first prev s).0
  unfolding change_group
  change_group-IsWellFormed id fresh now inp first prev s h p a b old =
      go (expand_group env id g prev now fresh) refl
    where
      g : GroupFields
      g = apply_fields inp (current_fields env first prev)

      go :
          (r : Result (List Forward))
          → expand_group env id g prev now fresh ≡ r
          → IsWellFormed env (change_group env id fresh now inp first prev s).0
      go (err x) e = rw (e, change_group) h
      go (ok next) e =
          rw (e, change_group)
            (commit_group-IsWellFormed env id g.client_id next prev s h
              (expand_group-IsReady env id g prev now fresh s.state.forwards next p a b old e))

  update_members-IsWellFormed :
      (id : Text) (fresh : ℕ → Text) (now : ℕ) (inp : GroupInput) (prev : List Forward) (s : Server)
      → IsWellFormed env s
      → Pairwise Separate prev
      → AreFresh fresh prev
      → AreFresh fresh s.state.forwards
      → All (λ p. Others id (λ o. text_eq o.id p.id ≡ false) s.state.forwards) prev
      → IsWellFormed env (update_members env id fresh now inp prev s).0
  unfolding update_members
  update_members-IsWellFormed id fresh now inp [] s h p a b old = h
  update_members-IsWellFormed id fresh now inp (first ∷ rest) s h p a b old =
      let c = change_group env id fresh now inp first (first ∷ rest) s in
      let g = apply_fields inp (current_fields env first (first ∷ rest)) in
      let r = saved env c in
      let kept =
        saved-IsWellFormed env c.0 c.1
          (change_group-IsWellFormed id fresh now inp first (first ∷ rest) s h p a b old) in
      let told = notify_forwards-IsWellFormed env g.client_id r.0 kept in
      elim (Option-cases r.1) [
        | inr (e, failed) ↦ rw (failed, update_members) kept
        | inl done ↦
            rw (done, update_members)
              (sync_firewall-IsWellFormed env _
                (elim (Bool-cases (text_eq first.client_id g.client_id)) [
                  | inl stays ↦ rw stays told
                  | inr moved ↦ rw moved (
                      notify_forwards-IsWellFormed env first.client_id
                        (notify_forwards g.client_id r.0) told)
                ]))
      ]

  -- Updating a group keeps the server well formed, whatever the request and on every branch, a
  -- rollback and a failed save included, if the ids that `NewID` returns for its members are
  -- new and distinct. Well formed: forwards have distinct ids, no two need one socket, each is
  -- valid, off the relay's own ports and owned by a client, and the listeners are bound.
  pub update_group-IsWellFormed :
      (id : Text) (fresh : ℕ → Text) (now : ℕ) (inp : Option GroupInput) (s : Server)
      → IsWellFormed env s
      → AreFresh fresh s.state.forwards
      → IsWellFormed env (update_group env id fresh now inp s).0
  unfolding update_group
  update_group-IsWellFormed id fresh now none s h new = h
  update_group-IsWellFormed id fresh now (some inp) s h new =
      update_members-IsWellFormed id fresh now inp (forwards_in_group s.state id) s h
        (in_group-Separate s.state id h.stored.separate)
        (in_group-AreFresh s.state id h.stored.separate fresh new) new
        (in_group-Others s.state id h.stored.separate)

  delete_members-IsWellFormed :
      (id : Text) (removed : List Forward) (s : Server)
      → IsWellFormed env s
      → IsWellFormed env (delete_members env id removed s).0
  unfolding delete_members
  delete_members-IsWellFormed id [] s h = h
  delete_members-IsWellFormed id (first ∷ removed) s h =
      let t = set_forwards (keep (λ o. not (text_eq o.group_id id)) s.state.forwards) s in
      let r = saved env (t, none) in
      let kept = saved-IsWellFormed env t none (record {
        stored =
            keep-IsStored env s.state.clients (λ o. not (text_eq o.group_id id)) s.state.forwards
              h.stored;
        bound = h.bound;
      }) in
      elim (Option-cases r.1) [
        | inr (e, failed) ↦ rw (failed, delete_members) kept
        | inl done ↦
            rw (done, delete_members)
              (announce-IsWellFormed first.client_id
                (record r.0 { runners = remove_all r.0.runners (first ∷ removed) })
                (record {
                  stored = kept.stored;
                  bound = remove_all-IsBound env.busy r.0.runners (first ∷ removed) kept.bound;
                }))
      ]

  -- Deleting a group keeps the server well formed, on every branch.
  pub delete_group-IsWellFormed :
      (id : Text) (s : Server) → IsWellFormed env s → IsWellFormed env (delete_group env id s).0
  unfolding delete_group
  delete_group-IsWellFormed id s h =
      delete_members-IsWellFormed id (forwards_in_group s.state id) s h
