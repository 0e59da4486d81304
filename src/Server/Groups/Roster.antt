-- ===== src/Server/Groups/Roster.antt =====
-- internal/server/groups.go: the handlers of groups leave the clients alone.
use spawn_relay.Common.{
  ℕ, ◌≡◌, refl, arith, not, List, [], ◌∷◌, Option, none, some, Text, text_eq, keep,
}
use spawn_relay.Store.{Forward, Error, Result, ok, err}
use spawn_relay.Store.Order.{forwards_in_group}
use spawn_relay.Tunnel.{remove_all}
use spawn_relay.Server.{Env, Server, saved, set_forwards, notify_forwards}
use spawn_relay.Server.Roster.{clients_of, clients-saved, clients-announce, clients-notify_forwards}
use spawn_relay.Server.Groups.{
  GroupInput, GroupFields, fresh_fields, current_fields, swap_group, commit_group, create_members,
  create_group, change_group, update_members, update_group, delete_members, delete_group,
  expand_group, apply_fields,
}

module _ (env : Env) where
  clients-swap_group :
      (id : Text) (next prev : List Forward) (s : Server)
      → clients_of (swap_group env id next prev s).0 ≡ clients_of s
  unfolding swap_group
  clients-swap_group id next prev s = ground arith

  clients-commit_group :
      (id : Text) (next prev : List Forward) (s : Server)
      → clients_of (commit_group env id next prev s).0 ≡ clients_of s
  unfolding commit_group
  clients-commit_group id [] prev s = refl
  clients-commit_group id (f ∷ fs) prev s = ground (arith, clients-swap_group id (f ∷ fs) prev s)

  clients-create_members :
      (id : Text) (g : GroupFields) (members : List Forward) (s : Server)
      → clients_of (create_members env id g members s).0 ≡ clients_of s
  unfolding create_members
  clients-create_members id g members s =
      let c = commit_group env id members [] s in
      ground (
        arith,
        clients-saved env c,
        clients-commit_group id members [] s,
        clients-announce env g.client_id (saved env c).0,
      )

  pub clients-create_group :
      (id : Text) (fresh : ℕ → Text) (now : ℕ) (inp : Option GroupInput) (s : Server)
      → clients_of (create_group env id fresh now inp s).0 ≡ clients_of s
  unfolding create_group
  clients-create_group id fresh now none s = refl
  clients-create_group id fresh now (some inp) s = go (expand_group env id g [] now fresh) refl
    where
      g : GroupFields
      g = apply_fields inp (fresh_fields env)

      go :
          (r : Result (List Forward))
          → expand_group env id g [] now fresh ≡ r
          → clients_of (create_group env id fresh now (some inp) s).0 ≡ clients_of s
      go (err x) e = rw (e, create_group) refl
      go (ok members) e = rw (e, create_group) (clients-create_members id g members s)

  clients-change_group :
      (id : Text) (fresh : ℕ → Text) (now : ℕ) (inp : GroupInput) (first : Forward)
      (prev : List Forward) (s : Server)
      → clients_of (change_group env id fresh now inp first prev s).0 ≡ clients_of s
  unfolding change_group
  clients-change_group id fresh now inp first prev s =
      go (expand_group env id (apply_fields inp (current_fields env first prev)) prev now fresh)
        refl
    where
      go :
          (r : Result (List Forward))
          → expand_group env id (apply_fields inp (current_fields env first prev)) prev now fresh
            ≡ r
          → clients_of (change_group env id fresh now inp first prev s).0 ≡ clients_of s
      go (err x) e = rw (e, change_group) refl
      go (ok next) e = rw (e, change_group) (clients-commit_group id next prev s)

  clients-update_members :
      (id : Text) (fresh : ℕ → Text) (now : ℕ) (inp : GroupInput) (prev : List Forward) (s : Server)
      → clients_of (update_members env id fresh now inp prev s).0 ≡ clients_of s
  unfolding update_members
  clients-update_members id fresh now inp [] s = refl
  clients-update_members id fresh now inp (first ∷ rest) s =
      let c = change_group env id fresh now inp first (first ∷ rest) s in
      let g = apply_fields inp (current_fields env first (first ∷ rest)) in
      let r = saved env c in
      let told = notify_forwards g.client_id r.0 in
      ground (
        arith,
        clients-saved env c,
        clients-change_group id fresh now inp first (first ∷ rest) s,
        clients-announce env g.client_id r.0,
        clients-announce env first.client_id told,
        clients-notify_forwards g.client_id r.0,
      )

  pub clients-update_group :
      (id : Text) (fresh : ℕ → Text) (now : ℕ) (inp : Option GroupInput) (s : Server)
      → clients_of (update_group env id fresh now inp s).0 ≡ clients_of s
  unfolding update_group
  clients-update_group id fresh now none s = refl
  clients-update_group id fresh now (some inp) s =
      clients-update_members id fresh now inp (forwards_in_group s.state id) s

  clients-delete_members :
      (id : Text) (removed : List Forward) (s : Server)
      → clients_of (delete_members env id removed s).0 ≡ clients_of s
  unfolding delete_members
  clients-delete_members id [] s = refl
  clients-delete_members id (first ∷ removed) s =
      let c : Server × Option Error =
        (set_forwards (keep (λ o. not (text_eq o.group_id id)) s.state.forwards) s, none) in
      let s' = (saved env c).0 in
      let stopped : Server = record s' { runners = remove_all s'.runners (first ∷ removed) } in
      ground (arith, clients-saved env c, clients-announce env first.client_id stopped)

  pub clients-delete_group :
      (id : Text) (s : Server) → clients_of (delete_group env id s).0 ≡ clients_of s
  unfolding delete_group
  clients-delete_group id s = clients-delete_members id (forwards_in_group s.state id) s
