-- ===== src/Server/Forwards/Roster.antt =====
-- internal/server/api.go: the handlers of forwards leave the clients alone.
use spawn_relay.Common.{ℕ, ◌≡◌, refl, arith, Option, none, some, Text, Option-cases, inl, inr}
use spawn_relay.Store.{Forward, Error, forward_by_id}
use spawn_relay.Tunnel.{remove}
use spawn_relay.Server.{Env, Server, saved, set_forwards, notify_forwards}
use spawn_relay.Server.Roster.{clients_of, clients-saved, clients-announce, clients-notify_forwards}
use spawn_relay.Server.Forwards.{
  ForwardInput, apply_to, without, new_forward, insert_forward, create_checked, create_forward,
  change_forward, update_found, update_forward, delete_found, delete_forward,
}

module _ (env : Env) where
  clients-insert_forward :
      (f : Forward) (s : Server) → clients_of (insert_forward env f s).0 ≡ clients_of s
  unfolding insert_forward
  clients-insert_forward f s = ground arith

  clients-create_checked :
      (f : Forward) (s : Server) → clients_of (create_checked env f s).0 ≡ clients_of s
  unfolding create_checked
  clients-create_checked f s =
      let r = saved env (insert_forward env f s) in
      ground (
        arith,
        clients-saved env (insert_forward env f s),
        clients-insert_forward f s,
        clients-announce env f.client_id r.0,
      )

  pub clients-create_forward :
      (id : Text) (now : ℕ) (inp : Option ForwardInput) (s : Server)
      → clients_of (create_forward env id now inp s).0 ≡ clients_of s
  unfolding create_forward
  clients-create_forward id now none s = refl
  clients-create_forward id now (some inp) s =
      ground (arith, clients-create_checked (new_forward id now inp) s)

  clients-change_forward :
      (f next : Forward) (s : Server) → clients_of (change_forward env f next s).0 ≡ clients_of s
  unfolding change_forward
  clients-change_forward f next s = ground arith

  clients-update_found :
      (now : ℕ) (inp : ForwardInput) (f : Forward) (s : Server)
      → clients_of (update_found env now inp f s).0 ≡ clients_of s
  unfolding update_found
  clients-update_found now inp f s =
      let next : Forward = record (apply_to inp f) { updated_at = now } in
      let c = change_forward env f next s in
      let r = saved env c in
      let told = notify_forwards next.client_id r.0 in
      ground (
        arith,
        clients-saved env c,
        clients-change_forward f next s,
        clients-announce env next.client_id r.0,
        clients-announce env f.client_id told,
        clients-notify_forwards next.client_id r.0,
      )

  pub clients-update_forward :
      (id : Text) (now : ℕ) (inp : Option ForwardInput) (s : Server)
      → clients_of (update_forward env id now inp s).0 ≡ clients_of s
  unfolding update_forward
  clients-update_forward id now none s = refl
  clients-update_forward id now (some inp) s = elim (Option-cases (forward_by_id s.state id)) [
    | inl missing ↦ rw (missing, update_forward) refl
    | inr (f, found) ↦ rw (found, update_forward) (clients-update_found now inp f s)
  ]

  clients-delete_found :
      (id : Text) (f : Forward) (s : Server) → clients_of (delete_found env id f s).0 ≡ clients_of s
  unfolding delete_found
  clients-delete_found id f s =
      let c : Server × Option Error = (set_forwards (without id s.state.forwards) s, none) in
      let s' = (saved env c).0 in
      let stopped : Server = record s' { runners = remove s'.runners id } in
      ground (arith, clients-saved env c, clients-announce env f.client_id stopped)

  pub clients-delete_forward :
      (id : Text) (s : Server) → clients_of (delete_forward env id s).0 ≡ clients_of s
  unfolding delete_forward
  clients-delete_forward id s = elim (Option-cases (forward_by_id s.state id)) [
    | inl missing ↦ rw (missing, delete_forward) refl
    | inr (f, found) ↦ rw (found, delete_forward) (clients-delete_found id f s)
  ]
