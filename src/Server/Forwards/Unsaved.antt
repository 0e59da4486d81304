-- ===== src/Server/Forwards/Unsaved.antt =====
-- internal/server/api.go: `handleCreateForward` where the state file cannot be written.
use spawn_relay.Common.{ℕ, ◌≡◌, refl, false, [], ◌∷◌, ◌++◌, none, some, Text}
use spawn_relay.Store.{Forward, Client, internal, client_by_id, port_conflict}
use spawn_relay.Store.Validate.{validate}
use spawn_relay.Tunnel.{apply, running, remove}
use spawn_relay.Tunnel.Apply.{running-stop_self}
use spawn_relay.Server.{Env, Server, saved, is_reserved}
use spawn_relay.Server.Forwards.{
  ForwardInput, new_forward, insert_forward, create_checked, create_forward,
}
use spawn_relay.Server.Forwards.Created.{inserted, insert_forward-done}

module _ (env : Env) where
  saved-undone : (s : Server) → env.saves ≡ false → saved env (s, none) ≡ (s, some internal)
  unfolding saved
  saved-undone s off = rw off refl

  create_checked-undone :
      (f : Forward) (s t : Server)
      → saved env (insert_forward env f s) ≡ (t, some internal)
      → create_checked env f s ≡ (record t { runners = remove t.runners f.id }, 500)
  unfolding create_checked
  create_checked-undone f s t e = rw (e, create_checked) (rw e refl)

  -- A request to create a forward that passes every check and gets its listener, where the
  -- state file cannot be written, is answered 500 and its listener is stopped and the state
  -- file is as it was, but the forward stays in the store's memory.
  pub create_forward_unsaved :
      (id : Text) (now : ℕ) (inp : ForwardInput) (s : Server) (c : Client)
      → env.saves ≡ false
      → validate (new_forward id now inp) ≡ none
      → is_reserved env (new_forward id now inp).public_port ≡ false
      → client_by_id s.state (new_forward id now inp).client_id ≡ some c
      → port_conflict s.state (new_forward id now inp) ≡ none
      → (apply env.busy s.runners (new_forward id now inp)).1 ≡ none
      → let (t, status) = create_forward env id now (some inp) s in
        (status ≡ 500)
        × (t.state.forwards ≡ s.state.forwards ++ new_forward id now inp ∷ [])
        × (t.disk ≡ s.disk)
        × (running (new_forward id now inp).id t.runners ≡ none)
  unfolding create_forward
  create_forward_unsaved id now inp s c off good clear found free fine =
      let f = new_forward id now inp in
      let t = inserted env f s in
      let e : saved env (insert_forward env f s) ≡ (t, some internal) =
        rw (insert_forward-done env f s found free fine) (saved-undone t off) in
      rw (good, create_forward)
        (rw clear
          (rw (create_checked-undone f s t e) (refl, refl, refl, running-stop_self f.id t.runners)))
