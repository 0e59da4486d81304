-- ===== src/Server/Forwards/Created.antt =====
-- internal/server/api.go: `handleCreateForward` where it answers 201.
use spawn_relay.Common.{
  ℕ, ◌≡◌, ◌≢◌, refl, arith, true, [], ◌∷◌, ◌++◌, none, some, Text, Bool-cases, Option-cases, inl,
  inr,
}
use spawn_relay.Store.{
  Client, Forward, Error, not_found, conflict, validation, internal, client_by_id, port_conflict,
}
use spawn_relay.Store.Validate.{validate}
use spawn_relay.Tunnel.{apply}
use spawn_relay.Tunnel.Apply.{IsBound}
use spawn_relay.Tunnel.Listeners.{Serves, apply-Serves}
use spawn_relay.Server.{
  Env, Server, saved, set_forwards, is_reserved, notify_forwards, sync_firewall, error_status,
  has_session,
}
use spawn_relay.Server.Forwards.{
  ForwardInput, listen, new_forward, insert_forward, create_checked, create_forward,
}

-- `t` is `s` with the forward, saved, and its listener
pub record IsCreated (f : Forward) (s t : Server) : Type 0 where
  pub stored : t.state.forwards ≡ s.state.forwards ++ f ∷ []
  pub saved : t.disk ≡ t.state
  pub serves : Serves s.runners t.runners f

IsCreated-notify :
    (f : Forward) (id : Text) (s t : Server)
    → IsCreated f s t
    → IsCreated f s (notify_forwards id t)
unfolding notify_forwards
IsCreated-notify f id s t c = elim (Bool-cases (has_session id t.online)) [
  | inl on ↦ simp on (record { stored = c.stored; saved = c.saved; serves = c.serves })
  | inr off ↦ simp off c
]

module _ (env : Env) where
  IsCreated-sync :
      (f : Forward) (s t : Server) → IsCreated f s t → IsCreated f s (sync_firewall env t)
  unfolding sync_firewall
  IsCreated-sync f s t c = record { stored = c.stored; saved = c.saved; serves = c.serves }

  abbrev pub inserted : Forward → Server → Server
  inserted f s =
      set_forwards (s.state.forwards ++ f ∷ [])
        (record s { runners = (apply env.busy s.runners f).0 })

  pub insert_forward-done :
      (f : Forward) (s : Server) {c : Client}
      → client_by_id s.state f.client_id ≡ some c
      → port_conflict s.state f ≡ none
      → (apply env.busy s.runners f).1 ≡ none
      → insert_forward env f s ≡ (inserted f s, none)
  unfolding insert_forward
  insert_forward-done f s found free fine =
      rw (found, insert_forward) (rw free (rw (fine, listen) refl))

  saved-done :
      (s : Server) → env.saves ≡ true → saved env (s, none) ≡ (record s { disk = s.state }, none)
  unfolding saved
  saved-done s on = rw on refl

  not_created : (e : Error) → error_status e ≢ 201
  not_created not_found h = absurd (omega arith)
  not_created conflict h = absurd (omega arith)
  not_created validation h = absurd (omega arith)
  not_created internal h = absurd (omega arith)

  create_checked-done :
      (f : Forward) (s t : Server)
      → saved env (insert_forward env f s) ≡ (t, none)
      → create_checked env f s ≡ (sync_firewall env (notify_forwards f.client_id t), 201)
  unfolding create_checked
  create_checked-done f s t e = rw (e, create_checked) (rw e refl)

  create_checked-IsCreated :
      (f : Forward) (s : Server)
      → IsBound env.busy s.runners
      → (create_checked env f s).1 ≡ 201
      → IsCreated f s (create_checked env f s).0
  unfolding create_checked insert_forward saved
  create_checked-IsCreated f s b h = elim (Option-cases (client_by_id s.state f.client_id)) [
    | inl missing ↦ absurd (ground arith)
    | inr (c, found) ↦ elim (Option-cases (port_conflict s.state f)) [
      | inr (o, clash) ↦ absurd (ground arith)
      | inl free ↦ elim (Option-cases (apply env.busy s.runners f).1) [
        | inr (e, bad) ↦ absurd (ground arith)
        | inl fine ↦ elim (Bool-cases env.saves) [
          | inr off ↦ absurd (ground arith)
          | inl on ↦
              let t : Server = record (inserted f s) { disk = (inserted f s).state } in
              let e : saved env (insert_forward env f s) ≡ (t, none) =
                rw (insert_forward-done f s found free fine) (saved-done (inserted f s) on) in
              rw (create_checked-done f s t e) (
                IsCreated-sync f s _ (
                  IsCreated-notify f f.client_id s t (record {
                    stored = refl;
                    saved = refl;
                    serves = apply-Serves env.busy s.runners f b fine;
                  })))
        ]
      ]
    ]
  ]

  -- A request to create a forward that is answered 201, where the listeners are bound, has put
  -- that forward into the store, in memory and in the state file, and its listener runs exactly
  -- if it is enabled; no other listener changed.
  pub create_forward-IsCreated :
      (id : Text) (now : ℕ) (inp : ForwardInput) (s : Server)
      → IsBound env.busy s.runners
      → (create_forward env id now (some inp) s).1 ≡ 201
      → IsCreated (new_forward id now inp) s (create_forward env id now (some inp) s).0
  unfolding create_forward
  create_forward-IsCreated id now inp s b h =
      let f = new_forward id now inp in
      elim (Option-cases (validate f)) [
        | inr (e, bad) ↦ absurd (not_created e (rw (bad, create_forward) at h))
        | inl good ↦ elim (Bool-cases (is_reserved env f.public_port)) [
          | inl taken ↦ absurd (ground arith)
          | inr clear ↦
              let passed = rw (good, create_forward) at h in
              rw (good, create_forward)
                (rw clear (create_checked-IsCreated f s b (rw clear at passed)))
        ]
      ]
