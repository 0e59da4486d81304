-- ===== src/Server/Forwards/Invariant.antt =====
-- internal/server/api.go: the handlers of single forwards and the state that they leave.
use spawn_relay.Common.{
  ℕ, ◌≡◌, false, not, List, Option, none, some, Text, text_eq, All, Bool-cases, Option-cases, inl,
  inr, arith,
}
use spawn_relay.Store.{State, Forward, Client, client_by_id, forward_by_id, port_conflict}
use spawn_relay.Store.Conflict.{port_conflict-none}
use spawn_relay.Store.Validate.{validate}
use spawn_relay.Tunnel.{Runners, apply, remove}
use spawn_relay.Tunnel.Apply.{IsBound, stop-IsBound}
use spawn_relay.Tunnel.Listeners.{apply-IsBound}
use spawn_relay.Server.{
  Env, Server, saved, set_forwards, is_reserved, notify_forwards, sync_firewall,
}
use spawn_relay.Server.Invariant.{
  IsAllowed, IsOwned, IsStored, IsWellFormed, saved-IsWellFormed, notify_forwards-IsWellFormed,
  sync_firewall-IsWellFormed, IsFit, append-IsStored, keep-IsStored,
}
use spawn_relay.Server.Forwards.{
  ForwardInput, new_forward, apply_to, listen, insert_forward, add_forward, create_checked,
  create_forward, replace, check_update, put_forward, change_forward, update_found, update_forward,
  without, delete_found, delete_forward,
}
use spawn_relay.Server.Forwards.Replace.{new_forward-id, All-replace, Pairwise-replace}

abbrev pub IsFresh : Text → List Forward → Type 0
IsFresh id fs = All (λ o. text_eq o.id id ≡ false) fs

module _ (env : Env) where
  listen-IsWellFormed :
      (f : Forward) (commit : Server → Server) (s : Server)
      → IsWellFormed env s
      → ((rs : Runners)
          → IsBound env.busy rs
          → IsWellFormed env (commit (record s { runners = rs })))
      → IsWellFormed env (listen env f commit s).0
  listen-IsWellFormed f commit s h done =
      let bound = apply-IsBound env.busy s.runners f h.bound in
      elim (Option-cases (apply env.busy s.runners f).1) [
        | inl ok ↦ rw (ok, listen) (done (apply env.busy s.runners f).0 bound)
        | inr (e, failed) ↦ rw (failed, listen) (record { stored = h.stored; bound = bound })
      ]

  insert_forward-IsWellFormed :
      (f : Forward) (s : Server)
      → IsWellFormed env s
      → IsAllowed env f
      → IsFresh f.id s.state.forwards
      → IsWellFormed env (insert_forward env f s).0
  unfolding insert_forward client_by_id
  insert_forward-IsWellFormed f s h a fresh =
      elim (Option-cases (client_by_id s.state f.client_id)) [
        | inl missing ↦ rw (missing, insert_forward) h
        | inr (c, found) ↦ elim (Option-cases (port_conflict s.state f)) [
          | inr (o, taken) ↦ rw (found, insert_forward) (rw (taken, insert_forward) h)
          | inl clear ↦
              rw (found, insert_forward)
                (rw (clear, insert_forward)
                  (listen-IsWellFormed f (add_forward env f) s h (λ rs b. record {
                    stored =
                        append-IsStored env s.state.clients s.state.forwards f h.stored a (c, found)
                          (port_conflict-none s.state f clear) fresh;
                    bound = b;
                  })))
        ]
      ]

  announce-IsWellFormed :
      (id : Text) (s : Server)
      → IsWellFormed env s
      → IsWellFormed env (sync_firewall env (notify_forwards id s))
  announce-IsWellFormed id s h =
      sync_firewall-IsWellFormed env (notify_forwards id s)
        (notify_forwards-IsWellFormed env id s h)

  stop-IsWellFormed :
      (id : Text) (s : Server)
      → IsWellFormed env s
      → IsWellFormed env (record s { runners = remove s.runners id })
  stop-IsWellFormed id s h = record {
    stored = h.stored;
    bound = stop-IsBound env.busy id s.runners h.bound;
  }

  create_checked-IsWellFormed :
      (f : Forward) (s : Server)
      → IsWellFormed env s
      → IsAllowed env f
      → IsFresh f.id s.state.forwards
      → IsWellFormed env (create_checked env f s).0
  unfolding create_checked
  create_checked-IsWellFormed f s h a fresh =
      let r = saved env (insert_forward env f s) in
      let kept =
        saved-IsWellFormed env (insert_forward env f s).0 (insert_forward env f s).1
          (insert_forward-IsWellFormed f s h a fresh) in
      elim (Option-cases r.1) [
        | inl done ↦ rw (done, create_checked) (announce-IsWellFormed f.client_id r.0 kept)
        | inr (e, failed) ↦ rw (failed, create_checked) (stop-IsWellFormed f.id r.0 kept)
      ]

  -- Creating a forward keeps the server well formed, whatever the request and on every branch,
  -- with a failed save too, if the new id is not in use.
  pub create_forward-IsWellFormed :
      (id : Text) (now : ℕ) (inp : Option ForwardInput) (s : Server)
      → IsWellFormed env s
      → IsFresh id s.state.forwards
      → IsWellFormed env (create_forward env id now inp s).0
  unfolding create_forward
  create_forward-IsWellFormed id now none s h fresh = h
  create_forward-IsWellFormed id now (some inp) s h fresh =
      let f = new_forward id now inp in
      elim (Option-cases (validate f)) [
        | inr (e, bad) ↦ rw (bad, create_forward) h
        | inl good ↦ elim (Bool-cases (is_reserved env f.public_port)) [
          | inl taken ↦ rw (good, create_forward) (rw taken h)
          | inr clear ↦
              rw (good, create_forward)
                (rw clear (
                  create_checked-IsWellFormed f s h (record { valid = good; unreserved = clear })
                    (rw (new_forward-id id now inp) fresh)))
        ]
      ]

  replace-IsStored :
      (cs : List Client) (next : Forward) (fs : List Forward)
      → IsStored env cs fs
      → IsAllowed env next
      → IsOwned cs next
      → IsFit next fs
      → IsStored env cs (replace next fs)
  replace-IsStored cs next fs h a o fit = record {
    separate = Pairwise-replace next fs fit h.separate;
    allowed = All-replace (IsAllowed env) next fs a h.allowed;
    owned = All-replace (IsOwned cs) next fs o h.owned;
  }

  -- what the checks of an update establish
  check_update-none :
      (st : State) (f next : Forward)
      → check_update env st f next ≡ none
      → IsAllowed env next × IsOwned st.clients next × IsFit next st.forwards
  unfolding check_update client_by_id
  check_update-none st f next e =
      let good : validate next ≡ none = ground arith in
      let clear : is_reserved env next.public_port ≡ false = ground arith in
      let free : port_conflict st next ≡ none = ground arith in
      let owner : IsOwned st.clients next = elim (Option-cases (client_by_id st next.client_id)) [
        | inl missing ↦ absurd (ground arith)
        | inr found ↦ found
      ] in
      (record { valid = good; unreserved = clear }, owner, port_conflict-none st next free)

  change_forward-IsWellFormed :
      (f next : Forward) (s : Server)
      → IsWellFormed env s
      → IsWellFormed env (change_forward env f next s).0
  unfolding change_forward
  change_forward-IsWellFormed f next s h = elim (Option-cases (check_update env s.state f next)) [
    | inr (e, bad) ↦ rw (bad, change_forward) h
    | inl good ↦
        let (a, o, fit) = check_update-none s.state f next good in
        rw (good, change_forward)
          (listen-IsWellFormed next (put_forward env next) s h (λ rs b. record {
            stored = replace-IsStored s.state.clients next s.state.forwards h.stored a o fit;
            bound = b;
          }))
  ]

  update_found-IsWellFormed :
      (now : ℕ) (inp : ForwardInput) (f : Forward) (s : Server)
      → IsWellFormed env s
      → IsWellFormed env (update_found env now inp f s).0
  unfolding update_found
  update_found-IsWellFormed now inp f s h =
      let next : Forward = record (apply_to inp f) { updated_at = now } in
      let c = change_forward env f next s in
      let r = saved env c in
      let kept = saved-IsWellFormed env c.0 c.1 (change_forward-IsWellFormed f next s h) in
      let told = notify_forwards-IsWellFormed env next.client_id r.0 kept in
      elim (Option-cases r.1) [
        | inr (e, failed) ↦ rw (failed, update_found) kept
        | inl done ↦
            rw (done, update_found)
              (sync_firewall-IsWellFormed env _
                (elim (Bool-cases (text_eq f.client_id next.client_id)) [
                  | inl stays ↦ rw stays told
                  | inr moved ↦ rw moved (
                      notify_forwards-IsWellFormed env f.client_id
                        (notify_forwards next.client_id r.0) told)
                ]))
      ]

  -- Updating a forward keeps the server well formed, whatever the request and on every branch.
  pub update_forward-IsWellFormed :
      (id : Text) (now : ℕ) (inp : Option ForwardInput) (s : Server)
      → IsWellFormed env s
      → IsWellFormed env (update_forward env id now inp s).0
  unfolding update_forward
  update_forward-IsWellFormed id now none s h = h
  update_forward-IsWellFormed id now (some inp) s h =
      elim (Option-cases (forward_by_id s.state id)) [
        | inl missing ↦ rw (missing, update_forward) h
        | inr (f, found) ↦ rw (found, update_forward) (update_found-IsWellFormed now inp f s h)
      ]

  delete_found-IsWellFormed :
      (id : Text) (f : Forward) (s : Server)
      → IsWellFormed env s
      → IsWellFormed env (delete_found env id f s).0
  unfolding delete_found
  delete_found-IsWellFormed id f s h =
      let t = set_forwards (without id s.state.forwards) s in
      let r = saved env (t, none) in
      let kept = saved-IsWellFormed env t none (record {
        stored =
            keep-IsStored env s.state.clients (λ o. not (text_eq o.id id)) s.state.forwards
              h.stored;
        bound = h.bound;
      }) in
      elim (Option-cases r.1) [
        | inr (e, failed) ↦ rw (failed, delete_found) kept
        | inl done ↦
            rw (done, delete_found)
              (announce-IsWellFormed f.client_id (record r.0 { runners = remove r.0.runners id })
                (stop-IsWellFormed id r.0 kept))
      ]

  -- Deleting a forward keeps the server well formed, on every branch.
  pub delete_forward-IsWellFormed :
      (id : Text) (s : Server) → IsWellFormed env s → IsWellFormed env (delete_forward env id s).0
  unfolding delete_forward
  delete_forward-IsWellFormed id s h = elim (Option-cases (forward_by_id s.state id)) [
    | inl missing ↦ rw (missing, delete_forward) h
    | inr (f, found) ↦ rw (found, delete_forward) (delete_found-IsWellFormed id f s h)
  ]
