-- ===== src/Server/Clients/Handlers.antt =====
-- internal/server/api.go: the handlers of clients and the state that they leave.
use spawn_relay.Common.{
  ℕ, ◌≡◌, refl, Bool, false, not, ◌&&◌, List, [], ◌∷◌, ◌++◌, Option, none, some, Text, text_eq,
  text_eq_iff, trim_space, any, map, All, All-map, All_of, All-zip, Pairwise-concat, Bool-cases,
  Option-cases, inl, inr, arith,
}
use spawn_relay.Store.{Client, Error}
use spawn_relay.Store.Validate.{validate_name}
use spawn_relay.Server.{Env, Server, saved}
use spawn_relay.Server.Clients.{
  set_clients, change_client, new_client, equal_fold, name_taken, name_taken_by_other, add_client,
  answer, create_client, rename, touch, edit_client, find_client, update_client, retoken,
  then_disconnect, rotate_token,
}
use spawn_relay.Server.Clients.Invariant.{
  Distinct, IsTame, Pairwise-change_client, find-append, find-change_client,
}
use spawn_relay.Server.Clients.Managed.{
  IsManaged, saved-IsManaged, answer-server, set_clients-IsManaged, find_client-IsManaged,
  disconnect_client-IsManaged,
}

any-false : {A : Type 0} (p : A → Bool) (xs : List A) → any p xs ≡ false → All (λ x. p x ≡ false) xs
any-false p [] e = tt
any-false p (x ∷ xs) e = (ground arith, any-false p xs (ground arith))

module _ (fold : ℕ → ℕ) (env : Env) where
  -- the id of a new client is not in use
  abbrev pub IsNewId : Text → Server → Type 0
  IsNewId id s = All (λ (c : Client). text_eq c.id id ≡ false) s.state.clients

  add_client-IsManaged :
      (c : Client) (s : Server)
      → IsManaged fold env s
      → IsNewId c.id s
      → IsManaged fold env (add_client fold env c s).0
  unfolding add_client name_taken
  add_client-IsManaged c s h new = elim (Bool-cases (name_taken fold c.name s.state.clients)) [
    | inl taken ↦ simp taken h
    | inr free ↦ simp free (
        set_clients-IsManaged fold env (s.state.clients ++ c ∷ []) s h
          (Pairwise-concat (Distinct fold) s.state.clients c h.roster (
            All-zip (λ o. text_eq o.id c.id ≡ false) (λ o. equal_fold fold o.name c.name ≡ false)
              s.state.clients new
              (any-false (λ o. equal_fold fold o.name c.name) s.state.clients free)))
          (λ f o. (o.0, find-append (λ x. text_eq x.id f.client_id) s.state.clients (c ∷ []) o.1)))
  ]

  -- Creating a client keeps the server well formed, and the ids and the case-folded names of
  -- the clients distinct, whatever the request and on every branch, if the new id is not in
  -- use.
  pub create_client-IsManaged :
      (id token : Text) (now : ℕ) (inp : Option Text) (s : Server)
      → IsManaged fold env s
      → IsNewId id s
      → IsManaged fold env (create_client fold env id token now inp s).0
  unfolding create_client new_client
  create_client-IsManaged id token now none s h new = h
  create_client-IsManaged id token now (some raw) s h new =
      elim (Option-cases (validate_name (trim_space raw))) [
        | inr (e, bad) ↦ rw (bad, create_client) h
        | inl good ↦
            rw (good, create_client)
              (let c = new_client id (trim_space raw) token now in
                let r = add_client fold env c s in
                rw (answer-server fold env)
                  (saved-IsManaged fold env r.0 r.1 (add_client-IsManaged c s h new)))
      ]

  pub change-IsManaged :
      (id : Text) (f : Client → Client) (s : Server)
      → IsManaged fold env s
      → ((x : Client) → (f x).id ≡ x.id)
      → IsTame fold id f s.state.clients
      → IsManaged fold env (set_clients (change_client id f s.state.clients) s)
  change-IsManaged id f s h same tame =
      set_clients-IsManaged fold env (change_client id f s.state.clients) s h
        (Pairwise-change_client fold id f s.state.clients tame h.roster)
        (λ o w. find-change_client id o.client_id f s.state.clients same w.1)

  -- a change of neither id nor name
  pub plain-IsTame :
      (id : Text) (f : Client → Client) (cs : List Client)
      → ((x : Client) → (f x).id ≡ x.id)
      → ((x : Client) → (f x).name ≡ x.name)
      → IsTame fold id f cs
  plain-IsTame id f cs i n c e =
      All_of (λ o. text_eq o.id id ≡ false → Distinct fold c o → Distinct fold (f c) o) cs
        (λ o _ d. (rw (i c) d.0, rw (n c) d.1))

  edit_client-IsManaged :
      (id : Text) (now : ℕ) (inp : Option Text) (s : Server)
      → IsManaged fold env s
      → IsManaged fold env (edit_client fold env id now inp s).0
  unfolding edit_client name_taken_by_other
  edit_client-IsManaged id now none s h =
      change-IsManaged id (touch fold env now) s h (λ x. refl)
        (plain-IsTame id (touch fold env now) s.state.clients (λ x. refl) (λ x. refl))
  edit_client-IsManaged id now (some raw) s h =
      elim (Option-cases (validate_name (trim_space raw))) [
        | inr (e, bad) ↦ rw (bad, edit_client) h
        | inl good ↦
            rw (good, edit_client)
              (elim (Bool-cases (name_taken_by_other fold id (trim_space raw) s.state.clients)) [
                | inl taken ↦ simp taken h
                | inr free ↦ simp free (
                    change-IsManaged id (rename fold env (trim_space raw) now) s h (λ x. refl)
                      (λ c e.
                        All-map
                          (λ o.
                            (not (text_eq o.id id) && equal_fold fold o.name (trim_space raw))
                            ≡ false)
                          (λ o.
                            text_eq o.id id ≡ false
                            → Distinct fold c o
                            → Distinct fold (rename fold env (trim_space raw) now c) o)
                          s.state.clients
                          (λ o t other d. (
                            d.0,
                            ground (
                              arith,
                              text_eq_iff (map fold o.name) (map fold (trim_space raw)),
                              text_eq_iff (map fold (trim_space raw)) (map fold o.name),
                            ),
                          ))
                          (any-false
                            (λ o. not (text_eq o.id id) && equal_fold fold o.name (trim_space raw))
                            s.state.clients free)))
              ])
      ]

  -- Updating a client keeps the server well formed, and the ids and the case-folded names of
  -- the clients distinct, whatever the request and on every branch.
  pub update_client-IsManaged :
      (id : Text) (now : ℕ) (inp : Option (Option Text)) (s : Server)
      → IsManaged fold env s
      → IsManaged fold env (update_client fold env id now inp s).0
  unfolding update_client
  update_client-IsManaged id now none s h = h
  update_client-IsManaged id now (some name) s h =
      let r = find_client fold env id s (edit_client fold env id now name) in
      rw (answer-server fold env) (
        saved-IsManaged fold env r.0 r.1 (
          find_client-IsManaged fold env id s (edit_client fold env id now name) h
            (λ _. edit_client-IsManaged id now name s h)))

  then_disconnect-IsManaged :
      (id : Text) (r : Server × ℕ) (e : Option Error)
      → IsManaged fold env r.0
      → IsManaged fold env (then_disconnect fold env id r e).0
  unfolding then_disconnect
  then_disconnect-IsManaged id (s, status) (some e) h = h
  then_disconnect-IsManaged id (s, status) none h = disconnect_client-IsManaged fold env id s h

  -- Rotating a client's token keeps the server well formed, and the ids and the case-folded
  -- names of the clients distinct, on every branch.
  pub rotate_token-IsManaged :
      (id token : Text) (now : ℕ) (s : Server)
      → IsManaged fold env s
      → IsManaged fold env (rotate_token fold env id token now s).0
  unfolding rotate_token
  rotate_token-IsManaged id token now s h =
      let body = λ (t : Server).
        let u : Server × Option Error =
          (set_clients (change_client id (retoken fold env token now) t.state.clients) t, none) in
        u in
      let r = find_client fold env id s body in
      let found = find_client-IsManaged fold env id s body h (λ _.
        change-IsManaged id (retoken fold env token now) s h (λ x. refl)
          (plain-IsTame id (retoken fold env token now) s.state.clients (λ x. refl) (λ x. refl))) in
      then_disconnect-IsManaged id (answer fold env 200 (saved env r)) (saved env r).1
        (rw (answer-server fold env) (saved-IsManaged fold env r.0 r.1 found))
