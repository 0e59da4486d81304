-- ===== src/Server/Sessions/Managed.antt =====
-- internal/server/tunnel.go: the sessions keep the state of the clients.
use spawn_relay.Common.{
  ℕ, ◌==◌, ◌≡◌, refl, arith, ap, Bool, true, false, not, List, [], ◌∷◌, Option, none, some, Text,
  text_eq, text_eq_iff, find, Pairwise, find-some, keep, Bool-cases, Option-cases, inl, inr,
  if◌then◌else◌, is_empty,
}
use spawn_relay.Store.{Client, Error, client_by_token}
use spawn_relay.Server.{Env, Server, saved, notify_forwards}
use spawn_relay.Server.Invariant.{notify_forwards-IsWellFormed}
use spawn_relay.Server.Clients.{set_clients, change_client}
use spawn_relay.Server.Clients.Invariant.{Distinct}
use spawn_relay.Server.Clients.Managed.{IsManaged, saved-IsManaged}
use spawn_relay.Server.Clients.Handlers.{change-IsManaged, plain-IsTame}
use spawn_relay.Server.Roster.{clients-notify_forwards}
use spawn_relay.Server.Sessions.{
  Hello, seen, change_by_token, note_hello, register, drop_session, admit, id_of, connect,
  protocol_version,
}

-- Where ids are distinct, the client with the token is the one with its id.
change-by_token :
    (fold : ℕ → ℕ) (tok : Text) (f : Client → Client) (cs : List Client) (c : Client)
    → Pairwise (Distinct fold) cs
    → find (λ x. text_eq x.token tok) cs ≡ some c
    → change_by_token tok f cs ≡ change_client c.id f cs
unfolding change_by_token change_client
change-by_token fold tok f [] c p e = cc
change-by_token fold tok f (x ∷ xs) c p e = elim (Bool-cases (text_eq x.token tok)) [
  | inl hit ↦
      let same : x ≡ c = ground arith in
      let own : text_eq x.id c.id ≡ true =
        (text_eq_iff x.id c.id).1 (ap (λ (y : Client). y.id) same) in
      rw hit (rw own refl)
  | inr miss ↦
      let later : find (λ y. text_eq y.token tok) xs ≡ some c = rw miss at e in
      let (apart, _) = find-some (λ y. text_eq y.token tok) (Distinct fold x) xs p.0 later in
      rw miss
        (rw apart.0 (ap (λ (l : List Client). x ∷ l) (change-by_token fold tok f xs c p.1 later)))
]

module _ (fold : ℕ → ℕ) (env : Env) where
  -- a state with the same document and listeners
  same-IsManaged :
      (s t : Server)
      → t.state ≡ s.state
      → t.runners ≡ s.runners
      → IsManaged fold env s
      → IsManaged fold env t
  same-IsManaged s t e r h = record {
    well_formed = record { stored = rw e h.well_formed.stored; bound = rw r h.well_formed.bound };
    roster = rw e h.roster;
  }

  pub notify_forwards-IsManaged :
      (id : Text) (s : Server) → IsManaged fold env s → IsManaged fold env (notify_forwards id s)
  notify_forwards-IsManaged id s h = record {
    well_formed = notify_forwards-IsWellFormed env id s h.well_formed;
    roster = rw (clients-notify_forwards id s) h.roster;
  }

  register-IsManaged :
      (id : Text) (s : Server) → IsManaged fold env s → IsManaged fold env (register id s)
  unfolding register
  register-IsManaged id s h = same-IsManaged s (register id s) (ground arith) (ground arith) h

  note_hello-IsManaged :
      (remote : Text) (now : ℕ) (hello : Hello) (s : Server)
      → IsManaged fold env s
      → IsManaged fold env (note_hello remote now hello s).0
  unfolding note_hello client_by_token
  note_hello-IsManaged remote now hello s h =
      elim (Option-cases (client_by_token s.state hello.token)) [
        | inl unknown ↦ rw (unknown, note_hello) h
        | inr (c, found) ↦ elim (Bool-cases (is_empty hello.token)) [
          | inl blank ↦ cc (rw (blank, client_by_token) at found)
          | inr named ↦
              let hit : find (λ x. text_eq x.token hello.token) s.state.clients ≡ some c =
                rw (named, client_by_token) at found in
              let f = seen remote now hello in
              rw (found, note_hello)
                (rw (change-by_token fold hello.token f s.state.clients c h.roster hit) (
                  change-IsManaged fold env c.id f s h (λ x. refl)
                    (plain-IsTame fold env c.id f s.state.clients (λ x. refl) (λ x. refl))))
        ]
      ]

  pub drop_session-IsManaged :
      (current : Bool) (id : Text) (now : ℕ) (s : Server)
      → IsManaged fold env s
      → IsManaged fold env (drop_session env current id now s)
  unfolding drop_session
  drop_session-IsManaged current id now s h =
      let t : Server =
        if current then record s { online = keep (λ k. not (text_eq k id)) s.online } else s in
      let f = λ (c : Client). let d : Client = record c { last_seen_at = some now } in d in
      let kept = same-IsManaged s t (ground arith) (ground arith) h in
      saved-IsManaged fold env (set_clients (change_client id f t.state.clients) t) none (
        change-IsManaged fold env id f t kept (λ x. refl)
          (plain-IsTame fold env id f t.state.clients (λ x. refl) (λ x. refl)))

  admit-IsManaged :
      (wrote : Bool) (now : ℕ) (id : Text) (r : Server × Option Error)
      → IsManaged fold env r.0
      → IsManaged fold env (admit env wrote now id r).0
  unfolding admit
  admit-IsManaged wrote now id (s, some e) h = h
  admit-IsManaged true now id (s, none) h =
      notify_forwards-IsManaged id (register id s) (register-IsManaged id s h)
  admit-IsManaged false now id (s, none) h =
      drop_session-IsManaged true id now (register id s) (register-IsManaged id s h)

  pub connect-IsManaged :
      (wrote : Bool) (remote : Text) (now : ℕ) (hello : Hello) (s : Server)
      → IsManaged fold env s
      → IsManaged fold env (connect env wrote remote now hello s).0
  unfolding connect
  connect-IsManaged wrote remote now hello s h =
      elim (Bool-cases (hello.version == protocol_version)) [
        | inr other ↦ simp (other, connect) h
        | inl spoken ↦
            let n = note_hello remote now hello s in
            simp (spoken, connect)
              (admit-IsManaged wrote now (id_of (client_by_token s.state hello.token)) (saved env n)
                (saved-IsManaged fold env n.0 n.1 (note_hello-IsManaged remote now hello s h)))
      ]
