-- ===== src/Server/Sessions/Handshake.antt =====
-- internal/server/tunnel.go: whom `handleConn` lets in.
use spawn_relay.Common.{
  ℕ, ◌==◌, ==_iff, ◌≡◌, ◌≢◌, ◌↔◌, ◌∙◌, refl, sym, arith, ap, Bool, true, false, List, [], ◌∷◌, ◌++◌,
  Option, none, some, Text, text_eq_refl, Bool-cases, Option-cases, inl, inr,
}
use spawn_relay.Store.{Client, Error, client_by_token}
use spawn_relay.Server.{Env, Server, saved, notify_forwards, has_session}
use spawn_relay.Server.Sessions.{
  Hello, note_hello, register, admit, id_of, connect, protocol_version, welcome,
}

-- what a welcome stands for
pub record IsAdmitted (env : Env) (hello : Hello) (s : Server) (id : Text) : Type 0 where
  pub client : Client
  pub found : client_by_token s.state hello.token ≡ some client
  pub named : client.id ≡ id
  pub spoken : hello.version ≡ protocol_version
  pub kept : env.saves ≡ true

has_session-append : (id : Text) (ks : List Text) → has_session id (ks ++ id ∷ []) ≡ true
has_session-append id [] = ground (arith, text_eq_refl id)
has_session-append id (k ∷ ks) = ground (arith, has_session-append id ks)

online-notify_forwards : (id : Text) (s : Server) → (notify_forwards id s).online ≡ s.online
unfolding notify_forwards
online-notify_forwards id s = ground arith

has_session-register : (id : Text) (s : Server) → has_session id (register id s).online ≡ true
unfolding register
has_session-register id s = elim (Bool-cases (has_session id s.online)) [
  | inl there ↦ ground arith
  | inr new ↦ rw new (has_session-append id s.online)
]

welcome-id : {a b : Text} → welcome a ≡ welcome b → a ≡ b
welcome-id e = cc

saves_of : (env : Env) (r : Server × Option Error) → (saved env r).1 ≡ none → env.saves ≡ true
unfolding saved
saves_of env (s, some e) h = cc
saves_of env (s, none) h = elim (Bool-cases env.saves) [
  | inl on ↦ on
  | inr off ↦ cc (rw (off, saved) at h)
]

saved-on :
    (env : Env) (r : Server × Option Error) → env.saves ≡ true → r.1 ≡ none → (saved env r).1 ≡ none
unfolding saved
saved-on env (s, some e) on h = cc
saved-on env (s, none) on h = ground arith

note_hello_found :
    (remote : Text) (now : ℕ) (hello : Hello) (s : Server) (c : Client)
    → client_by_token s.state hello.token ≡ some c
    → (note_hello remote now hello s).1 ≡ none
unfolding note_hello
note_hello_found remote now hello s c e = rw (e, note_hello) refl

note_hello_unknown :
    (remote : Text) (now : ℕ) (hello : Hello) (s : Server)
    → client_by_token s.state hello.token ≡ none
    → (note_hello remote now hello s).1 ≢ none
unfolding note_hello
note_hello_unknown remote now hello s e h = cc (rw (e, note_hello) at h)

saved-failed : (env : Env) (r : Server × Option Error) → r.1 ≢ none → (saved env r).1 ≢ none
unfolding saved
saved-failed env (s, some e) h k = cc
saved-failed env (s, none) h k = h refl

admit-answer :
    (env : Env) (wrote : Bool) (now : ℕ) (id : Text) (r : Server × Option Error)
    → r.1 ≡ none
    → (admit env wrote now id r).1 ≡ welcome id
unfolding admit
admit-answer env wrote now id (s, some e) h = cc
admit-answer env true now id (s, none) h = refl
admit-answer env false now id (s, none) h = refl

admit-refused :
    (env : Env) (wrote : Bool) (now : ℕ) (id other : Text) (r : Server × Option Error)
    → (admit env wrote now id r).1 ≡ welcome other
    → (r.1 ≡ none) × (id ≡ other)
unfolding admit
admit-refused env wrote now id other (s, some e) h = cc
admit-refused env true now id other (s, none) h = (refl, welcome-id h)
admit-refused env false now id other (s, none) h = (refl, welcome-id h)

module _ (env : Env) (wrote : Bool) (remote : Text) (now : ℕ) (hello : Hello) (s : Server)
    (id : Text) where
  connect-admits : IsAdmitted env hello s id → (connect env wrote remote now hello s).1 ≡ welcome id
  unfolding connect
  connect-admits a =
      let n = note_hello remote now hello s in
      let ok : (saved env n).1 ≡ none =
        saved-on env n a.kept (note_hello_found remote now hello s a.client a.found) in
      let answer =
        admit-answer env wrote now (id_of (client_by_token s.state hello.token)) (saved env n) ok in
      let named : id_of (client_by_token s.state hello.token) ≡ id = ap id_of a.found ∙ a.named in
      let spoken : (hello.version == protocol_version) ≡ true =
        (==_iff hello.version protocol_version).1 a.spoken in
      simp (spoken, connect) (answer ∙ ap welcome named)

  admits-IsAdmitted :
      (connect env wrote remote now hello s).1 ≡ welcome id → IsAdmitted env hello s id
  unfolding connect
  admits-IsAdmitted h = elim (Bool-cases (hello.version == protocol_version)) [
    | inr other ↦ cc (simp (other, connect) at h)
    | inl spoken ↦
        let n = note_hello remote now hello s in
        let (done, named) =
          admit-refused env wrote now (id_of (client_by_token s.state hello.token)) id (saved env n)
            (simp (spoken, connect) at h) in
        elim (Option-cases (client_by_token s.state hello.token)) [
          | inl unknown ↦
              absurd (saved-failed env n (note_hello_unknown remote now hello s unknown) done)
          | inr (c, found) ↦ record {
            client = c;
            found = found;
            named = ap id_of (sym found) ∙ named;
            spoken = (==_iff hello.version protocol_version).0 spoken;
            kept = saves_of env n done;
          }
        ]
  ]

  -- The answer to a hello, which may fail to reach the client, is a welcome as a client exactly
  -- when it speaks the server's protocol version, its token is that of a stored client with
  -- that id, and the state file can be written.
  pub connect_iff :
      ((connect env wrote remote now hello s).1 ≡ welcome id) ↔ IsAdmitted env hello s id
  connect_iff = (admits-IsAdmitted, connect-admits)
