-- ===== src/Auth/Password/Changed.antt =====
-- internal/server/api.go: what `handleChangePassword` leaves behind.
use mathlib.Core.Option.{some-injective}
use spawn_relay.Common.{
  ℕ, ◌≤◌, ◌≡◌, ◌∙◌, refl, arith, true, false, Option, none, some, Text, text_eq_refl, is_empty,
  byte_len, ltb, length, Bool-cases, Option-cases, inl, inr, [], ◌∷◌,
}
use spawn_relay.Store.{Admin}
use spawn_relay.Server.{Env, saved}
use spawn_relay.Auth.Password.{
  Bytes, Access, pbkdf_iterations, check_key, check_password, set_password, change_admin,
  signed_out, change_password,
}

is_empty-length : (b : Bytes) (n : ℕ) → length b ≡ n → 1 ≤ n → is_empty b ≡ false
is_empty-length [] n e h = ground arith
is_empty-length (x ∷ b) n e h = refl

-- `Hex` and the lengths of the keys and salts are what the packages document.
module _ (decode : Text → Option Bytes) (encode : Bytes → Text)
    (derive : Text → Bytes → ℕ → ℕ → Option Bytes) where
  -- The request may change the password, and this is the admin with the new one.
  pub record IsPermitted (current new : Text) (salt : Bytes) (a b : Admin) : Type 0 where
    pub long : 10 ≤ byte_len new
    pub known : check_password decode encode derive a current ≡ true
    pub prepared : set_password decode encode derive new (some salt) a ≡ some b

  -- The outcomes of a request to change the password.
  pub data Outcome (env : Env) (current new : Text) (salt : Bytes) (s : Access)
      : Access × ℕ → Type 0 where
    changed :
        (b : Admin) (t : Access)
        → IsPermitted current new salt s.server.state.admin b
        → env.saves ≡ true
        → t.server.state.admin ≡ b
        → check_password decode encode derive b new ≡ true
        → t.server.disk ≡ t.server.state
        → ((id : Text) → t.sessions id ≡ none)
        → t.initial_password ≡ false
        → Outcome env current new salt s (t, 200)
    unsaved :
        (b : Admin) (t : Access)
        → IsPermitted current new salt s.server.state.admin b
        → env.saves ≡ false
        → t.server.state.admin ≡ b
        → check_password decode encode derive b new ≡ true
        → t.server.disk ≡ s.server.disk
        → t.sessions ≡ s.sessions
        → Outcome env current new salt s (t, 500)
    short : ltb (byte_len new) 10 ≡ true → Outcome env current new salt s (s, 400)
    unknown :
        check_password decode encode derive s.server.state.admin current ≡ false
        → Outcome env current new salt s (s, 400)
    underived : derive new salt pbkdf_iterations 32 ≡ none → Outcome env current new salt s (s, 500)

  module _ (decode-encode : (b : Bytes) → decode (encode b) ≡ some b)
      (is_empty-encode : (b : Bytes) → is_empty (encode b) ≡ is_empty b)
      (length-derive : (password : Text) (salt key : Bytes) (iterations n : ℕ)
        → derive password salt iterations n ≡ some key
        → length key ≡ n) where
    check-derived :
        (new : Text) (salt key : Bytes) (a : Admin)
        → length salt ≡ 16
        → derive new salt pbkdf_iterations 32 ≡ some key
        → check_password decode encode derive
            (record a {
              password_hash = encode key;
              salt = encode salt;
              iterations = pbkdf_iterations;
            })
            new
          ≡ true
    unfolding check_password
    check-derived new salt key a size made =
        let wide = length-derive new salt key pbkdf_iterations 32 made in
        let there = is_empty-encode key ∙ is_empty-length key 32 wide (ground arith) in
        let salted = is_empty-encode salt ∙ is_empty-length salt 16 size (ground arith) in
        rw (there, salted, decode-encode salt, decode-encode key)
          (rw (wide, check_key) (rw (made, check_key) (text_eq_refl key)))

    -- The admin that `SetPassword` makes has the password that it was given.
    check-set_password :
        (new : Text) (salt : Bytes) (a b : Admin)
        → length salt ≡ 16
        → set_password decode encode derive new (some salt) a ≡ some b
        → check_password decode encode derive b new ≡ true
    unfolding set_password
    check-set_password new salt a b size e =
        elim (Option-cases (derive new salt pbkdf_iterations 32)) [
          | inl fails ↦ cc (rw (fails, set_password) at e)
          | inr (key, made) ↦
              let same = some-injective _ _ (rw (made, set_password) at e) in
              rw (← same) (check-derived new salt key a size made)
        ]

    saved-Outcome :
        (env : Env) (current new : Text) (salt : Bytes) (s : Access) (b : Admin)
        → length salt ≡ 16
        → IsPermitted current new salt s.server.state.admin b
        → Outcome env current new salt s (
            signed_out s
              (saved env (record s.server { state = record s.server.state { admin = b } }, none)))
    unfolding saved
    saved-Outcome env current new salt s b size p =
        let good = check-set_password new salt s.server.state.admin b size p.prepared in
        elim (Bool-cases env.saves) [
          | inl saves ↦ simp saves (changed b _ p saves refl good refl (λ id. refl) refl)
          | inr fails ↦ simp fails (unsaved b _ p fails refl good refl refl)
        ]

    -- A request to change the password ends in one of these ways, where decoding from hex
    -- undoes encoding, only an empty text is encoded as one, a derived key has the length
    -- asked for, and the new salt has 16 bytes. Changed: the new password has ten bytes, the
    -- current one was right, the new one is accepted from now on, memory and state file
    -- agree, no session remains and the file with the initial password is gone. Unsaved: the
    -- same is permitted, but the state file cannot be written; the answer is 500, the new
    -- password is accepted all the same, and the state file and the sessions are as before.
    -- Or nothing changes: 400 for a new password that is too short or a wrong current one,
    -- 500 where no key can be derived.
    pub change_password-Outcome :
        (env : Env) (current new : Text) (salt : Bytes) (s : Access)
        → length salt ≡ 16
        → Outcome env current new salt s
            (change_password decode encode derive env (some salt) (some (current, new)) s)
    unfolding change_password change_admin saved set_password
    change_password-Outcome env current new salt s size =
        elim (Bool-cases (ltb (byte_len new) 10)) [
          | inl few ↦ rw few (short few)
          | inr many ↦
              elim (Bool-cases (check_password decode encode derive s.server.state.admin current)) [
                | inr wrong ↦ rw (many, wrong) (unknown wrong)
                | inl right ↦ elim (Option-cases (derive new salt pbkdf_iterations 32)) [
                  | inl fails ↦ rw (many, right, fails, set_password) (underived fails)
                  | inr (key, made) ↦
                      rw (many, right, made, set_password)
                        (saved-Outcome env current new salt s _ size (record {
                          long = ground arith;
                          known = right;
                          prepared = rw (made, set_password) refl;
                        }))
                ]
              ]
        ]
