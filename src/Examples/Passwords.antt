-- ===== src/Examples/Passwords.antt =====
-- The change of the password at a concrete request. Keys of the example repeat the length of the password.
use mathlib.Core.Option.{some-injective}
use spawn_relay.Common.{
  ℕ, zero, suc, true, ◌≡◌, ◌∙◌, refl, sym, ap, [], ◌∷◌, Option, some, none, Text, codes, length,
}
use spawn_relay.Auth.{create}
use spawn_relay.Auth.Password.{Access, change_password}
use spawn_relay.Auth.Password.Changed.{Outcome, change_password-Outcome}
use spawn_relay.Examples.World.{env, server}

abbrev fill : ℕ → ℕ → Text
fill zero x = []
fill (suc n) x = x ∷ fill n x

length-fill : (n x : ℕ) → length (fill n x) ≡ n
length-fill zero x = refl
length-fill (suc n) x = ap suc (length-fill n x)

-- a key of the length of the password, in every byte
abbrev derive : Text → Text → ℕ → ℕ → Option Text
derive password salt iterations n = some (fill n (length password))

length-derive :
    (password salt key : Text) (iterations n : ℕ)
    → derive password salt iterations n ≡ some key
    → length key ≡ n
length-derive password salt key iterations n e =
    ap length (sym (some-injective _ _ e)) ∙ length-fill n (length password)

abbrev signed_in : Access
signed_in = record {
  server = record server {
    state = record server.state {
      admin = record {
        username = codes "admin";
        password_hash = fill 32 7;
        salt = fill 16 1;
        iterations = 0;
      };
    };
  };
  sessions = create (codes "s1") (codes "admin") 5 (λ id. none);
  initial_password = true;
}

change_password_example :
    Outcome some
      (λ b. b)
      derive
      env
      (codes "hunter2")
      (codes "correct horse")
      (fill 16 7)
      signed_in
      (change_password some
        (λ b. b)
        derive
        env
        (some (fill 16 7))
        (some (codes "hunter2", codes "correct horse"))
        signed_in)
change_password_example =
    change_password-Outcome some (λ b. b) derive (λ b. refl) (λ b. refl) length-derive env
      (codes "hunter2") (codes "correct horse") (fill 16 7) signed_in refl
