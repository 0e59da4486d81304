-- ===== src/Auth/Password.antt =====
-- internal/server/api.go: `handleLogout` and `handleChangePassword`; internal/store/store.go:
-- `Admin.SetPassword` and `Admin.CheckPassword`.
pub mod Changed
use spawn_relay.Common.{
  ℕ, ◌==◌, Bool, true, false, not, ◌||◌, Option, none, some, Text, text_eq, is_empty, byte_len, ltb,
  length, if◌then◌else◌,
}
use spawn_relay.Store.{Admin, Error, validation, internal}
use spawn_relay.Server.{Env, Server, saved, error_status}
use spawn_relay.Auth.{Sessions, delete, clear}

-- a text whose characters are bytes
abbrev pub Bytes : Type 0
Bytes = Text

-- the server, the sessions, and whether the file with the initial password is there
pub record Access : Type 0 where
  pub server : Server
  pub sessions : Sessions
  pub initial_password : Bool

abbrev pub pbkdf_iterations : ℕ
pbkdf_iterations = 210000

-- `handleLogout` for the cookie of the request
unfoldable pub logout : Option Text → Access → Access × ℕ
logout none s = (s, 200)
logout (some id) s = (record s { sessions = delete id s.sessions }, 200)

-- `handleChangePassword` behind `Update`
abbrev pub signed_out : Access → Server × Option Error → Access × ℕ
signed_out s (t, some e) = (record s { server = t }, error_status e)
signed_out s (t, none) =
    (record { server = t; sessions = clear s.sessions; initial_password = false }, 200)

-- `decode` and `encode` are `hex.DecodeString` and `hex.EncodeToString`; `derive` is `pbkdf2.Key` with
-- SHA-256 for a password, a salt, the iterations and the length of the key.
module _ (decode : Text → Option Bytes) (encode : Bytes → Text)
    (derive : Text → Bytes → ℕ → ℕ → Option Bytes) where
  -- the comparison of `CheckPassword`, for the two texts that are decoded
  abbrev pub check_key : Text → ℕ → Option Bytes → Option Bytes → Bool
  check_key password iterations none want = false
  check_key password iterations (some salt) none = false
  check_key password iterations (some salt) (some want) =
      elim (derive password salt (if iterations == 0 then pbkdf_iterations else iterations)
        (length want)) [ none ↦ false | some got ↦ text_eq got want ]

  -- `CheckPassword`
  unfoldable pub check_password : Admin → Text → Bool
  check_password a password =
      if is_empty a.password_hash || is_empty a.salt
      then false
      else check_key password a.iterations (decode a.salt) (decode a.password_hash)

  -- `SetPassword`; the second argument is what `rand.Read` gives, and `none` is an error
  unfoldable pub set_password : Text → Option Bytes → Admin → Option Admin
  set_password password none a = none
  set_password password (some salt) a = elim (derive password salt pbkdf_iterations 32) [
    | none ↦ none
    | some key ↦
        some (record a {
          password_hash = encode key;
          salt = encode salt;
          iterations = pbkdf_iterations;
        })
  ]

  -- the function that `handleChangePassword` gives to `Update`
  unfoldable pub change_admin : Text → Text → Option Bytes → Server → Server × Option Error
  change_admin current new salt s =
      if not (check_password s.state.admin current)
      then (s, some validation)
      else elim (set_password new salt s.state.admin) [
        | none ↦ (s, some internal)
        | some a ↦ (record s { state = record s.state { admin = a } }, none)
      ]

  -- `handleChangePassword`, for the current and the new password
  unfoldable pub change_password : Env → Option Bytes → Option (Text × Text) → Access → Access × ℕ
  change_password env salt none s = (s, 400)
  change_password env salt (some (current, new)) s =
      if ltb (byte_len new) 10
      then (s, 400)
      else signed_out s (saved env (change_admin current new salt s.server))
