-- ===== src/Server/Settings.antt =====
-- internal/server/api.go: the handlers of the settings and of the API tokens.
pub mod Laws
pub mod Core
use spawn_relay.Common.{
  ℕ, ◌+◌, Bool, true, false, not, ◌&&◌, ◌||◌, List, [], ◌∷◌, ◌++◌, Option, none, some, Text, codes,
  text_eq, trim_space, to_lower, contains_any, byte_len, is_empty, ltb, any, keep, if◌then◌else◌,
}
use spawn_relay.Store.{State, Settings, ApiToken, Error, validation, not_found}
use spawn_relay.Store.Validate.{validate_name}
use spawn_relay.Firewall.{mode_auto}
use spawn_relay.Server.{Env, Server, saved, sync_firewall, error_status}

pub record SettingsInput : Type 0 where
  pub public_host : Option Text
  pub firewall : Option Text
  pub auto_update_clients : Option Bool

-- `Modes`
abbrev pub modes : List Text
modes =
    mode_auto
    ∷ codes "off"
    ∷ codes "ufw"
    ∷ codes "firewalld"
    ∷ codes "nftables"
    ∷ codes "iptables"
    ∷ []

-- `ValidMode`
unfoldable pub valid_mode : Text → Bool
valid_mode m = any (λ x. text_eq x m) modes

-- the negation of the test on a host
unfoldable pub valid_host : Text → Bool
valid_host h = is_empty h || not (contains_any h (codes " /:\\") || ltb 253 (byte_len h))

-- the server, and the host that it tells its users: `Server.publicHost`
pub record Config : Type 0 where
  pub server : Server
  pub public_host : Text

abbrev pub with_settings : Settings → Server → Server
with_settings x s = record s { state = record s.state { settings = x } }

abbrev pub wanted_mode : Text → Text
wanted_mode raw = let m = to_lower (trim_space raw) in if is_empty m then mode_auto else m

-- Each step of the function that `handlePutSettings` gives to `Update` returns the settings as they
-- stand in memory behind it, with an error too.
unfoldable pub set_host : Option Text → Settings → Settings × Option Error
set_host none x = (x, none)
set_host (some raw) x =
    if valid_host (trim_space raw)
    then (record x { public_host = trim_space raw }, none)
    else (x, some validation)

unfoldable pub set_mode : Option Text → Settings → Settings × Option Error
set_mode none x = (x, none)
set_mode (some raw) x =
    if valid_mode (wanted_mode raw)
    then (record x { firewall = wanted_mode raw }, none)
    else (x, some validation)

abbrev pub set_auto : Option Bool → Settings → Settings
set_auto none x = x
set_auto (some b) x = record x { auto_update_clients = b }

abbrev pub and_auto : Option Bool → Settings × Option Error → Settings × Option Error
and_auto auto (x, some e) = (x, some e)
and_auto auto (x, none) = (set_auto auto x, none)

abbrev pub and_mode : SettingsInput → Settings × Option Error → Settings × Option Error
and_mode inp (x, some e) = (x, some e)
and_mode inp (x, none) = and_auto inp.auto_update_clients (set_mode inp.firewall x)

unfoldable pub change_settings : SettingsInput → Settings → Settings × Option Error
change_settings inp x = and_mode inp (set_host inp.public_host x)

-- `firewallChanged`
abbrev firewall_changed : Option Text → Settings → Bool
firewall_changed none x = false
firewall_changed (some raw) x = not (text_eq x.firewall (wanted_mode raw))

module _ (env : Env) where
  -- what follows the update
  finish_settings : Bool → Text → Config → Server × Option Error → Config × ℕ
  finish_settings changed host c (s, some e) = (record c { server = s }, error_status e)
  finish_settings changed host c (s, none) =
      (record { server = if changed then sync_firewall env s else s; public_host = host }, 200)

  -- `handlePutSettings`
  unfoldable pub put_settings : Option SettingsInput → Config → Config × ℕ
  unfolding finish_settings
  put_settings none c = (c, 400)
  put_settings (some inp) c =
      let (x, failed) = change_settings inp c.server.state.settings in
      finish_settings (firewall_changed inp.firewall c.server.state.settings) x.public_host c
        (saved env (with_settings x c.server, failed))

  abbrev pub set_tokens : List ApiToken → Server → Server
  set_tokens ts s = record s { state = record s.state { tokens = ts } }

  answer_with : ℕ → Server × Option Error → Server × ℕ
  answer_with status (s, some e) = (s, error_status e)
  answer_with status (s, none) = (s, status)

  -- the token that `handleCreateToken` makes from the secret's prefix and digest
  abbrev pub new_token : Text → Text → Text → Text → ℕ → ApiToken
  new_token id name prefix digest now = record {
    id = id;
    name = name;
    prefix = prefix;
    token_hash = digest;
    created_at = now;
    last_used_at = none;
  }

  -- `handleCreateToken`; `prefix` and `digest` are those of the new secret
  unfoldable pub create_token : Text → Text → Text → ℕ → Option Text → Server → Server × ℕ
  unfolding answer_with
  create_token id prefix digest now none s = (s, 400)
  create_token id prefix digest now (some raw) s = elim (validate_name (trim_space raw)) [
    | some e ↦ (s, error_status e)
    | none ↦ answer_with 201 (
        saved env (
          set_tokens (s.state.tokens ++ new_token id (trim_space raw) prefix digest now ∷ []) s,
          none,
        ))
  ]

  -- the function that `handleDeleteToken` gives to `Update`
  drop_token : Text → Server → Server × Option Error
  drop_token id s =
      if any (λ t. text_eq t.id id) s.state.tokens
      then (set_tokens (keep (λ t. not (text_eq t.id id)) s.state.tokens) s, none)
      else (s, some not_found)

  -- `handleDeleteToken`
  unfoldable pub delete_token : Text → Server → Server × ℕ
  unfolding drop_token answer_with
  delete_token id s = answer_with 200 (saved env (drop_token id s))
