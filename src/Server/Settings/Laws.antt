-- ===== src/Server/Settings/Laws.antt =====
-- internal/server/api.go: the settings and the tokens behind their handlers.
use spawn_relay.Common.{
  ◌≡◌, ◌≢◌, refl, arith, Bool, true, false, not, ◌||◌, List, [], ◌∷◌, Option, none, some, Text,
  text_eq, text_eq_iff, trim_space, is_empty, any, keep, find, Bool-cases, inl, inr,
}
use spawn_relay.Store.{Settings, ApiToken, Error, validation, token_by_id}
use spawn_relay.Server.{Env, Server, saved, sync_firewall}
use spawn_relay.Server.Settings.{
  SettingsInput, valid_mode, valid_host, Config, wanted_mode, set_host, set_mode, change_settings,
  and_auto, and_mode, finish_settings, put_settings, answer_with, drop_token, delete_token,
}

-- settings that the rest of the server can use; no mode stands for "auto"
pub record IsUsable (x : Settings) : Type 0 where
  pub host : valid_host x.public_host ≡ true
  pub mode : (is_empty x.firewall || valid_mode x.firewall) ≡ true

set_host-IsUsable : (h : Option Text) (x : Settings) → IsUsable x → IsUsable (set_host h x).0
unfolding set_host
set_host-IsUsable none x u = u
set_host-IsUsable (some raw) x u = elim (Bool-cases (valid_host (trim_space raw))) [
  | inl good ↦ rw (good, set_host) (record { host = good; mode = u.mode })
  | inr bad ↦ rw (bad, set_host) u
]

set_mode-IsUsable : (m : Option Text) (x : Settings) → IsUsable x → IsUsable (set_mode m x).0
unfolding set_mode
set_mode-IsUsable none x u = u
set_mode-IsUsable (some raw) x u = elim (Bool-cases (valid_mode (wanted_mode raw))) [
  | inl good ↦ rw (good, set_mode) (record { host = u.host; mode = ground arith })
  | inr bad ↦ rw (bad, set_mode) u
]

and_auto-IsUsable :
    (auto : Option Bool) (r : Settings × Option Error) → IsUsable r.0 → IsUsable (and_auto auto r).0
and_auto-IsUsable auto (x, some e) u = u
and_auto-IsUsable none (x, none) u = u
and_auto-IsUsable (some b) (x, none) u = record { host = u.host; mode = u.mode }

and_mode-IsUsable :
    (inp : SettingsInput) (r : Settings × Option Error) → IsUsable r.0 → IsUsable (and_mode inp r).0
and_mode-IsUsable inp (x, some e) u = u
and_mode-IsUsable inp (x, none) u =
    and_auto-IsUsable inp.auto_update_clients (set_mode inp.firewall x)
      (set_mode-IsUsable inp.firewall x u)

change_settings-IsUsable :
    (inp : SettingsInput) (x : Settings) → IsUsable x → IsUsable (change_settings inp x).0
unfolding change_settings
change_settings-IsUsable inp x u =
    and_mode-IsUsable inp (set_host inp.public_host x) (set_host-IsUsable inp.public_host x u)

set_host_good :
    (raw : Text) (x : Settings)
    → valid_host (trim_space raw) ≡ true
    → set_host (some raw) x ≡ (record x { public_host = trim_space raw }, none)
unfolding set_host
set_host_good raw x good = rw good refl

set_mode_bad :
    (raw : Text) (x : Settings)
    → valid_mode (wanted_mode raw) ≡ false
    → set_mode (some raw) x ≡ (x, some validation)
unfolding set_mode
set_mode_bad raw x bad = rw bad refl

change_half :
    (host mode : Text) (auto : Option Bool) (x : Settings)
    → valid_host (trim_space host) ≡ true
    → valid_mode (wanted_mode mode) ≡ false
    → change_settings
        (record { public_host = some host; firewall = some mode; auto_update_clients = auto })
        x
      ≡ (record x { public_host = trim_space host }, some validation)
unfolding change_settings
change_half host mode auto x good bad =
    rw (set_host_good host x good, change_settings) (rw (set_mode_bad mode _ bad) refl)

module _ (env : Env) where
  finish-settings_of :
      (changed : Bool) (host : Text) (c : Config) (r : Server × Option Error)
      → (finish_settings env changed host c r).0.server.state ≡ r.0.state
  unfolding finish_settings sync_firewall
  finish-settings_of changed host c (s, some e) = refl
  finish-settings_of true host c (s, none) = refl
  finish-settings_of false host c (s, none) = refl

  saved-state : (r : Server × Option Error) → (saved env r).0.state ≡ r.0.state
  unfolding saved
  saved-state (s, some e) = refl
  saved-state (s, none) = ground arith

  -- Whatever is sent to `PUT /settings`, and whatever it answers, the settings in memory keep a
  -- usable host and a known firewall mode.
  pub put_settings-IsUsable :
      (inp : Option SettingsInput) (c : Config)
      → IsUsable c.server.state.settings
      → IsUsable (put_settings env inp c).0.server.state.settings
  unfolding put_settings
  put_settings-IsUsable none c u = u
  put_settings-IsUsable (some inp) c u =
      rw finish-settings_of
        (rw saved-state (change_settings-IsUsable inp c.server.state.settings u))

  -- A settings request with a good host and an unknown firewall mode is answered 400, and
  -- nothing is saved or told to the users, but the host in memory is the one of the request.
  pub put_settings_half :
      (host mode : Text) (auto : Option Bool) (c : Config)
      → valid_host (trim_space host) ≡ true
      → valid_mode (wanted_mode mode) ≡ false
      → let (d, status) =
          put_settings env
            (some (record {
              public_host = some host;
              firewall = some mode;
              auto_update_clients = auto;
            }))
            c in
        (status ≡ 400)
        × (d.server.state.settings.public_host ≡ trim_space host)
        × (d.server.disk ≡ c.server.disk)
        × (d.public_host ≡ c.public_host)
  unfolding put_settings saved finish_settings
  put_settings_half host mode auto c good bad =
      rw (change_half host mode auto c.server.state.settings good bad, put_settings)
        (refl, refl, refl, refl)

  find-keep_gone :
      (id : Text) (ts : List ApiToken)
      → find (λ t. text_eq t.id id) (keep (λ t. not (text_eq t.id id)) ts) ≡ none
  find-keep_gone id [] = refl
  find-keep_gone id (t ∷ ts) = ground (arith, find-keep_gone id ts)

  find-keep_other :
      (id key : Text) (ts : List ApiToken)
      → key ≢ id
      → find (λ t. text_eq t.id key) (keep (λ t. not (text_eq t.id id)) ts)
        ≡ find (λ t. text_eq t.id key) ts
  find-keep_other id key [] h = refl
  find-keep_other id key (t ∷ ts) h =
      ground (arith, find-keep_other id key ts h, text_eq_iff t.id key, text_eq_iff t.id id)

  -- After the deletion of a token that is answered 200 no token has the id, and every other id
  -- names the same token as before.
  pub delete_token_gone :
      (id key : Text) (s : Server)
      → (delete_token env id s).1 ≡ 200
      → (token_by_id (delete_token env id s).0.state id ≡ none)
        × (key ≢ id → token_by_id (delete_token env id s).0.state key ≡ token_by_id s.state key)
  unfolding delete_token token_by_id drop_token answer_with saved
  delete_token_gone id key s h = elim (Bool-cases (any (λ t. text_eq t.id id) s.state.tokens)) [
    | inr missing ↦ absurd (ground arith)
    | inl found ↦ elim (Bool-cases env.saves) [
      | inr off ↦ absurd (ground arith)
      | inl on ↦
          simp (on, found) (find-keep_gone id s.state.tokens, find-keep_other id key s.state.tokens)
    ]
  ]
