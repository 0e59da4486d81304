-- ===== src/Agent/Sync.antt =====
-- internal/agent/agent.go: `sync`. What the backend of a mode answers is a parameter, `none` for an
-- error of `factory` or of `Sync`; texts of errors, `Note` and the log are left out.
pub mod Accepted
use spawn_relay.Common.{
  ℕ, Bool, true, false, not, ◌||◌, List, [], ◌∷◌, Option, none, some, Text, codes, text_eq,
  is_empty, has, ltb, length, if◌then◌else◌,
}
use spawn_relay.Firewall.{Rule, mode_auto}
use spawn_relay.Backend.{key, validate_rule, States}
use spawn_relay.Server.Settings.{valid_mode}

abbrev pub max_rules : ℕ
max_rules = 2000

abbrev pub mode_off : Text
mode_off = codes "off"

-- `Result`
pub record Synced : Type 0 where
  pub backend : Text
  pub active : Bool
  pub rules : States

pub data SyncError : Type 0 where
  invalid_mode too_many_rules invalid_rule duplicate_rule backend_failed : SyncError

pub data Response : Type 0 where
  refused : SyncError → Response
  answered : Synced → Response

-- the loop over the rules, with the keys that it has seen
pub check_rules : List Text → List Rule → Option SyncError
check_rules seen [] = none
check_rules seen (r ∷ rules) =
    let later = check_rules (key r ∷ seen) rules in
    if not (validate_rule r)
    then some invalid_rule
    else if has (key r) seen
    then some duplicate_rule
    else later

abbrev pub respond : Option Synced → Response
respond none = refused backend_failed
respond (some res) = answered res

-- `sync`
unfoldable pub sync : (Text → List Rule → Option Synced) → Text → List Rule → Response
unfolding check_rules
sync backend requested rules =
    let mode = if is_empty requested then mode_auto else requested in
    if not (valid_mode mode) || text_eq mode mode_off
    then refused invalid_mode
    else if ltb max_rules (length rules)
    then refused too_many_rules
    else elim (check_rules [] rules) [ some e ↦ refused e | none ↦ respond (backend mode rules) ]
