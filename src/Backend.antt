-- ===== src/Backend.antt =====
-- internal/firewall/firewall.go: what the backends of the firewall share. `Ufw`, `Firewalld` and
-- `Iptables` have their `Sync`; the texts of errors and of `Note` are left out.
pub mod Keys
pub mod Ufw
pub mod Firewalld
pub mod Iptables
pub mod Desired
use spawn_relay.Common.{
  ℕ, ◌==◌, Bool, true, false, not, ◌&&◌, ◌||◌, List, [], ◌∷◌, ◌++◌, Text, codes, text_eq, is_empty,
  is_digit, itoa, leb, ltb, length, sort_by, if◌then◌else◌,
}
use spawn_relay.Store.{proto_tcp, proto_udp}
use spawn_relay.Store.TextOrder.{text_lt}
use spawn_relay.Firewall.{Rule}

-- `Key`
unfoldable pub key : Rule → Text
key r = itoa r.port ++ (codes "/" ++ r.proto)

is_id_char : ℕ → Bool
is_id_char c = leb b'a' c && leb c b'z' || is_digit c || c == b'_' || c == b'-'

all_id_chars : Text → Bool
unfolding is_id_char
all_id_chars [] = true
all_id_chars (c ∷ s) = is_id_char c && all_id_chars s

-- `idPattern`
unfoldable pub valid_id : Text → Bool
unfolding all_id_chars
valid_id s = not (is_empty s) && leb (length s) 32 && all_id_chars s

-- `Validate`: whether it returns no error
unfoldable pub validate_rule : Rule → Bool
validate_rule r =
    if not (valid_id r.id)
    then false
    else if ltb r.port 1 || ltb 65535 r.port
    then false
    else text_eq r.proto proto_tcp || text_eq r.proto proto_udp

abbrev pub less_rule : Rule → Rule → Bool
less_rule a b = if a.port == b.port then text_lt a.proto b.proto else ltb a.port b.port

-- `sortedRules`. Rules with one key are equal to `sort.Slice`; the agent refuses them.
abbrev pub sorted_rules : List Rule → List Rule
sorted_rules rules = sort_by less_rule rules

-- `StateOpen`, `StateExisting` and `StateError`
pub data RuleState : Type 0 where
  state_open state_existing state_error : RuleState

-- `Result.Rules`
abbrev pub States : Type 0
States = List (Text × RuleState)

-- `Result.set` with an error or without one
abbrev pub checked : Bool → RuleState
checked ok = if ok then state_open else state_error

-- `_, ok := wanted[k]`
abbrev pub is_wanted : Text → List Rule → Bool
is_wanted k [] = false
is_wanted k (w ∷ ws) = text_eq (key w) k || is_wanted k ws
