-- ===== src/Firewall.antt =====
-- internal/server/firewall.go: the rules that the relay wants open on its host.
pub mod Rules
pub mod Manager
use spawn_relay.Common.{ℕ, List, [], ◌∷◌, ◌++◌, Text, codes, is_empty, if◌then◌else◌}
use spawn_relay.Store.{State, Forward, has_tcp, has_udp, proto_tcp, proto_udp}

abbrev pub mode_auto : Text
mode_auto = codes "auto"

abbrev pub rule_tunnel : Text
rule_tunnel = codes "tunnel"

abbrev pub rule_admin : Text
rule_admin = codes "admin"

pub record Rule : Type 0 where
  pub id : Text
  pub port : ℕ
  pub proto : Text

abbrev rule_of : Forward → Text → Rule
rule_of f proto = record { id = f.id; port = f.public_port; proto = proto }

-- what one forward adds to the rules
abbrev pub forward_rules : Forward → List Rule
forward_rules f =
    if f.enabled
    then (if has_tcp f then rule_of f proto_tcp ∷ [] else [])
      ++ (if has_udp f then rule_of f proto_udp ∷ [] else [])
    else []

abbrev pub all_rules : List Forward → List Rule
all_rules [] = []
all_rules (f ∷ fs) = forward_rules f ++ all_rules fs

-- `desired`: the mode and the rules
unfoldable pub desired : ℕ → ℕ → State → Text × List Rule
desired tunnel_port admin_port st = (
  if is_empty st.settings.firewall then mode_auto else st.settings.firewall,
  record { id = rule_tunnel; port = tunnel_port; proto = proto_tcp }
      ∷ record { id = rule_admin; port = admin_port; proto = proto_tcp }
      ∷ all_rules st.forwards,
)
