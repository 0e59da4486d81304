-- ===== src/PortSpec.antt =====
-- internal/store/portspec.go: port specs, parsed and rendered.
pub mod Match
pub mod Parse
pub mod Render
use spawn_relay.Common.{
  ℕ, ◌+◌, ◌==◌, Bool, true, false, ◌&&◌, ◌||◌, List, [], ◌∷◌, Text, text_eq, ltb, if◌then◌else◌,
}
use spawn_relay.Store.{Forward, proto_both}
use spawn_relay.Store.TextOrder.{text_lt}

abbrev pub max_group_ports : ℕ
max_group_ports = 64

pub record PortEntry : Type 0 where
  pub public_port : ℕ
  pub protocol : Text
  pub target_port : ℕ

-- `protoOverlap`
unfoldable pub proto_overlap : Text → Text → Bool
proto_overlap a b = text_eq a b || text_eq a proto_both || text_eq b proto_both

-- `lessEntry`
unfoldable pub less_entry : PortEntry → PortEntry → Bool
less_entry a b =
    if a.public_port == b.public_port
    then text_lt a.protocol b.protocol
    else ltb a.public_port b.public_port

-- `Forward.Entry`
abbrev pub entry : Forward → PortEntry
entry f = record { public_port = f.public_port; protocol = f.protocol; target_port = f.target_port }
