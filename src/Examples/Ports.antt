-- ===== src/Examples/Ports.antt =====
-- Port specs and frames.
use spawn_relay.Common.{
  ℕ, ◌≡◌, refl, List, [], ◌∷◌, Text, codes, text_eq, to_lower, itoa, arith, some,
}
use spawn_relay.Store.{ok, proto_tcp, proto_udp}
use spawn_relay.PortSpec.{PortEntry, less_entry, proto_overlap}
use spawn_relay.Store.TextOrder.{text_lt}
use spawn_relay.PortSpec.Match.{fields, match_entry}
use spawn_relay.PortSpec.Parse.{
  parse_port_spec, add_token, add_tokens, add_range, add_ports, is_listed,
}
use spawn_relay.Protocol.{frame, write_frame, read_frame}
use spawn_relay.Protocol.RoundTrip.{write_all, read_all, read_frame-write_frame, read_all-write_all}
use spawn_relay.PortSpec.Parse.Bounds.{IsExpansion, parse_port_spec-IsExpansion}
use spawn_relay.PortSpec.Render.{render_port_spec}

abbrev spec : Text
spec = codes "15673>25673, 5673 7780-7782/UDP"

abbrev entry_of : ℕ → Text → ℕ → PortEntry
entry_of p proto t = record { public_port = p; protocol = proto; target_port = t }

abbrev entries : List PortEntry
entries =
    entry_of 5673 proto_tcp 5673
    ∷ entry_of 7780 proto_udp 7780
    ∷ entry_of 7781 proto_udp 7781
    ∷ entry_of 7782 proto_udp 7782
    ∷ entry_of 15673 proto_tcp 25673
    ∷ []

parse_spec : parse_port_spec spec proto_tcp ≡ ok entries
unfolding parse_port_spec add_tokens fields match_entry add_token add_range add_ports is_listed
    to_lower less_entry text_lt text_eq proto_overlap
parse_spec = refl

render_entries : render_port_spec entries ≡ codes "5673/tcp, 7780-7782/udp, 15673/tcp>25673"
unfolding render_port_spec less_entry text_lt text_eq itoa
render_entries = refl

parse_port_spec_example : IsExpansion entries
parse_port_spec_example = parse_port_spec-IsExpansion spec proto_tcp entries parse_spec

read_frame_example : read_frame 70000 (0 ∷ 2 ∷ 7 ∷ 8 ∷ 9 ∷ []) ≡ frame (7 ∷ 8 ∷ []) (9 ∷ [])
unfolding write_frame
read_frame_example =
    read_frame-write_frame (7 ∷ 8 ∷ []) (9 ∷ []) (0 ∷ 2 ∷ 7 ∷ 8 ∷ []) 70000 (omega arith) refl

read_all_example :
    read_all 65535 2 (0 ∷ 2 ∷ 7 ∷ 8 ∷ 0 ∷ 0 ∷ 9 ∷ []) ≡ some ((7 ∷ 8 ∷ []) ∷ [] ∷ [], 9 ∷ [])
unfolding write_frame write_all
read_all_example =
    read_all-write_all ((7 ∷ 8 ∷ []) ∷ [] ∷ []) (9 ∷ []) (0 ∷ 2 ∷ 7 ∷ 8 ∷ 0 ∷ 0 ∷ []) 65535
      (omega arith) refl
