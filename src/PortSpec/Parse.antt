-- ===== src/PortSpec/Parse.antt =====
-- internal/store/portspec.go: `ParsePortSpec`.
pub mod Bounds
use spawn_relay.PortSpec.Match.{Match, fields, match_entry}
use spawn_relay.Common.{
  ℕ, zero, suc, ◌+◌, ◌-◌, ◌*◌, ◌==◌, Bool, true, false, not, ◌&&◌, ◌||◌, List, [], ◌∷◌, ◌++◌,
  Option, none, some, Text, codes, text_eq, is_empty, to_lower, is_digit, ltb, leb, if◌then◌else◌,
  any, length, sort_by, has_prefix, ◌≡◌, refl,
}
use spawn_relay.Store.{Result, ok, err, ◌>>=◌, validation, proto_tcp, proto_udp, proto_both}
use spawn_relay.Store.Validate.{is_protocol}
use spawn_relay.PortSpec.{PortEntry, max_group_ports, proto_overlap, less_entry}

-- `out` and `seen`, a list of (port, protocol) for the map from a port to its protocols
pub record Progress : Type 0 where
  pub out : List PortEntry
  pub seen : List (ℕ × Text)

-- `protoOverlap(prev, proto)` for some `prev` of `seen[p]`
unfoldable pub is_listed : List (ℕ × Text) → ℕ → Text → Bool
is_listed [] p proto = false
is_listed ((q, prev) ∷ seen) p proto = q == p && proto_overlap prev proto || is_listed seen p proto

-- The loop over the ports of one entry, with `n` ports left; `target` is `p + offset`.
unfoldable pub add_ports : ℕ → ℕ → ℕ → Text → Progress → Result Progress
add_ports zero p target proto st = ok st
add_ports (suc n) p target proto st =
    let rest = add_ports n (p + 1) (target + 1) proto (record {
      out = st.out ++ record { public_port = p; protocol = proto; target_port = target } ∷ [];
      seen = st.seen ++ (p, proto) ∷ [];
    }) in
    if is_listed st.seen p proto then err validation else rest

abbrev or_else : Option ℕ → ℕ → ℕ
or_else none d = d
or_else (some n) d = n

-- What the loop does with the numbers of one entry. `start ≤ end` where `end + offset` is formed, so
-- it is `end - start + target`.
unfoldable pub add_range : ℕ → ℕ → Text → ℕ → Progress → Result Progress
add_range start end proto target st =
    if ltb start 1 || ltb 65535 start || ltb end 1 || ltb 65535 end
    then err validation
    else if ltb end start
    then err validation
    else if ltb target 1 || ltb 65535 (end - start + target)
    then err validation
    else if ltb max_group_ports (length st.out + (end - start + 1))
    then err validation
    else add_ports (end - start + 1) start target proto st

add_match : Text → Match → Progress → Result Progress
add_match def_proto m st =
    add_range m.start (or_else m.end m.start) (if is_empty m.proto then def_proto else m.proto)
      (or_else m.target m.start) st

unfoldable pub add_matched : Text → Option Match → Progress → Result Progress
unfolding add_match
add_matched def_proto none st = err validation
add_matched def_proto (some m) st = add_match def_proto m st

unfoldable pub add_token : Text → Text → Progress → Result Progress
unfolding add_matched
add_token def_proto raw st = add_matched def_proto (match_entry (to_lower raw)) st

unfoldable pub add_tokens : Text → List Text → Progress → Result Progress
add_tokens def_proto [] st = ok st
add_tokens def_proto (raw ∷ tokens) st = do
  next ← add_token def_proto raw st
  add_tokens def_proto tokens next

-- the body behind the check of the default protocol
unfoldable pub parse_tokens : Text → List Text → Result (List PortEntry)
unfolding add_tokens
parse_tokens def_proto [] = err validation
parse_tokens def_proto (raw ∷ tokens) = do
  st ← add_tokens def_proto (raw ∷ tokens) (record { out = []; seen = [] })
  ok (sort_by less_entry st.out)

unfoldable pub parse_port_spec : Text → Text → Result (List PortEntry)
unfolding parse_tokens is_protocol
parse_port_spec spec def_proto =
    if is_protocol def_proto then parse_tokens def_proto (fields spec) else err validation
