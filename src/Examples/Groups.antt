-- ===== src/Examples/Groups.antt =====
-- The edit of a group at a concrete request: port 22, which is to be added, is held by another process.
use spawn_relay.Common.{
  ℕ, ◌≡◌, ◌==◌, refl, arith, true, false, [], ◌∷◌, none, List, codes, text_eq, All, Bool, to_lower,
  trim_space, contains_any,
}
use spawn_relay.Store.{Forward, Result, ok, err, proto_both, has_tcp, has_udp, same}
use spawn_relay.Store.Validate.{validate, validate_name, validate_fields, is_protocol}
use spawn_relay.Store.Order.{forwards_in_group}
use spawn_relay.Tunnel.{Kind, tcp, udp, running, apply_group}
use spawn_relay.Tunnel.Rollback.{is_alike, shown}
use spawn_relay.Tunnel.Rollback.Outcomes.{Outcome}
use spawn_relay.Store.TextOrder.{text_lt}
use spawn_relay.PortSpec.{less_entry, proto_overlap}
use spawn_relay.PortSpec.Match.{fields, match_entry}
use spawn_relay.PortSpec.Parse.{
  parse_port_spec, add_token, add_tokens, add_range, add_ports, is_listed,
}
use spawn_relay.Server.{Env}
use spawn_relay.Server.Invariant.{IsWellFormed}
use spawn_relay.Server.Groups.{GroupFields, expand_group, member, prev_by_key}
use spawn_relay.Server.Groups.Change.{expand_group-Outcome}
use spawn_relay.Examples.World.{env, server, game, client, state, drawn, drawn-AreFresh}

abbrev held : Kind → ℕ → Bool
held tcp port = port == 22
held udp port = false

abbrev host : Env
host = record env { busy = held }

host-IsWellFormed : IsWellFormed host server
unfolding validate validate_fields validate_name is_protocol text_eq has_tcp has_udp trim_space
    contains_any
host-IsWellFormed = record {
  stored = record {
    separate = (tt, tt);
    allowed = (record { valid = refl; unreserved = refl }, tt);
    owned = ((client, refl), tt);
  };
  bound = record { idle = (refl, tt); enabled = (refl, tt); separate = (tt, tt) };
}

abbrev edited : GroupFields
edited = record {
  client_id = codes "c1";
  name = codes "game";
  protocol = proto_both;
  ports = codes "7777, 22";
  target_host = codes "10.0.0.2";
  enabled = true;
}

abbrev members_of : Result (List Forward) → List Forward
members_of (ok fs) = fs
members_of (err e) = []

abbrev members : List Forward
members =
    members_of
      (expand_group host (codes "g1") edited (forwards_in_group state (codes "g1")) 5 drawn)

expanded :
    expand_group host (codes "g1") edited (forwards_in_group state (codes "g1")) 5 drawn
    ≡ ok members
unfolding expand_group parse_port_spec add_tokens fields match_entry add_token add_range add_ports
    is_listed to_lower less_entry text_lt text_eq proto_overlap validate validate_fields
    validate_name is_protocol trim_space contains_any member prev_by_key forwards_in_group
expanded = refl

quiet : (k : ℕ) → running (drawn k) (game ∷ []) ≡ none
unfolding text_eq
quiet k = ground arith

played :
    All
      (λ p. is_alike (running p.id (game ∷ [])) (shown p) ≡ true)
      (forwards_in_group state (codes "g1"))
unfolding forwards_in_group text_eq same
played = (refl, tt)

expand_group-Outcome_example :
    Outcome
      (game ∷ [])
      members
      (forwards_in_group state (codes "g1"))
      (apply_group held (game ∷ []) members (forwards_in_group state (codes "g1")))
expand_group-Outcome_example =
    expand_group-Outcome host (codes "g1") edited drawn 5 server members host-IsWellFormed
      drawn-AreFresh quiet played expanded
