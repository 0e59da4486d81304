-- ===== src/Store/Validate.antt =====
-- internal/store/store.go: `ValidateName` and `Forward.Validate`.
use spawn_relay.Common.{
  ◌||◌, ltb, Option, none, some, Text, codes, text_eq, trim_space, byte_len, is_empty, contains_any,
  if◌then◌else◌, Bool,
}
use spawn_relay.Store.{Forward, Error, validation, proto_tcp, proto_udp, proto_both}

-- `nil` is `none`
unfoldable pub validate_name : Text → Option Error
validate_name raw =
    let name = trim_space raw in
    if is_empty name
    then some validation
    else if ltb 64 (byte_len name)
    then some validation
    else none

unfoldable pub is_protocol : Text → Bool
is_protocol p = text_eq p proto_tcp || text_eq p proto_udp || text_eq p proto_both

unfoldable pub validate_fields : Forward → Option Error
validate_fields f =
    if is_protocol f.protocol
    then if ltb f.public_port 1 || ltb 65535 f.public_port
      then some validation
      else if ltb f.target_port 1 || ltb 65535 f.target_port
      then some validation
      else if is_empty (trim_space f.target_host)
      then some validation
      else if contains_any f.target_host (codes " /\\\t\n")
      then some validation
      else none
    else some validation

-- `Forward.Validate`
unfoldable pub validate : Forward → Option Error
unfolding validate_fields
validate f = elim (validate_name f.name) [ some e ↦ some e | none ↦ validate_fields f ]
