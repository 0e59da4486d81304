-- ===== src/Protocol.antt =====
-- internal/protocol/protocol.go: the framing of UDP datagrams on a stream.
pub mod RoundTrip
use spawn_relay.Common.{
  ℕ, ◌+◌, ◌*◌, ◌/◌, ◌%◌, zero, suc, List, [], ◌∷◌, ◌++◌, length, ltb, if◌then◌else◌, Option, none,
  some,
}

abbrev pub Bytes : Type 0
Bytes = List ℕ

abbrev pub max_datagram : ℕ
max_datagram = 65535

pub data ReadError : Type 0 where
  eof unexpected_eof too_large : ReadError

pub data Frame : Type 0 where
  frame : Bytes → Bytes → Frame
  failed : ReadError → Frame

-- `WriteFrame`: the bytes written, or none for a datagram that is too large. `PutUint16` stores
-- `uint16(len(payload))`, the high byte first.
unfoldable pub write_frame : Bytes → Option Bytes
write_frame payload =
    if ltb max_datagram (length payload)
    then none
    else some ((length payload % 65536 / 256) ∷ (length payload % 256) ∷ payload)

-- `io.ReadFull` of `n` bytes in front of the rest of the stream; `got` says whether a byte was read
pub read_full : ℕ → Bytes → Bytes → Frame
read_full zero got rest = frame got rest
read_full (suc n) [] [] = failed eof
read_full (suc n) (g ∷ got) [] = failed unexpected_eof
read_full (suc n) got (b ∷ rest) = read_full n (got ++ b ∷ []) rest

-- `ReadFrame` with a buffer of `size` bytes
unfoldable pub read_frame : ℕ → Bytes → Frame
unfolding read_full
read_frame size [] = failed eof
read_frame size (hi ∷ []) = failed unexpected_eof
read_frame size (hi ∷ lo ∷ rest) =
    if ltb size (hi * 256 + lo) then failed too_large else read_full (hi * 256 + lo) [] rest
