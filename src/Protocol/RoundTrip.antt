-- ===== src/Protocol/RoundTrip.antt =====
-- internal/protocol/protocol.go: `ReadFrame` behind `WriteFrame`.
use mathlib.Core.Option.{some-injective}
use mathlib.Core.List.{append-nil, append_assoc}
use spawn_relay.Common.{
  ℕ, ◌+◌, ◌*◌, ◌/◌, ◌%◌, ◌≤◌, ◌≡◌, ◌∙◌, zero, suc, List, [], ◌∷◌, ◌++◌, length, Option, none, some,
  arith, ltb, ltb-false→le, Bool-cases, Option-cases, inl, inr,
}
use spawn_relay.Protocol.{Bytes, frame, failed, max_datagram, write_frame, read_full, read_frame}

read_full-append :
    (payload got rest : Bytes)
    → read_full (length payload) got (payload ++ rest) ≡ frame (got ++ payload) rest
unfolding read_full
read_full-append [] got rest = rw append-nil
read_full-append (b ∷ bs) [] rest = read_full-append bs (b ∷ []) rest
read_full-append (b ∷ bs) (g ∷ got) rest =
    read_full-append bs ((g ∷ got) ++ b ∷ []) rest ∙ rw append_assoc

header_value : (n : ℕ) → n ≤ 65535 → (n % 65536 / 256) * 256 + n % 256 ≡ n
header_value n h = omega arith

read_frame_header :
    (size n hi lo : ℕ) (stream : Bytes)
    → hi * 256 + lo ≡ n
    → n ≤ size
    → read_frame size (hi ∷ lo ∷ stream) ≡ read_full n [] stream
unfolding read_frame
read_frame_header size n hi lo stream e h = rw e (ground arith)

-- A frame that `WriteFrame` wrote, with anything behind it, is read back as its payload and
-- leaves what stood behind, if the buffer has the size of the largest datagram.
pub read_frame-write_frame :
    (payload rest wire : Bytes) (size : ℕ)
    → max_datagram ≤ size
    → write_frame payload ≡ some wire
    → read_frame size (wire ++ rest) ≡ frame payload rest
unfolding write_frame
read_frame-write_frame payload rest wire size h e =
    elim (Bool-cases (ltb max_datagram (length payload))) [
      | inl big ↦ cc (rw big at e)
      | inr fits ↦
          let small = ltb-false→le max_datagram (length payload) fits in
          let w : some ((length payload % 65536 / 256) ∷ (length payload % 256) ∷ payload)
              ≡ some wire =
            rw fits at e in
          rw (← some-injective _ _ w) (
            read_frame_header size (length payload) _ _ (payload ++ rest) (header_value _ small)
              (omega arith)
            ∙ read_full-append payload [] rest)
    ]

-- Datagrams written one after another.
unfoldable pub write_all : List Bytes → Option Bytes
write_all [] = some []
write_all (p ∷ ps) = elim (write_frame p) [
  | none ↦ none
  | some wire ↦ elim (write_all ps) [ none ↦ none | some more ↦ some (wire ++ more) ]
]

-- As many frames as are asked for, and what is left of the stream.
unfoldable pub read_all : ℕ → ℕ → Bytes → Option (List Bytes × Bytes)
read_all size zero stream = some ([], stream)
read_all size (suc n) stream = elim (read_frame size stream) [
  | failed _ ↦ none
  | frame p rest ↦ elim (read_all size n rest) [
    | none ↦ none
    | some (ps, left) ↦ some (p ∷ ps, left)
  ]
]

-- A stream of frames that `WriteFrame` wrote, with anything behind it, gives all their payloads
-- back in order and leaves what stood behind, if the buffer has the size of the largest datagram.
pub read_all-write_all :
    (ps : List Bytes) (rest wire : Bytes) (size : ℕ)
    → max_datagram ≤ size
    → write_all ps ≡ some wire
    → read_all size (length ps) (wire ++ rest) ≡ some (ps, rest)
unfolding write_all read_all
read_all-write_all [] rest wire size h e = rw (← some-injective _ _ e)
read_all-write_all (p ∷ ps) rest wire size h e = elim (Option-cases (write_frame p)) [
  | inl bad ↦ cc (rw (bad, write_all) at e)
  | inr (w, written) ↦ elim (Option-cases (write_all ps)) [
    | inl bad ↦ ground (arith)
    | inr (ws, later) ↦
        let whole : w ++ ws ≡ wire = ground arith in
        let first = read_frame-write_frame p (ws ++ rest) w size h written in
        rw (← whole, append_assoc)
          (ground (arith, first, read_all-write_all ps rest ws size h later))
  ]
]
