-- ===== src/Release/Order.antt =====
-- internal/server/selfupdate.go: `newerVersion`.
use spawn_relay.Common.{
  ◌≡◌, ◌≢◌, ◌<◌, ◌==◌, ◌↔◌, ◌⊎◌, inl, inr, refl, arith, true, false, Option, none, some, Text,
  Bool-cases,
}
use spawn_relay.Release.{Version, parse_version, newer, newer_of, newer_version}

-- The larger major number decides, then the minor, then the patch.
pub data IsAbove (a b : Version) : Type 0 where
  by_major : b.major < a.major → IsAbove a b
  by_minor : a.major ≡ b.major → b.minor < a.minor → IsAbove a b
  by_patch : a.major ≡ b.major → a.minor ≡ b.minor → b.patch < a.patch → IsAbove a b

newer-IsAbove : (a b : Version) → newer a b ≡ true → IsAbove a b
unfolding newer
newer-IsAbove a b h = elim (Bool-cases (a.major == b.major)) [
  | inr major ↦ by_major (ground arith)
  | inl major ↦ elim (Bool-cases (a.minor == b.minor)) [
    | inr minor ↦ by_minor (ground arith) (ground arith)
    | inl minor ↦ by_patch (ground arith) (ground arith) (ground arith)
  ]
]

IsAbove-newer : (a b : Version) → IsAbove a b → newer a b ≡ true
unfolding newer
IsAbove-newer a b (by_major h) = ground arith
IsAbove-newer a b (by_minor e h) = ground arith
IsAbove-newer a b (by_patch e f h) = ground arith

newer_irrefl : (a : Version) → newer a a ≡ false
unfolding newer
newer_irrefl a = ground arith

newer_trans : (a b c : Version) → newer a b ≡ true → newer b c ≡ true → newer a c ≡ true
unfolding newer
newer_trans a b c h k = ground arith

newer-same : (a b : Version) → newer a b ≡ false → newer b a ≡ false → a ≡ b
unfolding newer
newer-same a b h k = ground arith

newer_total : (a b : Version) → a ≢ b → (newer a b ≡ true) ⊎ (newer b a ≡ true)
newer_total a b h = elim (Bool-cases (newer a b)) [
  | inl up ↦ inl up
  | inr down ↦ elim (Bool-cases (newer b a)) [
    | inl up ↦ inr up
    | inr level ↦ absurd (h (newer-same a b down level))
  ]
]

newer_of_irrefl : (a : Option Version) → newer_of a a ≡ false
unfolding newer_of
newer_of_irrefl none = refl
newer_of_irrefl (some a) = newer_irrefl a

newer_of_trans :
    (a b c : Option Version) → newer_of a b ≡ true → newer_of b c ≡ true → newer_of a c ≡ true
unfolding newer_of
newer_of_trans (some a) (some b) (some c) h k = newer_trans a b c h k
newer_of_trans none b c h k = cc
newer_of_trans (some a) none c h k = cc
newer_of_trans (some a) (some b) none h k = cc

-- `newerVersion` is a strict order on texts: no text is newer than itself, what is newer than a
-- newer one is newer, and of two tags that parse to different versions one is newer. A tag that
-- parses is newer than another exactly if its major number is larger, or this is equal and the
-- minor number larger, or both are equal and the patch number larger.
pub newer_version_trans :
    (a b c : Text)
    → (newer_version a a ≡ false)
      × (newer_version a b ≡ true → newer_version b c ≡ true → newer_version a c ≡ true)
      × ((v w : Version)
          → parse_version a ≡ some v
          → parse_version b ≡ some w
          → ((newer_version a b ≡ true) ↔ IsAbove v w)
            × (v ≢ w → (newer_version a b ≡ true) ⊎ (newer_version b a ≡ true)))
unfolding newer_version
newer_version_trans a b c = (
  newer_of_irrefl (parse_version a),
  newer_of_trans (parse_version a) (parse_version b) (parse_version c),
  λ v w p q. rw p (rw q ((newer-IsAbove v w, IsAbove-newer v w), newer_total v w)),
)
