-- ===== src/Common/Texts/Numbers.antt =====
-- `strconv.Itoa`: the digits read back.
use Prim.Native.Nat.{ℕ, zero, suc, ◌+◌, ◌-◌, ◌*◌, ◌/◌, ◌%◌, ◌<◌}
use mathlib.Core.Path.{◌≡◌, refl, ap, ◌∙◌}
use mathlib.Core.Logic.{inl, inr}
use mathlib.Core.Bool.{true}
use mathlib.Core.List.{[], ◌∷◌, ◌++◌}
use native.Mathlib.Omega.{arith}
use spawn_relay.Common.Tests.{ltb, if◌then◌else◌, Bool-cases}
use spawn_relay.Common.Texts.{Text, digits_onto, itoa, is_digit}

-- the number that the leading digits make, and what follows them
abbrev pub scan : ℕ → Text → ℕ × Text
scan n [] = (n, [])
scan n (c ∷ s) = if is_digit c then scan (n * 10 + (c - b'0')) s else (n, c ∷ s)

scan-digits_onto :
    (fuel n : ℕ) (rest : Text) → n < fuel → scan 0 (digits_onto fuel n rest) ≡ scan n rest
unfolding digits_onto
scan-digits_onto zero n rest h = absurd (omega arith)
scan-digits_onto (suc fuel) n rest h = elim (Bool-cases (ltb n 10)) [
  | inl small ↦
      let digit : is_digit (b'0' + n) ≡ true = ground arith in
      let value : 0 * 10 + (b'0' + n - b'0') ≡ n = omega arith in
      rw small (rw digit (rw value refl))
  | inr large ↦
      let less : n / 10 < fuel = ground arith in
      let digit : is_digit (b'0' + n % 10) ≡ true = ground arith in
      let value : n / 10 * 10 + (b'0' + n % 10 - b'0') ≡ n = omega arith in
      rw large
        (scan-digits_onto fuel (n / 10) ((b'0' + n % 10) ∷ rest) less ∙ rw digit (rw value refl))
]

digits_onto-append :
    (fuel n : ℕ) (rest s : Text) → digits_onto fuel n rest ++ s ≡ digits_onto fuel n (rest ++ s)
unfolding digits_onto
digits_onto-append zero n rest s = refl
digits_onto-append (suc fuel) n rest s = elim (Bool-cases (ltb n 10)) [
  | inl small ↦ rw small refl
  | inr large ↦ rw large (digits_onto-append fuel (n / 10) ((b'0' + n % 10) ∷ rest) s)
]

pub scan-itoa : (n : ℕ) (s : Text) → scan 0 (itoa n ++ s) ≡ scan n s
unfolding itoa
scan-itoa n s =
    ap (scan 0) (digits_onto-append (suc n) n [] s) ∙ scan-digits_onto (suc n) n s (omega arith)
