-- ===== src/Common/Lists.antt =====
-- Lists measured by native numbers, predicates on lists by recursion, and the loops of the code.
use Prim.Native.Nat.{ℕ, zero, suc, ◌+◌}
use mathlib.Core.Path.{◌≡◌, refl}
use mathlib.Core.Logic.{inl, inr}
use mathlib.Core.Bool.{Bool, true, false, ◌&&◌, ◌||◌}
use mathlib.Core.Option.{Option, none, some}
use mathlib.Core.List.{List, [], ◌∷◌, ◌++◌}
use native.Mathlib.Omega.{arith}
use spawn_relay.Common.Tests.{if◌then◌else◌, Bool-cases}

module _ {ℓ} {A : Type ℓ} where
  abbrev pub length : List A → ℕ
  length [] = 0
  length (x ∷ xs) = suc (length xs)

  pub length-append : (xs ys : List A) → length (xs ++ ys) ≡ length xs + length ys
  length-append [] ys = omega arith
  length-append (x ∷ xs) ys = omega (arith, length-append xs ys)

  -- at most the first `n` elements
  abbrev pub take : ℕ → List A → List A
  take zero xs = []
  take (suc n) [] = []
  take (suc n) (x ∷ xs) = x ∷ take n xs

  -- `for _, x := range xs { if p(x) { keep = append(keep, x) } }`
  abbrev pub keep : (A → Bool) → List A → List A
  keep p [] = []
  keep p (x ∷ xs) = if p x then x ∷ keep p xs else keep p xs

  -- `for _, x := range xs { if p(x) { return x } }; return nil`
  abbrev pub find : (A → Bool) → List A → Option A
  find p [] = none
  find p (x ∷ xs) = if p x then some x else find p xs

  -- `for _, x := range xs { if p(x) { return true } }; return false`
  abbrev pub any : (A → Bool) → List A → Bool
  any p [] = false
  any p (x ∷ xs) = p x || any p xs

  abbrev pub all : (A → Bool) → List A → Bool
  all p [] = true
  all p (x ∷ xs) = p x && all p xs

  -- `len(s) == 0`
  abbrev pub is_nil : List A → Bool
  is_nil [] = true
  is_nil (x ∷ xs) = false

  pub is_nil-append : (xs ys : List A) → is_nil (xs ++ ys) ≡ (is_nil xs && is_nil ys)
  is_nil-append [] ys = refl
  is_nil-append (x ∷ xs) ys = refl

module _ {ℓ κ} {A : Type ℓ} (P : A → Type κ) where
  abbrev pub All : List A → Type κ
  All [] = Unit
  All (x ∷ xs) = P x × All xs

  pub All-append : (xs ys : List A) → All xs → All ys → All (xs ++ ys)
  All-append [] ys hx hy = hy
  All-append (x ∷ xs) ys hx hy = (hx.0, All-append xs ys hx.1 hy)

  pub All-keep : (p : A → Bool) (xs : List A) → All xs → All (keep p xs)
  All-keep p [] h = tt
  All-keep p (x ∷ xs) h = elim (Bool-cases (p x)) [
    | inl e ↦ rw e (h.0, All-keep p xs h.1)
    | inr e ↦ rw e (All-keep p xs h.1)
  ]

pub All-map {ℓ κ ι} :
    {A : Type ℓ} (P : A → Type κ) (Q : A → Type ι) (xs : List A)
    → ((x : A) → P x → Q x)
    → All P xs
    → All Q xs
All-map P Q [] f h = tt
All-map P Q (x ∷ xs) f h = (f x h.0, All-map P Q xs f h.1)

module _ {ℓ} {A : Type ℓ} (p : A → Bool) where
  pub find-none : (xs : List A) → find p xs ≡ none → All (λ x. p x ≡ false) xs
  find-none [] e = tt
  find-none (x ∷ xs) e = elim (Bool-cases (p x)) [
    | inl hit ↦ cc (rw hit at e)
    | inr miss ↦ (miss, find-none xs (rw miss at e))
  ]

  pub find-some {κ} :
      (P : A → Type κ) (xs : List A) {x : A} → All P xs → find p xs ≡ some x → P x × (p x ≡ true)
  find-some P [] h e = cc
  find-some P (y ∷ xs) {x} h e = elim (Bool-cases (p y)) [
    | inl hit ↦ let s : y ≡ x = ground arith in rw (← s) (h.0, hit)
    | inr miss ↦ find-some P xs h.1 (rw miss at e)
  ]

pub All-zip {ℓ κ} :
    {A : Type ℓ} (P Q : A → Type κ) (xs : List A) → All P xs → All Q xs → All (λ x. P x × Q x) xs
All-zip P Q [] h k = tt
All-zip P Q (x ∷ xs) h k = ((h.0, k.0), All-zip P Q xs h.1 k.1)

pub All_of {ℓ κ} : {A : Type ℓ} (P : A → Type κ) (xs : List A) → ((x : A) → P x) → All P xs
All_of P [] f = tt
All_of P (x ∷ xs) f = (f x, All_of P xs f)

pub keep-holds {ℓ κ} :
    {A : Type ℓ} (p : A → Bool) (P : A → Type κ) (xs : List A)
    → All P xs
    → All (λ x. P x × (p x ≡ true)) (keep p xs)
keep-holds p P [] h = tt
keep-holds p P (x ∷ xs) h = elim (Bool-cases (p x)) [
  | inl e ↦ rw e ((h.0, e), keep-holds p P xs h.1)
  | inr e ↦ rw e (keep-holds p P xs h.1)
]

-- `x` is an element of the list.
pub data Member {ℓ} {A : Type ℓ} (x : A) : List A → Type ℓ where
  at_head : {xs : List A} → Member x (x ∷ xs)
  in_tail : {y : A} {xs : List A} → Member x xs → Member x (y ∷ xs)

pub All-Member {ℓ κ} :
    {A : Type ℓ} (P : A → Type κ) {x : A} {xs : List A} → All P xs → Member x xs → P x
All-Member P h at_head = h.0
All-Member P h (in_tail m) = All-Member P h.1 m

pub All_members {ℓ} : {A : Type ℓ} (xs : List A) → All (λ x. Member x xs) xs
All_members [] = tt
All_members (x ∷ xs) = (
  at_head,
  All-map (λ y. Member y xs) (λ y. Member y (x ∷ xs)) xs (λ y m. in_tail m) (All_members xs),
)
