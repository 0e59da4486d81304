-- ===== src/Common/Maps.antt =====
-- Go's maps with string keys, as lists of pairs: a key that is put again keeps its place.
use mathlib.Core.Path.{◌≡◌, refl, ap}
use mathlib.Core.Logic.{inl, inr}
use mathlib.Core.Bool.{Bool, false, ◌||◌}
use mathlib.Core.Option.{Option, none, some}
use mathlib.Core.List.{List, [], ◌∷◌}
use native.Mathlib.Omega.{arith}
use spawn_relay.Common.Tests.{if◌then◌else◌, Bool-cases}
use spawn_relay.Common.Texts.{Text, text_eq, text_eq_iff, text_eq_refl}

module _ {ℓ} {A : Type ℓ} where
  -- `v, ok := m[k]`
  abbrev pub lookup : Text → List (Text × A) → Option A
  lookup k [] = none
  lookup k ((j, v) ∷ m) = if text_eq j k then some v else lookup k m

  -- `m[k] = v`
  abbrev pub put : Text → A → List (Text × A) → List (Text × A)
  put k v [] = (k, v) ∷ []
  put k v ((j, w) ∷ m) = if text_eq j k then (j, v) ∷ m else (j, w) ∷ put k v m

  -- `delete(m, k)`
  abbrev pub drop_key : Text → List (Text × A) → List (Text × A)
  drop_key k [] = []
  drop_key k ((j, w) ∷ m) = if text_eq j k then drop_key k m else (j, w) ∷ drop_key k m

  pub lookup-drop_key :
      (k j : Text) (m : List (Text × A))
      → lookup j (drop_key k m) ≡ (if text_eq k j then none else lookup j m)
  lookup-drop_key k j [] = ground arith
  lookup-drop_key k j ((i, v) ∷ m) = elim (Bool-cases (text_eq i k)) [
    | inl e ↦
        let same : i ≡ k = (text_eq_iff i k).0 e in
        rw e (ground (arith, lookup-drop_key k j m, ap (λ (x : Text). text_eq x j) same))
    | inr e ↦ elim (Bool-cases (text_eq i j)) [
      | inl here ↦
          let same : i ≡ j = (text_eq_iff i j).0 here in
          let other : text_eq k j ≡ false =
            ground (arith, text_eq_iff k j, text_eq_iff i k, same, e) in
          rw e (rw here (rw other refl))
      | inr there ↦ rw e (rw there (lookup-drop_key k j m))
    ]
  ]

  -- `_, ok := m[k]`
  abbrev pub has_key : Text → List (Text × A) → Bool
  has_key k [] = false
  has_key k ((j, v) ∷ m) = text_eq j k || has_key k m

  pub has_key-put :
      (k j : Text) (v : A) (m : List (Text × A))
      → has_key j (put k v m) ≡ (text_eq k j || has_key j m)
  has_key-put k j v [] = refl
  has_key-put k j v ((i, w) ∷ m) = elim (Bool-cases (text_eq i k)) [
    | inl e ↦
        let same : i ≡ k = (text_eq_iff i k).0 e in
        rw e (ground (arith, ap (λ (x : Text). text_eq x j) same))
    | inr e ↦ rw e (ground (arith, has_key-put k j v m))
  ]

  pub lookup-put : (k : Text) (v : A) (m : List (Text × A)) → lookup k (put k v m) ≡ some v
  lookup-put k v [] = rw (text_eq_refl k) refl
  lookup-put k v ((j, w) ∷ m) = elim (Bool-cases (text_eq j k)) [
    | inl e ↦ rw e (rw e refl)
    | inr e ↦ rw e (rw e (lookup-put k v m))
  ]

  pub lookup-put-other :
      (k j : Text) (v : A) (m : List (Text × A))
      → text_eq k j ≡ false
      → lookup j (put k v m) ≡ lookup j m
  lookup-put-other k j v [] h = rw h refl
  lookup-put-other k j v ((i, w) ∷ m) h = elim (Bool-cases (text_eq i k)) [
    | inl e ↦ let same : i ≡ k = (text_eq_iff i k).0 e in rw e (rw same (rw h refl))
    | inr e ↦
        rw e (ap (λ (o : Option A). if text_eq i j then some w else o) (lookup-put-other k j v m h))
  ]

-- `contains(s, k)` for a set of strings
abbrev pub has : Text → List Text → Bool
has k [] = false
has k (j ∷ s) = text_eq j k || has k s
