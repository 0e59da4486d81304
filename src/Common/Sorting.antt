-- ===== src/Common/Sorting.antt =====
-- Insertion sort as the code writes it: the sorted prefix is kept with its last element in front,
-- and the next element moves left while it is less than its neighbour.
use mathlib.Core.Path.{◌≡◌, refl, ap}
use mathlib.Core.Bool.{Bool, true, false, ◌&&◌}
use mathlib.Core.Logic.{inl, inr}
use mathlib.Core.List.{List, [], ◌∷◌, ◌++◌, Perm, perm_middle}
use mathlib.Core.List.Perm
use Prim.Native.Nat.{suc, ◌+◌}
use native.Mathlib.Omega.{arith}
use spawn_relay.Common.Tests.{if◌then◌else◌, Bool-cases}
use spawn_relay.Common.Lists.{All, All-append, length, all}

module _ {ℓ} {A : Type ℓ} where
  -- `reverse xs` in front of `ys`
  abbrev pub reverse_onto : List A → List A → List A
  reverse_onto [] ys = ys
  reverse_onto (x ∷ xs) ys = reverse_onto xs (x ∷ ys)

  pub reverse_onto-perm : (xs ys : List A) → Perm (reverse_onto xs ys) (xs ++ ys)
  reverse_onto-perm [] ys = Perm.refl ys
  reverse_onto-perm (x ∷ xs) ys = Perm.trans (reverse_onto-perm xs (x ∷ ys)) (perm_middle xs ys)

  length-reverse_onto : (xs ys : List A) → length (reverse_onto xs ys) ≡ length xs + length ys
  length-reverse_onto [] ys = omega arith
  length-reverse_onto (x ∷ xs) ys = omega (arith, length-reverse_onto xs (x ∷ ys))

module _ {ℓ} {A : Type ℓ} (less : A → A → Bool) where
  -- the inner loop
  abbrev pub sift : A → List A → List A
  sift x [] = x ∷ []
  sift x (y ∷ ys) = if less x y then y ∷ sift x ys else x ∷ y ∷ ys

  -- the outer loop
  abbrev pub sort_onto : List A → List A → List A
  sort_onto sorted [] = reverse_onto sorted []
  sort_onto sorted (x ∷ xs) = sort_onto (sift x sorted) xs

  abbrev pub sort_by : List A → List A
  sort_by xs = sort_onto [] xs

  sift-perm : (x : A) (ys : List A) → Perm (sift x ys) (x ∷ ys)
  sift-perm x [] = Perm.refl _
  sift-perm x (y ∷ ys) = elim (Bool-cases (less x y)) [
    | inl e ↦ rw e (Perm.trans (Perm.cons y (sift-perm x ys)) (Perm.swap x y ys))
    | inr e ↦ rw e (Perm.refl _)
  ]

  sort_onto-perm : (sorted xs : List A) → Perm (sort_onto sorted xs) (sorted ++ xs)
  sort_onto-perm sorted [] = reverse_onto-perm sorted []
  sort_onto-perm sorted (x ∷ xs) = Perm.trans (sort_onto-perm (sift x sorted) xs) (
      Perm.trans (Perm.append (sift-perm x sorted) (Perm.refl xs))
        (Perm.symm (perm_middle sorted xs)))

  length-sift : (x : A) (ys : List A) → length (sift x ys) ≡ suc (length ys)
  length-sift x [] = refl
  length-sift x (y ∷ ys) = elim (Bool-cases (less x y)) [
    | inl e ↦ rw e (ap suc (length-sift x ys))
    | inr e ↦ rw e
  ]

  length-sort_onto : (sorted xs : List A) → length (sort_onto sorted xs) ≡ length sorted + length xs
  length-sort_onto sorted [] = omega (arith, length-reverse_onto sorted [])
  length-sort_onto sorted (x ∷ xs) =
      omega (arith, length-sort_onto (sift x sorted) xs, length-sift x sorted)

  pub length-sort_by : (xs : List A) → length (sort_by xs) ≡ length xs
  length-sort_by xs = omega (arith, length-sort_onto [] xs)

  pub sort_by-perm : (xs : List A) → Perm (sort_by xs) xs
  sort_by-perm xs = sort_onto-perm [] xs

-- What holds of all elements, and what holds of every two of them.
module _ {ℓ κ} {A : Type ℓ} (less : A → A → Bool) (P : A → Type κ) where
  pub All-sift : (x : A) (ys : List A) → P x → All P ys → All P (sift less x ys)
  All-sift x [] p h = (p, tt)
  All-sift x (y ∷ ys) p h = elim (Bool-cases (less x y)) [
    | inl e ↦ rw e (h.0, All-sift x ys p h.1)
    | inr e ↦ rw e (p, h)
  ]

  All-reverse_onto : (xs ys : List A) → All P xs → All P ys → All P (reverse_onto xs ys)
  All-reverse_onto [] ys h k = k
  All-reverse_onto (x ∷ xs) ys h k = All-reverse_onto xs (x ∷ ys) h.1 (h.0, k)

  All-sort_onto : (sorted xs : List A) → All P sorted → All P xs → All P (sort_onto less sorted xs)
  All-sort_onto sorted [] h k = All-reverse_onto sorted [] h tt
  All-sort_onto sorted (x ∷ xs) h k =
      All-sort_onto (sift less x sorted) xs (All-sift x sorted k.0 h) k.1

  pub All-sort_by : (xs : List A) → All P xs → All P (sort_by less xs)
  All-sort_by xs h = All-sort_onto [] xs tt h

module _ {ℓ κ} {A : Type ℓ} (R : A → A → Type κ) where
  abbrev pub Pairwise : List A → Type κ
  Pairwise [] = Unit
  Pairwise (x ∷ xs) = All (R x) xs × Pairwise xs

module _ {ℓ κ} {A : Type ℓ} (less : A → A → Bool) (R : A → A → Type κ)
    (R_symm : (a b : A) → R a b → R b a) where
  Pairwise-sift : (x : A) (ys : List A) → All (R x) ys → Pairwise R ys → Pairwise R (sift less x ys)
  Pairwise-sift x [] h p = (tt, tt)
  Pairwise-sift x (y ∷ ys) h p = elim (Bool-cases (less x y)) [
    | inl e ↦ rw e (All-sift less (R y) x ys (R_symm x y h.0) p.0, Pairwise-sift x ys h.1 p.1)
    | inr e ↦ rw e (h, p)
  ]

  Pairwise-reverse_onto :
      (xs ys : List A)
      → Pairwise R xs
      → Pairwise R ys
      → All (λ x. All (R x) ys) xs
      → Pairwise R (reverse_onto xs ys)
  Pairwise-reverse_onto [] ys p q c = q
  Pairwise-reverse_onto (x ∷ xs) ys p q c =
      Pairwise-reverse_onto xs (x ∷ ys) p.1 (c.0, q) (cross xs p.0 c.1)
    where
      cross :
          (zs : List A)
          → All (R x) zs
          → All (λ z. All (R z) ys) zs
          → All (λ z. All (R z) (x ∷ ys)) zs
      cross [] h k = tt
      cross (z ∷ zs) h k = ((R_symm x z h.0, k.0), cross zs h.1 k.1)

  Pairwise-sort_onto :
      (sorted xs : List A)
      → Pairwise R sorted
      → Pairwise R xs
      → All (λ x. All (R x) sorted) xs
      → Pairwise R (sort_onto less sorted xs)
  Pairwise-sort_onto sorted [] p q c = Pairwise-reverse_onto sorted [] p tt (none sorted)
    where
      none : (zs : List A) → All (λ z. All (R z) []) zs
      none [] = tt
      none (z ∷ zs) = (tt, none zs)
  Pairwise-sort_onto sorted (x ∷ xs) p q c =
      Pairwise-sort_onto (sift less x sorted) xs (Pairwise-sift x sorted c.0 p) q.1
        (cross xs q.0 c.1)
    where
      cross :
          (zs : List A)
          → All (R x) zs
          → All (λ z. All (R z) sorted) zs
          → All (λ z. All (R z) (sift less x sorted)) zs
      cross [] h k = tt
      cross (z ∷ zs) h k = (All-sift less (R z) x sorted (R_symm x z h.0) k.0, cross zs h.1 k.1)

  pub Pairwise-sort_by : (xs : List A) → Pairwise R xs → Pairwise R (sort_by less xs)
  Pairwise-sort_by xs p = Pairwise-sort_onto [] xs tt p (start xs)
    where
      start : (zs : List A) → All (λ z. All (R z) []) zs
      start [] = tt
      start (z ∷ zs) = (tt, start zs)

-- No element is less than the one before it.
module _ {ℓ} {A : Type ℓ} (less : A → A → Bool) where
  abbrev pub IsSorted : List A → Type 0
  IsSorted [] = Unit
  IsSorted (x ∷ []) = Unit
  IsSorted (x ∷ y ∷ ys) = (less y x ≡ false) × IsSorted (y ∷ ys)

  abbrev IsFalling : List A → Type 0
  IsFalling [] = Unit
  IsFalling (x ∷ []) = Unit
  IsFalling (x ∷ y ∷ ys) = (less x y ≡ false) × IsFalling (y ∷ ys)

  IsSorted-reverse_onto :
      (x : A) (xs ys : List A)
      → IsFalling (x ∷ xs)
      → IsSorted (x ∷ ys)
      → IsSorted (reverse_onto xs (x ∷ ys))
  IsSorted-reverse_onto x [] ys f s = s
  IsSorted-reverse_onto x (z ∷ zs) ys f s = IsSorted-reverse_onto z zs (x ∷ ys) f.1 (f.0, s)

  module _ (less_asymm : (a b : A) → less a b ≡ true → less b a ≡ false) where
    sift-IsFalling : (x : A) (ys : List A) → IsFalling ys → IsFalling (sift less x ys)
    sift-IsFalling x [] f = tt
    sift-IsFalling x (y ∷ []) f = elim (Bool-cases (less x y)) [
      | inl e ↦ rw e (less_asymm x y e, tt)
      | inr e ↦ rw e (e, tt)
    ]
    sift-IsFalling x (y ∷ z ∷ zs) f =
        let later = sift-IsFalling x (z ∷ zs) f.1 in
        elim (Bool-cases (less x y)) [
          | inl e ↦ rw e (elim (Bool-cases (less x z)) [
            | inl d ↦ rw d (f.0, rw d at later)
            | inr d ↦ rw d (less_asymm x y e, rw d at later)
          ])
          | inr e ↦ rw e (e, f)
        ]

    sort_onto-IsSorted :
        (sorted xs : List A) → IsFalling sorted → IsSorted (sort_onto less sorted xs)
    sort_onto-IsSorted [] [] f = tt
    sort_onto-IsSorted (x ∷ sorted) [] f = IsSorted-reverse_onto x sorted [] f tt
    sort_onto-IsSorted sorted (x ∷ xs) f =
        sort_onto-IsSorted (sift less x sorted) xs (sift-IsFalling x sorted f)

    pub sort_by-IsSorted : (xs : List A) → IsSorted (sort_by less xs)
    sort_by-IsSorted xs = sort_onto-IsSorted [] xs tt

module _ {ℓ κ} {A : Type ℓ} (R : A → A → Type κ) where
  pub Pairwise-concat :
      (xs : List A) (y : A) → Pairwise R xs → All (λ x. R x y) xs → Pairwise R (xs ++ y ∷ [])
  Pairwise-concat [] y p h = (tt, tt)
  Pairwise-concat (x ∷ xs) y p h =
      (All-append (R x) xs (y ∷ []) p.0 (h.0, tt), Pairwise-concat xs y p.1 h.1)

-- A test of all elements does not see the order.
module _ {ℓ} {A : Type ℓ} (less : A → A → Bool) (p : A → Bool) where
  all-sift : (x : A) (ys : List A) → all p (sift less x ys) ≡ (p x && all p ys)
  all-sift x [] = refl
  all-sift x (y ∷ ys) = elim (Bool-cases (less x y)) [
    | inl e ↦ rw e (ground (arith, all-sift x ys))
    | inr e ↦ rw e refl
  ]

  all-reverse_onto : (xs ys : List A) → all p (reverse_onto xs ys) ≡ (all p xs && all p ys)
  all-reverse_onto [] ys = refl
  all-reverse_onto (x ∷ xs) ys = ground (arith, all-reverse_onto xs (x ∷ ys))

  all-sort_onto :
      (sorted xs : List A) → all p (sort_onto less sorted xs) ≡ (all p sorted && all p xs)
  all-sort_onto sorted [] = all-reverse_onto sorted []
  all-sort_onto sorted (x ∷ xs) =
      ground (arith, all-sort_onto (sift less x sorted) xs, all-sift x sorted)

  pub all-sort_by : (xs : List A) → all p (sort_by less xs) ≡ all p xs
  all-sort_by xs = all-sort_onto [] xs

-- What holds of the elements behind the sort held of them before.
module _ {ℓ κ} {A : Type ℓ} (less : A → A → Bool) (P : A → Type κ) where
  sift-All : (x : A) (ys : List A) → All P (sift less x ys) → P x × All P ys
  sift-All x [] h = (h.0, tt)
  sift-All x (y ∷ ys) h = elim (Bool-cases (less x y)) [
    | inl e ↦
        let k : P y × All P (sift less x ys) = rw e at h in
        let (hx, hys) = sift-All x ys k.1 in (hx, (k.0, hys))
    | inr e ↦ rw e at h
  ]

  reverse_onto-All : (xs ys : List A) → All P (reverse_onto xs ys) → All P xs × All P ys
  reverse_onto-All [] ys h = (tt, h)
  reverse_onto-All (x ∷ xs) ys h =
      let (hxs, hys) = reverse_onto-All xs (x ∷ ys) h in ((hys.0, hxs), hys.1)

  sort_onto-All : (sorted xs : List A) → All P (sort_onto less sorted xs) → All P sorted × All P xs
  sort_onto-All sorted [] h = reverse_onto-All sorted [] h
  sort_onto-All sorted (x ∷ xs) h =
      let (hs, hxs) = sort_onto-All (sift less x sorted) xs h in
      let (hx, hsorted) = sift-All x sorted hs in (hsorted, (hx, hxs))

  pub sort_by-All : (xs : List A) → All P (sort_by less xs) → All P xs
  sort_by-All xs h = (sort_onto-All [] xs h).1
