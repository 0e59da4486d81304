-- ===== src/Server/Groups/Members.antt =====
-- internal/server/groups.go: the members that `expandGroup` makes.
use spawn_relay.Common.{
  ℕ, suc, ◌≤◌, ◌<◌, ◌==◌, ◌≡◌, refl, Bool, true, false, ◌&&◌, List, [], ◌∷◌, Option, none, some,
  Text, text_eq, text_eq_iff, All, All-map, Pairwise, Bool-cases, Option-cases, inl, inr, arith,
  if◌then◌else◌, ◌⊎◌,
}
use spawn_relay.Store.{
  Forward, Error, conflict, ok, err, >>=-eq-ok, clash, has_tcp, has_udp, proto_tcp, proto_udp,
  proto_both,
}
use spawn_relay.Store.Conflict.{Separate}
use spawn_relay.Store.Validate.{validate}
use spawn_relay.PortSpec.{PortEntry, proto_overlap}
use spawn_relay.PortSpec.Parse.Bounds.{Apart}
use spawn_relay.Server.{Env, is_reserved}
use spawn_relay.Server.Invariant.{IsAllowed}
use spawn_relay.Server.Groups.{GroupFields, prev_by_key, member, check, expand_entries}
use spawn_relay.Server.Groups.Commit.{Separate-symm, Others}

-- Entries that are apart make forwards that do not clash.
Apart-clash :
    (a b : PortEntry) (f o : Forward)
    → f.public_port ≡ a.public_port
    → f.protocol ≡ a.protocol
    → o.public_port ≡ b.public_port
    → o.protocol ≡ b.protocol
    → Apart a b
    → clash f o ≡ false
unfolding clash proto_overlap has_tcp has_udp
Apart-clash a b f o p q r s h = ground (
  arith,
  text_eq_iff a.protocol b.protocol,
  text_eq_iff f.protocol proto_tcp,
  text_eq_iff o.protocol proto_tcp,
  text_eq_iff f.protocol proto_udp,
  text_eq_iff o.protocol proto_udp,
  text_eq_iff a.protocol proto_both,
  text_eq_iff b.protocol proto_both,
)

pub Pairwise-total {ℓ κ} :
    {A : Type ℓ} (R : A → A → Type κ) (R_symm : (a b : A) → R a b → R b a) (xs : List A)
    → Pairwise R xs
    → All (λ x. All (λ y. (x ≡ y) ⊎ R x y) xs) xs
Pairwise-total R R_symm [] p = tt
Pairwise-total {A} R R_symm (x ∷ xs) p = (
  (inl refl, All-map (R x) (λ y. (x ≡ y) ⊎ R x y) xs (λ y h. inr h) p.0),
  extend xs p.0 (Pairwise-total R R_symm xs p.1),
)
  where
    extend :
        (ys : List A)
        → All (R x) ys
        → All (λ z. All (λ y. (z ≡ y) ⊎ R z y) xs) ys
        → All (λ z. All (λ y. (z ≡ y) ⊎ R z y) (x ∷ xs)) ys
    extend [] h k = tt
    extend (y ∷ ys) h k = ((inr (R_symm x y h.0), k.0), extend ys h.1 k.1)

pub prev_by_key-All {ℓ} :
    (P : Forward → Type ℓ) (port : ℕ) (proto : Text) (fs : List Forward) {o : Forward}
    → All P fs
    → prev_by_key port proto fs ≡ some o
    → P o × ((o.public_port == port && text_eq o.protocol proto) ≡ true)
unfolding prev_by_key
prev_by_key-All P port proto [] h e = cc
prev_by_key-All P port proto (f ∷ fs) {o} h e = elim (Option-cases (prev_by_key port proto fs)) [
  | inr (g, later) ↦
      let s : g ≡ o = ground arith in rw (← s) (prev_by_key-All P port proto fs h.1 later)
  | inl missing ↦ elim (Bool-cases (f.public_port == port && text_eq f.protocol proto)) [
    | inl here ↦ let s : f ≡ o = ground arith in rw (← s) (h.0, here)
    | inr other ↦ absurd (ground arith)
  ]
]

-- What `NewID` is relied on for: the ids that it returns are new, and differ from one another.
pub record AreFresh (fresh : ℕ → Text) (fs : List Forward) : Type 0 where
  pub distinct : (i k : ℕ) → i < k → text_eq (fresh i) (fresh k) ≡ false
  pub unused : (i : ℕ) → All (λ o. text_eq o.id (fresh i) ≡ false) fs

module _ (group_id : Text) (g : GroupFields) (prev : List Forward) (now : ℕ) (fresh : ℕ → Text)
    (prev_separate : Pairwise Separate prev) (ids : AreFresh fresh prev) where
  abbrev mem_of : ℕ → PortEntry → Forward
  mem_of i e = member group_id g prev now (fresh i) e

  two_old :
      (a b : PortEntry) (o p : Forward)
      → prev_by_key a.public_port a.protocol prev ≡ some o
      → prev_by_key b.public_port b.protocol prev ≡ some p
      → Apart a b
      → text_eq o.id p.id ≡ false
  unfolding proto_overlap
  two_old a b o p e d h =
      let (row, at_o) =
        prev_by_key-All (λ x. All (λ y. (x ≡ y) ⊎ Separate x y) prev) a.public_port a.protocol prev
          (Pairwise-total Separate Separate-symm prev prev_separate) e in
      let (cell, at_p) =
        prev_by_key-All (λ y. (o ≡ y) ⊎ Separate o y) b.public_port b.protocol prev row d in
      elim cell [
        | inr s ↦ s.0
        | inl s ↦
            let at_q : (o.public_port == b.public_port && text_eq o.protocol b.protocol) ≡ true =
              rw s at_p in
            absurd (
              ground (
                arith,
                text_eq_iff o.protocol b.protocol,
                text_eq_iff o.protocol a.protocol,
                text_eq_iff a.protocol b.protocol,
                at_o,
                at_q,
                h,
              ))
      ]

  member_ids :
      (a b : PortEntry) (i k : ℕ)
      → i < k
      → Apart a b
      → text_eq (mem_of i a).id (mem_of k b).id ≡ false
  unfolding member
  member_ids a b i k lt h = elim (Option-cases (prev_by_key a.public_port a.protocol prev)) [
    | inl new_a ↦ elim (Option-cases (prev_by_key b.public_port b.protocol prev)) [
      | inl new_b ↦ rw (new_a, new_b) (ids.distinct i k lt)
      | inr (p, old_b) ↦
          let other =
            (prev_by_key-All (λ x. text_eq x.id (fresh i) ≡ false) b.public_port b.protocol prev
              (ids.unused i) old_b).0 in
          rw (new_a, old_b)
            (ground (arith, text_eq_iff p.id (fresh i), text_eq_iff (fresh i) p.id, other))
    ]
    | inr (o, old_a) ↦ elim (Option-cases (prev_by_key b.public_port b.protocol prev)) [
      | inl new_b ↦
          rw (old_a, new_b)
            (prev_by_key-All (λ x. text_eq x.id (fresh k) ≡ false) a.public_port a.protocol prev
              (ids.unused k) old_a).0
      | inr (p, old_b) ↦ rw (old_a, old_b) (two_old a b o p old_a old_b h)
    ]
  ]

  member_Separate :
      (a b : PortEntry) (i k : ℕ) → i < k → Apart a b → Separate (mem_of i a) (mem_of k b)
  unfolding member
  member_Separate a b i k lt h =
      (member_ids a b i k lt h, Apart-clash a b (mem_of i a) (mem_of k b) refl refl refl refl h)

  module _ (env : Env) where
    check-ok : (r : Option Error) {u : Unit {0}} → check r ≡ ok u → r ≡ none
    check-ok none h = refl
    check-ok (some e) h = cc

    reserve-ok : (b : Bool) {u : Unit {0}} → (if b then err conflict else ok tt) ≡ ok u → b ≡ false
    reserve-ok true h = cc
    reserve-ok false h = refl

    -- what holds of the member of every entry holds of all members
    pub expand_entries-All {ℓ κ} :
        (Q : Forward → Type ℓ) (R : PortEntry → Type κ) (i : ℕ) (es : List PortEntry)
        {fs : List Forward}
        → ((k : ℕ) (e : PortEntry) → i ≤ k → R e → IsAllowed env (mem_of k e) → Q (mem_of k e))
        → All R es
        → expand_entries env group_id g prev now fresh i es ≡ ok fs
        → All Q fs
    unfolding expand_entries member
    expand_entries-All Q R i [] {fs} each h e = let s : [] ≡ fs = ground arith in rw (← s) tt
    expand_entries-All Q R i (x ∷ es) {fs} each h e =
        let (_, valid, e1) = >>=-eq-ok (check (validate (mem_of i x))) _ e in
        let (_, clear, e2) =
          >>=-eq-ok (if is_reserved env x.public_port then err conflict else ok (tt {0})) _ e1 in
        let (rest, later, e3) =
          >>=-eq-ok (expand_entries env group_id g prev now fresh (suc i) es) _ e2 in
        let s : mem_of i x ∷ rest ≡ fs = ground arith in
        let ok_here : IsAllowed env (mem_of i x) = record {
          valid = check-ok _ valid;
          unreserved = reserve-ok _ clear;
        } in
        rw (← s) (
          each i x (omega arith) h.0 ok_here,
          expand_entries-All Q R (suc i) es (λ k y le r a. each k y (omega arith) r a) h.1 later,
        )

    pub expand_entries-Separate :
        (i : ℕ) (es : List PortEntry) {fs : List Forward}
        → Pairwise Apart es
        → expand_entries env group_id g prev now fresh i es ≡ ok fs
        → Pairwise Separate fs
    unfolding expand_entries
    expand_entries-Separate i [] {fs} p e = let s : [] ≡ fs = ground arith in rw (← s) tt
    expand_entries-Separate i (x ∷ es) {fs} p e =
        let (_, valid, e1) = >>=-eq-ok (check (validate (mem_of i x))) _ e in
        let (_, clear, e2) =
          >>=-eq-ok (if is_reserved env x.public_port then err conflict else ok (tt {0})) _ e1 in
        let (rest, later, e3) =
          >>=-eq-ok (expand_entries env group_id g prev now fresh (suc i) es) _ e2 in
        let s : mem_of i x ∷ rest ≡ fs = ground arith in
        rw (← s) (
          expand_entries-All (Separate (mem_of i x)) (Apart x) (suc i) es
              (λ k y le r a. member_Separate x y i k (omega arith) r) p.0 later,
          expand_entries-Separate (suc i) es p.1 later,
        )

  -- the id of a member is in no other group
  pub member_other :
      (os : List Forward) (k : ℕ) (e : PortEntry)
      → AreFresh fresh os
      → All (λ p. Others group_id (λ o. text_eq o.id p.id ≡ false) os) prev
      → Others group_id (λ o. text_eq o.id (mem_of k e).id ≡ false) os
  unfolding member
  member_other os k e new old = elim (Option-cases (prev_by_key e.public_port e.protocol prev)) [
    | inl none_old ↦ rw none_old (
        All-map (λ o. text_eq o.id (fresh k) ≡ false)
          (λ o. text_eq o.group_id group_id ≡ false → text_eq o.id (fresh k) ≡ false) os
          (λ o h _. h) (new.unused k))
    | inr (p, found) ↦
        rw found
          (prev_by_key-All (λ p. Others group_id (λ o. text_eq o.id p.id ≡ false) os) e.public_port
            e.protocol prev old found).0
  ]
