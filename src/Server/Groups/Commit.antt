-- ===== src/Server/Groups/Commit.antt =====
-- internal/server/groups.go: the swap of the members in `commitGroup`.
use spawn_relay.Common.{
  ◌≡◌, ◌∙◌, subst, true, false, not, List, [], ◌∷◌, some, Text, text_eq, text_eq_iff, All, All-map,
  All-keep, Pairwise, Bool-cases, Option-cases, inl, inr, arith,
}
use spawn_relay.Store.{Forward}
use spawn_relay.Store.Conflict.{Separate, clash_comm, Pairwise-keep}
use spawn_relay.Tunnel.{last_by_id}
use spawn_relay.Server.Groups.{swap_members, drop_id}

pub Separate-symm : (a b : Forward) → Separate a b → Separate b a
Separate-symm a b (i, c) =
    (ground (arith, text_eq_iff a.id b.id, text_eq_iff b.id a.id, i), clash_comm b a ∙ c)

pub last_by_id-All {ℓ} :
    (P : Forward → Type ℓ) (id : Text) (fs : List Forward) {n : Forward}
    → All P fs
    → last_by_id id fs ≡ some n
    → P n × (text_eq n.id id ≡ true)
last_by_id-All P id [] h e = cc
last_by_id-All P id (f ∷ fs) {n} h e = elim (Option-cases (last_by_id id fs)) [
  | inr (g, later) ↦ let s : g ≡ n = ground arith in rw (← s) (last_by_id-All P id fs h.1 later)
  | inl missing ↦ elim (Bool-cases (text_eq f.id id)) [
    | inl here ↦ let s : f ≡ n = ground arith in rw (← s) (h.0, here)
    | inr other ↦ absurd (ground arith)
  ]
]

-- the member that is taken out of the map is separate from all that stay in it
last_by_id-Separate :
    (id : Text) (fs : List Forward) {n : Forward}
    → Pairwise Separate fs
    → last_by_id id fs ≡ some n
    → All (λ x. text_eq x.id id ≡ false → Separate n x) fs
last_by_id-Separate id [] p e = cc
last_by_id-Separate id (f ∷ fs) {n} p e = elim (Option-cases (last_by_id id fs)) [
  | inr (g, later) ↦
      let s : g ≡ n = ground arith in
      subst (λ z. All (λ x. text_eq x.id id ≡ false → Separate z x) (f ∷ fs)) s
        (
          (λ _. Separate-symm f g (last_by_id-All (Separate f) id fs p.0 later).0),
          last_by_id-Separate id fs p.1 later,
        )
  | inl missing ↦ elim (Bool-cases (text_eq f.id id)) [
    | inl here ↦
        let s : f ≡ n = ground arith in
        subst (λ z. All (λ x. text_eq x.id id ≡ false → Separate z x) (f ∷ fs)) s
          (
            (λ other. cc (here, other)),
            All-map (Separate f) (λ x. text_eq x.id id ≡ false → Separate f x) fs (λ x h _. h) p.0,
          )
    | inr other ↦ absurd (ground arith)
  ]
]

drop_id-Separate :
    (id : Text) (n : Forward) (fs : List Forward)
    → All (λ x. text_eq x.id id ≡ false → Separate n x) fs
    → All (Separate n) (drop_id id fs)
drop_id-Separate id n [] h = tt
drop_id-Separate id n (f ∷ fs) h = elim (Bool-cases (text_eq f.id id)) [
  | inl here ↦ rw here (drop_id-Separate id n fs h.1)
  | inr other ↦ rw other (h.0 other, drop_id-Separate id n fs h.1)
]

module _ (group_id : Text) where
  -- what holds of every forward of another group
  abbrev pub Others {ℓ} : (Forward → Type ℓ) → List Forward → Type ℓ
  Others Q os = All (λ o. text_eq o.group_id group_id ≡ false → Q o) os

  pub swap_members-All {ℓ} :
      (Q : Forward → Type ℓ) (pending os : List Forward)
      → All Q pending
      → Others Q os
      → All Q (swap_members group_id pending os)
  unfolding swap_members
  swap_members-All Q pending [] h k = h
  swap_members-All Q pending (o ∷ os) h k = elim (Bool-cases (text_eq o.group_id group_id)) [
    | inr other ↦ rw (other, swap_members) (k.0 other, swap_members-All Q pending os h k.1)
    | inl mine ↦ elim (Option-cases (last_by_id o.id pending)) [
      | inl missing ↦
          rw (mine, swap_members) (rw (missing, swap_members) (swap_members-All Q pending os h k.1))
      | inr (n, found) ↦
          rw (mine, swap_members)
            (rw (found, swap_members)
              (
                (last_by_id-All Q o.id pending h found).0,
                swap_members-All Q (drop_id o.id pending) os
                    (All-keep Q (λ x. not (text_eq x.id o.id)) pending h) k.1,
              ))
    ]
  ]

  -- every forward of another group is separate from every pending member
  abbrev pub IsCompatible : List Forward → List Forward → Type 0
  IsCompatible pending os = Others (λ o. All (Separate o) pending) os

  pub Pairwise-swap_members :
      (pending os : List Forward)
      → Pairwise Separate pending
      → Pairwise Separate os
      → IsCompatible pending os
      → Pairwise Separate (swap_members group_id pending os)
  unfolding swap_members
  Pairwise-swap_members pending [] p q c = p
  Pairwise-swap_members pending (o ∷ os) p q c = elim (Bool-cases (text_eq o.group_id group_id)) [
    | inr other ↦
        rw (other, swap_members)
          (
            swap_members-All (Separate o) pending os (c.0 other) (
                All-map (Separate o) (λ x. text_eq x.group_id group_id ≡ false → Separate o x) os
                  (λ x h _. h) q.0),
            Pairwise-swap_members pending os p q.1 c.1,
          )
    | inl mine ↦ elim (Option-cases (last_by_id o.id pending)) [
      | inl missing ↦
          rw (mine, swap_members)
            (rw (missing, swap_members) (Pairwise-swap_members pending os p q.1 c.1))
      | inr (n, found) ↦
          rw (mine, swap_members)
            (rw (found, swap_members)
              (
                swap_members-All (Separate n) (drop_id o.id pending) os
                    (drop_id-Separate o.id n pending (last_by_id-Separate o.id pending p found))
                    (All-map (λ x. text_eq x.group_id group_id ≡ false → All (Separate x) pending)
                      (λ x. text_eq x.group_id group_id ≡ false → Separate n x) os
                      (λ x h g.
                        Separate-symm x n (last_by_id-All (Separate x) o.id pending (h g) found).0)
                      c.1),
                Pairwise-swap_members (drop_id o.id pending) os
                    (Pairwise-keep Separate (λ x. not (text_eq x.id o.id)) pending p) q.1
                    (All-map (λ x. text_eq x.group_id group_id ≡ false → All (Separate x) pending)
                      (λ x.
                        text_eq x.group_id group_id ≡ false
                        → All (Separate x) (drop_id o.id pending))
                      os
                      (λ x h g. All-keep (Separate x) (λ y. not (text_eq y.id o.id)) pending (h g))
                      c.1),
              ))
    ]
  ]
