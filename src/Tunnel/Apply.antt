-- ===== src/Tunnel/Apply.antt =====
-- internal/server/tunnel.go: the outcomes of `Apply`.
use spawn_relay.Common.{
  ℕ, ◌≡◌, refl, ap, ◌∙◌, Bool, true, false, not, [], ◌∷◌, Option, none, some, Text, text_eq,
  text_eq_iff, arith, All, All-map, All-keep, Pairwise, find-some, Bool-cases, Option-cases, inl,
  inr,
}
use spawn_relay.Store.{Forward, clash, same}
use spawn_relay.Store.Conflict.{Separate, clash_comm}
use spawn_relay.Tunnel.{Kind, BindError, Runners, running, stop, start, restart, apply_over, apply}
use spawn_relay.Tunnel.Start.{IsIdle, IsFree, start_iff}

pub running-All {ℓ} :
    (P : Forward → Type ℓ) (id : Text) (rs : Runners) {r : Forward}
    → All P rs
    → running id rs ≡ some r
    → P r × (text_eq r.id id ≡ true)
running-All P id rs h e = find-some (λ r. text_eq r.id id) P rs h e

pub running-stop_self : (id : Text) (rs : Runners) → running id (stop id rs) ≡ none
running-stop_self id [] = refl
running-stop_self id (r ∷ rs) = ground (arith, running-stop_self id rs)

pub running-stop_ne :
    (id j : Text) (rs : Runners) → text_eq id j ≡ false → running j (stop id rs) ≡ running j rs
running-stop_ne id j [] h = refl
running-stop_ne id j (r ∷ rs) h =
    ground
      (arith, running-stop_ne id j rs h, text_eq_iff r.id id, text_eq_iff r.id j, text_eq_iff id j)

module _ (busy : Kind → ℕ → Bool) where
  -- The listeners that run: enabled, on sockets that no other process and no other listener holds.
  pub record IsBound (rs : Runners) : Type 0 where
    pub idle : All (IsIdle busy) rs
    pub enabled : All (λ r. r.enabled ≡ true) rs
    pub separate : Pairwise Separate rs

  Pairwise-stop : (id : Text) (rs : Runners) → Pairwise Separate rs → Pairwise Separate (stop id rs)
  Pairwise-stop id [] p = tt
  Pairwise-stop id (r ∷ rs) p = elim (Bool-cases (text_eq r.id id)) [
    | inl e ↦ rw e (Pairwise-stop id rs p.1)
    | inr e ↦
        rw e (All-keep (Separate r) (λ x. not (text_eq x.id id)) rs p.0, Pairwise-stop id rs p.1)
  ]

  pub stop-IsBound : (id : Text) (rs : Runners) → IsBound rs → IsBound (stop id rs)
  stop-IsBound id rs b = record {
    idle = All-keep (IsIdle busy) (λ r. not (text_eq r.id id)) rs b.idle;
    enabled = All-keep (λ r. r.enabled ≡ true) (λ r. not (text_eq r.id id)) rs b.enabled;
    separate = Pairwise-stop id rs b.separate;
  }

  -- what was stopped can be started again
  pub stop-IsFree :
      (id : Text) (rs : Runners) {o : Forward}
      → Pairwise Separate rs
      → running id rs ≡ some o
      → IsFree o (stop id rs)
  stop-IsFree id [] p e = cc
  stop-IsFree id (r ∷ rs) {o} p e = elim (Bool-cases (text_eq r.id id)) [
    | inl found ↦
        let s : r ≡ o = ground arith in
        rw (found, ← s)
          (All-keep (λ x. clash r x ≡ false) (λ x. not (text_eq x.id id)) rs
            (All-map (Separate r) (λ x. clash r x ≡ false) rs (λ x h. h.1) p.0))
    | inr other ↦
        let later : running id rs ≡ some o = rw other at e in
        rw other (
          clash_comm o r ∙ (running-All (Separate r) id rs p.0 later).0.1,
          stop-IsFree id rs p.1 later,
        )
  ]

  pub stop-other : (id : Text) (rs : Runners) → All (λ r. text_eq r.id id ≡ false) (stop id rs)
  stop-other id [] = tt
  stop-other id (r ∷ rs) = elim (Bool-cases (text_eq r.id id)) [
    | inl e ↦ rw e (stop-other id rs)
    | inr e ↦ rw e (e, stop-other id rs)
  ]

  pub cons-IsBound :
      (f : Forward) (rs : Runners)
      → IsBound rs
      → f.enabled ≡ true
      → All (λ r. text_eq r.id f.id ≡ false) rs
      → start busy rs f ≡ none
      → IsBound (f ∷ rs)
  cons-IsBound f rs b e others s =
      let (idle, free) = (start_iff busy rs f).0 s in
      record {
        idle = (idle, b.idle);
        enabled = (e, b.enabled);
        separate = (both rs others free, b.separate);
      }
    where
      both :
          (xs : Runners)
          → All (λ r. text_eq r.id f.id ≡ false) xs
          → IsFree f xs
          → All (Separate f) xs
      both [] h k = tt
      both (x ∷ xs) h k = (
        (ground (arith, text_eq_iff f.id x.id, text_eq_iff x.id f.id, h.0), k.0),
        both xs h.1 k.1,
      )

  -- The outcomes of `Apply`. An old listener can always be restored.
  pub data Outcome (rs : Runners) (f : Forward) (res : Runners × Option BindError) : Type 0 where
    unchanged :
        (o : Forward)
        → running f.id rs ≡ some o
        → same o f ≡ true
        → res ≡ (rs, none)
        → Outcome rs f res
    stopped : f.enabled ≡ false → res ≡ (stop f.id rs, none) → Outcome rs f res
    started :
        f.enabled ≡ true
        → start busy (stop f.id rs) f ≡ none
        → res ≡ (f ∷ stop f.id rs, none)
        → Outcome rs f res
    refused :
        (e : BindError)
        → f.enabled ≡ true
        → start busy (stop f.id rs) f ≡ some e
        → running f.id rs ≡ none
        → res ≡ (rs, some e)
        → Outcome rs f res
    restored :
        (o : Forward) (e : BindError)
        → f.enabled ≡ true
        → start busy (stop f.id rs) f ≡ some e
        → running f.id rs ≡ some o
        → start busy (stop f.id rs) o ≡ none
        → res ≡ (o ∷ stop f.id rs, some e)
        → Outcome rs f res

  stop_self : (id : Text) (rs : Runners) → running id rs ≡ none → stop id rs ≡ rs
  stop_self id [] e = refl
  stop_self id (r ∷ rs) e = elim (Bool-cases (text_eq r.id id)) [
    | inl found ↦ cc (rw found at e)
    | inr other ↦ rw other (ap (◌∷◌ r) (stop_self id rs (rw other at e)))
  ]

  start-stop :
      (id : Text) (rs : Runners) (o : Forward)
      → IsBound rs
      → running id rs ≡ some o
      → start busy (stop id rs) o ≡ none
  start-stop id rs o b e =
      (start_iff busy (stop id rs) o).1
        ((running-All (IsIdle busy) id rs b.idle e).0, stop-IsFree id rs b.separate e)

  apply_over-Outcome :
      (rs : Runners) (old : Option Forward) (f : Forward)
      → IsBound rs
      → running f.id rs ≡ old
      → Outcome rs f (apply_over busy rs old f)
  unfolding apply_over restart
  apply_over-Outcome rs none f b e = elim (Bool-cases f.enabled) [
    | inr off ↦ stopped off (ground (arith, stop_self f.id rs e))
    | inl on ↦ elim (Option-cases (start busy rs f)) [
      | inl done ↦ started on (rw (stop_self f.id rs e) done) (ground (arith, stop_self f.id rs e))
      | inr (x, failed) ↦ refused x on (rw (stop_self f.id rs e) failed) e (ground arith)
    ]
  ]
  apply_over-Outcome rs (some old) f b e = elim (Bool-cases (same old f)) [
    | inl s ↦ unchanged old e s (ground arith)
    | inr changed ↦ elim (Bool-cases f.enabled) [
      | inr off ↦ stopped off (ground arith)
      | inl on ↦ elim (Option-cases (start busy (stop f.id rs) f)) [
        | inl done ↦ started on done (ground arith)
        | inr (x, failed) ↦
            let back = start-stop f.id rs old b e in restored old x on failed e back (ground arith)
      ]
    ]
  ]

  pub apply-Outcome : (rs : Runners) (f : Forward) → IsBound rs → Outcome rs f (apply busy rs f)
  unfolding apply
  apply-Outcome rs f b = apply_over-Outcome rs (running f.id rs) f b refl
