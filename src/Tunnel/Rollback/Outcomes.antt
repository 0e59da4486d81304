-- ===== src/Tunnel/Rollback/Outcomes.antt =====
-- internal/server/tunnel.go: the outcomes of `ApplyGroup`.
use spawn_relay.Common.{
  ℕ, ◌≡◌, subst, refl, arith, sym, ◌∙◌, Bool, true, false, List, [], ◌∷◌, ◌++◌, Option, none, some,
  Text, text_eq_iff, All, Pairwise, Bool-cases, Option-cases, inl, inr,
}
use spawn_relay.Store.{Forward}
use spawn_relay.Store.Conflict.{Separate}
use spawn_relay.Tunnel.{
  Kind, BindError, Runners, running, mem_id, dropped, apply, apply_next, apply_group,
}
use spawn_relay.Tunnel.Apply.{IsBound}
use spawn_relay.Tunnel.Listeners.{Serves, apply-IsBound, apply-Serves}
use spawn_relay.Tunnel.Group.{remove_all-IsBound}
use spawn_relay.Tunnel.Rollback.{is_alike, shown, shown-on, shown-off}
use spawn_relay.Tunnel.Rollback.Restored.{running-remove_all-other, running-remove_all-gone}
use spawn_relay.Tunnel.Rollback.Change.{IsChange, kept_rs}
use spawn_relay.Tunnel.Rollback.Whole.{apply_group_failed}

-- All or nothing: the new members are served and the dropped ones stopped, or everything runs as it
-- did before.
pub data Outcome (before : Runners) (next prev : List Forward) (res : Runners × Option BindError)
    : Type 0 where
  changed :
      res.1 ≡ none
      → All (λ n. is_alike (running n.id res.0) (shown n) ≡ true) next
      → ((j : Text)
          → mem_id j (dropped next prev) ≡ true
          → mem_id j next ≡ false
          → running j res.0 ≡ none)
      → ((j : Text)
          → mem_id j (dropped next prev) ≡ false
          → mem_id j next ≡ false
          → running j res.0 ≡ running j before)
      → Outcome before next prev res
  unchanged :
      (e : BindError)
      → res.1 ≡ some e
      → ((j : Text) → is_alike (running j res.0) (running j before) ≡ true)
      → Outcome before next prev res

Serves-shown :
    (rs rs' : Runners) (f : Forward)
    → Serves rs rs' f
    → is_alike (running f.id rs') (shown f) ≡ true
Serves-shown rs rs' f serves = elim (Bool-cases f.enabled) [
  | inr off ↦ rw (serves.off off, shown-off f off) refl
  | inl on ↦ let (r, e, s) = serves.on on in rw (e, shown-on f on) s
]

Separate-mem_id : (f : Forward) (fs : List Forward) → All (Separate f) fs → mem_id f.id fs ≡ false
Separate-mem_id f [] h = refl
Separate-mem_id f (g ∷ fs) h =
    ground (arith, Separate-mem_id f fs h.1, text_eq_iff g.id f.id, text_eq_iff f.id g.id, h.0.0)

module _ (busy : Kind → ℕ → Bool) where
  -- the members are served, and what runs under other ids is untouched
  abbrev Shows : Runners → List Forward → Runners × Option BindError → Type 0
  Shows rs next res =
      All (λ n. is_alike (running n.id res.0) (shown n) ≡ true) next
      × ((j : Text) → mem_id j next ≡ false → running j res.0 ≡ running j rs)

  apply_next-fine :
      (prev removed : List Forward) (rs : Runners) (applied : List Forward) (f : Forward)
      (next : List Forward)
      → (apply busy rs f).1 ≡ none
      → apply_next busy prev removed rs applied (f ∷ next)
        ≡ apply_next busy prev removed (apply busy rs f).0 (applied ++ f ∷ []) next
  unfolding apply_next
  apply_next-fine prev removed rs applied f next fine = rw (fine, apply_next) refl

  apply_next-shown :
      (prev removed : List Forward) (rs : Runners) (applied next : List Forward)
      → IsBound busy rs
      → Pairwise Separate next
      → (apply_next busy prev removed rs applied next).1 ≡ none
      → Shows rs next (apply_next busy prev removed rs applied next)
  unfolding apply_next
  apply_next-shown prev removed rs applied [] is apart done = (tt, λ j there. refl)
  apply_next-shown prev removed rs applied (f ∷ next) is apart done =
      elim (Option-cases (apply busy rs f).1) [
        | inr (e, failed) ↦ cc (rw (failed, apply_next) at done)
        | inl fine ↦
            let serves = apply-Serves busy rs f is fine in
            let (all, others) =
              apply_next-shown prev removed (apply busy rs f).0 (applied ++ f ∷ []) next
                (apply-IsBound busy rs f is) apart.1
                (rw (apply_next-fine prev removed rs applied f next fine) at done) in
            subst (Shows rs (f ∷ next)) (sym (apply_next-fine prev removed rs applied f next fine))
              (
                (
                  rw (others f.id (Separate-mem_id f next apart.0))
                      (Serves-shown rs (apply busy rs f).0 f serves),
                  all,
                ),
                λ j there. others j (ground arith) ∙ serves.others j (ground arith),
              )
      ]

  -- Such a change is all or nothing.
  pub apply_group-Outcome :
      (before : Runners) (next prev : List Forward)
      → IsChange busy before next prev
      → Outcome before next prev (apply_group busy before next prev)
  unfolding apply_group
  apply_group-Outcome before next prev change =
      elim (Option-cases (apply_group busy before next prev).1) [
        | inr (e, failed) ↦
            unchanged e failed (λ j. apply_group_failed busy before next prev e j change failed)
        | inl done ↦
            let (all, others) =
              apply_next-shown prev (dropped next prev) (kept_rs before next prev) [] next
                (remove_all-IsBound busy before (dropped next prev) change.bound) change.separate
                done in
            changed done all
              (λ j gone there.
                others j there ∙ running-remove_all-gone before (dropped next prev) j gone)
              (λ j stays there.
                others j there ∙ running-remove_all-other before (dropped next prev) j stays)
      ]
