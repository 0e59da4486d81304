-- ===== src/Tunnel/Rollback/Whole.antt =====
-- internal/server/tunnel.go: `ApplyGroup` as a whole, where it fails.
use mathlib.Core.Option.{some-injective}
use spawn_relay.Common.{
  ℕ, ◌≡◌, refl, arith, ap, sym, ◌∙◌, Bool, true, false, not, List, [], ◌∷◌, ◌++◌, none, some, Text,
  text_eq, text_eq_iff, All, All-append, All-keep, All_members, Member, All-Member, Bool-cases,
  Option-cases, inl, inr,
}
use spawn_relay.Store.{Forward}
use spawn_relay.Tunnel.{
  Kind, BindError, Runners, running, mem_id, dropped, apply, apply_all, undo, rollback, apply_next,
  apply_group,
}
use spawn_relay.Tunnel.Apply.{IsBound}
use spawn_relay.Tunnel.Listeners.{apply-IsBound, apply-Serves, apply_failed}
use spawn_relay.Tunnel.Group.{remove_all-IsBound, undo-IsBound}
use spawn_relay.Tunnel.Rollback.{
  is_alike, shown, same_sockets, same-same_sockets, is_alike_refl, is_alike-some, restores,
}
use spawn_relay.Tunnel.Rollback.Restored.{
  mem_id-append, running-remove_all-other, running-remove_all-some,
}
use spawn_relay.Tunnel.Rollback.Change.{IsChange, kept_rs, Tracks, old-apart}
use spawn_relay.Tunnel.Rollback.Undo.{undo-Tracks}

module _ (busy : Kind → ℕ → Bool) (before : Runners) (next prev : List Forward)
    (change : IsChange busy before next prev) where
  -- What runs is as it was before, but for the listeners of `rest`, some of which are stopped.
  record Returns (rest : List Forward) (rs : Runners) : Type 0 where
    old : (r : Forward) → running r.id rs ≡ some r → is_alike (some r) (running r.id before) ≡ true
    back : (j : Text) → mem_id j rest ≡ false → is_alike (running j rs) (running j before) ≡ true

  apply-Returns :
      (p : Forward) (rest : List Forward) (rs : Runners)
      → Member p prev
      → IsBound busy rs
      → Returns (p ∷ rest) rs
      → Returns rest (apply busy rs p).0
  apply-Returns p rest rs mp is returns =
      let (serves, back) =
        restores busy before rs p change.bound is
          (All-Member (λ q. is_alike (running q.id before) (shown q) ≡ true) change.served mp)
          (λ o r e s f apart.
            old-apart busy before next prev change p o r e s (returns.old r f) apart) in
      let again : (j : Text)
          → text_eq p.id j ≡ true
          → is_alike (running j (apply busy rs p).0) (running j before) ≡ true =
        λ j here. rw (← (text_eq_iff p.id j).0 here) back in
      record {
        old = λ r e. elim (Bool-cases (text_eq p.id r.id)) [
          | inl here ↦ let like = again r.id here in rw e at like
          | inr other ↦ returns.old r (sym (serves.others r.id other) ∙ e)
        ];
        back = λ j there. elim (Bool-cases (text_eq p.id j)) [
          | inl here ↦ again j here
          | inr other ↦ rw (serves.others j other) (returns.back j (ground arith))
        ];
      }

  -- the second loop of the rollback
  apply_all-Returns :
      (removed : List Forward) (rs : Runners)
      → All (λ p. Member p prev) removed
      → IsBound busy rs
      → Returns removed rs
      → Returns [] (apply_all busy rs removed)
  unfolding apply_all
  apply_all-Returns [] rs m is returns = returns
  apply_all-Returns (p ∷ removed) rs m is returns =
      apply_all-Returns removed (apply busy rs p).0 m.1 (apply-IsBound busy rs p is)
        (apply-Returns p removed rs m.0 is returns)

  -- behind the first loop
  Tracks-Returns :
      (rs : Runners) → Tracks busy before next prev change [] rs → Returns (dropped next prev) rs
  Tracks-Returns rs tracks = record {
    old = λ r e.
        let like = tracks.settled r.id refl in
        let (q, f, s) = is_alike-some r (running r.id (kept_rs before next prev)) (rw e at like) in
        rw (running-remove_all-some before (dropped next prev) r.id f) s;
    back = λ j there.
        rw (← running-remove_all-other before (dropped next prev) j there) (tracks.settled j refl);
  }

  rollback-Returns :
      (rs : Runners) (applied : List Forward)
      → All (λ a. Member a next) applied
      → IsBound busy rs
      → Tracks busy before next prev change applied rs
      → Returns [] (rollback busy prev (dropped next prev) rs applied)
  unfolding rollback
  rollback-Returns rs applied m is tracks =
      apply_all-Returns (dropped next prev) (undo busy prev rs applied)
        (All-keep (λ p. Member p prev) (λ f. not (mem_id f.id next)) prev (All_members prev))
        (undo-IsBound busy prev rs applied is)
        (Tracks-Returns (undo busy prev rs applied)
          (undo-Tracks busy before next prev change applied rs m is tracks))

  -- a member that is applied
  applied-Tracks :
      (f : Forward) (applied : List Forward) (rs : Runners)
      → Member f next
      → IsBound busy rs
      → (apply busy rs f).1 ≡ none
      → Tracks busy before next prev change applied rs
      → Tracks busy before next prev change (applied ++ f ∷ []) (apply busy rs f).0
  applied-Tracks f applied rs m is done tracks =
      let serves = apply-Serves busy rs f is done in
      record {
        pending = λ r there e. elim (Bool-cases (text_eq f.id r.id)) [
          | inl here ↦ (f, m, here, own r here e)
          | inr other ↦
              tracks.pending r (ground (arith, mem_id-append r.id applied (f ∷ []), there))
                (sym (serves.others r.id other) ∙ e)
        ];
        settled = λ j there.
            let away : text_eq f.id j ≡ false =
              ground (arith, mem_id-append j applied (f ∷ []), there) in
            rw (serves.others j away)
              (tracks.settled j (ground (arith, mem_id-append j applied (f ∷ []), there)));
      }
    where
      own :
          (r : Forward)
          → text_eq f.id r.id ≡ true
          → running r.id (apply busy rs f).0 ≡ some r
          → same_sockets r f ≡ true
      own r here e =
          let serves = apply-Serves busy rs f is done in
          let found : running f.id (apply busy rs f).0 ≡ some r =
            ap (λ (x : Text). running x (apply busy rs f).0) ((text_eq_iff f.id r.id).0 here) ∙ e in
          elim (Bool-cases f.enabled) [
            | inr off ↦ cc (serves.off off, found)
            | inl on ↦
                let (q, g, s) = serves.on on in
                let q_is_r : q ≡ r = some-injective _ _ (sym g ∙ found) in
                same-same_sockets r f (rw q_is_r at s)
          ]

  failed-Tracks :
      (f : Forward) (e : BindError) (applied : List Forward) (rs : Runners)
      → IsBound busy rs
      → (apply busy rs f).1 ≡ some e
      → Tracks busy before next prev change applied rs
      → Tracks busy before next prev change applied (apply busy rs f).0
  failed-Tracks f e applied rs is failed tracks = record {
    pending =
        λ r there d. tracks.pending r there (sym (apply_failed busy rs f e r.id is failed) ∙ d);
    settled = λ j there. rw (apply_failed busy rs f e j is failed) (tracks.settled j there);
  }

  apply_next-Returns :
      (applied rest : List Forward) (rs : Runners) (e : BindError)
      → All (λ a. Member a next) applied
      → All (λ a. Member a next) rest
      → IsBound busy rs
      → Tracks busy before next prev change applied rs
      → (apply_next busy prev (dropped next prev) rs applied rest).1 ≡ some e
      → Returns [] (apply_next busy prev (dropped next prev) rs applied rest).0
  unfolding apply_next
  apply_next-Returns applied [] rs e m k is tracks failed = cc
  apply_next-Returns applied (f ∷ rest) rs e m k is tracks failed =
      let after = apply-IsBound busy rs f is in
      elim (Option-cases (apply busy rs f).1) [
        | inr (why, bad) ↦
            rw (bad, apply_next)
              (rollback-Returns (apply busy rs f).0 applied m after
                (failed-Tracks f why applied rs is bad tracks))
        | inl done ↦
            rw (done, apply_next)
              (apply_next-Returns (applied ++ f ∷ []) rest (apply busy rs f).0 e
                (All-append (λ a. Member a next) applied (f ∷ []) m (k.0, tt)) k.1 after
                (applied-Tracks f applied rs k.0 is done tracks) (rw (done, apply_next) at failed))
      ]

-- Where `ApplyGroup` fails, every listener runs behind it as it did before.
pub apply_group_failed :
    (busy : Kind → ℕ → Bool) (before : Runners) (next prev : List Forward) (e : BindError)
    (j : Text)
    → IsChange busy before next prev
    → (apply_group busy before next prev).1 ≡ some e
    → is_alike (running j (apply_group busy before next prev).0) (running j before) ≡ true
unfolding apply_group
apply_group_failed busy before next prev e j change failed =
    let removed = kept_rs before next prev in
    let returns =
      apply_next-Returns busy before next prev change [] next removed e tt (All_members next)
        (remove_all-IsBound busy before (dropped next prev) change.bound)
        (record {
          pending = λ r there d. cc there;
          settled = λ i there. is_alike_refl (running i removed);
        })
        failed in
    returns.back j refl
