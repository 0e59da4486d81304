-- ===== src/Tunnel/Rollback/Undo.antt =====
-- internal/server/tunnel.go: the first loop of the rollback of `ApplyGroup`.
use mathlib.Core.Option.{some-injective}
use spawn_relay.Common.{
  ℕ, ◌≡◌, refl, arith, ap, sym, ◌∙◌, Bool, true, false, List, [], ◌∷◌, none, some, Text, text_eq,
  text_eq_iff, All, Member, All-Member, Bool-cases, Option-cases, inl, inr,
}
use spawn_relay.Store.{Forward, same, clash}
use spawn_relay.Tunnel.{Kind, Runners, running, stop, mem_id, dropped, last_by_id, apply, undo}
use spawn_relay.Tunnel.Apply.{IsBound, running-stop_self, running-stop_ne, stop-IsBound}
use spawn_relay.Tunnel.Listeners.{Serves, apply-IsBound}
use spawn_relay.Tunnel.Rollback.{
  is_alike, shown, same_sockets, same-same_sockets, is_alike-some, restores,
}
use spawn_relay.Tunnel.Rollback.Restored.{
  mem_id-Member, mem_id-dropped, last_by_id-none, last_by_id-Member, running-remove_all-none,
  running-remove_all-other, running-remove_all-some,
}
use spawn_relay.Tunnel.Rollback.Change.{IsChange, kept_rs, Tracks, old-apart, new-apart}

module _ (busy : Kind → ℕ → Bool) (before : Runners) (next prev : List Forward)
    (change : IsChange busy before next prev) where
  -- the member is not among the removed ones
  pub kept-running :
      (a : Forward) → Member a next → running a.id (kept_rs before next prev) ≡ running a.id before
  kept-running a m =
      running-remove_all-other before (dropped next prev) a.id
        (mem_id-dropped a next prev (mem_id-Member m))

  undo-new :
      (a : Forward) (rest : List Forward) (rs : Runners)
      → Member a next
      → mem_id a.id prev ≡ false
      → Tracks busy before next prev change (a ∷ rest) rs
      → Tracks busy before next prev change rest (stop a.id rs)
  undo-new a rest rs m new tracks = record {
    pending = λ r there e. elim (Bool-cases (text_eq a.id r.id)) [
      | inl here ↦ cc (stopped r.id here, e)
      | inr other ↦ tracks.pending r (ground arith) (sym (running-stop_ne a.id r.id rs other) ∙ e)
    ];
    settled = λ j there. elim (Bool-cases (text_eq a.id j)) [
      | inl here ↦ rw (stopped j here, before_none j here) refl
      | inr other ↦ rw (running-stop_ne a.id j rs other) (tracks.settled j (ground arith))
    ];
  }
    where
      stopped : (j : Text) → text_eq a.id j ≡ true → running j (stop a.id rs) ≡ none
      stopped j here =
          let own : a.id ≡ j = (text_eq_iff a.id j).0 here in
          ap (λ (x : Text). running x (stop a.id rs)) (sym own) ∙ running-stop_self a.id rs

      before_none : (j : Text) → text_eq a.id j ≡ true → running j (kept_rs before next prev) ≡ none
      before_none j here =
          let own : a.id ≡ j = (text_eq_iff a.id j).0 here in
          ap (λ (x : Text). running x (kept_rs before next prev)) (sym own)
          ∙ running-remove_all-none before (dropped next prev) a.id (
              All-Member (λ n. mem_id n.id prev ≡ false → running n.id before ≡ none) change.fresh m
                new)

  undo-free :
      (a p o r : Forward) (rest : List Forward) (rs : Runners)
      → Member a next
      → Member p prev
      → text_eq a.id p.id ≡ true
      → Tracks busy before next prev change (a ∷ rest) rs
      → running p.id before ≡ some o
      → same o p ≡ true
      → running r.id rs ≡ some r
      → text_eq p.id r.id ≡ false
      → clash p r ≡ false
  undo-free a p o r rest rs ma mp own tracks e s f apart =
      elim (Bool-cases (mem_id r.id (a ∷ rest))) [
        | inl there ↦
            let (n, mn, mine, sockets) = tracks.pending r there f in
            new-apart busy before next prev change a p r n ma mp own mn mine sockets apart
        | inr settled ↦
            let like = tracks.settled r.id settled in
            let (r', g, t) =
              is_alike-some r (running r.id (kept_rs before next prev)) (rw f at like) in
            old-apart busy before next prev change p o r e s
              (rw (running-remove_all-some before (dropped next prev) r.id g) t) apart
      ]

  undo-old :
      (a p : Forward) (rest : List Forward) (rs : Runners)
      → Member a next
      → Member p prev
      → text_eq p.id a.id ≡ true
      → IsBound busy rs
      → Tracks busy before next prev change (a ∷ rest) rs
      → Tracks busy before next prev change rest (apply busy rs p).0
  undo-old a p rest rs ma mp own is tracks = record {
    pending = λ r there e. elim (Bool-cases (text_eq p.id r.id)) [
      | inr other ↦ tracks.pending r (ground (arith, there)) (sym (serves.others r.id other) ∙ e)
      | inl here ↦ (
        a,
        ma,
        ground (arith, text_eq_iff p.id r.id, text_eq_iff p.id a.id, text_eq_iff a.id r.id),
        again r here e,
      )
    ];
    settled = λ j there. elim (Bool-cases (text_eq p.id j)) [
      | inr other ↦ rw (serves.others j other) (
          tracks.settled j
            (ground (arith, text_eq_iff p.id a.id, text_eq_iff a.id j, text_eq_iff p.id j)))
      | inl here ↦
          let at_p : p.id ≡ j = (text_eq_iff p.id j).0 here in
          let at_a : p.id ≡ a.id = (text_eq_iff p.id a.id).0 own in
          rw (← at_p) (rw (at_a, kept-running a ma) (rw at_a at back))
    ];
  }
    where
      same_id : text_eq a.id p.id ≡ true
      same_id = ground (arith, text_eq_iff a.id p.id, text_eq_iff p.id a.id, own)

      result :
          Serves rs (apply busy rs p).0 p
          × (is_alike (running p.id (apply busy rs p).0) (running p.id before) ≡ true)
      result =
          restores busy before rs p change.bound is
            (All-Member (λ q. is_alike (running q.id before) (shown q) ≡ true) change.served mp)
            (λ o r e s f apart. undo-free a p o r rest rs ma mp same_id tracks e s f apart)

      serves : Serves rs (apply busy rs p).0 p
      serves = result.0

      back : is_alike (running p.id (apply busy rs p).0) (running p.id before) ≡ true
      back = result.1

      again :
          (r : Forward)
          → text_eq p.id r.id ≡ true
          → running r.id (apply busy rs p).0 ≡ some r
          → same_sockets r a ≡ true
      again r here e =
          let at_p : p.id ≡ r.id = (text_eq_iff p.id r.id).0 here in
          let found : running p.id (apply busy rs p).0 ≡ some r =
            ap (λ (x : Text). running x (apply busy rs p).0) at_p ∙ e in
          elim (Bool-cases p.enabled) [
            | inr off ↦ cc (serves.off off, found)
            | inl on ↦
                let (q, g, s) = serves.on on in
                let q_is_r : q ≡ r = some-injective _ _ (sym g ∙ found) in
                let at_r = same-same_sockets r p (rw q_is_r at s) in
                let at_a =
                  All-Member (λ z. text_eq a.id z.id ≡ true → same_sockets a z ≡ true)
                    (All-Member
                      (λ x. All (λ z. text_eq x.id z.id ≡ true → same_sockets x z ≡ true) prev)
                      change.kept ma)
                    mp same_id in
                ground (
                  arith,
                  at_r,
                  at_a,
                  text_eq_iff r.protocol p.protocol,
                  text_eq_iff a.protocol p.protocol,
                  text_eq_iff r.protocol a.protocol,
                )
          ]

  pub undo-Tracks :
      (applied : List Forward) (rs : Runners)
      → All (λ a. Member a next) applied
      → IsBound busy rs
      → Tracks busy before next prev change applied rs
      → Tracks busy before next prev change [] (undo busy prev rs applied)
  unfolding undo
  undo-Tracks [] rs m is tracks = tracks
  undo-Tracks (a ∷ rest) rs m is tracks = elim (Option-cases (last_by_id a.id prev)) [
    | inl new ↦
        rw (new, undo)
          (undo-Tracks rest (stop a.id rs) m.1 (stop-IsBound busy a.id rs is)
            (undo-new a rest rs m.0 (last_by_id-none a.id prev new) tracks))
    | inr (p, found) ↦
        let (mp, own) = last_by_id-Member a.id prev found in
        rw (found, undo)
          (undo-Tracks rest (apply busy rs p).0 m.1 (apply-IsBound busy rs p is)
            (undo-old a p rest rs m.0 mp own is tracks))
  ]
