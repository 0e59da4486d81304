-- ===== src/Tunnel/Rollback/Change.antt =====
-- internal/server/tunnel.go: a change by `ApplyGroup`, and what runs during its rollback.
use spawn_relay.Common.{
  ℕ, ◌≡◌, arith, sym, ◌∙◌, Bool, true, false, List, none, some, Text, text_eq, text_eq_iff, All,
  Pairwise, Member, All-Member, All_members,
}
use spawn_relay.Store.{Forward, same, clash}
use spawn_relay.Store.Conflict.{Separate, clash_comm}
use spawn_relay.Tunnel.{Kind, Runners, running, remove_all, mem_id, dropped}
use spawn_relay.Tunnel.Apply.{IsBound, running-All}
use spawn_relay.Tunnel.Rollback.{
  is_alike, shown, same_sockets, same_symm, same-same_sockets, clash-same_sockets, is_alike-some,
}
use spawn_relay.Tunnel.Rollback.Restored.{Member-Separate}

-- what runs behind the removals
abbrev pub kept_rs : Runners → List Forward → List Forward → Runners
kept_rs before next prev = remove_all before (dropped next prev)

module _ (busy : Kind → ℕ → Bool) where
  -- A change of a group before which the listeners are in order: they are bound, those of the old
  -- members are as their settings say, and a new member has the id of an old one only with its port
  -- and its protocol, and otherwise an id that nothing runs under.
  pub record IsChange (before : Runners) (next prev : List Forward) : Type 0 where
    pub bound : IsBound busy before
    pub separate : Pairwise Separate next
    pub served : All (λ p. is_alike (running p.id before) (shown p) ≡ true) prev
    pub kept : All (λ n. All (λ p. text_eq n.id p.id ≡ true → same_sockets n p ≡ true) prev) next
    pub fresh : All (λ n. mem_id n.id prev ≡ false → running n.id before ≡ none) next

  -- two listeners that run have no socket in common
  running-apart :
      (rs : Runners) {a b : Forward} (i j : Text)
      → IsBound busy rs
      → running i rs ≡ some a
      → running j rs ≡ some b
      → text_eq i j ≡ false
      → clash a b ≡ false
  running-apart rs {a} {b} i j bound e f apart =
      let (m, mine) = running-Member i rs e in
      let (n, other) = running-Member j rs f in
      Member-Separate bound.separate m n (
        ground
          (arith, text_eq_iff a.id i, text_eq_iff b.id j, text_eq_iff a.id b.id, text_eq_iff i j))
    where
      running-Member :
          (id : Text) (xs : Runners) {x : Forward}
          → running id xs ≡ some x
          → Member x xs × (text_eq x.id id ≡ true)
      running-Member id xs e = running-All (λ y. Member y xs) id xs (All_members xs) e

  module _ (before : Runners) (next prev : List Forward) (change : IsChange before next prev) where
    -- The members of `rest` run as new members, the others as they did behind the removals.
    pub record Tracks (rest : List Forward) (rs : Runners) : Type 0 where
      pub pending :
          (r : Forward)
          → mem_id r.id rest ≡ true
          → running r.id rs ≡ some r
          → (n : Forward) × Member n next × (text_eq n.id r.id ≡ true) × (same_sockets r n ≡ true)
      pub settled :
          (j : Text)
          → mem_id j rest ≡ false
          → is_alike (running j rs) (running j (kept_rs before next prev)) ≡ true

    -- A listener that is like one that ran before clashes with no other that did.
    pub old-apart :
        (p o r : Forward)
        → running p.id before ≡ some o
        → same o p ≡ true
        → is_alike (some r) (running r.id before) ≡ true
        → text_eq p.id r.id ≡ false
        → clash p r ≡ false
    old-apart p o r e s like apart =
        let (r', f, t) = is_alike-some r (running r.id before) like in
        let at_p = clash-same_sockets p o r (same-same_sockets p o (same_symm o p s)) in
        let at_r = clash-same_sockets r r' o (same-same_sockets r r' t) in
        at_p
        ∙ clash_comm o r
        ∙ at_r
        ∙ clash_comm r' o
        ∙ running-apart before p.id r.id change.bound e f apart

    -- It clashes with no new member either.
    pub new-apart :
        (a p r n : Forward)
        → Member a next
        → Member p prev
        → text_eq a.id p.id ≡ true
        → Member n next
        → text_eq n.id r.id ≡ true
        → same_sockets r n ≡ true
        → text_eq p.id r.id ≡ false
        → clash p r ≡ false
    new-apart a p r n ma mp own mn mine sockets apart =
        let alike =
          All-Member (λ q. text_eq a.id q.id ≡ true → same_sockets a q ≡ true)
            (All-Member (λ x. All (λ q. text_eq x.id q.id ≡ true → same_sockets x q ≡ true) prev)
              change.kept ma)
            mp own in
        clash_comm p r
        ∙ clash-same_sockets r n p sockets
        ∙ clash_comm n p
        ∙ sym (clash-same_sockets a p n alike)
        ∙ Member-Separate change.separate ma mn (
            ground (
              arith,
              text_eq_iff a.id p.id,
              text_eq_iff n.id r.id,
              text_eq_iff a.id n.id,
              text_eq_iff p.id r.id,
            ))
