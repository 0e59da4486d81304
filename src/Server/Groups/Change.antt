-- ===== src/Server/Groups/Change.antt =====
-- internal/server/groups.go: the members that `expandGroup` makes are a change that `ApplyGroup` takes
-- back as a whole.
use spawn_relay.Common.{
  ◌==◌, ◌&&◌, ℕ, ◌≡◌, ◌⊎◌, arith, true, false, List, none, Text, text_eq, text_eq_iff, All, All_of,
  All-map, Pairwise, Member, All_members, Option-cases, inl, inr,
}
use spawn_relay.Store.{Forward, ok, >>=-eq-ok}
use spawn_relay.Store.Conflict.{Separate}
use spawn_relay.Store.Validate.{validate_name}
use spawn_relay.PortSpec.{PortEntry}
use spawn_relay.PortSpec.Parse.{parse_port_spec}
use spawn_relay.PortSpec.Parse.Bounds.{parse_port_spec-IsExpansion}
use spawn_relay.Tunnel.{Runners, running, mem_id}
use spawn_relay.Tunnel.Apply.{IsBound}
use spawn_relay.Tunnel.Rollback.{is_alike, shown, same_sockets}
use spawn_relay.Tunnel.Rollback.Restored.{mem_id-Member}
use spawn_relay.Tunnel.Rollback.Change.{IsChange}
use spawn_relay.Store.Order.{forwards_in_group}
use spawn_relay.Tunnel.{apply_group}
use spawn_relay.Tunnel.Rollback.Outcomes.{Outcome, apply_group-Outcome}
use spawn_relay.Server.{Env, Server}
use spawn_relay.Server.Invariant.{IsWellFormed}
use spawn_relay.Server.Groups.Prior.{in_group-Separate, in_group-AreFresh}
use spawn_relay.Server.Groups.{GroupFields, named, check, expand_group, member, prev_by_key}
use spawn_relay.Server.Groups.Commit.{Separate-symm}
use spawn_relay.Server.Groups.Members.{
  AreFresh, Pairwise-total, prev_by_key-All, expand_entries-All, expand_entries-Separate,
}

module _ (group_id : Text) (g : GroupFields) (prev : List Forward) (now : ℕ) (fresh : ℕ → Text)
    (apart : Pairwise Separate prev) (ids : AreFresh fresh prev) where
  -- A member has the id of an old one only with its port and protocol.
  member-kept :
      (e : PortEntry) (i : ℕ)
      → All
          (λ p.
            text_eq (member group_id g prev now (fresh i) e).id p.id ≡ true
            → same_sockets (member group_id g prev now (fresh i) e) p ≡ true)
          prev
  unfolding member
  member-kept e i = elim (Option-cases (prev_by_key e.public_port e.protocol prev)) [
    | inl new ↦ rw new (
        All-map (λ p. text_eq p.id (fresh i) ≡ false)
          (λ p.
            text_eq (fresh i) p.id ≡ true
            → same_sockets (member group_id g prev now (fresh i) e) p ≡ true)
          prev
          (λ p other own.
            absurd (ground (arith, text_eq_iff p.id (fresh i), text_eq_iff (fresh i) p.id)))
          (ids.unused i))
    | inr (o, found) ↦
        let (row, at_o) =
          prev_by_key-All (λ x. All (λ y. (x ≡ y) ⊎ Separate x y) prev) e.public_port e.protocol
            prev (Pairwise-total Separate Separate-symm prev apart) found in
        rw found (
          All-map (λ p. (o ≡ p) ⊎ Separate o p)
            (λ p.
              text_eq o.id p.id ≡ true
              → same_sockets (member group_id g prev now (fresh i) e) p ≡ true)
            prev
            (λ p t own. elim t [
              | inr s ↦ cc (own, s.0)
              | inl s ↦
                  let at_p : (p.public_port == e.public_port && text_eq p.protocol e.protocol)
                      ≡ true =
                    rw s at at_o in
                  ground
                    (arith, text_eq_iff p.protocol e.protocol, text_eq_iff e.protocol p.protocol)
            ])
            row)
  ]

  -- Under an id that is not an old member's, nothing runs.
  member-fresh :
      (before : Runners) (e : PortEntry) (i : ℕ)
      → ((k : ℕ) → running (fresh k) before ≡ none)
      → mem_id (member group_id g prev now (fresh i) e).id prev ≡ false
      → running (member group_id g prev now (fresh i) e).id before ≡ none
  unfolding member
  member-fresh before e i unused new =
      elim (Option-cases (prev_by_key e.public_port e.protocol prev)) [
        | inl none_old ↦ rw none_old (unused i)
        | inr (o, found) ↦
            let (m, _) =
              prev_by_key-All (λ x. mem_id x.id prev ≡ true) e.public_port e.protocol prev
                (All-map (λ x. Member x prev) (λ x. mem_id x.id prev ≡ true) prev
                  (λ x m. mem_id-Member m) (All_members prev))
                found in
            cc (m, rw found at new)
      ]

module _ (env : Env) where
  pub expand_group-IsChange :
      (group_id : Text) (g : GroupFields) (prev : List Forward) (now : ℕ) (fresh : ℕ → Text)
      (before : Runners) (next : List Forward)
      → IsBound env.busy before
      → Pairwise Separate prev
      → AreFresh fresh prev
      → ((k : ℕ) → running (fresh k) before ≡ none)
      → All (λ p. is_alike (running p.id before) (shown p) ≡ true) prev
      → expand_group env group_id g prev now fresh ≡ ok next
      → IsChange env.busy before next prev
  unfolding expand_group
  expand_group-IsChange group_id g prev now fresh before next bound apart ids unused served e =
      let (es, parsed, e1) = >>=-eq-ok (parse_port_spec g.ports g.protocol) _ e in
      let (_, name_ok, e2) = >>=-eq-ok (check (validate_name (named g es).name)) _ e1 in
      let x = parse_port_spec-IsExpansion g.ports g.protocol es parsed in
      let every = All_of (λ (y : PortEntry). Unit {0}) es (λ y. tt) in
      let h = named g es in
      record {
        bound = bound;
        separate = expand_entries-Separate group_id h prev now fresh apart ids env 0 es x.apart e2;
        served = served;
        kept =
            expand_entries-All group_id h prev now fresh apart ids env
              (λ n. All (λ p. text_eq n.id p.id ≡ true → same_sockets n p ≡ true) prev)
              (λ _. Unit {0}) 0 es
              (λ k y le r a. member-kept group_id h prev now fresh apart ids y k) every e2;
        fresh =
            expand_entries-All group_id h prev now fresh apart ids env
              (λ n. mem_id n.id prev ≡ false → running n.id before ≡ none) (λ _. Unit {0}) 0 es
              (λ k y le r a. member-fresh group_id h prev now fresh apart ids before y k unused)
              every e2;
      }

  -- The members that `expandGroup` makes for an edit of a group are applied by `ApplyGroup` all
  -- or nothing. Without an error every new member is served as its settings say, the old
  -- members that are dropped are stopped, and no other listener is touched. With an error every
  -- listener runs as it did before, with the same client, protocol, ports and target, or does
  -- not run as it did not before. This holds where the server is well formed, the old members
  -- run as their settings say, the ids that `NewID` returns are new and distinct, and nothing
  -- runs under them.
  pub expand_group-Outcome :
      (id : Text) (g : GroupFields) (fresh : ℕ → Text) (now : ℕ) (s : Server) (next : List Forward)
      → IsWellFormed env s
      → AreFresh fresh s.state.forwards
      → ((k : ℕ) → running (fresh k) s.runners ≡ none)
      → All (λ p. is_alike (running p.id s.runners) (shown p) ≡ true) (forwards_in_group s.state id)
      → expand_group env id g (forwards_in_group s.state id) now fresh ≡ ok next
      → Outcome s.runners next
          (forwards_in_group s.state id)
          (apply_group env.busy s.runners next (forwards_in_group s.state id))
  expand_group-Outcome id g fresh now s next h new unused served e =
      let prev = forwards_in_group s.state id in
      apply_group-Outcome env.busy s.runners next prev (
        expand_group-IsChange id g prev now fresh s.runners next h.bound
          (in_group-Separate s.state id h.stored.separate)
          (in_group-AreFresh s.state id h.stored.separate fresh new) unused served e)
