-- ===== src/Server/Groups/Expand.antt =====
-- internal/server/groups.go: what `expandGroup` hands to `commitGroup`.
use spawn_relay.Common.{
  ℕ, ◌≡◌, false, List, Text, text_eq, All, All_of, Pairwise, Bool-cases, inl, inr, is_empty,
}
use spawn_relay.Store.{Forward, ok, >>=-eq-ok}
use spawn_relay.Store.Conflict.{Separate}
use spawn_relay.Store.Validate.{validate_name}
use spawn_relay.PortSpec.{PortEntry}
use spawn_relay.PortSpec.Parse.{parse_port_spec}
use spawn_relay.PortSpec.Parse.Bounds.{parse_port_spec-IsExpansion}
use spawn_relay.Server.{Env}
use spawn_relay.Server.Invariant.{IsAllowed}
use spawn_relay.Server.Groups.{GroupFields, named, check, expand_group, member}
use spawn_relay.Server.Groups.Commit.{Others}
use spawn_relay.Server.Groups.Members.{
  AreFresh, expand_entries-All, expand_entries-Separate, member_other,
}
use spawn_relay.Server.Groups.Invariant.{IsReady}

pub named-client : (g : GroupFields) (es : List PortEntry) → (named g es).client_id ≡ g.client_id
named-client g es = elim (Bool-cases (is_empty g.name)) [ inl e ↦ rw e | inr e ↦ rw e ]

module _ (env : Env) where
  pub expand_group-IsReady :
      (group_id : Text) (g : GroupFields) (prev : List Forward) (now : ℕ) (fresh : ℕ → Text)
      (os next : List Forward)
      → Pairwise Separate prev
      → AreFresh fresh prev
      → AreFresh fresh os
      → All (λ p. Others group_id (λ o. text_eq o.id p.id ≡ false) os) prev
      → expand_group env group_id g prev now fresh ≡ ok next
      → IsReady env group_id g.client_id os next
  unfolding expand_group member
  expand_group-IsReady group_id g prev now fresh os next p a b old e =
      let (es, parsed, e1) = >>=-eq-ok (parse_port_spec g.ports g.protocol) _ e in
      let (_, name_ok, e2) = >>=-eq-ok (check (validate_name (named g es).name)) _ e1 in
      let x = parse_port_spec-IsExpansion g.ports g.protocol es parsed in
      let every = All_of (λ (y : PortEntry). Unit {0}) es (λ y. tt) in
      record {
        separate =
            expand_entries-Separate group_id (named g es) prev now fresh p a env 0 es x.apart e2;
        allowed =
            expand_entries-All group_id (named g es) prev now fresh p a env (IsAllowed env)
              (λ _. Unit {0}) 0 es (λ k y le r h. h) every e2;
        clients =
            expand_entries-All group_id (named g es) prev now fresh p a env
              (λ n. n.client_id ≡ g.client_id) (λ _. Unit {0}) 0 es
              (λ k y le r h. named-client g es) every e2;
        others =
            expand_entries-All group_id (named g es) prev now fresh p a env
              (λ n. Others group_id (λ o. text_eq o.id n.id ≡ false) os) (λ _. Unit {0}) 0 es
              (λ k y le r h. member_other group_id (named g es) prev now fresh p a os k y b old)
              every e2;
      }
