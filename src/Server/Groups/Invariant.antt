-- ===== src/Server/Groups/Invariant.antt =====
-- internal/server/groups.go: the state that `commitGroup` leaves.
use spawn_relay.Common.{
  ◌≡◌, ◌∙◌, false, not, ◌&&◌, List, [], ◌∷◌, some, Text, text_eq, All, All-map, All_of, Pairwise,
  Bool-cases, Option-cases, inl, inr, arith, find-none, find,
}
use spawn_relay.Store.{State, Forward, Client, clash, client_by_id}
use spawn_relay.Store.Conflict.{Separate, clash_comm}
use spawn_relay.Tunnel.{apply_group}
use spawn_relay.Tunnel.Group.{apply_group-IsBound}
use spawn_relay.Server.{Env, Server}
use spawn_relay.Server.Invariant.{IsAllowed, IsOwned, IsStored, IsWellFormed}
use spawn_relay.Server.Groups.{
  group_port_conflict, any_conflict, swap_members, swap_group, commit_group,
}
use spawn_relay.Server.Groups.Commit.{Others, IsCompatible, swap_members-All, Pairwise-swap_members}

any_conflict-false :
    (st : State) (group_id : Text) (next : List Forward)
    → any_conflict st group_id next ≡ false
    → All (λ n. Others group_id (λ o. clash n o ≡ false) st.forwards) next
unfolding any_conflict group_port_conflict
any_conflict-false st group_id [] e = tt
any_conflict-false st group_id (n ∷ next) e =
    elim (Option-cases (group_port_conflict st group_id n)) [
      | inr (o, taken) ↦ cc (rw (taken, any_conflict) at e)
      | inl clear ↦ (
        All-map (λ o. (not (text_eq o.group_id group_id) && clash n o) ≡ false)
            (λ o. text_eq o.group_id group_id ≡ false → clash n o ≡ false) st.forwards
            (λ o h other. ground arith)
            (find-none (λ o. not (text_eq o.group_id group_id) && clash n o) st.forwards clear),
        any_conflict-false st group_id next (rw (clear, any_conflict) at e),
      )
    ]

-- The members that are to replace a group.
pub record IsReady (env : Env) (group_id client : Text) (os next : List Forward) : Type 0 where
  pub separate : Pairwise Separate next
  pub allowed : All (IsAllowed env) next
  pub clients : All (λ n. n.client_id ≡ client) next
  pub others : All (λ n. Others group_id (λ o. text_eq o.id n.id ≡ false) os) next

compatible :
    (group_id : Text) (os next : List Forward)
    → All (λ n. Others group_id (λ o. text_eq o.id n.id ≡ false) os) next
    → All (λ n. Others group_id (λ o. clash n o ≡ false) os) next
    → IsCompatible group_id next os
compatible group_id os [] h k =
    All_of (λ o. text_eq o.group_id group_id ≡ false → Unit) os (λ o _. tt)
compatible group_id os (n ∷ next) h k =
    All-map
      (λ o.
        (text_eq o.group_id group_id ≡ false → text_eq o.id n.id ≡ false)
        × (text_eq o.group_id group_id ≡ false → clash n o ≡ false)
        × (text_eq o.group_id group_id ≡ false → All (Separate o) next))
      (λ o. text_eq o.group_id group_id ≡ false → All (Separate o) (n ∷ next)) os
      (λ o t g. ((t.0 g, clash_comm o n ∙ t.1 g), t.2 g))
      (zip3 os h.0 k.0 (compatible group_id os next h.1 k.1))
  where
    zip3 :
        (xs : List Forward)
        → Others group_id (λ o. text_eq o.id n.id ≡ false) xs
        → Others group_id (λ o. clash n o ≡ false) xs
        → Others group_id (λ o. All (Separate o) next) xs
        → All
            (λ o.
              (text_eq o.group_id group_id ≡ false → text_eq o.id n.id ≡ false)
              × (text_eq o.group_id group_id ≡ false → clash n o ≡ false)
              × (text_eq o.group_id group_id ≡ false → All (Separate o) next))
            xs
    zip3 [] a b c = tt
    zip3 (x ∷ xs) a b c = ((a.0, b.0, c.0), zip3 xs a.1 b.1 c.1)

module _ (env : Env) where
  swap-IsStored :
      (group_id : Text) (cs : List Client) (os next : List Forward) (client : Text) (c : Client)
      → IsStored env cs os
      → IsReady env group_id client os next
      → find (λ c. text_eq c.id client) cs ≡ some c
      → All (λ n. Others group_id (λ o. clash n o ≡ false) os) next
      → IsStored env cs (swap_members group_id next os)
  swap-IsStored group_id cs os next client c h r found clear = record {
    separate =
        Pairwise-swap_members group_id next os r.separate h.separate
          (compatible group_id os next r.others clear);
    allowed = swap_members-All group_id (IsAllowed env) next os r.allowed (
        All-map (IsAllowed env) (λ o. text_eq o.group_id group_id ≡ false → IsAllowed env o) os
          (λ o a _. a) h.allowed);
    owned =
        swap_members-All group_id (IsOwned cs) next os
          (All-map (λ n. n.client_id ≡ client) (IsOwned cs) next (λ n e. (c, rw e found)) r.clients)
          (All-map (IsOwned cs) (λ o. text_eq o.group_id group_id ≡ false → IsOwned cs o) os
            (λ o a _. a) h.owned);
  }

  pub commit_group-IsWellFormed :
      (group_id client : Text) (next prev : List Forward) (s : Server)
      → IsWellFormed env s
      → IsReady env group_id client s.state.forwards next
      → IsWellFormed env (commit_group env group_id next prev s).0
  unfolding commit_group client_by_id
  commit_group-IsWellFormed group_id client [] prev s h r = h
  commit_group-IsWellFormed group_id client (f ∷ fs) prev s h r =
      elim (Option-cases (client_by_id s.state f.client_id)) [
        | inl missing ↦ rw (missing, commit_group) h
        | inr (c, found) ↦ elim (Bool-cases (any_conflict s.state group_id (f ∷ fs))) [
          | inl taken ↦ rw (found, commit_group) (rw taken h)
          | inr clear ↦ rw (found, commit_group) (rw clear (swap c found clear))
        ]
      ]
    where
      swap :
          (c : Client)
          → client_by_id s.state f.client_id ≡ some c
          → any_conflict s.state group_id (f ∷ fs) ≡ false
          → IsWellFormed env (swap_group env group_id (f ∷ fs) prev s).0
      swap c found clear =
          let bound = apply_group-IsBound env.busy s.runners (f ∷ fs) prev h.bound in
          elim (Option-cases (apply_group env.busy s.runners (f ∷ fs) prev).1) [
            | inr (e, failed) ↦
                rw (failed, swap_group) (record { stored = h.stored; bound = bound })
            | inl done ↦
                rw (done, swap_group)
                  (record {
                    stored =
                        swap-IsStored group_id s.state.clients s.state.forwards (f ∷ fs) client c
                          h.stored r (rw (← r.clients.0) found)
                          (any_conflict-false s.state group_id (f ∷ fs) clear);
                    bound = bound;
                  })
          ]
