-- ===== src/Backend/Iptables/Reported.antt =====
-- internal/firewall/iptables.go: the states that `Sync` reports.
use spawn_relay.Common.{
  text_eq_comm, ◌≡◌, ◌∙◌, refl, arith, Bool, false, List, [], ◌∷◌, Option, none, some, Text,
  text_eq, has, lookup, put, lookup-put, lookup-put-other, All, All-map, All-zip, Pairwise,
  Pairwise-sort_by, sort_by-All, All-sort_by, Bool-cases, inl, inr, if◌then◌else◌,
}
use spawn_relay.Firewall.{Rule}
use spawn_relay.Backend.{
  key, sorted_rules, less_rule, RuleState, state_open, state_existing, state_error, States,
}
use spawn_relay.Backend.Keys.{Distinct, Distinct-symm, record_all, lookup-record_all}
use spawn_relay.Backend.Iptables.{
  Tool, iptables, ip6tables, IptablesState, Command, insert, id_at, insert_one, insert_all,
  sync_tool, initial, Outcome, sync_ip6, sync,
}

-- the worse of two states: an error, then an open port, then one that the operator allows
abbrev pub worse : RuleState → RuleState → RuleState
worse state_error s = state_error
worse state_open state_error = state_error
worse state_open state_open = state_open
worse state_open state_existing = state_open
worse state_existing s = s

-- the state of a rule with one tool
abbrev pub state_with : (Command → Bool) → Tool → IptablesState → Rule → RuleState
state_with ok tool st w =
    if text_eq (id_at (key w) st.tagged) w.id
    then state_open
    else if has (key w) st.untagged
    then state_existing
    else if ok (insert tool (key w) w.id)
    then state_open
    else state_error

module _ (ok : Command → Bool) (tool : Tool) (st : IptablesState) where
  lookup-insert_one :
      (w : Rule) (res : States) (cur : RuleState)
      → lookup (key w) res ≡ some cur
      → lookup (key w) (insert_one ok tool st w res).1 ≡ some (worse cur (state_with ok tool st w))
  unfolding insert_one
  lookup-insert_one w res state_open e =
      ground (arith, lookup-put (key w) state_open res, lookup-put (key w) state_error res)
  lookup-insert_one w res state_existing e =
      ground (arith, lookup-put (key w) state_open res, lookup-put (key w) state_error res)
  lookup-insert_one w res state_error e =
      ground (arith, lookup-put (key w) state_open res, lookup-put (key w) state_error res)

  lookup-insert_one-other :
      (w : Rule) (k : Text) (res : States)
      → text_eq (key w) k ≡ false
      → lookup k (insert_one ok tool st w res).1 ≡ lookup k res
  unfolding insert_one
  lookup-insert_one-other w k res e = ground (
    arith,
    lookup-put-other (key w) k state_open res e,
    lookup-put-other (key w) k state_error res e,
  )

  lookup-insert_all-other :
      (ws : List Rule) (k : Text) (res : States)
      → All (λ w. text_eq k (key w) ≡ false) ws
      → lookup k (insert_all ok tool st ws res).1 ≡ lookup k res
  unfolding insert_all
  lookup-insert_all-other [] k res h = refl
  lookup-insert_all-other (w ∷ ws) k res h =
      lookup-insert_all-other ws k (insert_one ok tool st w res).1 h.1
      ∙ lookup-insert_one-other w k res (text_eq_comm (key w) k ∙ h.0)

  -- The states `c` before become the worse of them and those with this tool.
  lookup-insert_all :
      (ws : List Rule) (res : States) (c : Rule → RuleState)
      → Pairwise Distinct ws
      → All (λ w. lookup (key w) res ≡ some (c w)) ws
      → All
          (λ w.
            lookup (key w) (insert_all ok tool st ws res).1
            ≡ some (worse (c w) (state_with ok tool st w)))
          ws
  unfolding insert_all
  lookup-insert_all [] res c p h = tt
  lookup-insert_all (w ∷ ws) res c p h =
      let next = (insert_one ok tool st w res).1 in
      (
        lookup-insert_all-other ws (key w) next p.0 ∙ lookup-insert_one w res (c w) h.0,
        lookup-insert_all ws next c p.1 (
            All-map (λ o. Distinct w o × (lookup (key o) res ≡ some (c o)))
              (λ o. lookup (key o) next ≡ some (c o)) ws
              (λ o x. lookup-insert_one-other w (key o) res x.0 ∙ x.1)
              (All-zip (Distinct w) (λ o. lookup (key o) res ≡ some (c o)) ws p.0 h.1)),
      )

  lookup-sync_tool :
      (want : List Rule) (res : States) (c : Rule → RuleState)
      → Pairwise Distinct want
      → All (λ w. lookup (key w) res ≡ some (c w)) want
      → All
          (λ w.
            lookup (key w) (sync_tool ok want tool st res).1
            ≡ some (worse (c w) (state_with ok tool st w)))
          want
  unfolding sync_tool
  lookup-sync_tool want res c p h =
      sort_by-All less_rule
        (λ w.
          lookup (key w) (insert_all ok tool st (sorted_rules want) res).1
          ≡ some (worse (c w) (state_with ok tool st w)))
        want
        (lookup-insert_all (sorted_rules want) res c
          (Pairwise-sort_by less_rule Distinct Distinct-symm want p)
          (All-sort_by less_rule (λ w. lookup (key w) res ≡ some (c w)) want h))

initial-record_all :
    (ws : List Rule) (res : States) → initial ws res ≡ record_all (λ w. state_existing) ws res
initial-record_all [] res = refl
initial-record_all (w ∷ ws) res = initial-record_all ws (put (key w) state_existing res)

lookup-initial :
    (want : List Rule)
    → Pairwise Distinct want
    → All (λ w. lookup (key w) (initial want []) ≡ some state_existing) want
lookup-initial want p =
    rw (initial-record_all want []) (lookup-record_all (λ w. state_existing) want [] p)

-- the worst state over the tools that can be listed
abbrev pub overall : (Command → Bool) → IptablesState → Option IptablesState → Rule → RuleState
overall ok st none w = state_with ok iptables st w
overall ok st (some st6) w = worse (state_with ok iptables st w) (state_with ok ip6tables st6 w)

lookup-sync_ip6 :
    (ok : Command → Bool) (want : List Rule) (six : Option IptablesState) (o : Outcome)
    (st : IptablesState)
    → Pairwise Distinct want
    → All (λ w. lookup (key w) o.states ≡ some (state_with ok iptables st w)) want
    → All (λ w. lookup (key w) (sync_ip6 ok want six o).states ≡ some (overall ok st six w)) want
unfolding sync_ip6
lookup-sync_ip6 ok want none o st p h = h
lookup-sync_ip6 ok want (some st6) o st p h =
    lookup-sync_tool ok ip6tables st6 want o.states (state_with ok iptables st) p h

-- Where the wanted rules have distinct keys and `iptables` can be listed, the `Sync` of iptables
-- returns, and reports for every wanted rule the worst of its states over the tools that can be
-- listed: an error where inserting it failed, open where it was tagged with its id or inserted,
-- existing where the operator allows it.
pub sync-overall :
    (ok : Command → Bool) (six : Bool) (listed : Tool → Option IptablesState) (want : List Rule)
    (st : IptablesState)
    → Pairwise Distinct want
    → listed iptables ≡ some st
    → (o : Outcome) × (sync ok six listed want ≡ some o)
      × All
          (λ w.
            lookup (key w) o.states
            ≡ some (overall ok st (if six then listed ip6tables else none) w))
          want
unfolding sync
sync-overall ok six listed want st p e =
    let (cs, out) = sync_tool ok want iptables st (initial want []) in
    let began : Outcome = record { commands = cs; active = st.filtering; states = out } in
    let first =
      lookup-sync_tool ok iptables st want (initial want []) (λ w. state_existing) p
        (lookup-initial want p) in
    elim (Bool-cases six) [
      | inl on ↦ (
        sync_ip6 ok want (listed ip6tables) began,
        rw (e, sync) (rw on refl),
        rw on (lookup-sync_ip6 ok want (listed ip6tables) began st p first),
      )
      | inr off ↦ (began, rw (e, sync) (rw off refl), rw off first)
    ]
