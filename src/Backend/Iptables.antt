-- ===== src/Backend/Iptables.antt =====
-- internal/firewall/iptables.go: `Sync`. What `-S INPUT` shows is taken as `parseIptables` leaves it,
-- `none` for an error; which commands succeed is a parameter.
pub mod Reported
use spawn_relay.Common.{
  Bool, true, false, not, ◌&&◌, ◌||◌, List, [], ◌∷◌, ◌++◌, Option, none, some, Text, text_eq, has,
  lookup, put, if◌then◌else◌,
}
use spawn_relay.Firewall.{Rule}
use spawn_relay.Backend.{
  key, sorted_rules, RuleState, state_open, state_existing, state_error, States,
}

pub data Tool : Type 0 where
  iptables ip6tables : Tool

-- `iptablesState`, with `filtering` computed
pub record IptablesState : Type 0 where
  pub filtering : Bool
  pub tagged : List (Text × Text)
  pub untagged : List Text

-- `-I` and `-D` with `ruleArgs`: the tool, the key and the id
pub data Command : Type 0 where
  insert : Tool → Text → Text → Command
  delete : Tool → Text → Text → Command

-- the test `st.tagged[key] == w.ID`, where a missing key reads as the empty string
abbrev pub id_at : Text → List (Text × Text) → Text
id_at k [] = []
id_at k ((j, id) ∷ m) = if text_eq j k then id else id_at k m

abbrev is_state_error : Option RuleState → Bool
is_state_error none = false
is_state_error (some state_open) = false
is_state_error (some state_existing) = false
is_state_error (some state_error) = true

abbrev is_state_existing : Option RuleState → Bool
is_state_existing none = false
is_state_existing (some state_open) = false
is_state_existing (some state_existing) = true
is_state_existing (some state_error) = false

-- `w, keep := wanted[key]` and the test on the id; the agent refuses rules with one key
abbrev pub is_kept : Text → Text → List Rule → Bool
is_kept k id [] = false
is_kept k id (w ∷ ws) = if text_eq (key w) k then text_eq w.id id else is_kept k id ws

-- the loop over the tagged rules, in the order in which the map is walked
pub delete_stale : Tool → List Rule → List (Text × Text) → List Command
delete_stale tool want [] = []
delete_stale tool want ((k, id) ∷ tagged) =
    (if is_kept k id want then [] else delete tool k id ∷ []) ++ delete_stale tool want tagged

-- one round of the loop over the wanted rules
pub insert_one : (Command → Bool) → Tool → IptablesState → Rule → States → List Command × States
insert_one ok tool st w res =
    let cur = lookup (key w) res in
    if text_eq (id_at (key w) st.tagged) w.id
    then ([], if is_state_existing cur then put (key w) state_open res else res)
    else if has (key w) st.untagged
    then ([], res)
    else (
      insert tool (key w) w.id ∷ [],
      if not (ok (insert tool (key w) w.id))
          then put (key w) state_error res
          else if not (is_state_error cur)
          then put (key w) state_open res
          else res,
    )

pub insert_all :
    (Command → Bool) → Tool → IptablesState → List Rule → States → List Command × States
unfolding insert_one
insert_all ok tool st [] res = ([], res)
insert_all ok tool st (w ∷ ws) res =
    let (cs, next) = insert_one ok tool st w res in
    let (ds, out) = insert_all ok tool st ws next in (cs ++ ds, out)

-- what one tool does
pub sync_tool : (Command → Bool) → List Rule → Tool → IptablesState → States → List Command × States
unfolding insert_all delete_stale
sync_tool ok want tool st res =
    let (cs, out) = insert_all ok tool st (sorted_rules want) res in
    (delete_stale tool want st.tagged ++ cs, out)

abbrev pub initial : List Rule → States → States
initial [] res = res
initial (w ∷ ws) res = initial ws (put (key w) state_existing res)

pub record Outcome : Type 0 where
  pub commands : List Command
  pub active : Bool
  pub states : States

pub sync_ip6 : (Command → Bool) → List Rule → Option IptablesState → Outcome → Outcome
unfolding sync_tool
sync_ip6 ok want none o = o
sync_ip6 ok want (some st) o =
    let (cs, out) = sync_tool ok want ip6tables st o.states in
    record { commands = o.commands ++ cs; active = o.active || st.filtering; states = out }

-- `Sync`: `none` is an error. `six` is whether `ip6tables` is installed.
unfoldable pub sync :
    (Command → Bool) → Bool → (Tool → Option IptablesState) → List Rule → Option Outcome
unfolding sync_tool sync_ip6
sync ok six listed want = elim (listed iptables) [
  | none ↦ none
  | some st ↦
      let (cs, out) = sync_tool ok want iptables st (initial want []) in
      let first : Outcome = record { commands = cs; active = st.filtering; states = out } in
      some (if six then sync_ip6 ok want (listed ip6tables) first else first)
]
