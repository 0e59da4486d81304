-- ===== src/Backend/Ufw.antt =====
-- internal/firewall/ufw.go: `Sync`. What `ufw status` shows is taken as `parseUfwStatus` leaves it, and
-- which commands succeed is a parameter; `Sync` issues commands and never reads their output.
pub mod Commands
use spawn_relay.Common.{
  Bool, true, false, not, ◌&&◌, ◌||◌, List, [], ◌∷◌, ◌++◌, Option, none, some, Text, text_eq,
  is_empty, has, lookup, put, if◌then◌else◌,
}
use spawn_relay.Firewall.{Rule}
use spawn_relay.Backend.{
  key, is_wanted, sorted_rules, RuleState, state_open, state_existing, state_error, States, checked,
}

-- `ufwStatus`: the ids of the tagged rules, and the keys that are allowed without a tag
pub record UfwStatus : Type 0 where
  pub active : Bool
  pub tagged : List (Text × Text)
  pub untagged : List Text

-- `ufw allow KEY comment TAG` and `ufw delete allow KEY comment TAG`, each with the key and the id
pub data Command : Type 0 where
  allow : Text → Text → Command
  delete : Text → Text → Command

-- `m[k]`: a missing key reads as the empty string
abbrev pub id_at : Text → List (Text × Text) → Text
id_at k [] = []
id_at k ((j, id) ∷ m) = if text_eq j k then id else id_at k m

abbrev pub retag : Text → Text → List Command
retag k old = if is_empty old then [] else delete k old ∷ []

-- one round of the first loop: what it runs, and the state of the rule
pub allow_one : (Command → Bool) → UfwStatus → Rule → List Command × RuleState
allow_one ok st w =
    if has (key w) st.untagged
    then ([], state_existing)
    else if text_eq (id_at (key w) st.tagged) w.id
    then ([], state_open)
    else (
      retag (key w) (id_at (key w) st.tagged) ++ allow (key w) w.id ∷ [],
      checked (ok (allow (key w) w.id)),
    )

pub allow_all : (Command → Bool) → UfwStatus → List Rule → States → List Command × States
unfolding allow_one
allow_all ok st [] res = ([], res)
allow_all ok st (w ∷ ws) res =
    let (cs, state) = allow_one ok st w in
    let (ds, out) = allow_all ok st ws (put (key w) state res) in (cs ++ ds, out)

-- the second loop, over the tagged rules in the order in which the map is walked
pub delete_stale : List Rule → List (Text × Text) → List Command
delete_stale want [] = []
delete_stale want ((k, id) ∷ tagged) =
    (if is_wanted k want then [] else delete k id ∷ []) ++ delete_stale want tagged

-- `Sync`, behind `ufw status`
unfoldable pub sync : (Command → Bool) → UfwStatus → List Rule → List Command × States
unfolding allow_all delete_stale
sync ok st want =
    let (cs, out) = allow_all ok st (sorted_rules want) [] in
    (cs ++ delete_stale want st.tagged, out)
