-- ===== src/Backend/Firewalld.antt =====
-- internal/firewall/firewalld.go: `Sync` and its ledger. What firewalld shows, which of its commands
-- succeed, and whether the ledger can be read and written are parameters.
pub mod Ledger
pub mod Commands
pub mod Foreign
use spawn_relay.Common.{
  Bool, true, false, not, ◌&&◌, ◌||◌, List, [], ◌∷◌, ◌++◌, Option, none, some, Text, text_eq, has,
  has_key, put, if◌then◌else◌,
}
use spawn_relay.Firewall.{Rule}
use spawn_relay.Backend.{
  key, is_wanted, sorted_rules, RuleState, state_open, state_existing, States, checked,
}

pub data Op : Type 0 where
  add remove : Op

-- `firewall-cmd --OP-port=KEY`, and the same with `--permanent`
pub data Command : Type 0 where
  runtime : Op → Text → Command
  permanent : Op → Text → Command

-- `ledgerFile.Firewalld`, from keys to ids
abbrev pub Ledger : Type 0
Ledger = List (Text × Text)

-- `port`: what it runs, and whether it returns no error
abbrev pub port : (Command → Bool) → Op → Text → List Command × Bool
port ok op k =
    if ok (runtime op k)
    then (runtime op k ∷ permanent op k ∷ [], ok (permanent op k))
    else (runtime op k ∷ [], false)

-- what a loop has run, the states that it set, and the ledger
pub record Progress : Type 0 where
  pub commands : List Command
  pub states : States
  pub ledger : Ledger

abbrev record_port : Rule → Progress → List Command × Bool → Progress
record_port w s (cs, good) = record {
  commands = s.commands ++ cs;
  states = put (key w) (checked good) s.states;
  ledger = if good then put (key w) w.id s.ledger else s.ledger;
}

-- one round of the first loop
pub open_one : (Command → Bool) → List Text → Rule → Progress → Progress
open_one ok opened w s =
    if has (key w) opened && not (has_key (key w) s.ledger)
    then record s { states = put (key w) state_existing s.states }
    else if has (key w) opened && has_key (key w) s.ledger
    then record s { states = put (key w) state_open s.states; ledger = put (key w) w.id s.ledger }
    else record_port w s (port ok add (key w))

pub open_all : (Command → Bool) → List Text → List Rule → Progress → Progress
open_all ok opened [] s = s
open_all ok opened (w ∷ ws) s = open_all ok opened ws (open_one ok opened w s)

-- The second loop, over the entries of the ledger in the order in which the map is walked: what it
-- runs, and the entries that are left.
pub close_stale : (Command → Bool) → List Rule → Ledger → List Command × Ledger
close_stale ok want [] = ([], [])
close_stale ok want ((k, id) ∷ m) =
    let (cs, left) = close_stale ok want m in
    if is_wanted k want
    then (cs, (k, id) ∷ left)
    else ((port ok remove k).0 ++ cs, if (port ok remove k).1 then left else (k, id) ∷ left)

-- What `Sync` meets: whether firewalld runs, the ports that it lists, whether the ledger file can be
-- read and written, and which commands succeed.
pub record Host : Type 0 where
  pub running : Bool
  pub listed : Option (List Text)
  pub reads : Bool
  pub writes : Bool
  pub ok : Command → Bool

-- `returned` is whether `Sync` returns no error; `ledger` is the one in the file behind it.
pub record Outcome : Type 0 where
  pub commands : List Command
  pub states : States
  pub ledger : Ledger
  pub returned : Bool

abbrev failed_with : Ledger → Outcome
failed_with ledger = record { commands = []; states = []; ledger = ledger; returned = false }

-- both loops and `saveLedger`
unfoldable pub sync_ports : Host → List Text → Ledger → List Rule → Outcome
unfolding open_one open_all close_stale
sync_ports h opened ledger want =
    let s =
      open_all h.ok opened (sorted_rules want)
        (record { commands = []; states = []; ledger = ledger }) in
    let (cs, left) = close_stale h.ok want s.ledger in
    record {
      commands = s.commands ++ cs;
      states = s.states;
      ledger = if h.writes then left else ledger;
      returned = h.writes;
    }

-- `Sync`
unfoldable pub sync : Host → Ledger → List Rule → Outcome
sync h ledger want = if not h.running then failed_with ledger else elim h.listed [
  | none ↦ failed_with ledger
  | some opened ↦ if h.reads then sync_ports h opened ledger want else failed_with ledger
]
