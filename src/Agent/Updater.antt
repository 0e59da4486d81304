-- ===== src/Agent/Updater.antt =====
-- internal/agent/update.go: `Updater`. What the network, the file system and systemd do is a
-- parameter, the record `Host`; texts of errors and of `Detail` are left out.
pub mod Health
pub mod Install
pub mod Fetch
use spawn_relay.Common.{
  ℕ, ◌+◌, ◌/◌, suc, zero, Bool, true, false, not, ◌&&◌, ◌||◌, List, [], ◌∷◌, Option, none, some,
  Text, text_eq, is_empty, ltb, if◌then◌else◌,
}
use spawn_relay.Auth.{second}
use spawn_relay.Release.{valid_tag}
use spawn_relay.SelfUpdate.{RecordState, pending, done, failed, rolled_back, UpdateRecord, settle}

-- the contents of a binary
abbrev pub Binary : Type 0
Binary = List ℕ

-- the files `BinPath`, `BinPath.new` and `BinPath.previous`; a missing one is `none`
pub record Files : Type 0 where
  pub installed : Option Binary
  pub next : Option Binary
  pub previous : Option Binary

-- What the steps of `run` meet: the answer of `fetchBinary`, whether a write, a rename or a command
-- succeeds, what a failed write leaves, whether a binary prints the version, and the time that a
-- probe takes with the version that it reads.
pub record Host : Type 0 where
  pub fetched : Option Binary
  pub writes : Bool
  pub torn : Option Binary
  pub verifies : Binary → Bool
  pub keeps : Bool
  pub installs : Bool
  pub returns : Bool
  pub restarts : Bool
  pub probe : ℕ → ℕ × Option Text
  pub restores : Bool
  pub restarts_again : Bool

abbrev answers : Text → Option Text → Bool
answers version none = false
answers version (some got) = text_eq got version

-- `waitHealthy` from the time `now`: a second passes before each probe. The loop's fuel is the number
-- of rounds, and `none` means that it ran out. The context is never cancelled.
unfoldable pub wait_healthy : ℕ → ℕ → ℕ → Text → (ℕ → ℕ × Option Text) → Option Bool
wait_healthy zero now deadline version probe = none
wait_healthy (suc fuel) now deadline version probe =
    let (spent, got) = probe (now + second) in
    let later = wait_healthy fuel (now + second + spent) deadline version probe in
    if ltb now deadline then (if answers version got then some true else later) else some false

-- rounds that are enough for the timeout
abbrev pub rounds : ℕ → ℕ
rounds timeout = suc (suc (timeout / second))

abbrev pub or_false : Option Bool → Bool
or_false none = false
or_false (some b) = b

-- whether the server became healthy within the timeout
unfoldable pub is_healthy : ℕ → ℕ → Text → (ℕ → ℕ × Option Text) → Bool
is_healthy timeout now version probe =
    or_false (wait_healthy (rounds timeout) now (now + timeout) version probe)

-- `os.Rename` fails on a missing file.
abbrev pub moves : Bool → Option Binary → Bool
moves ok none = false
moves ok (some b) = ok

-- `rollback`
pub rollback : Host → Files → Files × RecordState
rollback h fs =
    if moves h.restores fs.previous
    then (
      record fs { installed = fs.previous; previous = none },
      if h.restarts_again then rolled_back else failed,
    )
    else (fs, failed)

-- step 3
pub restart : Host → ℕ → ℕ → Text → Files → Files × RecordState
unfolding rollback
restart h timeout now version fs =
    if not h.restarts
    then rollback h fs
    else if not (is_healthy timeout now version h.probe)
    then rollback h fs
    else (fs, done)

-- step 2. The previous binary is removed before the installed one takes its name.
pub swap : Host → ℕ → ℕ → Text → Files → Files × RecordState
unfolding restart
swap h timeout now version fs =
    if not (moves h.keeps fs.installed)
    then (record fs { next = none; previous = none }, failed)
    else if not h.installs
    then (
      if h.returns
          then record fs { previous = none }
          else record fs { installed = none; previous = fs.installed },
      failed,
    )
    else restart h timeout now version
        (record { installed = fs.next; next = none; previous = fs.installed })

-- step 1 behind the download
pub verify : Host → ℕ → ℕ → Text → Binary → Files → Files × RecordState
unfolding swap
verify h timeout now version b fs =
    if not h.writes
    then (record fs { next = h.torn }, failed)
    else if not (h.verifies b)
    then (record fs { next = none }, failed)
    else swap h timeout now version (record fs { next = some b })

-- `run`: the files behind it, and the state of the record
unfoldable pub run : Host → ℕ → ℕ → Text → Files → Files × RecordState
unfolding verify
run h timeout now version fs = elim h.fetched [
  | none ↦ (fs, failed)
  | some b ↦ verify h timeout now version b fs
]

-- `Updater`: the parts of the configuration that `Start` tests, the record and the files
pub record Updater : Type 0 where
  pub repo : Text
  pub bin_path : Text
  pub server_unit : Text
  pub version : Text
  pub busy : Bool
  pub last : Option UpdateRecord
  pub files : Files

pub data StartError : Type 0 where
  invalid_tag not_configured busy_updating : StartError

-- `Start`, up to the goroutine
unfoldable pub start : ℕ → Text → Updater → Updater × Option StartError
start now version u =
    if not (valid_tag version)
    then (u, some invalid_tag)
    else if is_empty u.repo || is_empty u.bin_path || is_empty u.server_unit
    then (u, some not_configured)
    else if u.busy
    then (u, some busy_updating)
    else (
      record u {
        busy = true;
        last = some (record {
          state = pending;
          from = u.version;
          to = version;
          started_at = now;
          finished_at = none;
        });
      },
      none,
    )

-- `set`
abbrev pub set : RecordState → ℕ → Option UpdateRecord → Option UpdateRecord
set state now none = none
set state now (some r) = some (settle state now r)

-- The goroutine: `run`, which begins to wait at `now`, sets its last state at `end` and clears `busy`.
unfoldable pub finish : Host → ℕ → ℕ → ℕ → Text → Updater → Updater
finish h timeout now end version u =
    let (fs, state) = run h timeout now version u.files in
    record u { busy = false; last = set state end u.last; files = fs }
