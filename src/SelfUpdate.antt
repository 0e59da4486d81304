-- ===== src/SelfUpdate.antt =====
-- internal/server/selfupdate.go: the server's updates of itself. Texts of errors and of `Detail` are
-- left out; times are nanoseconds.
pub mod Start
use spawn_relay.Common.{
  ℕ, ◌+◌, ◌*◌, Bool, true, false, not, ◌&&◌, ◌||◌, List, [], ◌∷◌, Option, none, some, Text, codes,
  text_eq, is_empty, ltb, if◌then◌else◌,
}
use spawn_relay.Auth.{second}
use spawn_relay.Release.{Version, valid_tag, parse_version, newer_version}

-- `UpdatePending`, `UpdateDone`, `UpdateFailed`, `UpdateRolledBack`
pub data RecordState : Type 0 where
  pending done failed rolled_back : RecordState

-- `agent.UpdateRecord`
pub record UpdateRecord : Type 0 where
  pub state : RecordState
  pub from : Text
  pub to : Text
  pub started_at : ℕ
  pub finished_at : Option ℕ

-- `latest` is empty, and `check_failed` set, as the last release check left them.
pub record SelfUpdater : Type 0 where
  pub version : Text
  pub latest : Text
  pub check_failed : Bool
  pub local : Option UpdateRecord
  pub busy : Bool

-- `check`: what `fetchLatest` gives is a parameter, and `none` is an error. A tag that is not one is
-- an error too.
unfoldable pub check : Option Text → SelfUpdater → SelfUpdater
check none u = record u { check_failed = true }
check (some tag) u =
    if valid_tag tag
    then record u { check_failed = false; latest = tag }
    else record u { check_failed = true }

abbrev is_release : Text → Bool
is_release v = elim (parse_version v) [ none ↦ false | some _ ↦ true ]

-- `availability`, without the reason
unfoldable pub available : SelfUpdater → Bool
available u = is_release u.version && not (is_empty u.latest) && newer_version u.latest u.version

-- What the agent's host shows: whether the socket is there and is not the one of an old agent, and
-- what a status request answers, `none` for an error.
pub record AgentView : Type 0 where
  pub present : Bool
  pub legacy : Bool
  pub can_update : Option Bool
  pub recorded : Option UpdateRecord

-- `supported`
unfoldable pub supported : AgentView → Bool
supported a = a.present && not a.legacy && (elim a.can_update [ none ↦ false | some b ↦ b ])

abbrev pub stale_pending_after : ℕ
stale_pending_after = 900 * second

-- the record that `last` prefers: the agent's, if it started later
abbrev pub newest : Option UpdateRecord → Option UpdateRecord → Option UpdateRecord
newest none rec = rec
newest (some l) none = some l
newest (some l) (some r) = if ltb l.started_at r.started_at then some r else some l

abbrev pub is_pending : RecordState → Bool
is_pending pending = true
is_pending done = false
is_pending failed = false
is_pending rolled_back = false

abbrev expire : ℕ → Option UpdateRecord → Option UpdateRecord
expire now none = none
expire now (some r) =
    if is_pending r.state && ltb (r.started_at + stale_pending_after) now
    then some (record r { state = failed })
    else some r

-- `last`
unfoldable pub last : ℕ → AgentView → SelfUpdater → Option UpdateRecord
last now a u = expire now (newest u.local a.recorded)

pub data Refusal : Type 0 where
  unavailable development not_a_tag same_version older not_latest unsupported in_progress : Refusal

abbrev pub Verdict : Type 0
Verdict = Option Refusal

-- the switch of `start`: the version to install, or the refusal
pub choose : SelfUpdater → Text → Bool → Text × Verdict
choose u version reinstall =
    if is_empty version
    then (if available u then (u.latest, none) else (version, some unavailable))
    else if text_eq version u.version && reinstall
    then (version, if is_release version then none else some development)
    else if text_eq version u.latest && available u
    then (version, none)
    else if not (valid_tag version)
    then (version, some not_a_tag)
    else if text_eq version u.version
    then (version, some same_version)
    else if not (newer_version version u.version)
    then (version, some older)
    else (version, some not_latest)

abbrev pub pending_now : Option UpdateRecord → Bool
pending_now none = false
pending_now (some r) = is_pending r.state

-- `start` behind its switch
pub begin : ℕ → AgentView → Text → SelfUpdater → SelfUpdater × Verdict
begin now a version u =
    if not (supported a)
    then (u, some unsupported)
    else if pending_now (last now a u)
    then (u, some in_progress)
    else if u.busy
    then (u, some in_progress)
    else (
      record u {
        busy = true;
        local = some (record {
          state = pending;
          from = u.version;
          to = version;
          started_at = now;
          finished_at = none;
        });
      },
      none,
    )

abbrev begin_if : ℕ → AgentView → Text × Verdict → SelfUpdater → SelfUpdater × Verdict
begin_if now a (version, some why) u = (u, some why)
begin_if now a (version, none) u = begin now a version u

-- `start`
unfoldable pub start : ℕ → AgentView → Text → Bool → SelfUpdater → SelfUpdater × Verdict
unfolding choose begin
start now a version reinstall u = begin_if now a (choose u version reinstall) u

abbrev pub settle : RecordState → ℕ → UpdateRecord → UpdateRecord
settle state now r = record r {
  state = state;
  finished_at = if is_pending state then r.finished_at else some now;
}

-- `setLocal`
pub set_local : RecordState → ℕ → SelfUpdater → SelfUpdater
set_local state now u = elim u.local [
  | none ↦ u
  | some r ↦ record u { local = some (settle state now r) }
]

-- `stageAndInstall`: whether the binaries could be staged, and whether the agent took the request
unfoldable pub stage_and_install : ℕ → Bool → AgentView → Bool → SelfUpdater → SelfUpdater
unfolding set_local
stage_and_install now staged a taken u =
    if not staged
    then record (set_local failed now u) { busy = false }
    else if not (supported a)
    then record (set_local failed now (set_local pending now u)) { busy = false }
    else if not taken
    then record (set_local failed now (set_local pending now u)) { busy = false }
    else record u { busy = false; local = none }
