-- ===== src/Tunnel.antt =====
-- internal/server/tunnel.go: the public listeners of the forwards.
-- A running `forwardRunner` stands as the copy of the forward that it was started with, `r.f`, and
-- the map `runners` as the list of these; `r.f.ID` is always the map's key. Its sockets are those
-- that `start` opens and `stop` closes for that forward, so the set of sockets that the process holds
-- is a function of the list. Counters are left out here; `Peers` has the UDP peers.
pub mod Peers
pub mod Start
pub mod Apply
pub mod Listeners
pub mod Group
pub mod Rollback
use spawn_relay.Common.{
  ℕ, ◌==◌, Bool, true, false, not, ◌&&◌, ◌||◌, List, [], ◌∷◌, ◌++◌, Option, none, some, Text,
  text_eq, if◌then◌else◌, find, keep, any,
}
use spawn_relay.Store.{Forward, has_tcp, has_udp, same}

pub data Kind : Type 0 where
  tcp udp : Kind

-- the socket that could not be opened
pub data BindError : Type 0 where
  bind_error : Kind → ℕ → BindError

abbrev pub Runners : Type 0
Runners = List Forward

-- `t.runners[id]`
abbrev pub running : Text → Runners → Option Forward
running id rs = find (λ r. text_eq r.id id) rs

-- `delete(t.runners, id)` after `stop`
abbrev pub stop : Text → Runners → Runners
stop id rs = keep (λ r. not (text_eq r.id id)) rs

abbrev pub uses : Kind → Forward → Bool
uses tcp f = has_tcp f
uses udp f = has_udp f

-- a map by id that a loop over the forwards has filled: the last one with the id
abbrev pub last_by_id : Text → List Forward → Option Forward
last_by_id id [] = none
last_by_id id (f ∷ fs) = elim (last_by_id id fs) [
  | some g ↦ some g
  | none ↦ if text_eq f.id id then some f else none
]

-- `Remove`
abbrev pub remove : Runners → Text → Runners
remove rs id = stop id rs

abbrev pub mem_id : Text → List Forward → Bool
mem_id id fs = any (λ f. text_eq f.id id) fs

-- the members of `prev` that `next` drops
abbrev pub dropped : List Forward → List Forward → List Forward
dropped next prev = keep (λ f. not (mem_id f.id next)) prev

abbrev pub remove_all : Runners → List Forward → Runners
remove_all rs [] = rs
remove_all rs (f ∷ fs) = remove_all (remove rs f.id) fs

-- `busy` says which ports of the host other processes hold; `net.Listen` and `net.ListenPacket` fail
-- on those, and on a port that this process listens on already.
module _ (busy : Kind → ℕ → Bool) where
  abbrev pub can_listen : Kind → ℕ → Runners → Bool
  can_listen k port rs = not (busy k port) && not (any (λ r. uses k r && r.public_port == port) rs)

  -- `forwardRunner.start`; `none` is success
  pub start : Runners → Forward → Option BindError
  start rs f =
      if has_tcp f && not (can_listen tcp f.public_port rs)
      then some (bind_error tcp f.public_port)
      else if has_udp f && not (can_listen udp f.public_port rs)
      then some (bind_error udp f.public_port)
      else none

  -- `Apply` behind the stop of the old listener; `rs` is what still runs
  pub restart : Runners → Option Forward → Forward → Runners × Option BindError
  restart rs old f = elim (start rs f) [
    | none ↦ (f ∷ rs, none)
    | some e ↦ elim old [
      | none ↦ (rs, some e)
      | some o ↦ elim (start rs o) [ none ↦ (o ∷ rs, some e) | some _ ↦ (rs, some e) ]
    ]
  ]

  apply_over : Runners → Option Forward → Forward → Runners × Option BindError
  apply_over rs none f = if f.enabled then restart rs none f else (rs, none)
  apply_over rs (some old) f =
      if same old f
      then (rs, none)
      else if f.enabled
      then restart (stop f.id rs) (some old) f
      else (stop f.id rs, none)

  -- `Apply`
  unfoldable pub apply : Runners → Forward → Runners × Option BindError
  unfolding apply_over restart start
  apply rs f = apply_over rs (running f.id rs) f

  -- `Apply` in the rollback: a failure is only logged
  pub apply_all : Runners → List Forward → Runners
  apply_all rs [] = rs
  apply_all rs (f ∷ fs) = apply_all (apply rs f).0 fs

  -- the first loop of `rollback`
  pub undo : List Forward → Runners → List Forward → Runners
  undo prev rs [] = rs
  undo prev rs (a ∷ applied) =
      undo prev
        (elim (last_by_id a.id prev) [ none ↦ remove rs a.id | some old ↦ (apply rs old).0 ])
        applied

  pub rollback : List Forward → List Forward → Runners → List Forward → Runners
  unfolding undo apply_all
  rollback prev removed rs applied = apply_all (undo prev rs applied) removed

  -- the last loop of `ApplyGroup`
  pub apply_next :
      List Forward
      → List Forward
      → Runners
      → List Forward
      → List Forward
      → Runners × Option BindError
  apply_next prev removed rs applied [] = (rs, none)
  apply_next prev removed rs applied (f ∷ next) = elim (apply rs f).1 [
    | some e ↦ (rollback prev removed (apply rs f).0 applied, some e)
    | none ↦ apply_next prev removed (apply rs f).0 (applied ++ f ∷ []) next
  ]

  -- `ApplyGroup`
  unfoldable pub apply_group : Runners → List Forward → List Forward → Runners × Option BindError
  unfolding apply_next rollback
  apply_group rs next prev =
      apply_next prev (dropped next prev) (remove_all rs (dropped next prev)) [] next

  -- the first loop of `SyncAll`, with the errors by forward id
  sync_each : Runners → List Forward → Runners × List (Text × BindError)
  sync_each rs [] = (rs, [])
  sync_each rs (f ∷ fs) =
      let (rs', errs) = sync_each (apply rs f).0 fs in
      elim (apply rs f).1 [ none ↦ (rs', errs) | some e ↦ (rs', (f.id, e) ∷ errs) ]

  -- `SyncAll`
  unfoldable pub sync_all : Runners → List Forward → Runners × List (Text × BindError)
  unfolding sync_each
  sync_all rs forwards =
      let (rs', errs) = sync_each rs forwards in (keep (λ r. mem_id r.id forwards) rs', errs)
