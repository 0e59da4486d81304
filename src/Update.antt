-- ===== src/Update.antt =====
-- internal/server/update.go: updates pushed to the clients. The map `updates` is seen from one
-- client: the entry that it holds for it, or `none`. Times are nanoseconds; the texts of errors and
-- of `Detail` are left out.
pub mod Reconnect
use spawn_relay.Common.{
  ℕ, ◌+◌, ◌*◌, Bool, true, false, not, ◌&&◌, ◌||◌, List, [], ◌∷◌, ◌++◌, Option, none, some, Text,
  codes, text_eq, ltb, if◌then◌else◌,
}
use spawn_relay.Auth.{second}

pub data UpdateState : Type 0 where
  pending done failed : UpdateState

pub record ClientUpdate : Type 0 where
  pub state : UpdateState
  pub target_version : Text
  pub requested_at : ℕ
  pub updated_at : ℕ
  pub automatic : Bool

abbrev pub update_timeout : ℕ
update_timeout = 180 * second

abbrev pub auto_retry_after : ℕ
auto_retry_after = 3600 * second

abbrev pub update_keep_done : ℕ
update_keep_done = 86400 * second

abbrev pub dev_version : Text
dev_version = codes "dev"

-- what the server reads of a session's `Hello`
pub record Session : Type 0 where
  pub client_version : Text
  pub os : Text
  pub arch : Text
  pub allow_update : Bool

-- The fields of the `Tunnel` that updates depend on. `binary name` says whether the file is there,
-- `readable name` whether `binaries.info` can hash it; without `serves`, `t.binary` is nil.
pub record Pusher : Type 0 where
  pub version : Text
  pub serves : Bool
  pub binary : Text → Bool
  pub readable : Text → Bool
  pub auto_update : Bool

pub data Refusal : Type 0 where
  offline same_version not_allowed no_binaries no_binary in_progress unreadable : Refusal

abbrev pub asset_name : Text → Text → Text
asset_name os arch =
    let name = codes "spawnrelay_" ++ (os ++ (codes "_" ++ arch)) in
    if text_eq os (codes "windows") then name ++ codes ".exe" else name

abbrev is_pending : UpdateState → Bool
is_pending pending = true
is_pending done = false
is_pending failed = false

-- the switch of `UpdateStatus`
expire : ℕ → UpdateState → ClientUpdate → Option ClientUpdate
expire now pending u =
    if ltb (u.updated_at + update_timeout) now
    then some (record u { state = failed; updated_at = now })
    else some u
expire now done u = if ltb (u.updated_at + update_keep_done) now then none else some u
expire now failed u = some u

-- `UpdateStatus`: the entry behind the call, of which it returns a copy
unfoldable pub update_status : ℕ → Option ClientUpdate → Option ClientUpdate
unfolding expire
update_status now none = none
update_status now (some u) = expire now u.state u

abbrev pending_refusal : Option ClientUpdate → Option Refusal
pending_refusal none = none
pending_refusal (some u) = if is_pending u.state then some in_progress else none

-- `UpdateAvailability`: the entry behind the call, and why no update can be pushed
unfoldable pub update_availability :
    Pusher → ℕ → Option Session → Option ClientUpdate → Option ClientUpdate × Option Refusal
update_availability p now none u = (u, some offline)
update_availability p now (some s) u =
    if text_eq s.client_version p.version
    then (u, some same_version)
    else if not s.allow_update
    then (u, some not_allowed)
    else if not p.serves
    then (u, some no_binaries)
    else if not (p.binary (asset_name s.os s.arch))
    then (u, some no_binary)
    else (update_status now u, pending_refusal (update_status now u))

-- `PushUpdate` behind `UpdateAvailability`
push_to : Pusher → ℕ → Bool → Session → Option ClientUpdate → Option ClientUpdate × Option Refusal
push_to p now automatic s u =
    if p.readable (asset_name s.os s.arch)
    then (
      some (record {
        state = pending;
        target_version = p.version;
        requested_at = now;
        updated_at = now;
        automatic = automatic;
      }),
      none,
    )
    else (u, some unreadable)

-- `PushUpdate`: without a refusal the "update" message is sent
unfoldable pub push_update :
    Pusher → ℕ → Bool → Option Session → Option ClientUpdate → Option ClientUpdate × Option Refusal
unfolding push_to
push_update p now automatic none u = update_availability p now none u
push_update p now automatic (some s) u = elim (update_availability p now (some s) u).1 [
  | some e ↦ ((update_availability p now (some s) u).0, some e)
  | none ↦ push_to p now automatic s (update_availability p now (some s) u).0
]

-- `handleClientMessage` on "update_status"; `is_failed` says whether the status is "failed"
unfoldable pub client_message : ℕ → Bool → Option ClientUpdate → Option ClientUpdate
client_message now is_failed none = none
client_message now is_failed (some u) =
    if is_pending u.state
    then some (record u { updated_at = now; state = if is_failed then failed else u.state })
    else some u

-- the first part of `noteReconnect`
unfoldable pub settle : ℕ → Session → Option ClientUpdate → Option ClientUpdate
settle now s none = none
settle now s (some u) =
    if is_pending u.state
    then some (record u {
      updated_at = now;
      state = if text_eq s.client_version u.target_version then done else failed;
    })
    else some u

-- a failure that is too recent for another automatic push
unfoldable pub failed_lately : ℕ → Option ClientUpdate → Bool
failed_lately now none = false
failed_lately now (some u) = elim u.state [
  | pending ↦ false
  | done ↦ false
  | failed ↦ ltb now (u.updated_at + auto_retry_after)
]

-- the automatic push: the two calls of `UpdateAvailability`
auto_push : Pusher → ℕ → Session → Option ClientUpdate → Option ClientUpdate
auto_push p now s u = elim (update_availability p now (some s) u).1 [
  | some _ ↦ (update_availability p now (some s) u).0
  | none ↦ (push_update p now true (some s) (update_availability p now (some s) u).0).0
]

-- `noteReconnect`
unfoldable pub note_reconnect : Pusher → ℕ → Session → Option ClientUpdate → Option ClientUpdate
unfolding auto_push
note_reconnect p now s u =
    let v = settle now s u in
    if not p.auto_update || text_eq p.version dev_version
    then v
    else let w = update_status now v in if failed_lately now w then w else auto_push p now s w
