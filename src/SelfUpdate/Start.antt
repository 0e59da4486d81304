-- ===== src/SelfUpdate/Start.antt =====
-- internal/server/selfupdate.go: what `start` accepts.
use spawn_relay.Common.{
  ◌+◌, ◌<◌, ltb, ℕ, ◌≡◌, ◌⊎◌, inl, inr, arith, Bool, true, false, ◌&&◌, none, some, Text, text_eq,
  text_eq_iff, is_empty, Bool-cases, Option-cases,
}
use spawn_relay.Release.{newer_version}
use spawn_relay.SelfUpdate.{
  newest, expire, is_pending, pending_now, UpdateRecord, stale_pending_after, last, SelfUpdater,
  AgentView, pending, available, supported, choose, begin, begin_if, start,
}

-- What an accepted request begins: an upgrade, or the running release again.
pub record Begins (now : ℕ) (a : AgentView) (reinstall : Bool) (u v : SelfUpdater) : Type 0 where
  pub to : Text
  pub upward : (newer_version to u.version ≡ true) ⊎ ((to ≡ u.version) × (reinstall ≡ true))
  pub idle : u.busy ≡ false
  pub settled :
      (r : UpdateRecord)
      → newest u.local a.recorded ≡ some r
      → is_pending r.state ≡ true
      → r.started_at + stale_pending_after < now
  pub able : supported a ≡ true
  pub begun : v ≡ record u {
    busy = true;
    local = some (record {
      state = pending;
      from = u.version;
      to = to;
      started_at = now;
      finished_at = none;
    });
  }

available-newer : (u : SelfUpdater) → available u ≡ true → newer_version u.latest u.version ≡ true
unfolding available
available-newer u h = ground arith

choose-upward :
    (u : SelfUpdater) (version : Text) (reinstall : Bool)
    → (choose u version reinstall).1 ≡ none
    → (newer_version (choose u version reinstall).0 u.version ≡ true)
      ⊎ (((choose u version reinstall).0 ≡ u.version) × (reinstall ≡ true))
unfolding choose
choose-upward u version reinstall h = elim (Bool-cases (is_empty version)) [
  | inl blank ↦ elim (Bool-cases (available u)) [
    | inl up ↦ rw blank (rw up (inl (available-newer u up)))
    | inr stale ↦ absurd (ground arith)
  ]
  | inr named ↦ elim (Bool-cases (text_eq version u.version && reinstall)) [
    | inl again ↦
        let same : version ≡ u.version = (text_eq_iff version u.version).0 (ground arith) in
        rw named (rw again (inr (same, ground arith)))
    | inr other ↦ elim (Bool-cases (text_eq version u.latest && available u)) [
      | inl up ↦
          let newest : version ≡ u.latest = (text_eq_iff version u.latest).0 (ground arith) in
          rw named (rw other (rw up (inl (rw newest (available-newer u (ground arith))))))
      | inr down ↦ absurd (ground arith)
    ]
  ]
]

expired :
    (now : ℕ) (r : UpdateRecord)
    → pending_now (expire now (some r)) ≡ false
    → is_pending r.state ≡ true
    → r.started_at + stale_pending_after < now
expired now r h p = elim (Bool-cases (ltb (r.started_at + stale_pending_after) now)) [
  | inl late ↦ ground arith
  | inr early ↦ absurd (ground arith)
]

-- what `start` has seen of the last update
begin-settled :
    (now : ℕ) (a : AgentView) (to : Text) (u : SelfUpdater)
    → (begin now a to u).1 ≡ none
    → (r : UpdateRecord) → newest u.local a.recorded ≡ some r
    → is_pending r.state ≡ true
    → r.started_at + stale_pending_after < now
unfolding begin last
begin-settled now a to u h r e =
    let clear : pending_now (expire now (newest u.local a.recorded)) ≡ false = ground arith in
    expired now r (rw e at clear)

begin-idle :
    (now : ℕ) (a : AgentView) (to : Text) (u : SelfUpdater)
    → (begin now a to u).1 ≡ none
    → (u.busy ≡ false)
      × (supported a ≡ true)
      × ((begin now a to u).0 ≡ record u {
        busy = true;
        local = some (record {
          state = pending;
          from = u.version;
          to = to;
          started_at = now;
          finished_at = none;
        });
      })
unfolding begin
begin-idle now a to u h = (ground arith, ground arith, ground arith)

-- A request to update the server that `start` accepts begins a newer version than the running
-- one, or the running one again where the request asks to reinstall it, and never an older one.
-- It begins only when no update is in preparation, when the newest of the server's and the
-- agent's records is not pending, or began more than fifteen minutes before, and when the agent
-- can install it, and it leaves a pending record of it.
pub start-Begins :
    (now : ℕ) (a : AgentView) (version : Text) (reinstall : Bool) (u : SelfUpdater)
    → (start now a version reinstall u).1 ≡ none
    → Begins now a reinstall u (start now a version reinstall u).0
unfolding start
start-Begins now a version reinstall u h = elim (Option-cases (choose u version reinstall).1) [
  | inr (why, refused) ↦ cc (rw (refused, begin_if) at h)
  | inl chosen ↦
      let to = (choose u version reinstall).0 in
      let (idle, able, begun) = begin-idle now a to u (rw (chosen, begin_if) at h) in
      rw (chosen, begin_if)
        (record {
          to = to;
          upward = choose-upward u version reinstall chosen;
          idle = idle;
          settled = begin-settled now a to u (rw (chosen, begin_if) at h);
          able = able;
          begun = begun;
        })
]
