-- ===== src/Update/Reconnect.antt =====
-- internal/server/update.go: `PushUpdate` and `noteReconnect`.
use spawn_relay.Common.{
  ℕ, ◌+◌, ◌≡◌, ◌≢◌, ◌↔◌, ◌<◌, ap, refl, arith, Bool, true, false, not, ◌||◌, Option, none, some,
  text_eq, text_eq_iff, Bool-cases, Option-cases, inl, inr,
}
use spawn_relay.Update.{
  UpdateState, pending, done, failed, ClientUpdate, update_timeout, Session, Pusher, same_version,
  update_status, update_availability, asset_name, push_to, push_update, settle, failed_lately,
  auto_push, note_reconnect, dev_version, expire, pending_refusal,
}

-- no update is pending, or its time is over
abbrev pub IsSettled : ℕ → Option ClientUpdate → Type 0
IsSettled now none = Unit
IsSettled now (some u) = u.state ≡ pending → u.updated_at + update_timeout < now

settle-failed :
    (now : ℕ) (s : Session) (u : ClientUpdate)
    → u.state ≡ pending
    → text_eq s.client_version u.target_version ≡ false
    → settle now s (some u) ≡ some (record u { state = failed; updated_at = now })
unfolding settle
settle-failed now s u h other = simp (h, other) refl

settle-done :
    (now : ℕ) (s : Session) (u : ClientUpdate)
    → u.state ≡ pending
    → text_eq s.client_version u.target_version ≡ true
    → settle now s (some u) ≡ some (record u { state = done; updated_at = now })
unfolding settle
settle-done now s u h match = simp (h, match) refl

-- A client with a pending update that comes back on another version than the one it was sent
-- settles the update as failed, and no automatic push follows that reconnect, whatever the
-- server's settings.
pub note_reconnect_failed :
    (p : Pusher) (now : ℕ) (s : Session) (u : ClientUpdate)
    → u.state ≡ pending
    → s.client_version ≢ u.target_version
    → note_reconnect p now s (some u) ≡ some (record u { state = failed; updated_at = now })
unfolding note_reconnect update_status failed_lately
note_reconnect_failed p now s u h k =
    let other : text_eq s.client_version u.target_version ≡ false =
      ground (arith, text_eq_iff s.client_version u.target_version) in
    rw (settle-failed now s u h other) (ground arith)

refused_same :
    (p : Pusher) (now : ℕ) (s : Session) (u : Option ClientUpdate)
    → s.client_version ≡ p.version
    → update_availability p now (some s) u ≡ (u, some same_version)
unfolding update_availability
refused_same p now s u h =
    let hit : text_eq s.client_version p.version ≡ true =
      ground (arith, text_eq_iff s.client_version p.version) in
    rw hit refl

status-done :
    (now : ℕ) (u : ClientUpdate)
    → u.state ≡ done
    → u.updated_at ≡ now
    → update_status now (some u) ≡ some u
unfolding update_status expire
status-done now u h k = rw h (ground arith)

auto_push-same :
    (p : Pusher) (now : ℕ) (s : Session) (u : Option ClientUpdate)
    → s.client_version ≡ p.version
    → auto_push p now s u ≡ u
unfolding auto_push
auto_push-same p now s u h =
    rw (refused_same p now s u h, auto_push) (ap (λ r. r.0) (refused_same p now s u h))

-- A client with a pending update that comes back on the version that it was sent, which is the
-- server's, settles the update as done, and nothing is pushed to it.
pub note_reconnect_done :
    (p : Pusher) (now : ℕ) (s : Session) (u : ClientUpdate)
    → u.state ≡ pending
    → s.client_version ≡ u.target_version
    → s.client_version ≡ p.version
    → note_reconnect p now s (some u) ≡ some (record u { state = done; updated_at = now })
unfolding note_reconnect failed_lately
note_reconnect_done p now s u h k same =
    let match : text_eq s.client_version u.target_version ≡ true =
      ground (arith, text_eq_iff s.client_version u.target_version) in
    let d : ClientUpdate = record u { state = done; updated_at = now } in
    rw (settle-done now s u h match)
      (elim (Bool-cases (not p.auto_update || text_eq p.version dev_version)) [
        | inl off ↦ rw off refl
        | inr on ↦ rw on (rw (status-done now d refl refl) (auto_push-same p now s (some d) same))
      ])

IsSettled-iff :
    (now : ℕ) (u : Option ClientUpdate)
    → (pending_refusal (update_status now u) ≡ none) ↔ IsSettled now u
unfolding update_status expire
IsSettled-iff now none = (λ h. tt, λ h. refl)
IsSettled-iff now (some u) = by_state u.state refl
  where
    by_state :
        (st : UpdateState)
        → u.state ≡ st
        → (pending_refusal (update_status now (some u)) ≡ none) ↔ IsSettled now (some u)
    by_state pending h = rw h (ground arith)
    by_state done h = rw h (ground arith)
    by_state failed h = rw h (ground arith)

available_iff :
    (p : Pusher) (now : ℕ) (s : Session) (u : Option ClientUpdate)
    → ((update_availability p now (some s) u).1 ≡ none) ↔ (
        (s.client_version ≢ p.version)
        × (s.allow_update ≡ true)
        × (p.serves ≡ true)
        × (p.binary (asset_name s.os s.arch) ≡ true)
        × IsSettled now u)
unfolding update_availability
available_iff p now s u =
    let (to, from) = IsSettled-iff now u in
    let (eq, qe) = text_eq_iff s.client_version p.version in
    (
      λ h. (ground arith, ground arith, ground arith, ground arith, to (ground arith)),
      λ (a, b, c, d, e).
          let other : text_eq s.client_version p.version ≡ false = ground arith in
          simp (other, b, c, d) (from e),
    )

readable_of :
    (p : Pusher) (now : ℕ) (automatic : Bool) (s : Session) (u : Option ClientUpdate)
    → (push_to p now automatic s u).1 ≡ none
    → p.readable (asset_name s.os s.arch) ≡ true
unfolding push_to
readable_of p now automatic s u h = ground arith

-- To a connected client an update is pushed exactly when the client has another version and
-- allows updates, the server has a readable binary for its platform, and no update of it is
-- pending that is not timed out.
pub push_update_iff :
    (p : Pusher) (now : ℕ) (automatic : Bool) (s : Session) (u : Option ClientUpdate)
    → ((push_update p now automatic (some s) u).1 ≡ none) ↔ (
        (s.client_version ≢ p.version)
        × (s.allow_update ≡ true)
        × (p.serves ≡ true)
        × (p.binary (asset_name s.os s.arch) ≡ true)
        × (p.readable (asset_name s.os s.arch) ≡ true)
        × IsSettled now u)
unfolding push_update push_to
push_update_iff p now automatic s u =
    let (to, from) = available_iff p now s u in
    let left : (push_update p now automatic (some s) u).1 ≡ none
        → ((update_availability p now (some s) u).1 ≡ none)
          × (p.readable (asset_name s.os s.arch) ≡ true) =
      λ h. elim (Option-cases (update_availability p now (some s) u).1) [
        | inr (e, refused) ↦ cc (rw (refused, push_update) at h)
        | inl fine ↦ (fine, readable_of p now automatic s _ (rw (fine, push_update) at h))
      ] in
    (
      λ h.
          let (fine, readable) = left h in
          let (a, b, c, d, e) = to fine in (a, b, c, d, readable, e),
      λ (a, b, c, d, readable, e). rw (from (a, b, c, d, e), push_update) (rw readable refl),
    )
