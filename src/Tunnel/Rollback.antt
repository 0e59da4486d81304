-- ===== src/Tunnel/Rollback.antt =====
-- internal/server/tunnel.go: how the rollback of `ApplyGroup` puts one listener back.
pub mod Restored
pub mod Change
pub mod Undo
pub mod Whole
pub mod Outcomes
use spawn_relay.Common.{
  All-map, All-zip, keep-holds, ℕ, ◌≡◌, refl, arith, ap, sym, ◌∙◌, Bool, true, false, not, ◌&&◌,
  List, [], ◌∷◌, Option, none, some, Text, text_eq, text_eq_iff, text_eq_refl, ◌==◌, All, Pairwise,
  if◌then◌else◌, Bool-cases, Option-cases, inl, inr,
}
use spawn_relay.Store.{Forward, same, clash, has_tcp, has_udp}
use spawn_relay.Store.Conflict.{Separate, clash_comm}
use spawn_relay.Tunnel.{Kind, BindError, Runners, running, stop, start, apply}
use spawn_relay.Tunnel.Start.{IsIdle, IsFree, start_iff}
use spawn_relay.Tunnel.Apply.{
  running-All, running-stop_self, running-stop_ne, IsBound, Outcome, unchanged, stopped, started,
  refused, restored, apply-Outcome,
}
use spawn_relay.Tunnel.Listeners.{Serves, apply-Serves, same_refl}

-- the same listener, as `Apply` compares them
abbrev pub is_alike : Option Forward → Option Forward → Bool
is_alike none none = true
is_alike none (some _) = false
is_alike (some _) none = false
is_alike (some a) (some b) = same a b

-- what runs for a forward that is served by its settings
abbrev pub shown : Forward → Option Forward
shown p = if p.enabled then some p else none

-- the same port and protocol
abbrev pub same_sockets : Forward → Forward → Bool
same_sockets a b = a.public_port == b.public_port && text_eq a.protocol b.protocol

pub shown-on : (p : Forward) → p.enabled ≡ true → shown p ≡ some p
shown-on p on = ground arith

pub shown-off : (p : Forward) → p.enabled ≡ false → shown p ≡ none
shown-off p off = ground arith

pub same_symm : (a b : Forward) → same a b ≡ true → same b a ≡ true
unfolding same
same_symm a b h = ground (
  arith,
  text_eq_iff a.client_id b.client_id,
  text_eq_iff b.client_id a.client_id,
  text_eq_iff a.protocol b.protocol,
  text_eq_iff b.protocol a.protocol,
  text_eq_iff a.target_host b.target_host,
  text_eq_iff b.target_host a.target_host,
)

pub same_trans : (a b c : Forward) → same a b ≡ true → same b c ≡ true → same a c ≡ true
unfolding same
same_trans a b c h k = ground (
  arith,
  text_eq_iff a.client_id b.client_id,
  text_eq_iff b.client_id c.client_id,
  text_eq_iff a.client_id c.client_id,
  text_eq_iff a.protocol b.protocol,
  text_eq_iff b.protocol c.protocol,
  text_eq_iff a.protocol c.protocol,
  text_eq_iff a.target_host b.target_host,
  text_eq_iff b.target_host c.target_host,
  text_eq_iff a.target_host c.target_host,
)

pub same-same_sockets : (a b : Forward) → same a b ≡ true → same_sockets a b ≡ true
unfolding same
same-same_sockets a b h = ground arith

pub clash-same_sockets : (a b o : Forward) → same_sockets a b ≡ true → clash a o ≡ clash b o
unfolding clash has_tcp has_udp
clash-same_sockets a b o h =
    let protocols : a.protocol ≡ b.protocol =
      (text_eq_iff a.protocol b.protocol).0 (ground arith) in
    rw protocols (ground arith)

pub is_alike_refl : (a : Option Forward) → is_alike a a ≡ true
is_alike_refl none = refl
is_alike_refl (some a) = same_refl a

pub is_alike_symm : (a b : Option Forward) → is_alike a b ≡ true → is_alike b a ≡ true
is_alike_symm none none h = refl
is_alike_symm none (some b) h = cc
is_alike_symm (some a) none h = cc
is_alike_symm (some a) (some b) h = same_symm a b h

pub is_alike_trans :
    (a b c : Option Forward) → is_alike a b ≡ true → is_alike b c ≡ true → is_alike a c ≡ true
is_alike_trans none none c h k = k
is_alike_trans none (some b) c h k = cc
is_alike_trans (some a) none c h k = cc
is_alike_trans (some a) (some b) none h k = cc
is_alike_trans (some a) (some b) (some c) h k = same_trans a b c h k

-- what runs for a listener that is like another one
pub is_alike-some :
    (a : Forward) (o : Option Forward)
    → is_alike (some a) o ≡ true
    → (b : Forward) × (o ≡ some b) × (same a b ≡ true)
is_alike-some a none h = cc
is_alike-some a (some b) h = (b, refl, h)

-- Runners with distinct ids are found by their ids.
pub All-running : (rs : Runners) → Pairwise Separate rs → All (λ x. running x.id rs ≡ some x) rs
All-running [] p = tt
All-running (r ∷ rs) p = (
  rw (text_eq_refl r.id) refl,
  All-map (λ x. Separate r x × (running x.id rs ≡ some x)) (λ x. running x.id (r ∷ rs) ≡ some x) rs
      (λ x h. rw h.0.0 h.1)
      (All-zip (Separate r) (λ x. running x.id rs ≡ some x) rs p.0 (All-running rs p.1)),
)

-- what no other runner clashes with is free behind the stop of its own listener
stop-IsFree :
    (p : Forward) (rs : Runners)
    → Pairwise Separate rs
    → ((r : Forward) → running r.id rs ≡ some r → text_eq p.id r.id ≡ false → clash p r ≡ false)
    → IsFree p (stop p.id rs)
stop-IsFree p rs apart free =
    All-map (λ r. (running r.id rs ≡ some r) × (not (text_eq r.id p.id) ≡ true))
      (λ r. clash p r ≡ false) (stop p.id rs)
      (λ r h. free r h.0 (ground (arith, text_eq_iff r.id p.id, text_eq_iff p.id r.id, h.1)))
      (keep-holds (λ r. not (text_eq r.id p.id)) (λ r. running r.id rs ≡ some r) rs
        (All-running rs apart))

module _ (busy : Kind → ℕ → Bool) where
  IsIdle-same_sockets : (a b : Forward) → same_sockets a b ≡ true → IsIdle busy b → IsIdle busy a
  unfolding has_tcp has_udp
  IsIdle-same_sockets a b h idle =
      let protocols : a.protocol ≡ b.protocol =
        (text_eq_iff a.protocol b.protocol).0 (ground arith) in
      let ports : a.public_port ≡ b.public_port = ground arith in rw (protocols, ports) idle

  Outcome-none :
      (rs : Runners) (f : Forward) (res : Runners × Option BindError)
      → Outcome busy rs f res
      → (f.enabled ≡ true → start busy (stop f.id rs) f ≡ none)
      → res.1 ≡ none
  Outcome-none rs f res (unchanged o e s r) h = rw r refl
  Outcome-none rs f res (stopped off r) h = rw r refl
  Outcome-none rs f res (started on s r) h = rw r refl
  Outcome-none rs f res (refused e on s old r) h = cc (s, h on)
  Outcome-none rs f res (restored o e on s old back r) h = cc (s, h on)

  -- A forward of which the listener ran before, if it is enabled, is put back where nothing that
  -- runs in between has a socket of it.
  pub restores :
      (before rs : Runners) (p : Forward)
      → IsBound busy before
      → IsBound busy rs
      → is_alike (running p.id before) (shown p) ≡ true
      → ((o r : Forward)
          → running p.id before ≡ some o
          → same o p ≡ true
          → running r.id rs ≡ some r
          → text_eq p.id r.id ≡ false
          → clash p r ≡ false)
      → Serves rs (apply busy rs p).0 p
        × (is_alike (running p.id (apply busy rs p).0) (running p.id before) ≡ true)
  restores before rs p was is ran free =
      let done = Outcome-none rs p (apply busy rs p) (apply-Outcome busy rs p is) startable in
      let serves = apply-Serves busy rs p is done in (serves, alike serves)
    where
      was_on : p.enabled ≡ true → (o : Forward) × (running p.id before ≡ some o) × (same o p ≡ true)
      was_on on = elim (Option-cases (running p.id before)) [
        | inl missing ↦ cc (rw (missing, shown-on p on) at ran)
        | inr (o, e) ↦ (o, e, rw (e, shown-on p on) at ran)
      ]

      startable : p.enabled ≡ true → start busy (stop p.id rs) p ≡ none
      startable on =
          let (o, e, s) = was_on on in
          (start_iff busy (stop p.id rs) p).1 (
            IsIdle-same_sockets p o (same-same_sockets p o (same_symm o p s))
                (running-All (IsIdle busy) p.id before was.idle e).0,
            stop-IsFree p rs is.separate (λ r. free o r e s),
          )

      alike :
          Serves rs (apply busy rs p).0 p
          → is_alike (running p.id (apply busy rs p).0) (running p.id before) ≡ true
      alike serves = elim (Bool-cases p.enabled) [
        | inr off ↦
            let gone = serves.off off in
            rw gone (is_alike_symm (running p.id before) none (rw (shown-off p off) at ran))
        | inl on ↦
            let (o, e, s) = was_on on in
            let (r, f, t) = serves.on on in rw (e, f) (same_trans r p o t (same_symm o p s))
      ]
