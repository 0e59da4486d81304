-- ===== src/Firewall/Manager/Shown.antt =====
-- internal/server/firewall.go: what `ForwardState` shows behind a sync.
use spawn_relay.Common.{
  ℕ, ◌≡◌, ◌⊎◌, refl, arith, Bool, true, false, not, ◌&&◌, ◌||◌, List, [], ◌∷◌, Option, none, some,
  Text, text_eq, text_eq_iff, is_empty, lookup, put, lookup-put, lookup-put-other, Bool-cases, inl,
  inr, if◌then◌else◌,
}
use spawn_relay.Store.{State, Forward, has_tcp, has_udp, proto_tcp, proto_udp}
use spawn_relay.Firewall.{Rule, desired}
use spawn_relay.Backend.{key, RuleState, state_open, state_existing, state_error, States}
use spawn_relay.Firewall.Manager.{
  backend_none, mode_off, Manager, Call, no_answer, refusal, answer, all_errors, record_call, sync,
  ForwardState, fw_unmanaged, fw_closed, fw_none, fw_open, fw_existing, fw_error, check_state,
  is_fw_error, check, forward_checked, forward_managed, forward_by_agent, forward_state,
}

-- the port is shown as reachable
abbrev pub is_usable : ForwardState → Bool
is_usable fw_unmanaged = false
is_usable fw_closed = false
is_usable fw_none = false
is_usable fw_open = true
is_usable fw_existing = true
is_usable fw_error = false

-- a state of a rule that is an error; a missing one counts as one where the sync failed
abbrev pub is_bad : Bool → Option RuleState → Bool
is_bad failed none = failed
is_bad failed (some state_open) = false
is_bad failed (some state_existing) = false
is_bad failed (some state_error) = true

-- the rule of the forward for the protocol failed
abbrev pub has_failed : Forward → Text → States → Bool
has_failed f proto rules =
    is_bad false (lookup (key (record { id = []; port = f.public_port; proto = proto })) rules)

-- the agent answered without an error, manages a firewall, and reports no failure for the forward
abbrev pub is_confirmed : Forward → Call → Bool
is_confirmed f no_answer = false
is_confirmed f (refusal a) = false
is_confirmed f (answer a) =
    not (text_eq a.backend backend_none)
    && f.enabled
    && not (has_tcp f && has_failed f proto_tcp a.rules)
    && not (has_udp f && has_failed f proto_udp a.rules)

lookup-all_errors :
    (k : Text) (rules : List Rule) (res : States)
    → (lookup k res ≡ none) ⊎ (lookup k res ≡ some state_error)
    → (lookup k (all_errors rules res) ≡ none)
      ⊎ (lookup k (all_errors rules res) ≡ some state_error)
lookup-all_errors k [] res h = h
lookup-all_errors k (r ∷ rules) res h =
    lookup-all_errors k rules (put (key r) state_error res) (next h)
  where
    next :
        (lookup k res ≡ none) ⊎ (lookup k res ≡ some state_error)
        → (lookup k (put (key r) state_error res) ≡ none)
          ⊎ (lookup k (put (key r) state_error res) ≡ some state_error)
    next e = elim (Bool-cases (text_eq (key r) k)) [
      | inl same ↦ inr (rw (← (text_eq_iff (key r) k).0 same) (lookup-put (key r) state_error res))
      | inr other ↦ rw (lookup-put-other (key r) k state_error res other) e
    ]

is_usable-check_state :
    (failed : Bool) (out : ForwardState) (r : Option RuleState)
    → is_usable (check_state failed out r) ≡ (is_usable out && not (is_bad failed r))
is_usable-check_state true out none = ground arith
is_usable-check_state false out none = ground arith
is_usable-check_state failed out (some state_error) = ground arith
is_usable-check_state failed out (some state_open) = ground arith
is_usable-check_state failed fw_open (some state_existing) = refl
is_usable-check_state failed fw_unmanaged (some state_existing) = refl
is_usable-check_state failed fw_closed (some state_existing) = refl
is_usable-check_state failed fw_none (some state_existing) = refl
is_usable-check_state failed fw_existing (some state_existing) = refl
is_usable-check_state failed fw_error (some state_existing) = refl

fw_error-usable : (out : ForwardState) → is_fw_error out ≡ true → is_usable out ≡ false
fw_error-usable fw_unmanaged h = refl
fw_error-usable fw_closed h = refl
fw_error-usable fw_none h = refl
fw_error-usable fw_open h = cc
fw_error-usable fw_existing h = cc
fw_error-usable fw_error h = refl

abbrev rule_state : Manager → Forward → Text → Option RuleState
rule_state m f proto =
    lookup (key (record { id = []; port = f.public_port; proto = proto })) m.rules

is_usable-forward_checked :
    (m : Manager) (f : Forward)
    → is_usable (forward_checked m f) ≡ (
        not (has_tcp f && is_bad m.status.failed (rule_state m f proto_tcp))
        && not (has_udp f && is_bad m.status.failed (rule_state m f proto_udp)))
unfolding forward_checked
is_usable-forward_checked m f =
    let out = if has_tcp f then check m f proto_tcp fw_open else fw_open in
    ground (
      arith,
      is_usable-check_state m.status.failed fw_open (rule_state m f proto_tcp),
      is_usable-check_state m.status.failed out (rule_state m f proto_udp),
      fw_error-usable out,
    )

bad_of : (r : Option RuleState) → (r ≡ none) ⊎ (r ≡ some state_error) → is_bad true r ≡ true
bad_of r (inl e) = rw e refl
bad_of r (inr e) = rw e refl

module _ (f : Forward) (sockets : (has_tcp f || has_udp f) ≡ true) where
  bad_for :
      (rules : List Rule) (proto : Text)
      → is_bad true (
          lookup
            (key (record { id = []; port = f.public_port; proto = proto }))
            (all_errors rules []))
        ≡ true
  bad_for rules proto =
      let k = key (record { id = []; port = f.public_port; proto = proto }) in
      bad_of (lookup k (all_errors rules [])) (lookup-all_errors k rules [] (inl refl))

  is_usable-record_call :
      (now : ℕ) (mode : Text) (rules : List Rule) (c : Call)
      → is_usable (forward_state (record_call now mode rules c) f) ≡ is_confirmed f c
  unfolding forward_state record_call forward_by_agent forward_managed
  is_usable-record_call now mode rules no_answer = refl
  is_usable-record_call now mode rules (refusal a) =
      let m = record_call now mode rules (refusal a) in
      elim (Bool-cases (is_empty a.backend)) [
        | inl e ↦ rw e refl
        | inr e ↦ rw e (
            ground (
              arith,
              is_usable-forward_checked m f,
              bad_for rules proto_tcp,
              bad_for rules proto_udp,
            ))
      ]
  is_usable-record_call now mode rules (answer a) =
      ground (arith, is_usable-forward_checked (record_call now mode rules (answer a)) f)

-- Behind a sync, a forward that listens on some socket is shown as open or existing exactly when
-- firewall management is on, the agent's socket is there, the agent answered without an error for
-- a backend other than none, the forward is enabled, and the answer reports no error for a rule
-- of it.
pub is_usable-sync :
    (now : ℕ) (available : Bool) (call : Text → List Rule → Call) (tunnel_port admin_port : ℕ)
    (st : State) (f : Forward)
    → (has_tcp f || has_udp f) ≡ true
    → is_usable (forward_state (sync now available call tunnel_port admin_port st) f) ≡ (
        not (text_eq (desired tunnel_port admin_port st).0 mode_off)
        && available
        && is_confirmed f
            (call (desired tunnel_port admin_port st).0 (desired tunnel_port admin_port st).1))
unfolding sync forward_state forward_by_agent
is_usable-sync now available call tunnel_port admin_port st f sockets =
    let (mode, rules) = desired tunnel_port admin_port st in
    elim (Bool-cases (text_eq mode mode_off)) [
      | inl off ↦ rw off refl
      | inr on ↦ elim (Bool-cases available) [
        | inr no_socket ↦ rw on (rw no_socket refl)
        | inl there ↦
            rw on (rw there (is_usable-record_call f sockets now mode rules (call mode rules)))
      ]
    ]
