-- ===== src/Firewall/Manager.antt =====
-- internal/server/firewall.go: `fwManager`. Which socket is there, and what the agent answers, are
-- parameters; texts of errors and the log are left out.
pub mod Shown
use spawn_relay.Common.{
  ℕ, ◌==◌, Bool, true, false, not, ◌&&◌, ◌||◌, List, [], ◌∷◌, Option, none, some, Text, codes,
  text_eq, is_empty, lookup, put, any, if◌then◌else◌,
}
use spawn_relay.Store.{State, Forward, has_tcp, has_udp, proto_tcp, proto_udp}
use spawn_relay.Firewall.{Rule, desired}
use spawn_relay.Backend.{key, RuleState, state_open, state_existing, state_error, States}

-- `agentOff`, `agentNotInstalled`, `agentUnreachable` and `agentConnected`
pub data AgentState : Type 0 where
  agent_off agent_not_installed agent_unreachable agent_connected : AgentState

abbrev pub mode_off : Text
mode_off = codes "off"

abbrev pub backend_none : Text
backend_none = codes "none"

-- `FirewallStatus`; `failed` is whether `Error` is set
pub record FirewallStatus : Type 0 where
  pub mode : Text
  pub managed : Bool
  pub agent : AgentState
  pub backend : Text
  pub active : Bool
  pub failed : Bool
  pub last_sync : Option ℕ

-- `fwManager`: what the last sync left
pub record Manager : Type 0 where
  pub status : FirewallStatus
  pub rules : States
  pub failed : Bool

-- `agent.Response`, as `Sync` reads it
pub record Answer : Type 0 where
  pub backend : Text
  pub active : Bool
  pub rules : States

-- What `agent.Sync` returns: no response and an error, a response with an error, or a response.
pub data Call : Type 0 where
  no_answer : Call
  refusal : Answer → Call
  answer : Answer → Call

abbrev blank : Text → AgentState → FirewallStatus
blank mode agent = record {
  mode = mode;
  managed = false;
  agent = agent;
  backend = [];
  active = false;
  failed = false;
  last_sync = none;
}

abbrev pub all_errors : List Rule → States → States
all_errors [] res = res
all_errors (r ∷ rules) res = all_errors rules (put (key r) state_error res)

abbrev is_error : RuleState → Bool
is_error state_open = false
is_error state_existing = false
is_error state_error = true

-- the branch of the switch that calls the agent, at the time `now`
pub record_call : ℕ → Text → List Rule → Call → Manager
record_call now mode rules no_answer = record {
  status = record (blank mode agent_unreachable) { failed = true; last_sync = some now };
  rules = all_errors rules [];
  failed = true;
}
record_call now mode rules (refusal a) = record {
  status = record (blank mode (if is_empty a.backend then agent_unreachable else agent_connected)) {
    backend = a.backend;
    failed = true;
    last_sync = some now;
  };
  rules = all_errors rules [];
  failed = true;
}
record_call now mode rules (answer a) = record {
  status = record (blank mode agent_connected) {
    managed = not (text_eq a.backend backend_none);
    backend = a.backend;
    active = a.active;
    last_sync = some now;
  };
  rules = a.rules;
  failed = any (λ t. is_error t.1) a.rules;
}

-- `Sync`: `available` is whether the socket is there
unfoldable pub sync : ℕ → Bool → (Text → List Rule → Call) → ℕ → ℕ → State → Manager
unfolding record_call
sync now available call tunnel_port admin_port st =
    let (mode, rules) = desired tunnel_port admin_port st in
    if text_eq mode mode_off
    then record { status = blank mode agent_off; rules = []; failed = false }
    else if not available
    then record { status = blank mode agent_not_installed; rules = []; failed = false }
    else record_call now mode rules (call mode rules)

-- the states of `ForwardFirewall`
pub data ForwardState : Type 0 where
  fw_unmanaged fw_closed fw_none fw_open fw_existing fw_error : ForwardState

abbrev pub is_fw_error : ForwardState → Bool
is_fw_error fw_unmanaged = false
is_fw_error fw_closed = false
is_fw_error fw_none = false
is_fw_error fw_open = false
is_fw_error fw_existing = false
is_fw_error fw_error = true

-- `check`: the state so far, and that of the rule
abbrev pub check_state : Bool → ForwardState → Option RuleState → ForwardState
check_state failed out none = if failed then fw_error else out
check_state failed out (some state_error) = fw_error
check_state failed fw_open (some state_existing) = fw_existing
check_state failed fw_unmanaged (some state_existing) = fw_unmanaged
check_state failed fw_closed (some state_existing) = fw_closed
check_state failed fw_none (some state_existing) = fw_none
check_state failed fw_existing (some state_existing) = fw_existing
check_state failed fw_error (some state_existing) = fw_error
check_state failed out (some state_open) = out

abbrev pub check : Manager → Forward → Text → ForwardState → ForwardState
check m f proto out =
    check_state m.status.failed out
      (lookup (key (record { id = []; port = f.public_port; proto = proto })) m.rules)

-- `ForwardState` behind its switch
pub forward_checked : Manager → Forward → ForwardState
forward_checked m f =
    let out = if has_tcp f then check m f proto_tcp fw_open else fw_open in
    if has_udp f && not (is_fw_error out) then check m f proto_udp out else out

-- the switch of `ForwardState`
pub forward_managed : Manager → Forward → ForwardState
unfolding forward_checked
forward_managed m f =
    if text_eq m.status.backend backend_none
    then fw_none
    else if not f.enabled
    then fw_closed
    else forward_checked m f

pub forward_by_agent : AgentState → Manager → Forward → ForwardState
unfolding forward_managed
forward_by_agent agent_off m f = fw_unmanaged
forward_by_agent agent_not_installed m f = fw_unmanaged
forward_by_agent agent_unreachable m f = fw_error
forward_by_agent agent_connected m f = forward_managed m f

-- `ForwardState`
unfoldable pub forward_state : Manager → Forward → ForwardState
unfolding forward_by_agent
forward_state m f = forward_by_agent m.status.agent m f
