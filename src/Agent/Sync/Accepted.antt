-- ===== src/Agent/Sync/Accepted.antt =====
-- internal/agent/agent.go and internal/server/firewall.go: the agent on what the server sends it.
use spawn_relay.Common.{
  ◌≤◌, ◌≡◌, refl, arith, true, false, List, [], ◌∷◌, Option, none, Text, text_eq, is_empty, has,
  length, All, All-map, All-zip, Pairwise, if◌then◌else◌,
}
use spawn_relay.Store.{State}
use spawn_relay.Firewall.{Rule, mode_auto, desired}
use spawn_relay.Backend.{key, validate_rule, valid_id}
use spawn_relay.Backend.Keys.{Distinct}
use spawn_relay.Backend.Desired.{IsSetUp, desired-Distinct, desired-validate}
use spawn_relay.Server.{Env}
use spawn_relay.Server.Invariant.{IsStored}
use spawn_relay.Server.Settings.{valid_mode}
use spawn_relay.Agent.Sync.{max_rules, mode_off, Synced, check_rules, respond, sync}

check_rules-none :
    (seen : List Text) (rules : List Rule)
    → All (λ r. validate_rule r ≡ true) rules
    → Pairwise Distinct rules
    → All (λ r. has (key r) seen ≡ false) rules
    → check_rules seen rules ≡ none
unfolding check_rules
check_rules-none seen [] v p n = refl
check_rules-none seen (r ∷ rules) v p n =
    let later = check_rules-none (key r ∷ seen) rules v.1 p.1 (
      All-map (λ o. Distinct r o × (has (key o) seen ≡ false))
        (λ o. has (key o) (key r ∷ seen) ≡ false) rules (λ o h. ground (arith, h.0, h.1))
        (All-zip (Distinct r) (λ o. has (key o) seen ≡ false) rules p.0 n.1)) in
    ground (arith, v.0, n.0, later)

fresh : (rules : List Rule) → All (λ r. has (key r) [] ≡ false) rules
fresh [] = tt
fresh (r ∷ rules) = (refl, fresh rules)

mode-kept :
    (mode : Text) → valid_mode mode ≡ true → (if is_empty mode then mode_auto else mode) ≡ mode
unfolding valid_mode text_eq
mode-kept [] h = cc
mode-kept (c ∷ mode) h = refl

-- The agent accepts the rules that the server desires and hands them to the backend as they are,
-- where the forwards of the store are well formed and their ids match the agent's pattern, the
-- relay's own ports are valid and differ, the mode is a known one other than off, and there are
-- at most 2000 rules.
pub sync-desired :
    (backend : Text → List Rule → Option Synced) (env : Env) (st : State)
    → IsSetUp env
    → IsStored env st.clients st.forwards
    → All (λ f. valid_id f.id ≡ true) st.forwards
    → length (desired env.tunnel_port env.admin_port st).1 ≤ max_rules
    → valid_mode (desired env.tunnel_port env.admin_port st).0 ≡ true
    → text_eq (desired env.tunnel_port env.admin_port st).0 mode_off ≡ false
    → sync backend
        (desired env.tunnel_port env.admin_port st).0
        (desired env.tunnel_port env.admin_port st).1
      ≡ respond (
          backend
            (desired env.tunnel_port env.admin_port st).0
            (desired env.tunnel_port env.admin_port st).1)
unfolding sync
sync-desired backend env st set_up h ids few known on =
    let (mode, rules) = desired env.tunnel_port env.admin_port st in
    let checked =
      check_rules-none [] rules (desired-validate env st set_up h ids)
        (desired-Distinct env st set_up h) (fresh rules) in
    let kept = mode-kept mode known in rw kept (ground (arith, checked))
