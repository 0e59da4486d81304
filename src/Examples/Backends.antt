-- ===== src/Examples/Backends.antt =====
-- The firewall: the backends, the agent's check and the manager at concrete inputs.
use spawn_relay.Common.{
  ◌≡◌, ◌≤◌, refl, arith, Bool, true, false, not, ◌&&◌, ◌||◌, List, [], ◌∷◌, Option, none, some,
  Text, codes, text_eq, itoa, has, has_key, lookup, any, all, is_nil, All, Pairwise, if◌then◌else◌,
  length,
}
use spawn_relay.Store.{proto_tcp, has_tcp, has_udp}
use spawn_relay.Firewall.{Rule, desired}
use spawn_relay.Firewall.Manager.{Call, answer, sync, forward_state, mode_off}
use spawn_relay.Firewall.Manager.Shown.{is_usable, is_confirmed, is_usable-sync}
use spawn_relay.Backend.{key, is_wanted, validate_rule, valid_id, state_open}
use spawn_relay.Backend.Keys.{Distinct}
use spawn_relay.Backend.Desired.{IsSetUp}
use spawn_relay.Backend.Ufw as Ufw
use spawn_relay.Backend.Ufw.Commands.{is_settled, IsSynced, is_nil-sync, sync-IsSynced}
use spawn_relay.Backend.Firewalld as Firewalld
use spawn_relay.Backend.Firewalld.Ledger.{succeeds, has_key-sync_ports}
use spawn_relay.Backend.Firewalld.Commands.{is_ours, sync_ports-is_ours}
use spawn_relay.Backend.Firewalld.Foreign.{Round, is_about, finds, commands_of, sync_ports_half}
use spawn_relay.Backend.Iptables as Iptables
use spawn_relay.Backend.Iptables.Reported.{overall, sync-overall}
use spawn_relay.Server.Settings.{valid_mode}
use spawn_relay.Agent.Sync as Agent
use spawn_relay.Agent.Sync.Accepted.{sync-desired}
use spawn_relay.Examples.World.{env, state, game, server-IsWellFormed}

abbrev web : Rule
web = record { id = codes "f1"; port = 80; proto = proto_tcp }

abbrev dns : Rule
dns = record { id = codes "f2"; port = 53; proto = proto_tcp }

abbrev want : List Rule
want = web ∷ dns ∷ []

want-Distinct : Pairwise Distinct want
unfolding key text_eq itoa
want-Distinct = ((refl, tt), (tt, tt))

-- one of the rules is there, and one that nobody wants
abbrev seen : Ufw.UfwStatus
seen = record {
  active = true;
  tagged = (codes "80/tcp", codes "f1") ∷ (codes "81/tcp", codes "f9") ∷ [];
  untagged = [];
}

abbrev ufw_ok : Ufw.Command → Bool
ufw_ok c = true

is_nil-sync_example :
    is_nil (Ufw.sync ufw_ok seen want).0
    ≡ (all (is_settled seen) want && all (λ t. is_wanted t.0 want) seen.tagged)
is_nil-sync_example = is_nil-sync ufw_ok seen want

sync-IsSynced_example :
    IsSynced ufw_ok seen want (Ufw.sync ufw_ok seen want).0 (Ufw.sync ufw_ok seen want).1
sync-IsSynced_example = sync-IsSynced ufw_ok seen want want-Distinct

-- the permanent half of every opening fails
abbrev half : Firewalld.Command → Bool
half (Firewalld.runtime op k) = true
half (Firewalld.permanent Firewalld.add k) = false
half (Firewalld.permanent Firewalld.remove k) = true

abbrev host : Firewalld.Host
host = record { running = true; listed = some []; reads = true; writes = true; ok = half }

abbrev empty : Firewalld.Ledger
empty = []

has_key-sync_ports_example :
    has_key (codes "80/tcp") (Firewalld.sync_ports host [] empty want).ledger ≡ (
      if is_wanted (codes "80/tcp") want
      then has_key (codes "80/tcp") empty
        || not (has (codes "80/tcp") []) && succeeds half Firewalld.add (codes "80/tcp")
      else has_key (codes "80/tcp") empty && not (succeeds half Firewalld.remove (codes "80/tcp")))
has_key-sync_ports_example = has_key-sync_ports host [] empty want (codes "80/tcp") refl

sync_ports-is_ours_example :
    All (λ c. is_ours [] [] want c ≡ true) (Firewalld.sync_ports host [] [] want).commands
sync_ports-is_ours_example = sync_ports-is_ours host [] [] want

web_wanted : is_wanted (codes "80/tcp") want ≡ true
unfolding key text_eq itoa
web_wanted = refl

-- a round that finds the port open and wants nothing, and one in which firewalld does not run
abbrev rounds : List Round
rounds =
    (record host { listed = some (codes "80/tcp" ∷ []) }, [])
    ∷ (record host { running = false; listed = none }, want)
    ∷ []

rounds-finds : All (λ r. finds (codes "80/tcp") r ≡ true) rounds
unfolding text_eq
rounds-finds = (refl, (refl, tt))

sync_ports_half_example :
    any
      (is_about (codes "80/tcp"))
      (commands_of (Firewalld.sync_ports host [] [] want).ledger rounds)
    ≡ false
sync_ports_half_example =
    sync_ports_half host [] [] want (codes "80/tcp") rounds refl web_wanted refl refl rounds-finds

abbrev tables : Iptables.Tool → Option Iptables.IptablesState
tables Iptables.iptables =
    some (record { filtering = true; tagged = (codes "80/tcp", codes "f1") ∷ []; untagged = [] })
tables Iptables.ip6tables =
    some (record { filtering = false; tagged = []; untagged = codes "53/tcp" ∷ [] })

abbrev tables_ok : Iptables.Command → Bool
tables_ok c = true

sync-overall_example :
    (o : Iptables.Outcome) × (Iptables.sync tables_ok true tables want ≡ some o)
    × All
        (λ w.
          lookup (key w) o.states
          ≡ some (
              overall tables_ok
                (record {
                  filtering = true;
                  tagged = (codes "80/tcp", codes "f1") ∷ [];
                  untagged = [];
                })
                (if true then tables Iptables.ip6tables else none)
                w))
        want
sync-overall_example =
    sync-overall tables_ok true tables want
      (record { filtering = true; tagged = (codes "80/tcp", codes "f1") ∷ []; untagged = [] })
      want-Distinct refl

abbrev call : Text → List Rule → Call
call mode rules =
    answer
      (record { backend = codes "ufw"; active = true; rules = (codes "7777/tcp", state_open) ∷ [] })

game_sockets : (has_tcp game || has_udp game) ≡ true
unfolding has_tcp has_udp text_eq
game_sockets = refl

is_usable-sync_example : is_usable (forward_state (sync 9 true call 7835 7836 state) game) ≡ (
    not (text_eq (desired 7835 7836 state).0 mode_off)
    && true
    && is_confirmed game (call (desired 7835 7836 state).0 (desired 7835 7836 state).1))
is_usable-sync_example = is_usable-sync 9 true call 7835 7836 state game game_sockets

env-IsSetUp : IsSetUp env
unfolding validate_rule valid_id text_eq
env-IsSetUp = record { tunnel = refl; admin = refl; apart = refl }

abbrev backend : Text → List Rule → Option Agent.Synced
backend mode rules = some (record { backend = codes "ufw"; active = true; rules = [] })

game_id : valid_id game.id ≡ true
unfolding valid_id
game_id = refl

few : length (desired env.tunnel_port env.admin_port state).1 ≤ Agent.max_rules
unfolding desired has_tcp has_udp text_eq
few = omega arith

known : valid_mode (desired env.tunnel_port env.admin_port state).0 ≡ true
unfolding desired valid_mode text_eq
known = refl

on : text_eq (desired env.tunnel_port env.admin_port state).0 Agent.mode_off ≡ false
unfolding desired text_eq
on = refl

sync-desired_example :
    Agent.sync backend
      (desired env.tunnel_port env.admin_port state).0
      (desired env.tunnel_port env.admin_port state).1
    ≡ Agent.respond (
        backend
          (desired env.tunnel_port env.admin_port state).0
          (desired env.tunnel_port env.admin_port state).1)
sync-desired_example =
    sync-desired backend env state env-IsSetUp server-IsWellFormed.stored (game_id, tt) few known on
