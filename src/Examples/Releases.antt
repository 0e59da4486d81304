-- ===== src/Examples/Releases.antt =====
-- Releases, the server's update of itself, the agent's updater and the client at concrete inputs.
use spawn_relay.Common.{
  ◌↔◌, ℕ, ◌+◌, ◌*◌, ◌≡◌, ◌≤◌, refl, Bool, true, false, [], ◌∷◌, Option, none, some, Text, codes,
  text_eq, to_lower, is_space, ◌≢◌, ◌⊎◌, All, leb, if◌then◌else◌,
}
use spawn_relay.Auth.{second}
use spawn_relay.Examples.World.{fold}
use spawn_relay.Release.{valid_tag, split_by, Version, parse_version, newer, newer_version}
use spawn_relay.Release.Order.{IsAbove, newer_version_trans}
use spawn_relay.SelfUpdate.{SelfUpdater, AgentView, start, available, supported, last}
use spawn_relay.SelfUpdate.Start.{Begins, start-Begins}
use spawn_relay.Agent.Updater.{Binary, Host, Updater, wait_healthy, rounds, finish}
use spawn_relay.Agent.Updater.{start as agent_start}
use spawn_relay.Agent.Updater.Health.{IsSeen, wait_healthy-rounds}
use spawn_relay.Agent.Updater.Install.{IsFinished, finish-IsFinished}
use spawn_relay.Agent.Updater.Fetch.{Source, fetch_binary, parse_sums, verify_sum}
use spawn_relay.Agent.Updater.Fetch.Listed.{IsListed, fetch_binary-IsListed}
use spawn_relay.Client.Retry.{run, run-bounds}
use spawn_relay.Client.Update as Client
use spawn_relay.Client.Update.Installed.{Outcome, run_update-Outcome}

abbrev old_tag : Text
old_tag = codes "v1.9.0"

abbrev new_tag : Text
new_tag = codes "v1.10.0"

abbrev updater : SelfUpdater
updater = record {
  version = old_tag;
  latest = new_tag;
  check_failed = false;
  local = none;
  busy = false;
}

abbrev view : AgentView
view = record { present = true; legacy = false; can_update = some true; recorded = none }

started : (start 5 view [] false updater).1 ≡ none
unfolding start available supported parse_version newer_version newer last valid_tag text_eq
started = refl

start-Begins_example : Begins 5 view false updater (start 5 view [] false updater).0
start-Begins_example = start-Begins 5 view [] false updater started

-- a server that answers with the new version from the third second on
abbrev probe : ℕ → ℕ × Option Text
probe t = (0, if leb (3 * second) t then some new_tag else none)

wait_healthy-rounds_example :
    (b : Bool) × (wait_healthy (rounds (60 * second)) 0 (0 + 60 * second) new_tag probe ≡ some b)
    × (b ≡ true → IsSeen new_tag (0 + 60 * second) probe)
wait_healthy-rounds_example = wait_healthy-rounds (60 * second) 0 new_tag probe

abbrev old_binary : Binary
old_binary = 1 ∷ []

abbrev host : Host
host = record {
  fetched = some (2 ∷ []);
  writes = true;
  torn = none;
  verifies = λ b. true;
  keeps = true;
  installs = true;
  returns = true;
  restarts = true;
  probe = probe;
  restores = true;
  restarts_again = true;
}

abbrev agent : Updater
agent = record {
  repo = codes "o/r";
  bin_path = codes "/bin/s";
  server_unit = codes "s.service";
  version = old_tag;
  busy = false;
  last = none;
  files = record { installed = some old_binary; next = none; previous = none };
}

accepted : (agent_start 5 new_tag agent).1 ≡ none
unfolding agent_start valid_tag
accepted = refl

finish-IsFinished_example :
    (agent.busy ≡ false)
    × (valid_tag new_tag ≡ true)
    × IsFinished host
        (60 * second)
        0
        9
        new_tag
        old_binary
        agent
        (finish host (60 * second) 0 9 new_tag (agent_start 5 new_tag agent).0)
finish-IsFinished_example =
    finish-IsFinished host 5 (60 * second) 0 9 new_tag old_binary agent refl accepted

-- two releases and one between them
newer_version_trans_example :
    (newer_version (codes "v2.0.0") (codes "v2.0.0") ≡ false)
    × (newer_version (codes "v2.0.0") new_tag ≡ true
        → newer_version new_tag old_tag ≡ true
        → newer_version (codes "v2.0.0") old_tag ≡ true)
    × ((v w : Version)
        → parse_version (codes "v2.0.0") ≡ some v
        → parse_version new_tag ≡ some w
        → ((newer_version (codes "v2.0.0") new_tag ≡ true) ↔ IsAbove v w)
          × (v ≢ w
              → (newer_version (codes "v2.0.0") new_tag ≡ true)
                ⊎ (newer_version new_tag (codes "v2.0.0") ≡ true)))
newer_version_trans_example = newer_version_trans (codes "v2.0.0") new_tag old_tag

abbrev source : Source
source = record {
  sums = some (codes "1f2A  *spawnrelay_linux_amd64.tar.gz");
  tarball = λ name. some (7 ∷ []);
  digest = λ b. codes "1f2a";
  extract = λ b. some (8 ∷ []);
}

fetched : fetch_binary source (codes "amd64") ≡ some (8 ∷ [])
unfolding fetch_binary parse_sums verify_sum split_by text_eq to_lower is_space
fetched = refl

fetch_binary-IsListed_example : IsListed source (codes "amd64") (8 ∷ [])
fetch_binary-IsListed_example = fetch_binary-IsListed source (codes "amd64") (8 ∷ []) fetched

run-bounds_example :
    All
      (λ t. (second ≤ t) × (t ≤ 32 * second))
      (run (
        record { connected = false; rejected = false }
        ∷ record { connected = true; rejected = true }
        ∷ []))
run-bounds_example = run-bounds (
    record { connected = false; rejected = false }
    ∷ record { connected = true; rejected = true }
    ∷ [])

abbrev device : Client.Device
device = record { exe = some old_binary; tmp = none; old = none; updating = false }

abbrev machine : Client.Host
machine = record {
  allow_update = true;
  version = old_tag;
  located = true;
  response = some (record { ok = true; size = 1; sha256 = codes "AB" });
  creates = true;
  body = 9 ∷ [];
  copied = true;
  digest = λ b. codes "ab";
  output = λ b. some new_tag;
  windows = true;
  keeps = true;
  installs = true;
  returns = true;
  restarts = true;
}

abbrev info : Client.UpdateInfo
info = record { version = new_tag; size = 1; sha256 = codes "ab" }

run_update-Outcome_example :
    Outcome fold machine info old_binary
      (Client.run_update fold machine info device).0
      (Client.run_update fold machine info device).1
run_update-Outcome_example = run_update-Outcome fold machine info old_binary device refl
