-- ===== src/Examples/Access.antt =====
-- Sessions, the login limit and the checks on a request, at concrete requests.
use spawn_relay.Common.{
  ◌==◌, ◌&&◌, ◌||◌, refl, any, if◌then◌else◌, has_prefix, trim_space, to_lower,
}
use spawn_relay.Store.{ApiToken, token_by_hash, proto_tcp, proto_udp}
use spawn_relay.Server.{Server}
use spawn_relay.Firewall.{desired, rule_tunnel, rule_admin}
use spawn_relay.Firewall.Rules.{has_rule, needs, has_rule-desired}
use spawn_relay.Auth.{token, Sessions, session_ttl, Request, api_token_prefix, authenticate}
use spawn_relay.Auth.Authenticate.{
  bearer_of, IsTokenOf, IsSessionOf, authenticate-IsTokenOf, authenticate-IsSessionOf,
}
use spawn_relay.Examples.World.{env, server}
use spawn_relay.Common.{
  ◌*◌, ◌≡◌, ◌≤◌, ◌<◌, ◌+◌, ◌↔◌, arith, List, [], ◌∷◌, some, none, Bool, Text, codes, text_eq, false,
  true, leb, length,
}
use spawn_relay.Auth.{
  session, Principal, Request, create, get, blocked, recent_of, login_max_failures, second,
  session_ttl,
}
use spawn_relay.Auth.Limiter.{
  Call, failed, succeeded, asked, run, log, IsTimely, no_failures, blocked-run,
}
use spawn_relay.Auth.Guard.{admitted, guard, is_safe_method, same_origin, guard_admits_iff}
use spawn_relay.Auth.Login.{login, login_locked, holder, get-create}
use spawn_relay.Store.{Admin}
use spawn_relay.Examples.World.{fold, state}

abbrev ip : Text
ip = codes "10.0.0.1"

-- six failures, one of them before a success
abbrev calls : List Call
calls =
    failed ip 1
    ∷ succeeded ip
    ∷ failed ip (2 * second)
    ∷ failed ip (3 * second)
    ∷ asked ip (3 * second)
    ∷ failed ip (4 * second)
    ∷ failed ip (4 * second)
    ∷ failed ip (5 * second)
    ∷ []

calls-IsTimely : IsTimely 0 calls (60 * second)
calls-IsTimely = ground arith

blocked-run_example :
    (blocked ip (60 * second) (run calls no_failures)).1
    ≡ leb login_max_failures (length (recent_of (60 * second) (log calls no_failures ip)))
blocked-run_example = blocked-run calls ip (60 * second) calls-IsTimely

accepts : Admin → Text → Bool
accepts a password = true

login_locked_example :
    ((login fold accepts state.admin ip
        (codes "s1")
        (60 * second)
        (some (codes "admin", codes "x"))
        (record { failures = run calls no_failures; sessions = λ id. none })).1
      ≡ 429)
    × ((login fold accepts state.admin ip
          (codes "s1")
          (60 * second)
          (some (codes "admin", codes "x"))
          (record { failures = run calls no_failures; sessions = λ id. none })).0.sessions
        ≡ (λ id. none))
unfolding text_eq log
login_locked_example =
    let many : 5 ≤ 5 = omega arith in
    login_locked fold accepts state.admin ip (codes "s1") (codes "admin") (codes "x") (60 * second)
      calls (λ id. none) calls-IsTimely many

abbrev user : Principal
user = record { kind = session; name = codes "admin"; token_id = []; expires_at = 9 }

abbrev post : Request
post = record {
  authorization = [];
  cookie = some (codes "s1");
  method = codes "POST";
  sec_fetch_site = [];
  origin = codes "https://relay:7836";
  host = codes "relay:7836";
}

guard_example : (guard fold true post (some user) ≡ admitted user) ↔ (
    (some user ≡ some user)
    × (true ≡ true → user.kind ≡ session)
    × (user.kind ≡ session
        → is_safe_method fold post.method ≡ false
        → same_origin fold post ≡ true))
guard_example = guard_admits_iff fold true post (some user) user

get-create_example :
    (3 ≤ 2 + session_ttl
      → (holder (get (codes "s1") 3 (create (codes "s1") (codes "admin") 2 (λ id. none))).1
          ≡ some (codes "admin", 3 + session_ttl))
        × (holder (
              (get (codes "s1") 3 (create (codes "s1") (codes "admin") 2 (λ id. none))).0
                (codes "s1"))
            ≡ some (codes "admin", 3 + session_ttl)))
    × (2 + session_ttl < 3
        → ((get (codes "s1") 3 (create (codes "s1") (codes "admin") 2 (λ id. none))).1 ≡ none)
          × ((get (codes "s1") 3 (create (codes "s1") (codes "admin") 2 (λ id. none))).0
                (codes "s1")
              ≡ none))
get-create_example = get-create (codes "s1") (codes "admin") 2 3 (λ id. none)

abbrev with_bearer : Request
with_bearer = record {
  authorization = codes "Bearer  sr_api_abc";
  cookie = none;
  method = codes "GET";
  sec_fetch_site = [];
  origin = [];
  host = codes "relay:7836";
}

abbrev stored_token : ApiToken
stored_token = record {
  id = codes "t1";
  name = codes "ci";
  prefix = codes "sr_api_abc";
  token_hash = codes "0f";
  created_at = 0;
  last_used_at = none;
}

abbrev with_token : Server
with_token = record server { state = record state { tokens = stored_token ∷ [] } }

digest : Text → Text
digest t = codes "0f"

abbrev ci : Principal
ci = record { kind = token; name = codes "ci"; token_id = codes "t1"; expires_at = 0 }

authenticate-IsTokenOf_example :
    IsTokenOf ci with_token (digest (bearer_of with_bearer))
    × (has_prefix (to_lower with_bearer.authorization) (codes "bearer ") ≡ true)
    × (has_prefix (bearer_of with_bearer) api_token_prefix ≡ true)
unfolding authenticate token_by_hash digest trim_space to_lower text_eq
authenticate-IsTokenOf_example =
    authenticate-IsTokenOf digest env with_bearer 7 with_token (λ id. none) ci refl refl

abbrev signed_in : Sessions
signed_in id = if text_eq id (codes "s1") then some user else none

authenticate-IsSessionOf_example :
    IsSessionOf (record user { expires_at = 7 + session_ttl }) signed_in post.cookie 7
unfolding authenticate get text_eq digest
authenticate-IsSessionOf_example =
    authenticate-IsSessionOf digest env post 7 with_token signed_in
      (record user { expires_at = 7 + session_ttl }) refl refl

has_rule-desired_example : has_rule (codes "f1") 7777 proto_udp (desired 7835 7836 state).1 ≡ (
    text_eq rule_tunnel (codes "f1") && 7835 == 7777 && text_eq proto_tcp proto_udp
    || text_eq rule_admin (codes "f1") && 7836 == 7777 && text_eq proto_tcp proto_udp
    || any (needs (codes "f1") 7777 proto_udp) state.forwards)
has_rule-desired_example = has_rule-desired 7835 7836 state (codes "f1") 7777 proto_udp
