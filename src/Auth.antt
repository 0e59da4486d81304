-- ===== src/Auth.antt =====
-- internal/server/auth.go and the login handlers of internal/server/api.go: sessions, the limit on
-- failed logins, and who may call a handler. A map is a function from its keys: a missing session is
-- `none`, a missing list of failures is empty. Times are nanoseconds.
pub mod Limiter
pub mod Guard
pub mod Login
pub mod Password
pub mod Authenticate
use spawn_relay.Common.{
  ℕ, ◌+◌, ◌*◌, Bool, true, false, not, ◌&&◌, ◌||◌, List, [], ◌∷◌, ◌++◌, Option, none, some, Text,
  codes, text_eq, is_empty, has_prefix, to_lower, trim_space, ltb, leb, if◌then◌else◌, keep, length,
}
use spawn_relay.Store.{State, ApiToken, Error, token_by_hash, token_by_id}
use spawn_relay.Server.{Env, Server, saved}

-- `principal.Kind`
pub data Kind : Type 0 where
  session token : Kind

pub record Principal : Type 0 where
  pub kind : Kind
  pub name : Text
  pub token_id : Text
  pub expires_at : ℕ

abbrev pub second : ℕ
second = 1000000000

abbrev pub session_ttl : ℕ
session_ttl = 604800 * second

abbrev pub login_window : ℕ
login_window = 900 * second

abbrev pub login_max_failures : ℕ
login_max_failures = 5

abbrev pub Sessions : Type 0
Sessions = Text → Option Principal

abbrev pub put {ℓ} : {A : Type ℓ} → Text → A → (Text → A) → Text → A
put key v m j = if text_eq key j then v else m j

-- `sessionStore.create`; `id` is the new id
unfoldable pub create : Text → Text → ℕ → Sessions → Sessions
create id name now ss =
    put id
      (some (record { kind = session; name = name; token_id = []; expires_at = now + session_ttl }))
      ss

-- the body of `sessionStore.get` for what the map holds
unfoldable pub get_found : Text → ℕ → Sessions → Option Principal → Sessions × Option Principal
get_found id now ss none = (ss, none)
get_found id now ss (some p) =
    if ltb p.expires_at now
    then (put id none ss, none)
    else let q : Principal = record p { expires_at = now + session_ttl } in
      (put id (some q) ss, some q)

-- `sessionStore.get`
unfoldable pub get : Text → ℕ → Sessions → Sessions × Option Principal
unfolding get_found
get id now ss = get_found id now ss (ss id)

-- `sessionStore.delete` and `clear`
abbrev pub delete : Text → Sessions → Sessions
delete id ss = put id none ss

abbrev pub clear : Sessions → Sessions
clear ss id = none

abbrev pub Failures : Type 0
Failures = Text → List ℕ

-- the times after the cutoff `now - loginWindow`
abbrev pub recent_of : ℕ → List ℕ → List ℕ
recent_of now ts = keep (λ t. ltb now (t + login_window)) ts

-- `loginLimiter.recent`
unfoldable pub recent : Text → ℕ → Failures → Failures × List ℕ
recent ip now l = (put ip (recent_of now (l ip)) l, recent_of now (l ip))

-- `loginLimiter.blocked`
unfoldable pub blocked : Text → ℕ → Failures → Failures × Bool
unfolding recent
blocked ip now l = let (l', ts) = recent ip now l in (l', leb login_max_failures (length ts))

-- `loginLimiter.fail`
unfoldable pub fail : Text → ℕ → Failures → Failures
unfolding recent
fail ip now l = let (l', ts) = recent ip now l in put ip (ts ++ now ∷ []) l'

-- `loginLimiter.reset`
unfoldable pub reset : Text → Failures → Failures
reset ip l = put ip [] l

-- what the checks read of a request; an absent header is empty, an absent cookie `none`
pub record Request : Type 0 where
  pub authorization : Text
  pub cookie : Option Text
  pub method : Text
  pub sec_fetch_site : Text
  pub origin : Text
  pub host : Text

abbrev pub api_token_prefix : Text
api_token_prefix = codes "sr_api_"

abbrev pub drop_seven : Text → Text
drop_seven (_ ∷ _ ∷ _ ∷ _ ∷ _ ∷ _ ∷ _ ∷ s) = s
drop_seven s = []

-- the assignment of `LastUsedAt`
use_token : Text → ℕ → List ApiToken → List ApiToken
use_token id now [] = []
use_token id now (t ∷ ts) =
    if text_eq t.id id then record t { last_used_at = some now } ∷ ts else t ∷ use_token id now ts

-- `touch`
abbrev is_stale : ℕ → Option ℕ → Bool
is_stale now none = true
is_stale now (some t) = ltb (t + 60 * second) now

-- `hash` is `HashToken`, a SHA-256 digest in hex
module _ (hash : Text → Text) (env : Env) where
  -- the update of the token's last use
  touch_token : Text → ℕ → Server → Server
  unfolding use_token
  touch_token id now s =
      (saved env
        (record s { state = record s.state { tokens = use_token id now s.state.tokens } }, none)).0

  -- the branch of a bearer token
  pub by_token : Text → ℕ → Server → Server × Option Principal
  unfolding touch_token
  by_token tok now s = elim (token_by_hash s.state (hash tok)) [
    | none ↦ (s, none)
    | some t ↦ (
      (if is_stale now t.last_used_at then touch_token t.id now s else s),
      some (record { kind = token; name = t.name; token_id = t.id; expires_at = 0 }),
    )
  ]

  -- the branch of a session cookie
  pub by_cookie : Option Text → ℕ → Sessions → Sessions × Option Principal
  by_cookie none now ss = (ss, none)
  by_cookie (some id) now ss = if is_empty id then (ss, none) else get id now ss

  -- `authenticate`
  unfoldable pub authenticate :
      Request → ℕ → Server → Sessions → Server × Sessions × Option Principal
  unfolding by_token by_cookie
  authenticate r now s ss =
      if is_empty r.authorization
      then (let (ss', p) = by_cookie r.cookie now ss in (s, ss', p))
      else if not (has_prefix (to_lower r.authorization) (codes "bearer "))
      then (s, ss, none)
      else if not (has_prefix (trim_space (drop_seven r.authorization)) api_token_prefix)
      then (s, ss, none)
      else (let (s', p) = by_token (trim_space (drop_seven r.authorization)) now s in (s', ss, p))
