-- ===== src/Auth/Login.antt =====
-- internal/server/api.go: `handleLogin`.
use spawn_relay.Common.{
  ℕ, ◌+◌, ◌≤◌, ◌<◌, ◌≡◌, ◌∙◌, refl, Bool, true, false, ◌&&◌, List, [], Option, none, some, Text,
  text_eq, text_eq_refl, ltb, if◌then◌else◌, map, length, arith,
}
use spawn_relay.Store.{Admin}
use spawn_relay.Auth.{
  session, Principal, Sessions, Failures, create, get, blocked, fail, reset, session_ttl,
  login_max_failures, recent_of,
}
use spawn_relay.Auth.Limiter.{Call, run, log, IsTimely, no_failures, blocked-run}

pub record Login : Type 0 where
  pub failures : Failures
  pub sessions : Sessions

-- `accepts` is `Admin.CheckPassword`, whose key derivation is not modelled; `fold` is that of
-- `Server.Clients`.
module _ (fold : ℕ → ℕ) (accepts : Admin → Text → Bool) where
  abbrev pub is_admin : Admin → Text → Text → Bool
  is_admin a username password =
      text_eq (map fold username) (map fold a.username) && accepts a password

  -- `handleLogin` from the address `ip`; `id` is the new session's id
  unfoldable pub login : Admin → Text → Text → ℕ → Option (Text × Text) → Login → Login × ℕ
  login a ip id now none s = (s, 400)
  login a ip id now (some (username, password)) s =
      let (l, stopped) = blocked ip now s.failures in
      if stopped
      then (record s { failures = l }, 429)
      else if is_admin a username password
      then (record { failures = reset ip l; sessions = create id a.username now s.sessions }, 200)
      else (record s { failures = fail ip now l }, 401)

  -- After calls on the limiter at times that do not run backwards, an address with five
  -- failures since its last success and within fifteen minutes gets 429 and no session,
  -- whatever name and password it sends.
  pub login_locked :
      (a : Admin) (ip id username password : Text) (now : ℕ) (cs : List Call) (ss : Sessions)
      → IsTimely 0 cs now
      → login_max_failures ≤ length (recent_of now (log cs no_failures ip))
      → ((login a ip id now
            (some (username, password))
            (record { failures = run cs no_failures; sessions = ss })).1
          ≡ 429)
        × ((login a ip id now
              (some (username, password))
              (record { failures = run cs no_failures; sessions = ss })).0.sessions
            ≡ ss)
  unfolding login
  login_locked a ip id username password now cs ss h many =
      let stopped : (blocked ip now (run cs no_failures)).1 ≡ true =
        blocked-run cs ip now h ∙ ground arith in
      (simp stopped, simp stopped)

-- whose session it is, and its expiry
abbrev pub holder : Option Principal → Option (Text × ℕ)
holder none = none
holder (some p) = some (p.name, p.expires_at)

create-found :
    (id name : Text) (t : ℕ) (ss : Sessions)
    → create id name t ss id
      ≡ some (record { kind = session; name = name; token_id = []; expires_at = t + session_ttl })
unfolding create
create-found id name t ss = rw (text_eq_refl id) refl

get_live :
    (id : Text) (now : ℕ) (ss : Sessions) (p : Principal)
    → ss id ≡ some p
    → ltb p.expires_at now ≡ false
    → (holder (get id now ss).1 ≡ some (p.name, now + session_ttl))
      × (holder ((get id now ss).0 id) ≡ some (p.name, now + session_ttl))
unfolding get
get_live id now ss p found live =
    (simp (found, live) refl, simp (found, live) (rw (text_eq_refl id) refl))

get_dead :
    (id : Text) (now : ℕ) (ss : Sessions) (p : Principal)
    → ss id ≡ some p
    → ltb p.expires_at now ≡ true
    → ((get id now ss).1 ≡ none) × ((get id now ss).0 id ≡ none)
unfolding get
get_dead id now ss p found dead =
    (simp (found, dead) refl, simp (found, dead) (rw (text_eq_refl id) refl))

-- A session is found at every time up to its expiry, and that use puts the expiry off to a week
-- from then, in what it returns and in what the store keeps; a use after its expiry finds nothing
-- and removes it.
pub get-create :
    (id name : Text) (t now : ℕ) (ss : Sessions)
    → (now ≤ t + session_ttl
        → (holder (get id now (create id name t ss)).1 ≡ some (name, now + session_ttl))
          × (holder ((get id now (create id name t ss)).0 id) ≡ some (name, now + session_ttl)))
      × (t + session_ttl < now
          → ((get id now (create id name t ss)).1 ≡ none)
            × ((get id now (create id name t ss)).0 id ≡ none))
get-create id name t now ss =
    let found = create-found id name t ss in
    (
      λ h. get_live id now (create id name t ss) _ found (ground arith),
      λ h. get_dead id now (create id name t ss) _ found (ground arith),
    )
