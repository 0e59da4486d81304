-- ===== src/Auth/Authenticate.antt =====
-- internal/server/auth.go: `authenticate`.
use mathlib.Core.Option.{some-injective}
use spawn_relay.Common.{
  ◌+◌, ℕ, ◌≡◌, refl, true, false, Option, none, some, Text, codes, is_empty, has_prefix, to_lower,
  trim_space, ltb, Bool-cases, Option-cases, inl, inr,
}
use spawn_relay.Store.{ApiToken, token_by_hash}
use spawn_relay.Server.{Env, Server}
use spawn_relay.Auth.{
  token, Principal, Sessions, Request, session_ttl, api_token_prefix, drop_seven, get, get_found,
  by_token, by_cookie, authenticate,
}

-- what stands behind "Bearer "
abbrev pub bearer_of : Request → Text
bearer_of r = trim_space (drop_seven r.authorization)

-- the principal of a stored token
pub record IsTokenOf (p : Principal) (s : Server) (digest : Text) : Type 0 where
  pub stored : ApiToken
  pub found : token_by_hash s.state digest ≡ some stored
  pub kind : p.kind ≡ token
  pub token_id : p.token_id ≡ stored.id

-- the principal of a session that has not expired
pub record IsSessionOf (p : Principal) (ss : Sessions) (cookie : Option Text) (now : ℕ)
    : Type 0 where
  pub id : Text
  pub held : Principal
  pub sent : cookie ≡ some id
  pub found : ss id ≡ some held
  pub live : ltb held.expires_at now ≡ false
  pub name : p.name ≡ held.name

get_found-live :
    (id : Text) (now : ℕ) (ss : Sessions) (o : Option Principal) (p : Principal)
    → (get_found id now ss o).1 ≡ some p
    → (q : Principal) × (o ≡ some q) × (ltb q.expires_at now ≡ false) × (p.name ≡ q.name)
unfolding get_found
get_found-live id now ss none p e = cc
get_found-live id now ss (some q) p e = elim (Bool-cases (ltb q.expires_at now)) [
  | inl late ↦ cc (rw late at e)
  | inr live ↦
      let same : record q { expires_at = now + session_ttl } ≡ p =
        some-injective _ _ (rw live at e) in
      (q, refl, live, rw (← same) refl)
]

module _ (hash : Text → Text) (env : Env) where
  by_token-IsTokenOf :
      (tok : Text) (now : ℕ) (s : Server) (p : Principal)
      → (by_token hash env tok now s).1 ≡ some p
      → IsTokenOf p s (hash tok)
  unfolding by_token
  by_token-IsTokenOf tok now s p e = elim (Option-cases (token_by_hash s.state (hash tok))) [
    | inl missing ↦ cc (rw (missing, by_token) at e)
    | inr (t, found) ↦
        let made : record { kind = token; name = t.name; token_id = t.id; expires_at = 0 } ≡ p =
          some-injective _ _ (rw (found, by_token) at e) in
        rw (← made) (record { stored = t; found = found; kind = refl; token_id = refl })
  ]

  by_cookie-IsSessionOf :
      (c : Option Text) (now : ℕ) (ss : Sessions) (p : Principal)
      → (by_cookie hash env c now ss).1 ≡ some p
      → IsSessionOf p ss c now
  unfolding by_cookie get
  by_cookie-IsSessionOf none now ss p e = cc
  by_cookie-IsSessionOf (some id) now ss p e = elim (Bool-cases (is_empty id)) [
    | inl blank ↦ cc (rw blank at e)
    | inr named ↦
        let (q, found, live, name) = get_found-live id now ss (ss id) p (rw named at e) in
        record { id = id; held = q; sent = refl; found = found; live = live; name = name }
  ]

  -- A request with an Authorization header that is authenticated has the scheme "bearer " in
  -- that header, in any case, and behind it a token with the prefix of API tokens, and its
  -- principal is that of the stored token with the digest of it; a cookie beside it plays no
  -- part.
  pub authenticate-IsTokenOf :
      (r : Request) (now : ℕ) (s : Server) (ss : Sessions) (p : Principal)
      → is_empty r.authorization ≡ false
      → (authenticate hash env r now s ss).2 ≡ some p
      → IsTokenOf p s (hash (bearer_of r))
        × (has_prefix (to_lower r.authorization) (codes "bearer ") ≡ true)
        × (has_prefix (bearer_of r) api_token_prefix ≡ true)
  unfolding authenticate
  authenticate-IsTokenOf r now s ss p sent e =
      let a = rw sent at e in
      elim (Bool-cases (has_prefix (to_lower r.authorization) (codes "bearer "))) [
        | inr other ↦ cc (rw other at a)
        | inl bearer ↦ elim (Bool-cases (has_prefix (bearer_of r) api_token_prefix)) [
          | inr foreign ↦ let b = rw bearer at a in cc (rw foreign at b)
          | inl known ↦
              let b = rw bearer at a in
              (by_token-IsTokenOf (bearer_of r) now s p (rw known at b), bearer, known)
        ]
      ]

  -- A request without an Authorization header that is authenticated carries the cookie of a
  -- session that has not expired, and its principal has the name of that session's.
  pub authenticate-IsSessionOf :
      (r : Request) (now : ℕ) (s : Server) (ss : Sessions) (p : Principal)
      → is_empty r.authorization ≡ true
      → (authenticate hash env r now s ss).2 ≡ some p
      → IsSessionOf p ss r.cookie now
  unfolding authenticate
  authenticate-IsSessionOf r now s ss p blank e =
      by_cookie-IsSessionOf r.cookie now ss p (rw blank at e)
