-- ===== src/Auth/Guard.antt =====
-- internal/server/auth.go: `guard` and `sameOrigin`.
use spawn_relay.Common.{
  ℕ, ◌≡◌, ◌↔◌, Bool, true, false, not, ◌&&◌, ◌||◌, [], ◌∷◌, Option, none, some, Text, codes,
  text_eq, is_empty, if◌then◌else◌, map, arith,
}
use spawn_relay.Auth.{Kind, session, token, Principal, Request}

-- what `guard` does with a request: answer with a status, or call the handler
pub data Verdict : Type 0 where
  rejected : ℕ → Verdict
  admitted : Principal → Verdict

-- `strings.TrimPrefix`
trim_prefix : Text → Text → Text → Text
trim_prefix whole [] s = s
trim_prefix whole (p ∷ ps) [] = whole
trim_prefix whole (p ∷ ps) (c ∷ s) =
    let rest = trim_prefix whole ps s in if text_eq (p ∷ []) (c ∷ []) then rest else whole

abbrev is_session : Kind → Bool
is_session session = true
is_session token = false

-- `fold` is that of `Server.Clients`
module _ (fold : ℕ → ℕ) where
  -- `sameOrigin`
  unfoldable pub same_origin : Request → Bool
  unfolding trim_prefix
  same_origin r =
      if not (is_empty r.sec_fetch_site)
      then text_eq r.sec_fetch_site (codes "same-origin") || text_eq r.sec_fetch_site (codes "none")
      else if is_empty r.origin
      then true
      else let a = trim_prefix r.origin (codes "https://") r.origin in
        text_eq (map fold (trim_prefix a (codes "http://") a)) (map fold r.host)

  abbrev pub is_safe_method : Text → Bool
  is_safe_method m = text_eq m (codes "GET") || text_eq m (codes "HEAD")

  -- `guard`, on the principal that `authenticate` returned
  unfoldable pub guard : Bool → Request → Option Principal → Verdict
  guard session_only r none = rejected 401
  guard session_only r (some p) =
      if session_only && not (is_session p.kind)
      then rejected 403
      else if is_session p.kind && not (is_safe_method r.method) && not (same_origin r)
      then rejected 403
      else admitted p

  -- A handler runs exactly for an authenticated principal, which is a browser session where the
  -- endpoint wants one, and which, as a browser session, sends anything but GET and HEAD from
  -- the same origin.
  pub guard_admits_iff :
      (session_only : Bool) (r : Request) (o : Option Principal) (p : Principal)
      → (guard session_only r o ≡ admitted p) ↔ (
          (o ≡ some p)
          × (session_only ≡ true → p.kind ≡ session)
          × (p.kind ≡ session → is_safe_method r.method ≡ false → same_origin r ≡ true))
  unfolding guard
  guard_admits_iff session_only r none p = (λ e. cc, λ (e, _, _). cc)
  guard_admits_iff session_only r (some q) p =
      (λ e. (ground arith, ground arith, ground arith), λ (e, h, k). ground arith)
