-- ===== src/Tunnel/Start.antt =====
-- internal/server/tunnel.go: `start`.
use spawn_relay.Common.{ℕ, ◌==◌, ◌≡◌, ◌↔◌, Bool, false, ◌&&◌, ◌||◌, [], ◌∷◌, none, arith, any, All}
use spawn_relay.Store.{Forward, has_tcp, has_udp, clash}
use spawn_relay.Tunnel.{Kind, tcp, udp, Runners, uses, start}

-- no running listener has a socket of `f`
abbrev pub IsFree : Forward → Runners → Type 0
IsFree f rs = All (λ r. clash f r ≡ false) rs

module _ (busy : Kind → ℕ → Bool) where
  -- no other process holds a socket of `f`
  abbrev pub IsIdle : Forward → Type 0
  IsIdle f = (has_tcp f && busy tcp f.public_port || has_udp f && busy udp f.public_port) ≡ false

  any-IsFree :
      (f : Forward) (k : Kind) (rs : Runners)
      → IsFree f rs
      → (uses k f && any (λ r. uses k r && r.public_port == f.public_port) rs) ≡ false
  unfolding clash
  any-IsFree f k [] h = ground arith
  any-IsFree f tcp (r ∷ rs) h = ground (arith, any-IsFree f tcp rs h.1)
  any-IsFree f udp (r ∷ rs) h = ground (arith, any-IsFree f udp rs h.1)

  IsFree-any :
      (f : Forward) (rs : Runners)
      → (uses tcp f && any (λ r. uses tcp r && r.public_port == f.public_port) rs) ≡ false
      → (uses udp f && any (λ r. uses udp r && r.public_port == f.public_port) rs) ≡ false
      → IsFree f rs
  unfolding clash
  IsFree-any f [] h k = tt
  IsFree-any f (r ∷ rs) h k = (ground arith, IsFree-any f rs (ground arith) (ground arith))

  -- A listener starts exactly when no other process and no listener of this one holds a socket
  -- that it needs.
  pub start_iff : (rs : Runners) (f : Forward) → (start busy rs f ≡ none) ↔ (IsIdle f × IsFree f rs)
  unfolding start
  start_iff rs f = (
    λ h. (ground arith, IsFree-any f rs (ground arith) (ground arith)),
    λ (i, h). ground (arith, any-IsFree f tcp rs h, any-IsFree f udp rs h),
  )
