-- ===== src/Client/Retry.antt =====
-- internal/client/client.go: the delays of `Run` between its attempts. An attempt is what `runOnce` did:
-- whether it reached the server's welcome, and whether it was rejected. Times are nanoseconds.
use spawn_relay.Common.{
  ℕ, ◌*◌, ◌≡◌, ◌≤◌, ◌⊎◌, inl, inr, refl, arith, Bool, true, false, List, [], ◌∷◌, All, All-map, ltb,
  if◌then◌else◌,
}
use spawn_relay.Auth.{second}

pub record Attempt : Type 0 where
  pub connected : Bool
  pub rejected : Bool

-- the delay behind an attempt
abbrev pub delay_after : ℕ → Attempt → ℕ
delay_after backoff a = if a.rejected then 30 * second else if a.connected then second else backoff

-- what the loop makes of a delay that is over
abbrev pub grow : ℕ → ℕ
grow backoff = if ltb backoff (30 * second) then backoff * 2 else backoff

-- the loop: the delays, from the backoff before
unfoldable pub delays : ℕ → List Attempt → List ℕ
delays backoff [] = []
delays backoff (a ∷ attempts) =
    let wait = delay_after backoff a in wait ∷ delays (grow wait) attempts

-- the delays of `Run`
unfoldable pub run : List Attempt → List ℕ
unfolding delays
run attempts = delays second attempts

-- a delay that the loop can have: a power of two below 32 seconds and that, or half a minute
abbrev pub IsDelay : ℕ → Type 0
IsDelay t =
    (t ≡ second)
    ⊎ (t ≡ 2 * second)
    ⊎ (t ≡ 4 * second)
    ⊎ (t ≡ 8 * second)
    ⊎ (t ≡ 16 * second)
    ⊎ (t ≡ 32 * second)
    ⊎ (t ≡ 30 * second)

grow-IsDelay : (t : ℕ) → IsDelay t → IsDelay (grow t)
grow-IsDelay t (inl e) = inr (inl (ground arith))
grow-IsDelay t (inr (inl e)) = inr (inr (inl (ground arith)))
grow-IsDelay t (inr (inr (inl e))) = inr (inr (inr (inl (ground arith))))
grow-IsDelay t (inr (inr (inr (inl e)))) = inr (inr (inr (inr (inl (ground arith)))))
grow-IsDelay t (inr (inr (inr (inr (inl e))))) = inr (inr (inr (inr (inr (inl (ground arith))))))
grow-IsDelay t (inr (inr (inr (inr (inr (inl e)))))) =
    inr (inr (inr (inr (inr (inl (ground arith))))))
grow-IsDelay t (inr (inr (inr (inr (inr (inr e)))))) =
    inr (inr (inr (inr (inr (inr (ground arith))))))

delay_after-IsDelay : (t : ℕ) (a : Attempt) → IsDelay t → IsDelay (delay_after t a)
delay_after-IsDelay t a h = pick a.rejected a.connected
  where
    pick : (r c : Bool) → IsDelay (if r then 30 * second else if c then second else t)
    pick true c = inr (inr (inr (inr (inr (inr refl)))))
    pick false true = inl refl
    pick false false = h

delays-IsDelay : (t : ℕ) (attempts : List Attempt) → IsDelay t → All IsDelay (delays t attempts)
unfolding delays
delays-IsDelay t [] h = tt
delays-IsDelay t (a ∷ attempts) h =
    let k = delay_after-IsDelay t a h in
    (k, delays-IsDelay (grow (delay_after t a)) attempts (grow-IsDelay (delay_after t a) k))

IsDelay-bounds : (t : ℕ) → IsDelay t → (second ≤ t) × (t ≤ 32 * second)
IsDelay-bounds t h = (ground arith, ground arith)

-- Every delay between two attempts of the client to connect is at least one second and at most 32
-- seconds, whatever the attempts do.
pub run-bounds :
    (attempts : List Attempt) → All (λ t. (second ≤ t) × (t ≤ 32 * second)) (run attempts)
unfolding run
run-bounds attempts =
    All-map IsDelay (λ t. (second ≤ t) × (t ≤ 32 * second)) (delays second attempts) IsDelay-bounds
      (delays-IsDelay second attempts (inl refl))
