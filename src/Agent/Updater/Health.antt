-- ===== src/Agent/Updater/Health.antt =====
-- internal/agent/update.go: `waitHealthy`.
use spawn_relay.Common.{
  ℕ, zero, suc, ◌+◌, ◌*◌, ◌/◌, ◌≡◌, ◌≤◌, ◌<◌, refl, arith, Bool, true, false, Option, none, some,
  Text, text_eq_iff, ltb, Bool-cases, inl, inr, ap,
}
use spawn_relay.Auth.{second}
use spawn_relay.Agent.Updater.{wait_healthy, answers, rounds, is_healthy, or_false}

-- a probe, begun less than a second behind the deadline, that read the version
pub record IsSeen (version : Text) (deadline : ℕ) (probe : ℕ → ℕ × Option Text) : Type 0 where
  pub at : ℕ
  pub early : at < deadline + second
  pub read : (probe at).1 ≡ some version

answers-some :
    (version : Text) (got : Option Text) → answers version got ≡ true → got ≡ some version
answers-some version none h = cc
answers-some version (some got) h = ap some ((text_eq_iff got version).0 h)

module _ (deadline : ℕ) (version : Text) (probe : ℕ → ℕ × Option Text) where
  wait_healthy-IsSeen :
      (fuel now : ℕ)
      → wait_healthy fuel now deadline version probe ≡ some true
      → IsSeen version deadline probe
  unfolding wait_healthy
  wait_healthy-IsSeen zero now h = cc
  wait_healthy-IsSeen (suc fuel) now h = elim (Bool-cases (ltb now deadline)) [
    | inr late ↦ cc (rw late at h)
    | inl early ↦ elim (Bool-cases (answers version (probe (now + second)).1)) [
      | inl seen ↦ record {
        at = now + second;
        early = ground arith;
        read = answers-some version (probe (now + second)).1 seen;
      }
      | inr other ↦
          wait_healthy-IsSeen fuel (now + second + (probe (now + second)).0)
            (rw early at (rw other at h))
    ]
  ]

  wait_healthy_returns :
      (fuel now : ℕ)
      → deadline ≤ now + fuel * second
      → (b : Bool) × (wait_healthy (suc fuel) now deadline version probe ≡ some b)
  unfolding wait_healthy
  wait_healthy_returns zero now h = (false, ground arith)
  wait_healthy_returns (suc fuel) now h =
      let (b, later) =
        wait_healthy_returns fuel (now + second + (probe (now + second)).0) (omega arith) in
      elim (Bool-cases (ltb now deadline)) [
        | inr late ↦ (false, rw late refl)
        | inl early ↦ elim (Bool-cases (answers version (probe (now + second)).1)) [
          | inl seen ↦ (true, rw early (rw seen refl))
          | inr other ↦ (b, rw early (rw other later))
        ]
      ]

-- `waitHealthy` ends within as many rounds as the timeout has seconds and two more, however long
-- the probes take; and if it reports health, a probe that began less than a second behind the
-- deadline read the version that was waited for.
pub wait_healthy-rounds :
    (timeout now : ℕ) (version : Text) (probe : ℕ → ℕ × Option Text)
    → (b : Bool) × (wait_healthy (rounds timeout) now (now + timeout) version probe ≡ some b)
      × (b ≡ true → IsSeen version (now + timeout) probe)
wait_healthy-rounds timeout now version probe =
    let (b, e) =
      wait_healthy_returns (now + timeout) version probe (suc (timeout / second)) now
        (omega arith) in
    (
      b,
      e,
      λ (h : b ≡ true).
          wait_healthy-IsSeen (now + timeout) version probe (rounds timeout) now (rw h at e),
    )

pub is_healthy-IsSeen :
    (timeout now : ℕ) (version : Text) (probe : ℕ → ℕ × Option Text)
    → is_healthy timeout now version probe ≡ true
    → IsSeen version (now + timeout) probe
unfolding is_healthy
is_healthy-IsSeen timeout now version probe h =
    let (b, e, seen) = wait_healthy-rounds timeout now version probe in seen (rw (e, or_false) at h)
