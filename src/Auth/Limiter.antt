-- ===== src/Auth/Limiter.antt =====
-- internal/server/auth.go: `loginLimiter`, and a log of the calls on it.
use spawn_relay.Common.{
  ℕ, ◌≤◌, ◌≡◌, ◌∙◌, refl, sym, ap, List, [], ◌∷◌, ◌++◌, Text, text_eq, text_eq_iff, leb, length,
  Bool-cases, inl, inr, arith,
}
use spawn_relay.Auth.{Failures, put, recent_of, blocked, fail, reset, login_max_failures}

-- The calls on the limiter, with their times.
pub data Call : Type 0 where
  failed : Text → ℕ → Call
  succeeded : Text → Call
  asked : Text → ℕ → Call

-- the limiter behind a call
pub step : Call → Failures → Failures
step (failed ip t) l = fail ip t l
step (succeeded ip) l = reset ip l
step (asked ip t) l = (blocked ip t l).0

unfoldable pub run : List Call → Failures → Failures
unfolding step
run [] l = l
run (c ∷ cs) l = run cs (step c l)

-- the specification: all failures since the last success
unfoldable pub log : List Call → Failures → Failures
log [] l = l
log (failed ip t ∷ cs) l = log cs (put ip (l ip ++ t ∷ []) l)
log (succeeded ip ∷ cs) l = log cs (put ip [] l)
log (asked ip t ∷ cs) l = log cs l

-- The clock does not run backwards: no call is before `now`, and the last is at `then` or before.
abbrev pub IsTimely : ℕ → List Call → ℕ → Type 0
IsTimely now [] last = now ≤ last
IsTimely now (failed ip t ∷ cs) last = (now ≤ t) × IsTimely t cs last
IsTimely now (succeeded ip ∷ cs) last = IsTimely now cs last
IsTimely now (asked ip t ∷ cs) last = (now ≤ t) × IsTimely t cs last

-- the two agree on every failure that still counts, now and later
abbrev Agrees : ℕ → Failures → Failures → Type 0
Agrees now l spec =
    (ip : Text) (later : ℕ) → now ≤ later → recent_of later (l ip) ≡ recent_of later (spec ip)

recent_of-recent_of :
    (now later : ℕ) (ts : List ℕ)
    → now ≤ later
    → recent_of later (recent_of now ts) ≡ recent_of later ts
recent_of-recent_of now later [] h = refl
recent_of-recent_of now later (t ∷ ts) h = ground (arith, recent_of-recent_of now later ts h)

recent_of-append :
    (now : ℕ) (ts us : List ℕ) → recent_of now (ts ++ us) ≡ recent_of now ts ++ recent_of now us
recent_of-append now [] us = refl
recent_of-append now (t ∷ ts) us = ground (arith, recent_of-append now ts us)

Agrees-le : (now t : ℕ) (l spec : Failures) → now ≤ t → Agrees now l spec → Agrees t l spec
Agrees-le now t l spec h a ip later le = a ip later (omega arith)

Agrees-fail :
    (t : ℕ) (ip : Text) (l spec : Failures)
    → Agrees t l spec
    → Agrees t (fail ip t l) (put ip (spec ip ++ t ∷ []) spec)
unfolding fail
Agrees-fail t ip l spec a j later le = elim (Bool-cases (text_eq ip j)) [
  | inr other ↦ simp other (a j later le)
  | inl here ↦ simp here (
      recent_of-append later (recent_of t (l ip)) (t ∷ [])
      ∙ ap (λ ts. ts ++ recent_of later (t ∷ []))
          (recent_of-recent_of t later (l ip) le ∙ a ip later le)
      ∙ sym (recent_of-append later (spec ip) (t ∷ [])))
]

Agrees-blocked :
    (t : ℕ) (ip : Text) (l spec : Failures) → Agrees t l spec → Agrees t (blocked ip t l).0 spec
unfolding blocked
Agrees-blocked t ip l spec a j later le = elim (Bool-cases (text_eq ip j)) [
  | inr other ↦ simp other (a j later le)
  | inl here ↦
      simp here
        (rw ((text_eq_iff ip j).0 here) (recent_of-recent_of t later (l j) le ∙ a j later le))
]

Agrees-reset :
    (t : ℕ) (ip : Text) (l spec : Failures)
    → Agrees t l spec
    → Agrees t (reset ip l) (put ip [] spec)
unfolding reset
Agrees-reset t ip l spec a j later le = elim (Bool-cases (text_eq ip j)) [
  | inr other ↦ simp other (a j later le)
  | inl here ↦ simp here
]

run-Agrees :
    (now last : ℕ) (cs : List Call) (l spec : Failures)
    → IsTimely now cs last
    → Agrees now l spec
    → Agrees last (run cs l) (log cs spec)
unfolding run log
run-Agrees now last [] l spec h a = Agrees-le now last l spec h a
run-Agrees now last (failed ip t ∷ cs) l spec h a =
    run-Agrees t last cs (fail ip t l) (put ip (spec ip ++ t ∷ []) spec) h.1
      (Agrees-fail t ip l spec (Agrees-le now t l spec h.0 a))
run-Agrees now last (succeeded ip ∷ cs) l spec h a =
    run-Agrees now last cs (reset ip l) (put ip [] spec) h (Agrees-reset now ip l spec a)
run-Agrees now last (asked ip t ∷ cs) l spec h a =
    run-Agrees t last cs (blocked ip t l).0 spec h.1
      (Agrees-blocked t ip l spec (Agrees-le now t l spec h.0 a))

abbrev pub no_failures : Failures
no_failures ip = []

-- Whatever calls came before, at times that do not run backwards, the limiter blocks an address
-- exactly when the log of all its failures since its last success holds at least five that are
-- less than fifteen minutes old: the pruning of old failures changes no answer.
pub blocked-run :
    (cs : List Call) (ip : Text) (now : ℕ)
    → IsTimely 0 cs now
    → (blocked ip now (run cs no_failures)).1
      ≡ leb login_max_failures (length (recent_of now (log cs no_failures ip)))
unfolding blocked
blocked-run cs ip now h =
    ap (λ ts. leb login_max_failures (length ts))
      (run-Agrees 0 now cs no_failures no_failures h (λ j later le. refl) ip now (omega arith))
