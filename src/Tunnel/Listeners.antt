-- ===== src/Tunnel/Listeners.antt =====
-- internal/server/tunnel.go: `Apply`.
use spawn_relay.Common.{
  ℕ, ◌≡◌, refl, Bool, true, false, ◌∷◌, Option, none, some, Text, text_eq, text_eq_iff,
  text_eq_refl, arith, Bool-cases, inl, inr,
}
use spawn_relay.Store.{Forward, same}
use spawn_relay.Tunnel.{Kind, BindError, Runners, running, stop, apply}
use spawn_relay.Tunnel.Apply.{
  running-All, running-stop_self, running-stop_ne, IsBound, stop-IsBound, cons-IsBound, stop-other,
  Outcome, unchanged, stopped, started, refused, restored, apply-Outcome,
}

pub same_refl : (f : Forward) → same f f ≡ true
unfolding same
same_refl f =
    ground (arith, text_eq_refl f.client_id, text_eq_refl f.protocol, text_eq_refl f.target_host)

pub same-enabled : (o f : Forward) → same o f ≡ true → o.enabled ≡ f.enabled
unfolding same
same-enabled o f h = ground arith

-- What `rs'` serves after the forward was applied to `rs`.
pub record Serves (rs rs' : Runners) (f : Forward) : Type 0 where
  pub on : f.enabled ≡ true → (r : Forward) × (running f.id rs' ≡ some r) × (same r f ≡ true)
  pub off : f.enabled ≡ false → running f.id rs' ≡ none
  pub others : (j : Text) → text_eq f.id j ≡ false → running j rs' ≡ running j rs

module _ (busy : Kind → ℕ → Bool) where
  Outcome-IsBound :
      (rs : Runners) (f : Forward) (res : Runners × Option BindError)
      → IsBound busy rs
      → Outcome busy rs f res
      → IsBound busy res.0
  Outcome-IsBound rs f res b (unchanged o e s r) = rw r b
  Outcome-IsBound rs f res b (stopped off r) = rw r (stop-IsBound busy f.id rs b)
  Outcome-IsBound rs f res b (started on s r) = rw r (
      cons-IsBound busy f (stop f.id rs) (stop-IsBound busy f.id rs b) on (stop-other busy f.id rs)
        s)
  Outcome-IsBound rs f res b (refused e on s old r) = rw r b
  Outcome-IsBound rs f res b (restored o e on s old back r) =
      let (enabled, same_id) = running-All (λ x. x.enabled ≡ true) f.id rs b.enabled old in
      rw r (
        cons-IsBound busy o (stop f.id rs) (stop-IsBound busy f.id rs b) enabled
          (rw ((text_eq_iff o.id f.id).0 same_id) (stop-other busy f.id rs)) back)

  -- `Apply` keeps the listeners bound: each enabled, of a forward of its own, on sockets that
  -- no other process and no other listener holds, whether it succeeds or fails.
  pub apply-IsBound :
      (rs : Runners) (f : Forward) → IsBound busy rs → IsBound busy (apply busy rs f).0
  apply-IsBound rs f b = Outcome-IsBound rs f (apply busy rs f) b (apply-Outcome busy rs f b)

  running-cons_self :
      (f : Forward) (rs : Runners) (j : Text) → text_eq f.id j ≡ true → running j (f ∷ rs) ≡ some f
  running-cons_self f rs j h = ground arith

  Outcome-Serves :
      (rs : Runners) (f : Forward) (res : Runners × Option BindError)
      → IsBound busy rs
      → Outcome busy rs f res
      → res.1 ≡ none
      → Serves rs res.0 f
  Outcome-Serves rs f res b (unchanged o e s r) n =
      let (on, _) = running-All (λ x. x.enabled ≡ true) f.id rs b.enabled e in
      rw r (record {
        on = λ _. (o, e, s);
        off = λ off. cc (on, off, same-enabled o f s);
        others = λ j h. refl;
      })
  Outcome-Serves rs f res b (stopped off r) n = rw r (record {
    on = λ on. cc (on, off);
    off = λ _. running-stop_self f.id rs;
    others = λ j h. running-stop_ne f.id j rs h;
  })
  Outcome-Serves rs f res b (started on s r) n = rw r (record {
    on = λ _. (f, running-cons_self f (stop f.id rs) f.id (text_eq_refl f.id), same_refl f);
    off = λ off. cc (on, off);
    others = λ j h. ground (arith, running-stop_ne f.id j rs h);
  })
  Outcome-Serves rs f res b (refused e on s old r) n = cc (r, n)
  Outcome-Serves rs f res b (restored o e on s old back r) n = cc (r, n)

  -- When the listeners are bound and `Apply` reports no error, an enabled forward is served by
  -- a listener with its settings, a disabled one by none, and the listeners of the other
  -- forwards are untouched.
  pub apply-Serves :
      (rs : Runners) (f : Forward)
      → IsBound busy rs
      → (apply busy rs f).1 ≡ none
      → Serves rs (apply busy rs f).0 f
  apply-Serves rs f b = Outcome-Serves rs f (apply busy rs f) b (apply-Outcome busy rs f b)

  Outcome-failed :
      (rs : Runners) (f : Forward) (res : Runners × Option BindError) (e : BindError) (j : Text)
      → Outcome busy rs f res
      → res.1 ≡ some e
      → IsBound busy rs
      → running j res.0 ≡ running j rs
  Outcome-failed rs f res e j (unchanged o d s r) n b = cc (r, n)
  Outcome-failed rs f res e j (stopped off r) n b = cc (r, n)
  Outcome-failed rs f res e j (started on s r) n b = cc (r, n)
  Outcome-failed rs f res e j (refused d on s old r) n b = rw r
  Outcome-failed rs f res e j (restored o d on s old back r) n b =
      let same_id =
        (text_eq_iff o.id f.id).0 (running-All (λ x. x.enabled ≡ true) f.id rs b.enabled old).1 in
      elim (Bool-cases (text_eq f.id j)) [
        | inl here ↦ rw (r) (ground (arith, text_eq_iff f.id j, same_id))
        | inr other ↦ rw r (ground (arith, running-stop_ne f.id j rs other, same_id))
      ]

  -- When the listeners are bound and `Apply` reports an error, every listener, that of the
  -- forward included, is as it was.
  pub apply_failed :
      (rs : Runners) (f : Forward) (e : BindError) (j : Text)
      → IsBound busy rs
      → (apply busy rs f).1 ≡ some e
      → running j (apply busy rs f).0 ≡ running j rs
  apply_failed rs f e j b n =
      Outcome-failed rs f (apply busy rs f) e j (apply-Outcome busy rs f b) n b
