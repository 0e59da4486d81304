-- ===== src/Store/Conflict.antt =====
-- internal/store/store.go: `PortConflict`.
use spawn_relay.Common.{
  ◌≡◌, Bool, false, not, ◌&&◌, List, [], ◌∷◌, none, text_eq, arith, All, All-map, find-none, keep,
  Pairwise, All-keep, Bool-cases, inl, inr,
}
use spawn_relay.Store.{State, Forward, clash, port_conflict}

-- Two forwards have different ids, and no socket in common.
abbrev pub Separate : Forward → Forward → Type 0
Separate a b = (text_eq a.id b.id ≡ false) × (clash a b ≡ false)

pub clash_comm : (a b : Forward) → clash a b ≡ clash b a
unfolding clash
clash_comm a b = ground arith

pub port_conflict-none :
    (st : State) (f : Forward)
    → port_conflict st f ≡ none
    → All (λ o. text_eq o.id f.id ≡ false → clash f o ≡ false) st.forwards
unfolding port_conflict
port_conflict-none st f e =
    All-map (λ o. (not (text_eq o.id f.id) && clash f o) ≡ false)
      (λ o. text_eq o.id f.id ≡ false → clash f o ≡ false) st.forwards (λ o h other. ground arith)
      (find-none (λ o. not (text_eq o.id f.id) && clash f o) st.forwards e)

pub Pairwise-keep {ℓ κ} :
    {A : Type ℓ} (R : A → A → Type κ) (p : A → Bool) (xs : List A)
    → Pairwise R xs
    → Pairwise R (keep p xs)
Pairwise-keep R p [] h = tt
Pairwise-keep R p (x ∷ xs) h = elim (Bool-cases (p x)) [
  | inl e ↦ rw e (All-keep (R x) p xs h.0, Pairwise-keep R p xs h.1)
  | inr e ↦ rw e (Pairwise-keep R p xs h.1)
]
