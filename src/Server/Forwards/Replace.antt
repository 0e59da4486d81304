-- ===== src/Server/Forwards/Replace.antt =====
-- internal/server/api.go: a forward that takes the place of another, and the id of a new one.
use spawn_relay.Common.{
  ℕ, ◌≡◌, ◌∙◌, false, List, [], ◌∷◌, Text, text_eq, text_eq_iff, All, Pairwise, Bool-cases, inl,
  inr, arith,
}
use spawn_relay.Store.{Forward}
use spawn_relay.Store.Conflict.{Separate, clash_comm}
use spawn_relay.Server.Invariant.{IsFit}
use spawn_relay.Server.Forwards.{
  ForwardInput, initial_forward, new_forward, default_name, default_ports, apply_to, replace,
}

pub default_name-id : (f : Forward) → (default_name f).id ≡ f.id
unfolding default_name
default_name-id f = ground arith

pub default_ports-id : (inp : ForwardInput) (f : Forward) → (default_ports inp f).id ≡ f.id
unfolding default_ports
default_ports-id inp f = ground arith

pub new_forward-id : (id : Text) (now : ℕ) (inp : ForwardInput) → (new_forward id now inp).id ≡ id
unfolding new_forward
new_forward-id id now inp = ground (
  arith,
  default_name-id (default_ports inp (apply_to inp (initial_forward id now))),
  default_ports-id inp (apply_to inp (initial_forward id now)),
)

pub All-replace {ℓ} :
    (P : Forward → Type ℓ) (next : Forward) (fs : List Forward)
    → P next
    → All P fs
    → All P (replace next fs)
All-replace P next [] p h = tt
All-replace P next (f ∷ fs) p h = elim (Bool-cases (text_eq f.id next.id)) [
  | inl here ↦ rw here (p, h.1)
  | inr other ↦ rw other (h.0, All-replace P next fs p h.1)
]

pub Pairwise-replace :
    (next : Forward) (fs : List Forward)
    → IsFit next fs
    → Pairwise Separate fs
    → Pairwise Separate (replace next fs)
Pairwise-replace next [] fit p = tt
Pairwise-replace next (f ∷ fs) fit p = elim (Bool-cases (text_eq f.id next.id)) [
  | inl here ↦ rw here (apart ((text_eq_iff f.id next.id).0 here) fs fit.1 p.0, p.1)
  | inr other ↦ rw other (
    All-replace (Separate f) next fs (other, clash_comm f next ∙ fit.0 other) p.0,
    Pairwise-replace next fs fit.1 p.1,
  )
]
  where
    apart :
        f.id ≡ next.id
        → (xs : List Forward) → IsFit next xs
        → All (Separate f) xs
        → All (Separate next) xs
    apart e [] k q = tt
    apart e (x ∷ xs) k q =
        let ids : text_eq x.id next.id ≡ false =
          ground (arith, text_eq_iff x.id next.id, text_eq_iff f.id x.id, q.0.0) in
        (
          (ground (arith, text_eq_iff x.id next.id, text_eq_iff next.id x.id, ids), k.0 ids),
          apart e xs k.1 q.1,
        )
