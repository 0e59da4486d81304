-- ===== src/Server/Clients/Invariant.antt =====
-- internal/server/api.go: lemmas on the list of clients.
use spawn_relay.Common.{
  ℕ, ◌≡◌, Bool, true, false, List, [], ◌∷◌, ◌++◌, some, Text, text_eq, text_eq_iff, keep, map, find,
  All, Pairwise, Bool-cases, inl, inr, arith,
}
use spawn_relay.Store.{Client}
use spawn_relay.Server.Clients.{change_client, equal_fold}

pub find-append :
    {A : Type 0} (p : A → Bool) (xs ys : List A) {x : A}
    → find p xs ≡ some x
    → find p (xs ++ ys) ≡ some x
find-append p [] ys e = cc
find-append p (y ∷ xs) ys e = elim (Bool-cases (p y)) [
  | inl hit ↦ rw hit (rw hit at e)
  | inr miss ↦ rw miss (find-append p xs ys (rw miss at e))
]

pub find-keep :
    {A : Type 0} (p q : A → Bool) (xs : List A) {x : A}
    → ((y : A) → p y ≡ true → q y ≡ true)
    → find p xs ≡ some x
    → find p (keep q xs) ≡ some x
find-keep p q [] sub e = cc
find-keep p q (y ∷ xs) sub e = elim (Bool-cases (p y)) [
  | inl hit ↦ rw (sub y hit) (rw hit (rw hit at e))
  | inr miss ↦ elim (Bool-cases (q y)) [
    | inl stays ↦ rw stays (rw miss (find-keep p q xs sub (rw miss at e)))
    | inr goes ↦ rw goes (find-keep p q xs sub (rw miss at e))
  ]
]

pub find-change_client :
    (id key : Text) (f : Client → Client) (cs : List Client) {c : Client}
    → ((x : Client) → (f x).id ≡ x.id)
    → find (λ c. text_eq c.id key) cs ≡ some c
    → (d : Client) × (find (λ c. text_eq c.id key) (change_client id f cs) ≡ some d)
unfolding change_client
find-change_client id key f [] same e = cc
find-change_client id key f (x ∷ cs) {c} same e = elim (Bool-cases (text_eq x.id id)) [
  | inl here ↦ elim (Bool-cases (text_eq x.id key)) [
    | inl hit ↦ (f x, simp (here, same, hit))
    | inr miss ↦ (c, simp (here, same, miss) (rw miss at e))
  ]
  | inr other ↦ elim (Bool-cases (text_eq x.id key)) [
    | inl hit ↦ (x, simp (other, hit))
    | inr miss ↦
        let (d, found) = find-change_client id key f cs same (rw miss at e) in
        (d, simp (other, miss) found)
  ]
]

module _ (fold : ℕ → ℕ) where
  -- Two clients have different ids, and names that differ in more than case.
  abbrev pub Distinct : Client → Client → Type 0
  Distinct a b = (text_eq a.id b.id ≡ false) × (equal_fold fold a.name b.name ≡ false)

  pub Distinct-symm : (a b : Client) → Distinct a b → Distinct b a
  Distinct-symm a b (i, n) = (
    ground (arith, text_eq_iff a.id b.id, text_eq_iff b.id a.id, i),
    ground (
      arith,
      text_eq_iff (map fold a.name) (map fold b.name),
      text_eq_iff (map fold b.name) (map fold a.name),
      n,
    ),
  )

  All-change_client :
      (P : Client → Type 0) (id : Text) (f : Client → Client) (cs : List Client)
      → ((c : Client) → P c → P (f c))
      → All P cs
      → All P (change_client id f cs)
  unfolding change_client
  All-change_client P id f [] step h = tt
  All-change_client P id f (c ∷ cs) step h = elim (Bool-cases (text_eq c.id id)) [
    | inl here ↦ simp here (step c h.0, h.1)
    | inr other ↦ simp other (h.0, All-change_client P id f cs step h.1)
  ]

  -- the change keeps the client apart from those with another id
  abbrev pub IsTame : Text → (Client → Client) → List Client → Type 0
  IsTame id f cs =
      (c : Client)
      → text_eq c.id id ≡ true
      → All (λ o. text_eq o.id id ≡ false → Distinct c o → Distinct (f c) o) cs

  pub Pairwise-change_client :
      (id : Text) (f : Client → Client) (cs : List Client)
      → IsTame id f cs
      → Pairwise Distinct cs
      → Pairwise Distinct (change_client id f cs)
  unfolding change_client
  Pairwise-change_client id f [] tame p = tt
  Pairwise-change_client id f (c ∷ cs) tame p = elim (Bool-cases (text_eq c.id id)) [
    | inl here ↦ simp here (apart here cs (tame c here).1 p.0, p.1)
    | inr other ↦ simp other (
      moved other cs (λ x e. (tame x e).1) (λ x e. (tame x e).0 other) p.0,
      Pairwise-change_client id f cs (λ x e. (tame x e).1) p.1,
    )
  ]
    where
      apart :
          text_eq c.id id ≡ true
          → (xs : List Client)
          → All (λ o. text_eq o.id id ≡ false → Distinct c o → Distinct (f c) o) xs
          → All (Distinct c) xs
          → All (Distinct (f c)) xs
      apart e [] h q = tt
      apart e (x ∷ xs) h q = (
        h.0 (ground (arith, text_eq_iff c.id id, text_eq_iff x.id id, text_eq_iff c.id x.id, q.0.0))
            q.0,
        apart e xs h.1 q.1,
      )

      moved :
          text_eq c.id id ≡ false
          → (xs : List Client) → IsTame id f xs
          → ((x : Client) → text_eq x.id id ≡ true → Distinct x c → Distinct (f x) c)
          → All (Distinct c) xs
          → All (Distinct c) (change_client id f xs)
      moved e [] t m q = tt
      moved e (x ∷ xs) t m q = elim (Bool-cases (text_eq x.id id)) [
        | inl here ↦ simp here (Distinct-symm (f x) c (m x here (Distinct-symm c x q.0)), q.1)
        | inr other ↦ simp other (q.0, moved e xs (λ y d. (t y d).1) m q.1)
      ]
