-- ===== src/Backend/Keys.antt =====
-- internal/firewall/firewall.go: lists of rules with distinct keys, and the states recorded for them.
use spawn_relay.Common.{
  text_eq_comm, ℕ, ◌++◌, codes, scan, scan-itoa, ◌≡◌, ◌∙◌, sym, refl, arith, ap, Bool, true, false,
  ◌&&◌, List, [], ◌∷◌, some, Text, text_eq, lookup, put, lookup-put, lookup-put-other, any, All,
  All-map, All-zip, Pairwise,
}
use spawn_relay.Firewall.{Rule}
use spawn_relay.Backend.{key, RuleState, States}

key-scan : (r : Rule) → scan 0 (key r) ≡ (r.port, b'/' ∷ r.proto)
unfolding key
key-scan r = scan-itoa r.port (codes "/" ++ r.proto)

pub key-injective : (a b : Rule) → key a ≡ key b → (a.port ≡ b.port) × (a.proto ≡ b.proto)
key-injective a b e =
    let same : (a.port, b'/' ∷ a.proto) ≡ (b.port, b'/' ∷ b.proto) =
      sym (key-scan a) ∙ ap (scan 0) e ∙ key-scan b in
    (ap (λ (p : ℕ × Text). p.0) same, ap (λ (p : ℕ × Text). tail p.1) same)
  where
    tail : Text → Text
    tail [] = []
    tail (c ∷ s) = s

-- two rules with different keys
abbrev pub Distinct : Rule → Rule → Type 0
Distinct a b = text_eq (key a) (key b) ≡ false

pub Distinct-symm : (a b : Rule) → Distinct a b → Distinct b a
Distinct-symm a b h = text_eq_comm (key b) (key a) ∙ h

-- `res.set` in a loop
abbrev pub record_all : (Rule → RuleState) → List Rule → States → States
record_all f [] res = res
record_all f (w ∷ ws) res = record_all f ws (put (key w) (f w) res)

module _ (f : Rule → RuleState) where
  lookup-record_all-other :
      (k : Text) (ws : List Rule) (res : States)
      → All (λ w. text_eq k (key w) ≡ false) ws
      → lookup k (record_all f ws res) ≡ lookup k res
  lookup-record_all-other k [] res h = refl
  lookup-record_all-other k (w ∷ ws) res h =
      lookup-record_all-other k ws (put (key w) (f w) res) h.1
      ∙ lookup-put-other (key w) k (f w) res (text_eq_comm (key w) k ∙ h.0)

  pub lookup-record_all :
      (ws : List Rule) (res : States)
      → Pairwise Distinct ws
      → All (λ w. lookup (key w) (record_all f ws res) ≡ some (f w)) ws
  lookup-record_all [] res p = tt
  lookup-record_all (w ∷ ws) res p = (
    lookup-record_all-other (key w) ws (put (key w) (f w) res) p.0 ∙ lookup-put (key w) (f w) res,
    lookup-record_all ws (put (key w) (f w) res) p.1,
  )

pub any_of :
    {A : Type 0} (xs : List A) → All (λ x. (p : A → Bool) → p x ≡ true → any p xs ≡ true) xs
any_of [] = tt
any_of {A} (x ∷ xs) = (
  λ p e. ground arith,
  All-map (λ (y : A). (p : A → Bool) → p y ≡ true → any p xs ≡ true)
      (λ (y : A). (p : A → Bool) → p y ≡ true → any p (x ∷ xs) ≡ true) xs
      (λ y h p e. ground (arith, h p e)) (any_of xs),
)

none-with :
    (k : Text) (q : Rule → Bool) (ws : List Rule)
    → All (λ w. text_eq k (key w) ≡ false) ws
    → any (λ w. text_eq (key w) k && q w) ws ≡ false
none-with k q [] h = refl
none-with k q (w ∷ ws) h = ground (arith, text_eq_comm k (key w), h.0, none-with k q ws h.1)

-- Where keys are distinct, a test that fails for one rule fails for all with its key.
pub any-key :
    (ws : List Rule)
    → Pairwise Distinct ws
    → All
        (λ w.
          (q : Rule → Bool) → q w ≡ false → any (λ o. text_eq (key o) (key w) && q o) ws ≡ false)
        ws
any-key [] p = tt
any-key (w ∷ ws) p = (
  λ q e. ground (arith, none-with (key w) q ws p.0),
  All-map
      (λ (o : Rule).
        Distinct w o
        × ((q : Rule → Bool) → q o ≡ false → any (λ x. text_eq (key x) (key o) && q x) ws ≡ false))
      (λ (o : Rule).
        (q : Rule → Bool)
        → q o ≡ false
        → any (λ x. text_eq (key x) (key o) && q x) (w ∷ ws) ≡ false)
      ws (λ o h q e. ground (arith, h.0, h.1 q e))
      (All-zip (Distinct w)
        (λ (o : Rule).
          (q : Rule → Bool) → q o ≡ false → any (λ x. text_eq (key x) (key o) && q x) ws ≡ false)
        ws p.0 (any-key ws p.1)),
)
