-- ===== src/Backend/Desired.antt =====
-- internal/firewall/firewall.go and internal/server/firewall.go: the rules of `desired` are valid and have
-- distinct keys.
use spawn_relay.Common.{
  ℕ, ◌==◌, ◌≡◌, ◌∙◌, ◌⊎◌, refl, arith, ap, Bool, true, false, ◌&&◌, ◌||◌, List, [], ◌∷◌, ◌++◌, none,
  Text, text_eq, text_eq_iff, ltb, All, All-append, All-map, All-zip, Pairwise, Bool-cases,
  Option-cases, inl, inr, if◌then◌else◌,
}
use spawn_relay.Store.{State, Forward, clash, has_tcp, has_udp, proto_tcp, proto_udp}
use spawn_relay.Store.Conflict.{Separate}
use spawn_relay.Store.Validate.{validate, validate_fields, validate_name}
use spawn_relay.Firewall.{Rule, rule_tunnel, rule_admin, forward_rules, all_rules, desired}
use spawn_relay.Backend.{key, valid_id, validate_rule}
use spawn_relay.Backend.Keys.{Distinct, key-injective}
use spawn_relay.Server.{Env, is_reserved}
use spawn_relay.Server.Invariant.{IsStored, IsAllowed}

Pairwise-append {ℓ κ} :
    {A : Type ℓ} (R : A → A → Type κ) (xs ys : List A)
    → Pairwise R xs
    → Pairwise R ys
    → All (λ x. All (R x) ys) xs
    → Pairwise R (xs ++ ys)
Pairwise-append R [] ys p q c = q
Pairwise-append R (x ∷ xs) ys p q c =
    (All-append (R x) xs ys p.0 c.0, Pairwise-append R xs ys p.1 q c.1)

different-Distinct :
    (a b : Rule) → (a.port == b.port && text_eq a.proto b.proto) ≡ false → Distinct a b
different-Distinct a b h = elim (Bool-cases (text_eq (key a) (key b))) [
  | inr e ↦ e
  | inl e ↦
      let (p, q) = key-injective a b ((text_eq_iff (key a) (key b)).0 e) in
      absurd (ground (arith, p, (text_eq_iff a.proto b.proto).1 q))
]

-- a rule for a socket that the forward needs
record IsFor (f : Forward) (r : Rule) : Type 0 where
  port : r.port ≡ f.public_port
  id : r.id ≡ f.id
  socket :
      ((r.proto ≡ proto_tcp) × (has_tcp f ≡ true)) ⊎ ((r.proto ≡ proto_udp) × (has_udp f ≡ true))

All-if {ℓ κ} :
    {A : Type ℓ} (P : A → Type κ) (b : Bool) (xs : List A)
    → (b ≡ true → All P xs)
    → All P (if b then xs else [])
All-if P true xs h = h refl
All-if P false xs h = tt

forward_rules-IsFor : (f : Forward) → All (IsFor f) (forward_rules f)
forward_rules-IsFor f =
    let tcp : Rule = record { id = f.id; port = f.public_port; proto = proto_tcp } in
    let udp : Rule = record { id = f.id; port = f.public_port; proto = proto_udp } in
    let tcps : List Rule = if has_tcp f then tcp ∷ [] else [] in
    let udps : List Rule = if has_udp f then udp ∷ [] else [] in
    All-if (IsFor f) f.enabled (tcps ++ udps) (λ on.
      All-append (IsFor f) tcps udps
        (All-if (IsFor f) (has_tcp f) (tcp ∷ [])
          (λ h. (record { port = refl; id = refl; socket = inl (refl, h) }, tt)))
        (All-if (IsFor f) (has_udp f) (udp ∷ [])
          (λ h. (record { port = refl; id = refl; socket = inr (refl, h) }, tt))))

tcp-udp : text_eq proto_tcp proto_udp ≡ false
unfolding text_eq
tcp-udp = refl

udp-tcp : text_eq proto_udp proto_tcp ≡ false
unfolding text_eq
udp-tcp = refl

forward_rules-Distinct : (f : Forward) → Pairwise Distinct (forward_rules f)
forward_rules-Distinct f =
    let tcp : Rule = record { id = f.id; port = f.public_port; proto = proto_tcp } in
    let udp : Rule = record { id = f.id; port = f.public_port; proto = proto_udp } in
    let apart : Distinct tcp udp = different-Distinct tcp udp (ground (arith, tcp-udp)) in
    pick tcp udp f.enabled (has_tcp f) (has_udp f) apart
  where
    pick :
        (a b : Rule) (on t u : Bool)
        → Distinct a b
        → Pairwise Distinct
            (if on then (if t then a ∷ [] else []) ++ (if u then b ∷ [] else []) else [])
    pick a b false t u h = tt
    pick a b true true true h = ((h, tt), (tt, tt))
    pick a b true true false h = (tt, tt)
    pick a b true false true h = (tt, tt)
    pick a b true false false h = tt

-- rules for forwards that need no socket in common
IsFor-Distinct :
    (f g : Forward) (a b : Rule) → clash f g ≡ false → IsFor f a → IsFor g b → Distinct a b
unfolding clash
IsFor-Distinct f g a b h x y = different-Distinct a b (apart x.socket y.socket)
  where
    apart :
        ((a.proto ≡ proto_tcp) × (has_tcp f ≡ true)) ⊎ ((a.proto ≡ proto_udp) × (has_udp f ≡ true))
        → ((b.proto ≡ proto_tcp) × (has_tcp g ≡ true))
          ⊎ ((b.proto ≡ proto_udp) × (has_udp g ≡ true))
        → (a.port == b.port && text_eq a.proto b.proto) ≡ false
    apart (inl (p, t)) (inl (q, u)) = ground (arith, x.port, y.port, h, t, u)
    apart (inl (p, t)) (inr (q, u)) = rw p (rw q (ground (arith, tcp-udp)))
    apart (inr (p, t)) (inl (q, u)) = rw p (rw q (ground (arith, udp-tcp)))
    apart (inr (p, t)) (inr (q, u)) = ground (arith, x.port, y.port, h, t, u)

all_rules-IsFor :
    (f : Forward) (fs : List Forward) (a : Rule)
    → IsFor f a
    → All (λ g. clash f g ≡ false) fs
    → All (Distinct a) (all_rules fs)
all_rules-IsFor f [] a x h = tt
all_rules-IsFor f (g ∷ fs) a x h =
    All-append (Distinct a) (forward_rules g) (all_rules fs)
      (All-map (IsFor g) (Distinct a) (forward_rules g) (λ b y. IsFor-Distinct f g a b h.0 x y)
        (forward_rules-IsFor g))
      (all_rules-IsFor f fs a x h.1)

all_rules-Distinct : (fs : List Forward) → Pairwise Separate fs → Pairwise Distinct (all_rules fs)
all_rules-Distinct [] p = tt
all_rules-Distinct (f ∷ fs) p =
    let apart : All (λ g. clash f g ≡ false) fs =
      All-map (Separate f) (λ g. clash f g ≡ false) fs (λ g h. h.1) p.0 in
    Pairwise-append Distinct (forward_rules f) (all_rules fs) (forward_rules-Distinct f)
      (all_rules-Distinct fs p.1)
      (All-map (IsFor f) (λ a. All (Distinct a) (all_rules fs)) (forward_rules f)
        (λ a x. all_rules-IsFor f fs a x apart) (forward_rules-IsFor f))

-- what holds of every rule for a forward of the list holds of all rules
all_rules-All {κ} :
    (P : Rule → Type κ) (Q : Forward → Type κ) (fs : List Forward)
    → ((f : Forward) (r : Rule) → Q f → IsFor f r → P r)
    → All Q fs
    → All P (all_rules fs)
all_rules-All P Q [] step h = tt
all_rules-All P Q (f ∷ fs) step h =
    All-append P (forward_rules f) (all_rules fs)
      (All-map (IsFor f) P (forward_rules f) (λ r x. step f r h.0 x) (forward_rules-IsFor f))
      (all_rules-All P Q fs step h.1)

-- the ports that the relay itself listens on
pub record IsSetUp (env : Env) : Type 0 where
  pub tunnel :
      validate_rule (record { id = rule_tunnel; port = env.tunnel_port; proto = proto_tcp }) ≡ true
  pub admin :
      validate_rule (record { id = rule_admin; port = env.admin_port; proto = proto_tcp }) ≡ true
  pub apart : (env.tunnel_port == env.admin_port) ≡ false

IsFor-unreserved :
    (env : Env) (port : ℕ) (id : Text) (f : Forward) (r : Rule)
    → is_reserved env f.public_port ≡ false
    → (port ≡ env.tunnel_port) ⊎ (port ≡ env.admin_port)
    → IsFor f r
    → Distinct (record { id = id; port = port; proto = proto_tcp }) r
IsFor-unreserved env port id f r free (inl e) x = different-Distinct _ r (ground (arith, x.port))
IsFor-unreserved env port id f r free (inr e) x = different-Distinct _ r (ground (arith, x.port))

fields-port :
    (f : Forward)
    → validate_fields f ≡ none
    → (ltb f.public_port 1 || ltb 65535 f.public_port) ≡ false
unfolding validate_fields
fields-port f h = ground arith

validate-port :
    (f : Forward) → validate f ≡ none → (ltb f.public_port 1 || ltb 65535 f.public_port) ≡ false
unfolding validate
validate-port f h = elim (Option-cases (validate_name f.name)) [
  | inl e ↦ fields-port f (rw (e, validate) at h)
  | inr (why, e) ↦ cc (rw (e, validate) at h)
]

IsFor-validate :
    (f : Forward) (r : Rule)
    → validate f ≡ none
    → valid_id f.id ≡ true
    → IsFor f r
    → validate_rule r ≡ true
unfolding validate_rule
IsFor-validate f r v i x =
    let ported = validate-port f v in
    let named : valid_id r.id ≡ true = ap valid_id x.id ∙ i in
    let proto : (text_eq r.proto proto_tcp || text_eq r.proto proto_udp) ≡ true = known x.socket in
    ground (arith, x.port)
  where
    known :
        ((r.proto ≡ proto_tcp) × (has_tcp f ≡ true)) ⊎ ((r.proto ≡ proto_udp) × (has_udp f ≡ true))
        → (text_eq r.proto proto_tcp || text_eq r.proto proto_udp) ≡ true
    known (inl (p, t)) = ground (arith, (text_eq_iff r.proto proto_tcp).1 p)
    known (inr (p, t)) = ground (arith, (text_eq_iff r.proto proto_udp).1 p)

module _ (env : Env) (st : State) (set_up : IsSetUp env)
    (h : IsStored env st.clients st.forwards) where
  pub desired-Distinct : Pairwise Distinct (desired env.tunnel_port env.admin_port st).1
  unfolding desired
  desired-Distinct =
      let free : All (λ f. is_reserved env f.public_port ≡ false) st.forwards =
        All-map (IsAllowed env) (λ f. is_reserved env f.public_port ≡ false) st.forwards
          (λ f a. a.unreserved) h.allowed in
      let off = λ (port : ℕ) (id : Text) (e : (port ≡ env.tunnel_port) ⊎ (port ≡ env.admin_port)).
        all_rules-All (Distinct (record { id = id; port = port; proto = proto_tcp }))
          (λ f. is_reserved env f.public_port ≡ false) st.forwards
          (λ f r u x. IsFor-unreserved env port id f r u e x) free in
      (
        (
          different-Distinct _ _ (ground (arith, set_up.apart)),
          off env.tunnel_port rule_tunnel (inl refl),
        ),
        (off env.admin_port rule_admin (inr refl), all_rules-Distinct st.forwards h.separate),
      )

  pub desired-validate :
      All (λ f. valid_id f.id ≡ true) st.forwards
      → All (λ r. validate_rule r ≡ true) (desired env.tunnel_port env.admin_port st).1
  unfolding desired
  desired-validate ids = (
    set_up.tunnel,
    (
      set_up.admin,
      all_rules-All (λ r. validate_rule r ≡ true) (λ f. IsAllowed env f × (valid_id f.id ≡ true))
          st.forwards (λ f r a x. IsFor-validate f r a.0.valid a.1 x)
          (All-zip (IsAllowed env) (λ f. valid_id f.id ≡ true) st.forwards h.allowed ids),
    ),
  )
