-- ===== src/Firewall/Rules.antt =====
-- internal/server/firewall.go: the rules that `desired` lists.
use spawn_relay.Common.{
  ℕ, ◌==◌, ◌≡◌, ◌∙◌, refl, arith, Bool, ◌&&◌, ◌||◌, List, [], ◌∷◌, ◌++◌, Text, text_eq, any,
}
use spawn_relay.Store.{State, Forward, has_tcp, has_udp, proto_tcp, proto_udp}
use spawn_relay.Firewall.{Rule, rule_tunnel, rule_admin, forward_rules, all_rules, desired}

abbrev is_rule : Text → ℕ → Text → Rule → Bool
is_rule id port proto r = text_eq r.id id && r.port == port && text_eq r.proto proto

-- a rule of the list
abbrev pub has_rule : Text → ℕ → Text → List Rule → Bool
has_rule id port proto rules = any (is_rule id port proto) rules

-- the forward is enabled and listens on the port with the protocol
abbrev pub needs : Text → ℕ → Text → Forward → Bool
needs id port proto f =
    f.enabled
    && text_eq f.id id
    && f.public_port == port
    && (has_tcp f && text_eq proto_tcp proto || has_udp f && text_eq proto_udp proto)

any-append :
    {A : Type 0} (p : A → Bool) (xs ys : List A) → any p (xs ++ ys) ≡ (any p xs || any p ys)
any-append p [] ys = refl
any-append p (x ∷ xs) ys = ground (arith, any-append p xs ys)

has_rule-forward_rules :
    (id : Text) (port : ℕ) (proto : Text) (f : Forward)
    → has_rule id port proto (forward_rules f) ≡ needs id port proto f
has_rule-forward_rules id port proto f = ground arith

has_rule-all_rules :
    (id : Text) (port : ℕ) (proto : Text) (fs : List Forward)
    → has_rule id port proto (all_rules fs) ≡ any (needs id port proto) fs
has_rule-all_rules id port proto [] = refl
has_rule-all_rules id port proto (f ∷ fs) =
    any-append (is_rule id port proto) (forward_rules f) (all_rules fs)
    ∙ ground (arith, has_rule-forward_rules id port proto f, has_rule-all_rules id port proto fs)

-- The desired rules hold a rule exactly when it is that of the tunnel port, that of the
-- management port, or that of an enabled forward for one of the protocols that it listens with.
pub has_rule-desired :
    (tunnel_port admin_port : ℕ) (st : State) (id : Text) (port : ℕ) (proto : Text)
    → has_rule id port proto (desired tunnel_port admin_port st).1 ≡ (
        text_eq rule_tunnel id && tunnel_port == port && text_eq proto_tcp proto
        || text_eq rule_admin id && admin_port == port && text_eq proto_tcp proto
        || any (needs id port proto) st.forwards)
unfolding desired
has_rule-desired tunnel_port admin_port st id port proto =
    ground (arith, has_rule-all_rules id port proto st.forwards)
