-- ===== src/Backend/Firewalld/Ledger.antt =====
-- internal/firewall/firewalld.go: what the ledger holds behind `Sync`.
use spawn_relay.Common.{
  ◌≡◌, ◌∙◌, refl, arith, ap, Bool, true, not, ◌&&◌, ◌||◌, List, [], ◌∷◌, Text, text_eq, text_eq_iff,
  has, has_key, has_key-put, any, all, Bool-cases, inl, inr, if◌then◌else◌, all-sort_by,
}
use spawn_relay.Firewall.{Rule}
use spawn_relay.Backend.{key, is_wanted, sorted_rules, less_rule}
use spawn_relay.Backend.Firewalld.{
  Op, add, remove, Command, runtime, permanent, Ledger, Progress, open_one, open_all, close_stale,
  Host, sync_ports,
}

-- both commands of `port` succeed
abbrev pub succeeds : (Command → Bool) → Op → Text → Bool
succeeds ok op k = ok (runtime op k) && ok (permanent op k)

module _ (ok : Command → Bool) (opened : List Text) (k : Text) where
  abbrev opens : Rule → Bool
  opens w = text_eq (key w) k && not (has k opened) && succeeds ok add k

  has_key-open_one :
      (w : Rule) (s : Progress)
      → has_key k (open_one ok opened w s).ledger ≡ (opens w || has_key k s.ledger)
  unfolding open_one
  has_key-open_one w s = elim (Bool-cases (text_eq (key w) k)) [
    | inl e ↦
        let same : key w ≡ k = (text_eq_iff (key w) k).0 e in
        ground (
          arith,
          has_key-put (key w) k w.id s.ledger,
          ap (λ (x : Text). has x opened) same,
          ap (λ (x : Text). has_key x s.ledger) same,
          ap (λ (x : Text). ok (runtime add x)) same,
          ap (λ (x : Text). ok (permanent add x)) same,
        )
    | inr e ↦ ground (arith, has_key-put (key w) k w.id s.ledger)
  ]

  has_key-open_all :
      (ws : List Rule) (s : Progress)
      → has_key k (open_all ok opened ws s).ledger ≡ (any opens ws || has_key k s.ledger)
  unfolding open_all
  has_key-open_all [] s = refl
  has_key-open_all (w ∷ ws) s =
      has_key-open_all ws (open_one ok opened w s) ∙ ground (arith, has_key-open_one w s)

has_key-close_stale :
    (ok : Command → Bool) (want : List Rule) (k : Text) (m : Ledger)
    → has_key k (close_stale ok want m).1
      ≡ (has_key k m && (is_wanted k want || not (succeeds ok remove k)))
unfolding close_stale
has_key-close_stale ok want k [] = refl
has_key-close_stale ok want k ((j, id) ∷ m) = elim (Bool-cases (text_eq j k)) [
  | inl e ↦
      let same : j ≡ k = (text_eq_iff j k).0 e in
      ground (
        arith,
        has_key-close_stale ok want k m,
        ap (λ (x : Text). is_wanted x want) same,
        ap (λ (x : Text). ok (runtime remove x)) same,
        ap (λ (x : Text). ok (permanent remove x)) same,
      )
  | inr e ↦ ground (arith, has_key-close_stale ok want k m)
]

any-opens :
    (ok : Command → Bool) (opened : List Text) (k : Text) (ws : List Rule)
    → any (opens ok opened k) ws ≡ (is_wanted k ws && (not (has k opened) && succeeds ok add k))
any-opens ok opened k [] = refl
any-opens ok opened k (w ∷ ws) = ground (arith, any-opens ok opened k ws)

is_wanted-all :
    (k : Text) (ws : List Rule) → is_wanted k ws ≡ not (all (λ w. not (text_eq (key w) k)) ws)
is_wanted-all k [] = refl
is_wanted-all k (w ∷ ws) = ground (arith, is_wanted-all k ws)

pub is_wanted-sorted_rules :
    (k : Text) (ws : List Rule) → is_wanted k (sorted_rules ws) ≡ is_wanted k ws
is_wanted-sorted_rules k ws = ground (
  arith,
  is_wanted-all k (sorted_rules ws),
  is_wanted-all k ws,
  all-sort_by less_rule (λ w. not (text_eq (key w) k)) ws,
)

-- Behind a `Sync` of firewalld whose ledger can be written, the ledger has a wanted port exactly
-- if it had it before, or the port was not open and both commands that open it succeeded; it has
-- any other port exactly if it had it before and a command that closes it failed.
pub has_key-sync_ports :
    (h : Host) (opened : List Text) (ledger : Ledger) (want : List Rule) (k : Text)
    → h.writes ≡ true
    → has_key k (sync_ports h opened ledger want).ledger ≡ (
        if is_wanted k want
        then has_key k ledger || not (has k opened) && succeeds h.ok add k
        else has_key k ledger && not (succeeds h.ok remove k))
unfolding sync_ports
has_key-sync_ports h opened ledger want k on =
    let began : Progress = record { commands = []; states = []; ledger = ledger } in
    let s = open_all h.ok opened (sorted_rules want) began in
    ground (
      arith,
      has_key-close_stale h.ok want k s.ledger,
      has_key-open_all h.ok opened k (sorted_rules want) began,
      any-opens h.ok opened k (sorted_rules want),
      is_wanted-sorted_rules k want,
    )
