-- ===== src/Backend/Firewalld/Commands.antt =====
-- internal/firewall/firewalld.go: the commands that `Sync` runs.
use spawn_relay.Common.{
  ◌≡◌, arith, Bool, true, not, ◌&&◌, ◌||◌, List, [], ◌∷◌, Text, text_eq, text_eq_refl, has, has_key,
  put, All, All-append, All-map, All-sort_by, Bool-cases, inl, inr,
}
use spawn_relay.Firewall.{Rule}
use spawn_relay.Backend.{key, is_wanted, sorted_rules, less_rule}
use spawn_relay.Backend.Firewalld.{
  Op, add, remove, Command, runtime, permanent, Ledger, port, Progress, open_one, open_all,
  close_stale, Host, sync_ports,
}

-- Whether a command is one that SpawnRelay may run: it opens a wanted port that is not open, or it
-- closes a port of the ledger that is not wanted.
abbrev pub may : List Text → Ledger → List Rule → Op → Text → Bool
may opened ledger want add k = is_wanted k want && not (has k opened)
may opened ledger want remove k = has_key k ledger && not (is_wanted k want)

abbrev pub is_ours : List Text → Ledger → List Rule → Command → Bool
is_ours opened ledger want (runtime op k) = may opened ledger want op k
is_ours opened ledger want (permanent op k) = may opened ledger want op k

module _ (ok : Command → Bool) (opened : List Text) (ledger : Ledger) (want : List Rule) where
  abbrev Ours : List Command → Type 0
  Ours cs = All (λ c. is_ours opened ledger want c ≡ true) cs

  -- every entry is wanted or was there before
  abbrev IsKnown : Ledger → Type 0
  IsKnown m = All (λ t. (is_wanted t.0 want || has_key t.0 ledger) ≡ true) m

  port-Ours : (op : Op) (k : Text) → may opened ledger want op k ≡ true → Ours (port ok op k).0
  port-Ours op k h = elim (Bool-cases (ok (runtime op k))) [
    | inl e ↦ rw e (h, (h, tt))
    | inr e ↦ rw e (h, tt)
  ]

  put-IsKnown :
      (k id : Text) (m : Ledger) → is_wanted k want ≡ true → IsKnown m → IsKnown (put k id m)
  put-IsKnown k id [] h n = (ground arith, tt)
  put-IsKnown k id ((j, i) ∷ m) h n = elim (Bool-cases (text_eq j k)) [
    | inl e ↦ rw e (n.0, n.1)
    | inr e ↦ rw e (n.0, put-IsKnown k id m h n.1)
  ]

  open_one-Ours :
      (w : Rule) (s : Progress)
      → is_wanted (key w) want ≡ true
      → Ours s.commands × IsKnown s.ledger
      → Ours (open_one ok opened w s).commands × IsKnown (open_one ok opened w s).ledger
  unfolding open_one
  open_one-Ours w s h (c, n) = elim (Bool-cases (has (key w) opened)) [
    | inl there ↦ elim (Bool-cases (has_key (key w) s.ledger)) [
      | inl ours ↦ simp (there, ours) (c, put-IsKnown (key w) w.id s.ledger h n)
      | inr theirs ↦ simp (there, theirs) (c, n)
    ]
    | inr closed ↦
        let allowed : may opened ledger want add (key w) ≡ true = ground arith in
        let cs =
          All-append (λ c. is_ours opened ledger want c ≡ true) s.commands (port ok add (key w)).0 c
            (port-Ours add (key w) allowed) in
        elim (Bool-cases (port ok add (key w)).1) [
          | inl good ↦ simp (closed, good) (cs, put-IsKnown (key w) w.id s.ledger h n)
          | inr bad ↦ simp (closed, bad) (cs, n)
        ]
  ]

  open_all-Ours :
      (ws : List Rule) (s : Progress)
      → All (λ w. is_wanted (key w) want ≡ true) ws
      → Ours s.commands × IsKnown s.ledger
      → Ours (open_all ok opened ws s).commands × IsKnown (open_all ok opened ws s).ledger
  unfolding open_all
  open_all-Ours [] s h c = c
  open_all-Ours (w ∷ ws) s h c =
      open_all-Ours ws (open_one ok opened w s) h.1 (open_one-Ours w s h.0 c)

  close_stale-Ours : (m : Ledger) → IsKnown m → Ours (close_stale ok want m).0
  unfolding close_stale
  close_stale-Ours [] n = tt
  close_stale-Ours ((k, id) ∷ m) n = elim (Bool-cases (is_wanted k want)) [
    | inl kept ↦ rw kept (close_stale-Ours m n.1)
    | inr gone ↦ rw gone (
        All-append (λ c. is_ours opened ledger want c ≡ true) (port ok remove k).0
          (close_stale ok want m).0 (port-Ours remove k (ground (arith, n.0)))
          (close_stale-Ours m n.1))
  ]

ledger-known : (m : Ledger) → All (λ t. has_key t.0 m ≡ true) m
ledger-known [] = tt
ledger-known ((k, id) ∷ m) = (
  ground (arith, text_eq_refl k),
  All-map (λ t. has_key t.0 m ≡ true) (λ t. has_key t.0 ((k, id) ∷ m) ≡ true) m
      (λ t h. ground arith) (ledger-known m),
)

all-is_wanted : (ws : List Rule) → All (λ w. is_wanted (key w) ws ≡ true) ws
all-is_wanted [] = tt
all-is_wanted (w ∷ ws) = (
  ground (arith, text_eq_refl (key w)),
  All-map (λ o. is_wanted (key o) ws ≡ true) (λ o. is_wanted (key o) (w ∷ ws) ≡ true) ws
      (λ o h. ground arith) (all-is_wanted ws),
)

-- Every command that the `Sync` of firewalld runs opens a wanted port that is not open, or closes
-- a port of the ledger that is not wanted: ports that are open and not in the ledger are never
-- closed.
pub sync_ports-is_ours :
    (h : Host) (opened : List Text) (ledger : Ledger) (want : List Rule)
    → All (λ c. is_ours opened ledger want c ≡ true) (sync_ports h opened ledger want).commands
unfolding sync_ports
sync_ports-is_ours h opened ledger want =
    let began : Progress = record { commands = []; states = []; ledger = ledger } in
    let wanted =
      All-sort_by less_rule (λ w. is_wanted (key w) want ≡ true) want (all-is_wanted want) in
    let known =
      All-map (λ t. has_key t.0 ledger ≡ true)
        (λ t. (is_wanted t.0 want || has_key t.0 ledger) ≡ true) ledger (λ t e. ground arith)
        (ledger-known ledger) in
    let (cs, n) =
      open_all-Ours h.ok opened ledger want (sorted_rules want) began wanted (tt, known) in
    All-append (λ c. is_ours opened ledger want c ≡ true)
      (open_all h.ok opened (sorted_rules want) began).commands
      (close_stale h.ok want (open_all h.ok opened (sorted_rules want) began).ledger).0 cs
      (close_stale-Ours h.ok opened ledger want
        (open_all h.ok opened (sorted_rules want) began).ledger n)
