-- ===== src/Backend/Firewalld/Foreign.antt =====
-- internal/firewall/firewalld.go: the ports that are open and not in the ledger, in later rounds of `Sync`.
use spawn_relay.Common.{
  ◌++◌, none, some, Option-cases, ◌≡◌, refl, arith, ap, Bool, true, false, List, [], ◌∷◌, Text,
  text_eq, text_eq_iff, has, has_key, any, All, Bool-cases, inl, inr,
}
use spawn_relay.Firewall.{Rule}
use spawn_relay.Backend.{is_wanted}
use spawn_relay.Backend.Firewalld.{
  Op, add, remove, Command, runtime, permanent, Ledger, Host, sync_ports, sync,
}
use spawn_relay.Backend.Firewalld.Ledger.{has_key-sync_ports}
use spawn_relay.Backend.Firewalld.Commands.{may, is_ours, sync_ports-is_ours}

-- the command is about the port
abbrev pub is_about : Text → Command → Bool
is_about k (runtime op j) = text_eq j k
is_about k (permanent op j) = text_eq j k

untouched :
    (opened : List Text) (ledger : Ledger) (want : List Rule) (k : Text)
    → has k opened ≡ true
    → has_key k ledger ≡ false
    → (op : Op) (j : Text) → may opened ledger want op j ≡ true
    → text_eq j k ≡ false
untouched opened ledger want k o l add j m = elim (Bool-cases (text_eq j k)) [
  | inr e ↦ e
  | inl e ↦
      let same : j ≡ k = (text_eq_iff j k).0 e in
      absurd (ground (arith, ap (λ (x : Text). has x opened) same))
]
untouched opened ledger want k o l remove j m = elim (Bool-cases (text_eq j k)) [
  | inr e ↦ e
  | inl e ↦
      let same : j ≡ k = (text_eq_iff j k).0 e in
      absurd (ground (arith, ap (λ (x : Text). has_key x ledger) same))
]

not-about :
    (opened : List Text) (ledger : Ledger) (want : List Rule) (k : Text) (cs : List Command)
    → has k opened ≡ true
    → has_key k ledger ≡ false
    → All (λ c. is_ours opened ledger want c ≡ true) cs
    → any (is_about k) cs ≡ false
not-about opened ledger want k [] o l h = refl
not-about opened ledger want k (runtime op j ∷ cs) o l h =
    ground (
      arith,
      untouched opened ledger want k o l op j h.0,
      not-about opened ledger want k cs o l h.1,
    )
not-about opened ledger want k (permanent op j ∷ cs) o l h =
    ground (
      arith,
      untouched opened ledger want k o l op j h.0,
      not-about opened ledger want k cs o l h.1,
    )

-- a later `Sync`: what it meets and the rules that are wanted then
abbrev pub Round : Type 0
Round = Host × List Rule

-- Whether the round finds the port open, where it gets to list the ports at all.
abbrev pub finds : Text → Round → Bool
finds k (h, want) = elim h.listed [ none ↦ true | some opened ↦ has k opened ]

-- the commands of a sequence of rounds, each on the ledger that the one before left
pub commands_of : Ledger → List Round → List Command
commands_of ledger [] = []
commands_of ledger ((h, want) ∷ rounds) =
    (sync h ledger want).commands ++ commands_of (sync h ledger want).ledger rounds

-- A port that is open and not in the ledger does not get into it.
sync_ports-foreign :
    (h : Host) (opened : List Text) (ledger : Ledger) (want : List Rule) (k : Text)
    → has k opened ≡ true
    → has_key k ledger ≡ false
    → has_key k (sync_ports h opened ledger want).ledger ≡ false
unfolding sync_ports
sync_ports-foreign h opened ledger want k there foreign = elim (Bool-cases h.writes) [
  | inl on ↦ ground (arith, has_key-sync_ports h opened ledger want k on)
  | inr off ↦ rw off foreign
]

sync-foreign :
    (h : Host) (ledger : Ledger) (want : List Rule) (k : Text)
    → finds k (h, want) ≡ true
    → has_key k ledger ≡ false
    → (any (is_about k) (sync h ledger want).commands ≡ false)
      × (has_key k (sync h ledger want).ledger ≡ false)
unfolding sync
sync-foreign h ledger want k there foreign = elim (Bool-cases h.running) [
  | inr down ↦ simp down (refl, foreign)
  | inl up ↦ elim (Option-cases h.listed) [
    | inl missing ↦ simp (up, missing) (refl, foreign)
    | inr (opened, listed) ↦
        let found : has k opened ≡ true = rw (listed, finds) at there in
        elim (Bool-cases h.reads) [
          | inr torn ↦ simp (up, listed, torn) (refl, foreign)
          | inl whole ↦
              simp (up, listed, whole)
                (
                  not-about opened ledger want k (sync_ports h opened ledger want).commands found
                      foreign (sync_ports-is_ours h opened ledger want),
                  sync_ports-foreign h opened ledger want k found foreign,
                )
        ]
  ]
]

any-append :
    (p : Command → Bool) (xs ys : List Command)
    → any p xs ≡ false
    → any p ys ≡ false
    → any p (xs ++ ys) ≡ false
any-append p [] ys h k = k
any-append p (x ∷ xs) ys h k = ground (arith, any-append p xs ys (ground arith) k)

rounds-foreign :
    (k : Text) (ledger : Ledger) (rounds : List Round)
    → All (λ r. finds k r ≡ true) rounds
    → has_key k ledger ≡ false
    → any (is_about k) (commands_of ledger rounds) ≡ false
unfolding commands_of
rounds-foreign k ledger [] h foreign = refl
rounds-foreign k ledger ((g, want) ∷ rounds) h foreign =
    let (quiet, left) = sync-foreign g ledger want k h.0 foreign in
    any-append (is_about k) (sync g ledger want).commands
      (commands_of (sync g ledger want).ledger rounds) quiet
      (rounds-foreign k (sync g ledger want).ledger rounds h.1 left)

-- Where a wanted port was not in the ledger, the permanent half of opening it fails and the
-- ledger can be written, no later `Sync` runs a command for the port, whatever each of them wants
-- and meets, as long as every one that gets to list the ports finds it open.
pub sync_ports_half :
    (h : Host) (opened : List Text) (ledger : Ledger) (want : List Rule) (k : Text)
    (rounds : List Round)
    → h.writes ≡ true
    → is_wanted k want ≡ true
    → has_key k ledger ≡ false
    → h.ok (permanent add k) ≡ false
    → All (λ r. finds k r ≡ true) rounds
    → any (is_about k) (commands_of (sync_ports h opened ledger want).ledger rounds) ≡ false
sync_ports_half h opened ledger want k rounds on wanted new half there =
    let lost : has_key k (sync_ports h opened ledger want).ledger ≡ false =
      ground (arith, has_key-sync_ports h opened ledger want k on) in
    rounds-foreign k (sync_ports h opened ledger want).ledger rounds there lost
