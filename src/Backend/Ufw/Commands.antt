-- ===== src/Backend/Ufw/Commands.antt =====
-- internal/firewall/ufw.go: what `Sync` runs and reports.
use spawn_relay.Common.{
  text_eq_comm, ◌≡◌, ◌∙◌, refl, arith, ap, Bool, true, false, not, ◌&&◌, ◌||◌, List, [], ◌∷◌, some,
  Text, text_eq, text_eq_iff, text_eq_refl, is_empty, has, lookup, put, all, any, is_nil,
  is_nil-append, All, All-append, All-map, All-zip, Pairwise, Bool-cases, inl, inr, if◌then◌else◌,
  all-sort_by, All-sort_by, Pairwise-sort_by, sort_by-All,
}
use spawn_relay.Firewall.{Rule}
use spawn_relay.Backend.{
  key, is_wanted, sorted_rules, less_rule, RuleState, state_existing, States, checked,
}
use spawn_relay.Backend.Keys.{
  Distinct, Distinct-symm, record_all, lookup-record_all, any_of, any-key,
}
use spawn_relay.Backend.Ufw.{
  UfwStatus, Command, allow, delete, id_at, retag, allow_one, allow_all, delete_stale, sync,
}

-- the port is allowed by the operator, or tagged with the id
abbrev pub is_settled : UfwStatus → Rule → Bool
is_settled st w = has (key w) st.untagged || text_eq (id_at (key w) st.tagged) w.id

module _ (ok : Command → Bool) (st : UfwStatus) where
  is_nil-allow_one : (w : Rule) → is_nil (allow_one ok st w).0 ≡ is_settled st w
  unfolding allow_one
  is_nil-allow_one w =
      ground
        (arith, is_nil-append (retag (key w) (id_at (key w) st.tagged)) (allow (key w) w.id ∷ []))

  is_nil-allow_all :
      (ws : List Rule) (res : States) → is_nil (allow_all ok st ws res).0 ≡ all (is_settled st) ws
  unfolding allow_all
  is_nil-allow_all [] res = refl
  is_nil-allow_all (w ∷ ws) res =
      let later = put (key w) (allow_one ok st w).1 res in
      is_nil-append (allow_one ok st w).0 (allow_all ok st ws later).0
      ∙ ground (arith, is_nil-allow_one w, is_nil-allow_all ws later)

is_nil-delete_stale :
    (want : List Rule) (tagged : List (Text × Text))
    → is_nil (delete_stale want tagged) ≡ all (λ t. is_wanted t.0 want) tagged
unfolding delete_stale
is_nil-delete_stale want [] = refl
is_nil-delete_stale want ((k, id) ∷ tagged) = ground (arith, is_nil-delete_stale want tagged)

-- The `Sync` of ufw runs no command exactly when every wanted rule is tagged with its id or
-- allowed by the operator, and every tagged port is wanted.
pub is_nil-sync :
    (ok : Command → Bool) (st : UfwStatus) (want : List Rule)
    → is_nil (sync ok st want).0
      ≡ (all (is_settled st) want && all (λ t. is_wanted t.0 want) st.tagged)
unfolding sync
is_nil-sync ok st want =
    is_nil-append (allow_all ok st (sorted_rules want) []).0 (delete_stale want st.tagged)
    ∙ ground (
      arith,
      is_nil-allow_all ok st (sorted_rules want) [],
      all-sort_by less_rule (is_settled st) want,
      is_nil-delete_stale want st.tagged,
    )

-- Whether a command is for a rule that SpawnRelay owns: it opens a wanted rule that is not settled,
-- or it removes a tagged rule that no wanted rule has the key and the id of.
abbrev pub is_ours : UfwStatus → List Rule → Command → Bool
is_ours st want (allow k id) =
    any (λ w. text_eq (key w) k && (text_eq w.id id && not (is_settled st w))) want
is_ours st want (delete k id) =
    any (λ t. text_eq t.0 k && text_eq t.1 id) st.tagged
    && not (any (λ w. text_eq (key w) k && text_eq w.id id) want)

id_at-tagged :
    (k id : Text) (m : List (Text × Text))
    → id_at k m ≡ id
    → is_empty id ≡ false
    → any (λ t. text_eq t.0 k && text_eq t.1 id) m ≡ true
id_at-tagged k id [] e h = cc
id_at-tagged k id ((j, i) ∷ m) e h = elim (Bool-cases (text_eq j k)) [
  | inl here ↦ let same : i ≡ id = rw here at e in ground (arith, (text_eq_iff i id).1 same)
  | inr other ↦ ground (arith, id_at-tagged k id m (rw other at e) h)
]

-- what a rule of the list gives for its own commands
record IsFound (st : UfwStatus) (want : List Rule) (w : Rule) : Type 0 where
  found : (p : Rule → Bool) → p w ≡ true → any p want ≡ true
  alone : (q : Rule → Bool) → q w ≡ false → any (λ o. text_eq (key o) (key w) && q o) want ≡ false

module _ (ok : Command → Bool) (st : UfwStatus) (want : List Rule) where
  abbrev Ours : List Command → Type 0
  Ours cs = All (λ c. is_ours st want c ≡ true) cs

  allow-Ours :
      (w : Rule) → IsFound st want w → is_settled st w ≡ false → Ours (allow (key w) w.id ∷ [])
  allow-Ours w f new = (
    f.found (λ o. text_eq (key o) (key w) && (text_eq o.id w.id && not (is_settled st o)))
        (ground (arith, text_eq_refl (key w), text_eq_refl w.id)),
    tt,
  )

  retag-Ours :
      (w : Rule)
      → IsFound st want w
      → is_settled st w ≡ false
      → Ours (retag (key w) (id_at (key w) st.tagged))
  retag-Ours w f new = elim (Bool-cases (is_empty (id_at (key w) st.tagged))) [
    | inl new_key ↦ rw new_key tt
    | inr old ↦
        let id = id_at (key w) st.tagged in
        rw old (
          ground (
            arith,
            id_at-tagged (key w) id st.tagged refl old,
            f.alone (λ o. text_eq o.id id) (ground (arith, text_eq_comm id w.id)),
          ),
          tt,
        )
  ]

  allow_one-Ours : (w : Rule) → IsFound st want w → Ours (allow_one ok st w).0
  unfolding allow_one
  allow_one-Ours w f = elim (Bool-cases (has (key w) st.untagged)) [
    | inl theirs ↦ rw theirs tt
    | inr free ↦ elim (Bool-cases (text_eq (id_at (key w) st.tagged) w.id)) [
      | inl same ↦ rw free (rw same tt)
      | inr other ↦
          let new : is_settled st w ≡ false = ground arith in
          rw free (
            rw other (
              All-append (λ c. is_ours st want c ≡ true) (retag (key w) (id_at (key w) st.tagged))
                (allow (key w) w.id ∷ []) (retag-Ours w f new) (allow-Ours w f new)))
    ]
  ]

  allow_all-Ours :
      (ws : List Rule) (res : States) → All (IsFound st want) ws → Ours (allow_all ok st ws res).0
  unfolding allow_all
  allow_all-Ours [] res f = tt
  allow_all-Ours (w ∷ ws) res f =
      let later = put (key w) (allow_one ok st w).1 res in
      All-append (λ c. is_ours st want c ≡ true) (allow_one ok st w).0 (allow_all ok st ws later).0
        (allow_one-Ours w f.0) (allow_all-Ours ws later f.1)

  states-allow_all :
      (ws : List Rule) (res : States)
      → (allow_all ok st ws res).1 ≡ record_all (λ w. (allow_one ok st w).1) ws res
  unfolding allow_all
  states-allow_all [] res = refl
  states-allow_all (w ∷ ws) res = states-allow_all ws (put (key w) (allow_one ok st w).1 res)

unwanted-with :
    (k id : Text) (want : List Rule)
    → is_wanted k want ≡ false
    → any (λ w. text_eq (key w) k && text_eq w.id id) want ≡ false
unwanted-with k id [] h = refl
unwanted-with k id (w ∷ want) h = ground (arith, unwanted-with k id want)

delete_stale-Ours :
    (st : UfwStatus) (want : List Rule) (tagged : List (Text × Text))
    → All (λ t. any (λ o. text_eq o.0 t.0 && text_eq o.1 t.1) st.tagged ≡ true) tagged
    → All (λ c. is_ours st want c ≡ true) (delete_stale want tagged)
unfolding delete_stale
delete_stale-Ours st want [] h = tt
delete_stale-Ours st want ((k, id) ∷ tagged) h = elim (Bool-cases (is_wanted k want)) [
  | inl kept ↦ rw kept (delete_stale-Ours st want tagged h.1)
  | inr gone ↦
      rw gone
        ((ground (arith, h.0, unwanted-with k id want gone)), delete_stale-Ours st want tagged h.1)
]

-- the state of a rule, from what stands and from whether its command succeeds
abbrev pub expected : (Command → Bool) → UfwStatus → Rule → RuleState
expected ok st w =
    if has (key w) st.untagged
    then state_existing
    else checked (text_eq (id_at (key w) st.tagged) w.id || ok (allow (key w) w.id))

pub record IsSynced (ok : Command → Bool) (st : UfwStatus) (want : List Rule)
    (commands : List Command) (states : States) : Type 0 where
  pub ours : All (λ c. is_ours st want c ≡ true) commands
  pub reported : All (λ w. lookup (key w) states ≡ some (expected ok st w)) want

allow_one-expected :
    (ok : Command → Bool) (st : UfwStatus) (w : Rule) → (allow_one ok st w).1 ≡ expected ok st w
unfolding allow_one
allow_one-expected ok st w = ground arith

all-IsFound :
    (st : UfwStatus) (want : List Rule) → Pairwise Distinct want → All (IsFound st want) want
all-IsFound st want p =
    let Found : Rule → Type 0 = λ w. (t : Rule → Bool) → t w ≡ true → any t want ≡ true in
    let Alone : Rule → Type 0 = λ w.
      (q : Rule → Bool) → q w ≡ false → any (λ o. text_eq (key o) (key w) && q o) want ≡ false in
    All-map (λ w. Found w × Alone w) (IsFound st want) want
      (λ w h. record { found = h.0; alone = h.1 })
      (All-zip Found Alone want (any_of want) (any-key want p))

tagged-found :
    (tagged : List (Text × Text))
    → All (λ t. any (λ o. text_eq o.0 t.0 && text_eq o.1 t.1) tagged ≡ true) tagged
tagged-found tagged =
    All-map (λ t. (p : Text × Text → Bool) → p t ≡ true → any p tagged ≡ true)
      (λ t. any (λ o. text_eq o.0 t.0 && text_eq o.1 t.1) tagged ≡ true) tagged
      (λ t h.
        h (λ o. text_eq o.0 t.0 && text_eq o.1 t.1)
          (ground (arith, text_eq_refl t.0, text_eq_refl t.1)))
      (any_of tagged)

reported-allow_all :
    (ok : Command → Bool) (st : UfwStatus) (ws : List Rule)
    → Pairwise Distinct ws
    → All (λ w. lookup (key w) (allow_all ok st ws []).1 ≡ some (expected ok st w)) ws
reported-allow_all ok st ws p =
    let f = λ (w : Rule). (allow_one ok st w).1 in
    rw (states-allow_all ok st [] ws []) (
      All-map (λ w. lookup (key w) (record_all f ws []) ≡ some (f w))
        (λ w. lookup (key w) (record_all f ws []) ≡ some (expected ok st w)) ws
        (λ w e. e ∙ ap some (allow_one-expected ok st w)) (lookup-record_all f ws [] p))

-- Where the wanted rules have distinct keys, every command that the `Sync` of ufw runs opens a
-- wanted rule that is neither tagged with its id nor allowed by the operator, or removes a tagged
-- rule that no wanted rule has the key and the id of; and every wanted rule is reported as
-- existing where the operator allows its port, as open where it was tagged with its id or the
-- command for it succeeded, and as an error otherwise.
pub sync-IsSynced :
    (ok : Command → Bool) (st : UfwStatus) (want : List Rule)
    → Pairwise Distinct want
    → IsSynced ok st want (sync ok st want).0 (sync ok st want).1
unfolding sync
sync-IsSynced ok st want p =
    let sorted = sorted_rules want in
    let found = All-sort_by less_rule (IsFound st want) want (all-IsFound st want p) in
    record {
      ours =
          All-append (λ c. is_ours st want c ≡ true) (allow_all ok st sorted []).0
            (delete_stale want st.tagged) (allow_all-Ours ok st want sorted [] found)
            (delete_stale-Ours st want st.tagged (tagged-found st.tagged));
      reported =
          sort_by-All less_rule
            (λ w. lookup (key w) (allow_all ok st sorted []).1 ≡ some (expected ok st w)) want
            (reported-allow_all ok st sorted
              (Pairwise-sort_by less_rule Distinct Distinct-symm want p));
    }
