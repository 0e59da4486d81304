-- ===== src/PortSpec/Parse/Bounds.antt =====
-- internal/store/portspec.go: the entries that `ParsePortSpec` returns.
use spawn_relay.Common.{
  ℕ, zero, suc, ◌+◌, ◌-◌, ◌==◌, ◌≤◌, ◌<◌, ◌≡◌, refl, sym, true, false, ◌&&◌, List, [], ◌∷◌, ◌++◌,
  Option, none, some, Text, text_eq, text_eq_iff, is_empty, to_lower, if◌then◌else◌, length,
  sort_by, All, All-append, All-sort_by, length-sort_by, Pairwise, Pairwise-concat,
  Pairwise-sort_by, IsSorted, sort_by-IsSorted, length-append, arith, Bool-cases, inl, inr, ◌⊎◌,
}
use spawn_relay.Store.{ok, >>=-eq-ok}
use spawn_relay.Store.Validate.{is_protocol}
use spawn_relay.PortSpec.{PortEntry, max_group_ports, proto_overlap, less_entry}
use spawn_relay.Store.TextOrder.{text_lt_asymm}
use spawn_relay.PortSpec.Match.{Match, match_entry, match_entry-known, fields}
use spawn_relay.PortSpec.Parse.{
  Progress, add_matched, is_listed, add_ports, add_range, add_token, add_tokens, parse_tokens,
  parse_port_spec, or_else,
}

-- an entry that a listener and a relay can use
pub record IsEntry (e : PortEntry) : Type 0 where
  pub port_pos : 1 ≤ e.public_port
  pub port_le : e.public_port ≤ 65535
  pub target_pos : 1 ≤ e.target_port
  pub target_le : e.target_port ≤ 65535
  pub protocol_known : is_protocol e.protocol ≡ true

-- two entries that cannot meet on a socket
abbrev pub Apart : PortEntry → PortEntry → Type 0
Apart a b = (a.public_port == b.public_port && proto_overlap a.protocol b.protocol) ≡ false

text_eq_comm : (a b : Text) → text_eq a b ≡ text_eq b a
text_eq_comm a b = ground (arith, text_eq_iff a b, text_eq_iff b a)

proto_overlap_comm : (a b : Text) → proto_overlap a b ≡ proto_overlap b a
unfolding proto_overlap
proto_overlap_comm a b = ground (arith, text_eq_comm a b)

pub Apart-symm : (a b : PortEntry) → Apart a b → Apart b a
Apart-symm a b h = ground (arith, proto_overlap_comm a.protocol b.protocol)

pub less_entry_asymm : (a b : PortEntry) → less_entry a b ≡ true → less_entry b a ≡ false
unfolding less_entry
less_entry_asymm a b h = ground (arith, text_lt_asymm a.protocol b.protocol)

abbrev listing : List PortEntry → List (ℕ × Text)
listing [] = []
listing (e ∷ es) = (e.public_port, e.protocol) ∷ listing es

listing-concat :
    (es : List PortEntry) (e : PortEntry)
    → listing (es ++ e ∷ []) ≡ listing es ++ (e.public_port, e.protocol) ∷ []
listing-concat [] e = refl
listing-concat (x ∷ es) e = rw (listing-concat es e)

is_listed-Apart :
    (es : List PortEntry) (e : PortEntry)
    → is_listed (listing es) e.public_port e.protocol ≡ false
    → All (λ x. Apart x e) es
unfolding is_listed
is_listed-Apart [] e h = tt
is_listed-Apart (x ∷ es) e h = (ground arith, is_listed-Apart es e (ground arith))

-- The loop's invariant; `seen` repeats what `out` holds.
record IsGood (st : Progress) : Type 0 where
  entries : All IsEntry st.out
  seen_eq : st.seen ≡ listing st.out
  apart : Pairwise Apart st.out

-- what one step adds
record Grows (st st' : Progress) (n : ℕ) : Type 0 where
  good : IsGood st'
  count : length st'.out ≡ length st.out + n

abbrev push : Progress → PortEntry → Progress
push st e = record { out = st.out ++ e ∷ []; seen = st.seen ++ (e.public_port, e.protocol) ∷ [] }

push-IsGood :
    (st : Progress) (e : PortEntry)
    → IsGood st
    → IsEntry e
    → is_listed st.seen e.public_port e.protocol ≡ false
    → IsGood (push st e)
push-IsGood st e g i h = record {
  entries = All-append IsEntry st.out (e ∷ []) g.entries (i, tt);
  seen_eq = rw (g.seen_eq) (sym (listing-concat st.out e));
  apart = Pairwise-concat Apart st.out e g.apart (is_listed-Apart st.out e (rw (g.seen_eq) at h));
}

add_ports-Grows :
    (n p target : ℕ) (proto : Text) (st st' : Progress)
    → IsGood st
    → 1 ≤ p
    → p + n ≤ 65536
    → 1 ≤ target
    → target + n ≤ 65536
    → is_protocol proto ≡ true
    → add_ports n p target proto st ≡ ok st'
    → Grows st st' n
unfolding add_ports
add_ports-Grows zero p target proto st st' g a b c d k e =
    let same : st ≡ st' = cc in rw (← same) (record { good = g; count = omega arith })
add_ports-Grows (suc n) p target proto st st' g a b c d k e =
    elim (Bool-cases (is_listed st.seen p proto)) [
      | inl old ↦ cc (rw old at e)
      | inr new ↦
          let x : PortEntry = record { public_port = p; protocol = proto; target_port = target } in
          let i : IsEntry x = record {
            port_pos = a;
            port_le = omega arith;
            target_pos = c;
            target_le = omega arith;
            protocol_known = k;
          } in
          let more =
            add_ports-Grows n (p + 1) (target + 1) proto (push st x) st' (push-IsGood st x g i new)
              (omega arith) (omega arith) (omega arith) (omega arith) k (rw new at e) in
          record {
            good = more.good;
            count = omega (arith, more.count, length-append st.out (x ∷ []));
          }
    ]

-- what every step of the loop over the tokens gives
record Step (st st' : Progress) : Type 0 where
  good : IsGood st'
  grows : length st.out < length st'.out
  small : length st'.out ≤ max_group_ports

add_range-Step :
    (start end : ℕ) (proto : Text) (target : ℕ) (st st' : Progress)
    → IsGood st
    → is_protocol proto ≡ true
    → add_range start end proto target st ≡ ok st'
    → Step st st'
unfolding add_range
add_range-Step start end proto target st st' g k e =
    let run : add_ports (end - start + 1) start target proto st ≡ ok st' = ground arith in
    let low : 1 ≤ start = ground arith in
    let high : end ≤ 65535 = ground arith in
    let ordered : start ≤ end = ground arith in
    let target_low : 1 ≤ target = ground arith in
    let target_high : end - start + target ≤ 65535 = ground arith in
    let room : length st.out + (end - start + 1) ≤ max_group_ports = ground arith in
    let more =
      add_ports-Grows (end - start + 1) start target proto st st' g low (omega arith) target_low
        (omega arith) k run in
    record {
      good = more.good;
      grows = omega (arith, more.count);
      small = omega (arith, more.count);
    }

add_matched-Step :
    (def_proto : Text) (o : Option Match) (st st' : Progress)
    → is_protocol def_proto ≡ true
    → ((m : Match) → o ≡ some m → (m.proto ≡ []) ⊎ (is_protocol m.proto ≡ true))
    → IsGood st
    → add_matched def_proto o st ≡ ok st'
    → Step st st'
unfolding add_matched
add_matched-Step def_proto none st st' k known g e = cc
add_matched-Step def_proto (some m) st st' k known g e =
    add_range-Step m.start (or_else m.end m.start) _ (or_else m.target m.start) st st' g
      (known_or m.proto (known m refl)) e
  where
    known_or :
        (p : Text)
        → (p ≡ []) ⊎ (is_protocol p ≡ true)
        → is_protocol (if is_empty p then def_proto else p) ≡ true
    known_or [] h = k
    known_or (c ∷ s) (inl h) = cc
    known_or (c ∷ s) (inr h) = h

add_token-Step :
    (def_proto raw : Text) (st st' : Progress)
    → is_protocol def_proto ≡ true
    → IsGood st
    → add_token def_proto raw st ≡ ok st'
    → Step st st'
unfolding add_token
add_token-Step def_proto raw st st' k g e =
    add_matched-Step def_proto (match_entry (to_lower raw)) st st' k
      (match_entry-known (to_lower raw)) g e

add_tokens-IsGood :
    (def_proto : Text) (tokens : List Text) (st st' : Progress)
    → is_protocol def_proto ≡ true
    → IsGood st
    → length st.out ≤ max_group_ports
    → add_tokens def_proto tokens st ≡ ok st'
    → IsGood st' × (length st.out ≤ length st'.out) × (length st'.out ≤ max_group_ports)
unfolding add_tokens
add_tokens-IsGood def_proto [] st st' k g b e =
    let same : st ≡ st' = cc in rw (← same) (g, omega arith, b)
add_tokens-IsGood def_proto (raw ∷ tokens) st st' k g b e =
    let (next, first, later) =
      >>=-eq-ok (add_token def_proto raw st) (add_tokens def_proto tokens) e in
    let s = add_token-Step def_proto raw st next k g first in
    let (good, more, small) = add_tokens-IsGood def_proto tokens next st' k s.good s.small later in
    (good, omega (arith, s.grows), small)

-- What a successful parse promises.
pub record IsExpansion (es : List PortEntry) : Type 0 where
  pub entries : All IsEntry es
  pub apart : Pairwise Apart es
  pub sorted : IsSorted less_entry es
  pub some_entry : 1 ≤ length es
  pub few : length es ≤ max_group_ports

parse_tokens-IsExpansion :
    (def_proto : Text) (tokens : List Text) (es : List PortEntry)
    → is_protocol def_proto ≡ true
    → parse_tokens def_proto tokens ≡ ok es
    → IsExpansion es
unfolding parse_tokens
parse_tokens-IsExpansion def_proto [] es k e = cc
parse_tokens-IsExpansion def_proto (raw ∷ tokens) es k e =
    let start : Progress = record { out = []; seen = [] } in
    let (st, first, last) = >>=-eq-ok (add_tokens def_proto (raw ∷ tokens) start) _ e in
    let (next, step, more) =
      >>=-eq-ok (add_token def_proto raw start) (add_tokens def_proto tokens)
        (unfold add_tokens in first) in
    let good : IsGood start = record { entries = tt; seen_eq = refl; apart = tt } in
    let s = add_token-Step def_proto raw start next k good step in
    let (g, longer, small) = add_tokens-IsGood def_proto tokens next st k s.good s.small more in
    let same : sort_by less_entry st.out ≡ es = cc in
    rw (← same) (record {
      entries = All-sort_by less_entry IsEntry st.out g.entries;
      apart = Pairwise-sort_by less_entry Apart Apart-symm st.out g.apart;
      sorted = sort_by-IsSorted less_entry less_entry_asymm st.out;
      some_entry = omega (arith, length-sort_by less_entry st.out, s.grows);
      few = omega (arith, length-sort_by less_entry st.out);
    })

-- A spec that `ParsePortSpec` accepts yields between 1 and 64 entries, ordered by port and
-- protocol. Every port and every target port is between 1 and 65535, every protocol is one of
-- tcp, udp and both, and no two entries share a port with overlapping protocols.
pub parse_port_spec-IsExpansion :
    (spec def_proto : Text) (es : List PortEntry)
    → parse_port_spec spec def_proto ≡ ok es
    → IsExpansion es
unfolding parse_port_spec
parse_port_spec-IsExpansion spec def_proto es e = elim (Bool-cases (is_protocol def_proto)) [
  | inl k ↦ parse_tokens-IsExpansion def_proto (fields spec) es k (rw k at e)
  | inr bad ↦ cc (rw bad at e)
]
