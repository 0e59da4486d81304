-- ===== src/PortSpec/Match.antt =====
-- internal/store/portspec.go: the tokens of a spec and the pattern `entryRe`.
use spawn_relay.Common.{
  ℕ, ◌+◌, ◌-◌, ◌*◌, ◌==◌, Bool, true, ◌&&◌, ◌||◌, List, [], ◌∷◌, ◌++◌, Option, none, some, Text,
  is_empty, is_digit, leb, if◌then◌else◌, has_prefix, ◌≡◌, refl, ◌⊎◌, text_eq, arith, ap,
}
use spawn_relay.Store.{proto_tcp, proto_udp, proto_both}
use spawn_relay.Store.Validate.{is_protocol}

abbrev is_separator : ℕ → Bool
is_separator c = c == b',' || c == b' ' || c == b'\t' || c == b'\n' || c == b'\r'

-- `strings.FieldsFunc`; `cur` is the field that is being read
fields_from : Text → Text → List Text
fields_from cur [] = if is_empty cur then [] else cur ∷ []
fields_from cur (c ∷ s) =
    let closed = fields_from [] s in
    let longer = fields_from (cur ++ c ∷ []) s in
    if is_separator c then if is_empty cur then closed else cur ∷ closed else longer

unfoldable pub fields : Text → List Text
unfolding fields_from
fields spec = fields_from [] spec

-- A run of digits, with its value and its length, and what stands behind it. `(\d{1,5})` takes the
-- whole run, since nothing that may follow it in `entryRe` is a digit.
record Run : Type 0 where
  value : ℕ
  size : ℕ
  rest : Text

digit_run : ℕ → ℕ → Text → Run
digit_run value size [] = record { value = value; size = size; rest = [] }
digit_run value size (c ∷ s) =
    let more = digit_run (value * 10 + (c - b'0')) (size + 1) s in
    if is_digit c then more else record { value = value; size = size; rest = c ∷ s }

-- `(\d{1,5})` and `strconv.Atoi` of the match
number : Text → Option (ℕ × Text)
unfolding digit_run
number s =
    let r = digit_run 0 0 s in if leb 1 r.size && leb r.size 5 then some (r.value, r.rest) else none

-- `(?:MARK(\d{1,5}))?`
marked_number : ℕ → Text → Option (Option ℕ × Text)
unfolding number
marked_number mark [] = some (none, [])
marked_number mark (c ∷ s) =
    if c == mark
    then elim (number s) [ none ↦ none | some (n, rest) ↦ some (some n, rest) ]
    else some (none, c ∷ s)

drop_prefix : Text → Text → Text
drop_prefix [] s = s
drop_prefix (_ ∷ p) [] = []
drop_prefix (_ ∷ p) (_ ∷ s) = drop_prefix p s

-- `(?:/(tcp|udp|both))?`; no protocol is the empty text, as in `m[3]`
marked_protocol : Text → Option (Text × Text)
unfolding drop_prefix
marked_protocol [] = some ([], [])
marked_protocol (c ∷ s) =
    if c == b'/'
    then if has_prefix s proto_tcp
      then some (proto_tcp, drop_prefix proto_tcp s)
      else if has_prefix s proto_udp
      then some (proto_udp, drop_prefix proto_udp s)
      else if has_prefix s proto_both
      then some (proto_both, drop_prefix proto_both s)
      else none
    else some ([], c ∷ s)

-- the submatches of `entryRe`
pub record Match : Type 0 where
  pub start : ℕ
  pub end : Option ℕ
  pub proto : Text
  pub target : Option ℕ

infixl 5 ◌>>=◌
abbrev ◌>>=◌ {ℓ κ} : {A : Type ℓ} {B : Type κ} → Option A → (A → Option B) → Option B
none >>= k = none
some a >>= k = k a

pub >>=-eq-some {ℓ κ} :
    {A : Type ℓ} {B : Type κ} (m : Option A) (k : A → Option B) {b : B}
    → (m >>= k) ≡ some b
    → (a : A) × (m ≡ some a) × (k a ≡ some b)
>>=-eq-some none k h = cc
>>=-eq-some (some a) k h = (a, refl, h)

at_end : Match → Text → Option Match
at_end m [] = some m
at_end m (_ ∷ _) = none

-- `entryRe.FindStringSubmatch`
unfoldable pub match_entry : Text → Option Match
unfolding number marked_number marked_protocol at_end
match_entry tok = do
  (start, s1) ← number tok
  (end, s2) ← marked_number b'-' s1
  (proto, s3) ← marked_protocol s2
  (target, s4) ← marked_number b'>' s3
  at_end (record { start = start; end = end; proto = proto; target = target }) s4

-- the protocol of a match is empty or known
marked_protocol-known :
    (s proto rest : Text)
    → marked_protocol s ≡ some (proto, rest)
    → (proto ≡ []) ⊎ (is_protocol proto ≡ true)
unfolding marked_protocol is_protocol text_eq
marked_protocol-known [] proto rest e = ground arith
marked_protocol-known (c ∷ s) proto rest e = ground arith

at_end-eq : (m : Match) {m' : Match} (s : Text) → at_end m s ≡ some m' → m ≡ m'
unfolding at_end
at_end-eq m [] e = ground arith
at_end-eq m (_ ∷ _) e = cc

pub match_entry-known :
    (tok : Text) (m : Match)
    → match_entry tok ≡ some m
    → (m.proto ≡ []) ⊎ (is_protocol m.proto ≡ true)
unfolding match_entry
match_entry-known tok m e =
    let ((start, s1), e1, f1) = >>=-eq-some (number tok) _ e in
    let ((end, s2), e2, f2) = >>=-eq-some (marked_number b'-' s1) _ f1 in
    let ((proto, s3), e3, f3) = >>=-eq-some (marked_protocol s2) _ f2 in
    let ((target, s4), e4, f4) = >>=-eq-some (marked_number b'>' s3) _ f3 in
    let same : proto ≡ m.proto = ap (λ (x : Match). x.proto) (at_end-eq _ s4 f4) in
    rw (← same) (marked_protocol-known s2 proto s3 e3)
