-- ===== src/Release.antt =====
-- internal/agent/update.go and internal/server/selfupdate.go: the tags of releases. `ValidTag` is
-- matched by its parts: what stands between the dots behind the "v".
pub mod Order
use spawn_relay.Common.{
  ℕ, ◌+◌, ◌-◌, ◌*◌, ◌==◌, Bool, true, false, ◌&&◌, ◌||◌, List, [], ◌∷◌, Option, none, some, Text,
  is_digit, ltb, if◌then◌else◌,
}

-- `strings.Split` by one character
unfoldable pub split_by : ℕ → Text → List Text
split_by sep [] = [] ∷ []
split_by sep (c ∷ s) = elim (split_by sep s) [
  | [] ↦ []
  | part ∷ parts ↦ if c == sep then [] ∷ part ∷ parts else (c ∷ part) ∷ parts
]

all_digits : Text → Bool
all_digits [] = true
all_digits (c ∷ s) = is_digit c && all_digits s

-- `\d+`
is_number : Text → Bool
unfolding all_digits
is_number [] = false
is_number (c ∷ s) = is_digit c && all_digits s

decimal : ℕ → Text → ℕ
decimal n [] = n
decimal n (c ∷ s) = decimal (n * 10 + (c - b'0')) s

-- the largest `int` on the 64-bit platforms of the releases
abbrev max_int : ℕ
max_int = 9223372036854775807

-- `strconv.Atoi` of digits
atoi : Text → Option ℕ
unfolding decimal
atoi s = if ltb max_int (decimal 0 s) then none else some (decimal 0 s)

abbrev drop_v : Text → Text
drop_v [] = []
drop_v (c ∷ s) = s

three_numbers : List Text → Bool
unfolding is_number
three_numbers (a ∷ b ∷ c ∷ []) = is_number a && is_number b && is_number c
three_numbers _ = false

-- `ValidTag`
unfoldable pub valid_tag : Text → Bool
unfolding three_numbers split_by
valid_tag [] = false
valid_tag (c ∷ s) = c == b'v' && three_numbers (split_by b'.' s)

pub record Version : Type 0 where
  pub major : ℕ
  pub minor : ℕ
  pub patch : ℕ

version_of : Option ℕ → Option ℕ → Option ℕ → Option Version
version_of (some a) (some b) (some c) = some (record { major = a; minor = b; patch = c })
version_of _ _ _ = none

parse_parts : List Text → Option Version
unfolding version_of atoi
parse_parts (a ∷ b ∷ c ∷ []) = version_of (atoi a) (atoi b) (atoi c)
parse_parts _ = none

-- `parseVersion`
unfoldable pub parse_version : Text → Option Version
unfolding valid_tag parse_parts split_by
parse_version v = if valid_tag v then parse_parts (split_by b'.' (drop_v v)) else none

-- the loop of `newerVersion`
unfoldable pub newer : Version → Version → Bool
newer a b =
    if a.major == b.major
    then (if a.minor == b.minor then ltb b.patch a.patch else ltb b.minor a.minor)
    else ltb b.major a.major

newer_of : Option Version → Option Version → Bool
unfolding newer
newer_of (some a) (some b) = newer a b
newer_of _ _ = false

-- `newerVersion`
unfoldable pub newer_version : Text → Text → Bool
unfolding newer_of
newer_version a b = newer_of (parse_version a) (parse_version b)
