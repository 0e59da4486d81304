-- ===== src/Agent/Updater/Fetch.antt =====
-- internal/agent/update.go: `fetchBinary`. The downloads, SHA-256 in hex, and what `extractBinary` finds
-- in an archive are parameters; a checksum file is read as text.
pub mod Listed
use spawn_relay.Common.{
  ℕ, ◌==◌, Bool, true, false, not, ◌&&◌, List, [], ◌∷◌, ◌++◌, Option, none, some, Text, codes,
  text_eq, is_empty, is_space, to_lower, lookup, put, if◌then◌else◌,
}
use spawn_relay.Release.{split_by}
use spawn_relay.Agent.Updater.{Binary}

-- `strings.Fields`: the word that is being read, and the words behind it
pub words : Text → Text → List Text
words word [] = if is_empty word then [] else word ∷ []
words word (c ∷ s) =
    let rest = words (if is_space c then [] else word ++ c ∷ []) s in
    if is_space c && not (is_empty word) then word ∷ rest else rest

-- `strings.TrimPrefix(s, "*")`
abbrev trim_star : Text → Text
trim_star [] = []
trim_star (c ∷ s) = if c == b'*' then s else c ∷ s

-- the name and the hash of a line with two fields
pub sum_of : List Text → Option (Text × Text)
sum_of (hash ∷ name ∷ []) = some (trim_star name, to_lower hash)
sum_of _ = none

abbrev pub put_sum : Option (Text × Text) → List (Text × Text) → List (Text × Text)
put_sum none sums = sums
put_sum (some (name, hash)) sums = put name hash sums

-- the loop of `ParseSums`
pub add_sums : List Text → List (Text × Text) → List (Text × Text)
unfolding sum_of words
add_sums [] sums = sums
add_sums (line ∷ lines) sums = add_sums lines (put_sum (sum_of (words [] line)) sums)

-- `ParseSums`: from names to hashes
unfoldable pub parse_sums : Text → List (Text × Text)
unfolding add_sums split_by
parse_sums s = add_sums (split_by b'\n' s) []

-- what the network and the libraries do
pub record Source : Type 0 where
  pub sums : Option Text
  pub tarball : Text → Option Binary
  pub digest : Binary → Text
  pub extract : Binary → Option Binary

-- `VerifySum`: whether it returns no error
unfoldable pub verify_sum : (Binary → Text) → List (Text × Text) → Text → Binary → Bool
verify_sum digest sums name bytes = elim (lookup name sums) [
  | none ↦ false
  | some want ↦ text_eq (digest bytes) want
]

abbrev pub asset : Text → Text
asset arch = codes "spawnrelay_linux_" ++ (arch ++ codes ".tar.gz")

abbrev pub checked : Source → List (Text × Text) → Text → Option Binary → Option Binary
checked src sums name none = none
checked src sums name (some bytes) =
    if verify_sum src.digest sums name bytes then src.extract bytes else none

abbrev pub fetch_with : Source → Text → Option Text → Option Binary
fetch_with src arch none = none
fetch_with src arch (some raw) =
    checked src (parse_sums raw) (asset arch) (src.tarball (asset arch))

-- `fetchBinary`
unfoldable pub fetch_binary : Source → Text → Option Binary
fetch_binary src arch = fetch_with src arch src.sums
