-- ===== src/Agent/Updater/Fetch/Listed.antt =====
-- internal/agent/update.go: what `fetchBinary` returns is the content of an archive that SHA256SUMS lists.
use spawn_relay.Common.{
  ◌≡◌, ◌⊎◌, ◌∙◌, sym, refl, arith, ap, Bool, true, false, ◌&&◌, List, [], ◌∷◌, Option, none, some,
  Text, text_eq, text_eq_iff, lookup, put, lookup-put, lookup-put-other, any, Bool-cases,
  Option-cases, inl, inr,
}
use spawn_relay.Release.{split_by}
use spawn_relay.Agent.Updater.{Binary}
use spawn_relay.Agent.Updater.Fetch.{
  words, sum_of, put_sum, add_sums, parse_sums, Source, verify_sum, asset, checked, fetch_with,
  fetch_binary,
}

-- the entry is for the name and has the hash
abbrev pub is_entry : Text → Text → Option (Text × Text) → Bool
is_entry name hash none = false
is_entry name hash (some (n, h)) = text_eq n name && text_eq h hash

-- a line of the checksum file gives the hash for the name
abbrev pub lists : Text → Text → Text → Bool
lists name hash raw = any (λ line. is_entry name hash (sum_of (words [] line))) (split_by b'\n' raw)

-- What a download stands for: the archive was downloaded, and a line of the checksum file has its hash.
pub record IsListed (src : Source) (arch : Text) (b : Binary) : Type 0 where
  pub raw : Text
  pub bytes : Binary
  pub read : src.sums ≡ some raw
  pub downloaded : src.tarball (asset arch) ≡ some bytes
  pub listed : lists (asset arch) (src.digest bytes) raw ≡ true
  pub extracted : src.extract bytes ≡ some b

lookup-put_sum :
    (name hash : Text) (e : Option (Text × Text)) (sums : List (Text × Text))
    → lookup name (put_sum e sums) ≡ some hash
    → (lookup name sums ≡ some hash) ⊎ (is_entry name hash e ≡ true)
lookup-put_sum name hash none sums h = inl h
lookup-put_sum name hash (some (n, v)) sums h = elim (Bool-cases (text_eq n name)) [
  | inr other ↦ inl (sym (lookup-put-other n name v sums other) ∙ h)
  | inl own ↦
      let same : n ≡ name = (text_eq_iff n name).0 own in
      let here : some v ≡ some hash =
        sym (lookup-put n v sums) ∙ (ap (λ (x : Text). lookup x (put n v sums)) same ∙ h) in
      let value : v ≡ hash = cc in inr (ground (arith, own, (text_eq_iff v hash).1 value))
]

lookup-add_sums :
    (name hash : Text) (lines : List Text) (sums : List (Text × Text))
    → lookup name (add_sums lines sums) ≡ some hash
    → (lookup name sums ≡ some hash)
      ⊎ (any (λ line. is_entry name hash (sum_of (words [] line))) lines ≡ true)
unfolding add_sums
lookup-add_sums name hash [] sums h = inl h
lookup-add_sums name hash (line ∷ lines) sums h =
    elim (lookup-add_sums name hash lines (put_sum (sum_of (words [] line)) sums) h) [
      | inr later ↦ inr (ground (arith, later))
      | inl now ↦ elim (lookup-put_sum name hash (sum_of (words [] line)) sums now) [
        | inl before ↦ inl before
        | inr here ↦ inr (ground (arith, here))
      ]
    ]

lookup-parse_sums :
    (name hash raw : Text) → lookup name (parse_sums raw) ≡ some hash → lists name hash raw ≡ true
unfolding parse_sums
lookup-parse_sums name hash raw h = elim (lookup-add_sums name hash (split_by b'\n' raw) [] h) [
  | inl blank ↦ cc
  | inr listed ↦ listed
]

verify_sum-lists :
    (digest : Binary → Text) (name raw : Text) (bytes : Binary)
    → verify_sum digest (parse_sums raw) name bytes ≡ true
    → lists name (digest bytes) raw ≡ true
unfolding verify_sum
verify_sum-lists digest name raw bytes h = elim (Option-cases (lookup name (parse_sums raw))) [
  | inl missing ↦ cc (rw (missing, verify_sum) at h)
  | inr (want, found) ↦
      let same : digest bytes ≡ want =
        (text_eq_iff (digest bytes) want).0 (rw (found, verify_sum) at h) in
      lookup-parse_sums name (digest bytes) raw (found ∙ ap some (sym same))
]

checked-some :
    (src : Source) (sums : List (Text × Text)) (name : Text) (o : Option Binary) (b : Binary)
    → checked src sums name o ≡ some b
    → (bytes : Binary) × (o ≡ some bytes)
      × (verify_sum src.digest sums name bytes ≡ true)
      × (src.extract bytes ≡ some b)
checked-some src sums name none b h = cc
checked-some src sums name (some bytes) b h =
    elim (Bool-cases (verify_sum src.digest sums name bytes)) [
      | inr wrong ↦ cc (rw wrong at h)
      | inl good ↦ (bytes, refl, good, rw good at h)
    ]

fetch_with-IsListed :
    (src : Source) (arch : Text) (b : Binary) (o : Option Text)
    → src.sums ≡ o
    → fetch_with src arch o ≡ some b
    → IsListed src arch b
fetch_with-IsListed src arch b none e h = cc
fetch_with-IsListed src arch b (some raw) e h =
    let (bytes, got, good, out) =
      checked-some src (parse_sums raw) (asset arch) (src.tarball (asset arch)) b h in
    record {
      raw = raw;
      bytes = bytes;
      read = e;
      downloaded = got;
      listed = verify_sum-lists src.digest (asset arch) raw bytes good;
      extracted = out;
    }

-- A binary that `fetchBinary` returns is the one in the archive for the platform, and a line of
-- the release's SHA256SUMS gives that archive's name with its hash.
pub fetch_binary-IsListed :
    (src : Source) (arch : Text) (b : Binary) → fetch_binary src arch ≡ some b → IsListed src arch b
unfolding fetch_binary
fetch_binary-IsListed src arch b h = fetch_with-IsListed src arch b src.sums refl h
