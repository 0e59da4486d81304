-- ===== src/Client/Update/Installed.antt =====
-- internal/client/update.go: the executable behind `runUpdate`.
use spawn_relay.Common.{
  ℕ, ◌≡◌, ◌≤◌, ◌∙◌, refl, sym, arith, ap, subst, Bool, true, false, not, ◌&&◌, ◌||◌, List, [], ◌∷◌,
  none, some, text_eq, is_empty, ltb, length, take, any, Bool-cases, inl, inr, if◌then◌else◌,
}
use spawn_relay.Server.Clients.{equal_fold}
use spawn_relay.Client.Update.{
  Binary, UpdateInfo, Device, Host, Status, downloading, installing, restarting, failed,
  max_binary_size, remove_tmp, intact, download, reports, verified, install, verify_and_install,
  do_update, run_update,
}

abbrev pub is_failed : Status → Bool
is_failed downloading = false
is_failed installing = false
is_failed restarting = false
is_failed failed = true

-- a binary that may be installed
pub record IsVerified (fold : ℕ → ℕ) (h : Host) (info : UpdateInfo) (b : Binary) : Type 0 where
  pub allowed : h.allow_update ≡ true
  pub sized : length b ≡ info.size
  pub small : info.size ≤ max_binary_size
  pub hashed : equal_fold fold (h.digest b) info.sha256 ≡ true
  pub ran : reports info.version (h.output b) ≡ true

-- what an update leaves, and what the server was told
pub data Outcome (fold : ℕ → ℕ) (h : Host) (info : UpdateInfo) (old : Binary) (d : Device)
    (sent : List Status) : Type 0 where
  replaced :
      (b : Binary) → IsVerified fold h info b → d.exe ≡ some b → Outcome fold h info old d sent
  kept : d.exe ≡ some old → any is_failed sent ≡ true → Outcome fold h info old d sent
  gone :
      h.windows ≡ true
      → h.installs ≡ false
      → h.returns ≡ false
      → d.old ≡ some old
      → any is_failed sent ≡ true
      → Outcome fold h info old d sent

module _ (fold : ℕ → ℕ) (h : Host) (info : UpdateInfo) (old : Binary) where
  abbrev Ends : Device × List Status → Type 0
  Ends (d, sent) = Outcome fold h info old d sent

  becomes : (s t : Device × List Status) → s ≡ t → Ends t → Ends s
  becomes s t e = subst Ends (sym e)

  -- the outcomes do not depend on what was sent before, nor on the other fields
  Ends-before : (s : Status) (d : Device) (sent : List Status) → Ends (d, sent) → Ends (d, s ∷ sent)
  Ends-before s d sent (replaced b v e) = replaced b v e
  Ends-before s d sent (kept e f) = kept e (ground (arith, f))
  Ends-before s d sent (gone w i r e f) = gone w i r e (ground (arith, f))

  Ends-same :
      (d e : Device) (sent : List Status)
      → d.exe ≡ e.exe
      → d.old ≡ e.old
      → Ends (e, sent)
      → Ends (d, sent)
  Ends-same d e sent p q (replaced b v x) = replaced b v (p ∙ x)
  Ends-same d e sent p q (kept x f) = kept (p ∙ x) f
  Ends-same d e sent p q (gone w i r x f) = gone w i r (q ∙ x) f

  verify_and_install-Ends :
      (b : Binary) (d : Device)
      → d.exe ≡ some old
      → d.tmp ≡ some b
      → (reports info.version (h.output b) ≡ true → IsVerified fold h info b)
      → Ends (verify_and_install h info d)
  unfolding verify_and_install install
  verify_and_install-Ends b d here new fit =
      let seen : verified h info d.tmp ≡ reports info.version (h.output b) =
        ap (verified h info) new in
      let fail : List Status = installing ∷ failed ∷ [] in
      let done : List Status = installing ∷ restarting ∷ (if h.restarts then [] else failed ∷ []) in
      elim (Bool-cases (reports info.version (h.output b))) [
        | inr bad ↦
            becomes (verify_and_install h info d) (remove_tmp d, fail) (ground arith)
              (kept here refl)
        | inl ran ↦ elim (Bool-cases h.windows) [
          | inr unix ↦ elim (Bool-cases h.installs) [
            | inl in_place ↦
                becomes (verify_and_install h info d) (record d { exe = d.tmp; tmp = none }, done)
                  (ground arith) (replaced b (fit ran) new)
            | inr refused ↦
                becomes (verify_and_install h info d) (remove_tmp d, fail) (ground arith)
                  (kept here refl)
          ]
          | inl win ↦ elim (Bool-cases h.keeps) [
            | inr stays ↦
                becomes (verify_and_install h info d) (record d { tmp = none; old = none }, fail)
                  (ground arith) (kept here refl)
            | inl moved ↦ elim (Bool-cases h.installs) [
              | inl in_place ↦
                  becomes (verify_and_install h info d)
                    (record d { exe = d.tmp; tmp = none; old = d.exe }, done) (ground arith)
                    (replaced b (fit ran) new)
              | inr refused ↦ elim (Bool-cases h.returns) [
                | inl back ↦
                    becomes (verify_and_install h info d)
                      (record d { tmp = none; old = none }, fail) (ground arith) (kept here refl)
                | inr stuck ↦
                    becomes (verify_and_install h info d)
                      (record d { exe = none; tmp = none; old = d.exe }, fail) (ground arith)
                      (gone win refused stuck here refl)
              ]
            ]
          ]
        ]
      ]

  got : Binary
  got = take info.size h.body

  download_good :
      (d : Device)
      → (download fold h info d).1 ≡ true
      → ((download fold h info d).0 ≡ record d { tmp = some got })
        × (intact fold h info got ≡ true)
        × (ltb max_binary_size info.size ≡ false)
  unfolding download got
  download_good d e = (ground arith, ground arith, ground arith)

  download-exe : (d : Device) → (download fold h info d).0.exe ≡ d.exe
  unfolding download
  download-exe d = ground arith

  intact-IsVerified :
      (b : Binary)
      → h.allow_update ≡ true
      → intact fold h info b ≡ true
      → ltb max_binary_size info.size ≡ false
      → reports info.version (h.output b) ≡ true
      → IsVerified fold h info b
  intact-IsVerified b a i s r = record {
    allowed = a;
    sized = ground arith;
    small = ground arith;
    hashed = ground arith;
    ran = r;
  }

  do_update-Ends :
      (d : Device) → h.allow_update ≡ true → d.exe ≡ some old → Ends (do_update fold h info d)
  unfolding do_update
  do_update-Ends d allowed here =
      let asked = download fold h info d in
      let fail : List Status = failed ∷ [] in
      elim (Bool-cases
        (not (is_empty info.version) && text_eq info.version h.version || not h.located)) [
          | inl early ↦ becomes (do_update fold h info d) (d, fail) (ground arith) (kept here refl)
          | inr wanted ↦ elim (Bool-cases asked.1) [
            | inr bad ↦
                becomes (do_update fold h info d) (remove_tmp asked.0, downloading ∷ fail)
                  (ground arith) (kept (download-exe d ∙ here) refl)
            | inl good ↦
                let (e, i, s) = download_good d good in
                let new : Device = record d { tmp = some got } in
                let end = verify_and_install h info asked.0 in
                becomes (do_update fold h info d) (end.0, downloading ∷ end.1) (ground arith)
                  (Ends-before downloading end.0 end.1 (
                    verify_and_install-Ends got asked.0 (download-exe d ∙ here)
                      (ap (λ (x : Device). x.tmp) e) (intact-IsVerified got allowed i s)))
          ]
        ]

-- Behind `runUpdate`, where the executable was there before: it is the downloaded binary, which
-- updates are allowed for, has the announced size and hash and printed the announced version; or
-- it is the old one, and the server was told of a failure; or, on Windows and where both renames
-- were refused, the old one stands beside it as `.old`, and the server was told of a failure.
pub run_update-Outcome :
    (fold : ℕ → ℕ) (h : Host) (info : UpdateInfo) (old : Binary) (d : Device)
    → d.exe ≡ some old
    → Outcome fold h info old (run_update fold h info d).0 (run_update fold h info d).1
unfolding run_update
run_update-Outcome fold h info old d here =
    let run = run_update fold h info d in
    let ends = becomes fold h info old run in
    elim (Bool-cases (not h.allow_update || d.updating)) [
      | inl refused ↦ ends (d, failed ∷ []) (ground arith) (kept here refl)
      | inr free ↦
          let end = do_update fold h info (record d { updating = true }) in
          ends (record end.0 { updating = false }, end.1) (ground arith)
            (Ends-same fold h info old (record end.0 { updating = false }) end.0 end.1 refl refl
              (do_update-Ends fold h info old (record d { updating = true }) (ground arith) here))
    ]
