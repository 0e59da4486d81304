-- ===== src/Agent/Updater/Install.antt =====
-- internal/agent/update.go: the files and the record behind `Start` and `run`.
use spawn_relay.Common.{
  ℕ, ◌≡◌, inl, inr, refl, arith, Bool, true, false, ◌&&◌, none, some, Text, Bool-cases,
  Option-cases, subst, sym, ap,
}
use spawn_relay.Release.{valid_tag}
use spawn_relay.SelfUpdate.{RecordState, pending, done, failed, rolled_back, is_pending}
use spawn_relay.Agent.Updater.{
  Binary, Files, Host, moves, rollback, restart, swap, verify, run, is_healthy, Updater, start,
  finish,
}

-- the downloaded binary, verified and installed, with the old one kept
pub record IsReplaced (h : Host) (old : Binary) (fs : Files) : Type 0 where
  pub binary : Binary
  pub fetched : h.fetched ≡ some binary
  pub verified : h.verifies binary ≡ true
  pub installed : fs.installed ≡ some binary
  pub previous : fs.previous ≡ some old

-- both renames of the swap were refused
pub record IsGone (h : Host) (old : Binary) (fs : Files) : Type 0 where
  pub refused : h.installs ≡ false
  pub stuck : h.returns ≡ false
  pub installed : fs.installed ≡ none
  pub previous : fs.previous ≡ some old

-- what a run leaves, by the state that it sets
pub data Outcome (h : Host) (healthy : Bool) (old : Binary) (fs : Files)
    : RecordState → Type 0 where
  updated : IsReplaced h old fs → healthy ≡ true → h.restarts ≡ true → Outcome h healthy old fs done
  restored : fs.installed ≡ some old → Outcome h healthy old fs rolled_back
  unchanged : fs.installed ≡ some old → Outcome h healthy old fs failed
  unrestored : IsReplaced h old fs → h.restores ≡ false → Outcome h healthy old fs failed
  lost : IsGone h old fs → Outcome h healthy old fs failed

module _ (h : Host) (timeout now : ℕ) (version : Text) (old : Binary) where
  abbrev Ends : Files × RecordState → Type 0
  Ends (fs, state) = Outcome h (is_healthy timeout now version h.probe) old fs state

  becomes : (s t : Files × RecordState) → s ≡ t → Ends t → Ends s
  becomes s t e = subst Ends (sym e)

  rollback-Ends : (fs : Files) → IsReplaced h old fs → Ends (rollback h fs)
  unfolding rollback
  rollback-Ends fs r =
      let kept : fs.previous ≡ some old = r.previous in
      elim (Bool-cases h.restores) [
        | inl back ↦ elim (Bool-cases h.restarts_again) [
          | inl up ↦
              becomes (rollback h fs)
                (record fs { installed = fs.previous; previous = none }, rolled_back)
                (ground (arith, ap (moves h.restores) kept)) (restored kept)
          | inr down ↦
              becomes (rollback h fs)
                (record fs { installed = fs.previous; previous = none }, failed)
                (ground (arith, ap (moves h.restores) kept)) (unchanged kept)
        ]
        | inr stuck ↦
            becomes (rollback h fs) (fs, failed) (ground (arith, ap (moves h.restores) kept))
              (unrestored r stuck)
      ]

  restart-Ends : (fs : Files) → IsReplaced h old fs → Ends (restart h timeout now version fs)
  unfolding restart
  restart-Ends fs r = elim (Bool-cases (h.restarts && is_healthy timeout now version h.probe)) [
    | inl well ↦
        becomes (restart h timeout now version fs) (fs, done) (ground arith)
          (updated r (ground arith) (ground arith))
    | inr ill ↦
        becomes (restart h timeout now version fs) (rollback h fs) (ground arith)
          (rollback-Ends fs r)
  ]

  swap-Ends :
      (b : Binary) (fs : Files)
      → h.fetched ≡ some b
      → h.verifies b ≡ true
      → fs.installed ≡ some old
      → fs.next ≡ some b
      → Ends (swap h timeout now version fs)
  unfolding swap
  swap-Ends b fs got good here next =
      let there : moves h.keeps fs.installed ≡ h.keeps = ap (moves h.keeps) here in
      let placed : Files = record { installed = fs.next; next = none; previous = fs.installed } in
      elim (Bool-cases h.keeps) [
        | inr stays ↦
            becomes (swap h timeout now version fs)
              (record fs { next = none; previous = none }, failed) (ground arith) (unchanged here)
        | inl kept ↦ elim (Bool-cases h.installs) [
          | inl in_place ↦
              becomes (swap h timeout now version fs) (restart h timeout now version placed)
                (ground arith)
                (restart-Ends placed (record {
                  binary = b;
                  fetched = got;
                  verified = good;
                  installed = next;
                  previous = here;
                }))
          | inr refused ↦ elim (Bool-cases h.returns) [
            | inl back ↦
                becomes (swap h timeout now version fs) (record fs { previous = none }, failed)
                  (ground arith) (unchanged here)
            | inr stuck ↦
                becomes (swap h timeout now version fs)
                  (record fs { installed = none; previous = fs.installed }, failed) (ground arith)
                  (lost (record {
                    refused = refused;
                    stuck = stuck;
                    installed = refl;
                    previous = here;
                  }))
          ]
        ]
      ]

  verify-Ends :
      (b : Binary) (fs : Files)
      → h.fetched ≡ some b
      → fs.installed ≡ some old
      → Ends (verify h timeout now version b fs)
  unfolding verify
  verify-Ends b fs got here = elim (Bool-cases h.writes) [
    | inr torn ↦
        becomes (verify h timeout now version b fs) (record fs { next = h.torn }, failed)
          (ground arith) (unchanged here)
    | inl written ↦ elim (Bool-cases (h.verifies b)) [
      | inr bad ↦
          becomes (verify h timeout now version b fs) (record fs { next = none }, failed)
            (ground arith) (unchanged here)
      | inl good ↦
          becomes (verify h timeout now version b fs)
            (swap h timeout now version (record fs { next = some b })) (ground arith)
            (swap-Ends b (record fs { next = some b }) got good here refl)
    ]
  ]

  pub run-Ends : (fs : Files) → fs.installed ≡ some old → Ends (run h timeout now version fs)
  unfolding run
  run-Ends fs here = elim (Option-cases h.fetched) [
    | inl missing ↦
        becomes (run h timeout now version fs) (fs, failed) (ground arith) (unchanged here)
    | inr (b, got) ↦
        becomes (run h timeout now version fs) (verify h timeout now version b fs) (ground arith)
          (verify-Ends b fs got here)
  ]

Outcome-ends :
    {h : Host} {healthy : Bool} {old : Binary} {fs : Files} {state : RecordState}
    → Outcome h healthy old fs state
    → is_pending state ≡ false
Outcome-ends (updated r w s) = refl
Outcome-ends (restored e) = refl
Outcome-ends (unchanged e) = refl
Outcome-ends (unrestored r s) = refl
Outcome-ends (lost g) = refl

-- what an accepted request has become when its goroutine is over
pub record IsFinished (h : Host) (timeout now end : ℕ) (version : Text) (old : Binary)
    (u v : Updater) : Type 0 where
  pub idle : v.busy ≡ false
  pub state : RecordState
  pub began : ℕ
  pub recorded :
      v.last
      ≡ some (record {
        state = state;
        from = u.version;
        to = version;
        started_at = began;
        finished_at = some end;
      })
  pub outcome : Outcome h (is_healthy timeout now version h.probe) old v.files state

start-accepts :
    (began : ℕ) (version : Text) (u : Updater)
    → (start began version u).1 ≡ none
    → (u.busy ≡ false)
      × (valid_tag version ≡ true)
      × ((start began version u).0 ≡ record u {
        busy = true;
        last = some (record {
          state = pending;
          from = u.version;
          to = version;
          started_at = began;
          finished_at = none;
        });
      })
unfolding start
start-accepts began version u h = (ground arith, ground arith, ground arith)

-- An update that `Start` accepts is of a valid tag and begins only when no other one runs. When
-- its goroutine is over, it has cleared `busy` and recorded a state other than pending. Where a
-- binary was installed before: done means that the fetched and verified binary is installed with
-- the old one kept, and that the server answered with the new version; rolled back means that the
-- old binary is installed; failed means that the old one is installed, or the verified new one
-- where restoring failed, or none where both renames of the swap were refused, and then the old
-- one is kept beside it.
pub finish-IsFinished :
    (h : Host) (began timeout now end : ℕ) (version : Text) (old : Binary) (u : Updater)
    → u.files.installed ≡ some old
    → (start began version u).1 ≡ none
    → (u.busy ≡ false)
      × (valid_tag version ≡ true)
      × IsFinished h timeout now end version old u
          (finish h timeout now end version (start began version u).0)
unfolding finish
finish-IsFinished h began timeout now end version old u here accepted =
    let (idle, valid, e) = start-accepts began version u accepted in
    let ends = run-Ends h timeout now version old u.files here in
    (
      idle,
      valid,
      rw e (record {
        idle = refl;
        state = (run h timeout now version u.files).1;
        began = began;
        recorded = rw (Outcome-ends ends) refl;
        outcome = ends;
      }),
    )
