-- ===== src/Tunnel/Group.antt =====
-- internal/server/tunnel.go: `ApplyGroup` and `SyncAll`.
use spawn_relay.Common.{
  ℕ, ◌≡◌, Bool, List, [], ◌∷◌, ◌++◌, Option-cases, inl, inr, true, keep, All, All-keep, keep-holds,
  All-map,
}
use spawn_relay.Store.{Forward}
use spawn_relay.Tunnel.{
  Kind, Runners, apply, apply_all, undo, rollback, apply_next, apply_group, last_by_id, remove,
  remove_all, dropped, mem_id, sync_each, sync_all,
}
use spawn_relay.Store.Conflict.{Separate, Pairwise-keep}
use spawn_relay.Tunnel.Start.{IsIdle}
use spawn_relay.Tunnel.Apply.{IsBound, stop-IsBound}
use spawn_relay.Tunnel.Listeners.{apply-IsBound}

module _ (busy : Kind → ℕ → Bool) where
  pub remove_all-IsBound :
      (rs : Runners) (fs : List Forward) → IsBound busy rs → IsBound busy (remove_all rs fs)
  remove_all-IsBound rs [] b = b
  remove_all-IsBound rs (f ∷ fs) b =
      remove_all-IsBound (remove rs f.id) fs (stop-IsBound busy f.id rs b)

  pub apply_all-IsBound :
      (rs : Runners) (fs : List Forward) → IsBound busy rs → IsBound busy (apply_all busy rs fs)
  unfolding apply_all
  apply_all-IsBound rs [] b = b
  apply_all-IsBound rs (f ∷ fs) b =
      apply_all-IsBound (apply busy rs f).0 fs (apply-IsBound busy rs f b)

  pub undo-IsBound :
      (prev : List Forward) (rs : Runners) (applied : List Forward)
      → IsBound busy rs
      → IsBound busy (undo busy prev rs applied)
  unfolding undo
  undo-IsBound prev rs [] b = b
  undo-IsBound prev rs (a ∷ applied) b = elim (Option-cases (last_by_id a.id prev)) [
    | inl new ↦
        rw (new, undo) (undo-IsBound prev (remove rs a.id) applied (stop-IsBound busy a.id rs b))
    | inr (old, found) ↦
        rw (found, undo)
          (undo-IsBound prev (apply busy rs old).0 applied (apply-IsBound busy rs old b))
  ]

  apply_next-IsBound :
      (prev removed : List Forward) (rs : Runners) (applied next : List Forward)
      → IsBound busy rs
      → IsBound busy (apply_next busy prev removed rs applied next).0
  unfolding apply_next rollback
  apply_next-IsBound prev removed rs applied [] b = b
  apply_next-IsBound prev removed rs applied (f ∷ next) b =
      let after = apply-IsBound busy rs f b in
      elim (Option-cases (apply busy rs f).1) [
        | inl done ↦
            rw (done, apply_next)
              (apply_next-IsBound prev removed (apply busy rs f).0 (applied ++ f ∷ []) next after)
        | inr (e, failed) ↦
            rw (failed, apply_next)
              (apply_all-IsBound (undo busy prev (apply busy rs f).0 applied) removed
                (undo-IsBound prev (apply busy rs f).0 applied after))
      ]

  -- A change of a group keeps the listeners bound, the stops and a rollback included.
  pub apply_group-IsBound :
      (rs : Runners) (next prev : List Forward)
      → IsBound busy rs
      → IsBound busy (apply_group busy rs next prev).0
  unfolding apply_group
  apply_group-IsBound rs next prev b =
      apply_next-IsBound prev (dropped next prev) (remove_all rs (dropped next prev)) [] next
        (remove_all-IsBound rs (dropped next prev) b)

  sync_each-IsBound :
      (rs : Runners) (fs : List Forward) → IsBound busy rs → IsBound busy (sync_each busy rs fs).0
  unfolding sync_each
  sync_each-IsBound rs [] b = b
  sync_each-IsBound rs (f ∷ fs) b = elim (Option-cases (apply busy rs f).1) [
    | inl fine ↦
        rw (fine, sync_each) (sync_each-IsBound (apply busy rs f).0 fs (apply-IsBound busy rs f b))
    | inr (e, bad) ↦
        rw (bad, sync_each) (sync_each-IsBound (apply busy rs f).0 fs (apply-IsBound busy rs f b))
  ]

  -- `SyncAll` keeps the listeners bound, and each that runs behind it is of a forward of the
  -- store.
  pub sync_all-IsBound :
      (rs : Runners) (fs : List Forward)
      → IsBound busy rs
      → IsBound busy (sync_all busy rs fs).0
        × All (λ r. mem_id r.id fs ≡ true) (sync_all busy rs fs).0
  unfolding sync_all
  sync_all-IsBound rs fs b =
      let synced = (sync_each busy rs fs).0 in
      let c = sync_each-IsBound rs fs b in
      (
        record {
          idle = All-keep (IsIdle busy) (λ r. mem_id r.id fs) synced c.idle;
          enabled = All-keep (λ r. r.enabled ≡ true) (λ r. mem_id r.id fs) synced c.enabled;
          separate = Pairwise-keep Separate (λ r. mem_id r.id fs) synced c.separate;
        },
        All-map (λ r. (r.enabled ≡ true) × (mem_id r.id fs ≡ true)) (λ r. mem_id r.id fs ≡ true)
            (keep (λ r. mem_id r.id fs) synced) (λ r h. h.1)
            (keep-holds (λ r. mem_id r.id fs) (λ r. r.enabled ≡ true) synced c.enabled),
      )
