-- ===== src/Server/Clients/Deletion.antt =====
-- internal/server/api.go: `handleDeleteClient` and the state that it leaves.
use spawn_relay.Common.{
  ℕ, ltb, ◌≡◌, true, not, List, Option, none, some, Text, text_eq, text_eq_iff, keep, length, All,
  All-map, All-keep, keep-holds, Bool-cases, inl, inr, arith,
}
use spawn_relay.Store.{Forward, Client, Error}
use spawn_relay.Store.Conflict.{Pairwise-keep, Separate}
use spawn_relay.Tunnel.{remove_all}
use spawn_relay.Tunnel.Group.{remove_all-IsBound}
use spawn_relay.Server.{Env, Server, saved, sync_firewall}
use spawn_relay.Server.Invariant.{IsAllowed, IsOwned}
use spawn_relay.Server.Clients.{
  find_client, owned_by, drop_client, clear_client, finish_delete, delete_client,
}
use spawn_relay.Server.Clients.Invariant.{Distinct, find-keep}
use spawn_relay.Server.Clients.Managed.{
  IsManaged, saved-IsManaged, find_client-IsManaged, disconnect_client-IsManaged,
}

module _ (fold : ℕ → ℕ) (env : Env) where
  -- every forward that is left has an owner that is left
  owners_left :
      (id : Text) (cs : List Client) (fs : List Forward)
      → All (IsOwned cs) fs
      → All
          (IsOwned (keep (λ c. not (text_eq c.id id)) cs))
          (keep (λ f. not (text_eq f.client_id id)) fs)
  owners_left id cs fs h =
      All-map (λ f. IsOwned cs f × (not (text_eq f.client_id id) ≡ true))
        (IsOwned (keep (λ c. not (text_eq c.id id)) cs))
        (keep (λ f. not (text_eq f.client_id id)) fs)
        (λ f t. (
          t.0.0,
          find-keep (λ c. text_eq c.id f.client_id) (λ c. not (text_eq c.id id)) cs
              (λ c e. ground (
                arith,
                t.1,
                text_eq_iff c.id f.client_id,
                text_eq_iff c.id id,
                text_eq_iff f.client_id id,
              ))
              t.0.1,
        ))
        (keep-holds (λ f. not (text_eq f.client_id id)) (IsOwned cs) fs h)

  drop_client-IsManaged :
      (id : Text) (s : Server)
      → IsManaged fold env s
      → IsManaged fold env (drop_client fold env id s).0
  unfolding drop_client
  drop_client-IsManaged id s h = record {
    well_formed = record {
      stored = record {
        separate =
            Pairwise-keep Separate (λ f. not (text_eq f.client_id id)) s.state.forwards
              h.well_formed.stored.separate;
        allowed =
            All-keep (IsAllowed env) (λ f. not (text_eq f.client_id id)) s.state.forwards
              h.well_formed.stored.allowed;
        owned = owners_left id s.state.clients s.state.forwards h.well_formed.stored.owned;
      };
      bound = h.well_formed.bound;
    };
    roster = Pairwise-keep (Distinct fold) (λ c. not (text_eq c.id id)) s.state.clients h.roster;
  }

  clear_client-IsManaged :
      (id : Text) (removed : List Forward) (s : Server)
      → IsManaged fold env s
      → IsManaged fold env (clear_client fold env id removed s)
  unfolding clear_client sync_firewall
  clear_client-IsManaged id removed s h =
      let t : Server = record s { runners = remove_all s.runners removed } in
      let left : IsManaged fold env t = record {
        well_formed = record {
          stored = h.well_formed.stored;
          bound = remove_all-IsBound env.busy s.runners removed h.well_formed.bound;
        };
        roster = h.roster;
      } in
      let d = disconnect_client-IsManaged fold env id t left in
      elim (Bool-cases (ltb 0 (length removed))) [
        | inl more ↦ simp more (record {
          well_formed = record { stored = d.well_formed.stored; bound = d.well_formed.bound };
          roster = d.roster;
        })
        | inr empty ↦ simp empty d
      ]

  finish_delete-IsManaged :
      (id : Text) (removed : List Forward) (r : Server × Option Error)
      → IsManaged fold env r.0
      → IsManaged fold env (finish_delete fold env id removed r).0
  unfolding finish_delete
  finish_delete-IsManaged id removed (s, some e) h = h
  finish_delete-IsManaged id removed (s, none) h = clear_client-IsManaged id removed s h

  -- Deleting a client keeps the server well formed, and the ids and the case-folded names of
  -- the clients distinct, on every branch: the forwards that are left have owners.
  pub delete_client-IsManaged :
      (id : Text) (s : Server)
      → IsManaged fold env s
      → IsManaged fold env (delete_client fold env id s).0
  unfolding delete_client
  delete_client-IsManaged id s h =
      let r = find_client fold env id s (drop_client fold env id) in
      finish_delete-IsManaged id (owned_by fold env id s.state.forwards) (saved env r) (
        saved-IsManaged fold env r.0 r.1 (
          find_client-IsManaged fold env id s (drop_client fold env id) h
            (λ _. drop_client-IsManaged id s h)))
