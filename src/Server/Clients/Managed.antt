-- ===== src/Server/Clients/Managed.antt =====
-- internal/server/api.go: the state of the clients, and steps that keep it.
use spawn_relay.Common.{
  ℕ, ◌≡◌, refl, ◌≢◌, List, Option, none, some, Text, All-map, Pairwise, Bool-cases, Option-cases,
  inl, inr,
}
use spawn_relay.Store.{Forward, Client, Error, client_by_id}
use spawn_relay.Server.{Env, Server, saved, disconnect_client, has_session}
use spawn_relay.Server.Invariant.{IsOwned, IsWellFormed}
use spawn_relay.Server.Clients.{set_clients, answer, find_client}
use spawn_relay.Server.Clients.Invariant.{Distinct}

module _ (fold : ℕ → ℕ) (env : Env) where
  pub record IsManaged (s : Server) : Type 0 where
    pub well_formed : IsWellFormed env s
    pub roster : Pairwise (Distinct fold) s.state.clients

  pub saved-IsManaged :
      (s : Server) (e : Option Error) → IsManaged s → IsManaged (saved env (s, e)).0
  unfolding saved
  saved-IsManaged s (some e) h = h
  saved-IsManaged s none h = elim (Bool-cases env.saves) [
    | inl on ↦ simp on (record {
      well_formed = record { stored = h.well_formed.stored; bound = h.well_formed.bound };
      roster = h.roster;
    })
    | inr off ↦ simp off h
  ]

  pub answer-server : (status : ℕ) (r : Server × Option Error) → (answer fold env status r).0 ≡ r.0
  unfolding answer
  answer-server status (s, some e) = refl
  answer-server status (s, none) = refl

  -- new clients, over which every forward still has an owner
  pub set_clients-IsManaged :
      (cs : List Client) (s : Server)
      → IsManaged s
      → Pairwise (Distinct fold) cs
      → ((f : Forward) → IsOwned s.state.clients f → IsOwned cs f)
      → IsManaged (set_clients cs s)
  set_clients-IsManaged cs s h roster owned = record {
    well_formed = record {
      stored = record {
        separate = h.well_formed.stored.separate;
        allowed = h.well_formed.stored.allowed;
        owned =
            All-map (IsOwned s.state.clients) (IsOwned cs) s.state.forwards owned
              h.well_formed.stored.owned;
      };
      bound = h.well_formed.bound;
    };
    roster = roster;
  }

  pub find_client-IsManaged :
      (id : Text) (s : Server) (body : Server → Server × Option Error)
      → IsManaged s
      → (client_by_id s.state id ≢ none → IsManaged (body s).0)
      → IsManaged (find_client fold env id s body).0
  unfolding find_client
  find_client-IsManaged id s body h step = elim (Option-cases (client_by_id s.state id)) [
    | inl missing ↦ rw (missing, find_client) h
    | inr (c, found) ↦ rw (found, find_client) (step (λ e. cc (found, e)))
  ]

  pub disconnect_client-IsManaged :
      (id : Text) (s : Server) → IsManaged s → IsManaged (disconnect_client id s)
  unfolding disconnect_client
  disconnect_client-IsManaged id s h = elim (Bool-cases (has_session id s.online)) [
    | inl on ↦ simp on (record {
      well_formed = record { stored = h.well_formed.stored; bound = h.well_formed.bound };
      roster = h.roster;
    })
    | inr off ↦ simp off h
  ]
