-- ===== src/Server/Invariant.antt =====
-- internal/server: the invariant of the server's state.
use spawn_relay.Common.{
  ◌≡◌, Bool, false, List, [], ◌∷◌, Option, none, some, Text, text_eq, All, Pairwise, find, keep,
  All-append, All-keep, Pairwise-concat, Bool-cases, inl, inr, ◌++◌, ◌∙◌,
}
use spawn_relay.Store.{Forward, Client, Error, clash}
use spawn_relay.Store.Conflict.{Separate, clash_comm, Pairwise-keep}
use spawn_relay.Store.Validate.{validate}
use spawn_relay.Tunnel.Apply.{IsBound}
use spawn_relay.Server.{
  Env, Server, is_reserved, saved, notify_forwards, sync_firewall, has_session,
}

-- a forward that may stand in the store
pub record IsAllowed (env : Env) (f : Forward) : Type 0 where
  pub valid : validate f ≡ none
  pub unreserved : is_reserved env f.public_port ≡ false

-- the client that a forward names exists
abbrev pub IsOwned : List Client → Forward → Type 0
IsOwned cs f = (c : Client) × (find (λ c. text_eq c.id f.client_id) cs ≡ some c)

-- Ids are distinct and no two forwards need one socket; each is valid, off the relay's own ports and
-- owned by a client.
pub record IsStored (env : Env) (cs : List Client) (fs : List Forward) : Type 0 where
  pub separate : Pairwise Separate fs
  pub allowed : All (IsAllowed env) fs
  pub owned : All (IsOwned cs) fs

pub record IsWellFormed (env : Env) (s : Server) : Type 0 where
  pub stored : IsStored env s.state.clients s.state.forwards
  pub bound : IsBound env.busy s.runners

-- a forward that conflicts with none of another id
abbrev pub IsFit : Forward → List Forward → Type 0
IsFit f fs = All (λ o. text_eq o.id f.id ≡ false → clash f o ≡ false) fs

module _ (env : Env) where
  pub saved-IsWellFormed :
      (s : Server) (e : Option Error) → IsWellFormed env s → IsWellFormed env (saved env (s, e)).0
  unfolding saved
  saved-IsWellFormed s (some e) h = h
  saved-IsWellFormed s none h = elim (Bool-cases env.saves) [
    | inl on ↦ simp on (record { stored = h.stored; bound = h.bound })
    | inr off ↦ simp off h
  ]

  pub notify_forwards-IsWellFormed :
      (id : Text) (s : Server) → IsWellFormed env s → IsWellFormed env (notify_forwards id s)
  unfolding notify_forwards
  notify_forwards-IsWellFormed id s h = elim (Bool-cases (has_session id s.online)) [
    | inl on ↦ simp on (record { stored = h.stored; bound = h.bound })
    | inr off ↦ simp off h
  ]

  pub sync_firewall-IsWellFormed :
      (s : Server) → IsWellFormed env s → IsWellFormed env (sync_firewall env s)
  unfolding sync_firewall
  sync_firewall-IsWellFormed s h = record { stored = h.stored; bound = h.bound }

  fit-Separate :
      (f : Forward) (fs : List Forward)
      → IsFit f fs
      → All (λ o. text_eq o.id f.id ≡ false) fs
      → All (λ o. Separate o f) fs
  fit-Separate f [] h k = tt
  fit-Separate f (o ∷ fs) h k = ((k.0, clash_comm o f ∙ h.0 k.0), fit-Separate f fs h.1 k.1)

  pub append-IsStored :
      (cs : List Client) (fs : List Forward) (f : Forward)
      → IsStored env cs fs
      → IsAllowed env f
      → IsOwned cs f
      → IsFit f fs
      → All (λ o. text_eq o.id f.id ≡ false) fs
      → IsStored env cs (fs ++ f ∷ [])
  append-IsStored cs fs f h a o fit fresh = record {
    separate = Pairwise-concat Separate fs f h.separate (fit-Separate f fs fit fresh);
    allowed = All-append (IsAllowed env) fs (f ∷ []) h.allowed (a, tt);
    owned = All-append (IsOwned cs) fs (f ∷ []) h.owned (o, tt);
  }

  pub keep-IsStored :
      (cs : List Client) (p : Forward → Bool) (fs : List Forward)
      → IsStored env cs fs
      → IsStored env cs (keep p fs)
  keep-IsStored cs p fs h = record {
    separate = Pairwise-keep Separate p fs h.separate;
    allowed = All-keep (IsAllowed env) p fs h.allowed;
    owned = All-keep (IsOwned cs) p fs h.owned;
  }
