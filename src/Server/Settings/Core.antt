-- ===== src/Server/Settings/Core.antt =====
-- internal/server/api.go: the handlers of settings and tokens leave clients, forwards and listeners alone.
use spawn_relay.Common.{
  ℕ, ◌≡◌, refl, arith, Bool, true, false, [], ◌∷◌, ◌++◌, Option, none, some, Text, text_eq,
  trim_space, any, Option-cases, inl, inr, Bool-cases,
}
use spawn_relay.Store.{Error}
use spawn_relay.Store.Validate.{validate_name}
use spawn_relay.Server.{Env, Server, saved, sync_firewall}
use spawn_relay.Server.Clients.Managed.{IsManaged}
use spawn_relay.Server.Settings.{
  SettingsInput, Config, with_settings, change_settings, firewall_changed, finish_settings,
  put_settings, set_tokens, answer_with, new_token, create_token, drop_token, delete_token,
}

-- the parts of the state that the handlers of settings and tokens do not touch
pub record IsKept (s t : Server) : Type 0 where
  pub clients : t.state.clients ≡ s.state.clients
  pub forwards : t.state.forwards ≡ s.state.forwards
  pub runners : t.runners ≡ s.runners

pub IsKept-IsManaged :
    (fold : ℕ → ℕ) (env : Env) (s t : Server)
    → IsKept s t
    → IsManaged fold env s
    → IsManaged fold env t
IsKept-IsManaged fold env s t k h = record {
  well_formed = record {
    stored = rw k.clients (rw k.forwards h.well_formed.stored);
    bound = rw k.runners h.well_formed.bound;
  };
  roster = rw k.clients h.roster;
}

module _ (env : Env) where
  saved-IsKept : (s : Server) (r : Server × Option Error) → IsKept s r.0 → IsKept s (saved env r).0
  unfolding saved
  saved-IsKept s (t, some e) k = k
  saved-IsKept s (t, none) k = record {
    clients = ground (arith, k.clients);
    forwards = ground (arith, k.forwards);
    runners = ground (arith, k.runners);
  }

  finish_settings-IsKept :
      (changed : Bool) (host : Text) (c : Config) (r : Server × Option Error)
      → IsKept c.server r.0
      → IsKept c.server (finish_settings env changed host c r).0.server
  unfolding finish_settings sync_firewall
  finish_settings-IsKept changed host c (s, some e) k = k
  finish_settings-IsKept true host c (s, none) k = record {
    clients = k.clients;
    forwards = k.forwards;
    runners = k.runners;
  }
  finish_settings-IsKept false host c (s, none) k = k

  pub put_settings-IsKept :
      (inp : Option SettingsInput) (c : Config) → IsKept c.server (put_settings env inp c).0.server
  unfolding put_settings
  put_settings-IsKept none c = record { clients = refl; forwards = refl; runners = refl }
  put_settings-IsKept (some inp) c =
      let (x, failed) = change_settings inp c.server.state.settings in
      finish_settings-IsKept (firewall_changed inp.firewall c.server.state.settings) x.public_host c
        (saved env (with_settings x c.server, failed))
        (saved-IsKept c.server (with_settings x c.server, failed)
          (record { clients = refl; forwards = refl; runners = refl }))

  answer_with-IsKept :
      (status : ℕ) (s : Server) (r : Server × Option Error)
      → IsKept s r.0
      → IsKept s (answer_with env status r).0
  unfolding answer_with
  answer_with-IsKept status s (t, some e) k = k
  answer_with-IsKept status s (t, none) k = k

  pub create_token-IsKept :
      (id prefix digest : Text) (now : ℕ) (inp : Option Text) (s : Server)
      → IsKept s (create_token env id prefix digest now inp s).0
  unfolding create_token
  create_token-IsKept id prefix digest now none s = record {
    clients = refl;
    forwards = refl;
    runners = refl;
  }
  create_token-IsKept id prefix digest now (some raw) s =
      elim (Option-cases (validate_name (trim_space raw))) [
        | inr (e, bad) ↦
            rw (bad, create_token) (record { clients = refl; forwards = refl; runners = refl })
        | inl good ↦
            let t =
              set_tokens env
                (s.state.tokens ++ new_token env id (trim_space raw) prefix digest now ∷ []) s in
            rw (good, create_token)
              (answer_with-IsKept 201 s (saved env (t, none)) (
                saved-IsKept s (t, none)
                  (record { clients = refl; forwards = refl; runners = refl })))
      ]

  drop_token-IsKept : (id : Text) (s : Server) → IsKept s (drop_token env id s).0
  unfolding drop_token
  drop_token-IsKept id s = elim (Bool-cases (any (λ t. text_eq t.id id) s.state.tokens)) [
    | inl found ↦ simp found (record { clients = refl; forwards = refl; runners = refl })
    | inr missing ↦ simp missing (record { clients = refl; forwards = refl; runners = refl })
  ]

  pub delete_token-IsKept : (id : Text) (s : Server) → IsKept s (delete_token env id s).0
  unfolding delete_token
  delete_token-IsKept id s =
      answer_with-IsKept 200 s (saved env (drop_token env id s))
        (saved-IsKept s (drop_token env id s) (drop_token-IsKept id s))
