-- ===== src/Server/Roster.antt =====
-- internal/server: operations that leave the clients of the document alone.
use spawn_relay.Common.{◌≡◌, refl, arith, List, Option, none, some, Text}
use spawn_relay.Store.{Client, Error}
use spawn_relay.Server.{Env, Server, saved, notify_forwards, sync_firewall}

abbrev pub clients_of : Server → List Client
clients_of s = s.state.clients

pub clients-notify_forwards :
    (id : Text) (s : Server) → clients_of (notify_forwards id s) ≡ clients_of s
unfolding notify_forwards
clients-notify_forwards id s = ground arith

module _ (env : Env) where
  pub clients-saved : (r : Server × Option Error) → clients_of (saved env r).0 ≡ clients_of r.0
  unfolding saved
  clients-saved (s, some e) = refl
  clients-saved (s, none) = ground arith

  pub clients-sync_firewall : (s : Server) → clients_of (sync_firewall env s) ≡ clients_of s
  unfolding sync_firewall
  clients-sync_firewall s = refl

  -- what a handler does behind a successful update
  pub clients-announce :
      (client : Text) (s : Server)
      → clients_of (sync_firewall env (notify_forwards client s)) ≡ clients_of s
  clients-announce client s =
      ground
        (arith, clients-sync_firewall (notify_forwards client s), clients-notify_forwards client s)
