-- ===== src/Examples/World.antt =====
-- A server with one client and one forward.
use spawn_relay.Common.{
  arith, ℕ, ◌+◌, refl, [], ◌∷◌, none, Text, codes, text_eq, trim_space, contains_any, false, true,
}
use spawn_relay.Store.{Client, Forward, State, proto_both, has_tcp, has_udp}
use spawn_relay.Store.Validate.{validate, validate_name, validate_fields, is_protocol}
use spawn_relay.Tunnel.Apply.{IsBound}
use spawn_relay.Server.{Env, Server}
use spawn_relay.Server.Invariant.{IsWellFormed}
use spawn_relay.Server.Clients.Managed.{IsManaged}
use spawn_relay.Server.Groups.Members.{AreFresh}

abbrev pub env : Env
env = record { tunnel_port = 7835; admin_port = 7836; busy = λ k port. false; saves = true }

abbrev pub fold : ℕ → ℕ
fold n = n

abbrev pub client : Client
client = record {
  id = codes "c1";
  name = codes "home";
  token = codes "sr_client_0";
  created_at = 0;
  updated_at = 0;
  last_seen_at = none;
  last_addr = [];
  hostname = [];
  os = [];
  arch = [];
  client_version = [];
}

abbrev pub forward_of : Text → Text → ℕ → Forward
forward_of id protocol port = record {
  id = id;
  client_id = codes "c1";
  group_id = codes "g1";
  name = codes "game";
  protocol = protocol;
  public_port = port;
  target_host = codes "127.0.0.1";
  target_port = port;
  enabled = true;
  created_at = 0;
  updated_at = 0;
}

abbrev pub game : Forward
game = forward_of (codes "f1") proto_both 7777

abbrev pub state : State
state = record {
  admin = record { username = codes "admin"; password_hash = []; salt = []; iterations = 0 };
  settings = record { public_host = []; firewall = []; auto_update_clients = false };
  clients = client ∷ [];
  forwards = game ∷ [];
  tokens = [];
}

abbrev pub server : Server
server = record {
  state = state;
  disk = state;
  runners = game ∷ [];
  online = codes "c1" ∷ [];
  trace = [];
}

pub game-IsBound : IsBound env.busy (game ∷ [])
unfolding has_tcp text_eq has_udp
game-IsBound = record { idle = (refl, tt); enabled = (refl, tt); separate = (tt, tt) }

pub server-IsWellFormed : IsWellFormed env server
unfolding validate validate_fields validate_name is_protocol trim_space text_eq contains_any
server-IsWellFormed = record {
  stored = record {
    separate = (tt, tt);
    allowed = (record { valid = refl; unreserved = refl }, tt);
    owned = ((client, refl), tt);
  };
  bound = game-IsBound;
}

pub server-IsManaged : IsManaged fold env server
server-IsManaged = record { well_formed = server-IsWellFormed; roster = (tt, tt) }

-- the ids that are drawn
abbrev pub drawn : ℕ → Text
drawn i = (1000 + i) ∷ []

pub drawn-AreFresh : AreFresh drawn state.forwards
unfolding text_eq
drawn-AreFresh = record { distinct = λ i k h. ground arith; unused = λ i. (ground arith, tt) }
