-- ===== src/Examples/Updates.antt =====
-- Updates of a client, the settings and the tokens at concrete requests.
use spawn_relay.Common.{◌++◌, ◌∷◌}
use spawn_relay.Server.{Env}
use spawn_relay.Server.Forwards.Unsaved.{create_forward_unsaved}
use spawn_relay.Tunnel.{running}
use spawn_relay.Examples.World.{client}
use spawn_relay.Common.{
  ◌≡◌, ◌≢◌, ◌↔◌, refl, [], some, none, Text, codes, text_eq, text_eq_iff, itoa, false, true,
  trim_space, contains_any, to_lower,
}
use spawn_relay.Store.{client_by_id, port_conflict, clash, has_tcp, has_udp}
use spawn_relay.Store.Validate.{validate, validate_name, validate_fields, is_protocol}
use spawn_relay.Tunnel.{apply}
use spawn_relay.Server.{saved}
use spawn_relay.Server.Forwards.{ForwardInput, new_forward, create_forward}
use spawn_relay.Server.Forwards.Created.{IsCreated, create_forward-IsCreated}
use spawn_relay.Server.Settings.{SettingsInput, Config, valid_host, valid_mode, put_settings}
use spawn_relay.Server.Settings.Laws.{IsUsable, put_settings-IsUsable, put_settings_half}
use spawn_relay.Update.{
  pending, failed, done, ClientUpdate, Session, Pusher, asset_name, note_reconnect, push_update,
}
use spawn_relay.Update.Reconnect.{
  IsSettled, note_reconnect_failed, note_reconnect_done, push_update_iff,
}
use spawn_relay.Examples.World.{env, state, server, game-IsBound}

abbrev pusher : Pusher
pusher = record {
  version = codes "v0.4.0";
  serves = true;
  binary = λ name. true;
  readable = λ name. true;
  auto_update = true;
}

abbrev session_on : Text → Session
session_on v = record {
  client_version = v;
  os = codes "linux";
  arch = codes "amd64";
  allow_update = true;
}

abbrev sent : ClientUpdate
sent = record {
  state = pending;
  target_version = codes "v0.4.0";
  requested_at = 5;
  updated_at = 6;
  automatic = true;
}

other_version : codes "v0.3.0" ≢ codes "v0.4.0"
unfolding text_eq
other_version e = let h : false ≡ true = (text_eq_iff (codes "v0.3.0") (codes "v0.4.0")).1 e in cc h

note_reconnect_failed_example :
    note_reconnect pusher 9 (session_on (codes "v0.3.0")) (some sent)
    ≡ some (record sent { state = failed; updated_at = 9 })
note_reconnect_failed_example =
    note_reconnect_failed pusher 9 (session_on (codes "v0.3.0")) sent refl other_version

note_reconnect_done_example :
    note_reconnect pusher 9 (session_on (codes "v0.4.0")) (some sent)
    ≡ some (record sent { state = done; updated_at = 9 })
note_reconnect_done_example =
    note_reconnect_done pusher 9 (session_on (codes "v0.4.0")) sent refl refl refl

push_update_example :
    ((push_update pusher 9 false (some (session_on (codes "v0.3.0"))) (some sent)).1 ≡ none) ↔ (
      (codes "v0.3.0" ≢ pusher.version)
      × (true ≡ true)
      × (pusher.serves ≡ true)
      × (pusher.binary (asset_name (codes "linux") (codes "amd64")) ≡ true)
      × (pusher.readable (asset_name (codes "linux") (codes "amd64")) ≡ true)
      × IsSettled 9 (some sent))
push_update_example = push_update_iff pusher 9 false (session_on (codes "v0.3.0")) (some sent)

abbrev config : Config
config = record { server = server; public_host = [] }

abbrev relay_host : SettingsInput
relay_host = record {
  public_host = some (codes "relay");
  firewall = some (codes "pf");
  auto_update_clients = none;
}

put_settings_example : IsUsable (put_settings env (some relay_host) config).0.server.state.settings
unfolding valid_host
put_settings_example =
    put_settings-IsUsable env (some relay_host) config (record { host = refl; mode = refl })

put_settings_half_example :
    ((put_settings env (some relay_host) config).1 ≡ 400)
    × ((put_settings env (some relay_host) config).0.server.state.settings.public_host
        ≡ trim_space (codes "relay"))
    × ((put_settings env (some relay_host) config).0.server.disk ≡ state)
    × ((put_settings env (some relay_host) config).0.public_host ≡ [])
unfolding valid_host valid_mode trim_space contains_any to_lower text_eq
put_settings_half_example = put_settings_half env (codes "relay") (codes "pf") none config refl refl

abbrev web : ForwardInput
web = record {
  client_id = some (codes "c1");
  name = none;
  protocol = some (codes "tcp");
  public_port = some 80;
  target_host = none;
  target_port = none;
  enabled = none;
}

create_forward-IsCreated_example :
    IsCreated
      (new_forward (codes "f2") 5 web)
      server
      (create_forward env (codes "f2") 5 (some web) server).0
unfolding create_forward validate validate_name validate_fields trim_space new_forward to_lower itoa
    is_protocol text_eq contains_any saved client_by_id port_conflict clash apply has_tcp has_udp
create_forward-IsCreated_example =
    create_forward-IsCreated env (codes "f2") 5 web server game-IsBound refl

abbrev full_disk : Env
full_disk = record env { saves = false }

create_forward_unsaved_example :
    ((create_forward full_disk (codes "f2") 5 (some web) server).1 ≡ 500)
    × ((create_forward full_disk (codes "f2") 5 (some web) server).0.state.forwards
        ≡ server.state.forwards ++ new_forward (codes "f2") 5 web ∷ [])
    × ((create_forward full_disk (codes "f2") 5 (some web) server).0.disk ≡ server.disk)
    × (running
          (new_forward (codes "f2") 5 web).id
          (create_forward full_disk (codes "f2") 5 (some web) server).0.runners
        ≡ none)
unfolding validate validate_name validate_fields trim_space new_forward to_lower itoa is_protocol
    text_eq contains_any client_by_id port_conflict clash apply has_tcp has_udp
create_forward_unsaved_example =
    create_forward_unsaved full_disk (codes "f2") 5 web server client refl refl refl refl refl refl
