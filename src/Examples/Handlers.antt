-- ===== src/Examples/Handlers.antt =====
-- The handlers at concrete requests.
use spawn_relay.Common.{◌≡◌, ◌↔◌, [], some, none, codes, true}
use spawn_relay.Server.Forwards.{ForwardInput, update_forward}
use spawn_relay.Server.Groups.{GroupInput, create_group}
use spawn_relay.Server.Clients.{delete_client}
use spawn_relay.Server.Clients.Managed.{IsManaged}
use spawn_relay.Server.Settings.{Config}
use spawn_relay.Server.Sessions.{Hello, connect, welcome}
use spawn_relay.Server.Sessions.Handshake.{IsAdmitted, connect_iff}
use spawn_relay.Server.Reach.{
  Reach, here, next, created_group, connected, updated_forward, deleted_client, Reach-IsManaged,
}
use spawn_relay.Examples.World.{env, fold, server, server-IsManaged, drawn, drawn-AreFresh}

abbrev web : ForwardInput
web = record {
  client_id = some (codes "c1");
  name = none;
  protocol = some (codes " TCP ");
  public_port = some 80;
  target_host = none;
  target_port = none;
  enabled = none;
}

abbrev ports : GroupInput
ports = record {
  client_id = some (codes "c1");
  name = none;
  protocol = none;
  ports = some (codes "7777, 9000-9002/udp");
  target_host = none;
  enabled = some true;
}

abbrev hello : Hello
hello = record {
  version = 1;
  token = codes "sr_client_0";
  hostname = codes "box";
  os = codes "linux";
  arch = codes "amd64";
  client_version = codes "v1.0.0";
}

abbrev c0 : Config
c0 = record { server = server; public_host = [] }

-- a group is created, and the client connects and is deleted
abbrev d1 : Config
d1 = record c0 { server = (create_group env (codes "g2") drawn 5 (some ports) c0.server).0 }

abbrev d2 : Config
d2 = record d1 { server = (connect env true (codes "198.51.100.1:40000") 5 hello d1.server).0 }

abbrev d3 : Config
d3 = record d2 { server = (update_forward env (codes "f1") 6 (some web) d2.server).0 }

abbrev d4 : Config
d4 = record d3 { server = (delete_client fold env (codes "c1") d3.server).0 }

requests : Reach fold env c0 d4
requests =
    next
      (next
        (next (next here (created_group (codes "g2") drawn 5 (some ports) c0 drawn-AreFresh))
          (connected true (codes "198.51.100.1:40000") 5 hello d1))
        (updated_forward (codes "f1") 6 (some web) d2))
      (deleted_client (codes "c1") d3)

Reach-IsManaged_example : IsManaged fold env d4.server
Reach-IsManaged_example = Reach-IsManaged fold env server-IsManaged requests

connect_iff_example :
    ((connect env true (codes "198.51.100.1:40000") 5 hello server).1 ≡ welcome (codes "c1"))
    ↔ IsAdmitted env hello server (codes "c1")
connect_iff_example = connect_iff env true (codes "198.51.100.1:40000") 5 hello server (codes "c1")
