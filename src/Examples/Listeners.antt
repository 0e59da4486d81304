-- ===== src/Examples/Listeners.antt =====
-- The listeners at concrete forwards.
use spawn_relay.Common.{
  All, ℕ, true, Text, ◌==◌, ◌≡◌, ◌↔◌, refl, [], ◌∷◌, none, Bool, codes, text_eq, false, true,
}
use spawn_relay.Store.{Forward, proto_tcp, proto_both, has_tcp, has_udp, same}
use spawn_relay.Tunnel.{Kind, tcp, udp, bind_error, running, start, apply, sync_all, mem_id}
use spawn_relay.Tunnel.Start.{IsIdle, IsFree, start_iff}
use spawn_relay.Tunnel.Apply.{IsBound}
use spawn_relay.Tunnel.Listeners.{Serves, apply-Serves, apply_failed}
use spawn_relay.Tunnel.Group.{sync_all-IsBound}
use spawn_relay.Tunnel.Peers.{Relay, receive, reap, stop_peers}
use spawn_relay.Tunnel.Peers.Streams.{IsTidy, here, next, received, reaped, is_live, Reach-IsTidy}
use spawn_relay.Examples.World.{env, game, forward_of, game-IsBound}

-- port 22 is held by another process
abbrev taken : Kind → ℕ → Bool
taken tcp port = port == 22
taken udp port = false

abbrev web : Forward
web = forward_of (codes "f2") proto_tcp 80

start_example :
    (start env.busy (game ∷ []) web ≡ none) ↔ (IsIdle env.busy web × IsFree web (game ∷ []))
start_example = start_iff env.busy (game ∷ []) web

apply-Serves_example : Serves (game ∷ []) (apply env.busy (game ∷ []) web).0 web
unfolding apply text_eq has_tcp has_udp
apply-Serves_example = apply-Serves env.busy (game ∷ []) web game-IsBound refl

game-IsBound-taken : IsBound taken (game ∷ [])
unfolding has_tcp text_eq has_udp
game-IsBound-taken = record { idle = (refl, tt); enabled = (refl, tt); separate = (tt, tt) }

-- the forward moved to the port that is held
abbrev moved : Forward
moved = forward_of (codes "f1") proto_both 22

apply_failed_example :
    running (codes "f1") (apply taken (game ∷ []) moved).0 ≡ running (codes "f1") (game ∷ [])
unfolding apply text_eq has_tcp has_udp same
apply_failed_example =
    apply_failed taken (game ∷ []) moved (bind_error tcp 22) (codes "f1") game-IsBound-taken refl

sync_all_example :
    IsBound taken (sync_all taken (game ∷ []) (web ∷ [])).0
    × All (λ r. mem_id r.id (web ∷ []) ≡ true) (sync_all taken (game ∷ []) (web ∷ [])).0
sync_all_example = sync_all-IsBound taken (game ∷ []) (web ∷ []) game-IsBound-taken

-- a UDP forward that has just started
abbrev started : Relay
started = record { peers = []; live = []; next = 0; total_conns = 0; bytes_in = 0; bytes_out = 0 }

-- a datagram of ten bytes from an address, at the time 7
abbrev greeted : Relay
greeted = receive (codes "a:1") 10 7 true true started

Reach-IsTidy_example :
    IsTidy (reap 8 greeted)
    × ((key : Text) (stream : ℕ) → is_live key stream (stop_peers (reap 8 greeted)) ≡ false)
Reach-IsTidy_example =
    Reach-IsTidy (λ key stream. refl)
      (next (next here (received (codes "a:1") 10 7 true true started)) (reaped 8 greeted))
