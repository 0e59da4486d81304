-- ===== src/Tunnel/Peers.antt =====
-- internal/server/tunnel.go: the peers of a UDP forward. `live` stands for the streams of the tunnel that
-- are open, each with the address that it was opened for and its number; the log and the buffers are
-- left out. Times are nanoseconds.
pub mod Streams
use spawn_relay.Common.{
  ℕ, ◌+◌, ◌-◌, ◌*◌, ◌==◌, Bool, true, false, not, ◌&&◌, ◌||◌, List, [], ◌∷◌, Option, none, some,
  Text, text_eq, ltb, suc, keep, any, lookup, put, drop_key, if◌then◌else◌,
}
use spawn_relay.Auth.{second}

-- `udpPeer`; its address is the key of the map
pub record Peer : Type 0 where
  pub stream : ℕ
  pub last : ℕ

-- `forwardRunner`: the peers and the counters; `next` is the number of the next stream
pub record Relay : Type 0 where
  pub peers : List (Text × Peer)
  pub live : List (Text × ℕ)
  pub next : ℕ
  pub total_conns : ℕ
  pub bytes_in : ℕ
  pub bytes_out : ℕ

abbrev pub is_stream : Text → ℕ → Text × ℕ → Bool
is_stream key stream (k, i) = text_eq k key && i == stream

-- `stream.Close`
abbrev pub close : Text → ℕ → List (Text × ℕ) → List (Text × ℕ)
close key stream live = keep (λ t. not (is_stream key stream t)) live

abbrev pub is_peer : ℕ → Option Peer → Bool
is_peer stream none = false
is_peer stream (some p) = p.stream == stream

-- `peer`, at the time `now`: whether `openStream` succeeds is a parameter
unfoldable pub peer : Text → ℕ → Bool → Relay → Option Peer × Relay
peer key now opens s = elim (lookup key s.peers) [
  | some p ↦
      let q : Peer = record p { last = now } in (some q, record s { peers = put key q s.peers })
  | none ↦
      let p : Peer = record { stream = s.next; last = now } in
      if opens
      then (
        some p,
        record s {
          peers = put key p s.peers;
          live = (key, s.next) ∷ s.live;
          next = suc s.next;
          total_conns = suc s.total_conns;
        },
      )
      else (none, s)
]

-- `removePeer`
unfoldable pub remove_peer : Text → ℕ → Relay → Relay
remove_peer key stream s = record s {
  peers = if is_peer stream (lookup key s.peers) then drop_key key s.peers else s.peers;
  live = close key stream s.live;
}

abbrev sent_to : Text → ℕ → Bool → Option Peer × Relay → Relay
sent_to key n wrote (none, s) = s
sent_to key n wrote (some p, s) =
    if wrote then record s { bytes_in = s.bytes_in + n } else remove_peer key p.stream s

-- one round of `udpLoop`: a datagram of `n` bytes from `key`; `wrote` is whether `WriteFrame` succeeds
unfoldable pub receive : Text → ℕ → ℕ → Bool → Bool → Relay → Relay
receive key n now opens wrote s = sent_to key n wrote (peer key now opens s)

-- `p.last.Store(now)` for the peer with the stream
abbrev touch : Text → ℕ → ℕ → Relay → Relay
touch key stream now s =
    if is_peer stream (lookup key s.peers)
    then record s { peers = put key (record { stream = stream; last = now }) s.peers }
    else s

-- one round of `peerReadLoop` for a stream: a reply of `n` bytes, or `none` for an error
unfoldable pub reply : Text → ℕ → ℕ → Option ℕ → Relay → Relay
reply key stream now none s = remove_peer key stream s
reply key stream now (some n) s =
    let t = touch key stream now s in record t { bytes_out = t.bytes_out + n }

-- the calls of `removePeer` for a list of entries of the map
unfoldable pub remove_each : List (Text × Peer) → Relay → Relay
remove_each [] s = s
remove_each ((key, p) ∷ stale) s = remove_each stale (remove_peer key p.stream s)

-- `udpIdle`
abbrev pub udp_idle : ℕ
udp_idle = 90 * second

-- one round of `udpReaper`
unfoldable pub reap : ℕ → Relay → Relay
reap now s = remove_each (keep (λ t. ltb (t.1.last + udp_idle) now) s.peers) s

-- `stop`, for the peers
unfoldable pub stop_peers : Relay → Relay
stop_peers s = remove_each s.peers s
