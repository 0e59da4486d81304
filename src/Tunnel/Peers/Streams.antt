-- ===== src/Tunnel/Peers/Streams.antt =====
-- internal/server/tunnel.go: the streams of the peers of a UDP forward.
use spawn_relay.Common.{
  ℕ, ◌+◌, ltb, ◌==◌, ==_iff, ◌≡◌, ◌∙◌, refl, sym, arith, ap, Bool, true, false, not, ◌&&◌, ◌||◌,
  List, [], ◌∷◌, Option, none, some, Text, text_eq, text_eq_iff, text_eq_refl, text_eq_comm, keep,
  any, lookup, put, lookup-put, lookup-put-other, lookup-drop_key, Bool-cases, Option-cases, inl,
  inr, if◌then◌else◌,
}
use spawn_relay.Tunnel.Peers.{
  Peer, Relay, is_stream, close, is_peer, peer, remove_peer, sent_to, receive, touch, reply,
  remove_each, reap, stop_peers, udp_idle,
}

abbrev pub is_live : Text → ℕ → Relay → Bool
is_live key stream s = any (is_stream key stream) s.live

-- the map has a peer with the stream under the address
abbrev pub is_held : Text → ℕ → Relay → Bool
is_held key stream s = is_peer stream (lookup key s.peers)

-- A stream is open exactly when the map has it.
abbrev pub IsTidy : Relay → Type 0
IsTidy s = (key : Text) (stream : ℕ) → is_live key stream s ≡ is_held key stream s

any-close :
    (key : Text) (stream : ℕ) (k : Text) (i : ℕ) (live : List (Text × ℕ))
    → any (is_stream k i) (close key stream live)
      ≡ (any (is_stream k i) live && not (text_eq key k && stream == i))
any-close key stream k i [] = refl
any-close key stream k i ((j, n) ∷ live) = elim (Bool-cases (is_stream key stream (j, n))) [
  | inr other ↦ elim (Bool-cases (is_stream k i (j, n))) [
    | inr miss ↦ rw other (ground (arith, any-close key stream k i live))
    | inl hit ↦
        let own : j ≡ k = (text_eq_iff j k).0 (ground arith) in
        rw other (ground (arith, ap (λ (x : Text). text_eq x key) own, text_eq_comm key k))
  ]
  | inl same ↦
      let own : j ≡ key = (text_eq_iff j key).0 (ground arith) in
      rw same (ground (arith, any-close key stream k i live, ap (λ (x : Text). text_eq x k) own))
]

is_peer_iff :
    (stream i : ℕ) (o : Option Peer) → is_peer stream o ≡ true → is_peer i o ≡ (stream == i)
is_peer_iff stream i none h = cc
is_peer_iff stream i (some p) h = ground arith

is_peer-same : (i j : ℕ) (o : Option Peer) → (i == j) ≡ true → is_peer i o ≡ is_peer j o
is_peer-same i j o h = ap (λ (n : ℕ). is_peer n o) ((==_iff i j).0 h)

remove_peer-IsTidy :
    (key : Text) (stream : ℕ) (s : Relay) → IsTidy s → IsTidy (remove_peer key stream s)
unfolding remove_peer
remove_peer-IsTidy key stream s h k i =
    any-close key stream k i s.live ∙ elim (Bool-cases (text_eq key k)) [
      | inr apart ↦ elim (Bool-cases (is_held key stream s)) [
        | inl held ↦ rw held (ground (arith, h k i, ap (is_peer i) (lookup-drop_key key k s.peers)))
        | inr loose ↦ rw loose (ground (arith, h k i))
      ]
      | inl same ↦
          let own : key ≡ k = (text_eq_iff key k).0 same in
          let there = ap (λ (x : Text). is_peer i (lookup x s.peers)) own in
          elim (Bool-cases (is_held key stream s)) [
            | inl held ↦ rw held (
                ground (
                  arith,
                  h k i,
                  ap (is_peer i) (lookup-drop_key key k s.peers),
                  there,
                  is_peer_iff stream i (lookup key s.peers) held,
                ))
            | inr loose ↦ elim (Bool-cases (stream == i)) [
              | inl this ↦
                  rw loose
                    (ground (arith, h k i, there, is_peer-same stream i (lookup key s.peers) this))
              | inr that ↦ rw loose (ground (arith, h k i))
            ]
          ]
    ]

held-put :
    (key : Text) (p : Peer) (k : Text) (i : ℕ) (m : List (Text × Peer))
    → is_peer i (lookup k (put key p m))
      ≡ (if text_eq key k then p.stream == i else is_peer i (lookup k m))
held-put key p k i m = elim (Bool-cases (text_eq key k)) [
  | inr apart ↦ rw apart (ap (is_peer i) (lookup-put-other key k p m apart))
  | inl same ↦
      let own : key ≡ k = (text_eq_iff key k).0 same in
      rw same (
        ap (λ (x : Text). is_peer i (lookup x (put key p m))) (sym own)
        ∙ ap (is_peer i) (lookup-put key p m))
]

-- An entry is put again with the stream that it had.
same_stream-IsTidy :
    (key : Text) (p q : Peer) (s : Relay)
    → lookup key s.peers ≡ some p
    → q.stream ≡ p.stream
    → IsTidy s
    → IsTidy (record s { peers = put key q s.peers })
same_stream-IsTidy key p q s e f h k i = h k i ∙ elim (Bool-cases (text_eq key k)) [
  | inr apart ↦ ground (arith, held-put key q k i s.peers)
  | inl same ↦
      let own : key ≡ k = (text_eq_iff key k).0 same in
      let there : is_peer i (lookup k s.peers) ≡ (p.stream == i) =
        ap (λ (x : Text). is_peer i (lookup x s.peers)) (sym own) ∙ ap (is_peer i) e in
      ground (arith, held-put key q k i s.peers, there, ap (λ (n : ℕ). n == i) f)
]

-- A stream is opened for an address without an entry.
opened-held :
    (key : Text) (p : Peer) (k : Text) (i : ℕ) (s : Relay)
    → lookup key s.peers ≡ none
    → is_live k i s ≡ is_held k i s
    → (is_stream k i (key, p.stream) || is_live k i s) ≡ is_peer i (lookup k (put key p s.peers))
opened-held key p k i s new h = elim (Bool-cases (text_eq key k)) [
  | inr apart ↦ ground (arith, h, held-put key p k i s.peers)
  | inl same ↦
      let own : key ≡ k = (text_eq_iff key k).0 same in
      let blank : is_peer i (lookup k s.peers) ≡ false =
        ap (λ (x : Text). is_peer i (lookup x s.peers)) (sym own) ∙ ap (is_peer i) new in
      ground (arith, h, blank, held-put key p k i s.peers)
]

peer-IsTidy :
    (key : Text) (now : ℕ) (opens : Bool) (s : Relay) → IsTidy s → IsTidy (peer key now opens s).1
unfolding peer
peer-IsTidy key now opens s h = elim (Option-cases (lookup key s.peers)) [
  | inr (p, e) ↦ rw (e, peer) (same_stream-IsTidy key p (record p { last = now }) s e refl h)
  | inl new ↦ elim (Bool-cases opens) [
    | inr closed ↦ rw (new, peer) (rw closed h)
    | inl opened ↦
        rw (new, peer)
          (rw opened
            (λ k i. opened-held key (record { stream = s.next; last = now }) k i s new (h k i)))
  ]
]

sent_to-IsTidy :
    (key : Text) (n : ℕ) (wrote : Bool) (r : Option Peer × Relay)
    → IsTidy r.1
    → IsTidy (sent_to key n wrote r)
sent_to-IsTidy key n wrote (none, s) h = h
sent_to-IsTidy key n true (some p, s) h = h
sent_to-IsTidy key n false (some p, s) h = remove_peer-IsTidy key p.stream s h

touch-IsTidy :
    (key : Text) (stream now : ℕ) (s : Relay) → IsTidy s → IsTidy (touch key stream now s)
touch-IsTidy key stream now s h = elim (Bool-cases (is_held key stream s)) [
  | inr loose ↦ rw loose h
  | inl held ↦ elim (Option-cases (lookup key s.peers)) [
    | inl missing ↦ cc (rw (missing, is_peer) at held)
    | inr (p, e) ↦
        let own : p.stream ≡ stream = (==_iff p.stream stream).0 (rw e at held) in
        rw held (same_stream-IsTidy key p (record { stream = stream; last = now }) s e (sym own) h)
  ]
]

remove_each-IsTidy :
    (stale : List (Text × Peer)) (s : Relay) → IsTidy s → IsTidy (remove_each stale s)
unfolding remove_each
remove_each-IsTidy [] s h = h
remove_each-IsTidy ((key, p) ∷ stale) s h =
    remove_each-IsTidy stale (remove_peer key p.stream s) (remove_peer-IsTidy key p.stream s h)

-- one event of a UDP forward; `opened` alone is a datagram before it is written to its stream
pub data Step : Relay → Relay → Type 0 where
  opened : (key : Text) (now : ℕ) (opens : Bool) (s : Relay) → Step s (peer key now opens s).1
  received :
      (key : Text) (n now : ℕ) (opens wrote : Bool) (s : Relay)
      → Step s (receive key n now opens wrote s)
  replied :
      (key : Text) (stream now : ℕ) (n : Option ℕ) (s : Relay) → Step s (reply key stream now n s)
  failed : (key : Text) (stream : ℕ) (s : Relay) → Step s (remove_peer key stream s)
  reaped : (now : ℕ) (s : Relay) → Step s (reap now s)
  stopped : (s : Relay) → Step s (stop_peers s)

pub data Reach (s : Relay) : Relay → Type 0 where
  here : Reach s s
  next : {t u : Relay} → Reach s t → Step t u → Reach s u

Step-IsTidy : {s t : Relay} → Step s t → IsTidy s → IsTidy t
unfolding receive reply reap stop_peers
Step-IsTidy (opened key now opens s) h = peer-IsTidy key now opens s h
Step-IsTidy (received key n now opens wrote s) h =
    sent_to-IsTidy key n wrote (peer key now opens s) (peer-IsTidy key now opens s h)
Step-IsTidy (replied key stream now none s) h = remove_peer-IsTidy key stream s h
Step-IsTidy (replied key stream now (some n) s) h = touch-IsTidy key stream now s h
Step-IsTidy (failed key stream s) h = remove_peer-IsTidy key stream s h
Step-IsTidy (reaped now s) h =
    remove_each-IsTidy (keep (λ t. ltb (t.1.last + udp_idle) now) s.peers) s h
Step-IsTidy (stopped s) h = remove_each-IsTidy s.peers s h

IsTidy-Reach : {s t : Relay} → IsTidy s → Reach s t → IsTidy t
IsTidy-Reach h here = h
IsTidy-Reach h (next r st) = Step-IsTidy st (IsTidy-Reach h r)

lookup-remove_peer :
    (k key : Text) (stream : ℕ) (s : Relay)
    → text_eq key k ≡ false
    → lookup k (remove_peer key stream s).peers ≡ lookup k s.peers
unfolding remove_peer
lookup-remove_peer k key stream s apart = elim (Bool-cases (is_held key stream s)) [
  | inl held ↦ rw held (lookup-drop_key key k s.peers ∙ rw apart refl)
  | inr loose ↦ rw loose refl
]

lookup-remove_peer_own :
    (key : Text) (p : Peer) (s : Relay)
    → lookup key s.peers ≡ some p
    → lookup key (remove_peer key p.stream s).peers ≡ none
unfolding remove_peer
lookup-remove_peer_own key p s e =
    let held : is_held key p.stream s ≡ true =
      ap (is_peer p.stream) e ∙ (==_iff p.stream p.stream).1 refl in
    rw held (lookup-drop_key key key s.peers ∙ rw (text_eq_refl key) refl)

lookup-remove_peer-none :
    (k key : Text) (stream : ℕ) (s : Relay)
    → lookup k s.peers ≡ none
    → lookup k (remove_peer key stream s).peers ≡ none
unfolding remove_peer
lookup-remove_peer-none k key stream s e = elim (Bool-cases (is_held key stream s)) [
  | inl held ↦ rw held (lookup-drop_key key k s.peers ∙ ground (arith, e))
  | inr loose ↦ rw loose e
]

lookup-remove_each-none :
    (k : Text) (l : List (Text × Peer)) (s : Relay)
    → lookup k s.peers ≡ none
    → lookup k (remove_each l s).peers ≡ none
unfolding remove_each
lookup-remove_each-none k [] s e = e
lookup-remove_each-none k ((key, p) ∷ l) s e =
    lookup-remove_each-none k l (remove_peer key p.stream s)
      (lookup-remove_peer-none k key p.stream s e)

-- the removal of what the map shows for an address
lookup-remove_each :
    (k : Text) (l : List (Text × Peer)) (s : Relay)
    → lookup k l ≡ lookup k s.peers
    → lookup k (remove_each l s).peers ≡ none
unfolding remove_each
lookup-remove_each k [] s e = sym e
lookup-remove_each k ((key, p) ∷ l) s e = elim (Bool-cases (text_eq key k)) [
  | inr apart ↦
      lookup-remove_each k l (remove_peer key p.stream s)
        (rw apart at e ∙ sym (lookup-remove_peer k key p.stream s apart))
  | inl same ↦
      let own : key ≡ k = (text_eq_iff key k).0 same in
      let found : lookup key s.peers ≡ some p =
        ap (λ (x : Text). lookup x s.peers) own ∙ sym (rw same at e) in
      let gone = lookup-remove_peer_own key p s found in
      lookup-remove_each-none k l (remove_peer key p.stream s)
        (ap (λ (x : Text). lookup x (remove_peer key p.stream s).peers) (sym own) ∙ gone)
]

-- In every state that a UDP forward reaches by datagrams, replies, failures, rounds of the reaper
-- and stops, a tunnel stream is open exactly if the map of the peers holds it for its address,
-- where this was so at the start; and once the peers of such a state are stopped, no stream is
-- open.
pub Reach-IsTidy :
    {s t : Relay}
    → IsTidy s
    → Reach s t
    → IsTidy t × ((key : Text) (stream : ℕ) → is_live key stream (stop_peers t) ≡ false)
unfolding stop_peers
Reach-IsTidy {s} {t} h r =
    let tidy = IsTidy-Reach h r in
    (
      tidy,
      λ key stream.
          Step-IsTidy (stopped t) tidy key stream
          ∙ ap (is_peer stream) (lookup-remove_each key t.peers t refl),
    )
