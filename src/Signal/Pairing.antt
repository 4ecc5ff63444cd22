-- ===== src/Signal/Pairing.antt =====
-- internal/signal/server.go: `handleWS`, `tryPair` and `pairLocked`.
pub mod Joining
pub mod Linking
pub mod Leaving
pub mod Successor
pub mod Once
pub mod Stays
pub mod Routes
use relay_tunnel.Prelude.{
  ◌>>=◌, ℕ, suc, ◌+◌, Bool, true, false, not, ◌&&◌, ◌||◌, ◌==◌, Option, none, some, List, [], ◌∷◌,
  ◌++◌, Bytes, codes, if◌then◌else◌, Dict, lookup, insert, erase, bytes_eq, nat_eq,
}
use relay_tunnel.Signal.State.{
  Role, host, client, role_name, other, Message, message, error_message, type_hello, type_reflected,
  type_paired, type_ready, type_go, Route, new_route, Who, Peer, Session, peer_of, set_peer, Server,
  Effect, reply, send, add64,
}

-- The role of a hello, if it is one of the two.
unfoldable pub parse_role : Bytes → Option Role
parse_role name =
    if name == role_name host
    then some host
    else if name == role_name client
    then some client
    else none

abbrev pub fresh_session : ℕ → Bytes → Session
fresh_session now code = record {
  code = code;
  host_peer = none;
  client_peer = none;
  paired = false;
  created = now;
  paired_at = none;
}

-- Where `net.UDPAddr` text and random tokens come from is the caller's: `token` is `randToken()`,
-- `relay_addr` is `s.publicUDP(r)`, `name` is sanitized, `remote` is the WebSocket's address.
pub record Hello : Type 0 where
  pub token : Bytes
  pub name : Bytes
  pub remote : Bytes
  pub relay_addr : Bytes

-- The critical section that registers a peer, and the answer to it. The peer's number is `s.next`
-- after a session was made.
unfoldable pub register : Hello → ℕ → Bytes → Role → ℕ → Session → Server → Server × List Effect
register h now code role i sess s = elim (peer_of sess role) [
  | some _ ↦ (
    s,
    reply (
          error_message
            (codes "a " ++ (role_name role ++ codes " is already connected for this code")))
        ∷ [],
  )
  | none ↦ (
    record s {
      objects = insert i (set_peer sess role (some s.next)) s.objects;
      peers =
          insert s.next
            (record {
              who = record { role = role; token = h.token; code = code; session = i };
              name = h.name;
              public = [];
              local = [];
              fp = [];
              remote = h.remote;
              joined = now;
              ready = false;
            })
            s.peers;
      next = suc s.next;
      stats = record s.stats { peers_joined = add64 s.stats.peers_joined 1 };
    },
    send s.next
          (record (message type_reflected) { relay_token = h.token; relay_addr = h.relay_addr })
        ∷ [],
  )
]

-- The map lookup, and the pointer that it gives followed: a number that is not in the store is no
-- pointer of the program.
unfoldable pub join : Hello → ℕ → Bytes → Role → Server → Server × List Effect
unfolding register
join h now code role s = elim (lookup code s.sessions) [
  | none ↦
      register h now code role s.next (fresh_session now code)
        (record s { sessions = insert code s.next s.sessions; next = suc s.next })
  | some i ↦ elim (lookup i s.objects) [
    | none ↦ (s, [])
    | some sess ↦ register h now code role i sess s
  ]
]

-- `handleWS` up to its read loop. `hello` is what `ReadJSON` gives, none if it fails.
unfoldable pub handle_hello : Hello → ℕ → Option Message → Server → Server × List Effect
handle_hello h now none s = (s, reply (error_message (codes "expected hello")) ∷ [])
handle_hello h now (some m) s =
    if not (m.kind == type_hello)
    then (s, reply (error_message (codes "expected hello")) ∷ [])
    else if m.code == []
    then (s, reply (error_message (codes "missing code or role")) ∷ [])
    else elim (parse_role m.role) [
      | none ↦ (s, reply (error_message (codes "missing code or role")) ∷ [])
      | some role ↦ join h now m.code role s
    ]

-- The fields that a "ready" message sets, and the closing of the channel.
unfoldable pub mark_ready : ℕ → Message → Server → Server
mark_ready c m s = elim (lookup c s.peers) [
  | none ↦ s
  | some p ↦ record s {
    peers =
        insert c
          (record p {
            public = m.public_addr;
            local = m.local_addrs;
            fp = m.cert_fingerprint;
            ready = true;
          })
          s.peers;
  }
]

abbrev get_or_new : ℕ → Option Route → Route
get_or_new now none = new_route now now
get_or_new now (some r) = r

-- `pairLocked`
unfoldable pub pair_locked :
    ℕ → (token peer code : Bytes) → Role → Dict Bytes Route → Dict Bytes Route
pair_locked now token peer code role relays =
    insert token
      (record (get_or_new now (lookup token relays)) { peer = peer; code = code; role = some role })
      relays

-- What `tryPair` tells the two peers.
abbrev pub paired_messages : (h c : ℕ) → (hp cp : Peer) → List Effect
paired_messages h c hp cp =
    send h (record (message type_paired) {
      peer_addr = cp.public;
      peer_local_addrs = cp.local;
      peer_role = role_name client;
      relay_token = hp.token;
    })
    ∷ send c (record (message type_paired) {
      peer_addr = hp.public;
      peer_local_addrs = hp.local;
      peer_role = role_name host;
      cert_fingerprint = hp.fp;
      relay_token = cp.token;
    })
    ∷ send h (message type_go)
    ∷ send c (message type_go)
    ∷ []

unfoldable pub wire : ℕ → ℕ → Session → (hp cp : Peer) → Server → Server
unfolding pair_locked
wire now i sess hp cp s = record s {
  objects = insert i (record sess { paired = true; paired_at = some now }) s.objects;
  relays =
      pair_locked now cp.token hp.token sess.code client
        (pair_locked now hp.token cp.token sess.code host s.relays);
  stats = record s.stats { pairs = add64 s.stats.pairs 1 };
}

-- The two peers of a session, if both slots are filled.
unfoldable pub both_peers : Session → Server → Option (ℕ × Peer × ℕ × Peer)
both_peers sess s = do
  h ← sess.host_peer
  c ← sess.client_peer
  hp ← lookup h s.peers
  cp ← lookup c s.peers
  some (h, hp, c, cp)

unfoldable pub try_pair_session : ℕ → ℕ → Session → Server → Server × List Effect
unfolding both_peers wire
try_pair_session now i sess s = elim (both_peers sess s) [
  | none ↦ (s, [])
  | some (h, hp, c, cp) ↦
      if sess.paired || not (hp.ready && cp.ready)
      then (s, [])
      else (wire now i sess hp cp s, paired_messages h c hp cp)
]

-- `tryPair`, for the session with the number `i`.
unfoldable pub try_pair : ℕ → ℕ → Server → Server × List Effect
unfolding try_pair_session
try_pair now i s = elim (lookup i s.objects) [
  | none ↦ (s, [])
  | some sess ↦ try_pair_session now i sess s
]

-- The read loop's answer to a "ready" message from the peer `c`; other messages do nothing.
unfoldable pub handle_message : ℕ → ℕ → Message → Server → Server × List Effect
handle_message now c m s =
    if m.kind == type_ready
    then elim (lookup c s.peers) [
      | none ↦ (s, [])
      | some p ↦ try_pair now p.session (mark_ready c m s)
    ]
    else (s, [])

abbrev pub is_empty : Session → Bool
is_empty sess = elim sess.host_peer [
  | some _ ↦ false
  | none ↦ elim sess.client_peer [ some _ ↦ false | none ↦ true ]
]

-- `sess.peers[role] == pc`
abbrev holds : Option ℕ → ℕ → Bool
holds none c = false
holds (some d) c = d == c

unfoldable pub release : ℕ → Peer → Session → Server → Server
release c p sess s =
    let sess' = set_peer sess p.role none in
    let s' : Server = record s { objects = insert p.session sess' s.objects } in
    if holds (peer_of sess p.role) c
    then if is_empty sess' then record s' { sessions = erase p.code s.sessions } else s'
    else s

-- The deferred function of `handleWS`, when the peer's read loop ends.
unfoldable pub leave : ℕ → Server → Server
unfolding release
leave c s = elim (lookup c s.peers) [
  | none ↦ s
  | some p ↦ elim (lookup p.session s.objects) [ none ↦ s | some sess ↦ release c p sess s ]
]
