-- ===== src/Signal/Api/Views.antt =====
-- internal/signal/api.go: the views of sessions, relay routes and the server, and their handlers.
use relay_tunnel.Prelude.{
  ℕ, ◌+◌, Bool, ◌==◌, Option, none, some, List, [], ◌∷◌, ◌++◌, map, Bytes, length, ltb, leb,
  if◌then◌else◌, Dict, lookup, nat_eq, bytes_eq,
}
use relay_tunnel.Prelude.Sort.{sort}
use relay_tunnel.Signal.State.{Role, Addr, Route, Peer, Session, Server, relay_ttl}

pub record PeerView : Type 0 where
  pub role : Role
  pub name : Bytes
  pub token : Bytes
  pub ready : Bool
  pub public_addr : Bytes
  pub local_addrs : List Bytes
  pub cert_fingerprint : Bytes
  pub remote_addr : Bytes
  pub joined_at : ℕ

pub record SessionView : Type 0 where
  pub code : Bytes
  pub created_at : ℕ
  pub paired : Bool
  pub paired_at : Option ℕ
  pub peers : List PeerView

pub record RelayView : Type 0 where
  pub token : Bytes
  pub peer_token : Bytes
  pub code : Bytes
  pub role : Option Role
  pub addr : Bytes
  pub first_seen : ℕ
  pub last_seen : ℕ
  pub expires_at : ℕ
  pub packets : ℕ
  pub bytes : ℕ

abbrev peer_view : Peer → PeerView
peer_view p = record {
  role = p.role;
  name = p.name;
  token = p.token;
  ready = p.ready;
  public_addr = p.public;
  local_addrs = p.local;
  cert_fingerprint = p.fp;
  remote_addr = p.remote;
  joined_at = p.joined;
}

-- A slot's part of the loop over the two roles.
abbrev slot_view : Option ℕ → Dict ℕ Peer → List PeerView
slot_view none peers = []
slot_view (some c) peers = elim (lookup c peers) [ none ↦ [] | some p ↦ peer_view p ∷ [] ]

-- `session.view`
unfoldable pub view : Dict ℕ Peer → Session → SessionView
view peers sess = record {
  code = sess.code;
  created_at = sess.created;
  paired = sess.paired;
  paired_at = sess.paired_at;
  peers = slot_view sess.host_peer peers ++ slot_view sess.client_peer peers;
}

unfoldable pub session_views : Server → Dict Bytes ℕ → List SessionView
unfolding view
session_views s [] = []
session_views s ((code, i) ∷ rest) = elim (lookup i s.objects) [
  | none ↦ session_views s rest
  | some sess ↦ view s.peers sess ∷ session_views s rest
]

-- `snapshotSessions`
unfoldable pub snapshot_sessions : Server → List SessionView
unfolding session_views
snapshot_sessions s = sort (λ a b. leb a.created_at b.created_at) (session_views s s.sessions)

abbrev addr_text : (Addr → Bytes) → Option Addr → Bytes
addr_text show none = []
addr_text show (some a) = show a

unfoldable pub relay_view : (Addr → Bytes) → Bytes × Route → RelayView
relay_view show (token, route) = record {
  token = token;
  peer_token = route.peer;
  code = route.code;
  role = route.role;
  addr = addr_text show route.addr;
  first_seen = route.first;
  last_seen = route.seen;
  expires_at = route.seen + relay_ttl;
  packets = route.packets;
  bytes = route.bytes;
}

-- Busiest first, and then the most recently seen first.
unfoldable pub busier : RelayView → RelayView → Bool
busier a b = if a.bytes == b.bytes then leb b.last_seen a.last_seen else ltb b.bytes a.bytes

-- `snapshotRelays`
unfoldable pub snapshot_relays : (Addr → Bytes) → Server → List RelayView
unfolding relay_view busier
snapshot_relays show s = sort busier (map (relay_view show) s.relays)

-- The counts of `handleStatus`.
pub record Counts : Type 0 where
  pub sessions : ℕ
  pub sessions_paired : ℕ
  pub peers_connected : ℕ
  pub relays : ℕ

abbrev slot_count : Option ℕ → ℕ
slot_count none = 0
slot_count (some _) = 1

abbrev count_session : Option Session → Counts → Counts
count_session none n = n
count_session (some sess) n = record n {
  sessions_paired = (if sess.paired then 1 else 0) + n.sessions_paired;
  peers_connected = slot_count sess.host_peer + slot_count sess.client_peer + n.peers_connected;
}

unfoldable pub count_sessions : Server → Dict Bytes ℕ → Counts → Counts
count_sessions s [] n = n
count_sessions s ((code, i) ∷ rest) n = count_session (lookup i s.objects) (count_sessions s rest n)

unfoldable pub status_counts : Server → Counts
unfolding count_sessions
status_counts s = count_sessions s s.sessions (record {
  sessions = length s.sessions;
  sessions_paired = 0;
  peers_connected = 0;
  relays = length s.relays;
})
