-- ===== src/Signal/State.antt =====
-- internal/signal/proto.go and the types of internal/signal/server.go. Peers and sessions are shared
-- through pointers, so they live in stores under numbers, which `next` hands out.
use relay_tunnel.Prelude.{
  ℕ, ◌+◌, ◌*◌, ◌%◌, ◌^◌, Bool, false, Option, none, List, [], Bytes, codes, Dict, nat_eq, bytes_eq,
}

pub data Role : Type 0 where
  host client : Role

abbrev pub role_name : Role → Bytes
role_name host = codes "host"
role_name client = codes "client"

abbrev pub other : Role → Role
other host = client
other client = host

pub Role-discrete : Discrete Role
Role-discrete = hlevel

-- `Type` is `kind`; a field that a message leaves out is empty.
pub record Message : Type 0 where
  pub kind : Bytes
  pub role : Bytes
  pub code : Bytes
  pub name : Bytes
  pub public_addr : Bytes
  pub local_addrs : List Bytes
  pub peer_addr : Bytes
  pub peer_local_addrs : List Bytes
  pub peer_role : Bytes
  pub cert_fingerprint : Bytes
  pub relay_token : Bytes
  pub relay_addr : Bytes
  pub fallback : Bool
  pub error : Bytes

abbrev pub type_hello : Bytes
type_hello = codes "hello"

abbrev pub type_reflected : Bytes
type_reflected = codes "reflected"

abbrev pub type_paired : Bytes
type_paired = codes "paired"

abbrev pub type_ready : Bytes
type_ready = codes "ready"

abbrev pub type_go : Bytes
type_go = codes "go"

abbrev pub type_error : Bytes
type_error = codes "error"

-- `Message{Type: kind}`
abbrev pub message : Bytes → Message
message k = record {
  kind = k;
  role = [];
  code = [];
  name = [];
  public_addr = [];
  local_addrs = [];
  peer_addr = [];
  peer_local_addrs = [];
  peer_role = [];
  cert_fingerprint = [];
  relay_token = [];
  relay_addr = [];
  fallback = false;
  error = [];
}

abbrev pub error_message : Bytes → Message
error_message text = record (message type_error) { error = text }

-- `net.UDPAddr`
pub record Addr : Type 0 where
  pub ip : Bytes
  pub port : ℕ
  pub zone : Bytes

-- Times and durations are nanoseconds.
abbrev pub second : ℕ
second = 1_000_000_000

abbrev pub minute : ℕ
minute = 60 * second

abbrev pub hour : ℕ
hour = 60 * minute

abbrev pub relay_ttl : ℕ
relay_ttl = 3 * minute

-- Addition on `uint64`.
abbrev pub add64 : ℕ → ℕ → ℕ
add64 a b = (a + b) % 2 ^ 64

-- `relayRoute`. No role is the empty role of a route that is not paired.
pub record Route : Type 0 where
  pub peer : Bytes
  pub code : Bytes
  pub role : Option Role
  pub addr : Option Addr
  pub first : ℕ
  pub seen : ℕ
  pub packets : ℕ
  pub bytes : ℕ

-- `&relayRoute{first: first, seen: seen}`
abbrev pub new_route : ℕ → ℕ → Route
new_route first seen = record {
  peer = [];
  code = [];
  role = none;
  addr = none;
  first = first;
  seen = seen;
  packets = 0;
  bytes = 0;
}

-- What a peer joined as, which never changes: fields of `peerConn`, and the variables `sess` and
-- `hello.Code` of the handler that serves it.
pub record Who : Type 0 where
  pub role : Role
  pub token : Bytes
  pub code : Bytes
  pub session : ℕ

-- `peerConn`. `ready` tells whether its channel is closed.
pub record Peer : Type 0 where
  pub who : Who
  pub open who use *
  pub name : Bytes
  pub public : Bytes
  pub local : List Bytes
  pub fp : Bytes
  pub remote : Bytes
  pub joined : ℕ
  pub ready : Bool

-- `session`. The map `peers` has an entry for each role at most; `paired_at` is none while it is the
-- zero time.
pub record Session : Type 0 where
  pub code : Bytes
  pub host_peer : Option ℕ
  pub client_peer : Option ℕ
  pub paired : Bool
  pub created : ℕ
  pub paired_at : Option ℕ

-- `sess.peers[role]`
abbrev pub peer_of : Session → Role → Option ℕ
peer_of s host = s.host_peer
peer_of s client = s.client_peer

-- `sess.peers[role] = p`, and `delete(sess.peers, role)` with `none`
abbrev pub set_peer : Session → Role → Option ℕ → Session
set_peer s host p = record s { host_peer = p }
set_peer s client p = record s { client_peer = p }

-- `serverStats`
pub record Stats : Type 0 where
  pub peers_joined : ℕ
  pub pairs : ℕ
  pub reflections : ℕ
  pub relayed_pkts : ℕ
  pub relayed_bytes : ℕ
  pub dropped_pkts : ℕ
  pub udp_packets : ℕ
  pub udp_invalid : ℕ
  pub last_udp_unix : ℕ
  pub last_reflect_unix : ℕ

-- `Server`: the maps `sessions` (by code) and `relays` (by token), and the objects behind pointers.
pub record Server : Type 0 where
  pub sessions : Dict Bytes ℕ
  pub relays : Dict Bytes Route
  pub objects : Dict ℕ Session
  pub peers : Dict ℕ Peer
  pub next : ℕ
  pub stats : Stats

abbrev pub new_server : Server
new_server = record {
  sessions = [];
  relays = [];
  objects = [];
  peers = [];
  next = 0;
  stats = record {
    peers_joined = 0;
    pairs = 0;
    reflections = 0;
    relayed_pkts = 0;
    relayed_bytes = 0;
    dropped_pkts = 0;
    udp_packets = 0;
    udp_invalid = 0;
    last_udp_unix = 0;
    last_reflect_unix = 0;
  };
}

-- What a step sends: a message on the connection being served, one to a peer, the end of a peer's
-- connection, or a datagram.
pub data Effect : Type 0 where
  reply : Message → Effect
  send : ℕ → Message → Effect
  close : ℕ → Effect
  datagram : Addr → Bytes → Effect
