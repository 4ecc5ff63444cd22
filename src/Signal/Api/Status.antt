-- ===== src/Signal/Api/Status.antt =====
-- internal/signal/api.go: the status of the server, and the handlers that only read. The attributes of
-- the request are the outcome of `s.authorized(r)` and `r.Host`; times, and the uptime, are
-- nanoseconds.
pub mod Advertised
use relay_tunnel.Prelude.{
  ℕ, ◌-◌, ◌*◌, ◌/◌, [], Bool, true, false, ◌==◌, Option, none, some, List, Bytes, codes,
  if◌then◌else◌, nat_eq, bytes_eq,
}
use relay_tunnel.Signal.State.{Addr, Server, Stats, Session, second, relay_ttl}
use relay_tunnel.Signal.Names.{public_udp_of, sanitize_name}
use relay_tunnel.Signal.Names.Token.{rand_token}
use relay_tunnel.Signal.Pairing.{Hello}
use relay_tunnel.Signal.Api.{Response, failed, ok, unauthorized, session_at}
use relay_tunnel.Signal.Api.Views.{
  Counts, SessionView, RelayView, view, snapshot_sessions, snapshot_relays, status_counts,
}

-- The parts of `Config` that the views show.
pub record ServerConfig : Type 0 where
  pub name : Bytes
  pub version : Bytes
  pub http_addr : Bytes
  pub udp_addr : Bytes
  pub public_udp_addr : Bytes
  pub public_url : Bytes

pub record TotalsView : Type 0 where
  pub peers_joined : ℕ
  pub pairs : ℕ
  pub reflections : ℕ
  pub relayed_packets : ℕ
  pub relayed_bytes : ℕ
  pub dropped_packets : ℕ

pub record UdpView : Type 0 where
  pub bound_addr : Bytes
  pub advertised_addr : Bytes
  pub advertised_derived : Bool
  pub packets_received : ℕ
  pub invalid_packets : ℕ
  pub last_packet_at : Option ℕ
  pub last_reflection_at : Option ℕ

pub record StatusView : Type 0 where
  pub name : Bytes
  pub version : Bytes
  pub started_at : ℕ
  pub uptime : ℕ
  pub http_addr : Bytes
  pub udp_addr : Bytes
  pub public_udp_addr : Bytes
  pub public_url : Bytes
  pub counts : Counts
  pub relay_ttl_seconds : ℕ
  pub totals : TotalsView
  pub udp : UdpView

-- `stampOf`, of Unix seconds; 0 is that nothing has been recorded.
abbrev pub stamp_of : ℕ → Option ℕ
stamp_of n = if n == 0 then none else some (n * second)

abbrev pub totals_view : Stats → TotalsView
totals_view t = record {
  peers_joined = t.peers_joined;
  pairs = t.pairs;
  reflections = t.reflections;
  relayed_packets = t.relayed_pkts;
  relayed_bytes = t.relayed_bytes;
  dropped_packets = t.dropped_pkts;
}

module _ (split_host_port : Bytes → Option (Bytes × Bytes)) (join_host_port : Bytes → Bytes → Bytes)
    (c : ServerConfig) where
  -- `s.publicUDP(r)`
  abbrev pub advertised : Bytes → Bytes
  advertised host = public_udp_of split_host_port join_host_port c.public_udp_addr c.udp_addr host

  -- What `handleWS` puts in a `peerConn` of itself: a token of these random bytes, the sanitized name and
  -- the addresses.
  abbrev pub hello_of : Bytes → List ℕ → Bytes → Bytes → Hello
  hello_of random name remote host = record {
    token = rand_token random;
    name = sanitize_name name;
    remote = remote;
    relay_addr = advertised host;
  }

  -- `udpView`
  abbrev pub udp_view : Bytes → Stats → UdpView
  udp_view host t = record {
    bound_addr = c.udp_addr;
    advertised_addr = advertised host;
    advertised_derived = c.public_udp_addr == [];
    packets_received = t.udp_packets;
    invalid_packets = t.udp_invalid;
    last_packet_at = stamp_of t.last_udp_unix;
    last_reflection_at = stamp_of t.last_reflect_unix;
  }

  unfoldable pub handle_status : Bool → Bytes → ℕ → ℕ → Server → Response StatusView
  unfolding status_counts
  handle_status false host started now s = unauthorized
  handle_status true host started now s = ok 200 (record {
    name = c.name;
    version = if c.version == [] then codes "dev" else c.version;
    started_at = started;
    uptime = now - started;
    http_addr = c.http_addr;
    udp_addr = c.udp_addr;
    public_udp_addr = c.public_udp_addr;
    public_url = c.public_url;
    counts = status_counts s;
    relay_ttl_seconds = relay_ttl / second;
    totals = totals_view s.stats;
    udp = udp_view host s.stats;
  })

unfoldable pub handle_list_sessions : Bool → Server → Response (List SessionView)
unfolding snapshot_sessions
handle_list_sessions false s = unauthorized
handle_list_sessions true s = ok 200 (snapshot_sessions s)

unfoldable pub handle_list_relays : (Addr → Bytes) → Bool → Server → Response (List RelayView)
unfolding snapshot_relays
handle_list_relays show false s = unauthorized
handle_list_relays show true s = ok 200 (snapshot_relays show s)

unfoldable pub handle_get_session : Bool → Bytes → Server → Response SessionView
unfolding view
handle_get_session false code s = unauthorized
handle_get_session true code s = elim (session_at code s) [
  | none ↦ failed 404 (codes "no such session")
  | some sess ↦ ok 200 (view s.peers sess)
]
