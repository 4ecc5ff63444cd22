-- ===== src/Tests/Scenario.antt =====
-- internal/signal: two peers that join under one code, are reflected and paired.
use relay_tunnel.Prelude.{
  ℕ, ◌≡◌, refl, true, false, none, some, List, [], ◌∷◌, ◌++◌, Bytes, codes, lookup, insert, nat_eq,
  bytes_eq, ℕ_discrete,
}
use relay_tunnel.Signal.State.{
  Addr, host, client, Message, message, type_hello, type_ready, Route, Peer, Session, Server,
  new_server,
}
use relay_tunnel.Signal.Udp.{magic, handle_datagram, probe, touch, peer_addr, answer}
use relay_tunnel.Signal.Pairing.{
  Hello, handle_hello, join, register, parse_role, mark_ready, try_pair, try_pair_session,
  both_peers, wire, pair_locked,
}
use relay_tunnel.Signal.Step.{Event, hello, marked, paired, packet, run, step}

-- A stand-in for `UDPAddr.String`.
abbrev pub show_addr : Addr → Bytes
show_addr a = a.ip ++ (a.port ∷ [])

abbrev pub addr_a : Addr
addr_a = record { ip = 1 ∷ 2 ∷ 3 ∷ 4 ∷ []; port = 7000; zone = [] }

abbrev pub addr_b : Addr
addr_b = record { ip = 5 ∷ 6 ∷ 7 ∷ 8 ∷ []; port = 9000; zone = [] }

abbrev pub token_a : Bytes
token_a = codes "aaaaaaaaaaaaaaaa"

abbrev pub token_b : Bytes
token_b = codes "bbbbbbbbbbbbbbbb"

abbrev pub code_x : Bytes
code_x = codes "x"

abbrev pub hello_with : Bytes → Hello
hello_with token = record { token = token; name = []; remote = []; relay_addr = [] }

abbrev pub hello_as : Bytes → Message
hello_as role = record (message type_hello) { role = role; code = code_x }

abbrev pub joined : List Event
joined =
    hello (hello_with token_a) 10 (some (hello_as (codes "host")))
    ∷ hello (hello_with token_b) 11 (some (hello_as (codes "client")))
    ∷ packet 12 addr_a (magic ++ token_a)
    ∷ packet 13 addr_b (magic ++ token_b)
    ∷ marked 1 (message type_ready)
    ∷ marked 2 (message type_ready)
    ∷ []

abbrev pub all_paired : List Event
all_paired = joined ++ (paired 14 0 ∷ [])

-- The server after these events.
abbrev pub after_pairing : Server
after_pairing = run show_addr all_paired new_server

abbrev pub before_pairing : Server
before_pairing = run show_addr joined new_server

abbrev pub peer_a : Peer
peer_a = record {
  who = record { role = host; token = token_a; code = code_x; session = 0 };
  name = [];
  public = [];
  local = [];
  fp = [];
  remote = [];
  joined = 10;
  ready = true;
}

abbrev pub peer_b : Peer
peer_b = record {
  who = record { role = client; token = token_b; code = code_x; session = 0 };
  name = [];
  public = [];
  local = [];
  fp = [];
  remote = [];
  joined = 11;
  ready = true;
}

abbrev pub session_x : Session
session_x = record {
  code = code_x;
  host_peer = some 1;
  client_peer = some 2;
  paired = false;
  created = 10;
  paired_at = none;
}

abbrev pub route_to : ℕ → Addr → Route
route_to at addr = record {
  peer = [];
  code = [];
  role = none;
  addr = some addr;
  first = at;
  seen = at;
  packets = 0;
  bytes = 0;
}

-- The joining events leave this state.
pub before_pairing_lem :
    (lookup 0 before_pairing.objects ≡ some session_x)
    × (lookup 1 before_pairing.peers ≡ some peer_a)
    × (lookup 2 before_pairing.peers ≡ some peer_b)
    × (lookup token_a before_pairing.relays ≡ some (route_to 12 addr_a))
    × (lookup token_b before_pairing.relays ≡ some (route_to 13 addr_b))
unfolding run step handle_hello join register parse_role mark_ready handle_datagram probe touch
    peer_addr answer lookup insert nat_eq bytes_eq ℕ_discrete
before_pairing_lem = (refl, refl, refl, refl, refl)

pub after_pairing_lem :
    lookup 0 after_pairing.objects ≡ some (record session_x { paired = true; paired_at = some 14 })
unfolding run step handle_hello join register parse_role mark_ready handle_datagram probe touch
    peer_addr answer try_pair try_pair_session both_peers wire pair_locked lookup insert nat_eq
    bytes_eq ℕ_discrete
after_pairing_lem = refl
