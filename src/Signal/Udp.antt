-- ===== src/Signal/Udp.antt =====
-- internal/signal/server.go: `serveUDP` and `gcRelay`.
pub mod Relay
pub mod Counters
pub mod Sweep
pub mod Keeps
pub mod Isolation
use relay_tunnel.Prelude.{
  ℕ, ◌+◌, ◌-◌, ◌/◌, Bool, not, ◌||◌, ◌==◌, Option, none, some, true, false, List, [], ◌∷◌, ◌++◌,
  Bytes, codes, length, take, drop, ltb, if◌then◌else◌, Dict, lookup, insert, retain, bytes_eq,
}
use relay_tunnel.Signal.State.{
  Addr, Route, new_route, Stats, Server, Effect, datagram, add64, second, relay_ttl,
}

abbrev pub magic : Bytes
magic = codes "RT01"

abbrev pub magic_addr : Bytes
magic_addr = codes "RTAD"

abbrev pub token_len : ℕ
token_len = 16

abbrev pub hdr_len : ℕ
hdr_len = 4 + token_len

-- The test of a datagram that is discarded.
abbrev pub is_invalid : Bytes → Bool
is_invalid buf = ltb (length buf) hdr_len || not (take 4 buf == magic)

abbrev get_or_new : ℕ → Option Route → Route
get_or_new now none = new_route now 0
get_or_new now (some r) = r

-- What a datagram does to the route of its token.
unfoldable pub touch : ℕ → Addr → Bytes → Route → Route
touch now addr [] r = record r { addr = some addr; seen = now }
touch now addr (x ∷ xs) r = record r {
  addr = some addr;
  seen = now;
  packets = add64 r.packets 1;
  bytes = add64 r.bytes (length (x ∷ xs));
}

-- `s.relays[route.peer].addr`, or nil
unfoldable pub peer_addr : Route → Dict Bytes Route → Option Addr
peer_addr route relays = elim (lookup route.peer relays) [ none ↦ none | some peer ↦ peer.addr ]

-- The counters of `serverStats` as a datagram changes them.
abbrev count_packet : ℕ → Stats → Stats
count_packet now t = record t { udp_packets = add64 t.udp_packets 1; last_udp_unix = now / second }

abbrev count_reflection : ℕ → Stats → Stats
count_reflection now t = record t {
  reflections = add64 t.reflections 1;
  last_reflect_unix = now / second;
}

abbrev count_relayed : ℕ → Stats → Stats
count_relayed n t = record t {
  relayed_pkts = add64 t.relayed_pkts 1;
  relayed_bytes = add64 t.relayed_bytes n;
}

-- After the routes are updated: the answer to a reflection request, or the forwarded datagram.
unfoldable pub answer :
    (Addr → Bytes) → ℕ → Addr → Bytes → Bytes → Option Addr → Server → Server × List Effect
answer show now addr token [] to s = (
  record s { stats = count_reflection now s.stats },
  datagram addr (magic_addr ++ show addr) ∷ [],
)
answer show now addr token (x ∷ xs) none s =
    (record s { stats = record s.stats { dropped_pkts = add64 s.stats.dropped_pkts 1 } }, [])
answer show now addr token (x ∷ xs) (some to) s = (
  record s { stats = count_relayed (length (x ∷ xs)) s.stats },
  datagram to (magic ++ (token ++ (x ∷ xs))) ∷ [],
)

unfoldable pub probe : (Addr → Bytes) → ℕ → Addr → Bytes → Bytes → Server → Server × List Effect
unfolding touch peer_addr answer
probe show now addr token payload s =
    let route = touch now addr payload (get_or_new now (lookup token s.relays)) in
    let relays = insert token route s.relays in
    answer show now addr token payload (peer_addr route relays) (record s { relays = relays })

-- One round of the loop of `serveUDP`; `show` is `UDPAddr.String`.
unfoldable pub handle_datagram : (Addr → Bytes) → ℕ → Addr → Bytes → Server → Server × List Effect
unfolding probe
handle_datagram show now addr buf s =
    let s' : Server = record s { stats = count_packet now s.stats } in
    if is_invalid buf
    then (record s' { stats = record s'.stats { udp_invalid = add64 s'.stats.udp_invalid 1 } }, [])
    else probe show now addr (take token_len (drop 4 buf)) (drop hdr_len buf) s'

-- One tick of `gcRelay`.
unfoldable pub sweep : ℕ → Server → Server
sweep now s = record s {
  relays = retain (λ _ route. not (ltb relay_ttl (now - route.seen))) s.relays;
}
