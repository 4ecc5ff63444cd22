-- ===== src/Signal/Udp/Isolation.antt =====
-- internal/signal/server.go, `serveUDP`: relayed datagrams stay within a session.
use relay_tunnel.Prelude.{
  ℕ, ◌≡◌, ◌⊎◌, refl, inl, inr, Option, none, some, List, [], ◌∷◌, ◌++◌, Bytes, arith, ap, length,
  Dict, lookup, insert, lookup-insert, bytes_eq, Option-cases,
}
use relay_tunnel.Signal.State.{Addr, Route, Peer, Server, Effect, datagram}
use relay_tunnel.Signal.Udp.{
  magic, token_len, get_or_new, touch, peer_addr, answer, probe, count_packet, handle_datagram,
}
use relay_tunnel.Signal.Udp.Relay.{handle_datagram-probe}
use relay_tunnel.Signal.Udp.Keeps.{touch-Inv}
use relay_tunnel.Signal.Invariant.{Inv, Partners}
use relay_tunnel.Signal.Invariant.Frame.{Inv-stats}

-- Nothing is sent, or one datagram, to the address on the route of the sender's partner.
abbrev pub ForwardsTo : Dict ℕ Peer → Dict Bytes Route → Bytes → Bytes → List Effect → Type 0
ForwardsTo peers relays token payload sent =
    (sent ≡ [])
    ⊎ ((u : Bytes) × (r : Route) × (to : Addr) × Partners peers token u
        × (lookup u relays ≡ some r)
        × (r.addr ≡ some to)
        × (sent ≡ datagram to (magic ++ (token ++ payload)) ∷ []))

peer_addr-eq_some :
    (route : Route) (relays : Dict Bytes Route) (to : Addr)
    → peer_addr route relays ≡ some to
    → (r : Route) × (lookup route.peer relays ≡ some r) × (r.addr ≡ some to)
unfolding peer_addr
peer_addr-eq_some route relays to e = elim (Option-cases (lookup route.peer relays)) [
  | inl none_there ↦ absurd (ground arith)
  | inr (r, at) ↦ (r, at, ground arith)
]

answer-relays :
    (show : Addr → Bytes) (now : ℕ) (addr : Addr) (token payload : Bytes) (to : Option Addr)
    (s : Server)
    → (answer show now addr token payload to s).0.relays ≡ s.relays
unfolding answer
answer-relays show now addr token [] to s = refl
answer-relays show now addr token (x ∷ xs) none s = refl
answer-relays show now addr token (x ∷ xs) (some _) s = refl

answer-ForwardsTo :
    (show : Addr → Bytes) (now : ℕ) (addr : Addr) (token : Bytes) (x : ℕ) (xs : Bytes)
    (route : Route) (s : Server)
    → lookup token s.relays ≡ some route
    → Inv s
    → ForwardsTo s.peers s.relays token
        (x ∷ xs)
        (answer show now addr token (x ∷ xs) (peer_addr route s.relays) s).1
unfolding answer
answer-ForwardsTo show now addr token x xs route s at v =
    elim (Option-cases (peer_addr route s.relays)) [
      | inl e ↦ inl (rw (e, answer))
      | inr (to, e) ↦
          let (r, at_r, addr_r) = peer_addr-eq_some route s.relays to e in
          elim (v.isolated token route at) [
            | inl nowhere ↦ absurd (omega (arith, v.sized route.peer r at_r, ap length nowhere))
            | inr partners ↦ inr (route.peer, r, to, partners, at_r, addr_r, rw (e, answer))
          ]
    ]

probe-ForwardsTo :
    (show : Addr → Bytes) (now : ℕ) (from : Addr) (token : Bytes) (x : ℕ) (xs : Bytes) (s : Server)
    → length token ≡ token_len
    → Inv s
    → ForwardsTo s.peers
        (probe show now from token (x ∷ xs) s).0.relays
        token
        (x ∷ xs)
        (probe show now from token (x ∷ xs) s).1
unfolding probe
probe-ForwardsTo show now from token x xs s size v =
    let route = touch now from (x ∷ xs) (get_or_new now (lookup token s.relays)) in
    let s' : Server = record s { relays = insert token route s.relays } in
    rw (answer-relays show now from token (x ∷ xs) (peer_addr route s'.relays) s') (
      answer-ForwardsTo show now from token x xs route s'
        (ground (arith, lookup-insert token token route s.relays))
        (touch-Inv now from token (x ∷ xs) s size v))

-- A datagram with a payload is forwarded, if at all, once, as it came, to where the other peer of the
-- sender's own session was last heard from.
pub handle_datagram-ForwardsTo :
    (show : Addr → Bytes) (now : ℕ) (from : Addr) (token : Bytes) (x : ℕ) (xs : Bytes) (s : Server)
    → length token ≡ token_len
    → Inv s
    → let (s', sent) = handle_datagram show now from (magic ++ (token ++ (x ∷ xs))) s in
      ForwardsTo s.peers s'.relays token (x ∷ xs) sent
handle_datagram-ForwardsTo show now from token x xs s size v =
    rw (handle_datagram-probe show now from token (x ∷ xs) s size) (
      probe-ForwardsTo show now from token x xs (record s { stats = count_packet now s.stats }) size
        (Inv-stats s (count_packet now s.stats) v))
