-- ===== src/Tests/Relay.antt =====
-- internal/nat: reflection, hole punching and the relayed connection.
use relay_tunnel.Prelude.{
  ◌≡◌, ◌≢◌, ◌↔◌, ◌⊎◌, ◌==◌, if◌then◌else◌, refl, arith, true, Option, none, some, List, [], ◌∷◌,
  Bytes, contains, lookup, nat_eq, bytes_eq, ℕ_discrete,
}
use relay_tunnel.Signal.State.{Addr, Server, new_server, datagram}
use relay_tunnel.Signal.Udp.{handle_datagram}
use relay_tunnel.Nat.Candidates.{
  resolve_candidates, AnyOffers, Distinct, texts, resolve_candidates_lem,
}
use relay_tunnel.Nat.Punch.{punch_rounds, Packet, packet, hello_text, ack_text}
use relay_tunnel.Nat.Punch.Laws.{FirstAck, punch_iff}
use relay_tunnel.Nat.Relay.{reflect, read_from, write_to}
use relay_tunnel.Nat.Relay.Laws.{relayed_lem}
use relay_tunnel.Tests.Scenario.{show_addr, addr_a, addr_b, token_a, token_b, route_to}

-- A stand-in for `net.ResolveUDPAddr`.
abbrev resolve : Bytes → Option Addr
resolve c = if c == 0 ∷ [] then none else some addr_b

abbrev offered : List Bytes
offered = [] ∷ (1 ∷ []) ∷ (0 ∷ []) ∷ (2 ∷ []) ∷ []

resolve_candidates_lem_example :
    ((resolve_candidates resolve show_addr offered ≡ none)
      × ((t : Bytes) → ¬ AnyOffers resolve show_addr offered t))
    ⊎ ((addrs : List Addr) × (resolve_candidates resolve show_addr offered ≡ some addrs)
        × (addrs ≢ [])
        × Distinct resolve show_addr (texts resolve show_addr addrs)
        × ((t : Bytes)
            → (contains (texts resolve show_addr addrs) t ≡ true)
              ↔ AnyOffers resolve show_addr offered t))
resolve_candidates_lem_example = resolve_candidates_lem resolve show_addr offered

-- A timeout, a hello, a stray datagram and an acknowledgement.
abbrev rounds : List (Option Packet)
rounds =
    none
    ∷ some (packet addr_b hello_text)
    ∷ some (packet addr_a ack_text)
    ∷ some (packet addr_b ack_text)
    ∷ []

punch_iff_example :
    ((punch_rounds show_addr (addr_b ∷ []) [] rounds).peer ≡ some addr_b)
    ↔ FirstAck (addr_b ∷ []) rounds addr_b
punch_iff_example = punch_iff show_addr (addr_b ∷ []) [] rounds addr_b

-- A server with the routes of two paired tokens.
abbrev routed : Server
routed = record new_server {
  relays =
      (token_a, record (route_to 12 addr_a) { peer = token_b })
      ∷ (token_b, record (route_to 13 addr_b) { peer = token_a })
      ∷ [];
}

routed_lem :
    (lookup token_a routed.relays ≡ some (record (route_to 12 addr_a) { peer = token_b }))
    × (lookup token_b routed.relays ≡ some (record (route_to 13 addr_b) { peer = token_a }))
unfolding lookup bytes_eq ℕ_discrete
routed_lem = (refl, refl)

other-ne : token_b ≢ token_a
other-ne e = absurd (ground arith)

relayed_lem_example :
    (d : Bytes) × ((handle_datagram show_addr 20 addr_a (write_to token_a (42 ∷ [])) routed).1
      ≡ datagram addr_b d ∷ [])
    × (read_from 1500 (some d ∷ []) ≡ some (42 ∷ [], []))
relayed_lem_example =
    relayed_lem show_addr 20 addr_a addr_b token_a 42 [] routed
      (record (route_to 12 addr_a) { peer = token_b })
      (record (route_to 13 addr_b) { peer = token_a }) 1500 [] refl routed_lem.0 other-ne
      routed_lem.1 refl (omega arith)

quiet_lem : reflect (none ∷ some hello_text ∷ []) ≡ none
unfolding reflect bytes_eq ℕ_discrete
quiet_lem = refl
