-- ===== src/Tests/Upkeep.antt =====
-- internal/signal: a session whose code is taken over, the sweep, the counters and the admin API.
use relay_tunnel.Prelude.{
  ◌≡◌, ◌↔◌, ◌≤◌, ◌+◌, ◌*◌, ◌==◌, refl, arith, true, none, some, [], ◌∷◌, ◌++◌, Bytes, codes,
  contains, if◌then◌else◌, NodupKeys, lookup, lookup-nil, nat_eq, bytes_eq, ℕ_discrete,
}
use relay_tunnel.Signal.State.{host, client, Server, new_server, minute}
use relay_tunnel.Signal.Udp.{magic, handle_datagram}
use relay_tunnel.Signal.Udp.Counters.{IsBalanced, handle_datagram-IsBalanced}
use relay_tunnel.Signal.Pairing.{leave, join, fresh_session}
use relay_tunnel.Signal.Pairing.Successor.{join_misses_successor}
use relay_tunnel.Signal.Api.{ok, session_at, prune_ages, handle_delete_session, handle_prune_relays}
use relay_tunnel.Signal.Api.Laws.{tokens_of, handle_delete_session_lem, handle_prune_relays_iff}
use relay_tunnel.Tests.Scenario.{
  hello_with, show_addr, addr_a, addr_b, token_a, token_b, code_x, peer_a, session_x, route_to,
}

-- A server with one session, of which only the host is left.
abbrev alone : Server
alone = record new_server {
  sessions = (code_x, 0) ∷ [];
  objects = (0, record session_x { client_peer = none }) ∷ [];
  peers = (1, peer_a) ∷ [];
  next = 2;
}

alone_lem :
    (lookup 1 alone.peers ≡ some peer_a)
    × (lookup code_x alone.sessions ≡ some 0)
    × (lookup 0 alone.objects ≡ some (record session_x { client_peer = none }))
unfolding lookup nat_eq bytes_eq ℕ_discrete
alone_lem = (refl, refl, refl)

join_misses_successor_example :
    let deleted = (handle_delete_session true code_x alone).0 in
    let joined = (join (hello_with token_a) 20 code_x host deleted).0 in
    let again = (join (hello_with token_b) 30 code_x client (leave 1 joined)).0 in
    (lookup 2 again.objects ≡ some (record (fresh_session 20 code_x) { host_peer = some 3 }))
    × (lookup 4 again.objects ≡ some (record (fresh_session 30 code_x) { client_peer = some 5 }))
    × (lookup code_x again.sessions ≡ some 4)
join_misses_successor_example =
    join_misses_successor (hello_with token_a) (hello_with token_b) 20 30 host client 1 peer_a
      (record session_x { client_peer = none }) alone alone_lem.0 alone_lem.1 alone_lem.2 refl refl
      (omega arith) (omega arith)

-- A server with the routes of two paired tokens.
abbrev routed : Server
routed = record new_server {
  sessions = (code_x, 0) ∷ [];
  objects = (0, record session_x { client_peer = none }) ∷ [];
  peers = (1, peer_a) ∷ [];
  relays =
      (token_a, record (route_to 12 addr_a) { peer = token_b })
      ∷ (token_b, record (route_to 900_000_000_000 addr_b) { peer = token_a })
      ∷ [];
  next = 2;
}

routed-NodupKeys : NodupKeys routed.relays
unfolding lookup bytes_eq ℕ_discrete
routed-NodupKeys = (refl, (lookup-nil token_b, tt))

routed-lookup : lookup token_a routed.relays ≡ some (record (route_to 12 addr_a) { peer = token_b })
unfolding lookup bytes_eq ℕ_discrete
routed-lookup = refl

handle_datagram-IsBalanced_example :
    IsBalanced
      (handle_datagram show_addr 20 addr_a (magic ++ (token_a ++ (42 ∷ []))) routed).0.stats
handle_datagram-IsBalanced_example =
    handle_datagram-IsBalanced show_addr 20 addr_a (magic ++ (token_a ++ (42 ∷ []))) routed
      (omega arith)

routed-session_at : session_at code_x routed ≡ some (record session_x { client_peer = none })
unfolding lookup bytes_eq nat_eq ℕ_discrete
routed-session_at = refl

handle_delete_session_lem_example :
    let (s', sent, response) = handle_delete_session true code_x routed in
    (response ≡ ok 204 tt)
    × ((k : Bytes)
        → lookup k s'.sessions ≡ (if k == code_x then none else lookup k routed.sessions))
    × ((t : Bytes)
        → lookup t s'.relays ≡ (
            if contains (tokens_of (record session_x { client_peer = none }) routed.peers) t
            then none
            else lookup t routed.relays))
handle_delete_session_lem_example =
    handle_delete_session_lem code_x (record session_x { client_peer = none }) routed
      routed-session_at

-- The age of five minutes.
five_minutes : lookup (codes "5m") prune_ages ≡ some (5 * minute)
unfolding lookup bytes_eq ℕ_discrete
five_minutes = refl

handle_prune_relays_iff_example :
    (lookup token_b (handle_prune_relays true 1_000_000_000_000 (codes "5m") routed).0.relays
      ≡ some (record (route_to 900_000_000_000 addr_b) { peer = token_a }))
    ↔ ((lookup token_b routed.relays
          ≡ some (record (route_to 900_000_000_000 addr_b) { peer = token_a }))
        × (1_000_000_000_000 ≤ 900_000_000_000 + 5 * minute))
handle_prune_relays_iff_example =
    handle_prune_relays_iff 1_000_000_000_000 (5 * minute) (codes "5m") token_b
      (record (route_to 900_000_000_000 addr_b) { peer = token_a }) routed five_minutes
      routed-NodupKeys
