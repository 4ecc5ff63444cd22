-- ===== src/Tests/Sessions.antt =====
-- internal/signal: the pairing of two peers, one of them leaving, and the admin API.
use relay_tunnel.Prelude.{
  ◌≡◌, ◌≢◌, refl, arith, true, some, List, [], ◌∷◌, ◌++◌, codes, nat_eq, bytes_eq,
}
use relay_tunnel.Signal.State.{message, type_ready, new_server, datagram}
use relay_tunnel.Signal.Udp.{magic, handle_datagram}
use relay_tunnel.Signal.Udp.Isolation.{ForwardsTo}
use relay_tunnel.Signal.Pairing.{try_pair}
use relay_tunnel.Signal.Pairing.Once.{HasPeers}
use relay_tunnel.Signal.Pairing.Routes.{try_pair_relays_both_ways}
use relay_tunnel.Signal.Invariant.{Inv}
use relay_tunnel.Signal.Step.{Event, hello, marked, left, run}
use relay_tunnel.Signal.Safety.{
  AreFair, new_server-Inv, run-Inv, forwards_within_session, never_paired_again,
}
use relay_tunnel.Tests.Scenario.{
  show_addr, addr_a, addr_b, token_a, token_b, hello_with, hello_as, all_paired, before_pairing,
  after_pairing, peer_a, peer_b, session_x, route_to, before_pairing_lem, after_pairing_lem,
}

all_paired-fair : AreFair all_paired
all_paired-fair = (refl, (refl, (tt, (tt, (tt, (tt, (tt, tt)))))))

forwards_within_session_example :
    let r = handle_datagram show_addr 20 addr_a (magic ++ (token_a ++ (42 ∷ []))) after_pairing in
    ForwardsTo after_pairing.peers r.0.relays token_a (42 ∷ []) r.1
forwards_within_session_example =
    forwards_within_session show_addr all_paired 20 addr_a token_a 42 [] all_paired-fair refl

run-Inv_example : Inv after_pairing
run-Inv_example = run-Inv show_addr all_paired new_server all_paired-fair new_server-Inv

-- The host leaves, and another one joins in its place and is ready.
abbrev host_again : List Event
host_again =
    left 1
    ∷ hello (hello_with token_a) 30 (some (hello_as (codes "host")))
    ∷ marked 3 (message type_ready)
    ∷ []

never_paired_again_example :
    try_pair 31 0 (run show_addr host_again after_pairing)
    ≡ (run show_addr host_again after_pairing, [])
never_paired_again_example =
    never_paired_again show_addr host_again 31 0 after_pairing (tt, (refl, (tt, tt)))
      (run-Inv show_addr all_paired new_server all_paired-fair new_server-Inv)
      (record session_x { paired = true; paired_at = some 14 }, after_pairing_lem, refl)

both_here : HasPeers 0 1 2 session_x peer_a peer_b before_pairing
both_here =
    let (s, a, b, _, _) = before_pairing_lem in
    record { at_session = s; host_slot = refl; client_slot = refl; at_host = a; at_client = b }

tokens-ne : token_a ≢ token_b
tokens-ne e = absurd (ground arith)

try_pair_relays_both_ways_example :
    let s' = (try_pair 14 0 before_pairing).0 in
    ((handle_datagram show_addr 20 addr_a (magic ++ (token_a ++ (42 ∷ []))) s').1
      ≡ datagram addr_b (magic ++ (token_a ++ (42 ∷ []))) ∷ [])
    × ((handle_datagram show_addr 20 addr_a (magic ++ (token_b ++ (42 ∷ []))) s').1
        ≡ datagram addr_a (magic ++ (token_b ++ (42 ∷ []))) ∷ [])
try_pair_relays_both_ways_example =
    try_pair_relays_both_ways show_addr 14 20 0 1 2 session_x peer_a peer_b before_pairing
      (route_to 12 addr_a) (route_to 13 addr_b) addr_a addr_b addr_a 42 [] both_here refl refl refl
      refl refl tokens-ne before_pairing_lem.3 refl before_pairing_lem.4 refl
