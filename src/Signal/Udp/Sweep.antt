-- ===== src/Signal/Udp/Sweep.antt =====
-- internal/signal/server.go, `gcRelay`: which routes a sweep keeps.
use relay_tunnel.Prelude.{
  ℕ, ◌+◌, ◌-◌, ◌≤◌, ◌≡◌, ◌↔◌, not, some, Bytes, arith, lookup, lookup-retain, NodupKeys, bytes_eq,
  ltb,
}
use relay_tunnel.Signal.State.{Route, Server, relay_ttl}
use relay_tunnel.Signal.Udp.{sweep}

-- Where no token has two routes, a sweep keeps exactly the routes that were used within the last
-- `relay_ttl`, as they are.
pub sweep_iff :
    (now : ℕ) (s : Server) (token : Bytes) (r : Route)
    → NodupKeys s.relays
    → (lookup token (sweep now s).relays ≡ some r)
      ↔ ((lookup token s.relays ≡ some r) × (now ≤ r.seen + relay_ttl))
unfolding sweep
sweep_iff now s token r u =
    ground
      (arith, lookup-retain (λ _ route. not (ltb relay_ttl (now - route.seen))) token s.relays u)
