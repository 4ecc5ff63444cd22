-- ===== src/Signal/Pairing/Routes.antt =====
-- internal/signal/server.go: pairing wires the routes, and the relay works from then on.
use relay_tunnel.Prelude.{
  ℕ, ◌≡◌, ◌≢◌, sym, true, false, some, [], ◌∷◌, ◌++◌, Bytes, arith, length, lookup, lookup-insert,
  Dict, bytes_eq, nat_eq,
}
use relay_tunnel.Signal.State.{Addr, Role, host, client, Route, Peer, Session, Server, datagram}
use relay_tunnel.Signal.Pairing.{get_or_new, pair_locked, wire, try_pair_session, try_pair}
use relay_tunnel.Signal.Pairing.Once.{HasPeers, both_peers-HasPeers}
use relay_tunnel.Signal.Udp.{magic, handle_datagram}
use relay_tunnel.Signal.Udp.Relay.{relay_lem}

-- The routes after a pairing that happens.
try_pair-relays :
    (now i h c : ℕ) (sess : Session) (hp cp : Peer) (s : Server)
    → HasPeers i h c sess hp cp s
    → sess.paired ≡ false
    → hp.ready ≡ true
    → cp.ready ≡ true
    → (try_pair now i s).0.relays
      ≡ pair_locked now cp.token hp.token sess.code client
          (pair_locked now hp.token cp.token sess.code host s.relays)
unfolding try_pair try_pair_session wire
try_pair-relays now i h c sess hp cp s p fresh rh rc = rw (
  p.at_session,
  both_peers-HasPeers i h c sess hp cp s p,
  fresh,
  rh,
  rc,
  try_pair,
  try_pair_session,
  wire,
)

lookup-pair_locked :
    (now : ℕ) (t u code : Bytes) (role : Role) (relays : Dict Bytes Route) (r : Route)
    → lookup t relays ≡ some r
    → lookup t (pair_locked now t u code role relays)
      ≡ some (record r { peer = u; code = code; role = some role })
unfolding pair_locked
lookup-pair_locked now t u code role relays r at = ground (
  arith,
  lookup-insert t t
      (record (get_or_new now (lookup t relays)) { peer = u; code = code; role = some role })
      relays,
)

lookup-pair_locked_ne :
    (now : ℕ) (k t u code : Bytes) (role : Role) (relays : Dict Bytes Route)
    → k ≢ t
    → lookup k (pair_locked now t u code role relays) ≡ lookup k relays
unfolding pair_locked
lookup-pair_locked_ne now k t u code role relays ne = ground (
  arith,
  lookup-insert k t
      (record (get_or_new now (lookup t relays)) { peer = u; code = code; role = some role })
      relays,
)

-- Two ready peers of an unpaired session, with different tokens of 16 bytes that were both
-- reflected, are paired. Right after that, what either sends through the server goes, as it came,
-- to the address at which the other was reflected.
pub try_pair_relays_both_ways :
    (show : Addr → Bytes) (now later i h c : ℕ) (sess : Session) (hp cp : Peer) (s : Server)
    (rh rc : Route) (a b from : Addr) (x : ℕ) (xs : Bytes)
    → HasPeers i h c sess hp cp s
    → sess.paired ≡ false
    → hp.ready ≡ true
    → cp.ready ≡ true
    → length hp.token ≡ 16
    → length cp.token ≡ 16
    → hp.token ≢ cp.token
    → lookup hp.token s.relays ≡ some rh
    → rh.addr ≡ some a
    → lookup cp.token s.relays ≡ some rc
    → rc.addr ≡ some b
    → let s' = (try_pair now i s).0 in
      ((handle_datagram show later from (magic ++ (hp.token ++ (x ∷ xs))) s').1
        ≡ datagram b (magic ++ (hp.token ++ (x ∷ xs))) ∷ [])
      × ((handle_datagram show later from (magic ++ (cp.token ++ (x ∷ xs))) s').1
          ≡ datagram a (magic ++ (cp.token ++ (x ∷ xs))) ∷ [])
try_pair_relays_both_ways show now later i h c sess hp cp s rh rc a b from x xs p fresh ready_h
      ready_c size_h size_c ne at_h addr_h at_c addr_c =
    (
      relay_lem show later from b hp.token x xs s' rh' rc' size_h there (λ e. ne (sym e)) back
          addr_c,
      relay_lem show later from a cp.token x xs s' rc' rh' size_c back (λ e. ne e) there addr_h,
    )
  where
    s' : Server
    s' = (try_pair now i s).0

    rh' : Route
    rh' = record rh { peer = cp.token; code = sess.code; role = some host }

    rc' : Route
    rc' = record rc { peer = hp.token; code = sess.code; role = some client }

    one : Dict Bytes Route
    one = pair_locked now hp.token cp.token sess.code host s.relays

    there : lookup hp.token s'.relays ≡ some rh'
    there =
        rw
          (
            try_pair-relays now i h c sess hp cp s p fresh ready_h ready_c,
            lookup-pair_locked_ne now hp.token cp.token hp.token sess.code client one ne,
          )
          (lookup-pair_locked now hp.token cp.token sess.code host s.relays rh at_h)

    back : lookup cp.token s'.relays ≡ some rc'
    back = rw (try_pair-relays now i h c sess hp cp s p fresh ready_h ready_c) (
        lookup-pair_locked now cp.token hp.token sess.code client one rc (
          rw
            (lookup-pair_locked_ne now cp.token hp.token cp.token sess.code host s.relays
              (λ e. ne (sym e)))
            at_c))
