-- ===== src/Signal/Pairing/Once.antt =====
-- internal/signal/server.go, `tryPair`: when two peers are told to connect, and that it is once.
use relay_tunnel.Prelude.{
  ℕ, ◌≡◌, refl, inl, inr, true, false, not, ◌&&◌, ◌||◌, Option, some, [], ◌∷◌, arith, lookup,
  insert, lookup-insert, bytes_eq, nat_eq, ℕ_discrete, Option-cases,
}
use relay_tunnel.Signal.State.{
  Role, host, client, role_name, message, type_paired, type_go, Peer, Session, set_peer, Server,
  send,
}
use relay_tunnel.Signal.Pairing.{both_peers, try_pair_session, try_pair}
use relay_tunnel.Signal.Pairing.Linking.{both_peers-eq_some}

-- Both slots of the session are filled, with these peers.
pub record HasPeers (i h c : ℕ) (sess : Session) (hp cp : Peer) (s : Server) : Type 0 where
  pub at_session : lookup i s.objects ≡ some sess
  pub host_slot : sess.host_peer ≡ some h
  pub client_slot : sess.client_peer ≡ some c
  pub at_host : lookup h s.peers ≡ some hp
  pub at_client : lookup c s.peers ≡ some cp

pub both_peers-HasPeers :
    (i h c : ℕ) (sess : Session) (hp cp : Peer) (s : Server)
    → HasPeers i h c sess hp cp s
    → both_peers sess s ≡ some (h, hp, c, cp)
unfolding both_peers
both_peers-HasPeers i h c sess hp cp s p = ground arith

-- Once both peers of an unpaired session are ready, each is told the other's addresses and its own
-- token, the client also the host's fingerprint, and then both are told to go, in that order.
pub try_pair_tells_both :
    (now i h c : ℕ) (sess : Session) (hp cp : Peer) (s : Server)
    → HasPeers i h c sess hp cp s
    → sess.paired ≡ false
    → hp.ready ≡ true
    → cp.ready ≡ true
    → (try_pair now i s).1
      ≡ send h (record (message type_paired) {
        peer_addr = cp.public;
        peer_local_addrs = cp.local;
        peer_role = role_name client;
        relay_token = hp.token;
      })
        ∷ send c (record (message type_paired) {
          peer_addr = hp.public;
          peer_local_addrs = hp.local;
          peer_role = role_name host;
          cert_fingerprint = hp.fp;
          relay_token = cp.token;
        })
        ∷ send h (message type_go)
        ∷ send c (message type_go)
        ∷ []
unfolding try_pair try_pair_session
try_pair_tells_both now i h c sess hp cp s p fresh rh rc = rw (
  p.at_session,
  both_peers-HasPeers i h c sess hp cp s p,
  fresh,
  rh,
  rc,
  try_pair,
  try_pair_session,
)

-- While a peer is missing or not ready, or the session is paired already, nothing happens.
pub try_pair_waits :
    (now i : ℕ) (sess : Session) (s : Server)
    → lookup i s.objects ≡ some sess
    → ((h c : ℕ) (hp cp : Peer)
        → HasPeers i h c sess hp cp s
        → (sess.paired || not (hp.ready && cp.ready)) ≡ true)
    → try_pair now i s ≡ (s, [])
unfolding try_pair try_pair_session
try_pair_waits now i sess s at waits = elim (Option-cases (both_peers sess s)) [
  | inl e ↦ rw (at, e, try_pair, try_pair_session)
  | inr ((h, hp, c, cp), e) ↦
      let (eh, ec, at_h, at_c) = both_peers-eq_some sess s h c hp cp e in
      let w = waits h c hp cp (record {
        at_session = at;
        host_slot = eh;
        client_slot = ec;
        at_host = at_h;
        at_client = at_c;
      }) in
      rw (at, e, w, try_pair, try_pair_session)
]

-- The session with this number has been paired.
abbrev pub IsPaired : ℕ → Server → Type 0
IsPaired i s = (sess : Session) × (lookup i s.objects ≡ some sess) × (sess.paired ≡ true)

-- A paired session is never paired again.
pub try_pair-IsPaired : (now i : ℕ) (s : Server) → IsPaired i s → try_pair now i s ≡ (s, [])
try_pair-IsPaired now i s (sess, at, done) =
    try_pair_waits now i sess s at (λ h c hp cp p. rw (done, ◌||◌))

pub insert_session-IsPaired :
    (i j : ℕ) (new : Session) (s : Server) (sess : Session)
    → lookup i s.objects ≡ some sess
    → sess.paired ≡ true
    → (i ≡ j → new.paired ≡ true)
    → (o : Session) × (lookup i (insert j new s.objects) ≡ some o) × (o.paired ≡ true)
insert_session-IsPaired i j new s sess at done keeps = elim (ℕ_discrete i j) [
  | yes p ↦ (new, ground (arith, lookup-insert i j new s.objects), keeps p)
  | no n ↦ (sess, ground (arith, lookup-insert i j new s.objects), done)
]

pub set_peer_paired :
    (sess : Session) (role : Role) (slot : Option ℕ)
    → (set_peer sess role slot).paired ≡ sess.paired
set_peer_paired sess host slot = refl
set_peer_paired sess client slot = refl
