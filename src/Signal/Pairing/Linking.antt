-- ===== src/Signal/Pairing/Linking.antt =====
-- internal/signal/server.go: a "ready" message and `tryPair` keep the server's invariant.
use relay_tunnel.Prelude.{
  ℕ, ◌≡◌, refl, inl, inr, true, not, ◌&&◌, ◌||◌, Option, none, some, Bytes, arith, length, lookup,
  insert, lookup-insert, Dict, bytes_eq, nat_eq, ℕ_discrete, subst, Option-cases, Bool-cases,
}
use relay_tunnel.Signal.State.{Role, host, client, Message, Route, Peer, Session, Server}
use relay_tunnel.Signal.Pairing.{
  mark_ready, pair_locked, wire, both_peers, try_pair_session, try_pair,
}
use relay_tunnel.Signal.Invariant.{Inv, who_at, Partners, Seat, Seats, IsOccupied, Keyed}
use relay_tunnel.Signal.Invariant.Frame.{
  Grows, Grows-insert, Isolated-Grows, Seated-Grows, Seated-insert, Known-insert, Allocated-insert,
  Inv-insert_route, Inv-stats,
}

-- A peer that is replaced by itself with other addresses.
Inv-insert_peer :
    (c : ℕ) (p : Peer) (s : Server)
    → who_at c s.peers ≡ some p.who
    → Inv s
    → Inv (record s { peers = insert c p s.peers })
Inv-insert_peer c p s at v = record {
  isolated = Isolated-Grows s.peers _ grows s.relays v.isolated;
  sized = v.sized;
  unique = v.unique;
  seated = Seated-Grows s.peers _ grows s.objects v.seated;
  known = Known-insert c s.next p s.peers (v.known c p.who at).0 (v.known c p.who at).1 v.known;
  allocated = v.allocated;
  keyed = v.keyed;
}
  where
    grows : Grows s.peers (insert c p s.peers)
    grows = Grows-insert c p s.peers at

pub mark_ready-Inv : (c : ℕ) (m : Message) (s : Server) → Inv s → Inv (mark_ready c m s)
unfolding mark_ready
mark_ready-Inv c m s v = elim (Option-cases (lookup c s.peers)) [
  | inl e ↦ rw (e, mark_ready) v
  | inr (p, e) ↦ rw (e, mark_ready) (Inv-insert_peer c _ s (ground arith) v)
]

-- A session that changes in nothing that the invariant reads.
Inv-insert_session :
    (i : ℕ) (old sess : Session) (s : Server)
    → lookup i s.objects ≡ some old
    → sess.code ≡ old.code
    → sess.host_peer ≡ old.host_peer
    → sess.client_peer ≡ old.client_peer
    → Inv s
    → Inv (record s { objects = insert i sess s.objects })
Inv-insert_session i old sess s at a b c v = record {
  isolated = v.isolated;
  sized = v.sized;
  unique = v.unique;
  seated = Seated-insert s.peers s.objects i sess (rw (a, b, c) (v.seated i old at)) v.seated;
  known = v.known;
  allocated = Allocated-insert i s.next sess s.objects (v.allocated i old at) v.allocated;
  keyed = keyed;
}
  where
    keyed : Keyed s.sessions (insert i sess s.objects)
    keyed k j e = elim (ℕ_discrete j i) [
      | yes p ↦
          let (o, at_o, named, occupied) = v.keyed k j e in
          let same : o ≡ old = ground arith in
          (
            sess,
            ground (arith, lookup-insert j i sess s.objects),
            ground arith,
            rw (b, c) (subst IsOccupied same occupied),
          )
      | no n ↦
          let (o, at_o, named, occupied) = v.keyed k j e in
          (o, ground (arith, lookup-insert j i sess s.objects), named, occupied)
    ]

-- The route that `pairLocked` writes leads from one partner to the other.
pair_locked-Inv :
    (now : ℕ) (t u code : Bytes) (role : Role) (s : Server)
    → length t ≡ 16
    → Partners s.peers t u
    → Inv s
    → Inv (record s { relays = pair_locked now t u code role s.relays })
unfolding pair_locked
pair_locked-Inv now t u code role s size m v = Inv-insert_route s t _ size (inr m) v

wire-Inv :
    (now i : ℕ) (sess : Session) (hp cp : Peer) (s : Server)
    → lookup i s.objects ≡ some sess
    → length hp.token ≡ 16
    → length cp.token ≡ 16
    → Partners s.peers hp.token cp.token
    → Partners s.peers cp.token hp.token
    → Inv s
    → Inv (wire now i sess hp cp s)
unfolding wire
wire-Inv now i sess hp cp s at size_h size_c there back v =
    Inv-stats
      (record s {
        objects = insert i (record sess { paired = true; paired_at = some now }) s.objects;
        relays = pair_locked now cp.token hp.token sess.code client one;
      })
      _
      (Inv-insert_session i sess (record sess { paired = true; paired_at = some now })
        (record s { relays = pair_locked now cp.token hp.token sess.code client one }) at refl refl
        refl
        (pair_locked-Inv now cp.token hp.token sess.code client (record s { relays = one }) size_c
          back (pair_locked-Inv now hp.token cp.token sess.code host s size_h there v)))
  where
    one : Dict Bytes Route
    one = pair_locked now hp.token cp.token sess.code host s.relays

pub both_peers-eq_some :
    (sess : Session) (s : Server) (h c : ℕ) (hp cp : Peer)
    → both_peers sess s ≡ some (h, hp, c, cp)
    → (sess.host_peer ≡ some h)
      × (sess.client_peer ≡ some c)
      × (lookup h s.peers ≡ some hp)
      × (lookup c s.peers ≡ some cp)
unfolding both_peers
both_peers-eq_some sess s h c hp cp e = ground arith

-- Who sits in a slot.
pub Seat-lookup :
    (peers : Dict ℕ Peer) (i : ℕ) (code : Bytes) (role : Role) (slot : Option ℕ) (c : ℕ) (p : Peer)
    → slot ≡ some c
    → lookup c peers ≡ some p
    → Seat peers i code role slot
    → (p.session ≡ i) × (p.role ≡ role) × (p.code ≡ code)
Seat-lookup peers i code role none c p e at seat = absurd (ground arith)
Seat-lookup peers i code role (some d) c p e at (v, at_v, x, y, z) =
    let same : d ≡ c = ground arith in
    let at_c : who_at c peers ≡ some v = rw same at at_v in
    let w : v ≡ p.who = ground arith in (ground arith, ground arith, ground arith)

-- The two peers in the slots of a session are partners, either way round.
Seats-Partners :
    (i : ℕ) (sess : Session) (s : Server) (h c : ℕ) (hp cp : Peer)
    → sess.host_peer ≡ some h
    → sess.client_peer ≡ some c
    → lookup h s.peers ≡ some hp
    → lookup c s.peers ≡ some cp
    → Seats s.peers i sess
    → Partners s.peers hp.token cp.token × Partners s.peers cp.token hp.token
Seats-Partners i sess s h c hp cp eh ec at_h at_c seats =
    let (iv, rv, cv) = Seat-lookup s.peers i sess.code host sess.host_peer h hp eh at_h seats.0 in
    let (iw, rw', cw) =
      Seat-lookup s.peers i sess.code client sess.client_peer c cp ec at_c seats.1 in
    (
      record {
        one = h;
        two = c;
        v = hp.who;
        w = cp.who;
        at_one = ground arith;
        at_two = ground arith;
        token_one = refl;
        token_two = refl;
        same_session = ground arith;
        same_code = ground arith;
        other_role = λ e. ground arith;
      },
      record {
        one = c;
        two = h;
        v = cp.who;
        w = hp.who;
        at_one = ground arith;
        at_two = ground arith;
        token_one = refl;
        token_two = refl;
        same_session = ground arith;
        same_code = ground arith;
        other_role = λ e. ground arith;
      },
    )

try_pair_session-Inv :
    (now i : ℕ) (sess : Session) (s : Server)
    → lookup i s.objects ≡ some sess
    → Inv s
    → Inv (try_pair_session now i sess s).0
unfolding try_pair_session
try_pair_session-Inv now i sess s at v = elim (Option-cases (both_peers sess s)) [
  | inl e ↦ rw (e, try_pair_session) v
  | inr ((h, hp, c, cp), e) ↦ elim (Bool-cases (sess.paired || not (hp.ready && cp.ready))) [
    | inl e' ↦ rw (e, e', try_pair_session) v
    | inr e' ↦
        let (eh, ec, at_h, at_c) = both_peers-eq_some sess s h c hp cp e in
        let (there, back) =
          Seats-Partners i sess s h c hp cp eh ec at_h at_c (v.seated i sess at) in
        rw (e, e', try_pair_session)
          (wire-Inv now i sess hp cp s at (v.known h hp.who (ground arith)).0
            (v.known c cp.who (ground arith)).0 there back v)
  ]
]

-- `tryPair`, whether it pairs or not, keeps the invariant.
pub try_pair-Inv : (now i : ℕ) (s : Server) → Inv s → Inv (try_pair now i s).0
unfolding try_pair
try_pair-Inv now i s v = elim (Option-cases (lookup i s.objects)) [
  | inl e ↦ rw (e, try_pair) v
  | inr (sess, e) ↦ rw (e, try_pair) (try_pair_session-Inv now i sess s e v)
]
