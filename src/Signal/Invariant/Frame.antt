-- ===== src/Signal/Invariant/Frame.antt =====
-- internal/signal/server.go: peers come and change, routes come and go, and what was said of the
-- others stays true.
use relay_tunnel.Prelude.{
  ℕ, ◌<◌, ◌≡◌, ◌⊎◌, inl, inr, Bool, Option, none, some, [], Bytes, arith, length, ◌==◌,
  if◌then◌else◌, Dict, lookup, insert, erase, retain, NodupKeys, insert-NodupKeys, lookup-insert,
  lookup-insert_cases, lookup-erase, lookup-retain, nat_eq, bytes_eq,
}
use relay_tunnel.Signal.State.{Role, host, client, Route, Who, Peer, Session, Stats, Server}
use relay_tunnel.Signal.Invariant.{
  who_at, Partners, Isolated, Sized, Seat, Seats, Seated, Known, Allocated, Inv,
}

-- Every peer is still there, as what it joined as.
abbrev pub Grows : Dict ℕ Peer → Dict ℕ Peer → Type 0
Grows peers peers' = (c : ℕ) (v : Who) → who_at c peers ≡ some v → who_at c peers' ≡ some v

pub who_at-insert :
    (d c : ℕ) (p : Peer) (peers : Dict ℕ Peer)
    → who_at d (insert c p peers) ≡ (if d == c then some p.who else who_at d peers)
who_at-insert d c p peers = ground (arith, lookup-insert d c p peers)

-- A peer is replaced by what is still the same peer.
pub Grows-insert :
    (c : ℕ) (p : Peer) (peers : Dict ℕ Peer)
    → who_at c peers ≡ some p.who
    → Grows peers (insert c p peers)
Grows-insert c p peers h d v e = ground (arith, who_at-insert d c p peers)

-- A peer gets a number that none has.
pub Grows-insert_new :
    (c : ℕ) (p : Peer) (peers : Dict ℕ Peer) → Known peers c → Grows peers (insert c p peers)
Grows-insert_new c p peers known d v e = ground (arith, who_at-insert d c p peers, known d v e)

module _ (peers peers' : Dict ℕ Peer) (g : Grows peers peers') where
  Partners-Grows : {t u : Bytes} → Partners peers t u → Partners peers' t u
  Partners-Grows m = record {
    one = m.one;
    two = m.two;
    v = m.v;
    w = m.w;
    at_one = g m.one m.v m.at_one;
    at_two = g m.two m.w m.at_two;
    token_one = m.token_one;
    token_two = m.token_two;
    same_session = m.same_session;
    same_code = m.same_code;
    other_role = m.other_role;
  }

  pub Isolated-Grows : (relays : Dict Bytes Route) → Isolated peers relays → Isolated peers' relays
  Isolated-Grows relays iso t r e = elim (iso t r e) [
    | inl n ↦ inl n
    | inr m ↦ inr (Partners-Grows m)
  ]

  Seat-Grows :
      (i : ℕ) (code : Bytes) (role : Role) (slot : Option ℕ)
      → Seat peers i code role slot
      → Seat peers' i code role slot
  Seat-Grows i code role none h = tt
  Seat-Grows i code role (some c) (v, at, x, y, z) = (v, g c v at, x, y, z)

  pub Seats-Grows : (i : ℕ) (sess : Session) → Seats peers i sess → Seats peers' i sess
  Seats-Grows i sess (h, c) = (
    Seat-Grows i sess.code host sess.host_peer h,
    Seat-Grows i sess.code client sess.client_peer c,
  )

  pub Seated-Grows : (objects : Dict ℕ Session) → Seated peers objects → Seated peers' objects
  Seated-Grows objects seated i sess e = Seats-Grows i sess (seated i sess e)

pub Seated-insert :
    (peers : Dict ℕ Peer) (objects : Dict ℕ Session) (i : ℕ) (sess : Session)
    → Seats peers i sess
    → Seated peers objects
    → Seated peers (insert i sess objects)
Seated-insert peers objects i sess h seated j other e =
    elim (lookup-insert_cases j i sess other objects e) [
      | inl (p, q) ↦ rw (p, q) h
      | inr before ↦ seated j other before
    ]

pub Known-insert :
    (c next : ℕ) (p : Peer) (peers : Dict ℕ Peer)
    → length p.token ≡ 16
    → c < next
    → Known peers next
    → Known (insert c p peers) next
Known-insert c next p peers size below known d v e =
    ground (arith, who_at-insert d c p peers, known d v)

pub Allocated-insert :
    (i next : ℕ) (sess : Session) (objects : Dict ℕ Session)
    → i < next
    → Allocated objects next
    → Allocated (insert i sess objects) next
Allocated-insert i next sess objects below alloc j other e =
    ground (arith, lookup-insert j i sess objects, alloc j other)

-- A route that leads nowhere or to the partner of its token.
pub Isolated-insert :
    (peers : Dict ℕ Peer) (relays : Dict Bytes Route) (t : Bytes) (r : Route)
    → (r.peer ≡ []) ⊎ Partners peers t r.peer
    → Isolated peers relays
    → Isolated peers (insert t r relays)
Isolated-insert peers relays t r h iso u q e = elim (lookup-insert_cases u t r q relays e) [
  | inl (p, same) ↦ rw (p, same) h
  | inr before ↦ iso u q before
]

pub Sized-insert :
    (relays : Dict Bytes Route) (t : Bytes) (r : Route)
    → length t ≡ 16
    → Sized relays
    → Sized (insert t r relays)
Sized-insert relays t r h sized u q e = elim (lookup-insert_cases u t r q relays e) [
  | inl (p, _) ↦ rw p h
  | inr before ↦ sized u q before
]

-- Fewer routes.
abbrev pub Shrinks : Dict Bytes Route → Dict Bytes Route → Type 0
Shrinks relays relays' =
    (t : Bytes) (r : Route) → lookup t relays' ≡ some r → lookup t relays ≡ some r

pub Shrinks-erase : (u : Bytes) (relays : Dict Bytes Route) → Shrinks relays (erase u relays)
Shrinks-erase u relays t r e = ground (arith, lookup-erase t u relays)

pub Shrinks-retain :
    (p : Bytes → Route → Bool) (relays : Dict Bytes Route)
    → NodupKeys relays
    → Shrinks relays (retain p relays)
Shrinks-retain p relays unique t r e = ground (arith, lookup-retain p t relays unique)

-- The counters play no part.
pub Inv-stats : (s : Server) (t : Stats) → Inv s → Inv (record s { stats = t })
Inv-stats s t v = record {
  isolated = v.isolated;
  sized = v.sized;
  unique = v.unique;
  seated = v.seated;
  known = v.known;
  allocated = v.allocated;
  keyed = v.keyed;
}

-- Nor does a route that is gone.
pub Inv-Shrinks :
    (s : Server) (relays : Dict Bytes Route)
    → Shrinks s.relays relays
    → NodupKeys relays
    → Inv s
    → Inv (record s { relays = relays })
Inv-Shrinks s relays sh unique v = record {
  isolated = λ t r e. v.isolated t r (sh t r e);
  sized = λ t r e. v.sized t r (sh t r e);
  unique = unique;
  seated = v.seated;
  known = v.known;
  allocated = v.allocated;
  keyed = v.keyed;
}

-- A route that leads nowhere or to the partner of its token, under a token of the right size.
pub Inv-insert_route :
    (s : Server) (t : Bytes) (r : Route)
    → length t ≡ 16
    → (r.peer ≡ []) ⊎ Partners s.peers t r.peer
    → Inv s
    → Inv (record s { relays = insert t r s.relays })
Inv-insert_route s t r size h v = record {
  isolated = Isolated-insert s.peers s.relays t r h v.isolated;
  sized = Sized-insert s.relays t r size v.sized;
  unique = insert-NodupKeys t r s.relays v.unique;
  seated = v.seated;
  known = v.known;
  allocated = v.allocated;
  keyed = v.keyed;
}
