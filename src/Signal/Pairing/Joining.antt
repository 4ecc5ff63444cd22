-- ===== src/Signal/Pairing/Joining.antt =====
-- internal/signal/server.go, `handleWS` up to its read loop keeps the server's invariant.
use relay_tunnel.Prelude.{
  ℕ, suc, ◌<◌, ◌≡◌, ◌≢◌, ◌⊎◌, refl, inl, inr, false, Option, none, some, [], Bytes, arith, length,
  lookup, insert, lookup-insert, lookup-insert_cases, Dict, bytes_eq, nat_eq, ℕ_discrete, NodupKeys,
  sym, ◌∙◌, Option-cases, ◌==◌, Bool-cases,
}
use relay_tunnel.Signal.State.{
  Role, host, client, Message, type_hello, Peer, Session, peer_of, set_peer, Server,
}
use relay_tunnel.Signal.Pairing.{Hello, parse_role, register, fresh_session, join, handle_hello}
use relay_tunnel.Signal.Invariant.{
  Inv, Seats, Seated, Known, Allocated, IsOccupied, Keyed, Isolated, Sized,
}
use relay_tunnel.Signal.Invariant.Frame.{
  Grows, Grows-insert_new, Isolated-Grows, Seats-Grows, Seated-Grows, Seated-insert, Known-insert,
  Allocated-insert, who_at-insert,
}

-- Codes other than `code` lead to sessions other than `i`, which are as they should be.
abbrev KeyedBut : Bytes → ℕ → Dict Bytes ℕ → Dict ℕ Session → Type 0
KeyedBut code i sessions objects =
    (k : Bytes) (j : ℕ)
    → lookup k sessions ≡ some j
    → ((j ≡ i) × (k ≡ code))
      ⊎ ((j ≢ i)
          × ((sess : Session) × (lookup j objects ≡ some sess) × (sess.code ≡ k) × IsOccupied sess))

module _ (i : ℕ) (sess : Session) (c : ℕ) where
  set_peer-Seats :
      (role : Role) (p : Peer) (peers : Dict ℕ Peer)
      → p.session ≡ i
      → p.role ≡ role
      → p.code ≡ sess.code
      → Seats (insert c p peers) i sess
      → Seats (insert c p peers) i (set_peer sess role (some c))
  set_peer-Seats host p peers a b d h =
      ((p.who, ground (arith, who_at-insert c c p peers), a, b, d), h.1)
  set_peer-Seats client p peers a b d h =
      (h.0, (p.who, ground (arith, who_at-insert c c p peers), a, b, d))

  set_peer-IsOccupied : (role : Role) → IsOccupied (set_peer sess role (some c))
  set_peer-IsOccupied host = inl (λ e. cc)
  set_peer-IsOccupied client = inr (λ e. cc)

  set_peer-code : (role : Role) (slot : Option ℕ) → (set_peer sess role slot).code ≡ sess.code
  set_peer-code host slot = refl
  set_peer-code client slot = refl

  set_peer-Keyed :
      (role : Role) (code : Bytes) (sessions : Dict Bytes ℕ) (objects : Dict ℕ Session)
      → sess.code ≡ code
      → KeyedBut code i sessions objects
      → Keyed sessions (insert i (set_peer sess role (some c)) objects)
  set_peer-Keyed role code sessions objects same but k j e = elim (but k j e) [
    | inl (p, q) ↦ (
      set_peer sess role (some c),
      ground (arith, lookup-insert j i (set_peer sess role (some c)) objects),
      set_peer-code role (some c) ∙ same ∙ sym q,
      set_peer-IsOccupied role,
    )
    | inr (ne, (other, at, named, occupied)) ↦ (
      other,
      ground (arith, lookup-insert j i (set_peer sess role (some c)) objects),
      named,
      occupied,
    )
  ]

register-Inv :
    (h : Hello) (now : ℕ) (code : Bytes) (role : Role) (i : ℕ) (sess : Session) (s : Server)
    → length h.token ≡ 16
    → sess.code ≡ code
    → i < s.next
    → Seats s.peers i sess
    → KeyedBut code i s.sessions s.objects
    → Isolated s.peers s.relays
    → Sized s.relays
    → NodupKeys s.relays
    → Seated s.peers s.objects
    → Known s.peers s.next
    → Allocated s.objects s.next
    → peer_of sess role ≡ none
    → Inv (register h now code role i sess s).0
unfolding register
register-Inv h now code role i sess s size same below seats but iso sized unique seated known alloc
      e =
    rw (e, register)
      (record {
        isolated = Isolated-Grows s.peers peers' grows s.relays iso;
        sized = sized;
        unique = unique;
        seated =
            Seated-insert peers' s.objects i (set_peer sess role (some s.next))
              (set_peer-Seats i sess s.next role p s.peers refl refl (sym same)
                (Seats-Grows s.peers peers' grows i sess seats))
              (Seated-Grows s.peers peers' grows s.objects seated);
        known =
            Known-insert s.next (suc s.next) p s.peers size (omega arith)
              (λ d v at. ((known d v at).0, omega (arith, (known d v at).1)));
        allocated =
            Allocated-insert i (suc s.next) (set_peer sess role (some s.next)) s.objects
              (omega arith) (λ j o at. omega (arith, alloc j o at));
        keyed = set_peer-Keyed i sess s.next role code s.sessions s.objects same but;
      })
  where
    p : Peer
    p = record {
      who = record { role = role; token = h.token; code = code; session = i };
      name = h.name;
      public = [];
      local = [];
      fp = [];
      remote = h.remote;
      joined = now;
      ready = false;
    }

    peers' : Dict ℕ Peer
    peers' = insert s.next p s.peers

    grows : Grows s.peers peers'
    grows = Grows-insert_new s.next p s.peers known

peer_of-fresh_session :
    (now : ℕ) (code : Bytes) (role : Role) → peer_of (fresh_session now code) role ≡ none
peer_of-fresh_session now code host = refl
peer_of-fresh_session now code client = refl

-- A session is made for a code that has none.
join_new-Inv :
    (h : Hello) (now : ℕ) (code : Bytes) (role : Role) (s : Server)
    → length h.token ≡ 16
    → Inv s
    → Inv
        (register h now code role s.next
          (fresh_session now code)
          (record s { sessions = insert code s.next s.sessions; next = suc s.next })).0
join_new-Inv h now code role s size v =
    register-Inv h now code role s.next (fresh_session now code) _ size refl (omega arith) (tt, tt)
      but v.isolated v.sized v.unique v.seated
      (λ d w at. ((v.known d w at).0, omega (arith, (v.known d w at).1)))
      (λ j o at. omega (arith, v.allocated j o at)) (peer_of-fresh_session now code role)
  where
    but : KeyedBut code s.next (insert code s.next s.sessions) s.objects
    but k j e = elim (lookup-insert_cases k code s.next j s.sessions e) [
      | inl (p, q) ↦ inl (q, p)
      | inr before ↦ inr (
        λ same. ground (arith, v.allocated j (v.keyed k j before).0 (v.keyed k j before).1),
        v.keyed k j before,
      )
    ]

-- A peer comes to a session that is there.
join_old-Inv :
    (h : Hello) (now : ℕ) (code : Bytes) (role : Role) (i : ℕ) (sess : Session) (s : Server)
    → length h.token ≡ 16
    → lookup code s.sessions ≡ some i
    → lookup i s.objects ≡ some sess
    → Inv s
    → Inv (register h now code role i sess s).0
unfolding register
join_old-Inv h now code role i sess s size at_code at v = elim (Option-cases (peer_of sess role)) [
  | inr (_, taken) ↦ rw (taken, register) v
  | inl free ↦
      register-Inv h now code role i sess s size named (v.allocated i sess at) (v.seated i sess at)
        but v.isolated v.sized v.unique v.seated v.known v.allocated free
]
  where
    named : sess.code ≡ code
    named = let (o, same, c, _) = v.keyed code i at_code in ground arith

    but : KeyedBut code i s.sessions s.objects
    but k j e = elim (ℕ_discrete j i) [
      | yes p ↦
          let (o, at_o, same, _) = v.keyed k j e in
          let (o', at_o', same', _) = v.keyed code i at_code in inl (p, ground arith)
      | no n ↦ inr (n, v.keyed k j e)
    ]

pub join-Inv :
    (h : Hello) (now : ℕ) (code : Bytes) (role : Role) (s : Server)
    → length h.token ≡ 16
    → Inv s
    → Inv (join h now code role s).0
unfolding join
join-Inv h now code role s size v = elim (Option-cases (lookup code s.sessions)) [
  | inl e ↦ rw (e, join) (join_new-Inv h now code role s size v)
  | inr (i, e) ↦ elim (Option-cases (lookup i s.objects)) [
    | inl e' ↦ rw (e, e', join) v
    | inr (sess, e') ↦ rw (e, e', join) (join_old-Inv h now code role i sess s size e e' v)
  ]
]

-- A hello, refused or not, keeps the invariant.
pub handle_hello-Inv :
    (h : Hello) (now : ℕ) (m : Option Message) (s : Server)
    → length h.token ≡ 16
    → Inv s
    → Inv (handle_hello h now m s).0
unfolding handle_hello
handle_hello-Inv h now none s size v = v
handle_hello-Inv h now (some m) s size v = elim (Bool-cases (m.kind == type_hello)) [
  | inr e ↦ rw (e, handle_hello) v
  | inl e ↦ elim (Bool-cases (m.code == [])) [
    | inl e' ↦ rw (e, e', handle_hello) v
    | inr e' ↦ elim (Option-cases (parse_role m.role)) [
      | inl e″ ↦ rw (e, e', e″, handle_hello) v
      | inr (role, e″) ↦ rw (e, e', e″, handle_hello) (join-Inv h now m.code role s size v)
    ]
  ]
]
