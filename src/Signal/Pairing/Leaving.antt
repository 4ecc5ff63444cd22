-- ===== src/Signal/Pairing/Leaving.antt =====
-- internal/signal/server.go: the end of a peer's read loop, in the deferred function of `handleWS`.
use relay_tunnel.Prelude.{
  ℕ, ◌≡◌, ◌≢◌, ◌∙◌, sym, refl, inl, inr, true, false, Option, none, some, Bytes, arith, lookup,
  insert, erase, lookup-insert, lookup-erase, Dict, bytes_eq, nat_eq, ℕ_discrete, Option-cases,
  Bool-cases,
}
use relay_tunnel.Signal.State.{Role, host, client, Peer, Session, peer_of, set_peer, Server}
use relay_tunnel.Signal.Pairing.{is_empty, holds, release, leave}
use relay_tunnel.Signal.Invariant.{Inv, Seat, Seats, IsOccupied, Keyed}
use relay_tunnel.Signal.Invariant.Frame.{Seated-insert, Allocated-insert}
use relay_tunnel.Signal.Pairing.Linking.{Seat-lookup}

holds→eq : (slot : Option ℕ) (c : ℕ) → holds slot c ≡ true → slot ≡ some c
holds→eq none c h = absurd (ground arith)
holds→eq (some d) c h = ground arith

IsOccupied-is_empty : (sess : Session) → is_empty sess ≡ false → IsOccupied sess
IsOccupied-is_empty sess h = ground arith

set_peer-none-Seats :
    (peers : Dict ℕ Peer) (i : ℕ) (sess : Session) (role : Role)
    → Seats peers i sess
    → Seats peers i (set_peer sess role none)
set_peer-none-Seats peers i sess host h = (tt, h.1)
set_peer-none-Seats peers i sess client h = (h.0, tt)

set_peer-none-code : (sess : Session) (role : Role) → (set_peer sess role none).code ≡ sess.code
set_peer-none-code sess host = refl
set_peer-none-code sess client = refl

peer_of-Seat :
    (peers : Dict ℕ Peer) (i : ℕ) (sess : Session) (role : Role)
    → Seats peers i sess
    → Seat peers i sess.code role (peer_of sess role)
peer_of-Seat peers i sess host h = h.0
peer_of-Seat peers i sess client h = h.1

-- A session that loses a peer, with the codes that lead to it gone if it is empty.
release_slot-Inv :
    (role : Role) (i : ℕ) (sess : Session) (s : Server) (sessions : Dict Bytes ℕ)
    → lookup i s.objects ≡ some sess
    → ((k : Bytes) (j : ℕ) → lookup k sessions ≡ some j → lookup k s.sessions ≡ some j)
    → ((k : Bytes)
        → lookup k sessions ≡ some i
        → k ≡ sess.code
        → IsOccupied (set_peer sess role none))
    → Inv s
    → Inv (record s { objects = insert i (set_peer sess role none) s.objects; sessions = sessions })
release_slot-Inv role i sess s sessions at fewer occupied v = record {
  isolated = v.isolated;
  sized = v.sized;
  unique = v.unique;
  seated =
      Seated-insert s.peers s.objects i sess'
        (set_peer-none-Seats s.peers i sess role (v.seated i sess at)) v.seated;
  known = v.known;
  allocated = Allocated-insert i s.next sess' s.objects (v.allocated i sess at) v.allocated;
  keyed = keyed;
}
  where
    sess' : Session
    sess' = set_peer sess role none

    keyed : Keyed sessions (insert i sess' s.objects)
    keyed k j e =
        let (o, at_o, named, occ) = v.keyed k j (fewer k j e) in
        elim (ℕ_discrete j i) [
          | yes p ↦
              let same : k ≡ sess.code = ground arith in
              (
                sess',
                ground (arith, lookup-insert j i sess' s.objects),
                set_peer-none-code sess role ∙ sym same,
                occupied k (rw p at e) same,
              )
          | no n ↦ (o, ground (arith, lookup-insert j i sess' s.objects), named, occ)
        ]

release-Inv :
    (c : ℕ) (p : Peer) (sess : Session) (s : Server)
    → lookup c s.peers ≡ some p
    → lookup p.session s.objects ≡ some sess
    → Inv s
    → Inv (release c p sess s)
unfolding release
release-Inv c p sess s at_c at v = elim (Bool-cases (holds (peer_of sess p.role) c)) [
  | inr e ↦ rw (e, release) v
  | inl e ↦ elim (Bool-cases (is_empty (set_peer sess p.role none))) [
    | inr e' ↦
        rw (e, e', release)
          (release_slot-Inv p.role p.session sess s s.sessions at (λ k j h. h)
            (λ k h same. IsOccupied-is_empty (set_peer sess p.role none) e') v)
    | inl e' ↦
        let (_, _, named) =
          Seat-lookup s.peers p.session sess.code p.role (peer_of sess p.role) c p
            (holds→eq (peer_of sess p.role) c e) at_c
            (peer_of-Seat s.peers p.session sess p.role (v.seated p.session sess at)) in
        rw (e, e', release)
          (release_slot-Inv p.role p.session sess s (erase p.code s.sessions) at
            (λ k j h. ground (arith, lookup-erase k p.code s.sessions))
            (λ k h same. absurd (ground (arith, lookup-erase k p.code s.sessions))) v)
  ]
]

-- A peer that leaves keeps the invariant.
pub leave-Inv : (c : ℕ) (s : Server) → Inv s → Inv (leave c s)
unfolding leave
leave-Inv c s v = elim (Option-cases (lookup c s.peers)) [
  | inl e ↦ rw (e, leave) v
  | inr (p, e) ↦ elim (Option-cases (lookup p.session s.objects)) [
    | inl e' ↦ rw (e, e', leave) v
    | inr (sess, e') ↦ rw (e, e', leave) (release-Inv c p sess s e e' v)
  ]
]

-- When the last peer of a session leaves, and its code leads to another session by then, the code
-- is dropped, and the other session stays in the store as it was.
pub leave_drops_successor :
    (c j : ℕ) (p : Peer) (sess : Session) (s : Server)
    → lookup c s.peers ≡ some p
    → lookup p.session s.objects ≡ some sess
    → peer_of sess p.role ≡ some c
    → is_empty (set_peer sess p.role none) ≡ true
    → lookup p.code s.sessions ≡ some j
    → j ≢ p.session
    → (lookup p.code (leave c s).sessions ≡ none)
      × (lookup j (leave c s).objects ≡ lookup j s.objects)
unfolding leave
leave_drops_successor c j p sess s at_c at slot empty leads ne = ground (
  arith,
  lookup-erase p.code p.code s.sessions,
  lookup-insert j p.session (set_peer sess p.role none) s.objects,
)
