-- ===== src/Signal/Pairing/Stays.antt =====
-- internal/signal/server.go: a session that has been paired stays so, whatever peers do.
use relay_tunnel.Prelude.{
  ℕ, suc, ◌≡◌, ◌∙◌, refl, inl, inr, true, not, ◌&&◌, ◌||◌, ◌==◌, Option, none, some, [], Bytes,
  arith, lookup, insert, bytes_eq, nat_eq, Option-cases, Bool-cases,
}
use relay_tunnel.Signal.State.{Role, Message, type_hello, Peer, Session, peer_of, set_peer, Server}
use relay_tunnel.Signal.Pairing.{
  Hello, parse_role, register, fresh_session, join, handle_hello, mark_ready, wire, both_peers,
  try_pair_session, try_pair, is_empty, holds, release, leave,
}
use relay_tunnel.Signal.Invariant.{Inv}
use relay_tunnel.Signal.Pairing.Once.{IsPaired, insert_session-IsPaired, set_peer_paired}

register-IsPaired :
    (h : Hello) (now : ℕ) (code : Bytes) (role : Role) (i j : ℕ) (old : Session) (s : Server)
    → (i ≡ j → old.paired ≡ true)
    → IsPaired i s
    → IsPaired i (register h now code role j old s).0
unfolding register
register-IsPaired h now code role i j old s same (sess, at, done) =
    elim (Option-cases (peer_of old role)) [
      | inr (_, e) ↦ rw (e, register) (sess, at, done)
      | inl e ↦
          rw (e, register)
            (insert_session-IsPaired i j (set_peer old role (some s.next)) s sess at done
              (λ p. set_peer_paired old role (some s.next) ∙ same p))
    ]

join-IsPaired :
    (h : Hello) (now : ℕ) (code : Bytes) (role : Role) (i : ℕ) (s : Server)
    → Inv s
    → IsPaired i s
    → IsPaired i (join h now code role s).0
unfolding join
join-IsPaired h now code role i s v (sess, at, done) =
    elim (Option-cases (lookup code s.sessions)) [
      | inl e ↦
          rw (e, join)
            (register-IsPaired h now code role i s.next (fresh_session now code)
              (record s { sessions = insert code s.next s.sessions; next = suc s.next })
              (λ p. absurd (omega (arith, v.allocated i sess at))) (sess, at, done))
      | inr (j, e) ↦ elim (Option-cases (lookup j s.objects)) [
        | inl e' ↦ rw (e, e', join) (sess, at, done)
        | inr (old, e') ↦
            rw (e, e', join)
              (register-IsPaired h now code role i j old s (λ p. ground arith) (sess, at, done))
      ]
    ]

pub handle_hello-IsPaired :
    (h : Hello) (now : ℕ) (m : Option Message) (i : ℕ) (s : Server)
    → Inv s
    → IsPaired i s
    → IsPaired i (handle_hello h now m s).0
unfolding handle_hello
handle_hello-IsPaired h now none i s v p = p
handle_hello-IsPaired h now (some m) i s v p = elim (Bool-cases (m.kind == type_hello)) [
  | inr e ↦ rw (e, handle_hello) p
  | inl e ↦ elim (Bool-cases (m.code == [])) [
    | inl e' ↦ rw (e, e', handle_hello) p
    | inr e' ↦ elim (Option-cases (parse_role m.role)) [
      | inl e″ ↦ rw (e, e', e″, handle_hello) p
      | inr (role, e″) ↦ rw (e, e', e″, handle_hello) (join-IsPaired h now m.code role i s v p)
    ]
  ]
]

pub mark_ready-IsPaired :
    (c : ℕ) (m : Message) (i : ℕ) (s : Server) → IsPaired i s → IsPaired i (mark_ready c m s)
unfolding mark_ready
mark_ready-IsPaired c m i s p = elim (Option-cases (lookup c s.peers)) [
  | inl e ↦ rw (e, mark_ready) p
  | inr (_, e) ↦ rw (e, mark_ready) p
]

try_pair_session-IsPaired :
    (now i j : ℕ) (old : Session) (s : Server)
    → IsPaired i s
    → IsPaired i (try_pair_session now j old s).0
unfolding try_pair_session wire
try_pair_session-IsPaired now i j old s (sess, at, done) = elim (Option-cases (both_peers old s)) [
  | inl e ↦ rw (e, try_pair_session) (sess, at, done)
  | inr ((h, hp, c, cp), e) ↦ elim (Bool-cases (old.paired || not (hp.ready && cp.ready))) [
    | inl e' ↦ rw (e, e', try_pair_session) (sess, at, done)
    | inr e' ↦
        rw (e, e', try_pair_session)
          (insert_session-IsPaired i j (record old { paired = true; paired_at = some now }) s sess
            at done (λ _. refl))
  ]
]

pub step_try_pair-IsPaired :
    (now i j : ℕ) (s : Server) → IsPaired i s → IsPaired i (try_pair now j s).0
unfolding try_pair
step_try_pair-IsPaired now i j s p = elim (Option-cases (lookup j s.objects)) [
  | inl e ↦ rw (e, try_pair) p
  | inr (old, e) ↦ rw (e, try_pair) (try_pair_session-IsPaired now i j old s p)
]

release-IsPaired :
    (c i : ℕ) (p : Peer) (old : Session) (s : Server)
    → lookup p.session s.objects ≡ some old
    → IsPaired i s
    → IsPaired i (release c p old s)
unfolding release
release-IsPaired c i p old s at_old (sess, at, done) =
    elim (Bool-cases (holds (peer_of old p.role) c)) [
      | inr e ↦ rw (e, release) (sess, at, done)
      | inl e ↦
          let kept : IsPaired i
              (record s { objects = insert p.session (set_peer old p.role none) s.objects }) =
            insert_session-IsPaired i p.session (set_peer old p.role none) s sess at done
              (λ q. set_peer_paired old p.role none ∙ ground arith) in
          elim (Bool-cases (is_empty (set_peer old p.role none))) [
            | inl e' ↦ rw (e, e', release) kept
            | inr e' ↦ rw (e, e', release) kept
          ]
    ]

pub leave-IsPaired : (c i : ℕ) (s : Server) → IsPaired i s → IsPaired i (leave c s)
unfolding leave
leave-IsPaired c i s q = elim (Option-cases (lookup c s.peers)) [
  | inl e ↦ rw (e, leave) q
  | inr (p, e) ↦ elim (Option-cases (lookup p.session s.objects)) [
    | inl e' ↦ rw (e, e', leave) q
    | inr (old, e') ↦ rw (e, e', leave) (release-IsPaired c i p old s e' q)
  ]
]
