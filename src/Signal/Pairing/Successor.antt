-- ===== src/Signal/Pairing/Successor.antt =====
-- internal/signal/server.go and api.go: a session that an administrator deletes, and the peers that join
-- under its code before and after its last peer has left.
use relay_tunnel.Prelude.{
  ℕ, suc, ◌<◌, ◌≡◌, ◌≢◌, refl, ap, ◌∙◌, subst, true, none, some, Bytes, arith, lookup,
  lookup-insert, lookup-erase, ◌==◌, if◌then◌else◌, bytes_eq, nat_eq, ==-self, ne→==,
}
use relay_tunnel.Signal.State.{Role, host, client, Peer, Session, peer_of, set_peer, Server}
use relay_tunnel.Signal.Pairing.{Hello, fresh_session, register, join, is_empty, release, leave}
use relay_tunnel.Signal.Pairing.Leaving.{leave_drops_successor}
use relay_tunnel.Signal.Api.{session_at, handle_delete_session}

-- A deletion takes the code away and leaves the session and its peers in the store.
deleted_lem :
    (code : Bytes) (sess : Session) (s : Server)
    → session_at code s ≡ some sess
    → let t = (handle_delete_session true code s).0 in
      (lookup code t.sessions ≡ none)
      × (t.objects ≡ s.objects)
      × (t.peers ≡ s.peers)
      × (t.next ≡ s.next)
unfolding handle_delete_session
deleted_lem code sess s at =
    rw (at, handle_delete_session)
      (rw (lookup-erase code code s.sessions, ==-self {A = Bytes}) refl, refl, refl, refl)

-- A peer that joins under a code that leads nowhere gets a new session.
joined_lem :
    (h : Hello) (now : ℕ) (code : Bytes) (role : Role) (s : Server)
    → lookup code s.sessions ≡ none
    → let t = (join h now code role s).0 in
      (lookup code t.sessions ≡ some s.next)
      × ((i : ℕ)
          → lookup i t.objects ≡ (
              if i == s.next
              then some (set_peer (fresh_session now code) role (some (suc s.next)))
              else lookup i s.objects))
      × ((c : ℕ) → c ≢ suc s.next → lookup c t.peers ≡ lookup c s.peers)
      × (t.next ≡ suc (suc s.next))
unfolding join register
joined_lem h now code host s e =
    rw (e, join, register)
      (
        rw (lookup-insert code code s.next s.sessions, ==-self {A = Bytes}) refl,
        λ i. lookup-insert i s.next _ s.objects,
        λ c n. rw (lookup-insert c (suc s.next) _ s.peers, ne→== c (suc s.next) n) refl,
        refl,
      )
joined_lem h now code client s e =
    rw (e, join, register)
      (
        rw (lookup-insert code code s.next s.sessions, ==-self {A = Bytes}) refl,
        λ i. lookup-insert i s.next _ s.objects,
        λ c n. rw (lookup-insert c (suc s.next) _ s.peers, ne→== c (suc s.next) n) refl,
        refl,
      )

leave_next : (c : ℕ) (s : Server) → (leave c s).next ≡ s.next
unfolding leave release
leave_next c s = ground arith

-- A session that has one peer is deleted by an administrator, and under its code a peer joins, the
-- peer of the deleted session leaves, and another peer joins. Then the two who joined are in two
-- sessions, each alone in its own, although they gave the same code, and the code leads to the
-- second. The numbers of sessions and peers are below the next one, as they are handed out in order.
pub join_misses_successor :
    (h h' : Hello) (now now' : ℕ) (role role' : Role) (c : ℕ) (p : Peer) (sess : Session)
    (s : Server)
    → lookup c s.peers ≡ some p
    → lookup p.code s.sessions ≡ some p.session
    → lookup p.session s.objects ≡ some sess
    → peer_of sess p.role ≡ some c
    → is_empty (set_peer sess p.role none) ≡ true
    → c < s.next
    → p.session < s.next
    → let deleted = (handle_delete_session true p.code s).0 in
      let joined = (join h now p.code role deleted).0 in
      let left = leave c joined in
      let again = (join h' now' p.code role' left).0 in
      (lookup s.next again.objects
        ≡ some (set_peer (fresh_session now p.code) role (some (suc s.next))))
      × (lookup (suc (suc s.next)) again.objects
          ≡ some (set_peer (fresh_session now' p.code) role' (some (suc (suc (suc s.next))))))
      × (lookup p.code again.sessions ≡ some (suc (suc s.next)))
join_misses_successor h h' now now' role role' c p sess s at_c leads at slot empty below_c below_i =
    let deleted = (handle_delete_session true p.code s).0 in
    let joined = (join h now p.code role deleted).0 in
    let left = leave c joined in
    let (gone, same_objects, same_peers, same_next) =
      deleted_lem p.code sess s (rw (session_at, leads, at) refl) in
    let (leads', objects', peers', next') = joined_lem h now p.code role deleted gone in
    let still_c : lookup c joined.peers ≡ some p =
      peers' c (λ e. absurd (omega (arith, e, same_next, below_c)))
      ∙ ap (lookup c) same_peers
      ∙ at_c in
    let still : lookup p.session joined.objects ≡ some sess =
      objects' p.session
      ∙ rw
          (
            same_next,
            ne→== p.session s.next (λ e. absurd (omega (arith, e, below_i))),
            same_objects,
          )
          at in
    let (dropped, kept) =
      leave_drops_successor c deleted.next p sess joined still_c still slot empty leads'
        (λ e. absurd (omega (arith, e, same_next, below_i))) in
    let next″ : left.next ≡ suc (suc s.next) =
      leave_next c joined ∙ next' ∙ ap (λ n. suc (suc n)) same_next in
    let (leads″, objects″, _, _) = joined_lem h' now' p.code role' left dropped in
    let first : lookup s.next joined.objects
        ≡ some (set_peer (fresh_session now p.code) role (some (suc s.next))) =
      objects' s.next ∙ rw (same_next, ==-self s.next) refl in
    (
      objects″ s.next
          ∙ rw (next″, ne→== s.next (suc (suc s.next)) (λ e. absurd (omega (arith, e))))
              (subst (λ n. lookup n left.objects ≡ lookup n joined.objects) same_next kept ∙ first),
      objects″ (suc (suc s.next)) ∙ rw (next″, ==-self (suc (suc s.next))) refl,
      leads″ ∙ ap some next″,
    )
