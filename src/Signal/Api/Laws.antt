-- ===== src/Signal/Api/Laws.antt =====
-- internal/signal/api.go: what deleting and pruning leave behind.
use relay_tunnel.Prelude.{
  ℕ, ◌+◌, ◌≤◌, ◌<◌, ◌≡◌, ◌↔◌, refl, Bool, true, false, not, none, some, List, [], ◌∷◌, ◌++◌, Bytes,
  arith, contains, contains-keys, sym, length, lookup, erase, retain, keys, lookup-erase,
  lookup-retain, Dict, NodupKeys, bytes_eq, nat_eq, ◌==◌, ◌&&◌, ◌||◌, if◌then◌else◌,
}
use relay_tunnel.Prelude.Sort.{
  sort, bytes_leb, length-sort, contains-sort, IsSorted, sort-IsSorted, bytes_leb-total,
}
use relay_tunnel.Signal.State.{Route, Server, Session, Peer}
use relay_tunnel.Signal.Api.{
  prune_ages_text, unauthorized, ok, failed, Pruned, erase_all, slot_tokens, session_at,
  handle_delete_session, handle_delete_relay, prune_ages, is_idle, handle_prune_relays,
}

-- No request that is not authorized changes the server, sends anything, or learns more than that.
pub unauthorized_changes_nothing :
    (code token age : Bytes) (now : ℕ) (s : Server)
    → (handle_delete_session false code s ≡ (s, [], unauthorized))
      × (handle_delete_relay false token s ≡ (s, unauthorized))
      × (handle_prune_relays false now age s ≡ (s, unauthorized))
unfolding handle_delete_session handle_delete_relay handle_prune_relays
unauthorized_changes_nothing code token age now s = (refl, refl, refl)

lookup-erase_all :
    (t : Bytes) (ts : List Bytes) (relays : Dict Bytes Route)
    → lookup t (erase_all ts relays) ≡ (if contains ts t then none else lookup t relays)
unfolding erase_all
lookup-erase_all t [] relays = refl
lookup-erase_all t (u ∷ ts) relays =
    ground (arith, lookup-erase_all t ts (erase u relays), lookup-erase t u relays)

-- The tokens of the peers on a session.
abbrev pub tokens_of : Session → Dict ℕ Peer → List Bytes
tokens_of sess peers = slot_tokens sess.host_peer peers ++ slot_tokens sess.client_peer peers

-- An authorized deletion of a code that leads to a session answers 204, takes the code away, and
-- reclaims the routes of the tokens on the session; every other code and route stays as it was.
pub handle_delete_session_lem :
    (code : Bytes) (sess : Session) (s : Server)
    → session_at code s ≡ some sess
    → let (s', sent, response) = handle_delete_session true code s in
      (response ≡ ok 204 tt)
      × ((k : Bytes) → lookup k s'.sessions ≡ (if k == code then none else lookup k s.sessions))
      × ((t : Bytes)
          → lookup t s'.relays
            ≡ (if contains (tokens_of sess s.peers) t then none else lookup t s.relays))
unfolding handle_delete_session
handle_delete_session_lem code sess s at =
    rw (at, handle_delete_session)
      (
        refl,
        (λ k. lookup-erase k code s.sessions),
        (λ t. lookup-erase_all t (tokens_of sess s.peers) s.relays),
      )

-- An authorized deletion of a route that is there answers 204 and reclaims the route and the one
-- of its peer token, and no other.
pub handle_delete_relay_lem :
    (token : Bytes) (route : Route) (s : Server)
    → lookup token s.relays ≡ some route
    → let (s', response) = handle_delete_relay true token s in
      (response ≡ ok 204 tt)
      × ((t : Bytes)
          → lookup t s'.relays ≡ (
              if t == token || (not (route.peer == []) && t == route.peer)
              then none
              else lookup t s.relays))
unfolding handle_delete_relay
handle_delete_relay_lem token route s at =
    rw (at, handle_delete_relay)
      (
        refl,
        λ t. ground (
          arith,
          lookup-erase t route.peer (erase token s.relays),
          lookup-erase t token s.relays,
        ),
      )

-- Pruning by an age that is not offered answers 400 and changes nothing.
pub handle_prune_relays_bad_age :
    (now : ℕ) (age : Bytes) (s : Server)
    → lookup age prune_ages ≡ none
    → handle_prune_relays true now age s ≡ (s, failed 400 prune_ages_text)
unfolding handle_prune_relays
handle_prune_relays_bad_age now age s e = rw (e, handle_prune_relays)

-- Where no token has two routes, pruning by an offered age keeps exactly the routes that were used
-- within it, as they are.
pub handle_prune_relays_iff :
    (now idle : ℕ) (age token : Bytes) (r : Route) (s : Server)
    → lookup age prune_ages ≡ some idle
    → NodupKeys s.relays
    → (lookup token (handle_prune_relays true now age s).0.relays ≡ some r)
      ↔ ((lookup token s.relays ≡ some r) × (now ≤ r.seen + idle))
unfolding handle_prune_relays
handle_prune_relays_iff now idle age token r s e u =
    rw (e, handle_prune_relays)
      (ground (arith, lookup-retain (λ _ route. not (is_idle now idle route)) token s.relays u))

keys-retain :
    (p : Bytes → Route → Bool) (t : Bytes) (relays : Dict Bytes Route)
    → NodupKeys relays
    → (contains (keys (retain p relays)) t ≡ true)
      ↔ ((r : Route) × (lookup t relays ≡ some r) × (p t r ≡ true))
keys-retain p t relays u = (
  λ h.
      let (r, at) = (contains-keys (retain p relays) t).0 h in
      (r, ground (arith, lookup-retain p t relays u), ground (arith, lookup-retain p t relays u)),
  λ (r, at, keep).
      (contains-keys (retain p relays) t).1 (r, ground (arith, lookup-retain p t relays u)),
)

-- Where no token has two routes, the answer to a prune by an offered age lists, in order, exactly
-- the tokens whose routes had been idle for longer than the age, and says how many routes that is.
pub prune_report :
    (now idle : ℕ) (age : Bytes) (s : Server)
    → lookup age prune_ages ≡ some idle
    → NodupKeys s.relays
    → (report : Pruned) × ((handle_prune_relays true now age s).1 ≡ ok 200 report)
      × (report.deleted ≡ length report.tokens)
      × IsSorted bytes_leb report.tokens
      × ((t : Bytes)
          → (contains report.tokens t ≡ true)
            ↔ ((r : Route) × (lookup t s.relays ≡ some r) × (r.seen + idle < now)))
unfolding handle_prune_relays
prune_report now idle age s e u = (
  record { idle_for = age; deleted = length removed; tokens = sort bytes_leb removed },
  rw (e, handle_prune_relays),
  sym (length-sort bytes_leb removed),
  sort-IsSorted bytes_leb bytes_leb-total removed,
  λ t. rw (contains-sort bytes_leb t removed) (idle_removed t),
)
  where
    removed : List Bytes
    removed = keys (retain (λ _ route. is_idle now idle route) s.relays)

    idle_removed :
        (t : Bytes)
        → (contains removed t ≡ true)
          ↔ ((r : Route) × (lookup t s.relays ≡ some r) × (r.seen + idle < now))
    idle_removed t =
        let both = keys-retain (λ _ route. is_idle now idle route) t s.relays u in
        (
          λ h. let (r, at, i) = both.0 h in (r, at, ground arith),
          λ (r, at, i). both.1 (r, at, ground arith),
        )
