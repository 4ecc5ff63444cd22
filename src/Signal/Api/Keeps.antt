-- ===== src/Signal/Api/Keeps.antt =====
-- internal/signal/api.go: what the admin API edits keeps the server's invariant.
use relay_tunnel.Prelude.{
  ℕ, ◌≡◌, inl, inr, Bool, true, false, not, List, [], ◌∷◌, ◌++◌, Bytes, arith, lookup, erase,
  erase-NodupKeys, retain-NodupKeys, lookup-erase, Dict, NodupKeys, bytes_eq, Option-cases, ◌==◌,
  Bool-cases,
}
use relay_tunnel.Signal.State.{Route, Server, Session}
use relay_tunnel.Signal.Api.{
  erase_all, slot_tokens, close_session, session_at, handle_delete_session, drop_pair,
  handle_delete_relay, prune_ages, is_idle, handle_prune_relays,
}
use relay_tunnel.Signal.Invariant.{Inv}
use relay_tunnel.Signal.Invariant.Frame.{Shrinks, Shrinks-erase, Shrinks-retain, Inv-Shrinks}

Shrinks-erase_all :
    (ts : List Bytes) (relays : Dict Bytes Route) → Shrinks relays (erase_all ts relays)
unfolding erase_all
Shrinks-erase_all [] relays u r e = e
Shrinks-erase_all (t ∷ ts) relays u r e =
    Shrinks-erase t relays u r (Shrinks-erase_all ts (erase t relays) u r e)

erase_all-NodupKeys :
    (ts : List Bytes) (relays : Dict Bytes Route)
    → NodupKeys relays
    → NodupKeys (erase_all ts relays)
unfolding erase_all
erase_all-NodupKeys [] relays u = u
erase_all-NodupKeys (t ∷ ts) relays u =
    erase_all-NodupKeys ts (erase t relays) (erase-NodupKeys t relays u)

-- A code that leads nowhere any more.
Inv-erase_session :
    (code : Bytes) (s : Server) → Inv s → Inv (record s { sessions = erase code s.sessions })
Inv-erase_session code s v = record {
  isolated = v.isolated;
  sized = v.sized;
  unique = v.unique;
  seated = v.seated;
  known = v.known;
  allocated = v.allocated;
  keyed = λ k i e. v.keyed k i (ground (arith, lookup-erase k code s.sessions));
}

close_session-Inv :
    (code : Bytes) (sess : Session) (s : Server) → Inv s → Inv (close_session code sess s).0
unfolding close_session
close_session-Inv code sess s v =
    let ts : List Bytes =
      slot_tokens sess.host_peer s.peers ++ slot_tokens sess.client_peer s.peers in
    Inv-erase_session code (record s { relays = erase_all ts s.relays })
      (Inv-Shrinks s (erase_all ts s.relays) (Shrinks-erase_all ts s.relays)
        (erase_all-NodupKeys ts s.relays v.unique) v)

pub handle_delete_session-Inv :
    (auth : Bool) (code : Bytes) (s : Server) → Inv s → Inv (handle_delete_session auth code s).0
unfolding handle_delete_session
handle_delete_session-Inv false code s v = v
handle_delete_session-Inv true code s v = elim (Option-cases (session_at code s)) [
  | inl e ↦ rw (e, handle_delete_session) v
  | inr (sess, e) ↦ rw (e, handle_delete_session) (close_session-Inv code sess s v)
]

drop_pair-Inv :
    (token : Bytes) (route : Route) (s : Server)
    → Inv s
    → Inv (record s { relays = drop_pair token route s.relays })
unfolding erase_all
drop_pair-Inv token route s v = elim (Bool-cases (route.peer == [])) [
  | inl e ↦
      rw (e, drop_pair)
        (Inv-Shrinks s (erase token s.relays) (Shrinks-erase token s.relays)
          (erase-NodupKeys token s.relays v.unique) v)
  | inr e ↦
      rw (e, drop_pair)
        (Inv-Shrinks s (erase route.peer (erase token s.relays))
          (Shrinks-erase_all (token ∷ route.peer ∷ []) s.relays)
          (erase_all-NodupKeys (token ∷ route.peer ∷ []) s.relays v.unique) v)
]

pub handle_delete_relay-Inv :
    (auth : Bool) (token : Bytes) (s : Server) → Inv s → Inv (handle_delete_relay auth token s).0
unfolding handle_delete_relay
handle_delete_relay-Inv false token s v = v
handle_delete_relay-Inv true token s v = elim (Option-cases (lookup token s.relays)) [
  | inl e ↦ rw (e, handle_delete_relay) v
  | inr (r, e) ↦ rw (e, handle_delete_relay) (drop_pair-Inv token r s v)
]

pub handle_prune_relays-Inv :
    (auth : Bool) (now : ℕ) (age : Bytes) (s : Server)
    → Inv s
    → Inv (handle_prune_relays auth now age s).0
unfolding handle_prune_relays
handle_prune_relays-Inv false now age s v = v
handle_prune_relays-Inv true now age s v = elim (Option-cases (lookup age prune_ages)) [
  | inl e ↦ rw (e, handle_prune_relays) v
  | inr (idle, e) ↦
      rw (e, handle_prune_relays)
        (Inv-Shrinks s _
          (Shrinks-retain (λ _ route. not (is_idle now idle route)) s.relays v.unique)
          (retain-NodupKeys (λ _ route. not (is_idle now idle route)) s.relays v.unique) v)
]

-- The admin API drops sessions from the map and changes none of them.
pub handle_delete_session-objects :
    (auth : Bool) (code : Bytes) (s : Server)
    → (handle_delete_session auth code s).0.objects ≡ s.objects
unfolding handle_delete_session
handle_delete_session-objects auth code s = ground arith

pub handle_delete_relay-objects :
    (auth : Bool) (token : Bytes) (s : Server)
    → (handle_delete_relay auth token s).0.objects ≡ s.objects
unfolding handle_delete_relay
handle_delete_relay-objects auth token s = ground arith

pub handle_prune_relays-objects :
    (auth : Bool) (now : ℕ) (age : Bytes) (s : Server)
    → (handle_prune_relays auth now age s).0.objects ≡ s.objects
unfolding handle_prune_relays
handle_prune_relays-objects auth now age s = ground arith
