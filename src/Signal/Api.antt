-- ===== src/Signal/Api.antt =====
-- internal/signal/api.go: what the admin API reads and edits. Each handler is given the outcome of
-- `s.authorized(r)`.
pub mod Views
pub mod Keeps
pub mod Laws
pub mod Status
use relay_tunnel.Prelude.{
  ℕ, ◌+◌, ◌-◌, ◌*◌, Bool, true, false, not, ◌||◌, ◌==◌, Option, none, some, List, [], ◌∷◌, ◌++◌,
  map, Bytes, codes, length, ltb, if◌then◌else◌, Dict, keys, lookup, erase, retain, nat_eq,
  bytes_eq,
}
use relay_tunnel.Prelude.Sort.{sort, bytes_leb}
use relay_tunnel.Signal.State.{
  Route, Peer, Session, Server, Effect, send, close, error_message, minute, hour,
}

-- The status and the text of `writeJSONError`, or the status and what is written.
pub data Response {ℓ} (A : Type ℓ) : Type ℓ where
  failed : ℕ → Bytes → Response A
  ok : ℕ → A → Response A

abbrev pub unauthorized {ℓ} : {A : Type ℓ} → Response A
unauthorized = failed 401 (codes "sign in first")

-- The token of a peer that a slot names, if it names one.
unfoldable pub slot_tokens : Option ℕ → Dict ℕ Peer → List Bytes
slot_tokens none peers = []
slot_tokens (some c) peers = elim (lookup c peers) [ none ↦ [] | some p ↦ p.token ∷ [] ]

unfoldable pub erase_all : List Bytes → Dict Bytes Route → Dict Bytes Route
erase_all [] relays = relays
erase_all (t ∷ ts) relays = erase_all ts (erase t relays)

abbrev slot_peers : Option ℕ → List ℕ
slot_peers none = []
slot_peers (some c) = c ∷ []

abbrev farewell : List ℕ → List Effect
farewell [] = []
farewell (c ∷ cs) =
    send c (error_message (codes "session closed by the server")) ∷ close c ∷ farewell cs

unfoldable pub close_session : Bytes → Session → Server → Server × List Effect
unfolding slot_tokens erase_all
close_session code sess s = (
  record s {
    relays =
        erase_all (slot_tokens sess.host_peer s.peers ++ slot_tokens sess.client_peer s.peers)
          s.relays;
    sessions = erase code s.sessions;
  },
  farewell (slot_peers sess.host_peer ++ slot_peers sess.client_peer),
)

-- `s.sessions[code]`, with its pointer followed.
abbrev pub session_at : Bytes → Server → Option Session
session_at code s = elim (lookup code s.sessions) [ none ↦ none | some i ↦ lookup i s.objects ]

unfoldable pub handle_delete_session :
    Bool → Bytes → Server → Server × List Effect × Response (Unit {0})
unfolding close_session
handle_delete_session false code s = (s, [], unauthorized)
handle_delete_session true code s = elim (session_at code s) [
  | none ↦ (s, [], failed 404 (codes "no such session"))
  | some sess ↦ let (s', sent) = close_session code sess s in (s', sent, ok 204 tt)
]

abbrev drop_pair : Bytes → Route → Dict Bytes Route → Dict Bytes Route
drop_pair token route relays =
    let rest = erase token relays in if route.peer == [] then rest else erase route.peer rest

unfoldable pub handle_delete_relay : Bool → Bytes → Server → Server × Response (Unit {0})
handle_delete_relay false token s = (s, unauthorized)
handle_delete_relay true token s = elim (lookup token s.relays) [
  | none ↦ (s, failed 404 (codes "no such relay route"))
  | some route ↦ (record s { relays = drop_pair token route s.relays }, ok 204 tt)
]

-- `pruneAges`
abbrev pub prune_ages : Dict Bytes ℕ
prune_ages =
    (codes "1m", minute)
    ∷ (codes "5m", 5 * minute)
    ∷ (codes "15m", 15 * minute)
    ∷ (codes "1h", hour)
    ∷ (codes "6h", 6 * hour)
    ∷ (codes "24h", 24 * hour)
    ∷ []

-- `sortedPruneAges`, joined: the table above is in that order.
abbrev pub prune_ages_text : Bytes
prune_ages_text = codes "idle_for must be one of 1m, 5m, 15m, 1h, 6h, 24h"

pub record Pruned : Type 0 where
  pub idle_for : Bytes
  pub deleted : ℕ
  pub tokens : List Bytes

abbrev pub is_idle : ℕ → ℕ → Route → Bool
is_idle now idle route = ltb idle (now - route.seen)

unfoldable pub prune : ℕ → ℕ → Bytes → Server → Server × Response Pruned
prune now idle age s =
    let removed = keys (retain (λ _ route. is_idle now idle route) s.relays) in
    (
      record s { relays = retain (λ _ route. not (is_idle now idle route)) s.relays },
      ok 200 (record { idle_for = age; deleted = length removed; tokens = sort bytes_leb removed }),
    )

unfoldable pub handle_prune_relays : Bool → ℕ → Bytes → Server → Server × Response Pruned
unfolding prune
handle_prune_relays false now age s = (s, unauthorized)
handle_prune_relays true now age s = elim (lookup age prune_ages) [
  | none ↦ (s, failed 400 prune_ages_text)
  | some idle ↦ prune now idle age s
]
