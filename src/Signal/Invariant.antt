-- ===== src/Signal/Invariant.antt =====
-- internal/signal/server.go: what holds of the server between any two of its critical sections.
pub mod Frame
use relay_tunnel.Prelude.{
  ℕ, ◌<◌, ◌≡◌, ◌≢◌, ◌⊎◌, Option, none, some, [], Bytes, length, Dict, NodupKeys, lookup, nat_eq,
  bytes_eq,
}
use relay_tunnel.Signal.State.{Role, host, client, Route, Who, Peer, Session, Server}

-- What the peer with this number joined as.
abbrev pub who_at : ℕ → Dict ℕ Peer → Option Who
who_at c peers = elim (lookup c peers) [ none ↦ none | some p ↦ some p.who ]

-- Two tokens are those of the two peers of one session.
pub record Partners (peers : Dict ℕ Peer) (t u : Bytes) : Type 0 where
  pub one : ℕ
  pub two : ℕ
  pub v : Who
  pub w : Who
  pub at_one : who_at one peers ≡ some v
  pub at_two : who_at two peers ≡ some w
  pub token_one : v.token ≡ t
  pub token_two : w.token ≡ u
  pub same_session : v.session ≡ w.session
  pub same_code : v.code ≡ w.code
  pub other_role : v.role ≢ w.role

-- A route leads nowhere, or from one peer of a session to the other.
abbrev pub Isolated : Dict ℕ Peer → Dict Bytes Route → Type 0
Isolated peers relays =
    (t : Bytes) (r : Route) → lookup t relays ≡ some r → (r.peer ≡ []) ⊎ Partners peers t r.peer

abbrev pub Sized : Dict Bytes Route → Type 0
Sized relays = (t : Bytes) (r : Route) → lookup t relays ≡ some r → length t ≡ 16

-- The peer in a slot joined this session, under its code, in the slot's role.
abbrev pub Seat : Dict ℕ Peer → ℕ → Bytes → Role → Option ℕ → Type 0
Seat peers i code role none = Unit
Seat peers i code role (some c) =
    (v : Who) × (who_at c peers ≡ some v) × (v.session ≡ i) × (v.role ≡ role) × (v.code ≡ code)

abbrev pub Seats : Dict ℕ Peer → ℕ → Session → Type 0
Seats peers i sess =
    Seat peers i sess.code host sess.host_peer × Seat peers i sess.code client sess.client_peer

abbrev pub Seated : Dict ℕ Peer → Dict ℕ Session → Type 0
Seated peers objects = (i : ℕ) (sess : Session) → lookup i objects ≡ some sess → Seats peers i sess

-- Peers have a token of the right size, and a number that was handed out.
abbrev pub Known : Dict ℕ Peer → ℕ → Type 0
Known peers next = (c : ℕ) (v : Who) → who_at c peers ≡ some v → (length v.token ≡ 16) × (c < next)

abbrev pub Allocated : Dict ℕ Session → ℕ → Type 0
Allocated objects next = (i : ℕ) (sess : Session) → lookup i objects ≡ some sess → i < next

abbrev pub IsOccupied : Session → Type 0
IsOccupied sess = (sess.host_peer ≢ none) ⊎ (sess.client_peer ≢ none)

-- A code leads to a session of that code, and one that somebody is on.
abbrev pub Keyed : Dict Bytes ℕ → Dict ℕ Session → Type 0
Keyed sessions objects =
    (code : Bytes) (i : ℕ)
    → lookup code sessions ≡ some i
    → (sess : Session) × (lookup i objects ≡ some sess) × (sess.code ≡ code) × IsOccupied sess

pub record Inv (s : Server) : Type 0 where
  pub isolated : Isolated s.peers s.relays
  pub sized : Sized s.relays
  pub unique : NodupKeys s.relays
  pub seated : Seated s.peers s.objects
  pub known : Known s.peers s.next
  pub allocated : Allocated s.objects s.next
  pub keyed : Keyed s.sessions s.objects
