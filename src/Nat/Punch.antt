-- ===== src/Nat/Punch.antt =====
-- internal/nat/nat.go: `matchCandidate` and the loop of `Punch` after its candidates are resolved.
-- One entry of the rounds is what the round's read returned: none for a timeout or an error.
pub mod Laws
use relay_tunnel.Prelude.{
  ℕ, ◌≡◌, ◌≢◌, ◌⊎◌, ◌↔◌, inl, inr, refl, Bool, true, false, ◌||◌, ◌==◌, Option, none, some, List,
  [], ◌∷◌, ◌++◌, Bytes, arith, contains, take, if◌then◌else◌, map, Bool-cases, Option-cases,
  bytes_eq, codes,
}
use relay_tunnel.Signal.State.{Addr}
use relay_tunnel.Nat.{same_host_port}

unfoldable pub match_candidate : List Addr → Addr → Option Addr
unfolding same_host_port
match_candidate [] from = none
match_candidate (p ∷ ps) from = if same_host_port from p then some p else match_candidate ps from

abbrev pub hello_text : Bytes
hello_text = codes "RTPUNCH"

abbrev pub ack_text : Bytes
ack_text = codes "RTPUNCH-ACK"

-- A datagram, with the address it is written to or read from.
pub record Packet : Type 0 where
  pub addr : Addr
  pub payload : Bytes

abbrev pub packet : Addr → Bytes → Packet
packet a d = record { addr = a; payload = d }

-- What `Punch` wrote, and the peer it returned; none is its timeout.
pub record Outcome : Type 0 where
  pub wrote : List Packet
  pub peer : Option Addr

abbrev pub after : List Packet → Outcome → Outcome
after ps o = record { wrote = ps ++ o.wrote; peer = o.peer }

abbrev pub buf_len : ℕ
buf_len = 1500

module _ (show : Addr → Bytes) where
  -- The writes at the start of a round.
  unfoldable pub greet : List Addr → List Bytes → List Packet
  greet [] heard = []
  greet (p ∷ ps) heard =
      let rest = greet ps heard in
      packet p hello_text ∷ (if contains heard (show p) then packet p ack_text ∷ rest else rest)

  unfoldable pub punch_rounds : List Addr → List Bytes → List (Option Packet) → Outcome
  unfolding greet match_candidate
  punch_rounds peers heard [] = record { wrote = []; peer = none }
  punch_rounds peers heard (none ∷ rs) = after (greet peers heard) (punch_rounds peers heard rs)
  punch_rounds peers heard (some r ∷ rs) = elim (match_candidate peers r.addr) [
    | none ↦ after (greet peers heard) (punch_rounds peers heard rs)
    | some p ↦
        let buf = take buf_len r.payload in
        let heard_it = punch_rounds peers (show p ∷ heard) rs in
        let other = punch_rounds peers heard rs in
        if buf == hello_text
        then after (greet peers heard ++ (packet p ack_text ∷ [])) heard_it
        else if buf == ack_text
        then record {
          wrote =
              greet peers heard ++ (packet p ack_text ∷ packet p ack_text ∷ packet p ack_text ∷ []);
          peer = some p;
        }
        else after (greet peers heard) other
  ]

-- The read returned an acknowledgement from this candidate.
abbrev pub Acks : List Addr → Option Packet → Addr → Type 0
Acks peers none p = ⊥
Acks peers (some r) p =
    (match_candidate peers r.addr ≡ some p) × (take buf_len r.payload ≡ ack_text)

-- No read returned an acknowledgement from a candidate.
abbrev pub Quiet : List Addr → List (Option Packet) → Type 0
Quiet peers [] = Unit
Quiet peers (r ∷ rs) = ((p : Addr) → ¬ Acks peers r p) × Quiet peers rs

abbrev pub Among : Addr → List Addr → Type 0
Among a [] = ⊥
Among a (p ∷ ps) = (a ≡ p) ⊎ Among a ps

abbrev pub AllTo : List Addr → List Packet → Type 0
AllTo peers [] = Unit
AllTo peers (p ∷ ps) = Among p.addr peers × AllTo peers ps
