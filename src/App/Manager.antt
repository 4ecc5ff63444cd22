-- ===== src/App/Manager.antt =====
-- internal/app/connmanager.go: `ConnManager.Run`. Times are nanoseconds; a connection is a number, and
-- the channel `ready` is whether it is closed.
pub mod Laws
pub mod Waiting
use relay_tunnel.Prelude.{
  ℕ, ◌*◌, Bool, true, false, Option, none, some, List, [], ◌∷◌, ltb, if◌then◌else◌,
}
use relay_tunnel.Signal.State.{second}

abbrev pub min_backoff : ℕ
min_backoff = second

abbrev pub max_backoff : ℕ
max_backoff = 15 * second

-- `ConnManager`, with the local variable `backoff` of `Run`. Closing a closed channel panics.
pub record Manager : Type 0 where
  pub conn : Option ℕ
  pub ready_closed : Bool
  pub backoff : ℕ
  pub panicked : Bool

-- `NewConnManager`, at the start of `Run`.
abbrev pub new_manager : Manager
new_manager = record { conn = none; ready_closed = false; backoff = min_backoff; panicked = false }

unfoldable pub set : ℕ → Manager → Manager
set c m = record m {
  conn = some c;
  ready_closed = true;
  panicked = if m.ready_closed then true else m.panicked;
}

unfoldable pub clear : Manager → Manager
clear m = record m { conn = none; ready_closed = false }

-- One round of the loop: a dial that fails and the wait after it, or a connection, from its dial to its
-- loss. A cancelled context ends the loop in either.
pub data Round : Type 0 where
  failed cancelled : Round
  connected : ℕ → Bool → Round

-- `backoff *= 2`, cut off
abbrev pub grown : ℕ → ℕ
grown backoff = if ltb max_backoff (backoff * 2) then max_backoff else backoff * 2

-- While the connection of a round is up.
unfoldable pub during : ℕ → Manager → Manager
unfolding set
during c m = set c (record m { backoff = min_backoff })

-- The manager at the end of `Run`, or of the rounds, and the waits between dials.
unfoldable pub run_rounds : List Round → Manager → Manager × List ℕ
unfolding during clear
run_rounds [] m = (m, [])
run_rounds (cancelled ∷ rs) m = (m, [])
run_rounds (failed ∷ rs) m =
    let (m', waits) = run_rounds rs (record m { backoff = grown m.backoff }) in
    (m', m.backoff ∷ waits)
run_rounds (connected c true ∷ rs) m = (clear (during c m), [])
run_rounds (connected c false ∷ rs) m = run_rounds rs (clear (during c m))

-- The first look of `Conn`: the live connection, or a wait until `ready` is closed.
unfoldable pub try_conn : Manager → Option ℕ
try_conn m = m.conn
