-- ===== src/App/Manager/Laws.antt =====
-- internal/app/connmanager.go: the waits, and the channel that is never closed twice.
use relay_tunnel.Prelude.{
  ℕ, zero, suc, ◌*◌, ◌^◌, ◌≤◌, ◌≡◌, refl, ap, ◌∙◌, true, false, none, List, [], ◌∷◌, ltb, arith,
  if◌then◌else◌,
}
use mathlib.Core.Path.{ap₂}
use relay_tunnel.Signal.State.{second}
use relay_tunnel.App.Manager.{
  Manager, min_backoff, max_backoff, set, clear, Round, failed, cancelled, connected, grown, during,
  run_rounds,
}

-- Between rounds there is no connection, the channel is open, and nothing has panicked.
abbrev pub IsIdle : Manager → Type 0
IsIdle m =
    (m.conn ≡ none)
    × (m.ready_closed ≡ false)
    × (m.panicked ≡ false)
    × (min_backoff ≤ m.backoff)
    × (m.backoff ≤ max_backoff)

abbrev pub AllBounded : List ℕ → Type 0
AllBounded [] = Unit
AllBounded (w ∷ ws) = ((min_backoff ≤ w) × (w ≤ max_backoff)) × AllBounded ws

-- Whatever the rounds, a manager that starts them idle ends them idle and without a panic, and
-- every wait between two dials is between one second and fifteen.
pub run_rounds-IsIdle :
    (rs : List Round) (m : Manager)
    → IsIdle m
    → IsIdle (run_rounds rs m).0 × AllBounded (run_rounds rs m).1
unfolding run_rounds during set clear
run_rounds-IsIdle [] m i = (i, tt)
run_rounds-IsIdle (cancelled ∷ rs) m i = (i, tt)
run_rounds-IsIdle (failed ∷ rs) m (c, r, p, lo, hi) =
    let (j, b) =
      run_rounds-IsIdle rs (record m { backoff = grown m.backoff })
        (c, r, p, ground arith, ground arith) in
    (j, ((lo, hi), b))
run_rounds-IsIdle (connected c true ∷ rs) m (_, r, p, lo, hi) =
    ((refl, refl, ground arith, omega arith, omega arith), tt)
run_rounds-IsIdle (connected c false ∷ rs) m (_, r, p, lo, hi) =
    run_rounds-IsIdle rs (clear (during c m)) (refl, refl, ground arith, omega arith, omega arith)

abbrev pub failures : ℕ → List Round
failures zero = []
failures (suc n) = failed ∷ failures n

-- The wait after `i` dials in a row have failed: it doubles from one second, and stays at fifteen.
abbrev pub wait_at : ℕ → ℕ
wait_at i = if ltb max_backoff (second * 2 ^ i) then max_backoff else second * 2 ^ i

-- The first `n` waits from the `i`-th on.
abbrev pub waits_from : ℕ → ℕ → List ℕ
waits_from i zero = []
waits_from i (suc n) = wait_at i ∷ waits_from (suc i) n

grown-wait_at : (i : ℕ) → grown (wait_at i) ≡ wait_at (suc i)
grown-wait_at i = ground arith

run_rounds-failures :
    (n i : ℕ) (m : Manager) → m.backoff ≡ wait_at i → (run_rounds (failures n) m).1 ≡ waits_from i n
unfolding run_rounds
run_rounds-failures zero i m e = refl
run_rounds-failures (suc n) i m e = ap₂ ◌∷◌ e (
    run_rounds-failures n (suc i) (record m { backoff = grown m.backoff })
      (ap grown e ∙ grown-wait_at i))

-- After a connection that was lost, dials that fail one after the other are spaced by waits that double
-- from one second up to fifteen, however long the wait had grown before the connection.
pub run_rounds-waits :
    (c n : ℕ) (m : Manager) → (run_rounds (connected c false ∷ failures n) m).1 ≡ waits_from 0 n
unfolding run_rounds during clear set
run_rounds-waits c n m = run_rounds-failures n 0 (clear (during c m)) refl
