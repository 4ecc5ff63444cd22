-- ===== src/Sync/Retry.antt =====
-- examples/relay-sync/main.go: `runWithRetry`, over what becomes of its attempts. Times are
-- nanoseconds; `at` is the time when an attempt has returned.
use relay_tunnel.Prelude.{
  ℕ, ◌+◌, ◌-◌, ◌*◌, ◌/◌, ◌<◌, ◌≤◌, ltb, Bool, true, false, ◌||◌, ◌==◌, List, [], ◌∷◌, length,
  if◌then◌else◌, nat_eq, ◌≢◌, refl, ap, arith,
}
use relay_tunnel.Signal.State.{second}

pub record Attempt : Type 0 where
  pub succeeded : Bool
  pub at : ℕ
  pub cancelled : Bool
  pub cancelled_waiting : Bool

-- It is still running when the attempts end before the loop does.
pub data Ending : Type 0 where
  complete failed running : Ending

abbrev pub max_backoff : ℕ
max_backoff = 15 * second

abbrev pub doubled : ℕ → ℕ
doubled backoff = let twice = backoff * 2 in if ltb max_backoff twice then max_backoff else twice

unfoldable pub retry_rounds : ℕ → ℕ → ℕ → List Attempt → Ending
retry_rounds window deadline backoff [] = running
retry_rounds window deadline backoff (a ∷ more) =
    let rest = retry_rounds window deadline (doubled backoff) more in
    if a.succeeded
    then complete
    else if a.cancelled
    then failed
    else if window == 0 || ltb deadline a.at
    then failed
    else if a.cancelled_waiting
    then failed
    else rest

-- `runWithRetry`, which starts at the time `start`.
unfoldable pub run_with_retry : ℕ → ℕ → List Attempt → Ending
unfolding retry_rounds
run_with_retry window start attempts = retry_rounds window (start + window) second attempts

-- An attempt that follows returns after the wait, and no attempt returns before `now`.
abbrev pub Waits : ℕ → ℕ → List Attempt → Type 0
Waits now backoff [] = Unit
Waits now backoff (a ∷ more) = (now ≤ a.at) × Waits (a.at + backoff) (doubled backoff) more

if_ends : (b : Bool) (x y : Ending) → x ≢ running → y ≢ running → (if b then x else y) ≢ running
if_ends true x y h k = h
if_ends false x y h k = k

retry_rounds_ends :
    (window deadline now backoff : ℕ) (attempts : List Attempt)
    → second ≤ backoff
    → Waits now backoff attempts
    → deadline < now + second * (length attempts - 1)
    → attempts ≢ []
    → retry_rounds window deadline backoff attempts ≢ running
unfolding retry_rounds
retry_rounds_ends window deadline now backoff [] b w l n = absurd (n refl)
retry_rounds_ends window deadline now backoff (a ∷ []) b (h, w) l n = λ e. ground arith
retry_rounds_ends window deadline now backoff (a ∷ x ∷ more) b (h, w) l n =
    let later =
      retry_rounds_ends window deadline (a.at + backoff) (doubled backoff) (x ∷ more) (ground arith)
        w (ground arith) (λ e. ground arith) in
    if_ends a.succeeded complete _ (λ e. ground arith)
      (if_ends a.cancelled failed _ (λ e. ground arith)
        (if_ends (window == 0 || ltb deadline a.at) failed _ (λ e. ground arith)
          (if_ends a.cancelled_waiting failed _ (λ e. ground arith) later)))

-- Where each attempt returns no earlier than the wait before it allows, the loop has come to its end
-- after at most two attempts more than the window has seconds.
pub run_with_retry_ends :
    (window start : ℕ) (attempts : List Attempt)
    → Waits start second attempts
    → window / second + 2 ≤ length attempts
    → run_with_retry window start attempts ≢ running
unfolding run_with_retry
run_with_retry_ends window start attempts w l =
    retry_rounds_ends window (start + window) start second attempts (omega arith) w
      (omega (arith, l)) (λ e. omega (arith, l, ap length e))
