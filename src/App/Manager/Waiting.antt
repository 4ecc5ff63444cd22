-- ===== src/App/Manager/Waiting.antt =====
-- internal/app/connmanager.go: `Conn`, a caller of which looks and waits while `Run` sets and clears the
-- connection. A waiting caller holds the channel `ready` of its last look.
use relay_tunnel.Prelude.{
  ℕ, ◌≡◌, refl, Bool, true, false, Option, none, some, List, [], ◌∷◌, arith, ◌⊎◌, inl, inr,
}
use relay_tunnel.App.Manager.{Manager, set, clear, try_conn}

-- A caller of `Conn`: before a look, waiting on a channel that is closed or not, or returned.
pub data Waiter : Type 0 where
  looking given_up : Waiter
  waiting : Bool → Waiter
  got : ℕ → Waiter

-- The channel of a manager without a connection is the one that the next `set` closes.
abbrev pub woken : Waiter → Waiter
woken (waiting _) = waiting true
woken w = w

abbrev pub look : Option ℕ → Bool → Waiter
look none closed = waiting closed
look (some c) closed = got c

-- What a caller does when it runs: it looks, or goes on after its channel was closed.
unfoldable pub go_on : Manager → Waiter → Waiter
unfolding try_conn
go_on m looking = look (try_conn m) m.ready_closed
go_on m (waiting true) = looking
go_on m w = w

abbrev pub cancel : Waiter → Waiter
cancel (waiting _) = given_up
cancel w = w

pub data Event : Type 0 where
  is_set : ℕ → Event
  is_cleared runs is_cancelled : Event

-- `Run` sets a connection only when there is none, and clears only the one that it set.
abbrev pub on_set : Option ℕ → ℕ → Manager × Waiter → Manager × Waiter
on_set none c (m, w) = (set c m, woken w)
on_set (some _) c s = s

abbrev pub on_clear : Option ℕ → Manager × Waiter → Manager × Waiter
on_clear none s = s
on_clear (some _) (m, w) = (clear m, w)

unfoldable pub on_event : Event → Manager × Waiter → Manager × Waiter
unfolding go_on set clear
on_event (is_set c) (m, w) = on_set m.conn c (m, w)
on_event is_cleared (m, w) = on_clear m.conn (m, w)
on_event runs (m, w) = (m, go_on m w)
on_event is_cancelled (m, w) = (m, cancel w)

unfoldable pub run_events : List Event → Manager × Waiter → Manager × Waiter
unfolding on_event
run_events [] s = s
run_events (e ∷ es) s = run_events es (on_event e s)

-- No wake-up is lost: a caller whose channel is open has no connection to wait for.
abbrev pub IsAwake : Manager × Waiter → Type 0
IsAwake (m, waiting false) = m.conn ≡ none
IsAwake (m, waiting true) = Unit
IsAwake (m, looking) = Unit
IsAwake (m, given_up) = Unit
IsAwake (m, got c) = Unit

woken-IsAwake : (m : Manager) (w : Waiter) → IsAwake (m, woken w)
woken-IsAwake m (waiting b) = tt
woken-IsAwake m looking = tt
woken-IsAwake m given_up = tt
woken-IsAwake m (got c) = tt

cleared-IsAwake : (m : Manager) (w : Waiter) → m.conn ≡ none → IsAwake (m, w)
cleared-IsAwake m (waiting false) e = e
cleared-IsAwake m (waiting true) e = tt
cleared-IsAwake m looking e = tt
cleared-IsAwake m given_up e = tt
cleared-IsAwake m (got c) e = tt

look-IsAwake : (m : Manager) (b : Bool) (o : Option ℕ) → m.conn ≡ o → IsAwake (m, look o b)
look-IsAwake m b none e = cleared-IsAwake m (waiting b) e
look-IsAwake m b (some c) e = tt

cancel-IsAwake : (m : Manager) (w : Waiter) → IsAwake (m, cancel w)
cancel-IsAwake m (waiting b) = tt
cancel-IsAwake m looking = tt
cancel-IsAwake m given_up = tt
cancel-IsAwake m (got c) = tt

go_on-IsAwake : (m : Manager) (w : Waiter) → IsAwake (m, w) → IsAwake (m, go_on m w)
unfolding go_on try_conn
go_on-IsAwake m looking a = look-IsAwake m m.ready_closed m.conn refl
go_on-IsAwake m (waiting true) a = tt
go_on-IsAwake m (waiting false) a = a
go_on-IsAwake m given_up a = tt
go_on-IsAwake m (got c) a = tt

on_set-IsAwake : (o : Option ℕ) (c : ℕ) (s : Manager × Waiter) → IsAwake s → IsAwake (on_set o c s)
on_set-IsAwake none c (m, w) a = woken-IsAwake (set c m) w
on_set-IsAwake (some _) c s a = a

on_clear-IsAwake : (o : Option ℕ) (s : Manager × Waiter) → IsAwake s → IsAwake (on_clear o s)
unfolding clear
on_clear-IsAwake none s a = a
on_clear-IsAwake (some _) (m, w) a = cleared-IsAwake (clear m) w refl

on_event-IsAwake : (e : Event) (s : Manager × Waiter) → IsAwake s → IsAwake (on_event e s)
unfolding on_event
on_event-IsAwake (is_set c) (m, w) a = on_set-IsAwake m.conn c (m, w) a
on_event-IsAwake is_cleared (m, w) a = on_clear-IsAwake m.conn (m, w) a
on_event-IsAwake runs (m, w) a = go_on-IsAwake m w a
on_event-IsAwake is_cancelled (m, w) a = cancel-IsAwake m w

run_events-IsAwake :
    (es : List Event) (s : Manager × Waiter) → IsAwake s → IsAwake (run_events es s)
unfolding run_events
run_events-IsAwake [] s a = a
run_events-IsAwake (e ∷ es) s a = run_events-IsAwake es (on_event e s) (on_event-IsAwake e s a)

live-returns :
    (c : ℕ) (m : Manager) (w : Waiter)
    → IsAwake (m, w)
    → m.conn ≡ some c
    → (w ≡ given_up) ⊎ ((d : ℕ) × (w ≡ got d)) ⊎ (go_on m (go_on m w) ≡ got c)
unfolding go_on try_conn
live-returns c m looking a e = inr (inr (rw e))
live-returns c m given_up a e = inl refl
live-returns c m (waiting true) a e = inr (inr (rw e))
live-returns c m (waiting false) a e = absurd (ground arith)
live-returns c m (got d) a e = inr (inl (d, refl))

-- However a caller of `Conn` and the manager have interleaved, from its first look on: when a connection
-- is live, a caller whose context was not cancelled while it waited has returned already, or returns
-- that connection within its next two turns.
pub run_events-returns :
    (es : List Event) (m : Manager) (c : ℕ)
    → (run_events es (m, looking)).0.conn ≡ some c
    → ((run_events es (m, looking)).1 ≡ given_up)
      ⊎ ((d : ℕ) × ((run_events es (m, looking)).1 ≡ got d))
      ⊎ ((run_events (runs ∷ runs ∷ []) (run_events es (m, looking))).1 ≡ got c)
unfolding run_events on_event
run_events-returns es m c live =
    let s = run_events es (m, looking) in
    live-returns c s.0 s.1 (run_events-IsAwake es (m, looking) tt) live
