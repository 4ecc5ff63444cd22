-- ===== src/Signal/Step.antt =====
-- internal/signal: the server's critical sections as events. Connections, the UDP loop, the sweep and
-- the admin API run at the same time; each event is a part that runs under the server's mutex, or the
-- assignments of one read loop to its own peer. A "ready" message is `marked` and then `paired`.
use relay_tunnel.Prelude.{ℕ, Bool, Option, List, [], ◌∷◌, Bytes}
use relay_tunnel.Signal.State.{Addr, Message, Server, Effect}
use relay_tunnel.Signal.Udp.{handle_datagram, sweep}
use relay_tunnel.Signal.Pairing.{Hello, handle_hello, mark_ready, try_pair, leave}
use relay_tunnel.Signal.Api.{handle_delete_session, handle_delete_relay, handle_prune_relays}

pub data Event : Type 0 where
  hello : Hello → ℕ → Option Message → Event
  marked : ℕ → Message → Event
  paired : ℕ → ℕ → Event
  left : ℕ → Event
  packet : ℕ → Addr → Bytes → Event
  swept : ℕ → Event
  session_deleted : Bool → Bytes → Event
  relay_deleted : Bool → Bytes → Event
  pruned : Bool → ℕ → Bytes → Event

unfoldable pub step : (Addr → Bytes) → Event → Server → Server × List Effect
step show (hello h now m) s = handle_hello h now m s
step show (marked c m) s = (mark_ready c m s, [])
step show (paired now i) s = try_pair now i s
step show (left c) s = (leave c s, [])
step show (packet now from buf) s = handle_datagram show now from buf s
step show (swept now) s = (sweep now s, [])
step show (session_deleted auth code) s =
    let (s', sent, _) = handle_delete_session auth code s in (s', sent)
step show (relay_deleted auth token) s = ((handle_delete_relay auth token s).0, [])
step show (pruned auth now age) s = ((handle_prune_relays auth now age s).0, [])

unfoldable pub run : (Addr → Bytes) → List Event → Server → Server
unfolding step
run show [] s = s
run show (e ∷ es) s = run show es (step show e s).0
