-- ===== src/Signal/Safety.antt =====
-- internal/signal: the invariant over whole histories, and what it says of relayed datagrams.
use relay_tunnel.Prelude.{
  ℕ, ◌≡◌, List, [], ◌∷◌, ◌++◌, Bytes, arith, length, lookup, bytes_eq, nat_eq,
}
use relay_tunnel.Signal.State.{Addr, Server, new_server}
use relay_tunnel.Signal.Udp.{magic, token_len, handle_datagram}
use relay_tunnel.Signal.Udp.Isolation.{ForwardsTo, handle_datagram-ForwardsTo}
use relay_tunnel.Signal.Udp.Keeps.{handle_datagram-Inv, sweep-Inv}
use relay_tunnel.Signal.Pairing.Joining.{handle_hello-Inv}
use relay_tunnel.Signal.Pairing.Linking.{mark_ready-Inv, try_pair-Inv}
use relay_tunnel.Signal.Pairing.Leaving.{leave-Inv}
use relay_tunnel.Signal.Api.Keeps.{
  handle_delete_session-Inv, handle_delete_relay-Inv, handle_prune_relays-Inv,
}
use relay_tunnel.Signal.Udp.Keeps.{handle_datagram-objects}
use relay_tunnel.Signal.Api.Keeps.{
  handle_delete_session-objects, handle_delete_relay-objects, handle_prune_relays-objects,
}
use relay_tunnel.Signal.Udp.{sweep}
use relay_tunnel.Signal.Pairing.{try_pair}
use relay_tunnel.Signal.Pairing.Once.{IsPaired, try_pair-IsPaired}
use relay_tunnel.Signal.Pairing.Stays.{
  handle_hello-IsPaired, mark_ready-IsPaired, step_try_pair-IsPaired, leave-IsPaired,
}
use relay_tunnel.Signal.Invariant.{Inv}
use relay_tunnel.Signal.Step.{
  Event, hello, marked, paired, left, packet, swept, session_deleted, relay_deleted, pruned, step,
  run,
}

-- `randToken` gives 16 hexadecimal digits.
abbrev pub IsFairEvent : Event → Type 0
IsFairEvent (hello h now m) = length h.token ≡ 16
IsFairEvent _ = Unit

abbrev pub AreFair : List Event → Type 0
AreFair [] = Unit
AreFair (e ∷ es) = IsFairEvent e × AreFair es

step-Inv :
    (show : Addr → Bytes) (e : Event) (s : Server) → IsFairEvent e → Inv s → Inv (step show e s).0
unfolding step
step-Inv show (hello h now m) s f v = handle_hello-Inv h now m s f v
step-Inv show (marked c m) s f v = mark_ready-Inv c m s v
step-Inv show (paired now i) s f v = try_pair-Inv now i s v
step-Inv show (left c) s f v = leave-Inv c s v
step-Inv show (packet now from buf) s f v = handle_datagram-Inv show now from buf s v
step-Inv show (swept now) s f v = sweep-Inv now s v
step-Inv show (session_deleted auth code) s f v = handle_delete_session-Inv auth code s v
step-Inv show (relay_deleted auth token) s f v = handle_delete_relay-Inv auth token s v
step-Inv show (pruned auth now age) s f v = handle_prune_relays-Inv auth now age s v

pub new_server-Inv : Inv new_server
unfolding lookup
new_server-Inv = record {
  isolated = λ t r e. absurd (ground arith);
  sized = λ t r e. absurd (ground arith);
  unique = tt;
  seated = λ i o e. absurd (ground arith);
  known = λ c v e. absurd (ground arith);
  allocated = λ i o e. absurd (ground arith);
  keyed = λ k i e. absurd (ground arith);
}

-- Every history, in any order of its critical sections, keeps the invariant, where the tokens that
-- it hands out have 16 bytes.
pub run-Inv :
    (show : Addr → Bytes) (es : List Event) (s : Server) → AreFair es → Inv s → Inv (run show es s)
unfolding run
run-Inv show [] s f v = v
run-Inv show (e ∷ es) s f v = run-Inv show es (step show e s).0 f.1 (step-Inv show e s f.0 v)

-- After every history of a new server that hands out tokens of 16 bytes, a datagram with a token
-- of 16 bytes and a payload is forwarded, if at all, once, as it came, to where the other peer of
-- the sender's own session was last heard from.
pub forwards_within_session :
    (show : Addr → Bytes) (es : List Event) (now : ℕ) (from : Addr) (token : Bytes) (x : ℕ)
    (xs : Bytes)
    → AreFair es
    → length token ≡ token_len
    → let s = run show es new_server in
      let (s', sent) = handle_datagram show now from (magic ++ (token ++ (x ∷ xs))) s in
      ForwardsTo s.peers s'.relays token (x ∷ xs) sent
forwards_within_session show es now from token x xs fair size =
    handle_datagram-ForwardsTo show now from token x xs (run show es new_server) size
      (run-Inv show es new_server fair new_server-Inv)

step-IsPaired :
    (show : Addr → Bytes) (e : Event) (i : ℕ) (s : Server)
    → Inv s
    → IsPaired i s
    → IsPaired i (step show e s).0
unfolding step sweep
step-IsPaired show (hello h now m) i s v p = handle_hello-IsPaired h now m i s v p
step-IsPaired show (marked c m) i s v p = mark_ready-IsPaired c m i s p
step-IsPaired show (paired now j) i s v p = step_try_pair-IsPaired now i j s p
step-IsPaired show (left c) i s v p = leave-IsPaired c i s p
step-IsPaired show (packet now from buf) i s v (sess, at, done) =
    (sess, rw (handle_datagram-objects show now from buf s) at, done)
step-IsPaired show (swept now) i s v p = p
step-IsPaired show (session_deleted auth code) i s v (sess, at, done) =
    (sess, rw (handle_delete_session-objects auth code s) at, done)
step-IsPaired show (relay_deleted auth token) i s v (sess, at, done) =
    (sess, rw (handle_delete_relay-objects auth token s) at, done)
step-IsPaired show (pruned auth now age) i s v (sess, at, done) =
    (sess, rw (handle_prune_relays-objects auth now age s) at, done)

run-IsPaired :
    (show : Addr → Bytes) (es : List Event) (i : ℕ) (s : Server)
    → AreFair es
    → Inv s
    → IsPaired i s
    → IsPaired i (run show es s)
unfolding run
run-IsPaired show [] i s f v p = p
run-IsPaired show (e ∷ es) i s f v p =
    run-IsPaired show es i (step show e s).0 f.1 (step-Inv show e s f.0 v)
      (step-IsPaired show e i s v p)

-- From a server that keeps the invariant and has paired a session, whatever happens next with
-- tokens of 16 bytes, also if a peer leaves and another joins in its place, nobody on that session
-- is told to connect again.
pub never_paired_again :
    (show : Addr → Bytes) (es : List Event) (now i : ℕ) (s : Server)
    → AreFair es
    → Inv s
    → IsPaired i s
    → try_pair now i (run show es s) ≡ (run show es s, [])
never_paired_again show es now i s f v p =
    try_pair-IsPaired now i (run show es s) (run-IsPaired show es i s f v p)
