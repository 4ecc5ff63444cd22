-- ===== src/Signal/Udp/Counters.antt =====
-- internal/signal/server.go, `serveUDP`: what the UDP counters add up to.
use relay_tunnel.Prelude.{
  ℕ, ◌+◌, ◌%◌, ◌^◌, ◌≡◌, Option, none, some, [], ◌∷◌, Bytes, arith, lookup, insert, take, drop,
  bytes_eq, Bool-cases, inl, inr,
}
use relay_tunnel.Signal.State.{Addr, Stats, Server}
use relay_tunnel.Signal.Udp.{
  touch, get_or_new, peer_addr, token_len, hdr_len, is_invalid, answer, probe, handle_datagram,
  count_packet,
}

-- Every datagram read is counted once more, as invalid, reflected, dropped or relayed.
abbrev pub IsBalanced : Stats → Type 0
IsBalanced t =
    t.udp_packets ≡ (t.udp_invalid + t.reflections + t.dropped_pkts + t.relayed_pkts) % 2 ^ 64

-- The packet is counted as read, and not yet as anything else.
abbrev Owes : Stats → Type 0
Owes t =
    t.udp_packets ≡ (t.udp_invalid + t.reflections + t.dropped_pkts + t.relayed_pkts + 1) % 2 ^ 64

answer-IsBalanced :
    (show : Addr → Bytes) (now : ℕ) (addr : Addr) (token payload : Bytes) (to : Option Addr)
    (s : Server)
    → Owes s.stats
    → IsBalanced (answer show now addr token payload to s).0.stats
unfolding answer
answer-IsBalanced show now addr token [] to s h = omega arith
answer-IsBalanced show now addr token (x ∷ xs) none s h = omega arith
answer-IsBalanced show now addr token (x ∷ xs) (some _) s h = omega arith

probe-IsBalanced :
    (show : Addr → Bytes) (now : ℕ) (addr : Addr) (token payload : Bytes) (s : Server)
    → Owes s.stats
    → IsBalanced (probe show now addr token payload s).0.stats
unfolding probe
probe-IsBalanced show now addr token payload s h =
    let route = touch now addr payload (get_or_new now (lookup token s.relays)) in
    let relays = insert token route s.relays in
    answer-IsBalanced show now addr token payload (peer_addr route relays)
      (record s { relays = relays }) h

-- Where the datagrams read add up, modulo 2^64, to those counted as invalid, reflected, dropped
-- and relayed, they still do after any datagram, valid or not.
pub handle_datagram-IsBalanced :
    (show : Addr → Bytes) (now : ℕ) (addr : Addr) (buf : Bytes) (s : Server)
    → IsBalanced s.stats
    → IsBalanced (handle_datagram show now addr buf s).0.stats
unfolding handle_datagram
handle_datagram-IsBalanced show now addr buf s h = elim (Bool-cases (is_invalid buf)) [
  | inl e ↦ rw (e, handle_datagram) (omega arith)
  | inr e ↦
      rw (e, handle_datagram)
        (probe-IsBalanced show now addr (take token_len (drop 4 buf)) (drop hdr_len buf)
          (record s { stats = count_packet now s.stats }) (omega arith))
]
