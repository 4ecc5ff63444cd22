-- ===== src/Signal/Udp/Relay.antt =====
-- internal/signal/server.go, `serveUDP`: where datagrams go.
use relay_tunnel.Prelude.{
  ℕ, ◌≡◌, ◌≢◌, refl, false, some, [], ◌∷◌, ◌++◌, Bytes, length, length-append, arith, append-nil,
  lookup, lookup-insert, bytes_eq, take-append, drop-append, take, drop, subst,
}
use relay_tunnel.Signal.State.{Addr, Route, Server, datagram}
use relay_tunnel.Signal.Udp.{
  magic, magic_addr, token_len, is_invalid, touch, probe, count_packet, get_or_new, handle_datagram,
}

pub take_len : (token payload : Bytes) → length token ≡ 16 → take 16 (token ++ payload) ≡ token
take_len token payload h =
    subst (λ n. take n (token ++ payload) ≡ token) h (take-append token payload)

pub drop_len : (token payload : Bytes) → length token ≡ 16 → drop 16 (token ++ payload) ≡ payload
drop_len token payload h =
    subst (λ n. drop n (token ++ payload) ≡ payload) h (drop-append token payload)

is_invalid-frame :
    (token payload : Bytes)
    → length token ≡ token_len
    → is_invalid (magic ++ (token ++ payload)) ≡ false
is_invalid-frame token payload h = ground (arith, length-append token payload)

-- A datagram in the wire format is handled as its token and payload.
pub handle_datagram-probe :
    (show : Addr → Bytes) (now : ℕ) (addr : Addr) (token payload : Bytes) (s : Server)
    → length token ≡ token_len
    → handle_datagram show now addr (magic ++ (token ++ payload)) s
      ≡ probe show now addr token payload (record s { stats = count_packet now s.stats })
unfolding handle_datagram
handle_datagram-probe show now addr token payload s h =
    rw (is_invalid-frame token payload h, take_len token payload h, drop_len token payload h)

handle_datagram-reflect :
    (show : Addr → Bytes) (now : ℕ) (addr : Addr) (token : Bytes) (s : Server)
    → length token ≡ token_len
    → handle_datagram show now addr (magic ++ token) s
      ≡ probe show now addr token [] (record s { stats = count_packet now s.stats })
handle_datagram-reflect show now addr token s h =
    subst
      (λ t.
        handle_datagram show now addr (magic ++ t) s
        ≡ probe show now addr token [] (record s { stats = count_packet now s.stats }))
      (append-nil token) (handle_datagram-probe show now addr token [] s h)

-- A reflection request with a token of 16 bytes is answered with the sender's address, to the
-- sender, and nothing else is sent; the token's route then holds that address and the time.
pub reflection_lem :
    (show : Addr → Bytes) (now : ℕ) (addr : Addr) (token : Bytes) (s : Server)
    → length token ≡ token_len
    → let (s', sent) = handle_datagram show now addr (magic ++ token) s in
      (sent ≡ datagram addr (magic_addr ++ show addr) ∷ [])
      × ((r : Route) × (lookup token s'.relays ≡ some r) × (r.addr ≡ some addr) × (r.seen ≡ now))
unfolding probe
reflection_lem show now addr token s h = rw (handle_datagram-reflect show now addr token s h) (
  refl,
  (
    touch now addr [] (get_or_new now (lookup token s.relays)),
    ground (
      arith,
      lookup-insert token token (touch now addr [] (get_or_new now (lookup token s.relays)))
          s.relays,
    ),
    ground arith,
    ground arith,
  ),
)

-- A datagram with a payload, sent under a token that is paired with another one whose address is
-- known, is forwarded to that address as it came, and nothing else is sent.
pub relay_lem :
    (show : Addr → Bytes) (now : ℕ) (from to : Addr) (token : Bytes) (x : ℕ) (xs : Bytes)
    (s : Server) (r peer : Route)
    → length token ≡ token_len
    → lookup token s.relays ≡ some r
    → r.peer ≢ token
    → lookup r.peer s.relays ≡ some peer
    → peer.addr ≡ some to
    → (handle_datagram show now from (magic ++ (token ++ (x ∷ xs))) s).1
      ≡ datagram to (magic ++ (token ++ (x ∷ xs))) ∷ []
unfolding probe
relay_lem show now from to token x xs s r peer h hr ne hp ha =
    rw (handle_datagram-probe show now from token (x ∷ xs) s h)
      (ground (arith, lookup-insert r.peer token (touch now from (x ∷ xs) r) s.relays))
