-- ===== src/Signal/Udp/Keeps.antt =====
-- internal/signal/server.go, `serveUDP` and `gcRelay` keep the server's invariant.
use relay_tunnel.Prelude.{
  ℕ, ◌-◌, ◌≡◌, ◌⊎◌, refl, inl, inr, false, not, ltb, Option, none, some, [], ◌∷◌, Bytes, arith,
  length, length-take, length-drop, take, drop, lookup, insert, retain-NodupKeys, Bool-cases,
  bytes_eq,
}
use relay_tunnel.Signal.State.{Addr, Route, Server, relay_ttl}
use relay_tunnel.Signal.Udp.{
  token_len, hdr_len, is_invalid, get_or_new, touch, peer_addr, answer, probe, count_packet,
  handle_datagram, sweep,
}
use relay_tunnel.Signal.Invariant.{Inv, Partners}
use relay_tunnel.Signal.Invariant.Frame.{Inv-stats, Inv-insert_route, Inv-Shrinks, Shrinks-retain}

touch_peer :
    (now : ℕ) (addr : Addr) (payload : Bytes) (r : Route) → (touch now addr payload r).peer ≡ r.peer
unfolding touch
touch_peer now addr [] r = refl
touch_peer now addr (x ∷ xs) r = refl

answer-Inv :
    (show : Addr → Bytes) (now : ℕ) (addr : Addr) (token payload : Bytes) (to : Option Addr)
    (s : Server)
    → Inv s
    → Inv (answer show now addr token payload to s).0
unfolding answer
answer-Inv show now addr token [] to s v = Inv-stats s _ v
answer-Inv show now addr token (x ∷ xs) none s v = Inv-stats s _ v
answer-Inv show now addr token (x ∷ xs) (some _) s v = Inv-stats s _ v

get_or_new-peer :
    (now : ℕ) (token : Bytes) (o : Option Route) (s : Server)
    → lookup token s.relays ≡ o
    → Inv s
    → ((get_or_new now o).peer ≡ []) ⊎ Partners s.peers token (get_or_new now o).peer
get_or_new-peer now token none s e v = inl refl
get_or_new-peer now token (some r) s e v = v.isolated token r e

-- The routes after a datagram under a token of the right size.
pub touch-Inv :
    (now : ℕ) (addr : Addr) (token payload : Bytes) (s : Server)
    → length token ≡ 16
    → Inv s
    → Inv (record s {
      relays =
          insert token (touch now addr payload (get_or_new now (lookup token s.relays))) s.relays;
    })
touch-Inv now addr token payload s size v =
    let old = get_or_new now (lookup token s.relays) in
    Inv-insert_route s token (touch now addr payload old) size
      (rw (touch_peer now addr payload old)
        (get_or_new-peer now token (lookup token s.relays) s refl v))
      v

probe-Inv :
    (show : Addr → Bytes) (now : ℕ) (addr : Addr) (token payload : Bytes) (s : Server)
    → length token ≡ 16
    → Inv s
    → Inv (probe show now addr token payload s).0
unfolding probe
probe-Inv show now addr token payload s size v =
    let route = touch now addr payload (get_or_new now (lookup token s.relays)) in
    let relays = insert token route s.relays in
    answer-Inv show now addr token payload (peer_addr route relays) (record s { relays = relays })
      (touch-Inv now addr token payload s size v)

length-token : (buf : Bytes) → is_invalid buf ≡ false → length (take token_len (drop 4 buf)) ≡ 16
length-token buf h = ground (arith, length-take 16 (drop 4 buf), length-drop 4 buf)

pub handle_datagram-Inv :
    (show : Addr → Bytes) (now : ℕ) (addr : Addr) (buf : Bytes) (s : Server)
    → Inv s
    → Inv (handle_datagram show now addr buf s).0
unfolding handle_datagram
handle_datagram-Inv show now addr buf s v = elim (Bool-cases (is_invalid buf)) [
  | inl e ↦ rw (e, handle_datagram) (Inv-stats s _ v)
  | inr e ↦
      rw (e, handle_datagram)
        (probe-Inv show now addr (take token_len (drop 4 buf)) (drop hdr_len buf)
          (record s { stats = count_packet now s.stats }) (length-token buf e)
          (Inv-stats s (count_packet now s.stats) v))
]

pub sweep-Inv : (now : ℕ) (s : Server) → Inv s → Inv (sweep now s)
unfolding sweep
sweep-Inv now s v =
    Inv-Shrinks s _
      (Shrinks-retain (λ _ route. not (ltb relay_ttl (now - route.seen))) s.relays v.unique)
      (retain-NodupKeys (λ _ route. not (ltb relay_ttl (now - route.seen))) s.relays v.unique) v

answer-objects :
    (show : Addr → Bytes) (now : ℕ) (addr : Addr) (token payload : Bytes) (to : Option Addr)
    (s : Server)
    → (answer show now addr token payload to s).0.objects ≡ s.objects
unfolding answer
answer-objects show now addr token [] to s = refl
answer-objects show now addr token (x ∷ xs) none s = refl
answer-objects show now addr token (x ∷ xs) (some _) s = refl

probe-objects :
    (show : Addr → Bytes) (now : ℕ) (addr : Addr) (token payload : Bytes) (s : Server)
    → (probe show now addr token payload s).0.objects ≡ s.objects
unfolding probe
probe-objects show now addr token payload s =
    let route = touch now addr payload (get_or_new now (lookup token s.relays)) in
    let relays = insert token route s.relays in
    answer-objects show now addr token payload (peer_addr route relays)
      (record s { relays = relays })

-- Datagrams touch no session.
pub handle_datagram-objects :
    (show : Addr → Bytes) (now : ℕ) (addr : Addr) (buf : Bytes) (s : Server)
    → (handle_datagram show now addr buf s).0.objects ≡ s.objects
unfolding handle_datagram
handle_datagram-objects show now addr buf s = elim (Bool-cases (is_invalid buf)) [
  | inl e ↦ rw (e, handle_datagram)
  | inr e ↦
      rw (e, handle_datagram)
        (probe-objects show now addr (take token_len (drop 4 buf)) (drop hdr_len buf)
          (record s { stats = count_packet now s.stats }))
]
