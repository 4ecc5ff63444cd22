-- ===== src/Nat/Relay/Laws.antt =====
-- internal/nat/nat.go and the UDP server: what one peer writes the other one reads.
use relay_tunnel.Prelude.{
  ℕ, zero, suc, inl, inr, Bool-cases, ◌+◌, ◌≡◌, ◌≢◌, ◌≤◌, refl, ap, true, false, Option, none, some,
  List, [], ◌∷◌, ◌++◌, Bytes, length, take, drop, length-append, lookup, arith, bytes_eq, nat_eq,
}
use relay_tunnel.Signal.State.{Addr, Route, Server, datagram}
use relay_tunnel.Signal.Udp.{handle_datagram}
use relay_tunnel.Signal.Udp.Relay.{drop_len, reflection_lem, relay_lem}
use relay_tunnel.Nat.Relay.{
  magic, magic_addr, token_len, hdr_len, reflect_probe, reflect, is_reflection, write_to, is_stray,
  read_from,
}

-- Reads that return datagrams without a relay header.
abbrev pub AllStray : ℕ → List Bytes → Type 0
AllStray cap [] = Unit
AllStray cap (d ∷ ds) = (is_stray (take (cap + hdr_len) d) ≡ true) × AllStray cap ds

abbrev pub somes : List Bytes → List (Option Bytes)
somes [] = []
somes (d ∷ ds) = some d ∷ somes ds

take-nil : (n : ℕ) → take {A = ℕ} n [] ≡ []
take-nil zero = refl
take-nil (suc n) = refl

take_all : (n : ℕ) (xs : Bytes) → length xs ≤ n → take n xs ≡ xs
take_all n [] h = take-nil n
take_all (suc n) (x ∷ xs) h = ap (λ l. x ∷ l) (take_all n xs (ground arith))
take_all zero (x ∷ xs) h = absurd (ground arith)

frame-not-stray :
    (token p : Bytes) → length token ≡ token_len → is_stray (magic ++ (token ++ p)) ≡ false
frame-not-stray token p h = ground (arith, length-append token p)

-- What `WriteTo` frames with a token of 16 bytes, `ReadFrom` returns whole where its buffer is
-- long enough, after any datagrams that are no relay frames.
pub read_from-write_to :
    (cap : ℕ) (token p : Bytes) (strays : List Bytes) (rs : List (Option Bytes))
    → length token ≡ token_len
    → length p ≤ cap
    → AllStray cap strays
    → read_from cap (somes strays ++ (some (write_to token p) ∷ rs)) ≡ some (p, rs)
unfolding write_to read_from
read_from-write_to cap token p [] rs h l a =
    rw
      (
        take_all (cap + hdr_len) (magic ++ (token ++ p)) (ground (arith, length-append token p)),
        frame-not-stray token p h,
        drop_len token p h,
        read_from,
      )
      refl
read_from-write_to cap token p (d ∷ ds) rs h l (a, b) =
    rw (a, read_from) (read_from-write_to cap token p ds rs h l b)

-- A payload that is not empty, written to a relayed connection under a token of 16 bytes, goes to
-- the address of the route that the token is paired with, where there is one and it is not its
-- own, and nowhere else; a relayed connection whose buffer is long enough reads it there
-- unchanged.
pub relayed_lem :
    (show : Addr → Bytes) (now : ℕ) (from to : Addr) (token : Bytes) (x : ℕ) (xs : Bytes)
    (s : Server) (r peer : Route) (cap : ℕ) (rs : List (Option Bytes))
    → length token ≡ token_len
    → lookup token s.relays ≡ some r
    → r.peer ≢ token
    → lookup r.peer s.relays ≡ some peer
    → peer.addr ≡ some to
    → length (x ∷ xs) ≤ cap
    → (d : Bytes) × ((handle_datagram show now from (write_to token (x ∷ xs)) s).1
        ≡ datagram to d ∷ [])
      × (read_from cap (some d ∷ rs) ≡ some (x ∷ xs, rs))
unfolding write_to
relayed_lem show now from to token x xs s r peer cap rs h hr ne hp ha l = (
  write_to token (x ∷ xs),
  relay_lem show now from to token x xs s r peer h hr ne hp ha,
  read_from-write_to cap token (x ∷ xs) [] rs h l tt,
)

is_reflection-reply : (t : Bytes) → 1 ≤ length t → is_reflection (magic_addr ++ t) ≡ true
is_reflection-reply t l = ground arith

some-ne-none : {a : Bytes} → ¬ (some a ≡ none)
some-ne-none e = absurd (ground arith)

reflect-first :
    (buf d : Bytes) (rs : List (Option Bytes))
    → take 1500 d ≡ buf
    → is_reflection buf ≡ true
    → reflect (some d ∷ rs) ≡ some (drop 4 buf)
unfolding reflect
reflect-first buf d rs e h = rw (e, h, reflect) refl

reflect-reply :
    (t : Bytes) (rs : List (Option Bytes))
    → 1 ≤ length t
    → length t ≤ 1496
    → (quiet : List (Option Bytes)) → reflect quiet ≡ none
    → reflect (quiet ++ (some (magic_addr ++ t) ∷ rs)) ≡ some t
unfolding reflect
reflect-reply t rs l u [] q =
    reflect-first (magic_addr ++ t) (magic_addr ++ t) rs
      (take_all 1500 (magic_addr ++ t) (ground arith)) (is_reflection-reply t l)
reflect-reply t rs l u (none ∷ quiet) q = reflect-reply t rs l u quiet q
reflect-reply t rs l u (some d ∷ quiet) q = elim (Bool-cases (is_reflection (take 1500 d))) [
  | inl e ↦ absurd (some-ne-none (rw (e, reflect) at q))
  | inr e ↦ rw (e, reflect) (reflect-reply t rs l u quiet (rw (e, reflect) at q))
]

-- The server answers the request of a reflection, made with a token of 16 bytes, with one datagram
-- to the sender. The reflection, reading it after rounds without a reflection, returns the text of
-- the sender's address, where that has between 1 and 1496 bytes.
pub reflect_lem :
    (show : Addr → Bytes) (now : ℕ) (addr : Addr) (token : Bytes) (s : Server)
    (quiet : List (Option Bytes)) (rs : List (Option Bytes))
    → length token ≡ token_len
    → 1 ≤ length (show addr)
    → length (show addr) ≤ 1496
    → reflect quiet ≡ none
    → (d : Bytes) × ((handle_datagram show now addr (reflect_probe token) s).1
        ≡ datagram addr d ∷ [])
      × (reflect (quiet ++ (some d ∷ rs)) ≡ some (show addr))
reflect_lem show now addr token s quiet rs h l u q = (
  magic_addr ++ show addr,
  (reflection_lem show now addr token s h).0,
  reflect-reply (show addr) rs l u quiet q,
)
