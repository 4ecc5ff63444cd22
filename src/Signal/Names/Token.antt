-- ===== src/Signal/Names/Token.antt =====
-- internal/signal/server.go: the random tokens.
use mathlib.Core.Path.{ap₂}
use relay_tunnel.Signal.Udp.{token_len}
use relay_tunnel.Prelude.{
  ℕ, ◌+◌, ◌*◌, ◌/◌, ◌%◌, ◌<◌, ◌≡◌, refl, [], ◌∷◌, Bytes, length, arith, ltb, if◌then◌else◌, AllOf,
}

-- `hex.EncodeToString`
abbrev pub hex_digit : ℕ → ℕ
hex_digit n = if ltb n 10 then 48 + n else 87 + n

unfoldable pub hex : Bytes → Bytes
hex [] = []
hex (b ∷ bs) = hex_digit (b / 16) ∷ hex_digit (b % 16) ∷ hex bs

-- `randToken`, of the eight bytes that `rand.Read` gave.
unfoldable pub rand_token : Bytes → Bytes
unfolding hex
rand_token b = hex b

length-hex : (bs : Bytes) → length (hex bs) ≡ 2 * length bs
unfolding hex
length-hex [] = omega arith
length-hex (b ∷ bs) = omega (arith, length-hex bs)

hex_digit-injective : (m n : ℕ) → m < 16 → n < 16 → hex_digit m ≡ hex_digit n → m ≡ n
hex_digit-injective m n h k e = ground arith

hex-injective :
    (bs cs : Bytes) → AllOf (λ b. b < 256) bs → AllOf (λ c. c < 256) cs → hex bs ≡ hex cs → bs ≡ cs
unfolding hex
hex-injective [] [] h k e = refl
hex-injective [] (c ∷ cs) h k e = absurd (ground arith)
hex-injective (b ∷ bs) [] h k e = absurd (ground arith)
hex-injective (b ∷ bs) (c ∷ cs) (h, hs) (k, ks) e =
    let high = hex_digit-injective (b / 16) (c / 16) (omega arith) (omega arith) (ground arith) in
    let low = hex_digit-injective (b % 16) (c % 16) (omega arith) (omega arith) (ground arith) in
    ap₂ ◌∷◌ (omega (arith, high, low)) (hex-injective bs cs hs ks (ground arith))

-- Eight random bytes make a token of the length of the relay's wire format, and different bytes make
-- different tokens.
pub rand_token-injective :
    (b c : Bytes)
    → AllOf (λ x. x < 256) b
    → AllOf (λ x. x < 256) c
    → length b ≡ 8
    → rand_token b ≡ rand_token c
    → (length (rand_token b) ≡ token_len) × (b ≡ c)
unfolding rand_token
rand_token-injective b c h k n e = (omega (arith, length-hex b), hex-injective b c h k e)
