-- ===== src/Prelude/Wire.antt =====
-- Readers as the bytes left to read, `io.ReadFull`, and `binary.BigEndian`.
use Prim.Native.Nat.{ℕ, ◌+◌, ◌*◌, ◌/◌, ◌%◌, ◌^◌, ◌<◌}
use mathlib.Core.Path.{◌≡◌, refl}
use mathlib.Core.Option.{Option, none, some}
use mathlib.Core.List.{[], ◌∷◌, ◌++◌}
use native.Mathlib.Omega.{arith}
use relay_tunnel.Prelude.Equality.{Bytes, if◌then◌else◌}
use relay_tunnel.Prelude.Tests.{ltb, le→ltb}
use relay_tunnel.Prelude.Lists.{
  length, take, drop, length-append, length-take, take-append, drop-append, take-append-drop,
}

-- `io.ReadFull` of `n` bytes: what was read and what is left, or an error on a short read.
unfoldable pub read_full : ℕ → Bytes → Option (Bytes × Bytes)
read_full n r = if ltb (length r) n then none else some (take n r, drop n r)

pub read_full-append : (b rest : Bytes) → read_full (length b) (b ++ rest) ≡ some (b, rest)
unfolding read_full
read_full-append b rest = rw (
  le→ltb (length (b ++ rest)) (length b) (omega (arith, length-append b rest)),
  take-append b rest,
  drop-append b rest,
)

-- What a successful read says about the input.
pub read_full-eq_some :
    (n : ℕ) (r b rest : Bytes) → read_full n r ≡ some (b, rest) → (r ≡ b ++ rest) × (length b ≡ n)
unfolding read_full
read_full-eq_some n r b rest h = ground (arith, take-append-drop n r, length-take n r)

-- The four bytes of a `uint32`; the conversion to `uint32` drops what lies above 32 bits.
unfoldable pub put_uint32 : ℕ → Bytes
put_uint32 n = (n / 2 ^ 24 % 256) ∷ (n / 2 ^ 16 % 256) ∷ (n / 2 ^ 8 % 256) ∷ (n % 256) ∷ []

unfoldable pub uint32 : Bytes → ℕ
uint32 (a ∷ b ∷ c ∷ d ∷ _) = a * 2 ^ 24 + b * 2 ^ 16 + c * 2 ^ 8 + d
uint32 _ = 0

unfoldable pub uint16 : Bytes → ℕ
uint16 (a ∷ b ∷ _) = a * 2 ^ 8 + b
uint16 _ = 0

pub uint32-put_uint32 : (n : ℕ) → n < 2 ^ 32 → uint32 (put_uint32 n) ≡ n
unfolding uint32 put_uint32
uint32-put_uint32 n h = omega arith

pub length-put_uint32 : (n : ℕ) → length (put_uint32 n) ≡ 4
unfolding put_uint32
length-put_uint32 n = refl

pub read_full-put_uint32 :
    (n : ℕ) (rest : Bytes) → read_full 4 (put_uint32 n ++ rest) ≡ some (put_uint32 n, rest)
unfolding put_uint32
read_full-put_uint32 n rest = read_full-append (put_uint32 n) rest
