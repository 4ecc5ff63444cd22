-- ===== src/Mux.antt =====
-- internal/mux/mux.go: the length-prefixed JSON header that opens every stream.
pub mod Laws
use relay_tunnel.Prelude.{
  ℕ, ◌*◌, Bool, true, false, Option, none, some, List, ltb, length, Bytes, codes,
}
use relay_tunnel.Prelude.Wire.{read_full, put_uint32, uint32}

abbrev pub kind_tcp : Bytes
kind_tcp = codes "tcp"

abbrev pub kind_file : Bytes
kind_file = codes "file"

abbrev pub kind_exec : Bytes
kind_exec = codes "exec"

-- `size` is the int64 as its 64-bit pattern.
pub record FileHeader : Type 0 where
  pub op : Bytes
  pub path : Bytes
  pub size : ℕ
  pub mode : ℕ

pub record ExecHeader : Type 0 where
  pub args : List Bytes
  pub pty : Bool

pub record OpenMsg : Type 0 where
  pub kind : Bytes
  pub target : Bytes
  pub file : Option FileHeader
  pub exec : Option ExecHeader

abbrev pub max_header : ℕ
max_header = 64 * 1024

pub data Error : Type 0 where
  marshal_failed header_too_large write_failed short_read unmarshal_failed : Error

pub data Result {ℓ} (A : Type ℓ) : Type ℓ where
  ok : A → Result A
  err : Error → Result A

infixl 5 ◌>>=◌ ◌>>◌
abbrev pub ◌>>=◌ {ℓ κ} : {A : Type ℓ} {B : Type κ} → Result A → (A → Result B) → Result B
ok a >>= f = f a
err e >>= f = err e

abbrev pub or_fail {ℓ} : {A : Type ℓ} → Option A → Error → Result A
or_fail none e = err e
or_fail (some a) e = ok a

abbrev pub ◌>>◌ {ℓ} : {B : Type ℓ} → Result (Unit {0}) → Result B → Result B
m >> k = m >>= λ _. k

abbrev pub refuse_if : Bool → Error → Result (Unit {0})
refuse_if true e = err e
refuse_if false e = ok tt

-- `encoding/json` for one type.
pub record Codec (A : Type 0) : Type 0 where
  pub marshal : A → Option Bytes
  pub unmarshal : Bytes → Option A

-- `write` is the writer's `Write`, which may fail.
pub write_header : {W : Type 0} → Codec OpenMsg → (W → Bytes → Option W) → W → OpenMsg → Result W
write_header json write w m = do
  b ← or_fail (json.marshal m) marshal_failed
  refuse_if (ltb max_header (length b)) header_too_large
  w' ← or_fail (write w (put_uint32 (length b))) write_failed
  or_fail (write w' b) write_failed

-- The message, and what is left on the stream.
unfoldable pub read_header : Codec OpenMsg → Bytes → Result (OpenMsg × Bytes)
read_header json r = do
  (lp, r') ← or_fail (read_full 4 r) short_read
  refuse_if (ltb max_header (uint32 lp)) header_too_large
  (buf, rest) ← or_fail (read_full (uint32 lp) r') short_read
  m ← or_fail (json.unmarshal buf) unmarshal_failed
  ok (m, rest)
