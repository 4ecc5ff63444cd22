-- ===== src/Nat/Relay.antt =====
-- internal/nat/nat.go: `Reflect` and `RelayConn`. A list of datagrams is what the socket's reads
-- return, none being a read that fails.
pub mod Laws
use relay_tunnel.Prelude.{
  ℕ, ◌+◌, Bool, ◌||◌, not, ◌&&◌, ◌==◌, Option, none, some, List, [], ◌∷◌, ◌++◌, Bytes, codes,
  length, take, drop, ltb, if◌then◌else◌, nat_eq, bytes_eq,
}

abbrev pub magic : Bytes
magic = codes "RT01"

abbrev pub magic_addr : Bytes
magic_addr = codes "RTAD"

abbrev pub token_len : ℕ
token_len = 16

abbrev pub hdr_len : ℕ
hdr_len = 4 + token_len

-- The request of `Reflect`.
abbrev pub reflect_probe : Bytes → Bytes
reflect_probe token = magic ++ token

abbrev pub is_reflection : Bytes → Bool
is_reflection buf = ltb 4 (length buf) && take 4 buf == magic_addr

-- The loop of `Reflect`, a round for each read; none is its timeout.
unfoldable pub reflect : List (Option Bytes) → Option Bytes
reflect [] = none
reflect (none ∷ rs) = reflect rs
reflect (some d ∷ rs) =
    let buf = take 1500 d in if is_reflection buf then some (drop 4 buf) else reflect rs

-- The token of `NewRelayConn`, or its error.
unfoldable pub new_relay_conn : Bytes → Option Bytes
new_relay_conn token = if length token == token_len then some token else none

-- The datagram that `WriteTo` sends to the server.
unfoldable pub write_to : Bytes → Bytes → Bytes
write_to token p = magic ++ (token ++ p)

-- A datagram that `ReadFrom` does not return.
abbrev pub is_stray : Bytes → Bool
is_stray buf = ltb (length buf) hdr_len || not (take 4 buf == magic)

-- `ReadFrom` of this buffer's length: the payload, and the reads that are left; none is an error.
unfoldable pub read_from : ℕ → List (Option Bytes) → Option (Bytes × List (Option Bytes))
read_from cap [] = none
read_from cap (none ∷ rs) = none
read_from cap (some d ∷ rs) =
    let buf = take (cap + hdr_len) d in
    let rest = read_from cap rs in if is_stray buf then rest else some (drop hdr_len buf, rs)
