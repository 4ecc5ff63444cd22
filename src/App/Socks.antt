-- ===== src/App/Socks.antt =====
-- internal/app/socks.go: `socksHandshake`. The client's bytes are a list, `show` is `net.IP.String`, and
-- `join` is `net.JoinHostPort` after `strconv.Itoa`.
pub mod Laws
pub mod Serve
use relay_tunnel.Prelude.{
  ◌>>=◌, ℕ, zero, suc, Bool, true, false, not, ◌==◌, Option, none, some, List, [], ◌∷◌, ◌++◌, Bytes,
  if◌then◌else◌, nat_eq,
}
use relay_tunnel.Prelude.Wire.{read_full, uint16}

-- The byte at this place of a buffer; a buffer that was filled has it.
abbrev pub byte_at : ℕ → Bytes → ℕ
byte_at n [] = 0
byte_at zero (b ∷ bs) = b
byte_at (suc n) (b ∷ bs) = byte_at n bs

-- The replies: no authentication, an unsupported command, and success.
abbrev pub no_auth : Bytes
no_auth = 5 ∷ 0 ∷ []

abbrev pub bad_command : Bytes
bad_command = 5 ∷ 7 ∷ 0 ∷ 1 ∷ 0 ∷ 0 ∷ 0 ∷ 0 ∷ 0 ∷ 0 ∷ []

abbrev pub success : Bytes
success = 5 ∷ 0 ∷ 0 ∷ 1 ∷ 0 ∷ 0 ∷ 0 ∷ 0 ∷ 0 ∷ 0 ∷ []

-- What was written, and the target with the bytes left; none is an error.
pub record Handshake : Type 0 where
  pub wrote : List Bytes
  pub target : Option (Bytes × Bytes)

-- The greeting, up to the reply.
unfoldable pub read_greeting : Bytes → Option Bytes
read_greeting c = do
  (head, c') ← read_full 2 c
  (methods, c″) ← read_full (byte_at 1 head) c'
  if byte_at 0 head == 5 then some c″ else none

module _ (show : Bytes → Bytes) (join : Bytes → ℕ → Bytes) where
  unfoldable pub read_host : ℕ → Bytes → Option (Bytes × Bytes)
  read_host atyp c =
      if atyp == 1
      then (read_full 4 c >>= λ (ip, c'). some (show ip, c'))
      else if atyp == 3
      then (read_full 1 c >>= λ (l, c'). read_full (byte_at 0 l) c')
      else if atyp == 4
      then (read_full 16 c >>= λ (ip, c'). some (show ip, c'))
      else none

  unfoldable pub read_target : ℕ → Bytes → Option (Bytes × Bytes)
  unfolding read_host
  read_target atyp c = do
    (host, c') ← read_host atyp c
    (port, c″) ← read_full 2 c'
    some (join host (uint16 port), c″)

  -- After the reply to the greeting.
  unfoldable pub serve_request : Bytes → Handshake
  unfolding read_target
  serve_request c = elim (read_full 4 c) [
    | none ↦ record { wrote = no_auth ∷ []; target = none }
    | some (head, c') ↦
        if not (byte_at 1 head == 1)
        then record { wrote = no_auth ∷ bad_command ∷ []; target = none }
        else elim (read_target (byte_at 3 head) c') [
          | none ↦ record { wrote = no_auth ∷ []; target = none }
          | some t ↦ record { wrote = no_auth ∷ success ∷ []; target = some t }
        ]
  ]

  -- `socksHandshake`; `replied` tells whether the reply to the greeting could be written.
  unfoldable pub socks_handshake : Bool → Bytes → Handshake
  unfolding read_greeting serve_request
  socks_handshake replied c = elim (read_greeting c) [
    | none ↦ record { wrote = []; target = none }
    | some c' ↦ if replied then serve_request c' else record { wrote = []; target = none }
  ]
