-- ===== src/App/Socks/Laws.antt =====
-- internal/app/socks.go: a request in the SOCKS5 format is read as its target.
use relay_tunnel.Prelude.{
  ℕ, ◌/◌, ◌%◌, ◌≡◌, ◌≢◌, ◌<◌, refl, sym, ne→==, true, none, some, [], ◌∷◌, ◌++◌, Bytes, length,
  arith, nat_eq, ℕ_discrete, subst,
}
use relay_tunnel.Prelude.Wire.{read_full, uint16, read_full-append}
use relay_tunnel.App.Socks.{
  byte_at, no_auth, bad_command, success, read_greeting, read_host, read_target, serve_request,
  socks_handshake,
}

-- The three forms of an address in RFC 1928.
pub data Target : Type 0 where
  ipv4 ipv6 domain : Bytes → Target

abbrev pub IsTarget : Target → Type 0
IsTarget (ipv4 b) = length b ≡ 4
IsTarget (ipv6 b) = length b ≡ 16
IsTarget (domain b) = length b < 256

abbrev pub atyp_of : Target → ℕ
atyp_of (ipv4 b) = 1
atyp_of (domain b) = 3
atyp_of (ipv6 b) = 4

abbrev pub encode : Target → Bytes
encode (ipv4 b) = b
encode (ipv6 b) = b
encode (domain b) = length b ∷ b

abbrev pub put_uint16 : ℕ → Bytes
put_uint16 p = p / 256 ∷ p % 256 ∷ []

uint16-put_uint16 : (p : ℕ) → p < 65536 → uint16 (put_uint16 p) ≡ p
unfolding uint16
uint16-put_uint16 p h = omega arith

read_full-exact : (n : ℕ) (b rest : Bytes) → length b ≡ n → read_full n (b ++ rest) ≡ some (b, rest)
read_full-exact n b rest h =
    subst (λ k. read_full k (b ++ rest) ≡ some (b, rest)) h (read_full-append b rest)

greeting : (methods c : Bytes) → read_greeting ((5 ∷ length methods ∷ methods) ++ c) ≡ some c
unfolding read_greeting nat_eq ℕ_discrete
greeting methods c =
    rw (read_full-exact 2 (5 ∷ length methods ∷ []) (methods ++ c) refl, read_full-append methods c)
      refl

module _ (show : Bytes → Bytes) (join : Bytes → ℕ → Bytes) where
  abbrev pub text_of : Target → Bytes
  text_of (ipv4 b) = show b
  text_of (ipv6 b) = show b
  text_of (domain b) = b

  read_host-encode :
      (t : Target) (rest : Bytes)
      → IsTarget t
      → read_host show join (atyp_of t) (encode t ++ rest) ≡ some (text_of t, rest)
  unfolding read_host nat_eq ℕ_discrete
  read_host-encode (ipv4 b) rest h = rw (read_full-exact 4 b rest h) refl
  read_host-encode (ipv6 b) rest h = rw (read_full-exact 16 b rest h) refl
  read_host-encode (domain b) rest h =
      rw (read_full-exact 1 (length b ∷ []) (b ++ rest) refl, read_full-append b rest) refl

  read_target-encode :
      (t : Target) (port : ℕ) (rest : Bytes)
      → IsTarget t
      → port < 65536
      → read_target show join (atyp_of t) (encode t ++ (put_uint16 port ++ rest))
        ≡ some (join (text_of t) port, rest)
  unfolding read_target
  read_target-encode t port rest h l =
      rw
        (
          read_host-encode t (put_uint16 port ++ rest) h,
          read_full-exact 2 (put_uint16 port) rest refl,
          uint16-put_uint16 port l,
          read_target,
        )
        refl

  request :
      (head : Bytes) (t : Target) (port : ℕ) (rest : Bytes)
      → length head ≡ 4
      → byte_at 1 head ≡ 1
      → byte_at 3 head ≡ atyp_of t
      → IsTarget t
      → port < 65536
      → serve_request show join (head ++ (encode t ++ (put_uint16 port ++ rest)))
        ≡ record { wrote = no_auth ∷ success ∷ []; target = some (join (text_of t) port, rest) }
  unfolding serve_request nat_eq ℕ_discrete
  request head t port rest n c a h l =
      rw
        (
          read_full-exact 4 head (encode t ++ (put_uint16 port ++ rest)) n,
          c,
          subst
              (λ k.
                read_target show join k (encode t ++ (put_uint16 port ++ rest))
                ≡ some (join (text_of t) port, rest))
              (sym a) (read_target-encode t port rest h l),
          serve_request,
        )
        refl

  -- A greeting of version 5 and a CONNECT request, for an IPv4 or IPv6 address of its size or a
  -- domain of at most 255 bytes, with a port of 16 bits, are answered with the reply to the
  -- greeting, which can be written, and with success. Whatever the methods, the reserved byte and
  -- the request's version, the handshake returns the target's host and port, with the bytes after
  -- the request left on the connection.
  pub socks_handshake_lem :
      (t : Target) (port reserved version : ℕ) (methods rest : Bytes)
      → IsTarget t
      → port < 65536
      → socks_handshake show join true (
          (5 ∷ length methods ∷ methods)
          ++ ((version ∷ 1 ∷ reserved ∷ atyp_of t ∷ []) ++ (encode t ++ (put_uint16 port ++ rest))))
        ≡ record { wrote = no_auth ∷ success ∷ []; target = some (join (text_of t) port, rest) }
  unfolding socks_handshake
  socks_handshake_lem t port reserved version methods rest h l =
      rw
        (
          greeting methods (
              (version ∷ 1 ∷ reserved ∷ atyp_of t ∷ []) ++ (encode t ++ (put_uint16 port ++ rest))),
          request (version ∷ 1 ∷ reserved ∷ atyp_of t ∷ []) t port rest refl refl refl h l,
          socks_handshake,
        )
        refl

  other_request :
      (head rest : Bytes)
      → length head ≡ 4
      → byte_at 1 head ≢ 1
      → serve_request show join (head ++ rest)
        ≡ record { wrote = no_auth ∷ bad_command ∷ []; target = none }
  unfolding serve_request
  other_request head rest n ne =
      rw (read_full-exact 4 head rest n, ne→== (byte_at 1 head) 1 ne, serve_request) refl

  -- After a greeting of version 5 that is replied to, a request for any command but CONNECT is
  -- answered with the reply that refuses it, and has no target.
  pub socks_handshake_other :
      (command reserved version atyp : ℕ) (methods rest : Bytes)
      → command ≢ 1
      → socks_handshake show join true
          ((5 ∷ length methods ∷ methods) ++ ((version ∷ command ∷ reserved ∷ atyp ∷ []) ++ rest))
        ≡ record { wrote = no_auth ∷ bad_command ∷ []; target = none }
  unfolding socks_handshake
  socks_handshake_other command reserved version atyp methods rest ne =
      rw
        (
          greeting methods ((version ∷ command ∷ reserved ∷ atyp ∷ []) ++ rest),
          other_request (version ∷ command ∷ reserved ∷ atyp ∷ []) rest refl ne,
          socks_handshake,
        )
        refl
