-- ===== src/Tests/Password.antt =====
-- internal/signal/admin.go: one stored hash, with stand-ins for PBKDF2 and base64.
use relay_tunnel.Prelude.{
  ℕ, zero, suc, ◌+◌, ◌-◌, ◌≡◌, ◌↔◌, refl, ap, arith, true, false, Option, some, [], ◌∷◌, ◌++◌,
  Bytes, codes, contains, length, nat_eq, bytes_eq,
}
use relay_tunnel.Signal.Admin.Password.{
  hash_password, verify_password, iterations, key_length, scheme,
}
use relay_tunnel.Signal.Admin.Password.Laws.{verify_password-hash_password}

fill : ℕ → ℕ → Bytes
fill zero c = []
fill (suc n) c = c ∷ fill n c

length-fill : (n c : ℕ) → length (fill n c) ≡ n
unfolding fill
length-fill zero c = refl
length-fill (suc n) c = omega (arith, length-fill n c)

abbrev key : Bytes → Bytes → ℕ → ℕ → Option Bytes
key p s n m = some (fill m (length p))

length-key : (p s k : Bytes) (n m : ℕ) → key p s n m ≡ some k → length k ≡ m
length-key p s k n m e = ground (arith, length-fill m (length p))

encode : Bytes → Bytes
encode [] = []
encode (c ∷ cs) = (c + 37) ∷ encode cs

unshift : Bytes → Bytes
unshift [] = []
unshift (c ∷ cs) = (c - 37) ∷ unshift cs

abbrev decode : Bytes → Option Bytes
decode b = some (unshift b)

unshift-encode : (b : Bytes) → unshift (encode b) ≡ b
unfolding encode unshift
unshift-encode [] = refl
unshift-encode (c ∷ cs) = ground (arith, unshift-encode cs)

decode-encode : (b : Bytes) → decode (encode b) ≡ some b
decode-encode b = ap some (unshift-encode b)

encode-plain : (b : Bytes) → contains (encode b) 36 ≡ false
unfolding encode
encode-plain [] = refl
encode-plain (c ∷ cs) = ground (arith, encode-plain cs)

abbrev salt : Bytes
salt = 1 ∷ 2 ∷ []

abbrev stored : Bytes
stored =
    scheme ++ (36 ∷ (codes "600000" ++ (36 ∷ (encode salt ++ (36 ∷ encode (fill key_length 3))))))

stored_lem : hash_password key encode salt (codes "abc") ≡ some stored
unfolding hash_password
stored_lem = refl

verify_password-hash_password_example :
    (verify_password key decode stored (codes "xyz") ≡ true)
    ↔ (key (codes "xyz") salt iterations key_length ≡ key (codes "abc") salt iterations key_length)
verify_password-hash_password_example =
    verify_password-hash_password key encode decode decode-encode encode-plain length-key salt
      (codes "abc") (codes "xyz") stored stored_lem
