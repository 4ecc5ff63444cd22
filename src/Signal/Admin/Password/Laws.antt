-- ===== src/Signal/Admin/Password/Laws.antt =====
-- internal/signal/admin.go: what a stored hash verifies.
use relay_tunnel.Prelude.{
  ◌>>=◌, ℕ, ◌≡◌, ◌↔◌, refl, sym, ap, subst, ltb, ==-self, ◌∙◌, true, false, ◌==◌, ◌&&◌, Option,
  none, some, List, [], ◌∷◌, ◌++◌, Bytes, codes, contains, length, arith, nat_eq, bytes_eq,
  ℕ_discrete,
}
use relay_tunnel.Signal.Admin.Password.{
  split, atoi, scheme, iterations, key_length, hash_password, verify_parts, verify_password,
  is_some_true,
}

split-none : (sep : ℕ) (a : Bytes) → contains a sep ≡ false → split sep a ≡ a ∷ []
unfolding split
split-none sep [] h = refl
split-none sep (c ∷ cs) h = ground (arith, split-none sep cs)

split-append :
    (sep : ℕ) (a b : Bytes) → contains a sep ≡ false → split sep (a ++ (sep ∷ b)) ≡ a ∷ split sep b
unfolding split
split-append sep [] b h = ground arith
split-append sep (c ∷ cs) b h = ground (arith, split-append sep cs b)

scheme-plain : contains scheme 36 ≡ false
unfolding nat_eq ℕ_discrete
scheme-plain = refl

count-plain : contains (codes "600000") 36 ≡ false
unfolding nat_eq ℕ_discrete
count-plain = refl

atoi_lem : atoi (codes "600000") ≡ some iterations
unfolding atoi nat_eq ℕ_discrete
atoi_lem = refl

same_key :
    (o : Option Bytes) (k : Bytes)
    → (is_some_true (o >>= λ got. some (scheme == scheme && ltb 0 iterations && got == k)) ≡ true)
      ↔ (o ≡ some k)
same_key none k = (λ e. absurd (ground arith), λ e. absurd (ground arith))
same_key (some got) k = ground (arith, ==-self scheme)

some-inj : {a b : Bytes} → some a ≡ some b → a ≡ b
some-inj e = ground arith

bind-eq_some :
    (o : Option Bytes) {f : Bytes → Option Bytes} {h : Bytes}
    → (o >>= f) ≡ some h
    → (k : Bytes) × (o ≡ some k) × (f k ≡ some h)
bind-eq_some none e = absurd (ground arith)
bind-eq_some (some k) e = (k, refl, e)

module _ (key : Bytes → Bytes → ℕ → ℕ → Option Bytes) (encode : Bytes → Bytes)
    (decode : Bytes → Option Bytes) (decode-encode : (b : Bytes) → decode (encode b) ≡ some b)
    (encode-plain : (b : Bytes) → contains (encode b) 36 ≡ false)
    (length-key : (p s k : Bytes) (n m : ℕ) → key p s n m ≡ some k → length k ≡ m) where
  parts_lem :
      (salt k : Bytes)
      → split 36 (scheme ++ (36 ∷ (codes "600000" ++ (36 ∷ (encode salt ++ (36 ∷ encode k))))))
        ≡ scheme ∷ codes "600000" ∷ encode salt ∷ encode k ∷ []
  parts_lem salt k =
      split-append 36 scheme (codes "600000" ++ (36 ∷ (encode salt ++ (36 ∷ encode k))))
        scheme-plain
      ∙ ap (◌∷◌ scheme) (
          split-append 36 (codes "600000") (encode salt ++ (36 ∷ encode k)) count-plain
          ∙ ap (◌∷◌ (codes "600000")) (
              split-append 36 (encode salt) (encode k) (encode-plain salt)
              ∙ ap (◌∷◌ (encode salt)) (split-none 36 (encode k) (encode-plain k))))

  abbrev stored : Bytes → Bytes → List Bytes
  stored salt k = scheme ∷ codes "600000" ∷ encode salt ∷ encode k ∷ []

  verify_stored :
      (salt k q : Bytes)
      → length k ≡ key_length
      → (is_some_true (verify_parts key decode (stored salt k) q) ≡ true)
        ↔ (key q salt iterations key_length ≡ some k)
  unfolding verify_parts
  verify_stored salt k q h =
      rw (atoi_lem, decode-encode salt, decode-encode k, h, verify_parts)
        (same_key (key q salt iterations key_length) k)

  hash_password-eq_some :
      (salt p h : Bytes)
      → hash_password key encode salt p ≡ some h
      → (k : Bytes) × (key p salt iterations key_length ≡ some k)
        × (scheme ++ (36 ∷ (codes "600000" ++ (36 ∷ (encode salt ++ (36 ∷ encode k))))) ≡ h)
  unfolding hash_password
  hash_password-eq_some salt p h e =
      let (k, at, f) = bind-eq_some (key p salt iterations key_length) e in (k, at, some-inj f)

  -- Where base64 decodes what it encodes and writes no "$", and derived keys have the length asked
  -- for, a stored hash verifies exactly the passwords whose derived key, with its salt, is the one
  -- of the password that was hashed.
  pub verify_password-hash_password :
      (salt p q h : Bytes)
      → hash_password key encode salt p ≡ some h
      → (verify_password key decode h q ≡ true)
        ↔ (key q salt iterations key_length ≡ key p salt iterations key_length)
  unfolding hash_password verify_password
  verify_password-hash_password salt p q h e =
      let (k, at, text) = hash_password-eq_some salt p h e in
      subst
        (λ t.
          (verify_password key decode t q ≡ true)
          ↔ (key q salt iterations key_length ≡ key p salt iterations key_length))
        text
        (subst
          (λ l.
            (is_some_true (verify_parts key decode l q) ≡ true)
            ↔ (key q salt iterations key_length ≡ key p salt iterations key_length))
          (sym (parts_lem salt k))
          (subst
            (λ o.
              (is_some_true (verify_parts key decode (stored salt k) q) ≡ true)
              ↔ (key q salt iterations key_length ≡ o))
            (sym at) (verify_stored salt k q (length-key p salt k iterations key_length at))))
