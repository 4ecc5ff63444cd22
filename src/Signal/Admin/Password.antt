-- ===== src/Signal/Admin/Password.antt =====
-- internal/signal/admin.go: `hashPassword` and `verifyPassword`. `key` is `pbkdf2.Key` with SHA-256,
-- `encode` and `decode` are `base64.RawStdEncoding`, and the random salt is an argument.
pub mod Laws
use relay_tunnel.Prelude.{
  ◌>>=◌, ℕ, zero, suc, ◌+◌, ◌*◌, ◌-◌, ◌^◌, Bool, true, false, not, ◌&&◌, ◌||◌, ◌==◌, Option, none,
  some, List, [], ◌∷◌, ◌++◌, Bytes, codes, length, leb, ltb, if◌then◌else◌, nat_eq, bytes_eq,
}

-- Decimal digits, onto what was read before.
unfoldable pub read_digits : ℕ → Bytes → Option ℕ
read_digits n [] = some n
read_digits n (c ∷ cs) =
    let rest = read_digits (n * 10 + (c - 48)) cs in if leb 48 c && leb c 57 then rest else none

abbrev pub in_range : Option ℕ → Option ℕ
in_range none = none
in_range (some n) = if ltb n (2 ^ 63) then some n else none

-- `strconv.Atoi`, where a negative number, which the caller refuses, is an error too.
unfoldable pub atoi : Bytes → Option ℕ
unfolding read_digits
atoi [] = none
atoi (c ∷ cs) =
    if c == 43 && not (cs == [])
    then in_range (read_digits 0 cs)
    else in_range (read_digits 0 (c ∷ cs))

-- `strings.Split`: the part before the first separator, and the parts after it.
abbrev pub push : ℕ → List Bytes → List Bytes
push c [] = (c ∷ []) ∷ []
push c (p ∷ ps) = (c ∷ p) ∷ ps

unfoldable pub split : ℕ → Bytes → List Bytes
split sep [] = [] ∷ []
split sep (c ∷ cs) = let rest = split sep cs in if c == sep then [] ∷ rest else push c rest

abbrev pub scheme : Bytes
scheme = codes "pbkdf2-sha256"

abbrev pub iterations : ℕ
iterations = 600_000

abbrev pub key_length : ℕ
key_length = 32

abbrev pub is_some_true : Option Bool → Bool
is_some_true none = false
is_some_true (some b) = b

module _ (key : Bytes → Bytes → ℕ → ℕ → Option Bytes) (encode : Bytes → Bytes) where
  -- `hashPassword` of this salt.
  unfoldable pub hash_password : Bytes → Bytes → Option Bytes
  hash_password salt password = do
    k ← key password salt iterations key_length
    some (scheme ++ (36 ∷ (codes "600000" ++ (36 ∷ (encode salt ++ (36 ∷ encode k))))))

module _ (key : Bytes → Bytes → ℕ → ℕ → Option Bytes) (decode : Bytes → Option Bytes) where
  -- The checks of `verifyPassword` once the hash is split; none is a false answer.
  unfoldable pub verify_parts : List Bytes → Bytes → Option Bool
  unfolding atoi
  verify_parts (name ∷ count ∷ salt_text ∷ key_text ∷ []) password = do
    n ← atoi count
    salt ← decode salt_text
    want ← decode key_text
    got ← key password salt n (length want)
    some (name == scheme && ltb 0 n && got == want)
  verify_parts _ password = none

  unfoldable pub verify_password : Bytes → Bytes → Bool
  unfolding split verify_parts
  verify_password encoded password = is_some_true (verify_parts (split 36 encoded) password)
