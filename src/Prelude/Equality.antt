-- ===== src/Prelude/Equality.antt =====
-- Go's `==` on the types that the program compares, and the conditional.
use Prim.Native.Nat.{ℕ}
use mathlib.Core.Bool.{Bool, true, false, cond, ◌||◌}
use mathlib.Core.Logic.{ite, ◌≢◌}
use mathlib.Core.Path.{◌≡◌}
use native.Mathlib.Omega.{arith}
use mathlib.Core.List.{List, [], ◌∷◌}
use native.Mathlib.Decide.{ℕ_discrete}

infix 1 if◌then◌else◌
abbrev pub if◌then◌else◌ {ℓ} : {A : Type ℓ} → Bool → A → A → A
if b then x else y = cond b x y

pub record Eq {ℓ} (A : Type ℓ) : Type ℓ where
  pub dec : Discrete A

module _ {ℓ} {A : Type ℓ} ⦃e : Eq A⦄ where
  infix 50 ◌==◌
  abbrev pub ◌==◌ : A → A → Bool
  a == b = ite (e.dec a b) true false

  abbrev pub contains : List A → A → Bool
  contains [] a = false
  contains (x ∷ xs) a = a == x || contains xs a

instance unfoldable pub nat_eq : Eq ℕ
nat_eq = record { dec = ℕ_discrete }

-- The bytes of a Go string or slice.
abbrev pub Bytes : Type 0
Bytes = List ℕ

Bytes-discrete : Discrete Bytes
Bytes-discrete = hlevel ℕ_discrete

instance unfoldable pub bytes_eq : Eq Bytes
unfolding Bytes-discrete
bytes_eq = record { dec = Bytes-discrete }

module _ {ℓ} {A : Type ℓ} ⦃e : Eq A⦄ where
  pub ==-self : (a : A) → (a == a) ≡ true
  ==-self a = ground arith

  pub ==→eq : (a b : A) → (a == b) ≡ true → a ≡ b
  ==→eq a b h = ground arith

  pub ne→== : (a b : A) → a ≢ b → (a == b) ≡ false
  ne→== a b h = ground arith

  pub ==-ne : (a : A) {b : A} → (a == b) ≡ false → a ≢ b
  ==-ne a h = ground arith
