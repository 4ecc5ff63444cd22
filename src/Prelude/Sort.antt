-- ===== src/Prelude/Sort.antt =====
-- `slices.Sort` and `sort.Slice`: a sorted rearrangement, here by insertion.
use mathlib.Core.Path.{◌≡◌, refl}
use mathlib.Core.Bool.{Bool, true, false, ◌||◌}
use mathlib.Core.Logic.{inl, inr}
use mathlib.Core.List.{List, [], ◌∷◌, Perm}
use mathlib.Core.List.Perm
use native.Mathlib.Omega.{arith}
use Prim.Native.Nat.{suc}
use relay_tunnel.Prelude.Lists.{length, any, AllOf}
use relay_tunnel.Prelude.Equality.{if◌then◌else◌, Bytes, ◌==◌, Eq, contains, nat_eq}
use relay_tunnel.Prelude.Tests.{Bool-cases, ltb}

module _ {ℓ} {A : Type ℓ} (le : A → A → Bool) where
  unfoldable pub insert_sorted : A → List A → List A
  insert_sorted a [] = a ∷ []
  insert_sorted a (x ∷ xs) = if le a x then a ∷ x ∷ xs else x ∷ insert_sorted a xs

  unfoldable pub sort : List A → List A
  unfolding insert_sorted
  sort [] = []
  sort (x ∷ xs) = insert_sorted x (sort xs)

  abbrev Heads : A → List A → Type 0
  Heads a [] = Unit
  Heads a (x ∷ xs) = le a x ≡ true

  -- Each element is in order with the next.
  abbrev pub IsSorted : List A → Type 0
  IsSorted [] = Unit
  IsSorted (x ∷ xs) = Heads x xs × IsSorted xs

  pub insert_sorted-perm : (a : A) (xs : List A) → Perm (insert_sorted a xs) (a ∷ xs)
  unfolding insert_sorted
  insert_sorted-perm a [] = Perm.refl (a ∷ [])
  insert_sorted-perm a (x ∷ xs) = elim (Bool-cases (le a x)) [
    | inl e ↦ rw e (Perm.refl (a ∷ x ∷ xs))
    | inr e ↦ rw e (Perm.trans (Perm.cons x (insert_sorted-perm a xs)) (Perm.swap a x xs))
  ]

  pub sort-perm : (xs : List A) → Perm (sort xs) xs
  unfolding sort
  sort-perm [] = Perm.refl []
  sort-perm (x ∷ xs) = Perm.trans (insert_sorted-perm x (sort xs)) (Perm.cons x (sort-perm xs))

  length-insert_sorted : (a : A) (xs : List A) → length (insert_sorted a xs) ≡ suc (length xs)
  unfolding insert_sorted
  length-insert_sorted a [] = refl
  length-insert_sorted a (x ∷ xs) = ground (arith, length-insert_sorted a xs)

  pub length-sort : (xs : List A) → length (sort xs) ≡ length xs
  unfolding sort
  length-sort [] = refl
  length-sort (x ∷ xs) = omega (arith, length-insert_sorted x (sort xs), length-sort xs)

  module _ (total : (a b : A) → le a b ≡ false → le b a ≡ true) where
    insert_sorted-Heads :
        (x a : A) (xs : List A) → le x a ≡ true → Heads x xs → Heads x (insert_sorted a xs)
    unfolding insert_sorted
    insert_sorted-Heads x a [] h k = h
    insert_sorted-Heads x a (y ∷ ys) h k = ground arith

    insert_sorted-IsSorted : (a : A) (xs : List A) → IsSorted xs → IsSorted (insert_sorted a xs)
    unfolding insert_sorted
    insert_sorted-IsSorted a [] s = (tt, tt)
    insert_sorted-IsSorted a (x ∷ xs) s =
        ground (arith, insert_sorted-IsSorted a xs s.1, total a x, insert_sorted-Heads x a xs)

    pub sort-IsSorted : (xs : List A) → IsSorted (sort xs)
    unfolding sort
    sort-IsSorted [] = tt
    sort-IsSorted (x ∷ xs) = insert_sorted-IsSorted x (sort xs) (sort-IsSorted xs)

-- Go's order of strings, by bytes.
unfoldable pub bytes_leb : Bytes → Bytes → Bool
bytes_leb [] ys = true
bytes_leb (x ∷ xs) [] = false
bytes_leb (x ∷ xs) (y ∷ ys) = if x == y then bytes_leb xs ys else ltb x y

pub bytes_leb-total : (xs ys : Bytes) → bytes_leb xs ys ≡ false → bytes_leb ys xs ≡ true
unfolding bytes_leb
bytes_leb-total [] ys h = cc
bytes_leb-total (x ∷ xs) [] h = refl
bytes_leb-total (x ∷ xs) (y ∷ ys) h = ground (arith, bytes_leb-total xs ys)

module _ {ℓ} {A : Type ℓ} ⦃e : Eq A⦄ (le : A → A → Bool) where
  contains-insert_sorted :
      (a b : A) (xs : List A) → contains (insert_sorted le b xs) a ≡ (a == b || contains xs a)
  unfolding insert_sorted
  contains-insert_sorted a b [] = refl
  contains-insert_sorted a b (x ∷ xs) = ground (arith, contains-insert_sorted a b xs)

  pub contains-sort : (a : A) (xs : List A) → contains (sort le xs) a ≡ contains xs a
  unfolding sort
  contains-sort a [] = refl
  contains-sort a (x ∷ xs) =
      ground (arith, contains-insert_sorted a x (sort le xs), contains-sort a xs)

module _ {ℓ} {A : Type ℓ} (le : A → A → Bool) where
  any-insert_sorted :
      (p : A → Bool) (a : A) (xs : List A) → any p (insert_sorted le a xs) ≡ (p a || any p xs)
  unfolding insert_sorted
  any-insert_sorted p a [] = refl
  any-insert_sorted p a (x ∷ xs) = ground (arith, any-insert_sorted p a xs)

  pub any-sort : (p : A → Bool) (xs : List A) → any p (sort le xs) ≡ any p xs
  unfolding sort
  any-sort p [] = refl
  any-sort p (x ∷ xs) = ground (arith, any-insert_sorted p x (sort le xs), any-sort p xs)

  AllOf-insert_sorted :
      (P : A → Type 0) (a : A) (xs : List A) → P a → AllOf P xs → AllOf P (insert_sorted le a xs)
  unfolding insert_sorted
  AllOf-insert_sorted P a [] h k = (h, tt)
  AllOf-insert_sorted P a (x ∷ xs) h (k, ks) = elim (Bool-cases (le a x)) [
    | inl e ↦ rw e (h, (k, ks))
    | inr e ↦ rw e (k, AllOf-insert_sorted P a xs h ks)
  ]

  pub AllOf-sort : (P : A → Type 0) (xs : List A) → AllOf P xs → AllOf P (sort le xs)
  unfolding sort
  AllOf-sort P [] h = tt
  AllOf-sort P (x ∷ xs) (h, hs) = AllOf-insert_sorted P x (sort le xs) h (AllOf-sort P xs hs)
