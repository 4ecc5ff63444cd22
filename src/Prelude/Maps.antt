-- ===== src/Prelude/Maps.antt =====
-- Go maps as association lists, used through their laws.
use mathlib.Core.Path.{◌≡◌, refl, ap, sym, ◌∙◌}
use mathlib.Core.Logic.{◌⊎◌, ◌↔◌, inl, inr}
use mathlib.Core.Bool.{◌||◌, Bool, true}
use mathlib.Core.Option.{Option, none, some}
use mathlib.Core.List
use mathlib.Core.List.{List, [], ◌∷◌}
use native.Mathlib.Omega.{arith}
use relay_tunnel.Prelude.Equality.{Eq, ◌==◌, ==→eq, contains, if◌then◌else◌}
use relay_tunnel.Prelude.Tests.{Bool-cases}

abbrev pub Dict {ℓ κ} : Type ℓ → Type κ → Type (ℓ ⊔ κ)
Dict K V = List (K × V)

unfoldable pub keys {ℓ κ} : {K : Type ℓ} {V : Type κ} → Dict K V → List K
keys = List.map (λ (k, _). k)

module _ {ℓ κ} {K : Type ℓ} {V : Type κ} ⦃e : Eq K⦄ where
  unfoldable pub lookup : K → Dict K V → Option V
  lookup k [] = none
  lookup k ((j, v) ∷ d) = if k == j then some v else lookup k d

  -- `d[k] = v`
  unfoldable pub insert : K → V → Dict K V → Dict K V
  insert k v [] = (k, v) ∷ []
  insert k v ((j, w) ∷ d) = if k == j then (k, v) ∷ d else (j, w) ∷ insert k v d

  -- `delete(d, k)`
  unfoldable pub erase : K → Dict K V → Dict K V
  erase k [] = []
  erase k ((j, w) ∷ d) = let rest = erase k d in if k == j then rest else (j, w) ∷ rest

  -- The entries that a loop over the map keeps.
  unfoldable pub retain : (K → V → Bool) → Dict K V → Dict K V
  retain p [] = []
  retain p ((j, w) ∷ d) = let rest = retain p d in if p j w then (j, w) ∷ rest else rest

  abbrev pub NodupKeys : Dict K V → Type κ
  NodupKeys [] = Unit
  NodupKeys ((k, _) ∷ d) = (lookup k d ≡ none) × NodupKeys d

  pub lookup-nil : (k : K) → lookup k [] ≡ none
  unfolding lookup
  lookup-nil k = refl

  pub lookup-insert :
      (j k : K) (v : V) (d : Dict K V)
      → lookup j (insert k v d) ≡ (if j == k then some v else lookup j d)
  unfolding insert lookup
  lookup-insert j k v [] = ground arith
  lookup-insert j k v (_ ∷ d) = ground (arith, lookup-insert j k v d)

  -- What a lookup finds after a write is what was written there, or was there before.
  pub lookup-insert_cases :
      (j k : K) (v w : V) (d : Dict K V)
      → lookup j (insert k v d) ≡ some w
      → ((j ≡ k) × (w ≡ v)) ⊎ (lookup j d ≡ some w)
  lookup-insert_cases j k v w d h = ground (arith, lookup-insert j k v d)

  pub lookup-erase :
      (j k : K) (d : Dict K V) → lookup j (erase k d) ≡ (if j == k then none else lookup j d)
  unfolding erase lookup
  lookup-erase j k [] = ground arith
  lookup-erase j k (_ ∷ d) = ground (arith, lookup-erase j k d)

  pub lookup-retain_of_none :
      (p : K → V → Bool) (j : K) (d : Dict K V) → lookup j d ≡ none → lookup j (retain p d) ≡ none
  unfolding retain lookup
  lookup-retain_of_none p j [] h = refl
  lookup-retain_of_none p j ((k, v) ∷ d) h = ground (arith, lookup-retain_of_none p j d)

  abbrev pub keep_if : (K → V → Bool) → K → Option V → Option V
  keep_if p j none = none
  keep_if p j (some v) = if p j v then some v else none

  pub lookup-retain :
      (p : K → V → Bool) (j : K) (d : Dict K V)
      → NodupKeys d
      → lookup j (retain p d) ≡ keep_if p j (lookup j d)
  unfolding retain lookup
  lookup-retain p j [] u = refl
  lookup-retain p j ((k, v) ∷ d) (fresh, u) =
      ground (arith, lookup-retain p j d u, lookup-retain_of_none p j d)

  -- A loop that keeps entries by their keys.
  pub lookup-retain_by_key :
      (p : K → Bool) (j : K) (d : Dict K V)
      → lookup j (retain (λ k v. p k) d) ≡ (if p j then lookup j d else none)
  unfolding retain lookup
  lookup-retain_by_key p j [] = ground arith
  lookup-retain_by_key p j ((k, v) ∷ d) = elim (Bool-cases (j == k)) [
    | inl e ↦ elim (Bool-cases (p j)) [
      | inl h ↦ rw (e, h, ap p (sym (==→eq j k e)) ∙ h) (rw e refl)
      | inr h ↦ rw (e, h, ap p (sym (==→eq j k e)) ∙ h, lookup-retain_by_key p j d, h) refl
    ]
    | inr e ↦ elim (Bool-cases (p k)) [
      | inl h ↦ rw (h, e, lookup-retain_by_key p j d) refl
      | inr h ↦ rw (h, e, lookup-retain_by_key p j d) refl
    ]
  ]

  pub insert-NodupKeys : (k : K) (v : V) (d : Dict K V) → NodupKeys d → NodupKeys (insert k v d)
  unfolding insert
  insert-NodupKeys k v [] _ = (lookup-nil k, tt)
  insert-NodupKeys k v ((j, _) ∷ d) (fresh, u) =
      ground (arith, insert-NodupKeys k v d u, lookup-insert j k v d)

  pub erase-NodupKeys : (k : K) (d : Dict K V) → NodupKeys d → NodupKeys (erase k d)
  unfolding erase
  erase-NodupKeys k [] _ = tt
  erase-NodupKeys k ((j, _) ∷ d) (fresh, u) =
      ground (arith, erase-NodupKeys k d u, lookup-erase j k d)

  pub retain-NodupKeys : (p : K → V → Bool) (d : Dict K V) → NodupKeys d → NodupKeys (retain p d)
  unfolding retain
  retain-NodupKeys p [] _ = tt
  retain-NodupKeys p ((j, _) ∷ d) (fresh, u) =
      ground (arith, retain-NodupKeys p d u, lookup-retain_of_none p j d fresh)

module _ {ℓ κ} {K : Type ℓ} {V : Type κ} ⦃e : Eq K⦄ where
  pub contains-keys :
      (d : Dict K V) (k : K) → (contains (keys d) k ≡ true) ↔ ((v : V) × (lookup k d ≡ some v))
  unfolding keys lookup
  contains-keys [] k = (λ h. absurd (ground arith), λ h. absurd (ground arith))
  contains-keys ((j, w) ∷ d) k = elim (Bool-cases (k == j)) [
    | inl h ↦ rw (h, ◌||◌) ((λ _. (w, refl)), (λ _. refl))
    | inr h ↦ rw (h, ◌||◌) (contains-keys d k)
  ]

pub ruleset dict_laws = (lookup-nil, lookup-insert, lookup-erase, insert-NodupKeys, erase-NodupKeys)
