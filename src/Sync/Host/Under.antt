-- ===== src/Sync/Host/Under.antt =====
-- examples/relay-sync: what `confine` allows, and what a removal reaches.
use relay_tunnel.Prelude.{
  Bool, ℕ, true, false, not, ◌||◌, ◌==◌, Option, some, [], ◌∷◌, ◌++◌, Bytes, lookup, nat_eq,
  bytes_eq, ◌≡◌, inl, inr, refl, sym, ◌∙◌, ap, subst, arith, append_assoc, lookup-retain_by_key,
  lookup-retain_of_none, none, Bool-cases, Option-cases, ==→eq,
}
use relay_tunnel.App.Host.{has_prefix}
use relay_tunnel.App.Host.Laws.{IsUnder, IsClean, IsWithin}
use relay_tunnel.Sync.Files.{Tree, File}
use relay_tunnel.Sync.Host.{within, confine, remove_all}

has_prefix-append : (s p : Bytes) → has_prefix s p ≡ true → (rest : Bytes) × (s ≡ p ++ rest)
unfolding has_prefix
has_prefix-append s [] h = (s, refl)
has_prefix-append [] (p ∷ ps) h = absurd (ground arith)
has_prefix-append (c ∷ cs) (p ∷ ps) h =
    let (rest, e) = has_prefix-append cs ps (ground arith) in (rest, ground arith)

pub has_prefix-IsUnder :
    (sep : ℕ) (path root : Bytes)
    → has_prefix path (root ++ (sep ∷ [])) ≡ true
    → IsUnder sep path root
has_prefix-IsUnder sep path root h =
    let (rest, e) = has_prefix-append path (root ++ (sep ∷ [])) h in
    inr (rest, e ∙ append_assoc root (sep ∷ []) rest)

IsUnder-trans : (sep : ℕ) (a b c : Bytes) → IsUnder sep a b → IsUnder sep b c → IsUnder sep a c
IsUnder-trans sep a b c (inl e) k = subst (λ x. IsUnder sep x c) (sym e) k
IsUnder-trans sep a b c (inr h) (inl e) = subst (λ x. IsUnder sep a x) e (inr h)
IsUnder-trans sep a b c (inr (r, e)) (inr (r', e')) =
    inr (r' ++ (sep ∷ r), e ∙ ap (λ x. x ++ (sep ∷ r)) e' ∙ append_assoc c (sep ∷ r') (sep ∷ r))

module _ (absolute : Bytes → Option Bytes) (joined : Bytes → Bytes → Bytes) (sep : ℕ)
    (match_string : Bytes → Bytes → Bool) (path_base : Bytes → Bytes) where
  within-IsUnder :
      (root abs p : Bytes)
      → within absolute joined sep match_string path_base root abs ≡ some p
      → IsUnder sep p root
  within-IsUnder root abs p h = elim (Bool-cases (abs == root)) [
    | inl y ↦ let same = rw y at h in inl (ground (arith, ==→eq abs root y))
    | inr y ↦ elim (Bool-cases (has_prefix abs (root ++ (sep ∷ [])))) [
      | inl z ↦
          let same = rw (y, z) at h in
          subst (λ x. IsUnder sep x root) (ground arith) (has_prefix-IsUnder sep abs root z)
      | inr z ↦ let none_is = rw (y, z) at h in absurd (ground arith)
    ]
  ]

  pub confine-IsUnder :
      (root rel p : Bytes)
      → absolute root ≡ some root
      → confine absolute joined sep match_string path_base root rel ≡ some p
      → IsUnder sep p root
  unfolding confine
  confine-IsUnder root rel p fixed h = elim (Option-cases (absolute (joined root rel))) [
    | inl e ↦ let none_is = rw (fixed, e) at h in absurd (ground arith)
    | inr (abs, e) ↦ within-IsUnder root abs p (rw (fixed, e) at h)
  ]

  within-eq :
      (root abs p : Bytes)
      → within absolute joined sep match_string path_base root abs ≡ some p
      → abs ≡ p
  within-eq root abs p h = ground arith

  -- The path that is allowed is clean where `filepath.Abs` returns clean paths.
  pub confine-IsWithin :
      (root rel p : Bytes)
      → ((path abs : Bytes) → absolute path ≡ some abs → IsClean sep abs)
      → absolute root ≡ some root
      → confine absolute joined sep match_string path_base root rel ≡ some p
      → IsWithin sep p root
  unfolding confine
  confine-IsWithin root rel p clean fixed h = (
    confine-IsUnder root rel p fixed h,
    elim (Option-cases (absolute (joined root rel))) [
      | inl e ↦ let none_is = rw (fixed, e) at h in absurd (ground arith)
      | inr (abs, e) ↦
          subst (IsClean sep) (within-eq root abs p (rw (fixed, e) at h))
            (clean (joined root rel) abs e)
    ],
  )

  lookup-remove_all-none :
      (abs : Bytes) (fs : Tree) (q : Bytes)
      → lookup q fs ≡ none
      → lookup q (remove_all absolute joined sep match_string path_base abs fs) ≡ none
  unfolding remove_all
  lookup-remove_all-none abs fs q h = lookup-retain_of_none _ q fs h

  pub lookup-remove_all :
      (abs : Bytes) (fs : Tree) (q : Bytes)
      → (q == abs || has_prefix q (abs ++ (sep ∷ []))) ≡ false
      → lookup q (remove_all absolute joined sep match_string path_base abs fs) ≡ lookup q fs
  unfolding remove_all
  lookup-remove_all abs fs q h =
      rw (lookup-retain_by_key (λ p. not (p == abs || has_prefix p (abs ++ (sep ∷ [])))) q fs, h)
        refl

  pub outside :
      (root abs q : Bytes)
      → IsUnder sep abs root
      → ¬ IsUnder sep q root
      → (q == abs || has_prefix q (abs ++ (sep ∷ []))) ≡ false
  outside root abs q u n = elim (Bool-cases (q == abs)) [
    | inl y ↦ absurd (n (subst (λ x. IsUnder sep x root) (sym (==→eq q abs y)) u))
    | inr y ↦ elim (Bool-cases (has_prefix q (abs ++ (sep ∷ [])))) [
      | inl z ↦ absurd (n (IsUnder-trans sep q abs root (has_prefix-IsUnder sep q abs z) u))
      | inr z ↦ rw (y, z) refl
    ]
  ]

  -- A removal below the root leaves a path that is not within it, over files that have clean paths.
  pub remove_all_without :
      (root abs : Bytes) (fs : Tree) (q : Bytes)
      → ((path : Bytes) (f : File) → lookup path fs ≡ some f → IsClean sep path)
      → IsUnder sep abs root
      → ¬ IsWithin sep q root
      → lookup q (remove_all absolute joined sep match_string path_base abs fs) ≡ lookup q fs
  remove_all_without root abs fs q kept u n = elim (Option-cases (lookup q fs)) [
    | inl e ↦ lookup-remove_all-none abs fs q e ∙ sym e
    | inr (f, e) ↦ lookup-remove_all abs fs q (outside root abs q u (λ v. n (v, kept q f e)))
  ]
