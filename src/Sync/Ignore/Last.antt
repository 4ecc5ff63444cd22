-- ===== src/Sync/Ignore/Last.antt =====
-- examples/relay-sync/gitignore.go: the last rule that matches decides.
use relay_tunnel.Prelude.{
  Bool, true, false, not, List, [], ◌∷◌, ◌++◌, Bytes, if◌then◌else◌, bytes_eq, ◌≡◌, ◌⊎◌, ◌↔◌, inl,
  inr, refl, ap, arith, AllOf, Bool-cases,
}
use relay_tunnel.Sync.Ignore.{IgnoreRule, matches, ignored_from, is_ignored}

module _ (match_string : Bytes → Bytes → Bool) (path_base : Bytes → Bytes) (rel : Bytes)
    (is_dir : Bool) where
  abbrev Passes : IgnoreRule → Type 0
  Passes r = matches match_string path_base r rel is_dir ≡ false

  -- A rule that matches and excludes, and that no later one overrides.
  abbrev pub Excluded : List IgnoreRule → Type 0
  Excluded rules =
      (pre : List IgnoreRule) × (r : IgnoreRule) × (post : List IgnoreRule) × (rules
        ≡ pre ++ (r ∷ post))
      × (matches match_string path_base r rel is_dir ≡ true)
      × (r.negate ≡ false)
      × AllOf Passes post

  ignored-Passes :
      (ignored : Bool) (rules : List IgnoreRule)
      → AllOf Passes rules
      → ignored_from match_string path_base ignored rules rel is_dir ≡ ignored
  unfolding ignored_from
  ignored-Passes ignored [] h = refl
  ignored-Passes ignored (r ∷ rules) (h, hs) = rw h (ignored-Passes ignored rules hs)

  excluded-ignored :
      (pre : List IgnoreRule) (ignored : Bool) (r : IgnoreRule) (post : List IgnoreRule)
      → matches match_string path_base r rel is_dir ≡ true
      → r.negate ≡ false
      → AllOf Passes post
      → ignored_from match_string path_base ignored (pre ++ (r ∷ post)) rel is_dir ≡ true
  unfolding ignored_from
  excluded-ignored [] ignored r post m n h = rw (ignored_from, m, n) (ignored-Passes true post h)
  excluded-ignored (x ∷ pre) ignored r post m n h =
      excluded-ignored pre
        (if matches match_string path_base x rel is_dir then not x.negate else ignored) r post m n h

  ignored-Excluded :
      (ignored : Bool) (rules : List IgnoreRule)
      → ignored_from match_string path_base ignored rules rel is_dir ≡ true
      → Excluded rules ⊎ ((ignored ≡ true) × AllOf Passes rules)
  unfolding ignored_from
  ignored-Excluded ignored [] h = inr (h, tt)
  ignored-Excluded ignored (r ∷ rules) h =
      elim (Bool-cases (matches match_string path_base r rel is_dir)) [
        | inl y ↦ elim (ignored-Excluded (not r.negate) rules (rw y at h)) [
          | inl (pre, x, post, e, m, n, p) ↦ inl (r ∷ pre, x, post, ap (λ l. r ∷ l) e, m, n, p)
          | inr (n, p) ↦ inl ([], r, rules, refl, y, ground arith, p)
        ]
        | inr y ↦ elim (ignored-Excluded ignored rules (rw y at h)) [
          | inl (pre, x, post, e, m, n, p) ↦ inl (r ∷ pre, x, post, ap (λ l. r ∷ l) e, m, n, p)
          | inr (n, p) ↦ inr (n, (y, p))
        ]
      ]

  -- A path is ignored exactly when a rule that is no negation matches it and no later rule matches it.
  pub is_ignored_iff :
      (rules : List IgnoreRule)
      → (is_ignored match_string path_base rules rel is_dir ≡ true) ↔ Excluded rules
  unfolding is_ignored
  is_ignored_iff rules = (
    λ h. elim (ignored-Excluded false rules h) [ inl x ↦ x | inr (e, p) ↦ absurd (ground arith) ],
    λ (pre, r, post, e, m, n, p). rw e (excluded-ignored pre false r post m n p),
  )
