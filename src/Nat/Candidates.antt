-- ===== src/Nat/Candidates.antt =====
-- internal/nat/nat.go: `resolveCandidates` and `matchCandidate`. `resolve` is `net.ResolveUDPAddr`
-- and `show` is `UDPAddr.String`.
use relay_tunnel.Prelude.{
  ◌≡◌, ◌≢◌, ◌⊎◌, ◌↔◌, inl, inr, refl, sym, subst, Bool, true, false, ◌||◌, ◌==◌, Option, none, some,
  List, [], ◌∷◌, Bytes, arith, contains, if◌then◌else◌, map, Bool-cases, Option-cases, List-cases,
  bytes_eq, ==→eq, ==-ne,
}
use relay_tunnel.Signal.State.{Addr}

module _ (resolve : Bytes → Option Addr) (show : Addr → Bytes) where
  -- The loop; `seen` holds the texts of the addresses kept so far.
  unfoldable pub collect : List Bytes → List Bytes → List Addr
  collect [] seen = []
  collect (c ∷ cs) seen = if c == [] then collect cs seen else elim (resolve c) [
    | none ↦ collect cs seen
    | some addr ↦
        let kept = addr ∷ collect cs (show addr ∷ seen) in
        if contains seen (show addr) then collect cs seen else kept
  ]

  -- None is the error that no candidate is usable.
  unfoldable pub resolve_candidates : List Bytes → Option (List Addr)
  unfolding collect
  resolve_candidates cs = elim (collect cs []) [ [] ↦ none | a ∷ rest ↦ some (a ∷ rest) ]

  -- A candidate that is not empty and resolves to this text.
  abbrev pub Offers : Bytes → Bytes → Type 0
  Offers c t = (c ≢ []) × ((a : Addr) × (resolve c ≡ some a) × (show a ≡ t))

  abbrev pub AnyOffers : List Bytes → Bytes → Type 0
  AnyOffers [] t = ⊥
  AnyOffers (c ∷ cs) t = Offers c t ⊎ AnyOffers cs t

  abbrev pub texts : List Addr → List Bytes
  texts = map show

  abbrev pub Distinct : List Bytes → Type 0
  Distinct [] = Unit
  Distinct (t ∷ ts) = (contains ts t ≡ false) × Distinct ts

  collect-new :
      (cs seen : List Bytes) (t : Bytes)
      → contains seen t ≡ true
      → contains (texts (collect cs seen)) t ≡ false
  unfolding collect
  collect-new [] seen t h = refl
  collect-new (c ∷ cs) seen t h = elim (Bool-cases (c == [])) [
    | inl e ↦ rw (e, collect) (collect-new cs seen t h)
    | inr e ↦ elim (Option-cases (resolve c)) [
      | inl e' ↦ rw (e, e', collect) (collect-new cs seen t h)
      | inr (a, e') ↦ elim (Bool-cases (contains seen (show a))) [
        | inl e″ ↦ rw (e, e', e″, collect) (collect-new cs seen t h)
        | inr e″ ↦ rw (e, e', e″, collect) (ground (arith, collect-new cs (show a ∷ seen) t))
      ]
    ]
  ]

  offered :
      (c : Bytes) (cs : List Bytes) (t : Bytes) (a : Addr)
      → c ≢ []
      → resolve c ≡ some a
      → (b : Bool) → (b ≡ true → AnyOffers cs t)
      → (t == show a || b) ≡ true
      → AnyOffers (c ∷ cs) t
  offered c cs t a n r b k h = elim (Bool-cases (t == show a)) [
    | inl e ↦ inl (n, (a, r, sym (==→eq t (show a) e)))
    | inr e ↦ inr (k (ground arith))
  ]

  collect-offered :
      (cs seen : List Bytes) (t : Bytes)
      → contains (texts (collect cs seen)) t ≡ true
      → AnyOffers cs t
  unfolding collect
  collect-offered [] seen t h = absurd (ground arith)
  collect-offered (c ∷ cs) seen t h = elim (Bool-cases (c == [])) [
    | inl e ↦ inr (collect-offered cs seen t (rw (e, collect) at h))
    | inr e ↦ elim (Option-cases (resolve c)) [
      | inl e' ↦ inr (collect-offered cs seen t (rw (e, e', collect) at h))
      | inr (a, e') ↦ elim (Bool-cases (contains seen (show a))) [
        | inl e″ ↦ inr (collect-offered cs seen t (rw (e, e', e″, collect) at h))
        | inr e″ ↦
            offered c cs t a (==-ne c e) e' (contains (texts (collect cs (show a ∷ seen))) t)
              (collect-offered cs (show a ∷ seen) t) (rw (e, e', e″, collect) at h)
      ]
    ]
  ]

  collect_complete :
      (cs seen : List Bytes) (t : Bytes)
      → AnyOffers cs t
      → contains seen t ≡ false
      → contains (texts (collect cs seen)) t ≡ true
  unfolding collect
  collect_complete [] seen t o n = absurd o
  collect_complete (c ∷ cs) seen t o n = elim (Bool-cases (c == [])) [
    | inl e ↦ rw (e, collect) (ground (arith, collect_complete cs seen t))
    | inr e ↦ elim (Option-cases (resolve c)) [
      | inl e' ↦ rw (e, e', collect) (ground (arith, collect_complete cs seen t))
      | inr (a, e') ↦ elim (Bool-cases (contains seen (show a))) [
        | inl e″ ↦ rw (e, e', e″, collect) (ground (arith, collect_complete cs seen t))
        | inr e″ ↦ rw (e, e', e″, collect) (ground (arith, collect_complete cs (show a ∷ seen) t))
      ]
    ]
  ]

  collect-Distinct : (cs seen : List Bytes) → Distinct (texts (collect cs seen))
  unfolding collect
  collect-Distinct [] seen = tt
  collect-Distinct (c ∷ cs) seen = elim (Bool-cases (c == [])) [
    | inl e ↦ rw (e) (collect-Distinct cs seen)
    | inr e ↦ elim (Option-cases (resolve c)) [
      | inl e' ↦ rw (e, e') (collect-Distinct cs seen)
      | inr (a, e') ↦ elim (Bool-cases (contains seen (show a))) [
        | inl e″ ↦ rw (e, e', e″) (collect-Distinct cs seen)
        | inr e″ ↦
            rw (e, e', e″)
              (
                collect-new cs (show a ∷ seen) (show a) (ground arith),
                collect-Distinct cs (show a ∷ seen),
              )
      ]
    ]
  ]

  none_offered : {l : List Addr} → l ≡ [] → (t : Bytes) → ¬ (contains (texts l) t ≡ true)
  none_offered e t h = absurd (ground arith)

  cons-ne-nil : {a : Addr} {l : List Addr} → (a ∷ l) ≢ []
  cons-ne-nil e = absurd (ground arith)

  -- The candidates that are not empty and resolve are kept, once for each text, and no others are; the
  -- error is returned exactly when there is none.
  pub resolve_candidates_lem :
      (cs : List Bytes)
      → ((resolve_candidates cs ≡ none) × ((t : Bytes) → ¬ AnyOffers cs t))
        ⊎ ((addrs : List Addr) × (resolve_candidates cs ≡ some addrs)
            × (addrs ≢ [])
            × Distinct (texts addrs)
            × ((t : Bytes) → (contains (texts addrs) t ≡ true) ↔ AnyOffers cs t))
  unfolding resolve_candidates
  resolve_candidates_lem cs = elim (List-cases (collect cs [])) [
    | inl e ↦
        inl (
          rw (e, resolve_candidates) refl,
          λ t o. none_offered e t (collect_complete cs [] t o refl),
        )
    | inr (a, l, e) ↦ inr (
      a ∷ l,
      rw (e, resolve_candidates) refl,
      cons-ne-nil,
      subst (λ k. Distinct (texts k)) e (collect-Distinct cs []),
      λ t. (
        λ h. collect-offered cs [] t (subst (λ k. contains (texts k) t ≡ true) (sym e) h),
        λ o. subst (λ k. contains (texts k) t ≡ true) e (collect_complete cs [] t o refl),
      ),
    )
  ]
