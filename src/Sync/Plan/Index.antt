-- ===== src/Sync/Plan/Index.antt =====
-- examples/relay-sync: the manifest of a tree, and the maps that are made of it.
use mathlib.Core.Bool.{or-false}
use relay_tunnel.Prelude.{
  subst, Option, none, some, Bool, true, false, ◌&&◌, ◌==◌, List, [], ◌∷◌, map, Bytes, Dict, lookup,
  insert, nat_eq, bytes_eq, if◌then◌else◌, ◌≡◌, refl, sym, ◌∙◌, inl, inr, arith, any, AllOf,
  NodupKeys, lookup-insert, lookup-nil, Bool-cases, Option-cases, ==→eq, ==-self,
}
use relay_tunnel.Prelude.Sort.{any-sort, AllOf-sort}
use relay_tunnel.Sync.Files.{Entry, File, Tree, entry_of, before, build_manifest}
use relay_tunnel.Sync.Plan.{index_onto, index, differs, is_none}

-- The entry of a path, from the tree.
abbrev pub entry_of_file : Bytes → Option File → Option Entry
entry_of_file q none = none
entry_of_file q (some f) = some (entry_of (q, f))

abbrev pub entry_at : Bytes → Tree → Option Entry
entry_at q t = entry_of_file q (lookup q t)

abbrev pub StandsIn : Tree → Entry → Type 0
StandsIn t e = entry_at e.path t ≡ some e

module _ (t : Tree) (q : Bytes) where
  lookup-index_onto :
      (m : Dict Bytes Entry) (es : List Entry)
      → AllOf (StandsIn t) es
      → lookup q (index_onto m es)
        ≡ (if any (λ e. q == e.path) es then entry_at q t else lookup q m)
  unfolding index_onto
  lookup-index_onto m [] h = refl
  lookup-index_onto m (e ∷ es) (k, h) = elim (Bool-cases (q == e.path)) [
    | inl y ↦ elim (Bool-cases (any (λ x. q == x.path) es)) [
      | inl z ↦ rw (lookup-index_onto (insert e.path e m) es h, y, z) refl
      | inr z ↦
          rw
            (
              lookup-index_onto (insert e.path e m) es h,
              z,
              lookup-insert q e.path e m,
              y,
              ==→eq q e.path y,
              k,
            )
            refl
    ]
    | inr y ↦ rw (lookup-index_onto (insert e.path e m) es h, lookup-insert q e.path e m, y) refl
  ]

StandsIn-cons :
    (p : Bytes) (f : File) (t : Tree) (e : Entry)
    → lookup p t ≡ none
    → StandsIn t e
    → StandsIn ((p, f) ∷ t) e
unfolding lookup
StandsIn-cons p f t e fresh h = elim (Bool-cases (e.path == p)) [
  | inl y ↦
      let gone = subst (λ x. lookup x t ≡ none) (sym (==→eq e.path p y)) fresh in
      let none_is = rw gone at h in absurd (ground arith)
  | inr y ↦ rw y h
]

AllOf-StandsIn-cons :
    (p : Bytes) (f : File) (t : Tree) (es : List Entry)
    → lookup p t ≡ none
    → AllOf (StandsIn t) es
    → AllOf (StandsIn ((p, f) ∷ t)) es
AllOf-StandsIn-cons p f t [] fresh h = tt
AllOf-StandsIn-cons p f t (e ∷ es) fresh (k, h) =
    (StandsIn-cons p f t e fresh k, AllOf-StandsIn-cons p f t es fresh h)

entries_stand : (t : Tree) → NodupKeys t → AllOf (StandsIn t) (map entry_of t)
unfolding lookup
entries_stand [] u = tt
entries_stand ((p, f) ∷ t) (fresh, u) =
    (rw (==-self p) refl, AllOf-StandsIn-cons p f t (map entry_of t) fresh (entries_stand t u))

-- A test of the entry of a path; no entry fails it.
abbrev pub test_at : (Entry → Bool) → Option Entry → Bool
test_at g none = false
test_at g (some e) = g e

any-entries :
    (g : Entry → Bool) (q : Bytes) (t : Tree)
    → NodupKeys t
    → any (λ e. q == e.path && g e) (map entry_of t) ≡ test_at g (entry_at q t)
unfolding lookup
any-entries g q [] u = refl
any-entries g q ((p, f) ∷ t) (fresh, u) = elim (Bool-cases (q == p)) [
  | inl y ↦
      let gone = subst (λ x. lookup x t ≡ none) (sym (==→eq q p y)) fresh in
      rw (y, any-entries g q t u, gone, ==→eq q p y) (or-false (g (entry_of (p, f))))
  | inr y ↦ rw (y, any-entries g q t u) refl
]

pub any-manifest :
    (g : Entry → Bool) (q : Bytes) (t : Tree)
    → NodupKeys t
    → any (λ e. q == e.path && g e) (build_manifest t) ≡ test_at g (entry_at q t)
unfolding build_manifest
any-manifest g q t u =
    any-sort before (λ e. q == e.path && g e) (map entry_of t) ∙ any-entries g q t u

-- What the plan does with a path: it is copied, or deleted, and left alone otherwise.
abbrev pub copied : Bytes → Option File → Option File → Bool
copied q o o' = test_at (λ e. differs e (entry_of_file q o')) (entry_of_file q o)

abbrev pub is_copied : Tree → Tree → Bytes → Bool
is_copied src dst q = copied q (lookup q src) (lookup q dst)

abbrev pub deleted : Bytes → Option File → Option File → Bool
deleted q o o' = test_at (λ e. is_none (entry_of_file q o)) (entry_of_file q o')

abbrev pub is_deleted : Tree → Tree → Bytes → Bool
is_deleted src dst q = deleted q (lookup q src) (lookup q dst)

any-all :
    (q : Bytes) (es : List Entry) → any (λ e. q == e.path && true) es ≡ any (λ e. q == e.path) es
any-all q [] = refl
any-all q (e ∷ es) = elim (Bool-cases (q == e.path)) [
  | inl y ↦ rw y refl
  | inr y ↦ rw y (any-all q es)
]

pub manifest_stands : (t : Tree) → NodupKeys t → AllOf (StandsIn t) (build_manifest t)
unfolding build_manifest
manifest_stands t u = AllOf-sort before (StandsIn t) (map entry_of t) (entries_stand t u)

pub lookup-index :
    (t : Tree) (q : Bytes) → NodupKeys t → lookup q (index (build_manifest t)) ≡ entry_at q t
unfolding index build_manifest
lookup-index t q u =
    let listed = sym (any-all q (build_manifest t)) ∙ any-manifest (λ e. true) q t u in
    let found = lookup-index_onto t q [] (build_manifest t) (manifest_stands t u) in
    elim (Option-cases (lookup q t)) [
      | inl e ↦ rw (found, listed, e, lookup-nil q) refl
      | inr (f, e) ↦ rw (found, listed, e) refl
    ]
