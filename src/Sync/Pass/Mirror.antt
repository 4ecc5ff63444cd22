-- ===== src/Sync/Pass/Mirror.antt =====
-- examples/relay-sync/client.go: what a pass leaves at the destination.
use mathlib.Core.Bool.{and-false}
use relay_tunnel.Prelude.{
  ℕ, Option, none, some, Bool, true, false, ◌||◌, ◌&&◌, ◌==◌, List, [], ◌∷◌, map, Bytes, lookup,
  nat_eq, bytes_eq, if◌then◌else◌, ◌≡◌, refl, ap, sym, ◌∙◌, inl, inr, arith, AllOf, contains,
  length, NodupKeys, lookup-insert, lookup-erase, Bool-cases, ==→eq,
}
use relay_tunnel.Sync.Files.{File, Tree, is_positive}
use relay_tunnel.Sync.Plan.{Action, copy, delete}
use relay_tunnel.Sync.Plan.Paths.{path_of, contains-plan_sync}
use relay_tunnel.Sync.Plan.Index.{copied, deleted}
use relay_tunnel.Sync.Plan.Sound.{IsSound}
use relay_tunnel.Sync.Pass.Listed.{
  plan_of, plan_of-IsSound, sync_wet, lookup-listed_tree, listed_tree-NodupKeys,
}
use relay_tunnel.Sync.Pass.{
  SyncOpts, Outcome, done, refused, broken, kept_mtime, apply, perform, sync, is_listed,
  listed_tree,
}

-- What a pass is to leave under a path: the file of the source, and otherwise that of the
-- destination, unless files are deleted.
abbrev pub overlay : Bool → Option File → Option File → Option File
overlay del (some f) o = some f
overlay del none o = if del then none else o

-- The modification times of the source are positive.
abbrev pub AllDated : Tree → Type 0
AllDated src = (q : Bytes) (f : File) → lookup q src ≡ some f → is_positive f.mtime ≡ true

-- A file that the manifests take for unchanged is unchanged.
abbrev pub Agrees : Option File → Option File → Type 0
Agrees (some f) (some g) = length g.content ≡ length f.content → g.mtime ≡ f.mtime → g ≡ f
Agrees _ _ = Unit

abbrev pub AllAgree : Tree → Tree → Type 0
AllAgree src dst = (q : Bytes) → Agrees (lookup q src) (lookup q dst)

if_or :
    {A : Type 0} (b c : Bool) (x y : A)
    → (if c then x else if b then x else y) ≡ (if b || c then x else y)
if_or true true x y = refl
if_or true false x y = refl
if_or false c x y = refl

pub and_true : (b : Bool) → (b && true) ≡ b
and_true true = refl
and_true false = refl

pub kept : (now m : ℕ) → is_positive m ≡ true → kept_mtime now m ≡ m
kept now m h = rw h refl

module _ (src : Tree) (dated : AllDated src) where
  pub lookup-apply :
      (now : ℕ) (a : Action) (dst : Tree) (q : Bytes)
      → IsSound src a
      → lookup q (apply src now a dst) ≡ (if q == path_of a then lookup q src else lookup q dst)
  unfolding apply
  lookup-apply now (copy p) dst q (f, e) =
      let same = kept now f.mtime (dated p f e) in
      elim (Bool-cases (q == p)) [
        | inl y ↦ rw (e, same, lookup-insert q p f dst, y, ==→eq q p y, e) refl
        | inr y ↦ rw (e, same, lookup-insert q p f dst, y) refl
      ]
  lookup-apply now (delete p) dst q e = elim (Bool-cases (q == p)) [
    | inl y ↦ rw (lookup-erase q p dst, y, ==→eq q p y, e) refl
    | inr y ↦ rw (lookup-erase q p dst, y) refl
  ]

  lookup-perform :
      (actions : List Action) (os : List Outcome) (dst : Tree) (q : Bytes)
      → AllOf (IsSound src) actions
      → (perform src actions os dst).1 ≡ true
      → lookup q (perform src actions os dst).0
        ≡ (if contains (map path_of actions) q then lookup q src else lookup q dst)
  unfolding perform
  lookup-perform [] os dst q s h = refl
  lookup-perform (a ∷ more) [] dst q s h = absurd (ground arith)
  lookup-perform (a ∷ more) (done now ∷ os) dst q (s, ss) h =
      rw (lookup-perform more os (apply src now a dst) q ss h, lookup-apply now a dst q s)
        (if_or (q == path_of a) (contains (map path_of more) q) (lookup q src) (lookup q dst))
  lookup-perform (a ∷ more) (refused ∷ os) dst q s h = absurd (ground arith)
  lookup-perform (a ∷ more) (broken n time ∷ os) dst q s h = absurd (ground arith)

-- The paths that a plan leaves alone have what they are to have.
settled_case :
    (del : Bool) (q : Bytes) (o o' : Option File)
    → Agrees o o'
    → (if copied q o o' || del && deleted q o o' then o else o') ≡ overlay del o o'
settled_case true q none none k = refl
settled_case false q none none k = refl
settled_case true q none (some g) k = refl
settled_case false q none (some g) k = refl
settled_case del q (some f) none k = refl
settled_case del q (some f) (some g) k = elim (Bool-cases (length g.content == length f.content)) [
  | inl y ↦ elim (Bool-cases (g.mtime == f.mtime)) [
    | inl z ↦
        rw (y, z, and-false del)
          (ap some (k (==→eq (length g.content) (length f.content) y) (==→eq g.mtime f.mtime z)))
    | inr z ↦ rw (y, z) refl
  ]
  | inr y ↦ rw y refl
]

-- The same for a path that the manifest of the destination does not have.
hidden_case :
    (del : Bool) (q : Bytes) (o o' : Option File)
    → (if copied q o none || del && deleted q o none then o else o') ≡ overlay false o o'
hidden_case true q none o' = refl
hidden_case false q none o' = refl
hidden_case del q (some f) o' = refl

module _ (match_string : Bytes → Bytes → Bool) (path_base : Bytes → Bytes) where
  -- A pass that ends without an error, over trees that list each path once, where the files that the
  -- source lists have positive modification times and a file of equal size and time is equal, leaves
  -- under every path the file that the source lists. What it does not list is gone if files are
  -- deleted and the destination lists it, and as it was otherwise.
  pub sync_mirrors :
      (opts : SyncOpts) (src dst : Tree) (os : List Outcome) (q : Bytes)
      → NodupKeys src
      → NodupKeys dst
      → AllDated (listed_tree match_string path_base opts.gitignore src)
      → AllAgree (listed_tree match_string path_base opts.gitignore src) dst
      → opts.dry_run ≡ false
      → (sync match_string path_base opts src dst os).1 ≡ true
      → lookup q (sync match_string path_base opts src dst os).0
        ≡ overlay
            (opts.del && is_listed match_string path_base opts.gitignore dst q)
            (lookup q (listed_tree match_string path_base opts.gitignore src))
            (lookup q dst)
  sync_mirrors opts src dst os q u v dated same wet h =
      let t = listed_tree match_string path_base opts.gitignore src in
      let actions = plan_of match_string path_base opts src dst in
      let made =
        lookup-perform t dated actions os dst q
          (plan_of-IsSound match_string path_base opts src dst u)
          (rw (sync_wet match_string path_base opts src dst os u wet) at h) in
      let planned =
        contains-plan_sync t (listed_tree match_string path_base opts.gitignore dst)
          (listed_tree-NodupKeys match_string path_base opts.gitignore src u)
          (listed_tree-NodupKeys match_string path_base opts.gitignore dst v) q opts.del in
      elim (Bool-cases (is_listed match_string path_base opts.gitignore dst q)) [
        | inl e ↦
            rw
              (
                sync_wet match_string path_base opts src dst os u wet,
                made,
                planned,
                lookup-listed_tree match_string path_base opts.gitignore dst q,
                e,
              )
              (settled_case opts.del q (lookup q t) (lookup q dst) (same q)
                ∙ ap (λ d. overlay d (lookup q t) (lookup q dst)) (sym (and_true opts.del)))
        | inr e ↦
            rw
              (
                sync_wet match_string path_base opts src dst os u wet,
                made,
                planned,
                lookup-listed_tree match_string path_base opts.gitignore dst q,
                e,
              )
              (hidden_case opts.del q (lookup q t) (lookup q dst)
                ∙ ap (λ d. overlay d (lookup q t) (lookup q dst)) (sym (and-false opts.del)))
      ]
