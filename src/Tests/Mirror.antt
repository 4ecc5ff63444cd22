-- ===== src/Tests/Mirror.antt =====
-- examples/relay-sync: a pass that broke off in the middle of a file, and the passes after it.
use relay_tunnel.Prelude.{
  Bool, false, ap, ◌∙◌, subst, retain, Bool-cases, ◌==◌, inl, inr, ◌≡◌, refl, arith, true, false,
  List, [], ◌∷◌, Bytes, codes, lookup, insert, erase, NodupKeys, nat_eq, bytes_eq, ℕ_discrete,
}
use relay_tunnel.Prelude.Sort.{sort, insert_sorted, bytes_leb}
use relay_tunnel.Sync.Files.{Tree, build_manifest}
use relay_tunnel.Sync.Plan.{plan_sync, index, index_onto, copies, deletes}
use relay_tunnel.Signal.Admin.Password.{split}
use relay_tunnel.Sync.Walk.{walk_to, below, child_of}
use relay_tunnel.Sync.Ignore.{IgnoreRule, is_ignored, ignored_from, load_ignore_rules}
use relay_tunnel.Sync.Pass.Listed.{plan_of, listed_tree-some}
use relay_tunnel.Sync.Pass.{
  is_listed, is_found, listed_tree, rooted, SyncOpts, Outcome, done, refused, broken, apply,
  break_off, perform, sync,
}
use relay_tunnel.Sync.Pass.Mirror.{AllDated, AllAgree}
use relay_tunnel.Sync.Pass.Keeps.{Agrees-none}
use relay_tunnel.Sync.Pass.Settled.{plan_sync_settled}
use relay_tunnel.Sync.Pass.Resume.{passes}

abbrev a_path : Bytes
a_path = codes "a"

abbrev b_path : Bytes
b_path = codes "b/c"

abbrev old_path : Bytes
old_path = codes "old"

abbrev source : Tree
source =
    (b_path, record { content = 3 ∷ []; mtime = 7 })
    ∷ (a_path, record { content = 1 ∷ 2 ∷ []; mtime = 5 })
    ∷ []

abbrev destination : Tree
destination = (old_path, record { content = 9 ∷ []; mtime = 4 }) ∷ []

-- Stand-ins for regular expressions and for `path.Base`: there are no rules.
abbrev match_string : Bytes → Bytes → Bool
match_string re t = false

abbrev path_base : Bytes → Bytes
path_base t = t

abbrev mirror_opts : SyncOpts
mirror_opts = record { del = true; dry_run = false; gitignore = true }

source-NodupKeys : NodupKeys source
unfolding lookup nat_eq bytes_eq ℕ_discrete
source-NodupKeys = (refl, (refl, tt))

destination-NodupKeys : NodupKeys destination
unfolding lookup
destination-NodupKeys = (refl, tt)

source-AllDated : AllDated source
unfolding lookup
source-AllDated q f h = ground arith

source-AllAgree : AllAgree source destination
unfolding lookup
source-AllAgree q = elim (Bool-cases (q == old_path)) [
  | inr n ↦ rw n (Agrees-none (lookup q source))
  | inl y ↦ elim (Bool-cases (q == b_path)) [
    | inl z ↦ rw (y, z) (λ l t. absurd (omega (arith, t)))
    | inr z ↦ elim (Bool-cases (q == a_path)) [
      | inl w ↦ rw (y, z, w) (λ l t. absurd (omega (arith, t)))
      | inr w ↦ rw (y, z, w) tt
    ]
  ]
]

broken_left :
    passes match_string path_base mirror_opts source destination ((broken 1 30 ∷ []) ∷ [])
    ≡ (old_path, record { content = 9 ∷ []; mtime = 4 })
      ∷ (a_path, record { content = 1 ∷ []; mtime = 30 })
      ∷ []
unfolding sync perform apply break_off plan_sync build_manifest index index_onto copies deletes sort
    insert_sorted bytes_leb lookup insert erase nat_eq bytes_eq ℕ_discrete listed_tree is_listed
    walk_to split retain is_ignored ignored_from load_ignore_rules
broken_left = refl

abbrev all_done : List Outcome
all_done = done 40 ∷ done 41 ∷ done 42 ∷ []

abbrev earlier : List (List Outcome)
earlier = (broken 1 30 ∷ []) ∷ (refused ∷ []) ∷ []

-- Both sides list all files, with rules or without.
listed_source : (b : Bool) → source ≡ listed_tree match_string path_base b source
unfolding sync perform apply break_off plan_sync build_manifest index index_onto copies deletes sort
    insert_sorted bytes_leb lookup insert erase nat_eq bytes_eq ℕ_discrete listed_tree is_listed
    walk_to split retain is_ignored ignored_from load_ignore_rules
listed_source true = refl
listed_source false = refl

wanted-AllDated : (b : Bool) → AllDated (listed_tree match_string path_base b source)
wanted-AllDated b = subst AllDated (listed_source b) source-AllDated

wanted-AllAgree : (b : Bool) → AllAgree (listed_tree match_string path_base b source) destination
wanted-AllAgree b = subst (λ t. AllAgree t destination) (listed_source b) source-AllAgree

-- Without rules, the walk comes to a path whatever the tree.
abbrev plain_opts : SyncOpts
plain_opts = record { del = true; dry_run = false; gitignore = false }

walk_to-plain :
    (t u : Tree) (inherited : List IgnoreRule) (dir rel : Bytes) (names : List Bytes)
    → walk_to match_string path_base 47 false t inherited dir rel names
      ≡ walk_to match_string path_base 47 false u inherited dir rel names
unfolding walk_to
walk_to-plain t u inherited dir rel [] = refl
walk_to-plain t u inherited dir rel (name ∷ names) =
    rw (walk_to-plain t u inherited (below 47 dir name) (child_of rel name) names) refl

is_listed-plain :
    (t u : Tree) (q : Bytes)
    → is_listed match_string path_base false t q ≡ is_listed match_string path_base false u q
unfolding is_listed
is_listed-plain t u q = ap is_found (walk_to-plain (rooted t) (rooted u) [] [] [] (split 47 q))

ends : (sync match_string path_base plain_opts source destination all_done).1 ≡ true
unfolding sync perform apply break_off plan_sync build_manifest index index_onto copies deletes sort
    insert_sorted bytes_leb lookup insert erase nat_eq bytes_eq ℕ_discrete listed_tree is_listed
    walk_to split retain is_ignored ignored_from load_ignore_rules
ends = refl

plan_sync_settled_example :
    plan_of match_string path_base plain_opts source
      (sync match_string path_base plain_opts source destination all_done).0
    ≡ []
plan_sync_settled_example =
    plan_sync_settled match_string path_base plain_opts source destination all_done source-NodupKeys
      destination-NodupKeys (wanted-AllDated false) (wanted-AllAgree false) refl ends
      (λ q.
        is_listed-plain (sync match_string path_base plain_opts source destination all_done).0
          destination q)
      (λ q f h.
        is_listed-plain destination source q
        ∙ (listed_tree-some match_string path_base false source q f h).0)
