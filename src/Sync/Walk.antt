-- ===== src/Sync/Walk.antt =====
-- examples/relay-sync/proto.go: `walkTree`, over a map from absolute paths to files. `sep` is
-- `os.PathSeparator`; `match_string` and `path_base` are those of the ignore rules.
use relay_tunnel.Prelude.{
  ℕ, Bool, true, false, ◌&&◌, ◌==◌, Option, none, some, List, [], ◌∷◌, ◌++◌, Bytes, codes, length,
  drop, ◌+◌, lookup, if◌then◌else◌, nat_eq, bytes_eq,
}
use relay_tunnel.App.Host.{has_prefix}
use relay_tunnel.Signal.Admin.Password.{split}
use relay_tunnel.Sync.Files.{File, Tree}
use relay_tunnel.Sync.Ignore.{IgnoreRule, load_ignore_rules, is_ignored}

-- `filepath.Join` of a directory that is not the root of the file system and a name.
abbrev pub below : ℕ → Bytes → Bytes → Bytes
below sep dir name = dir ++ (sep ∷ name)

abbrev rules_of : Bytes → Option File → List IgnoreRule
rules_of rel none = []
rules_of rel (some f) = load_ignore_rules (split 10 f.content) rel

abbrev pub child_of : Bytes → Bytes → Bytes
child_of rel name = if rel == [] then name else rel ++ (47 ∷ name)

abbrev is_directory : List Bytes → Bool
is_directory [] = false
is_directory (_ ∷ _) = true

module _ (match_string : Bytes → Bytes → Bool) (path_base : Bytes → Bytes) (sep : ℕ)
    (use_gitignore : Bool) (fs : Tree) where
  -- The rules in force in a directory.
  abbrev pub rules_in : List IgnoreRule → Bytes → Bytes → List IgnoreRule
  rules_in inherited dir rel =
      if use_gitignore
      then inherited ++ rules_of rel (lookup (below sep dir (codes ".gitignore")) fs)
      else inherited

  -- The path that the walk lists a file under, if it comes to it: from the directory `dir`, which is
  -- `rel` to the root, down the names that lead to the file.
  unfoldable pub walk_to : List IgnoreRule → Bytes → Bytes → List Bytes → Option Bytes
  unfolding load_ignore_rules split is_ignored
  walk_to inherited dir rel [] = some rel
  walk_to inherited dir rel (name ∷ names) =
      let rules = rules_in inherited dir rel in
      let child = child_of rel name in
      let deeper = walk_to rules (below sep dir name) child names in
      if name == codes ".git"
      then none
      else if use_gitignore && is_ignored match_string path_base rules child (is_directory names)
      then none
      else deeper

  abbrev pub names_below : Bytes → Bytes → Option (List Bytes)
  names_below base p =
      if has_prefix p (below sep base []) then some (split sep (drop (length base + 1) p)) else none

  unfoldable pub walk_files : Bytes → Tree → Tree
  unfolding walk_to has_prefix split
  walk_files base [] = []
  walk_files base ((p, f) ∷ files) =
      let rest = walk_files base files in
      elim (names_below base p) [
        | none ↦ rest
        | some names ↦ elim (walk_to [] base [] names) [ none ↦ rest | some rel ↦ (rel, f) ∷ rest ]
      ]

  -- `walkTree` from a directory: its files and their paths, with slashes.
  unfoldable pub walk_tree : Bytes → Tree
  unfolding walk_files
  walk_tree base = walk_files base fs
