-- ===== src/Sync/Host/Listed.antt =====
-- examples/relay-sync: the entries of a manifest that is served are of files below its directory.
use relay_tunnel.Prelude.{
  ℕ, Bool, ◌⊎◌, inl, inr, List, [], ◌∷◌, Bytes, length, drop, ◌+◌, map, ◌≡◌, refl, AllOf,
  Bool-cases, Option-cases, bytes_eq,
}
use relay_tunnel.Prelude.Sort.{AllOf-sort}
use relay_tunnel.App.Host.{has_prefix}
use relay_tunnel.App.Host.Laws.{IsUnder}
use relay_tunnel.Signal.Admin.Password.{split}
use relay_tunnel.Sync.Files.{Entry, File, Tree, entry_of, before, build_manifest}
use relay_tunnel.Sync.Walk.{below, walk_to, walk_files, walk_tree}
use relay_tunnel.Sync.Host.Under.{has_prefix-IsUnder}

-- The file is among those of the file system.
abbrev pub Holds : Bytes → File → Tree → Type 0
Holds p f [] = ⊥
Holds p f ((q, g) ∷ fs) = ((p ≡ q) × (f ≡ g)) ⊎ Holds p f fs

-- The size and the time of a file below a directory.
abbrev pub ListedFrom : ℕ → Bytes → Tree → Entry → Type 0
ListedFrom sep base fs e =
    (p : Bytes) × (f : File) × IsUnder sep p base
    × Holds p f fs
    × (e.size ≡ length f.content)
    × (e.mtime ≡ f.mtime)

ListedFrom-cons :
    (sep : ℕ) (base q : Bytes) (g : File) (fs : Tree) (es : List Entry)
    → AllOf (ListedFrom sep base fs) es
    → AllOf (ListedFrom sep base ((q, g) ∷ fs)) es
ListedFrom-cons sep base q g fs [] h = tt
ListedFrom-cons sep base q g fs (e ∷ es) ((p, f, u, m, s, t), hs) =
    ((p, f, u, inr m, s, t), ListedFrom-cons sep base q g fs es hs)

module _ (match_string : Bytes → Bytes → Bool) (path_base : Bytes → Bytes) (sep : ℕ)
    (use_gitignore : Bool) (fs : Tree) (base : Bytes) where
  walk_files-ListedFrom :
      (files : Tree)
      → AllOf
          (ListedFrom sep base files)
          (map entry_of (walk_files match_string path_base sep use_gitignore fs base files))
  unfolding walk_files
  walk_files-ListedFrom [] = tt
  walk_files-ListedFrom ((p, f) ∷ files) =
      let later =
        ListedFrom-cons sep base p f files
          (map entry_of (walk_files match_string path_base sep use_gitignore fs base files))
          (walk_files-ListedFrom files) in
      elim (Bool-cases (has_prefix p (below sep base []))) [
        | inr y ↦ rw (y, walk_files) later
        | inl y ↦
            let names = split sep (drop (length base + 1) p) in
            elim (Option-cases
              (walk_to match_string path_base sep use_gitignore fs [] base [] names)) [
                | inl z ↦ rw (y, z, walk_files) later
                | inr (rel, z) ↦
                    rw (y, z, walk_files)
                      ((p, f, has_prefix-IsUnder sep p base y, inl (refl, refl), refl, refl), later)
              ]
      ]

  pub manifest-ListedFrom :
      AllOf
        (ListedFrom sep base fs)
        (build_manifest (walk_tree match_string path_base sep use_gitignore fs base))
  unfolding build_manifest walk_tree
  manifest-ListedFrom =
      AllOf-sort before (ListedFrom sep base fs)
        (map entry_of (walk_files match_string path_base sep use_gitignore fs base fs))
        (walk_files-ListedFrom fs)
