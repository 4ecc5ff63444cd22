-- ===== src/Tests/Serving.antt =====
-- examples/relay-sync: frames, and requests of a client to the side that serves a directory.
use relay_tunnel.Prelude.{
  Bool, ◌==◌, ◌≡◌, refl, if◌then◌else◌, true, Option, none, some, [], ◌∷◌, ◌++◌, Bytes, codes,
  lookup, nat_eq, bytes_eq, ℕ_discrete,
}
use relay_tunnel.App.Host.{has_prefix}
use relay_tunnel.App.Host.Laws.{has_dots}
use relay_tunnel.Prelude.Sort.{sort, insert_sorted, bytes_leb}
use relay_tunnel.Signal.Admin.Password.{split}
use relay_tunnel.Sync.Files.{Tree, File, build_manifest}
use relay_tunnel.Sync.Walk.{walk_to, walk_files, walk_tree}
use relay_tunnel.Sync.Ignore.{
  load_ignore_rules, compile_ignore_line, trim_right_of, cut_slash, glob_to_regex, glob_loop,
  matches, ignored_from, is_ignored,
}
use relay_tunnel.Sync.Host.{listing, host_manifest, Request, Io, confine, handle}

-- Stand-ins for `filepath.Abs`, and for `filepath.Join` where the path has no dots.
abbrev pub absolute : Bytes → Option Bytes
absolute p = some p

abbrev pub joined : Bytes → Bytes → Bytes
joined root p = root ++ (47 ∷ p)

-- A stand-in for regular expressions without wildcards, and for `path.Base` of one name.
abbrev pub match_string : Bytes → Bytes → Bool
match_string re t = re == codes "^" ++ (t ++ codes "$")

abbrev pub path_base : Bytes → Bytes
path_base t = t

abbrev pub root : Bytes
root = codes "/srv"

abbrev pub io : Io
io = record { made = true; opened = true; removed = true; now = 90 }

abbrev pub readme : File
readme = record { content = codes "hello"; mtime = 60 }

abbrev secret : Tree
secret = (codes "/etc/key", record { content = 1 ∷ []; mtime = 2 }) ∷ []

abbrev remove_x : Request
remove_x = record { op = codes "delete"; path = codes "x"; size = 0; mtime = 0; gitignore = true }

-- A stand-in for `filepath.Abs` that returns clean paths.
abbrev cleaned : Bytes → Option Bytes
cleaned p = some (if has_dots (split 47 p) then codes "/" else p)

pub readme_path :
    confine absolute joined 47 match_string path_base root (codes "readme")
    ≡ some (codes "/srv/readme")
unfolding confine has_prefix nat_eq bytes_eq ℕ_discrete
readme_path = refl

-- A root of "/" allows no path below it, since the prefix that is tested is then "//".
slash_root_denies :
    confine absolute (λ r p. r ++ p) 47 match_string path_base (codes "/") (codes "etc") ≡ none
unfolding confine has_prefix nat_eq bytes_eq ℕ_discrete
slash_root_denies = refl

-- The manifest has the files below the directory, without those in a directory ".git" and those that
-- a .gitignore file excludes.
abbrev served : Tree
served =
    (codes "/srv/x/b", readme)
    ∷ (codes "/srv/x/.git/c", readme)
    ∷ (codes "/srv/x/out/d", readme)
    ∷ (codes "/srv/x/.gitignore", record { content = codes "out/"; mtime = 61 })
    ∷ (codes "/srv/a", readme)
    ∷ []

served_manifest :
    (handle absolute joined 47 match_string path_base root
      (some (record remove_x { op = codes "manifest" }))
      []
      io
      served).1
    ≡ listing (
        record { path = codes ".gitignore"; size = 4; mtime = 61 }
        ∷ record { path = codes "b"; size = 5; mtime = 60 }
        ∷ [])
unfolding handle host_manifest confine walk_tree walk_files walk_to load_ignore_rules
    compile_ignore_line trim_right_of cut_slash glob_to_regex glob_loop matches ignored_from
    is_ignored build_manifest sort insert_sorted bytes_leb split has_prefix lookup nat_eq bytes_eq
    ℕ_discrete
served_manifest = refl
