-- ===== src/Sync/Files.antt =====
-- examples/relay-sync/proto.go: the entries of a manifest. A tree is the map from the paths of its
-- regular files, relative and with slashes, to what they hold. `sep` is `os.PathSeparator`.
use relay_tunnel.Prelude.{nat_eq, ℕ, Bool, ◌&&◌, List, map, Bytes, length, ltb, ◌^◌, Dict, bytes_eq}
use relay_tunnel.Prelude.Sort.{sort, bytes_leb}

-- `size` and `mtime` are an int64 as its 64-bit pattern.
pub record Entry : Type 0 where
  pub path : Bytes
  pub size : ℕ
  pub mtime : ℕ

pub record File : Type 0 where
  pub content : Bytes
  pub mtime : ℕ

abbrev pub Tree : Type 0
Tree = Dict Bytes File

abbrev pub entry_of : Bytes × File → Entry
entry_of (p, f) = record { path = p; size = length f.content; mtime = f.mtime }

abbrev pub before : Entry → Entry → Bool
before a b = bytes_leb a.path b.path

-- `buildManifest`, of the files that `walkTree` lists.
unfoldable pub build_manifest : Tree → List Entry
build_manifest t = sort before (map entry_of t)

-- `m > 0` on an int64.
abbrev pub is_positive : ℕ → Bool
is_positive m = ltb 0 m && ltb m (2 ^ 63)
