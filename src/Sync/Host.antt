-- ===== src/Sync/Host.antt =====
-- examples/relay-sync/host.go: the requests that the serving side answers. The file system is the map
-- from the absolute paths of its regular files to what they hold; modes are left out, and so is a
-- request to get a directory, which is answered with a size and no bytes. `absolute` is
-- `filepath.Abs`, `joined` is `filepath.Clean` of `filepath.Join` with `filepath.FromSlash`, and
-- `sep` is `os.PathSeparator`; `match_string` and `path_base` are those of the ignore rules.
pub mod Under
pub mod Listed
pub mod Confined
pub mod Stored
use relay_tunnel.Prelude.{
  ◌>>=◌, ℕ, Bool, true, false, not, ◌||◌, ◌==◌, Option, none, some, List, [], ◌∷◌, ◌++◌, Bytes,
  codes, length, ltb, take, drop, map, contains, ◌&&◌, ◌+◌, ◌^◌, lookup, insert, retain,
  if◌then◌else◌, nat_eq, bytes_eq,
}
use relay_tunnel.App.Host.{has_prefix}
use relay_tunnel.Sync.Files.{Entry, Tree, File, build_manifest}
use relay_tunnel.Sync.Walk.{walk_tree}
use relay_tunnel.Sync.Pass.{kept_mtime}

-- `size` and `mtime` are an int64 as its 64-bit pattern, and a request that is not for a manifest
-- leaves `Gitignore` out.
pub record Request : Type 0 where
  pub op : Bytes
  pub path : Bytes
  pub size : ℕ
  pub mtime : ℕ
  pub gitignore : Bool

-- No reply; an error; "ok"; the size and the bytes of a file; a manifest.
pub data Reply : Type 0 where
  silent : Reply
  outside_root : Reply
  failed : Reply
  ok : Reply
  file : ℕ → Bytes → Reply
  listing : List Entry → Reply

-- What the file system makes of a request: whether the directory can be made, whether the file can be
-- opened and removed, and the time of writing.
pub record Io : Type 0 where
  pub made : Bool
  pub opened : Bool
  pub removed : Bool
  pub now : ℕ

-- The number of bytes that `io.CopyN` is to copy.
abbrev pub count : ℕ → ℕ
count size = if ltb size (2 ^ 63) then size else 0

module _ (absolute : Bytes → Option Bytes) (joined : Bytes → Bytes → Bytes) (sep : ℕ)
    (match_string : Bytes → Bytes → Bool) (path_base : Bytes → Bytes) where
  abbrev pub within : Bytes → Bytes → Option Bytes
  within abs_root abs =
      if abs == abs_root
      then some abs
      else if has_prefix abs (abs_root ++ (sep ∷ []))
      then some abs
      else none

  -- The path, or none where it is not allowed.
  unfoldable pub confine : Bytes → Bytes → Option Bytes
  confine root rel = do
    abs_root ← absolute root
    abs ← absolute (joined root rel)
    within abs_root abs

  -- A file, which is no directory to read, is an error; nothing at all is an empty manifest.
  abbrev pub manifest_at : Bytes → Request → Io → Tree → Option File → Reply
  manifest_at base req io fs (some f) = failed
  manifest_at base req io fs none =
      if io.opened
      then listing (build_manifest (walk_tree match_string path_base sep req.gitignore fs base))
      else failed

  unfoldable pub host_manifest : Bytes → Request → Io → Tree → Reply
  unfolding confine walk_tree build_manifest
  host_manifest root req io fs = elim (confine root req.path) [
    | none ↦ outside_root
    | some base ↦ manifest_at base req io fs (lookup base fs)
  ]

  abbrev pub sent_file : Option File → Reply
  sent_file none = failed
  sent_file (some f) = file (length f.content) f.content

  unfoldable pub host_get : Bytes → Request → Io → Tree → Reply
  unfolding confine
  host_get root req io fs = elim (confine root req.path) [
    | none ↦ outside_root
    | some abs ↦ if io.opened then sent_file (lookup abs fs) else failed
  ]

  -- `body` is what follows the request on the stream.
  abbrev pub put_at : Bytes → Request → Bytes → Io → Tree → Tree × Reply
  put_at abs req body io fs =
      if not io.made || not io.opened
      then (fs, failed)
      else if ltb (length body) (count req.size)
      then (insert abs (record { content = body; mtime = io.now }) fs, failed)
      else (
        insert abs
            (record { content = take (count req.size) body; mtime = kept_mtime io.now req.mtime })
            fs,
        ok,
      )

  unfoldable pub host_put : Bytes → Request → Bytes → Io → Tree → Tree × Reply
  unfolding confine
  host_put root req body io fs = elim (confine root req.path) [
    | none ↦ (fs, outside_root)
    | some abs ↦ put_at abs req body io fs
  ]

  -- `os.RemoveAll`
  unfoldable pub remove_all : Bytes → Tree → Tree
  remove_all abs fs = retain (λ p f. not (p == abs || has_prefix p (abs ++ (sep ∷ [])))) fs

  abbrev pub delete_at : Bytes → Bytes → Io → Tree → Tree × Reply
  delete_at root abs io fs =
      if abs == root
      then (fs, outside_root)
      else if io.removed
      then (remove_all abs fs, ok)
      else (fs, failed)

  unfoldable pub host_delete : Bytes → Request → Io → Tree → Tree × Reply
  unfolding confine remove_all
  host_delete root req io fs = elim (confine root req.path) [
    | none ↦ (fs, outside_root)
    | some abs ↦ delete_at root abs io fs
  ]

  -- `handle` of the request that was read; none is one that cannot be read.
  unfoldable pub handle : Bytes → Option Request → Bytes → Io → Tree → Tree × Reply
  unfolding host_manifest host_get host_put host_delete
  handle root none body io fs = (fs, silent)
  handle root (some req) body io fs =
      if req.op == codes "manifest"
      then (fs, host_manifest root req io fs)
      else if req.op == codes "get"
      then (fs, host_get root req io fs)
      else if req.op == codes "put"
      then host_put root req body io fs
      else if req.op == codes "delete"
      then host_delete root req io fs
      else (fs, silent)
