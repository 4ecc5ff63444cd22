-- ===== src/Sync/Plan.antt =====
-- examples/relay-sync/proto.go: `planSync`.
pub mod Index
pub mod Paths
pub mod Sound
use relay_tunnel.Prelude.{
  ℕ, Option, none, some, Bool, true, false, not, ◌||◌, ◌==◌, List, [], ◌∷◌, ◌++◌, map, Bytes, Dict,
  lookup, insert, nat_eq, bytes_eq, if◌then◌else◌,
}
use relay_tunnel.Prelude.Sort.{sort, bytes_leb}
use relay_tunnel.Sync.Files.{Entry}

pub data Action : Type 0 where
  copy delete : Bytes → Action

-- `index`, onto a map: a path that is listed twice keeps its last entry.
unfoldable pub index_onto : Dict Bytes Entry → List Entry → Dict Bytes Entry
index_onto m [] = m
index_onto m (e ∷ es) = index_onto (insert e.path e m) es

unfoldable pub index : List Entry → Dict Bytes Entry
unfolding index_onto
index es = index_onto [] es

-- The test that a file is copied, on the entry that the destination has.
abbrev pub differs : Entry → Option Entry → Bool
differs s none = true
differs s (some d) = not (d.size == s.size) || not (d.mtime == s.mtime)

unfoldable pub copies : Dict Bytes Entry → List Entry → List Bytes
copies dst [] = []
copies dst (s ∷ src) =
    let rest = copies dst src in if differs s (lookup s.path dst) then s.path ∷ rest else rest

abbrev pub is_none : Option Entry → Bool
is_none none = true
is_none (some _) = false

unfoldable pub deletes : Dict Bytes Entry → List Entry → List Bytes
deletes src [] = []
deletes src (d ∷ dst) =
    let rest = deletes src dst in if is_none (lookup d.path src) then d.path ∷ rest else rest

-- `planSync src dst del`
unfoldable pub plan_sync : List Entry → List Entry → Bool → List Action
unfolding index copies deletes
plan_sync src dst del =
    map copy (sort bytes_leb (copies (index dst) src))
    ++ map delete (sort bytes_leb (if del then deletes (index src) dst else []))
