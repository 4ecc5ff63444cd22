-- ===== src/Sync/Plan/Sound.antt =====
-- examples/relay-sync/proto.go: a plan copies only files of the source, and deletes none of them.

use relay_tunnel.Prelude.{
  none, some, Bool, true, false, List, [], ◌∷◌, ◌++◌, map, Bytes, Dict, lookup, nat_eq, bytes_eq,
  if◌then◌else◌, ◌≡◌, inl, inr, arith, AllOf, NodupKeys, Bool-cases, Option-cases,
}
use relay_tunnel.Prelude.Sort.{sort, bytes_leb, AllOf-sort}
use relay_tunnel.Sync.Files.{Entry, File, Tree, build_manifest}
use relay_tunnel.Sync.Plan.{
  Action, copy, delete, index, differs, copies, is_none, deletes, plan_sync,
}
use relay_tunnel.Sync.Plan.Index.{entry_at, StandsIn, manifest_stands, lookup-index}

-- What an action is for: a copy is of a file of the source, a removal of a path it does not have.
abbrev pub IsSound : Tree → Action → Type 0
IsSound src (copy p) = (f : File) × (lookup p src ≡ some f)
IsSound src (delete p) = lookup p src ≡ none

abbrev Has : Tree → Bytes → Type 0
Has src p = (f : File) × (lookup p src ≡ some f)

abbrev Lacks : Tree → Bytes → Type 0
Lacks src p = lookup p src ≡ none

StandsIn-Has : (src : Tree) (e : Entry) → StandsIn src e → Has src e.path
StandsIn-Has src e h = elim (Option-cases (lookup e.path src)) [
  | inl n ↦ let none_is = rw n at h in absurd (ground arith)
  | inr y ↦ y
]

copies-Has :
    (src : Tree) (idx : Dict Bytes Entry) (es : List Entry)
    → AllOf (StandsIn src) es
    → AllOf (Has src) (copies idx es)
unfolding copies
copies-Has src idx [] h = tt
copies-Has src idx (e ∷ es) (k, h) = elim (Bool-cases (differs e (lookup e.path idx))) [
  | inl y ↦ rw (y, copies) (StandsIn-Has src e k, copies-Has src idx es h)
  | inr y ↦ rw (y, copies) (copies-Has src idx es h)
]

is_none_entry : (src : Tree) (p : Bytes) → is_none (entry_at p src) ≡ true → Lacks src p
is_none_entry src p h = elim (Option-cases (lookup p src)) [
  | inl n ↦ n
  | inr (f, e) ↦ let false_is = rw e at h in absurd (ground arith)
]

deletes-Lacks :
    (src : Tree) (es : List Entry)
    → NodupKeys src
    → AllOf (Lacks src) (deletes (index (build_manifest src)) es)
unfolding deletes
deletes-Lacks src [] u = tt
deletes-Lacks src (e ∷ es) u = elim (Bool-cases (is_none (entry_at e.path src))) [
  | inl y ↦
      rw (lookup-index src e.path u, y, deletes)
        (is_none_entry src e.path y, deletes-Lacks src es u)
  | inr y ↦ rw (lookup-index src e.path u, y, deletes) (deletes-Lacks src es u)
]

actions-IsSound :
    (src : Tree) (cs ds : List Bytes)
    → AllOf (Has src) cs
    → AllOf (Lacks src) ds
    → AllOf (IsSound src) (map copy cs ++ map delete ds)
actions-IsSound src [] [] h k = tt
actions-IsSound src [] (d ∷ ds) h (k, ks) = (k, actions-IsSound src [] ds h ks)
actions-IsSound src (c ∷ cs) ds (h, hs) k = (h, actions-IsSound src cs ds hs k)

removed_if :
    (P : Bytes → Type 0) (ds : List Bytes) (del : Bool)
    → AllOf P ds
    → AllOf P (if del then ds else [])
removed_if P ds true h = h
removed_if P ds false h = tt

pub plan_sync-IsSound :
    (src dst : Tree) (del : Bool)
    → NodupKeys src
    → AllOf (IsSound src) (plan_sync (build_manifest src) (build_manifest dst) del)
unfolding plan_sync
plan_sync-IsSound src dst del u =
    let made =
      copies-Has src (index (build_manifest dst)) (build_manifest src) (manifest_stands src u) in
    let removed = deletes-Lacks src (build_manifest dst) u in
    actions-IsSound src (sort bytes_leb (copies (index (build_manifest dst)) (build_manifest src)))
      (sort bytes_leb
        (if del then deletes (index (build_manifest src)) (build_manifest dst) else []))
      (AllOf-sort bytes_leb (Has src) (copies (index (build_manifest dst)) (build_manifest src))
        made)
      (AllOf-sort bytes_leb (Lacks src)
        (if del then deletes (index (build_manifest src)) (build_manifest dst) else [])
        (removed_if (Lacks src) (deletes (index (build_manifest src)) (build_manifest dst)) del
          removed))
