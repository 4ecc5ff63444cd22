-- ===== src/Sync/Plan/Paths.antt =====
-- examples/relay-sync/proto.go: the paths that a plan of two trees names.

use relay_tunnel.Prelude.{
  Bool, true, false, ◌||◌, ◌&&◌, ◌==◌, List, [], ◌∷◌, ◌++◌, map, Bytes, Dict, lookup, nat_eq,
  bytes_eq, ◌≡◌, refl, arith, ap, any, contains, NodupKeys,
}
use relay_tunnel.Prelude.Sort.{sort, bytes_leb, contains-sort}
use relay_tunnel.Sync.Files.{Entry, Tree, build_manifest}
use relay_tunnel.Sync.Plan.{
  Action, copy, delete, index, differs, copies, is_none, deletes, plan_sync,
}
use relay_tunnel.Sync.Plan.Index.{entry_at, lookup-index, any-manifest, is_copied, is_deleted}

contains-copies :
    (idx : Dict Bytes Entry) (q : Bytes) (es : List Entry)
    → contains (copies idx es) q ≡ any (λ e. q == e.path && differs e (lookup q idx)) es
unfolding copies
contains-copies idx q [] = refl
contains-copies idx q (e ∷ es) = ground (arith, contains-copies idx q es)

contains-deletes :
    (idx : Dict Bytes Entry) (q : Bytes) (es : List Entry)
    → contains (deletes idx es) q ≡ any (λ e. q == e.path && is_none (lookup q idx)) es
unfolding deletes
contains-deletes idx q [] = refl
contains-deletes idx q (e ∷ es) = ground (arith, contains-deletes idx q es)

abbrev pub path_of : Action → Bytes
path_of (copy p) = p
path_of (delete p) = p

contains-copy :
    (ps : List Bytes) (q : Bytes) → contains (map path_of (map copy ps)) q ≡ contains ps q
contains-copy [] q = refl
contains-copy (p ∷ ps) q = ap (λ b. q == p || b) (contains-copy ps q)

contains-delete :
    (ps : List Bytes) (q : Bytes) → contains (map path_of (map delete ps)) q ≡ contains ps q
contains-delete [] q = refl
contains-delete (p ∷ ps) q = ap (λ b. q == p || b) (contains-delete ps q)

contains-append :
    (xs ys : List Action) (q : Bytes)
    → contains (map path_of (xs ++ ys)) q
      ≡ (contains (map path_of xs) q || contains (map path_of ys) q)
contains-append [] ys q = refl
contains-append (x ∷ xs) ys q = ground (arith, contains-append xs ys q)

contains-actions :
    (cs ds : List Bytes) (q : Bytes)
    → contains (map path_of (map copy (sort bytes_leb cs) ++ map delete (sort bytes_leb ds))) q
      ≡ (contains cs q || contains ds q)
contains-actions cs ds q =
    rw
      (
        contains-append (map copy (sort bytes_leb cs)) (map delete (sort bytes_leb ds)) q,
        contains-copy (sort bytes_leb cs) q,
        contains-delete (sort bytes_leb ds) q,
        contains-sort bytes_leb q cs,
        contains-sort bytes_leb q ds,
      )
      refl

module _ (src dst : Tree) (u : NodupKeys src) (v : NodupKeys dst) (q : Bytes) where
  planned_copies :
      contains (copies (index (build_manifest dst)) (build_manifest src)) q ≡ is_copied src dst q
  planned_copies =
      rw (contains-copies (index (build_manifest dst)) q (build_manifest src), lookup-index dst q v)
        (any-manifest (λ e. differs e (entry_at q dst)) q src u)

  planned_deletes :
      contains (deletes (index (build_manifest src)) (build_manifest dst)) q ≡ is_deleted src dst q
  planned_deletes =
      rw
        (contains-deletes (index (build_manifest src)) q (build_manifest dst), lookup-index src q u)
        (any-manifest (λ e. is_none (entry_at q src)) q dst v)

  -- A plan of two trees names exactly the files of the source that are missing at the destination or
  -- differ there in size or modification time, and, if files are deleted, those of the destination that
  -- the source does not have.
  pub contains-plan_sync :
      (del : Bool)
      → contains (map path_of (plan_sync (build_manifest src) (build_manifest dst) del)) q
        ≡ (is_copied src dst q || del && is_deleted src dst q)
  unfolding plan_sync
  contains-plan_sync true =
      rw
        (
          contains-actions (copies (index (build_manifest dst)) (build_manifest src))
              (deletes (index (build_manifest src)) (build_manifest dst)) q,
          planned_copies,
          planned_deletes,
        )
        refl
  contains-plan_sync false =
      rw
        (
          contains-actions (copies (index (build_manifest dst)) (build_manifest src)) [] q,
          planned_copies,
        )
        refl
