-- ===== src/Sync/Pass.antt =====
-- examples/relay-sync/client.go: `push` and `pull`, which differ in the side that each tree is on. The
-- source does not change during a pass, and what becomes of each step is given.
pub mod Listed
pub mod Mirror
pub mod Keeps
pub mod Resume
pub mod Settled
use relay_tunnel.Prelude.{
  ℕ, Option, none, some, Bool, true, false, List, [], ◌∷◌, Bytes, take, lookup, insert, erase,
  bytes_eq, if◌then◌else◌, retain,
}
use relay_tunnel.Sync.Files.{Tree, File, build_manifest, is_positive}
use relay_tunnel.Signal.Admin.Password.{split}
use relay_tunnel.Sync.Walk.{walk_to}
use relay_tunnel.Sync.Plan.{Action, copy, delete, plan_sync}

pub record SyncOpts : Type 0 where
  pub del : Bool
  pub dry_run : Bool
  pub gitignore : Bool

-- A step is done, at a time that a new file gets by itself. Or it returns an error, and the pass with
-- it: before anything was changed, or after some bytes were written, or the file was removed, or all
-- was done and the reply was lost.
pub data Outcome : Type 0 where
  done : ℕ → Outcome
  refused : Outcome
  broken : ℕ → ℕ → Outcome

-- `Chtimes` is called only with a positive modification time.
abbrev pub kept_mtime : ℕ → ℕ → ℕ
kept_mtime now m = if is_positive m then m else now

abbrev pub written : Bytes → ℕ → Tree → Option File → Tree
written p now dst none = dst
written p now dst (some f) =
    insert p (record { content = f.content; mtime = kept_mtime now f.mtime }) dst

-- One action that is done: `putFile` with `hostPut`, or `hostGet` with `getFile`, or a removal.
unfoldable pub apply : Tree → ℕ → Action → Tree → Tree
apply src now (copy p) dst = written p now dst (lookup p src)
apply src now (delete p) dst = erase p dst

abbrev pub written_part : Bytes → ℕ → ℕ → Tree → Option File → Tree
written_part p n time dst none = dst
written_part p n time dst (some f) =
    insert p (record { content = take n f.content; mtime = time }) dst

-- One action that broke off after `n` bytes, and the time that the file has then.
unfoldable pub break_off : Tree → ℕ → ℕ → Action → Tree → Tree
break_off src n time (copy p) dst = written_part p n time dst (lookup p src)
break_off src n time (delete p) dst = erase p dst

-- The loop over the actions, and whether it came to its end.
unfoldable pub perform : Tree → List Action → List Outcome → Tree → Tree × Bool
unfolding apply break_off
perform src [] os dst = (dst, true)
perform src (a ∷ more) [] dst = (dst, false)
perform src (a ∷ more) (done now ∷ os) dst = perform src more os (apply src now a dst)
perform src (a ∷ more) (refused ∷ os) dst = (dst, false)
perform src (a ∷ more) (broken n time ∷ os) dst = (break_off src n time a dst, false)

-- The paths of a tree as they are below the directory of the tree.
abbrev pub rooted : Tree → Tree
rooted [] = []
rooted ((p, f) ∷ t) = (47 ∷ p, f) ∷ rooted t

abbrev pub is_found : Option Bytes → Bool
is_found none = false
is_found (some p) = true

module _ (match_string : Bytes → Bytes → Bool) (path_base : Bytes → Bytes) where
  -- Whether the walk over the directory of a tree, with its .gitignore files or without, comes to a path.
  unfoldable pub is_listed : Bool → Tree → Bytes → Bool
  unfolding walk_to split
  is_listed use_gitignore t p =
      is_found (walk_to match_string path_base 47 use_gitignore (rooted t) [] [] [] (split 47 p))

  -- The files of a tree that a manifest of its directory has.
  unfoldable pub listed_tree : Bool → Tree → Tree
  unfolding is_listed
  listed_tree use_gitignore t = retain (λ p _. is_listed use_gitignore t p) t

  -- `push` and `pull`: both manifests, the plan, and the loop over its actions.
  unfoldable pub sync : SyncOpts → Tree → Tree → List Outcome → Tree × Bool
  unfolding perform build_manifest plan_sync listed_tree
  sync opts src dst os =
      let source = build_manifest (listed_tree opts.gitignore src) in
      let destination = build_manifest (listed_tree opts.gitignore dst) in
      let actions = plan_sync source destination opts.del in
      if opts.dry_run then (dst, true) else perform src actions os dst
