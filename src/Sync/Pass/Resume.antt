-- ===== src/Sync/Pass/Resume.antt =====
-- examples/relay-sync/client.go and main.go, `cmdSync`: a pass after passes that broke off.

use relay_tunnel.Prelude.{
  Option, none, some, Bool, true, false, ◌||◌, ◌&&◌, List, [], ◌∷◌, map, Bytes, lookup, nat_eq,
  bytes_eq, ◌≡◌, ◌⊎◌, inl, inr, refl, ◌∙◌, contains, NodupKeys, Bool-cases,
}
use relay_tunnel.Sync.Files.{File, Tree}
use relay_tunnel.Sync.Plan.Paths.{path_of, contains-plan_sync}
use relay_tunnel.Sync.Plan.Index.{copied, deleted}
use relay_tunnel.Sync.Pass.{SyncOpts, Outcome, perform, sync, is_listed, listed_tree}
use relay_tunnel.Sync.Pass.Mirror.{AllDated, AllAgree}
use relay_tunnel.Sync.Pass.Listed.{plan_of, plan_of-IsSound, sync_wet, listed_tree-NodupKeys}
use relay_tunnel.Sync.Pass.Keeps.{
  perform-NodupKeys, perform-Agrees, perform_elsewhere, perform_absent,
}

-- A file that the source does not list is as it was, or gone if files are deleted.
abbrev pub Left : Bool → Option File → Option File → Type 0
Left del o o' = (o' ≡ o) ⊎ ((del ≡ true) × (o' ≡ none))

-- What is to be under a path at last: the file that the source lists, and otherwise what was there
-- before all passes, unless files are deleted. Then it is gone, but for a file that the destination
-- does not list, which may be as it was before all passes.
abbrev pub IsMirrored : Bool → Bool → Option File → Option File → Option File → Type 0
IsMirrored del listed (some f) o' o″ = o″ ≡ some f
IsMirrored false listed none o' o″ = o″ ≡ o'
IsMirrored true listed none o' o″ = (o″ ≡ none) ⊎ ((listed ≡ false) × (o″ ≡ o'))

module _ (match_string : Bytes → Bytes → Bool) (path_base : Bytes → Bytes) (opts : SyncOpts)
    (src : Tree) where
  -- The files that the source lists, and whether a destination lists a path.
  abbrev pub wanted : Tree
  wanted = listed_tree match_string path_base opts.gitignore src

  abbrev pub lists : Tree → Bytes → Bool
  lists dst q = is_listed match_string path_base opts.gitignore dst q

  -- What every pass keeps, whether it ends or breaks off.
  abbrev pub Keeps : Tree → Tree → Type 0
  Keeps dst dst' =
      NodupKeys dst'
      × AllAgree wanted dst'
      × ((q : Bytes) → lookup q wanted ≡ none → Left opts.del (lookup q dst) (lookup q dst'))

  pub planned :
      (dst : Tree) (q : Bytes)
      → NodupKeys src
      → NodupKeys dst
      → contains (map path_of (plan_of match_string path_base opts src dst)) q ≡ (
          copied q
            (lookup q wanted)
            (lookup q (listed_tree match_string path_base opts.gitignore dst))
          || opts.del
            && deleted q
                (lookup q wanted)
                (lookup q (listed_tree match_string path_base opts.gitignore dst)))
  planned dst q u v =
      contains-plan_sync wanted (listed_tree match_string path_base opts.gitignore dst)
        (listed_tree-NodupKeys match_string path_base opts.gitignore src u)
        (listed_tree-NodupKeys match_string path_base opts.gitignore dst v) q opts.del

  perform-Left :
      (dst : Tree) (os : List Outcome) (q : Bytes)
      → NodupKeys src
      → NodupKeys dst
      → AllDated wanted
      → lookup q wanted ≡ none
      → Left opts.del
          (lookup q dst)
          (lookup q (perform wanted (plan_of match_string path_base opts src dst) os dst).0)
  perform-Left dst os q u v dated absent =
      let actions = plan_of match_string path_base opts src dst in
      let sound = plan_of-IsSound match_string path_base opts src dst u in
      elim (Bool-cases opts.del) [
        | inl d ↦ elim (perform_absent wanted dated actions os dst q sound absent) [
          | inl e ↦ inl e
          | inr e ↦ inr (d, e)
        ]
        | inr d ↦ inl (
            perform_elsewhere wanted dated actions os dst q sound
              (planned dst q u v ∙ rw (absent, d) refl))
      ]

  pub sync-Keeps :
      (dst : Tree) (os : List Outcome)
      → NodupKeys src
      → NodupKeys dst
      → AllDated wanted
      → AllAgree wanted dst
      → opts.dry_run ≡ false
      → Keeps dst (sync match_string path_base opts src dst os).0
  sync-Keeps dst os u v dated same wet =
      let actions = plan_of match_string path_base opts src dst in
      let sound = plan_of-IsSound match_string path_base opts src dst u in
      rw (sync_wet match_string path_base opts src dst os u wet) (
        perform-NodupKeys wanted actions os dst v,
        λ q. perform-Agrees wanted dated actions os dst q sound (same q),
        λ q absent. perform-Left dst os q u v dated absent,
      )

  -- The passes that came before, one after the other.
  abbrev pub passes : Tree → List (List Outcome) → Tree
  passes dst [] = dst
  passes dst (os ∷ more) = passes (sync match_string path_base opts src dst os).0 more
