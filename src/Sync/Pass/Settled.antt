-- ===== src/Sync/Pass/Settled.antt =====
-- examples/relay-sync/client.go: a pass that ended leaves a next plan nothing to do.
use mathlib.Core.Bool.{and-false}
use relay_tunnel.Prelude.{
  Option, none, some, Bool, true, false, ◌||◌, ◌&&◌, List, [], ◌∷◌, map, Bytes, lookup, nat_eq,
  bytes_eq, ◌≡◌, inl, inr, refl, ap, ◌∙◌, arith, contains, length, NodupKeys, ==-self, Bool-cases,
  Option-cases,
}
use relay_tunnel.Sync.Files.{File, Tree}
use relay_tunnel.Sync.Plan.{Action}
use relay_tunnel.Sync.Plan.Paths.{path_of}
use relay_tunnel.Sync.Plan.Index.{copied, deleted}
use relay_tunnel.Sync.Pass.{SyncOpts, Outcome, sync, listed_tree}
use relay_tunnel.Sync.Pass.Mirror.{and_true, overlay, AllDated, AllAgree, sync_mirrors}
use relay_tunnel.Sync.Pass.Listed.{plan_of, lookup-listed_tree}
use relay_tunnel.Sync.Pass.Resume.{wanted, lists, planned, sync-Keeps}

no_actions :
    (actions : List Action)
    → ((q : Bytes) → contains (map path_of actions) q ≡ false)
    → actions ≡ []
no_actions [] h = refl
no_actions (a ∷ more) h =
    let first = rw (==-self (path_of a)) at (h (path_of a)) in absurd (ground arith)

nothing_due :
    (del : Bool) (q : Bytes) (o o' o″ : Option File)
    → o″ ≡ overlay del o o'
    → (copied q o o″ || del && deleted q o o″) ≡ false
nothing_due true q none o' o″ h = rw h refl
nothing_due false q none o' o″ h = refl
nothing_due del q (some f) o' o″ h =
    rw (h, ==-self (length f.content), ==-self f.mtime) (and-false del)

hidden_due : (del : Bool) (q : Bytes) → (copied q none none || del && deleted q none none) ≡ false
hidden_due del q = and-false del

module _ (match_string : Bytes → Bytes → Bool) (path_base : Bytes → Bytes) (opts : SyncOpts)
    (src : Tree) where
  -- What the next plan would do under a path.
  settled_at :
      (dst next : Tree) (q : Bytes)
      → lookup q next
        ≡ overlay
            (opts.del && lists match_string path_base opts src dst q)
            (lookup q (wanted match_string path_base opts src))
            (lookup q dst)
      → lists match_string path_base opts src next q ≡ lists match_string path_base opts src dst q
      → ((f : File)
          → lookup q (wanted match_string path_base opts src) ≡ some f
          → lists match_string path_base opts src dst q ≡ true)
      → (copied q
            (lookup q (wanted match_string path_base opts src))
            (lookup q (listed_tree match_string path_base opts.gitignore next))
          || opts.del
            && deleted q
                (lookup q (wanted match_string path_base opts src))
                (lookup q (listed_tree match_string path_base opts.gitignore next)))
        ≡ false
  settled_at dst next q made steady covers =
      elim (Bool-cases (lists match_string path_base opts src dst q)) [
        | inl l ↦
            rw (lookup-listed_tree match_string path_base opts.gitignore next q, steady, l)
              (nothing_due opts.del q (lookup q (wanted match_string path_base opts src))
                (lookup q dst) (lookup q next)
                (made
                  ∙ ap
                      (λ d.
                        overlay d (lookup q (wanted match_string path_base opts src))
                          (lookup q dst))
                      (ap (λ b. opts.del && b) l ∙ and_true opts.del)))
        | inr l ↦ elim (Option-cases (lookup q (wanted match_string path_base opts src))) [
          | inl e ↦
              rw (lookup-listed_tree match_string path_base opts.gitignore next q, steady, l, e)
                (hidden_due opts.del q)
          | inr (f, e) ↦ absurd (ground (arith, l, covers f e))
        ]
      ]

  -- After a pass that ends without an error, a next plan has no actions: where the destination lists
  -- after the pass the same paths as before it, and all those that the source lists, as it does when no
  -- .gitignore rules are used or those of both sides agree; the trees list each path once, the times
  -- of the files that the source lists are positive, a file of equal size and time is equal, and it
  -- is not a dry run.
  pub plan_sync_settled :
      (dst : Tree) (os : List Outcome)
      → NodupKeys src
      → NodupKeys dst
      → AllDated (wanted match_string path_base opts src)
      → AllAgree (wanted match_string path_base opts src) dst
      → opts.dry_run ≡ false
      → (sync match_string path_base opts src dst os).1 ≡ true
      → ((q : Bytes)
          → lists match_string path_base opts src (sync match_string path_base opts src dst os).0 q
            ≡ lists match_string path_base opts src dst q)
      → ((q : Bytes) (f : File)
          → lookup q (wanted match_string path_base opts src) ≡ some f
          → lists match_string path_base opts src dst q ≡ true)
      → plan_of match_string path_base opts src (sync match_string path_base opts src dst os).0 ≡ []
  plan_sync_settled dst os u v dated same wet h steady covers =
      let (v', same', left) =
        sync-Keeps match_string path_base opts src dst os u v dated same wet in
      let next = (sync match_string path_base opts src dst os).0 in
      no_actions (plan_of match_string path_base opts src next) (λ q.
        planned match_string path_base opts src next q u v'
        ∙ settled_at dst next q
            (sync_mirrors match_string path_base opts src dst os q u v dated same wet h) (steady q)
            (covers q))
