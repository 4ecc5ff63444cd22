-- ===== src/Sync/Pass/Listed.antt =====
-- examples/relay-sync/client.go: the files that the manifests of a pass have, and its plan.
use relay_tunnel.Prelude.{
  Bool, true, none, some, List, [], ◌∷◌, Bytes, lookup, erase, nat_eq, bytes_eq, if◌then◌else◌, ◌≡◌,
  refl, sym, ◌∙◌, inl, inr, arith, AllOf, NodupKeys, lookup-retain_by_key, retain-NodupKeys,
  Bool-cases, false,
}
use relay_tunnel.Sync.Files.{File, Tree, build_manifest}
use relay_tunnel.Sync.Plan.{Action, copy, delete, plan_sync}
use relay_tunnel.Sync.Plan.Sound.{IsSound, plan_sync-IsSound}
use relay_tunnel.Sync.Pass.{
  SyncOpts, Outcome, done, refused, broken, written, apply, break_off, perform, is_listed,
  listed_tree, sync,
}

-- What is done only reads files of the source that its manifest has.
perform_within :
    (src t : Tree) (actions : List Action) (os : List Outcome) (dst : Tree)
    → ((p : Bytes) (f : File) → lookup p t ≡ some f → lookup p src ≡ some f)
    → AllOf (IsSound t) actions
    → perform src actions os dst ≡ perform t actions os dst
unfolding perform apply break_off
perform_within src t [] os dst k s = refl
perform_within src t (a ∷ more) [] dst k s = refl
perform_within src t (a ∷ more) (refused ∷ os) dst k s = refl
perform_within src t (copy p ∷ more) (done now ∷ os) dst k ((f, e), s) =
    rw (e, k p f e) (perform_within src t more os (written p now dst (some f)) k s)
perform_within src t (delete p ∷ more) (done now ∷ os) dst k (e, s) =
    perform_within src t more os (erase p dst) k s
perform_within src t (copy p ∷ more) (broken n time ∷ os) dst k ((f, e), s) = rw (e, k p f e) refl
perform_within src t (delete p ∷ more) (broken n time ∷ os) dst k (e, s) = refl

module _ (match_string : Bytes → Bytes → Bool) (path_base : Bytes → Bytes) where
  pub lookup-listed_tree :
      (use_gitignore : Bool) (t : Tree) (q : Bytes)
      → lookup q (listed_tree match_string path_base use_gitignore t)
        ≡ (if is_listed match_string path_base use_gitignore t q then lookup q t else none)
  unfolding listed_tree
  lookup-listed_tree use_gitignore t q =
      lookup-retain_by_key (is_listed match_string path_base use_gitignore t) q t

  pub listed_tree-some :
      (use_gitignore : Bool) (t : Tree) (q : Bytes) (f : File)
      → lookup q (listed_tree match_string path_base use_gitignore t) ≡ some f
      → (is_listed match_string path_base use_gitignore t q ≡ true) × (lookup q t ≡ some f)
  listed_tree-some use_gitignore t q f h =
      let cut = sym (lookup-listed_tree use_gitignore t q) ∙ h in
      elim (Bool-cases (is_listed match_string path_base use_gitignore t q)) [
        | inl e ↦ (e, rw e at cut)
        | inr e ↦ let none_is = rw e at cut in absurd (ground arith)
      ]

  pub listed_tree-NodupKeys :
      (use_gitignore : Bool) (t : Tree)
      → NodupKeys t
      → NodupKeys (listed_tree match_string path_base use_gitignore t)
  unfolding listed_tree
  listed_tree-NodupKeys use_gitignore t u =
      retain-NodupKeys (λ p _. is_listed match_string path_base use_gitignore t p) t u

  -- The plan of a pass.
  abbrev pub plan_of : SyncOpts → Tree → Tree → List Action
  plan_of opts src dst =
      plan_sync (build_manifest (listed_tree match_string path_base opts.gitignore src))
        (build_manifest (listed_tree match_string path_base opts.gitignore dst)) opts.del

  pub plan_of-IsSound :
      (opts : SyncOpts) (src dst : Tree)
      → NodupKeys src
      → AllOf
          (IsSound (listed_tree match_string path_base opts.gitignore src))
          (plan_of opts src dst)
  plan_of-IsSound opts src dst u =
      plan_sync-IsSound (listed_tree match_string path_base opts.gitignore src)
        (listed_tree match_string path_base opts.gitignore dst) opts.del
        (listed_tree-NodupKeys opts.gitignore src u)

  pub sync_wet :
      (opts : SyncOpts) (src dst : Tree) (os : List Outcome)
      → NodupKeys src
      → opts.dry_run ≡ false
      → sync match_string path_base opts src dst os
        ≡ perform
            (listed_tree match_string path_base opts.gitignore src)
            (plan_of opts src dst)
            os
            dst
  unfolding sync
  sync_wet opts src dst os u wet = rw wet (
      perform_within src (listed_tree match_string path_base opts.gitignore src)
        (plan_of opts src dst) os dst (λ p f h. (listed_tree-some opts.gitignore src p f h).1)
        (plan_of-IsSound opts src dst u))
