-- ===== src/Sync/Command/Start.antt =====
-- examples/relay-sync/main.go: which command the arguments start, and what `push` and `pull` are given.
use relay_tunnel.Prelude.{
  ◌==◌, ◌||◌, ◌⊎◌, inl, inr, List, [], ◌∷◌, Bytes, codes, contains, if◌then◌else◌, bytes_eq, nat_eq,
}
use relay_tunnel.Sync.Command.{SplitResult, found, split_command}
use relay_tunnel.Sync.Command.Endpoint.{Usage, no_endpoint, wrong_arguments}

pub data Start : Type 0 where
  no_arguments show_example show_usage : Start
  refused : SplitResult → Start
  serve : List Bytes → Start
  synchronise : Bytes → List Bytes → Start
  nothing : Start

abbrev pub start_command : SplitResult → Start
start_command (found command args) =
    if command == codes "serve"
    then serve args
    else if command == codes "push" || command == codes "pull"
    then synchronise command args
    else nothing
start_command r = refused r

-- `main`, of the arguments after the program's name.
unfoldable pub start : List Bytes → Start
unfolding split_command
start [] = no_arguments
start (word ∷ rest) =
    if contains (codes "example-config" ∷ codes "-example-config" ∷ codes "--example-config" ∷ [])
      word
    then show_example
    else if contains (codes "-h" ∷ codes "--help" ∷ codes "help" ∷ []) word
    then show_usage
    else start_command (split_command (word ∷ rest))

abbrev pub source_and_target : List Bytes → Usage ⊎ (Bytes × Bytes)
source_and_target (source ∷ target ∷ []) = inr (source, target)
source_and_target _ = inl wrong_arguments

-- `cmdSync`, up to its loop: the source and the target, of the endpoint and of the arguments.
unfoldable pub cmd_sync : Bytes × Bytes → List Bytes → Usage ⊎ (Bytes × Bytes)
cmd_sync (server, code) rest =
    if server == [] || code == [] then inl no_endpoint else source_and_target rest
