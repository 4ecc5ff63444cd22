-- ===== src/Tests/Command.antt =====
-- examples/relay-sync/main.go: a command line, and attempts that fail.
use relay_tunnel.Prelude.{
  ℕ, ◌+◌, ◌*◌, ◌≡◌, ◌≢◌, ◌↔◌, refl, arith, true, false, List, [], ◌∷◌, ◌++◌, Bytes, codes, contains,
  nat_eq, bytes_eq, ℕ_discrete,
}
use relay_tunnel.App.Host.{has_prefix}
use relay_tunnel.Signal.State.{second}
use relay_tunnel.Sync.Command.{
  commands, trim_dashes, cut_equals, flag_name, takes_value, scan_args, found, no_command,
  split_command,
}
use relay_tunnel.Sync.Command.Split.{Passed, split_command_iff}
use relay_tunnel.Sync.Retry.{Attempt, running, run_with_retry, run_with_retry_ends}

abbrev config_push : List Bytes
config_push = codes "--config" ∷ codes "serve" ∷ codes "push" ∷ codes "src" ∷ []

-- The value of a flag is not taken for the command.
config_push_split :
    split_command config_push
    ≡ found (codes "push") (codes "--config" ∷ codes "serve" ∷ codes "src" ∷ [])
unfolding split_command scan_args takes_value flag_name cut_equals trim_dashes has_prefix nat_eq
    bytes_eq ℕ_discrete
config_push_split = refl

dry_split : split_command (codes "-n" ∷ []) ≡ no_command (codes "-n")
unfolding split_command scan_args takes_value flag_name cut_equals trim_dashes has_prefix nat_eq
    bytes_eq ℕ_discrete
dry_split = refl

split_command_iff_example :
    (split_command config_push
      ≡ found (codes "push") (codes "--config" ∷ codes "serve" ∷ codes "src" ∷ []))
    ↔ ((pre : List Bytes) × (post : List Bytes) × (config_push ≡ pre ++ (codes "push" ∷ post))
        × (codes "--config" ∷ codes "serve" ∷ codes "src" ∷ [] ≡ pre ++ post)
        × (contains commands (codes "push") ≡ true)
        × Passed false pre)
split_command_iff_example =
    split_command_iff config_push (codes "push")
      (codes "--config" ∷ codes "serve" ∷ codes "src" ∷ [])

abbrev missed : ℕ → Attempt
missed at = record { succeeded = false; at = at; cancelled = false; cancelled_waiting = false }

abbrev misses : List Attempt
misses =
    missed (1 + second)
    ∷ missed (3 + 2 * second)
    ∷ missed (4 + 5 * second)
    ∷ missed (4 + 9 * second)
    ∷ []

run_with_retry_ends_example : run_with_retry (2 * second) 1 misses ≢ running
run_with_retry_ends_example =
    run_with_retry_ends (2 * second) 1 misses
      (omega arith, (omega arith, (omega arith, (omega arith, tt)))) (omega arith)
