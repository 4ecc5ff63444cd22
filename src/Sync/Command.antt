-- ===== src/Sync/Command.antt =====
-- examples/relay-sync/main.go: `splitCommand`, which takes the command out of the arguments.
pub mod Split
pub mod Endpoint
pub mod Start
pub mod Positional
use relay_tunnel.Prelude.{
  ℕ, Bool, true, false, not, ◌||◌, ◌&&◌, ◌==◌, List, [], ◌∷◌, Bytes, codes, contains, if◌then◌else◌,
  nat_eq, bytes_eq,
}
use relay_tunnel.App.Host.{has_prefix}

abbrev pub commands : List Bytes
commands = codes "serve" ∷ codes "push" ∷ codes "pull" ∷ []

abbrev pub value_flags : List Bytes
value_flags = codes "config" ∷ codes "server" ∷ codes "code" ∷ codes "retry" ∷ []

-- `strings.TrimLeft arg "-"`
unfoldable pub trim_dashes : Bytes → Bytes
trim_dashes [] = []
trim_dashes (c ∷ cs) = let rest = trim_dashes cs in if c == 45 then rest else c ∷ cs

-- `strings.Cut arg "="`: what is before the first equals sign, and whether there is one.
unfoldable pub cut_equals : Bytes → Bytes × Bool
cut_equals [] = ([], false)
cut_equals (c ∷ cs) =
    let rest = cut_equals cs in if c == 61 then ([], true) else (c ∷ rest.0, rest.1)

unfoldable pub flag_name : Bytes → Bytes × Bool
unfolding trim_dashes cut_equals has_prefix
flag_name arg =
    if not (has_prefix arg (codes "-")) || arg == codes "-" || arg == codes "--"
    then ([], false)
    else cut_equals (trim_dashes arg)

-- The next argument is the value of this one.
unfoldable pub takes_value : Bytes → Bool
unfolding flag_name
takes_value a =
    let (name, attached) = flag_name a in
    not (name == []) && not attached && contains value_flags name

abbrev pub is_empty : List Bytes → Bool
is_empty [] = true
is_empty (_ ∷ _) = false

-- What the loop has found: the command, and whether the next argument is a value.
pub record Scan : Type 0 where
  pub command : Bytes
  pub skip_value : Bool
  pub keep : Bool

abbrev pub scan_arg : Bytes → Bool → Bytes → Bool → Scan
scan_arg command skip_value a is_last =
    if skip_value
    then record { command = command; skip_value = false; keep = true }
    else if command == [] && contains commands a
    then record { command = a; skip_value = false; keep = false }
    else record { command = command; skip_value = takes_value a && not is_last; keep = true }

-- The loop, and the arguments that it keeps.
unfoldable pub scan_args : Bytes → Bool → List Bytes → Bytes × List Bytes
unfolding takes_value
scan_args command skip_value [] = (command, [])
scan_args command skip_value (a ∷ args) =
    let s = scan_arg command skip_value a (is_empty args) in
    let rest = scan_args s.command s.skip_value args in
    (rest.0, if s.keep then a ∷ rest.1 else rest.1)

-- A slice without arguments makes it panic, where it reads the first one for its error.
pub data SplitResult : Type 0 where
  found : Bytes → List Bytes → SplitResult
  no_command : Bytes → SplitResult
  unknown_command : Bytes → SplitResult
  panicked : SplitResult

abbrev pub not_found : List Bytes → SplitResult
not_found [] = panicked
not_found (a ∷ _) = if has_prefix a (codes "-") then no_command a else unknown_command a

unfoldable pub split_command : List Bytes → SplitResult
unfolding scan_args has_prefix
split_command args =
    let s = scan_args [] false args in if s.0 == [] then not_found args else found s.0 s.1
