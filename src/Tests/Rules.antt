-- ===== src/Tests/Rules.antt =====
-- examples/relay-sync/gitignore.go: the lines of a .gitignore file.
use relay_tunnel.Prelude.{
  ◌≡◌, ◌↔◌, refl, true, false, Bool, none, some, List, [], ◌∷◌, ◌++◌, Bytes, codes, ◌==◌, nat_eq,
  bytes_eq, ℕ_discrete,
}
use relay_tunnel.App.Host.{has_prefix}
use relay_tunnel.Sync.Ignore.{
  IgnoreRule, trim_right_of, cut_slash, glob_loop, glob_to_regex, compile_ignore_line,
  load_ignore_rules, is_ignored,
}
use relay_tunnel.Sync.Ignore.Last.{Excluded, is_ignored_iff}

glob : glob_to_regex (codes "**/a*.o?") ≡ codes "^(?:.*/)?a[^/]*\\.o[^/]$"
unfolding glob_to_regex glob_loop nat_eq ℕ_discrete
glob = refl

rooted_directory :
    compile_ignore_line (codes "/out/ ") (codes "x")
    ≡ some (record {
      base = codes "x";
      negate = false;
      dir_only = true;
      anchored = true;
      re = codes "^out$";
    })
unfolding compile_ignore_line trim_right_of cut_slash glob_to_regex glob_loop has_prefix nat_eq
    bytes_eq ℕ_discrete
rooted_directory = refl

commented : compile_ignore_line (codes "# out") [] ≡ none
unfolding compile_ignore_line trim_right_of cut_slash glob_to_regex glob_loop has_prefix nat_eq
    bytes_eq ℕ_discrete
commented = refl

-- A stand-in for the regular expressions: those without wildcards.
abbrev match_string : Bytes → Bytes → Bool
match_string re t = re == codes "^" ++ (t ++ codes "$")

abbrev path_base : Bytes → Bytes
path_base t = t

abbrev out_rules : List IgnoreRule
out_rules = load_ignore_rules (codes "out" ∷ codes "!out" ∷ codes "out" ∷ []) []

is_ignored_iff_example :
    (is_ignored match_string path_base out_rules (codes "out") false ≡ true)
    ↔ Excluded match_string path_base (codes "out") false out_rules
is_ignored_iff_example = is_ignored_iff match_string path_base (codes "out") false out_rules
