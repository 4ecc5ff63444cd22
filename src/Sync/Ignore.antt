-- ===== src/Sync/Ignore.antt =====
-- examples/relay-sync/gitignore.go: the rules of .gitignore files. `match_string` is `MatchString` of the
-- regular expression with this source, and `path_base` is `path.Base`.
pub mod Last
use relay_tunnel.Prelude.{
  ℕ, zero, suc, Bool, true, false, not, ◌&&◌, ◌||◌, ◌==◌, Option, none, some, List, [], ◌∷◌, ◌++◌,
  Bytes, codes, contains, length, drop, ◌+◌, if◌then◌else◌, nat_eq, bytes_eq,
}
use relay_tunnel.App.Host.{has_prefix}

-- The field `re` is the source of the regular expression.
pub record IgnoreRule : Type 0 where
  pub base : Bytes
  pub negate : Bool
  pub dir_only : Bool
  pub anchored : Bool
  pub re : Bytes

-- `strings.TrimRight` of one character.
unfoldable pub trim_right_of : ℕ → Bytes → Bytes
trim_right_of c [] = []
trim_right_of c (x ∷ xs) =
    let rest = trim_right_of c xs in if rest == [] && x == c then [] else x ∷ rest

-- `strings.HasSuffix line "/"` with `strings.TrimSuffix`: the line without the slash, if it ends in one.
unfoldable pub cut_slash : Bytes → Option Bytes
cut_slash [] = none
cut_slash (x ∷ []) = if x == 47 then some [] else none
cut_slash (x ∷ y ∷ ys) = elim (cut_slash (y ∷ ys)) [ none ↦ none | some l ↦ some (x ∷ l) ]

abbrev pub escaped : ℕ → Bytes
escaped c = if contains (codes ".+()|^$[]{}\\") c then 92 ∷ c ∷ [] else c ∷ []

-- What "**" is written as before the rest of the glob, and how many characters follow the first "*".
abbrev pub two_stars : Bytes → Bytes × ℕ
two_stars [] = (codes ".*", 1)
two_stars (c ∷ _) = if c == 47 then (codes "(?:.*/)?", 2) else (codes ".*", 1)

abbrev pub stars : Bytes → Bytes × ℕ
stars [] = (codes "[^/]*", 0)
stars (c ∷ glob) = if c == 42 then two_stars glob else (codes "[^/]*", 0)

abbrev pub glob_piece : ℕ → Bytes → Bytes × ℕ
glob_piece c glob =
    if c == 42 then stars glob else if c == 63 then (codes "[^/]", 0) else (escaped c, 0)

-- The loop, which skips the characters of a piece that is written.
unfoldable pub glob_loop : ℕ → Bytes → Bytes
glob_loop skip [] = []
glob_loop (suc skip) (c ∷ glob) = glob_loop skip glob
glob_loop zero (c ∷ glob) = let piece = glob_piece c glob in piece.0 ++ glob_loop piece.1 glob

-- `globToRegex`
unfoldable pub glob_to_regex : Bytes → Bytes
unfolding glob_loop
glob_to_regex glob = codes "^" ++ (glob_loop 0 glob ++ codes "$")

abbrev pub strip_escape : Bytes → Bytes
strip_escape line =
    if has_prefix line (codes "\\#") || has_prefix line (codes "\\!") then drop 1 line else line

-- From the trailing slash on; `line` is without its negation and escape.
abbrev pub compile_pattern : Bytes → Bool → Bool → Bytes → Option IgnoreRule
compile_pattern base negate dir_only line =
    let pattern = if has_prefix line (codes "/") then drop 1 line else line in
    if pattern == []
    then none
    else some (record {
      base = base;
      negate = negate;
      dir_only = dir_only;
      anchored = contains line 47;
      re = glob_to_regex pattern;
    })

abbrev pub compile_slash : Bytes → Bool → Bytes → Option IgnoreRule
compile_slash base negate line = elim (cut_slash line) [
  | none ↦ compile_pattern base negate false line
  | some cut ↦ compile_pattern base negate true cut
]

-- `compileIgnoreLine`
unfoldable pub compile_ignore_line : Bytes → Bytes → Option IgnoreRule
unfolding trim_right_of cut_slash glob_to_regex has_prefix
compile_ignore_line text base =
    let line = trim_right_of 13 text in
    let pattern = trim_right_of 32 line in
    if line == [] || has_prefix line (codes "#")
    then none
    else if pattern == []
    then none
    else if has_prefix pattern (codes "!")
    then compile_slash base true (strip_escape (drop 1 pattern))
    else compile_slash base false (strip_escape pattern)

-- `loadIgnoreRules`, of the lines of the file.
unfoldable pub load_ignore_rules : List Bytes → Bytes → List IgnoreRule
unfolding compile_ignore_line
load_ignore_rules [] base = []
load_ignore_rules (line ∷ lines) base =
    let rest = load_ignore_rules lines base in
    elim (compile_ignore_line line base) [ none ↦ rest | some r ↦ r ∷ rest ]

module _ (match_string : Bytes → Bytes → Bool) (path_base : Bytes → Bytes) where
  abbrev pub matches_below : IgnoreRule → Bytes → Bool
  matches_below r sub =
      if r.anchored then match_string r.re sub else match_string r.re (path_base sub)

  -- `ignoreRule.matches`
  unfoldable pub matches : IgnoreRule → Bytes → Bool → Bool
  unfolding has_prefix
  matches r rel is_dir =
      if r.dir_only && not is_dir
      then false
      else if r.base == []
      then matches_below r rel
      else if has_prefix rel (r.base ++ codes "/")
      then matches_below r (drop (length r.base + 1) rel)
      else false

  -- The loop of `isIgnored`.
  unfoldable pub ignored_from : Bool → List IgnoreRule → Bytes → Bool → Bool
  unfolding matches
  ignored_from ignored [] rel is_dir = ignored
  ignored_from ignored (r ∷ rules) rel is_dir =
      ignored_from (if matches r rel is_dir then not r.negate else ignored) rules rel is_dir

  unfoldable pub is_ignored : List IgnoreRule → Bytes → Bool → Bool
  unfolding ignored_from
  is_ignored rules rel is_dir = ignored_from false rules rel is_dir
