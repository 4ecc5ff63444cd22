-- ===== src/Cmd/Update.antt =====
-- cmd/relay-tunnel/update.go: the choice of the release and its checksum, and the replacement of the
-- running binary. `sha256` is `hex.EncodeToString` of the digest.
pub mod Verified
pub mod Latest
use relay_tunnel.Prelude.{
  ℕ, Bool, true, false, not, ◌&&◌, ◌||◌, ◌==◌, Option, none, some, List, [], ◌∷◌, ◌++◌, Bytes,
  codes, if◌then◌else◌, bytes_eq, nat_eq,
}
use relay_tunnel.Signal.Admin.{is_space, to_lower}
use relay_tunnel.Signal.Admin.Password.{split, push}

abbrev pub drop_empty : List Bytes → List Bytes
drop_empty [] = []
drop_empty ([] ∷ ps) = drop_empty ps
drop_empty ((c ∷ cs) ∷ ps) = (c ∷ cs) ∷ drop_empty ps

-- The parts between spaces, some of them empty.
unfoldable pub space_parts : Bytes → List Bytes
space_parts [] = [] ∷ []
space_parts (c ∷ cs) = let rest = space_parts cs in if is_space c then [] ∷ rest else push c rest

-- `strings.Fields`, on ASCII. Spaces around the text make no field, so it is that of
-- `strings.TrimSpace` as well.
unfoldable pub fields : Bytes → List Bytes
unfolding space_parts
fields t = drop_empty (space_parts t)

pub record Release : Type 0 where
  pub tag_name : Bytes
  pub name : Bytes

abbrev first_or : Bytes → List Bytes → Bytes
first_or d [] = d
first_or d (f ∷ _) = f

-- `release.version`
unfoldable pub release_version : Release → Bytes
unfolding fields
release_version r = first_or r.tag_name (fields r.name)

-- `strings.TrimPrefix name "*"`
abbrev pub trim_star : Bytes → Bytes
trim_star [] = []
trim_star (c ∷ cs) = if c == 42 then cs else c ∷ cs

-- The digest of a line that lists the asset.
abbrev pub listed : Bytes → List Bytes → Option Bytes
listed asset (digest ∷ name ∷ []) = if trim_star name == asset then some (to_lower digest) else none
listed asset _ = none

unfoldable pub checksum_in : Bytes → List Bytes → Option Bytes
unfolding fields to_lower
checksum_in asset [] = none
checksum_in asset (line ∷ lines) =
    let rest = checksum_in asset lines in
    elim (listed asset (fields line)) [ none ↦ rest | some digest ↦ some digest ]

-- `checksumFor`; none is its error.
unfoldable pub checksum_for : Bytes → Bytes → Option Bytes
unfolding checksum_in split
checksum_for sums asset = checksum_in asset (split 10 sums)

-- The files that a replacement touches: the executable, the backup and the staging file.
pub record Files : Type 0 where
  pub exe : Option Bytes
  pub backup : Option Bytes
  pub staged : Option Bytes

-- Which of the calls succeed. `partly` is what a failed write leaves in the staging file.
pub record Calls : Type 0 where
  pub created : Bool
  pub written : Bool
  pub partly : Bytes
  pub closed : Bool
  pub moded : Bool
  pub cleared : Bool
  pub moved_aside : Bool
  pub moved_in : Bool
  pub put_back : Bool
  pub backup_removed : Bool
  pub staged_removed : Bool

-- The deferred removal of the staging file.
abbrev pub unstage : Calls → Files → Files
unstage c fs = if c.staged_removed then record fs { staged = none } else fs

-- The two renames, and whether there is no error.
abbrev pub move_in : Calls → Files → Files × Bool
move_in c fs =
    if c.moved_in
    then (
      record {
        exe = fs.staged;
        backup = if c.backup_removed then none else fs.backup;
        staged = none;
      },
      true,
    )
    else if c.put_back
    then (record fs { exe = fs.backup; backup = none }, false)
    else (fs, false)

abbrev pub move_aside : Calls → Files → Files × Bool
move_aside c fs =
    let cleared = if c.cleared then record fs { backup = none } else fs in
    if c.moved_aside
    then move_in c (record cleared { exe = none; backup = cleared.exe })
    else (cleared, false)

abbrev pub stage : Calls → Bytes → Files → Files × Bool
stage c binary fs =
    if not c.written
    then (record fs { staged = some c.partly }, false)
    else if not c.closed || not c.moded
    then (record fs { staged = some binary }, false)
    else move_aside c (record fs { staged = some binary })

-- `replaceExecutable`
unfoldable pub replace_executable : Calls → Bytes → Files → Files × Bool
replace_executable c binary fs =
    if not c.created then (fs, false) else let r = stage c binary fs in (unstage c r.0, r.1)

module _ (sha256 : Bytes → Bytes) where
  -- The binary of the release, if its checksum is the one listed.
  unfoldable pub verified : Bytes → Option Bytes → Option Bytes → Option Bytes
  unfolding checksum_for
  verified asset none o = none
  verified asset (some sums) o = elim (checksum_for sums asset) [
    | none ↦ none
    | some want ↦ elim o [
      | none ↦ none
      | some binary ↦ if sha256 binary == want then some binary else none
    ]
  ]

  -- `downloadAndReplace`, of what the two downloads give.
  unfoldable pub download_and_replace :
      Bytes → Option Bytes → Option Bytes → Calls → Files → Files × Bool
  unfolding verified replace_executable
  download_and_replace asset sums binary c fs = elim (verified asset sums binary) [
    | none ↦ (fs, false)
    | some b ↦ replace_executable c b fs
  ]
