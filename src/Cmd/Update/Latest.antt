-- ===== src/Cmd/Update/Latest.antt =====
-- cmd/relay-tunnel/update.go: the release that `selfUpdate` chooses, and what it installs. `fetched`
-- is what the download of a file of a release gives, by the release's tag and the file's name.
use relay_tunnel.Prelude.{
  Bool, true, false, ◌==◌, ◌≡◌, refl, Option, none, some, [], ◌∷◌, ◌++◌, Bytes, codes,
  if◌then◌else◌, bytes_eq, nat_eq,
}
use relay_tunnel.Cmd.Update.{Release, release_version, Files, Calls, download_and_replace}
use relay_tunnel.Cmd.Update.Verified.{Installs, download_and_replace_lem}

abbrev pub app_name : Bytes
app_name = codes "relay-tunnel"

-- `updateAssetName`, of `runtime.GOOS` and `runtime.GOARCH`
unfoldable pub update_asset_name : (os arch : Bytes) → Bytes
update_asset_name os arch =
    let name = app_name ++ (codes "-" ++ (os ++ (codes "-" ++ arch))) in
    if os == codes "windows" then name ++ codes ".exe" else name

-- `latestRelease`, of the answer of the API; `unmarshal` is encoding/json.
unfoldable pub latest_release : (Bytes → Option Release) → Option Bytes → Option Release
latest_release unmarshal none = none
latest_release unmarshal (some body) = elim (unmarshal body) [
  | none ↦ none
  | some rel ↦ if rel.tag_name == [] then none else some rel
]

-- The tag to download from, with its label; a release of none is one that could not be found, and a
-- choice of none is that the latest one is running.
pub data Choice : Type 0 where
  no_release already_latest : Choice
  chosen : (tag label : Bytes) → Choice

unfoldable pub choose : (version tag : Bytes) → Option Release → Choice
unfolding release_version
choose version [] none = no_release
choose version [] (some rel) =
    if release_version rel == version
    then already_latest
    else chosen rel.tag_name (release_version rel)
choose version (t ∷ ts) latest = chosen (t ∷ ts) (t ∷ ts)

module _ (sha256 : Bytes → Bytes) (asset : Bytes) (fetched : Bytes → Bytes → Option Bytes)
    (c : Calls) where
  -- After the choice: the files, and whether there was no error.
  unfoldable pub install : Choice → Files → Files × Bool
  unfolding download_and_replace
  install no_release fs = (fs, false)
  install already_latest fs = (fs, true)
  install (chosen tag label) fs =
      download_and_replace sha256 asset (fetched tag (codes "SHA256SUMS")) (fetched tag asset) c fs

  -- `selfUpdate`, of the executable that was found and its links resolved.
  unfoldable pub self_update : (version tag : Bytes) → Option Release → Files → Files × Bool
  unfolding choose install
  self_update version tag latest fs = install (choose version tag latest) fs

  -- What each choice makes of the files.
  abbrev pub Updates : Bytes → Files → Choice → Files × Bool → Type 0
  Updates old fs no_release r = r ≡ (fs, false)
  Updates old fs already_latest r = r ≡ (fs, true)
  Updates old fs (chosen tag label) r =
      Installs sha256 asset (fetched tag (codes "SHA256SUMS")) (fetched tag asset) old c r

  install-Updates :
      (old : Bytes) (fs : Files) (k : Choice) → fs.exe ≡ some old → Updates old fs k (install k fs)
  unfolding install
  install-Updates old fs no_release e = refl
  install-Updates old fs already_latest e = refl
  install-Updates old fs (chosen tag label) e =
      (download_and_replace_lem sha256 asset old c fs (fetched tag (codes "SHA256SUMS"))
        (fetched tag asset) e).1

  -- An update of an executable that exists changes nothing if no release was found or the latest one is
  -- running. Otherwise both downloads are those of the chosen tag, and the new executable is the download
  -- with the listed digest, or the old one is kept, or is the backup.
  pub self_update_lem :
      (version tag old : Bytes) (latest : Option Release) (fs : Files)
      → fs.exe ≡ some old
      → Updates old fs (choose version tag latest) (self_update version tag latest fs)
  unfolding self_update
  self_update_lem version tag old latest fs e = install-Updates old fs (choose version tag latest) e
