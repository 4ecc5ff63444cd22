-- ===== src/Cmd/Update/Verified.antt =====
-- cmd/relay-tunnel/update.go: what an update leaves installed.
use relay_tunnel.Prelude.{
  Bool, true, false, ◌&&◌, ◌==◌, Option, none, some, ◌⊎◌, inl, inr, Bytes, bytes_eq, ◌≡◌, refl, sym,
  ap, ◌∙◌, Bool-cases, Option-cases, ==→eq,
}
use relay_tunnel.Cmd.Update.{
  Files, Calls, checksum_for, unstage, move_in, move_aside, stage, replace_executable, verified,
  download_and_replace,
}

-- The executable is the new binary; or it is the old one, which only where a rename and the way back
-- both failed is the backup instead.
abbrev pub Leaves : Bytes → Bytes → Calls → Files × Bool → Type 0
Leaves old binary c (fs, true) = fs.exe ≡ some binary
Leaves old binary c (fs, false) =
    (fs.exe ≡ some old) ⊎ ((c.moved_in ≡ false) × (c.put_back ≡ false) × (fs.backup ≡ some old))

abbrev pub all_done : Calls → Bool
all_done c = c.created && (c.written && (c.closed && (c.moded && (c.moved_aside && c.moved_in))))

unstage-Leaves :
    (old binary : Bytes) (c : Calls) (fs : Files) (b : Bool)
    → Leaves old binary c (fs, b)
    → Leaves old binary c (unstage c fs, b)
unstage-Leaves old binary c fs true h = elim (Bool-cases c.staged_removed) [
  | inl y ↦ rw y h
  | inr y ↦ rw y h
]
unstage-Leaves old binary c fs false h = elim (Bool-cases c.staged_removed) [
  | inl y ↦ rw y h
  | inr y ↦ rw y h
]

move_in-Leaves :
    (old binary : Bytes) (c : Calls) (fs : Files)
    → fs.backup ≡ some old
    → fs.staged ≡ some binary
    → ((move_in c fs).1 ≡ c.moved_in) × Leaves old binary c (move_in c fs)
move_in-Leaves old binary c fs e s = elim (Bool-cases c.moved_in) [
  | inl y ↦ rw y (refl, s)
  | inr y ↦ elim (Bool-cases c.put_back) [
    | inl z ↦ rw (y, z) (refl, inl e)
    | inr z ↦ rw (y, z) (refl, inr (refl, refl, e))
  ]
]

move_aside-Leaves :
    (old binary : Bytes) (c : Calls) (fs : Files)
    → fs.exe ≡ some old
    → fs.staged ≡ some binary
    → ((move_aside c fs).1 ≡ (c.moved_aside && c.moved_in)) × Leaves old binary c (move_aside c fs)
move_aside-Leaves old binary c fs e s = elim (Bool-cases c.cleared) [
  | inl x ↦ elim (Bool-cases c.moved_aside) [
    | inl y ↦
        rw (x, y) (move_in-Leaves old binary c (record fs { exe = none; backup = fs.exe }) e s)
    | inr y ↦ rw (x, y) (refl, inl e)
  ]
  | inr x ↦ elim (Bool-cases c.moved_aside) [
    | inl y ↦
        rw (x, y) (move_in-Leaves old binary c (record fs { exe = none; backup = fs.exe }) e s)
    | inr y ↦ rw (x, y) (refl, inl e)
  ]
]

stage-Leaves :
    (old binary : Bytes) (c : Calls) (fs : Files)
    → fs.exe ≡ some old
    → ((stage c binary fs).1
        ≡ (c.written && (c.closed && (c.moded && (c.moved_aside && c.moved_in)))))
      × Leaves old binary c (stage c binary fs)
stage-Leaves old binary c fs e = elim (Bool-cases c.written) [
  | inr x ↦ rw x (refl, inl e)
  | inl x ↦ elim (Bool-cases c.closed) [
    | inr y ↦ rw (x, y) (refl, inl e)
    | inl y ↦ elim (Bool-cases c.moded) [
      | inr z ↦ rw (x, y, z) (refl, inl e)
      | inl z ↦
          rw (x, y, z) (move_aside-Leaves old binary c (record fs { staged = some binary }) e refl)
    ]
  ]
]

replace_executable-Leaves :
    (old binary : Bytes) (c : Calls) (fs : Files)
    → fs.exe ≡ some old
    → ((replace_executable c binary fs).1 ≡ all_done c)
      × Leaves old binary c (replace_executable c binary fs)
unfolding replace_executable
replace_executable-Leaves old binary c fs e = elim (Bool-cases c.created) [
  | inr x ↦ rw (x, replace_executable) (refl, inl e)
  | inl x ↦
      let (b, l) = stage-Leaves old binary c fs e in
      rw (x, replace_executable)
        (b, unstage-Leaves old binary c (stage c binary fs).0 (stage c binary fs).1 l)
]

-- What an update may install: the downloaded binary, whose digest is the one that the downloaded list
-- has for the asset.
abbrev pub Installs :
    (Bytes → Bytes) → Bytes → Option Bytes → Option Bytes → Bytes → Calls → Files × Bool → Type 0
Installs sha256 asset sums o old c (fs, true) =
    (list : Bytes) × (binary : Bytes) × (sums ≡ some list)
    × (o ≡ some binary)
    × (checksum_for list asset ≡ some (sha256 binary))
    × (fs.exe ≡ some binary)
Installs sha256 asset sums o old c (fs, false) =
    (fs.exe ≡ some old) ⊎ ((c.moved_in ≡ false) × (c.put_back ≡ false) × (fs.backup ≡ some old))

abbrev pub is_verified : Option Bytes → Bool
is_verified none = false
is_verified (some _) = true

Leaves-Installs :
    (sha256 : Bytes → Bytes) (asset list binary old : Bytes) (c : Calls) (r : Files × Bool)
    → checksum_for list asset ≡ some (sha256 binary)
    → Leaves old binary c r
    → Installs sha256 asset (some list) (some binary) old c r
Leaves-Installs sha256 asset list binary old c (fs, true) k l = (list, binary, refl, refl, k, l)
Leaves-Installs sha256 asset list binary old c (fs, false) k l = l

module _ (sha256 : Bytes → Bytes) (asset old : Bytes) (c : Calls) (fs : Files) where
  -- When an executable is there, then whatever the two downloads give and whichever calls fail: there is
  -- no error exactly when the downloaded binary is verified and every call up to the second rename
  -- succeeds. Then the executable is the downloaded binary, whose digest is the one that the downloaded
  -- list has for the asset. Otherwise it is the old one, or the backup is, where the new one could
  -- neither be moved in nor the old one back.
  pub download_and_replace_lem :
      (sums o : Option Bytes)
      → fs.exe ≡ some old
      → ((download_and_replace sha256 asset sums o c fs).1
          ≡ (is_verified (verified sha256 asset sums o) && all_done c))
        × Installs sha256 asset sums o old c (download_and_replace sha256 asset sums o c fs)
  unfolding download_and_replace verified
  download_and_replace_lem none o e = (refl, inl e)
  download_and_replace_lem (some list) o e = elim (Option-cases (checksum_for list asset)) [
    | inl k ↦ rw (k, download_and_replace, verified) (refl, inl e)
    | inr (want, k) ↦ elim (Option-cases o) [
      | inl m ↦ rw (k, m, download_and_replace, verified) (refl, inl e)
      | inr (binary, m) ↦ elim (Bool-cases (sha256 binary == want)) [
        | inr n ↦ rw (k, m, n, download_and_replace, verified) (refl, inl e)
        | inl n ↦
            let (b, l) = replace_executable-Leaves old binary c fs e in
            let listed_is = k ∙ ap some (sym (==→eq (sha256 binary) want n)) in
            rw (k, m, n, download_and_replace, verified)
              (
                b,
                Leaves-Installs sha256 asset list binary old c (replace_executable c binary fs)
                    listed_is l,
              )
      ]
    ]
  ]
