-- ===== src/Signal/Routing/Pages.antt =====
-- internal/webui/webui.go: which paths the web interface answers with which file.
use relay_tunnel.Prelude.{
  ◌≢◌, ◌≡◌, ◌⊎◌, Bool, true, false, [], ◌++◌, Bytes, codes, bytes_eq, nat_eq,
}
use relay_tunnel.Signal.Routing.{
  Served, icon, plain_not_found, nothing_written, file, page, trim_slash,
}

module _ (is_file : Bytes → Bool) (clean : Bytes → Bytes) where
  abbrev name_of : Bytes → Bytes
  name_of path = trim_slash (clean path)

  -- Neither the path nor the path with ".html" is a file of the export.
  abbrev pub IsMissing : Bytes → Type 0
  IsMissing path =
      (is_file (name_of path) ≡ false) × (is_file (name_of path ++ codes ".html") ≡ false)

  abbrev pub IsRoot : Bytes → Type 0
  IsRoot path =
      (name_of path ≡ []) ⊎ (name_of path ≡ codes ".") ⊎ (name_of path ≡ codes "index.html")

  -- The path is neither the icon nor the root.
  abbrev pub IsOther : Bytes → Type 0
  IsOther path = (name_of path ≢ codes "favicon.ico") × ¬ IsRoot path

  -- When each answer is the one to give. No two of them hold of the same path and export.
  abbrev pub IsRight : Bytes → Served → Type 0
  IsRight path icon = name_of path ≡ codes "favicon.ico"
  IsRight path plain_not_found =
      IsOther path × IsMissing path × (is_file (codes "404.html") ≡ false)
  IsRight path nothing_written = IsRoot path × (is_file (codes "index.html") ≡ false)
  IsRight path (file name) =
      IsOther path
      × (((name ≡ path) × (is_file (name_of path) ≡ true))
          ⊎ ((name ≡ path ++ codes ".html")
              × (is_file (name_of path) ≡ false)
              × (is_file (name_of path ++ codes ".html") ≡ true)))
  IsRight path (page name status) =
      (is_file (name ++ codes ".html") ≡ true)
      × (((name ≡ codes "index") × (status ≡ 200) × IsRoot path)
          ⊎ ((name ≡ codes "404") × (status ≡ 404) × IsOther path × IsMissing path))
