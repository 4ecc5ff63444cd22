-- ===== src/App/Host/Laws.antt =====
-- internal/app/host.go: a stream gets only what the policy permits.
use relay_tunnel.Prelude.{
  ℕ, ◌≡◌, ◌≢◌, ◌⊎◌, inl, inr, refl, Bool, true, false, not, ◌==◌, ◌||◌, Option, none, some, List,
  [], ◌∷◌, ◌++◌, Bytes, codes, contains, length, arith, Bool-cases, nat_eq, bytes_eq, ==→eq, ==-ne,
  if◌then◌else◌,
}
use relay_tunnel.Mux.{FileHeader, ExecHeader, OpenMsg, kind_tcp, kind_file, kind_exec}
use relay_tunnel.Signal.Admin.Password.{split}
use relay_tunnel.App.Host.{
  HostPolicy, Action, denied, dial, exec, get, put, dial_allowed, host_tcp, host_exec, has_prefix,
  inside, host_file, handle_stream, mode_of,
}

-- The path is the root, or below it.
abbrev pub IsUnder : ℕ → Bytes → Bytes → Type 0
IsUnder sep path root = (path ≡ root) ⊎ ((rest : Bytes) × (path ≡ root ++ (sep ∷ rest)))

-- A path with a component "." or "..".
abbrev pub has_dots : List Bytes → Bool
has_dots [] = false
has_dots (c ∷ cs) = c == codes "." || c == codes ".." || has_dots cs

-- No component of the path is "." or "..", as in what `filepath.Abs` returns, which calls
-- `filepath.Clean`.
abbrev pub IsClean : ℕ → Bytes → Type 0
IsClean sep path = has_dots (split sep path) ≡ false

-- The path is the root or below it, and does not lead out of it again. Links in the file system, which
-- the path does not show, are not modelled.
abbrev pub IsWithin : ℕ → Bytes → Bytes → Type 0
IsWithin sep path root = IsUnder sep path root × IsClean sep path

abbrev pub Permits : (Bytes → Bytes) → ℕ → HostPolicy → Action → Type 0
Permits absolute sep p denied = Unit
Permits absolute sep p (dial target) =
    (p.allow_dial ≡ true) × ((length p.allow ≡ 0) ⊎ (contains p.allow target ≡ true))
Permits absolute sep p (exec args) = (p.allow_exec ≡ true) × (length args ≢ 0)
Permits absolute sep p (get path) = (p.file_root ≢ []) × IsWithin sep path (absolute p.file_root)
Permits absolute sep p (put path mode) =
    (p.file_root ≢ []) × IsWithin sep path (absolute p.file_root) × (mode ≢ 0)

mode_of-ne : (mode : ℕ) → mode_of mode ≢ 0
mode_of-ne mode e = absurd (ground arith)

has_prefix-nil : (rs : Bytes) (s : ℕ) → has_prefix [] (rs ++ (s ∷ [])) ≡ false
unfolding has_prefix
has_prefix-nil [] s = refl
has_prefix-nil (r ∷ rs) s = refl

has_prefix-IsUnder :
    (s : ℕ) (path root : Bytes)
    → has_prefix (path ++ (s ∷ [])) (root ++ (s ∷ [])) ≡ true
    → IsUnder s path root
unfolding has_prefix
has_prefix-IsUnder s [] [] h = inl refl
has_prefix-IsUnder s (c ∷ cs) [] h = inr (cs, ground arith)
has_prefix-IsUnder s [] (r ∷ rs) h = absurd (ground (arith, has_prefix-nil rs s))
has_prefix-IsUnder s (c ∷ cs) (r ∷ rs) h = elim (has_prefix-IsUnder s cs rs (ground arith)) [
  | inl e ↦ inl (ground arith)
  | inr (rest, e) ↦ inr (rest, ground arith)
]

module _ (absolute : Bytes → Bytes) (joined : Bytes → Bytes → Bytes) (sep : ℕ) where
  inside-IsUnder :
      (path root : Bytes) → inside absolute joined sep path root ≡ true → IsUnder sep path root
  unfolding inside
  inside-IsUnder path root h = elim (Bool-cases (path == root)) [
    | inl e ↦ inl (==→eq path root e)
    | inr e ↦ has_prefix-IsUnder sep path root (ground arith)
  ]

  if-Permits :
      (p : HostPolicy) (b : Bool) (x y : Action)
      → (b ≡ true → Permits absolute sep p x)
      → (b ≡ false → Permits absolute sep p y)
      → Permits absolute sep p (if b then x else y)
  if-Permits p true x y f g = f refl
  if-Permits p false x y f g = g refl

  dial_allowed_lem :
      (target : Bytes) (p : HostPolicy)
      → dial_allowed p target ≡ true
      → (p.allow_dial ≡ true) × ((length p.allow ≡ 0) ⊎ (contains p.allow target ≡ true))
  unfolding dial_allowed
  dial_allowed_lem target p h = ground arith

  host_tcp-Permits : (target : Bytes) (p : HostPolicy) → Permits absolute sep p (host_tcp target p)
  unfolding host_tcp
  host_tcp-Permits target p =
      if-Permits p (not (dial_allowed p target)) denied (dial target) (λ _. tt)
        (λ e. dial_allowed_lem target p (ground arith))

  host_exec-Permits :
      (h : Option ExecHeader) (p : HostPolicy) → Permits absolute sep p (host_exec h p)
  unfolding host_exec
  host_exec-Permits none p = tt
  host_exec-Permits (some h) p =
      if-Permits p (not p.allow_exec || length h.args == 0) denied (exec h.args) (λ _. tt)
        (λ e. ground arith)

  host_file-Permits :
      ((path : Bytes) → IsClean sep (absolute path))
      → (h : Option FileHeader) (p : HostPolicy)
      → Permits absolute sep p (host_file absolute joined sep h p)
  unfolding host_file
  host_file-Permits clean none p = tt
  host_file-Permits clean (some h) p =
      let root = absolute p.file_root in
      let abs = absolute (joined p.file_root h.path) in
      if-Permits p (p.file_root == []) _ _ (λ _. tt)
        (λ e.
          if-Permits p (not (inside absolute joined sep abs root)) _ _ (λ _. tt)
            (λ e'.
              let under : IsWithin sep abs root =
                (inside-IsUnder abs root (ground arith), clean (joined p.file_root h.path)) in
              let rooted = ==-ne p.file_root e in
              if-Permits p (h.op == codes "get") (get abs) _ (λ _. (rooted, under))
                (λ _.
                  if-Permits p (h.op == codes "put") (put abs (mode_of h.mode)) denied
                    (λ _. (rooted, under, mode_of-ne h.mode)) (λ _. tt))))

  -- Where `filepath.Abs` returns clean paths: whatever header a stream has, what is done for it is
  -- permitted. A dial is by the switch and the list, a command by its switch, and the path of a file
  -- that is read or written is clean, with no component "." or "..", and is that of the root of the
  -- files or below it.
  pub handle_stream-Permits :
      ((path : Bytes) → IsClean sep (absolute path))
      → (m : Option OpenMsg) (p : HostPolicy)
      → Permits absolute sep p (handle_stream absolute joined sep m p)
  unfolding handle_stream
  handle_stream-Permits clean none p = tt
  handle_stream-Permits clean (some m) p =
      if-Permits p (m.kind == kind_tcp) _ _ (λ _. host_tcp-Permits m.target p)
        (λ _.
          if-Permits p (m.kind == kind_file) _ _ (λ _. host_file-Permits clean m.file p)
            (λ _.
              if-Permits p (m.kind == kind_exec) (host_exec m.exec p) denied
                (λ _. host_exec-Permits m.exec p) (λ _. tt)))
