-- ===== src/App/Host.antt =====
-- internal/app/host.go: the policy of the exposing side, and what a stream makes it do. `absolute` is
-- `filepath.Abs`, `joined` is `filepath.Clean` of `filepath.Join`, and `sep` is `os.PathSeparator`.
pub mod Laws
pub mod Serve
use relay_tunnel.Prelude.{
  ℕ, Bool, true, false, not, ◌&&◌, ◌||◌, ◌==◌, Option, none, some, List, [], ◌∷◌, ◌++◌, Bytes,
  codes, contains, length, if◌then◌else◌, nat_eq, bytes_eq,
}
use relay_tunnel.Mux.{FileHeader, ExecHeader, OpenMsg, kind_tcp, kind_file, kind_exec}

pub record HostPolicy : Type 0 where
  pub allow_dial : Bool
  pub allow : List Bytes
  pub allow_exec : Bool
  pub file_root : Bytes

-- What is done for a stream: nothing, a dial, a command, or a file that is read or written.
pub data Action : Type 0 where
  denied : Action
  dial : Bytes → Action
  exec : List Bytes → Action
  get : Bytes → Action
  put : Bytes → ℕ → Action

unfoldable pub dial_allowed : HostPolicy → Bytes → Bool
dial_allowed p target =
    if not p.allow_dial
    then false
    else if length p.allow == 0
    then true
    else contains p.allow target

unfoldable pub host_tcp : Bytes → HostPolicy → Action
unfolding dial_allowed
host_tcp target p = if not (dial_allowed p target) then denied else dial target

unfoldable pub host_exec : Option ExecHeader → HostPolicy → Action
host_exec none p = denied
host_exec (some h) p = if not p.allow_exec || length h.args == 0 then denied else exec h.args

-- `strings.HasPrefix`
unfoldable pub has_prefix : Bytes → Bytes → Bool
has_prefix s [] = true
has_prefix [] (p ∷ ps) = false
has_prefix (c ∷ cs) (p ∷ ps) = c == p && has_prefix cs ps

-- The mode that a file is made with; 0 is none.
abbrev pub mode_of : ℕ → ℕ
mode_of mode = if mode == 0 then 420 else mode

module _ (absolute : Bytes → Bytes) (joined : Bytes → Bytes → Bytes) (sep : ℕ) where
  -- The test that a path is inside the root.
  unfoldable pub inside : Bytes → Bytes → Bool
  unfolding has_prefix
  inside abs root = has_prefix (abs ++ (sep ∷ [])) (root ++ (sep ∷ [])) || abs == root

  unfoldable pub host_file : Option FileHeader → HostPolicy → Action
  unfolding inside
  host_file none p = denied
  host_file (some h) p =
      let root = absolute p.file_root in
      let abs = absolute (joined p.file_root h.path) in
      if p.file_root == []
      then denied
      else if not (inside abs root)
      then denied
      else if h.op == codes "get"
      then get abs
      else if h.op == codes "put"
      then put abs (mode_of h.mode)
      else denied

  -- `handleStream` of the header that was read; none is a header that cannot be read.
  unfoldable pub handle_stream : Option OpenMsg → HostPolicy → Action
  unfolding host_tcp host_file host_exec
  handle_stream none p = denied
  handle_stream (some m) p =
      if m.kind == kind_tcp
      then host_tcp m.target p
      else if m.kind == kind_file
      then host_file m.file p
      else if m.kind == kind_exec
      then host_exec m.exec p
      else denied
