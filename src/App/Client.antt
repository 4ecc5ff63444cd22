-- ===== src/App/Client.antt =====
-- internal/app/client.go: the streams that the connecting side opens, and the file transfers over them.
-- `W` is the stream, `write` its `Write`; none is a stream that cannot be opened. A stream whose
-- header cannot be written is closed, and so is every stream at the end of a command or a transfer.
pub mod Transfer
pub mod Denied
use relay_tunnel.Prelude.{
  ℕ, ◌%◌, Bool, true, false, if◌then◌else◌, Option, none, some, List, [], ◌∷◌, Bytes, codes, ◌⊎◌,
  inl, inr,
}
use relay_tunnel.Mux.{
  Error, Result, ok, err, Codec, FileHeader, OpenMsg, kind_tcp, kind_file, kind_exec, write_header,
}
use relay_tunnel.Signal.Admin.Password.{split}

-- `join` is `net.JoinHostPort`; none is an error.
module _ (join : Bytes → Bytes → Bytes) where
  unfoldable pub forward_of : List Bytes → Option (Bytes × Bytes)
  forward_of (port ∷ host ∷ target_port ∷ []) =
      some (join (codes "127.0.0.1") port, join host target_port)
  forward_of (addr ∷ port ∷ host ∷ target_port ∷ []) = some (join addr port, join host target_port)
  forward_of parts = none

  unfoldable pub parse_forward : Bytes → Option (Bytes × Bytes)
  unfolding forward_of split
  parse_forward spec = forward_of (split 58 spec)

pub data Failure : Type 0 where
  no_connection no_file no_stream copy_failed : Failure
  no_header : Error → Failure

abbrev pub tcp_header : Bytes → OpenMsg
tcp_header target = record { kind = kind_tcp; target = target; file = none; exec = none }

abbrev pub exec_header : List Bytes → OpenMsg
exec_header args = record {
  kind = kind_exec;
  target = [];
  file = none;
  exec = some (record { args = args; pty = false });
}

abbrev pub file_header : FileHeader → OpenMsg
file_header h = record { kind = kind_file; target = []; file = some h; exec = none }

abbrev pub get_header : Bytes → OpenMsg
get_header remote = file_header (record { op = codes "get"; path = remote; size = 0; mode = 0 })

-- `info.Mode().Perm()`
abbrev pub perm : ℕ → ℕ
perm mode = mode % 512

abbrev pub put_header : Bytes → ℕ → ℕ → OpenMsg
put_header remote size mode =
    file_header (record { op = codes "put"; path = remote; size = size; mode = perm mode })

-- What a download leaves at the local path, and its error.
pub record Download : Type 0 where
  pub local : Option Bytes
  pub failure : Option Failure

module _ {W : Type 0} (json : Codec OpenMsg) (write : W → Bytes → Option W) where
  unfoldable pub begun : Result W → Failure ⊎ W
  begun (ok s) = inr s
  begun (err e) = inl (no_header e)

  -- `OpenStreamSync` and `mux.WriteHeader`
  unfoldable pub begin_stream : Option W → OpenMsg → Failure ⊎ W
  unfolding begun
  begin_stream none m = inl no_stream
  begin_stream (some s) m = begun (write_header json write s m)

  -- `connected` tells whether `src.Conn` gave a connection in time.
  unfoldable pub open_tcp : Bool → Option W → Bytes → Failure ⊎ W
  unfolding begin_stream
  open_tcp connected opened target =
      if connected then begin_stream opened (tcp_header target) else inl no_connection

  -- `io.Copy` to a stream.
  unfoldable pub copy_to : Failure ⊎ W → Bytes → Failure ⊎ W
  copy_to (inl e) content = inl e
  copy_to (inr s) content = elim (write s content) [ none ↦ inl copy_failed | some s' ↦ inr s' ]

  -- `LocalForward`, of a connection that was accepted and what it sends: none is a bad spec.
  unfoldable pub local_forward :
      (Bytes → Bytes → Bytes) → Bytes → Bool → Option W → Bytes → Option (Bytes × (Failure ⊎ W))
  unfolding parse_forward open_tcp copy_to
  local_forward join spec connected opened content = elim (parse_forward join spec) [
    | none ↦ none
    | some (local_addr, target) ↦
        some (local_addr, copy_to (open_tcp connected opened target) content)
  ]

  -- `Exec`: the standard input is copied by a goroutine, whose error nobody reads.
  unfoldable pub exec_remote : Option W → List Bytes → Failure ⊎ W
  unfolding begin_stream
  exec_remote opened args = begin_stream opened (exec_header args)

  -- `created` tells whether the local file could be made, and the stream gave `received` before its end
  -- or, if not `complete`, before it failed. The stream is the one that the copy reads.
  unfoldable pub downloaded : Failure ⊎ W → Bool → Bytes → Bool → Download
  downloaded (inl e) created received complete = record { local = none; failure = some e }
  downloaded (inr s) created received complete =
      if created
      then record { local = some received; failure = if complete then none else some copy_failed }
      else record { local = none; failure = some no_file }

  unfoldable pub file_get : Option W → Bytes → Bool → Bytes → Bool → Download
  unfolding begin_stream downloaded
  file_get opened remote created received complete =
      downloaded (begin_stream opened (get_header remote)) created received complete

  -- `content` is that of the local file, and `info` its size and its mode; none is a failure of `os.Open`
  -- or of `Stat`.
  unfoldable pub file_put : Option Bytes → Option (ℕ × ℕ) → Option W → Bytes → Failure ⊎ W
  unfolding begin_stream copy_to
  file_put none info opened remote = inl no_file
  file_put (some content) none opened remote = inl no_file
  file_put (some content) (some (size, mode)) opened remote =
      copy_to (begin_stream opened (put_header remote size mode)) content
