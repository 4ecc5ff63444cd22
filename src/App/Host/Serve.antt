-- ===== src/App/Host/Serve.antt =====
-- internal/app/host.go: what a stream does to the files of the exposing side. A file is its content and
-- the mode that it was made with, and `Opens` tells what can be dialled and opened. Of a dial and a
-- command the bytes that are copied to them are kept; what comes back is outside.
use relay_tunnel.Prelude.{
  Bool, if◌then◌else◌, ℕ, Option, none, some, [], Bytes, Dict, lookup, insert, nat_eq, bytes_eq,
}
use relay_tunnel.Mux.{ok, err, OpenMsg, Codec, read_header}
use relay_tunnel.App.Host.{HostPolicy, Action, denied, dial, exec, get, put, handle_stream}

abbrev pub FileStore : Type 0
FileStore = Dict Bytes (Bytes × ℕ)

-- Which targets a dial reaches, and which files can be opened to read and to write.
pub record Opens : Type 0 where
  pub reaches : Bytes → Bool
  pub may_read : Bytes → Bool
  pub may_write : Bytes → Bool

-- After a stream: the files, the bytes that were written to it, those that were copied from it to the
-- target of a dial or to a command, and what it led to.
pub record Served : Type 0 where
  pub disk : FileStore
  pub sent : Bytes
  pub forwarded : Bytes
  pub action : Action

abbrev pub content_of : Option (Bytes × ℕ) → Bytes
content_of none = []
content_of (some (content, _)) = content

-- A file that exists keeps its mode.
abbrev pub mode_kept : Option (Bytes × ℕ) → ℕ → ℕ
mode_kept none mode = mode
mode_kept (some (_, kept)) mode = kept

-- The files after an action, where `rest` is what is left to read on the stream.
unfoldable pub perform_on : Opens → Action → Bytes → FileStore → Served
perform_on io denied rest disk = record { disk = disk; sent = []; forwarded = []; action = denied }
perform_on io (dial target) rest disk = record {
  disk = disk;
  sent = [];
  forwarded = if io.reaches target then rest else [];
  action = dial target;
}
perform_on io (exec args) rest disk = record {
  disk = disk;
  sent = [];
  forwarded = rest;
  action = exec args;
}
perform_on io (get path) rest disk = record {
  disk = disk;
  sent = if io.may_read path then content_of (lookup path disk) else [];
  forwarded = [];
  action = get path;
}
perform_on io (put path mode) rest disk = record {
  disk =
      if io.may_write path
      then insert path (rest, mode_kept (lookup path disk) mode) disk
      else disk;
  sent = [];
  forwarded = [];
  action = put path mode;
}

module _ (absolute : Bytes → Bytes) (joined : Bytes → Bytes → Bytes) (sep : ℕ)
    (json : Codec OpenMsg) (io : Opens) where
  -- `handleStream`: the header, and then what it asks for.
  unfoldable pub serve_stream : HostPolicy → Bytes → FileStore → Served
  unfolding perform_on
  serve_stream p stream disk = elim (read_header json stream) [
    | ok (m, rest) ↦ perform_on io (handle_stream absolute joined sep (some m) p) rest disk
    | err e ↦ record { disk = disk; sent = []; forwarded = []; action = denied }
  ]
