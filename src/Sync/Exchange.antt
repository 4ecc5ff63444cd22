-- ===== src/Sync/Exchange.antt =====
-- examples/relay-sync/client.go, host.go and proto.go: requests and replies as frames of JSON on a
-- stream. `encoding/json` is a codec for each type, and `text` the error that a failed call of the
-- host gives.
pub mod Carried
pub mod Stored
use relay_tunnel.Prelude.{
  ◌>>=◌, ℕ, Bool, true, false, ◌||◌, ◌==◌, Option, none, some, List, [], ◌∷◌, ◌++◌, Bytes, codes,
  length, ltb, take, if◌then◌else◌, bytes_eq, nat_eq, not,
}
use relay_tunnel.Mux.{Codec}
use relay_tunnel.Sync.Files.{Entry, Tree, File}
use relay_tunnel.Sync.Pass.{kept_mtime}
use relay_tunnel.Sync.Frame.{write_frame, read_frame}
use relay_tunnel.Sync.Host.{
  Request, Reply, silent, outside_root, failed, ok, file, listing, Io, count, handle,
}

pub record ManifestReply : Type 0 where
  pub accepted : Bool
  pub problem : Bytes
  pub entries : List Entry

pub record GetReply : Type 0 where
  pub accepted : Bool
  pub problem : Bytes
  pub size : ℕ

pub record PlainReply : Type 0 where
  pub accepted : Bool
  pub problem : Bytes

pub record Codecs : Type 0 where
  pub request : Codec Request
  pub manifest : Codec ManifestReply
  pub get : Codec GetReply
  pub plain : Codec PlainReply

-- `writeJSON`; none is an error of `json.Marshal`.
unfoldable pub write_json : {A : Type 0} → Codec A → A → Option Bytes
unfolding write_frame
write_json json a = json.marshal a >>= λ b. some (write_frame [] b)

-- `readJSON`, with what is left on the stream.
unfoldable pub read_json : {A : Type 0} → Codec A → Bytes → Option (A × Bytes)
unfolding read_frame
read_json json r = do (b, rest) ← read_frame r; a ← json.unmarshal b; some (a, rest)

abbrev pub outside_text : Bytes
outside_text = codes "path outside root"

abbrev pub problem_of : Bytes → Reply → Bytes
problem_of text outside_root = outside_text
problem_of text failed = text
problem_of text _ = []

abbrev pub is_listing : Reply → Bool
is_listing (listing es) = true
is_listing _ = false

abbrev pub is_file : Reply → Bool
is_file (file n b) = true
is_file _ = false

abbrev pub is_ok : Reply → Bool
is_ok ok = true
is_ok _ = false

abbrev pub entries_in : Reply → List Entry
entries_in (listing es) = es
entries_in _ = []

abbrev pub size_of : Reply → ℕ
size_of (file n b) = n
size_of _ = 0

abbrev pub content_after : Reply → Bytes
content_after (file n b) = b
content_after _ = []

abbrev pub manifest_reply : Bytes → Reply → ManifestReply
manifest_reply text r = record {
  accepted = is_listing r;
  problem = problem_of text r;
  entries = entries_in r;
}

abbrev pub get_reply : Bytes → Reply → GetReply
get_reply text r = record { accepted = is_file r; problem = problem_of text r; size = size_of r }

abbrev pub plain_reply : Bytes → Reply → PlainReply
plain_reply text r = record { accepted = is_ok r; problem = problem_of text r }

abbrev pub or_nothing : Option Bytes → Bytes
or_nothing none = []
or_nothing (some b) = b

abbrev pub followed_by : Option Bytes → Bytes → Bytes
followed_by none content = []
followed_by (some b) content = b ++ content

abbrev pub received_of : ℕ → ℕ → GetReply → Bytes → Option File
received_of now mtime reply rest =
    if not reply.accepted
    then none
    else if ltb (length rest) (count reply.size)
    then none
    else some (record { content = take (count reply.size) rest; mtime = kept_mtime now mtime })

module _ (c : Codecs) where
  -- `reqManifest`, of what comes back; none is an error.
  unfoldable pub req_manifest : Bytes → Option (List Entry)
  unfolding read_json
  req_manifest r = do
    (reply, rest) ← read_json c.manifest r
    if reply.accepted then some reply.entries else none

  -- `putFile` and `reqDelete`, of what comes back: whether there is no error.
  unfoldable pub acknowledged : Bytes → Bool
  unfolding read_json
  acknowledged r = elim (read_json c.plain r) [ none ↦ false | some (reply, rest) ↦ reply.accepted ]

  -- `getFile`, of what comes back: the file that is written, where all of it came.
  unfoldable pub received_file : ℕ → ℕ → Bytes → Option File
  unfolding read_json
  received_file now mtime r = do (reply, rest) ← read_json c.get r; received_of now mtime reply rest

module _ (c : Codecs) (text : Bytes) where
  -- What the host writes for a reply to a request of this kind.
  unfoldable pub reply_bytes : Bytes → Reply → Bytes
  unfolding write_json
  reply_bytes op r =
      if op == codes "manifest"
      then or_nothing (write_json c.manifest (manifest_reply text r))
      else if op == codes "get"
      then followed_by (write_json c.get (get_reply text r)) (content_after r)
      else if op == codes "put" || op == codes "delete"
      then or_nothing (write_json c.plain (plain_reply text r))
      else []

  module _ (absolute : Bytes → Option Bytes) (joined : Bytes → Bytes → Bytes) (sep : ℕ)
      (match_string : Bytes → Bytes → Bool) (path_base : Bytes → Bytes) (root : Bytes) where
    -- `handle` of a stream: the files and what is written.
    unfoldable pub serve_exchange : Bytes → Io → Tree → Tree × Bytes
    unfolding read_json handle reply_bytes
    serve_exchange stream io fs = elim (read_json c.request stream) [
      | none ↦ (fs, [])
      | some (req, body) ↦
          let (fs', r) =
            handle absolute joined sep match_string path_base root (some req) body io fs in
          (fs', reply_bytes req.op r)
    ]
