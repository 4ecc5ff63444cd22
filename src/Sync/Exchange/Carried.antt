-- ===== src/Sync/Exchange/Carried.antt =====
-- examples/relay-sync: what a client makes of the bytes that come back is what it would make of the
-- reply.
use relay_tunnel.Prelude.{
  ℕ, ◌≤◌, ◌≡◌, refl, ap, sym, ◌∙◌, subst, Bool, Option, none, some, List, [], ◌++◌, Bytes, codes,
  length, arith, append-nil, le→ltb, bytes_eq, nat_eq, ℕ_discrete,
}
use relay_tunnel.Mux.{Codec}
use relay_tunnel.Sync.Files.{Entry, Tree}
use relay_tunnel.Sync.Frame.{write_frame, max_frame, read_frame-write_frame}
use relay_tunnel.Sync.Host.{
  Request, Reply, silent, outside_root, failed, ok, file, listing, Io, handle,
}
use relay_tunnel.Sync.Host.Stored.{got_file}
use relay_tunnel.Sync.Exchange.{
  Codecs, write_json, read_json, manifest_reply, get_reply, plain_reply, is_ok, content_after,
  reply_bytes, req_manifest, acknowledged, received_of, received_file, serve_exchange,
}

-- `b` is the JSON of a value, and short enough for a frame that is read.
abbrev pub Fits : {A : Type 0} → Codec A → A → Bytes → Type 0
Fits json a b = (json.marshal a ≡ some b) × (length b ≤ max_frame) × (json.unmarshal b ≡ some a)

write_json-Fits :
    {A : Type 0} (json : Codec A) (a : A) (b : Bytes)
    → Fits json a b
    → write_json json a ≡ some (write_frame [] b)
unfolding write_json
write_json-Fits json a b (enc, short, dec) = rw enc

read_json-Fits :
    {A : Type 0} (json : Codec A) (a : A) (b rest : Bytes)
    → Fits json a b
    → read_json json (write_frame [] b ++ rest) ≡ some (a, rest)
unfolding read_json
read_json-Fits json a b rest (enc, short, dec) =
    rw (read_frame-write_frame b rest (omega arith), le→ltb max_frame (length b) short, dec)

-- The reply of a manifest request, where it has a manifest.
abbrev pub manifest_of : Reply → Option (List Entry)
manifest_of (listing es) = some es
manifest_of _ = none

-- The four kinds of requests.
pub data Kind : Type 0 where
  for_manifest for_get for_put for_delete : Kind

abbrev pub op_name : Kind → Bytes
op_name for_manifest = codes "manifest"
op_name for_get = codes "get"
op_name for_put = codes "put"
op_name for_delete = codes "delete"

module _ (c : Codecs) (text : Bytes) where
  -- `d` is the JSON of the reply to a request of this kind, and short enough.
  abbrev pub FitsReply : Kind → Reply → Bytes → Type 0
  FitsReply for_manifest r d = Fits c.manifest (manifest_reply text r) d
  FitsReply for_get r d = Fits c.get (get_reply text r) d
  FitsReply for_put r d = Fits c.plain (plain_reply text r) d
  FitsReply for_delete r d = Fits c.plain (plain_reply text r) d

  -- What the client makes of the bytes is what it would make of the reply, whenever the file gets its
  -- time.
  abbrev pub Carries : ℕ → ℕ → Kind → Reply → Bytes → Type 0
  Carries now mtime for_manifest r bytes = req_manifest c bytes ≡ manifest_of r
  Carries now mtime for_get r bytes = received_file c now mtime bytes ≡ got_file now mtime r
  Carries now mtime for_put r bytes = acknowledged c bytes ≡ is_ok r
  Carries now mtime for_delete r bytes = acknowledged c bytes ≡ is_ok r

  read_alone :
      {A : Type 0} (json : Codec A) (a : A) (d : Bytes)
      → Fits json a d
      → read_json json (write_frame [] d) ≡ some (a, [])
  read_alone json a d fits =
      ap (read_json json) (sym (append-nil (write_frame [] d))) ∙ read_json-Fits json a d [] fits

  req_manifest-reply_bytes :
      (r : Reply) (d : Bytes)
      → Fits c.manifest (manifest_reply text r) d
      → req_manifest c (write_frame [] d) ≡ manifest_of r
  unfolding req_manifest
  req_manifest-reply_bytes silent d fits =
      rw (read_alone c.manifest (manifest_reply text silent) d fits)
  req_manifest-reply_bytes outside_root d fits =
      rw (read_alone c.manifest (manifest_reply text outside_root) d fits)
  req_manifest-reply_bytes failed d fits =
      rw (read_alone c.manifest (manifest_reply text failed) d fits)
  req_manifest-reply_bytes ok d fits = rw (read_alone c.manifest (manifest_reply text ok) d fits)
  req_manifest-reply_bytes (file n b) d fits =
      rw (read_alone c.manifest (manifest_reply text (file n b)) d fits)
  req_manifest-reply_bytes (listing es) d fits =
      rw (read_alone c.manifest (manifest_reply text (listing es)) d fits)

  acknowledged-reply_bytes :
      (r : Reply) (d : Bytes)
      → Fits c.plain (plain_reply text r) d
      → acknowledged c (write_frame [] d) ≡ is_ok r
  unfolding acknowledged
  acknowledged-reply_bytes r d fits =
      rw (acknowledged, read_alone c.plain (plain_reply text r) d fits)

  received_of-reply :
      (now mtime : ℕ) (r : Reply)
      → received_of now mtime (get_reply text r) (content_after r) ≡ got_file now mtime r
  received_of-reply now mtime silent = refl
  received_of-reply now mtime outside_root = refl
  received_of-reply now mtime failed = refl
  received_of-reply now mtime ok = refl
  received_of-reply now mtime (file n b) = refl
  received_of-reply now mtime (listing es) = refl

  received_file-reply_bytes :
      (now mtime : ℕ) (r : Reply) (d : Bytes)
      → Fits c.get (get_reply text r) d
      → received_file c now mtime (write_frame [] d ++ content_after r) ≡ got_file now mtime r
  unfolding received_file
  received_file-reply_bytes now mtime r d fits =
      rw (read_json-Fits c.get (get_reply text r) d (content_after r) fits)
        (received_of-reply now mtime r)

  reply_bytes-Carries :
      (now mtime : ℕ) (k : Kind) (r : Reply) (d : Bytes)
      → FitsReply k r d
      → Carries now mtime k r (reply_bytes c text (op_name k) r)
  unfolding reply_bytes bytes_eq nat_eq ℕ_discrete
  reply_bytes-Carries now mtime for_manifest r d fits =
      rw (write_json-Fits c.manifest (manifest_reply text r) d fits)
        (req_manifest-reply_bytes r d fits)
  reply_bytes-Carries now mtime for_get r d fits =
      rw (write_json-Fits c.get (get_reply text r) d fits)
        (received_file-reply_bytes now mtime r d fits)
  reply_bytes-Carries now mtime for_put r d fits =
      rw (write_json-Fits c.plain (plain_reply text r) d fits) (acknowledged-reply_bytes r d fits)
  reply_bytes-Carries now mtime for_delete r d fits =
      rw (write_json-Fits c.plain (plain_reply text r) d fits) (acknowledged-reply_bytes r d fits)

  reply_bytes_named :
      (now mtime : ℕ) (k : Kind) (op : Bytes) (r : Reply) (d : Bytes)
      → op ≡ op_name k
      → FitsReply k r d
      → Carries now mtime k r (reply_bytes c text op r)
  reply_bytes_named now mtime k op r d e fits =
      subst (λ o. Carries now mtime k r (reply_bytes c text o r)) (sym e)
        (reply_bytes-Carries now mtime k r d fits)

  module _ (absolute : Bytes → Option Bytes) (joined : Bytes → Bytes → Bytes) (sep : ℕ)
      (match_string : Bytes → Bytes → Bool) (path_base : Bytes → Bytes) (root : Bytes)
      (req : Request) (body : Bytes) (io : Io) (fs : Tree) where
    -- A request of one of the four kinds, with the bytes that follow it, goes over the stream as it
    -- is: if its JSON and that of the reply are no longer than a frame, the host does to its files
    -- what `handle` does, and what the client makes of the bytes that come back is what it would make
    -- of the reply.
    pub serve_exchange-Carries :
        (now mtime : ℕ) (k : Kind) (b d : Bytes)
        → req.op ≡ op_name k
        → Fits c.request req b
        → FitsReply k
            (handle absolute joined sep match_string path_base root (some req) body io fs).1
            d
        → ((serve_exchange c text absolute joined sep match_string path_base root
              (write_frame [] b ++ body)
              io
              fs).0
            ≡ (handle absolute joined sep match_string path_base root (some req) body io fs).0)
          × Carries now mtime k
              (handle absolute joined sep match_string path_base root (some req) body io fs).1
              (serve_exchange c text absolute joined sep match_string path_base root
                (write_frame [] b ++ body)
                io
                fs).1
    unfolding serve_exchange
    serve_exchange-Carries now mtime k b d op fits fits_reply = (
      rw (serve_exchange, read_json-Fits c.request req b body fits),
      rw (serve_exchange, read_json-Fits c.request req b body fits)
          (reply_bytes_named now mtime k req.op _ d op fits_reply),
    )
