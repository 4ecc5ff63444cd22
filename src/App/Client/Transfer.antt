-- ===== src/App/Client/Transfer.antt =====
-- internal/app/client.go and host.go: what a stream of the connecting side does on the exposing side.
use relay_tunnel.Prelude.{
  ℕ, ◌≤◌, ◌≡◌, ◌≢◌, true, none, some, [], ◌++◌, Bytes, length, inr, lookup-insert, ne→==, ==-self,
  nat_eq, bytes_eq, append-nil, ℕ_discrete, append_assoc, lookup, subst,
}
use relay_tunnel.Prelude.Wire.{put_uint32}
use relay_tunnel.Mux.{Codec, OpenMsg, max_header}
use relay_tunnel.Mux.Laws.{buffer, write_header-buffer, read_header-frame}
use relay_tunnel.App.Host.{HostPolicy, get, put, inside, host_file, handle_stream, mode_of}
use relay_tunnel.App.Host.Serve.{Opens, FileStore, perform_on, serve_stream, mode_kept}
use relay_tunnel.App.Client.{
  get_header, put_header, perm, begun, begin_stream, copy_to, downloaded, file_get, file_put,
}

-- `b` is the JSON of a header, and short enough to be sent.
abbrev pub Encodes : Codec OpenMsg → OpenMsg → Bytes → Type 0
Encodes json m b = (json.marshal m ≡ some b) × (length b ≤ max_header) × (json.unmarshal b ≡ some m)

abbrev pub frame : Bytes → Bytes
frame b = put_uint32 (length b) ++ b

pub begin_stream-frame :
    (json : Codec OpenMsg) (m : OpenMsg) (b : Bytes)
    → Encodes json m b
    → begin_stream json buffer (some []) m ≡ inr (frame b)
unfolding begin_stream begun
begin_stream-frame json m b (enc, short, dec) = rw (write_header-buffer json m b enc short)

module _ (absolute : Bytes → Bytes) (joined : Bytes → Bytes → Bytes) (sep : ℕ)
    (json : Codec OpenMsg) (io : Opens) (p : HostPolicy) where
  pub serve_stream-frame :
      (m : OpenMsg) (b rest : Bytes) (disk : FileStore)
      → Encodes json m b
      → serve_stream absolute joined sep json io p (put_uint32 (length b) ++ (b ++ rest)) disk
        ≡ perform_on io (handle_stream absolute joined sep (some m) p) rest disk
  unfolding serve_stream
  serve_stream-frame m b rest disk (enc, short, dec) =
      rw (serve_stream, read_header-frame json m b enc rest short dec)

  handle_stream-put :
      (remote : Bytes) (size mode : ℕ)
      → p.file_root ≢ []
      → inside absolute joined sep (absolute (joined p.file_root remote)) (absolute p.file_root)
        ≡ true
      → handle_stream absolute joined sep (some (put_header remote size mode)) p
        ≡ put (absolute (joined p.file_root remote)) (mode_of (perm mode))
  unfolding handle_stream host_file bytes_eq nat_eq ℕ_discrete
  handle_stream-put remote size mode r i = rw (i, ne→== p.file_root [] r)

  handle_stream-get :
      (remote : Bytes)
      → p.file_root ≢ []
      → inside absolute joined sep (absolute (joined p.file_root remote)) (absolute p.file_root)
        ≡ true
      → handle_stream absolute joined sep (some (get_header remote)) p
        ≡ get (absolute (joined p.file_root remote))
  unfolding handle_stream host_file bytes_eq nat_eq ℕ_discrete
  handle_stream-get remote r i = rw (i, ne→== p.file_root [] r)

  lookup-perform_on_put :
      (abs content : Bytes) (mode : ℕ) (disk : FileStore)
      → io.may_write abs ≡ true
      → lookup abs (perform_on io (put abs mode) content disk).disk
        ≡ some (content, mode_kept (lookup abs disk) mode)
  unfolding perform_on
  lookup-perform_on_put abs content mode disk c = rw (
    c,
    lookup-insert abs abs (content, mode_kept (lookup abs disk) mode) disk,
    ==-self {A = Bytes},
  )

  -- The whole of an upload: if its header can be sent, then whatever the policy, the exposing side does
  -- what `handle_stream` makes of that header, with exactly the content to read.
  pub file_put-serve_stream :
      (content remote b : Bytes) (size mode : ℕ) (disk : FileStore)
      → Encodes json (put_header remote size mode) b
      → (w : Bytes) × (file_put json buffer (some content) (some (size, mode)) (some []) remote
          ≡ inr w)
        × (serve_stream absolute joined sep json io p w disk
            ≡ perform_on io
                (handle_stream absolute joined sep (some (put_header remote size mode)) p)
                content
                disk)
  unfolding file_put copy_to
  file_put-serve_stream content remote b size mode disk enc = (
    frame b ++ content,
    rw (file_put, begin_stream-frame json (put_header remote size mode) b enc),
    rw (append_assoc (put_uint32 (length b)) b content)
        (serve_stream-frame (put_header remote size mode) b content disk enc),
  )

  pub file_get-serve_stream :
      (remote b : Bytes) (disk : FileStore)
      → Encodes json (get_header remote) b
      → (v : Bytes) × (begin_stream json buffer (some []) (get_header remote) ≡ inr v)
        × (serve_stream absolute joined sep json io p v disk
            ≡ perform_on io
                (handle_stream absolute joined sep (some (get_header remote)) p)
                []
                disk)
  file_get-serve_stream remote b disk enc = (
    frame b,
    begin_stream-frame json (get_header remote) b enc,
    subst
        (λ v.
          serve_stream absolute joined sep json io p (put_uint32 (length b) ++ v) disk
          ≡ perform_on io (handle_stream absolute joined sep (some (get_header remote)) p) [] disk)
        (append-nil b) (serve_stream-frame (get_header remote) b [] disk enc),
  )

  -- With a policy that has a root of files, a path that is inside it, a file that can be written and
  -- read, and headers that can be sent: what an upload wrote, a later download of the path gives
  -- back, whatever was there before.
  pub file_get-file_put :
      (content remote b c : Bytes) (size mode : ℕ) (disk : FileStore)
      → Encodes json (put_header remote size mode) b
      → Encodes json (get_header remote) c
      → p.file_root ≢ []
      → inside absolute joined sep (absolute (joined p.file_root remote)) (absolute p.file_root)
        ≡ true
      → io.may_write (absolute (joined p.file_root remote)) ≡ true
      → io.may_read (absolute (joined p.file_root remote)) ≡ true
      → (w : Bytes) × (v : Bytes) × (file_put json buffer
            (some content)
            (some (size, mode))
            (some [])
            remote
          ≡ inr w)
        × (begin_stream json buffer (some []) (get_header remote) ≡ inr v)
        × (file_get json buffer
              (some [])
              remote
              true
              (serve_stream absolute joined sep json io p v
                (serve_stream absolute joined sep json io p w disk).disk).sent
              true
            ≡ record { local = some content; failure = none })
  unfolding file_get downloaded perform_on
  file_get-file_put content remote b c size mode disk enc enc' r i can readable =
      let abs = absolute (joined p.file_root remote) in
      let (w, sent, served) = file_put-serve_stream content remote b size mode disk enc in
      let after = serve_stream absolute joined sep json io p w disk in
      let (v, begun_get, served_get) = file_get-serve_stream remote c after.disk enc' in
      (
        w,
        v,
        sent,
        begun_get,
        rw (
          file_get,
          begun_get,
          served_get,
          handle_stream-get remote r i,
          served,
          handle_stream-put remote size mode r i,
          readable,
          lookup-perform_on_put abs content (mode_of (perm mode)) disk can,
        ),
      )
