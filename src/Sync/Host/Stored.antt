-- ===== src/Sync/Host/Stored.antt =====
-- examples/relay-sync: `putFile` and `getFile` of client.go against the serving side of host.go.
use relay_tunnel.Prelude.{
  false, Bool, ℕ, true, Option, none, some, Bytes, codes, length, ltb, take, ◌^◌, ◌<◌, lookup,
  if◌then◌else◌, nat_eq, bytes_eq, ℕ_discrete, ◌≡◌, refl, ap, ◌∙◌, arith, lookup-insert, ==-self,
  take_whole, length-take, lt→ltb, le→ltb,
}
use relay_tunnel.Sync.Files.{Tree, File, is_positive}
use relay_tunnel.Sync.Pass.{written, kept_mtime}
use relay_tunnel.Sync.Pass.Mirror.{kept}
use relay_tunnel.Sync.Host.{
  Request, Reply, ok, file, Io, count, confine, put_at, host_get, host_put, handle,
}

-- The request of `putFile`, whose body is the file, and that of `getFile`.
abbrev pub put_request : Bytes → File → Request
put_request path f = record {
  op = codes "put";
  path = path;
  size = length f.content;
  mtime = f.mtime;
  gitignore = false;
}

abbrev pub get_request : Bytes → Request
get_request path = record { op = codes "get"; path = path; size = 0; mtime = 0; gitignore = false }

-- `getFile` of the reply: what is written to the local file, and with which time.
abbrev pub got_file : ℕ → ℕ → Reply → Option File
got_file now mtime (file n b) =
    if ltb (length b) (count n)
    then none
    else some (record { content = take (count n) b; mtime = kept_mtime now mtime })
got_file now mtime _ = none

take_all : (b : Bytes) → take (length b) b ≡ b
take_all b = take_whole (length b) b (omega (arith, length-take (length b) b))

got_sent :
    (now : ℕ) (f : File)
    → length f.content < 2 ^ 63
    → is_positive f.mtime ≡ true
    → got_file now f.mtime (file (length f.content) f.content) ≡ some f
got_sent now f small dated =
    rw
      (
        lt→ltb (length f.content) (2 ^ 63) small,
        le→ltb (length f.content) (length f.content) (omega arith),
        take_all f.content,
        kept now f.mtime dated,
      )
      refl

module _ (absolute : Bytes → Option Bytes) (joined : Bytes → Bytes → Bytes) (sep : ℕ)
    (match_string : Bytes → Bytes → Bool) (path_base : Bytes → Bytes) where
  put_at_file :
      (abs path : Bytes) (f : File) (io : Io) (fs : Tree)
      → io.made ≡ true
      → io.opened ≡ true
      → length f.content < 2 ^ 63
      → put_at absolute joined sep match_string path_base abs (put_request path f) f.content io fs
        ≡ (written abs io.now fs (some f), ok)
  put_at_file abs path f io fs m o small =
      rw
        (
          m,
          o,
          lt→ltb (length f.content) (2 ^ 63) small,
          le→ltb (length f.content) (length f.content) (omega arith),
          take_all f.content,
        )
        refl

  pub lookup-written :
      (abs : Bytes) (now : ℕ) (fs : Tree) (f : File)
      → is_positive f.mtime ≡ true
      → lookup abs (written abs now fs (some f)) ≡ some f
  lookup-written abs now fs f dated =
      lookup-insert abs abs (record { content = f.content; mtime = kept_mtime now f.mtime }) fs
      ∙ rw (==-self abs, kept now f.mtime dated) refl

  pub host_get_file :
      (root path abs : Bytes) (f : File) (io : Io) (fs : Tree)
      → confine absolute joined sep match_string path_base root path ≡ some abs
      → io.opened ≡ true
      → lookup abs fs ≡ some f
      → host_get absolute joined sep match_string path_base root (get_request path) io fs
        ≡ file (length f.content) f.content
  unfolding host_get
  host_get_file root path abs f io fs c o e = rw (c, o, e, host_get) refl

  -- A file of less than 2^63 bytes that is uploaded to an allowed path, where the file system makes its
  -- directory and opens it, is stored as one done copy of a pass stores it; and when it is then
  -- downloaded and the file opens, the client writes the same bytes, with the same modification time
  -- if that is positive.
  pub put_then_get :
      (root path abs : Bytes) (f : File) (body : Bytes) (io io' : Io) (fs : Tree) (now : ℕ)
      → confine absolute joined sep match_string path_base root path ≡ some abs
      → io.made ≡ true
      → io.opened ≡ true
      → io'.opened ≡ true
      → length f.content < 2 ^ 63
      → is_positive f.mtime ≡ true
      → (handle absolute joined sep match_string path_base root
            (some (put_request path f))
            f.content
            io
            fs
          ≡ (written abs io.now fs (some f), ok))
        × (got_file now f.mtime
              (handle absolute joined sep match_string path_base root
                (some (get_request path))
                body
                io'
                (written abs io.now fs (some f))).1
            ≡ some f)
  unfolding handle bytes_eq ℕ_discrete
  put_then_get root path abs f body io io' fs now c m o o' small dated = (
    rw (c, host_put) (put_at_file abs path f io fs m o small),
    ap (got_file now f.mtime) (
          host_get_file root path abs f io' (written abs io.now fs (some f)) c o'
            (lookup-written abs io.now fs f dated))
        ∙ got_sent now f small dated,
  )
