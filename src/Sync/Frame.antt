-- ===== src/Sync/Frame.antt =====
-- examples/relay-sync/proto.go: frames with a length, over a buffer of bytes.
use relay_tunnel.Prelude.{
  ◌>>=◌, ℕ, Option, none, some, [], ◌++◌, Bytes, length, ltb, ◌*◌, ◌^◌, ◌<◌, if◌then◌else◌, ◌≡◌,
  refl, append_assoc,
}
use relay_tunnel.Prelude.Wire.{
  read_full, put_uint32, uint32, read_full-put_uint32, uint32-put_uint32, read_full-append,
}

abbrev pub max_frame : ℕ
max_frame = 32 * 2 ^ 20

-- `writeFrame` to a buffer.
unfoldable pub write_frame : Bytes → Bytes → Bytes
write_frame w b = (w ++ put_uint32 (length b)) ++ b

-- What is read, and what is left on the stream; none is an error.
abbrev pub read_body : Bytes → Bytes → Option (Bytes × Bytes)
read_body lp r = if ltb max_frame (uint32 lp) then none else read_full (uint32 lp) r

unfoldable pub read_frame : Bytes → Option (Bytes × Bytes)
read_frame r = do (lp, r') ← read_full 4 r; read_body lp r'

-- A frame of a payload below 4 GiB is read back, and the reader stops behind it, if the payload has at
-- most 32 MiB; a longer one is written, and refused by the reader.
pub read_frame-write_frame :
    (b rest : Bytes)
    → length b < 2 ^ 32
    → read_frame (write_frame [] b ++ rest)
      ≡ (if ltb max_frame (length b) then none else some (b, rest))
unfolding read_frame write_frame
read_frame-write_frame b rest h =
    rw
      (
        append_assoc (put_uint32 (length b)) b rest,
        read_full-put_uint32 (length b) (b ++ rest),
        uint32-put_uint32 (length b) h,
        read_full-append b rest,
      )
      refl
