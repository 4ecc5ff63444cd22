-- ===== src/Mux/Laws.antt =====
-- internal/mux/mux.go: what the reader makes of the writer's output, and how much it reads.
use relay_tunnel.Prelude.{
  ◌≤◌, ◌<◌, ◌≡◌, Option, some, [], ◌++◌, length, Bytes, arith, append_assoc, le→ltb, inl, inr,
  Option-cases,
}
use relay_tunnel.Prelude.Wire.{
  put_uint32, uint32, uint32-put_uint32, read_full, read_full-append, read_full-put_uint32,
  read_full-eq_some,
}
use relay_tunnel.Mux.{
  OpenMsg, Codec, ok, err, header_too_large, max_header, write_header, read_header,
}

-- A buffer as a writer: every write succeeds and appends.
abbrev pub buffer : Bytes → Bytes → Option Bytes
buffer w b = some (w ++ b)

module _ (json : Codec OpenMsg) (m : OpenMsg) (b : Bytes) (enc : json.marshal m ≡ some b) where
  pub write_header-buffer :
      length b ≤ max_header → write_header json buffer [] m ≡ ok (put_uint32 (length b) ++ b)
  unfolding write_header
  write_header-buffer h = rw enc (rw (le→ltb max_header (length b) h))

  pub read_header-frame :
      (rest : Bytes)
      → length b ≤ max_header
      → json.unmarshal b ≡ some m
      → read_header json (put_uint32 (length b) ++ (b ++ rest)) ≡ ok (m, rest)
  unfolding read_header
  read_header-frame rest h dec = rw (
    read_full-put_uint32 (length b) (b ++ rest),
    uint32-put_uint32 (length b) (omega arith),
    le→ltb max_header (length b) h,
    read_full-append b rest,
    dec,
  )

  -- A message whose JSON has at most `max_header` bytes and decodes to it is written, and when it
  -- is read it comes back, and the reader stops at the payload.
  pub read_header-write_header :
      (rest : Bytes)
      → length b ≤ max_header
      → json.unmarshal b ≡ some m
      → (w : Bytes) × (write_header json buffer [] m ≡ ok w)
        × (read_header json (w ++ rest) ≡ ok (m, rest))
  read_header-write_header rest h dec = (
    put_uint32 (length b) ++ b,
    write_header-buffer h,
    rw (append_assoc (put_uint32 (length b)) b rest) (read_header-frame rest h dec),
  )

  -- A message whose JSON is too long is refused before anything is written.
  pub write_header_too_large :
      {W : Type 0} (write : W → Bytes → Option W) (w : W)
      → max_header < length b
      → write_header json write w m ≡ err header_too_large
  unfolding write_header
  write_header_too_large write w h = ground arith

-- Whatever `read_header` accepts is a frame: a length of at most `max_header` in four bytes, a
-- payload of that length that decodes to the message, and then what is left on the stream.
pub read_header_frame :
    (json : Codec OpenMsg) (r rest : Bytes) (m : OpenMsg)
    → read_header json r ≡ ok (m, rest)
    → (lp : Bytes) × (b : Bytes) × (r ≡ lp ++ (b ++ rest))
      × (length lp ≡ 4)
      × (length b ≡ uint32 lp)
      × (length b ≤ max_header)
      × (json.unmarshal b ≡ some m)
unfolding read_header
read_header_frame json r rest m h = elim (Option-cases (read_full 4 r)) [
  | inl e ↦ absurd (ground arith)
  | inr ((lp, r'), e) ↦ elim (Option-cases (read_full (uint32 lp) r')) [
    | inl e' ↦ absurd (ground arith)
    | inr ((b, rest'), e') ↦ (
      lp,
      b,
      ground (arith, read_full-eq_some 4 r lp r' e, read_full-eq_some (uint32 lp) r' b rest' e'),
      ground (arith, read_full-eq_some 4 r lp r' e, read_full-eq_some (uint32 lp) r' b rest' e'),
      ground (arith, read_full-eq_some 4 r lp r' e, read_full-eq_some (uint32 lp) r' b rest' e'),
      ground (arith, read_full-eq_some 4 r lp r' e, read_full-eq_some (uint32 lp) r' b rest' e'),
      ground (arith, read_full-eq_some 4 r lp r' e, read_full-eq_some (uint32 lp) r' b rest' e'),
    )
  ]
]
