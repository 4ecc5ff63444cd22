-- ===== src/Tests/Frames.antt =====
-- internal/mux: one header written and read.
use relay_tunnel.Prelude.{◌≡◌, ◌≤◌, refl, arith, none, some, [], ◌∷◌, ◌++◌, Bytes, length}
use relay_tunnel.Prelude.Wire.{read_full, uint32}
use relay_tunnel.Mux.{kind_tcp, OpenMsg, Codec, ok, max_header, write_header, read_header}
use relay_tunnel.Mux.Laws.{buffer, read_header-write_header, read_header_frame}

-- A stand-in for `encoding/json`: the kind is all that it writes.
abbrev json : Codec OpenMsg
json = record {
  marshal = λ m. some m.kind;
  unmarshal = λ b. some (record { kind = b; target = []; file = none; exec = none });
}

abbrev tcp : OpenMsg
tcp = record { kind = kind_tcp; target = []; file = none; exec = none }

read_header-write_header_example :
    (w : Bytes) × (write_header json buffer [] tcp ≡ ok w)
    × (read_header json (w ++ (42 ∷ [])) ≡ ok (tcp, 42 ∷ []))
read_header-write_header_example =
    read_header-write_header json tcp kind_tcp refl (42 ∷ []) (omega arith) refl

abbrev frame : Bytes
frame = 0 ∷ 0 ∷ 0 ∷ 3 ∷ (kind_tcp ++ (42 ∷ []))

frame_lem : read_header json frame ≡ ok (tcp, 42 ∷ [])
unfolding read_header read_full uint32
frame_lem = refl

read_header_frame_example :
    (lp : Bytes) × (b : Bytes) × (frame ≡ lp ++ (b ++ (42 ∷ [])))
    × (length lp ≡ 4)
    × (length b ≡ uint32 lp)
    × (length b ≤ max_header)
    × (json.unmarshal b ≡ some tcp)
read_header_frame_example = read_header_frame json frame (42 ∷ []) tcp frame_lem
