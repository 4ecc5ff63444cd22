-- ===== src/Signal/Names.antt =====
-- internal/signal/server.go: the name that a peer gives itself, its token, and the address that peers
-- are told to probe. A Go text that is looked at by runes is a list of runes.
pub mod Clean
pub mod Words
pub mod Token
use relay_tunnel.Prelude.{
  ℕ, ◌+◌, ◌/◌, ◌%◌, zero, suc, Bool, true, false, not, ◌||◌, ◌&&◌, ◌==◌, Option, none, some, List,
  [], ◌∷◌, ◌++◌, Bytes, codes, length, ltb, leb, if◌then◌else◌, nat_eq, bytes_eq,
}
use relay_tunnel.Signal.Admin.Password.{push}
use relay_tunnel.Cmd.Update.{drop_empty}
use relay_tunnel.Signal.Pairing.{Hello}

abbrev pub max_name_len : ℕ
max_name_len = 64

-- `unicode.IsSpace`
abbrev pub is_rune_space : ℕ → Bool
is_rune_space r =
    (leb 9 r && leb r 13)
    || r == 32
    || r == 133
    || r == 160
    || r == 5760
    || (leb 8192 r && leb r 8202)
    || r == 8232
    || r == 8233
    || r == 8239
    || r == 8287
    || r == 12288

-- `unicode.IsControl`
abbrev pub is_control : ℕ → Bool
is_control r = leb r 31 || (leb 127 r && leb r 159)

-- The UTF-8 of a rune.
unfoldable pub utf8_rune : ℕ → Bytes
utf8_rune r =
    if ltb r 128
    then r ∷ []
    else if ltb r 2048
    then (192 + r / 64) ∷ (128 + r % 64) ∷ []
    else if ltb r 65536
    then (224 + r / 4096) ∷ (128 + r / 64 % 64) ∷ (128 + r % 64) ∷ []
    else (240 + r / 262144) ∷ (128 + r / 4096 % 64) ∷ (128 + r / 64 % 64) ∷ (128 + r % 64) ∷ []

unfoldable pub utf8 : List ℕ → Bytes
unfolding utf8_rune
utf8 [] = []
utf8 (r ∷ rs) = utf8_rune r ++ utf8 rs

-- `strings.Map` with the function of `sanitizeName`
unfoldable pub map_runes : List ℕ → List ℕ
map_runes [] = []
map_runes (r ∷ rs) =
    let rest = map_runes rs in
    if is_rune_space r then 32 ∷ rest else if is_control r then rest else r ∷ rest

-- The parts between spaces, of which `strings.Fields` keeps those that are not empty.
unfoldable pub rune_parts : List ℕ → List (List ℕ)
rune_parts [] = [] ∷ []
rune_parts (r ∷ rs) = let rest = rune_parts rs in if is_rune_space r then [] ∷ rest else push r rest

-- `strings.Join` with a space
unfoldable pub join_words : List (List ℕ) → List ℕ
join_words [] = []
join_words (w ∷ []) = w
join_words (w ∷ v ∷ ws) = w ++ (32 ∷ join_words (v ∷ ws))

abbrev pub drop_last : List ℕ → List ℕ
drop_last [] = []
drop_last (r ∷ []) = []
drop_last (r ∷ s ∷ rs) = r ∷ drop_last (s ∷ rs)

-- The loop that cuts the last rune, with fuel.
unfoldable pub cut_runes : ℕ → List ℕ → List ℕ
unfolding utf8
cut_runes zero name = name
cut_runes (suc n) name =
    let rest = cut_runes n (drop_last name) in
    if ltb max_name_len (length (utf8 name)) then rest else name

-- `sanitizeName`: the runes that are kept.
unfoldable pub sanitized : List ℕ → List ℕ
unfolding cut_runes join_words rune_parts map_runes
sanitized name =
    let words = join_words (drop_empty (rune_parts (map_runes name))) in
    cut_runes (length words) words

unfoldable pub sanitize_name : List ℕ → Bytes
unfolding sanitized
sanitize_name name = utf8 (sanitized name)

-- `logName`; `quote` is the verb `%q` of fmt.
unfoldable pub log_name : (Bytes → Bytes) → Bytes → Bytes
log_name quote name = if name == [] then [] else codes " name=" ++ quote name

abbrev pub host_or : Option (Bytes × Bytes) → Bytes → Bytes
host_or none other = other
host_or (some (host, port)) other = host

abbrev pub port_or_empty : Option (Bytes × Bytes) → Bytes
port_or_empty none = []
port_or_empty (some (host, port)) = port

-- `publicUDP`; `split_host_port` and `join_host_port` are net's, and `request_host` is `r.Host`.
unfoldable pub public_udp_of :
    (Bytes → Option (Bytes × Bytes)) → (Bytes → Bytes → Bytes) → Bytes → Bytes → Bytes → Bytes
public_udp_of split_host_port join_host_port configured udp_addr request_host =
    if not (configured == [])
    then configured
    else join_host_port (host_or (split_host_port request_host) request_host)
        (port_or_empty (split_host_port udp_addr))
