-- ===== src/Tests/Starting.antt =====
-- cmd/relay-tunnel and internal/app: arguments, forwards and refusals.
use relay_tunnel.Prelude.{
  ◌≡◌, refl, some, none, inl, [], ◌∷◌, ◌++◌, Bytes, codes, nat_eq, bytes_eq, ℕ_discrete,
}
use relay_tunnel.Signal.Admin.Password.{split}
use relay_tunnel.App.Client.{forward_of, parse_forward}
use relay_tunnel.App.Host.{has_prefix}
use relay_tunnel.Signal.Names.{
  sanitized, map_runes, rune_parts, join_words, cut_runes, utf8, utf8_rune,
}
use relay_tunnel.Signal.Names.Token.{hex, rand_token}
use relay_tunnel.Cmd.Run.{
  dispatch, auto, update, unknown_subcommand, one_shot, run_command, wrong_usage, connect_plan,
  missing_endpoint, tunnels, nothing_to_do, run_connect_job,
}
use relay_tunnel.Cmd.Update.Latest.{update_asset_name}

abbrev join : Bytes → Bytes → Bytes
join host port = host ++ (58 ∷ port)

forward_three : parse_forward join (codes "80:h:81") ≡ some (codes "127.0.0.1:80", codes "h:81")
unfolding parse_forward forward_of split nat_eq ℕ_discrete
forward_three = refl

forward_two : parse_forward join (codes "80:h") ≡ none
unfolding parse_forward forward_of split nat_eq ℕ_discrete
forward_two = refl

dispatch_flag : dispatch (codes "-v" ∷ []) ≡ auto (codes "-v" ∷ [])
unfolding dispatch has_prefix nat_eq bytes_eq ℕ_discrete
dispatch_flag = refl

dispatch_version :
    dispatch (codes "--update-version" ∷ codes "v1" ∷ [])
    ≡ update (codes "--version" ∷ codes "v1" ∷ [])
unfolding dispatch has_prefix nat_eq bytes_eq ℕ_discrete
dispatch_version = refl

dispatch_other : dispatch (codes "serve" ∷ []) ≡ unknown_subcommand
unfolding dispatch has_prefix nat_eq bytes_eq ℕ_discrete
dispatch_other = refl

exec_dashes : one_shot (codes "exec") (codes "--" ∷ codes "ls" ∷ []) ≡ run_command (codes "ls" ∷ [])
unfolding one_shot nat_eq bytes_eq ℕ_discrete
exec_dashes = refl

exec_nothing : one_shot (codes "exec") (codes "--" ∷ []) ≡ wrong_usage
unfolding one_shot nat_eq bytes_eq ℕ_discrete
exec_nothing = refl

connect_nothing :
    connect_plan join
      (record { server = codes "s"; code = codes "c"; name = []; forwards = []; socks = [] })
      []
    ≡ tunnels (inl nothing_to_do)
unfolding connect_plan run_connect_job nat_eq bytes_eq ℕ_discrete
connect_nothing = refl

connect_nowhere :
    connect_plan join
      (record { server = []; code = codes "c"; name = []; forwards = []; socks = [] })
      []
    ≡ missing_endpoint
unfolding connect_plan nat_eq bytes_eq ℕ_discrete
connect_nowhere = refl

windows_asset :
    update_asset_name (codes "windows") (codes "amd64") ≡ codes "relay-tunnel-windows-amd64.exe"
unfolding update_asset_name nat_eq bytes_eq ℕ_discrete
windows_asset = refl

name_spaces : sanitized (32 ∷ 97 ∷ 9 ∷ 7 ∷ 228 ∷ []) ≡ 97 ∷ 32 ∷ 228 ∷ []
unfolding sanitized map_runes rune_parts join_words cut_runes utf8 utf8_rune nat_eq ℕ_discrete
name_spaces = refl

token_digits : rand_token (0 ∷ 171 ∷ []) ≡ codes "00ab"
unfolding rand_token hex
token_digits = refl
