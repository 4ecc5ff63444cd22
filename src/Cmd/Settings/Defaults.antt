-- ===== src/Cmd/Settings/Defaults.antt =====
-- cmd/relay-tunnel/main.go: subcommands without flags, and `cmdAuto`.
use relay_tunnel.Prelude.{
  Bool, false, ◌==◌, inl, inr, List, [], ◌∷◌, ◌++◌, Bytes, codes, length, bytes_eq, nat_eq, ◌≡◌,
  refl, sym, ◌∙◌, arith, Bool-cases, ==→eq, ==-self, ne→==,
}
use relay_tunnel.Config.{ServerSection, ExposeSection, ConnectSection, Config}
use relay_tunnel.Cmd.Settings.{
  pick_str, pick_bool, pick_slice, or_default, server_defaults, expose_defaults, connect_defaults,
  cmd_server, cmd_expose, cmd_connect, run_server, run_expose, run_connect, only_if, auto_server,
  auto_expose, auto_connect, auto_modes,
}

pick_str_unset : (name d v : Bytes) → pick_str [] name d v ≡ or_default v d
unfolding pick_str or_default
pick_str_unset name d v = refl

or_default_empty : (v : Bytes) → or_default v [] ≡ v
unfolding or_default
or_default_empty v = elim (Bool-cases (v == [])) [
  | inl y ↦ rw y (sym (==→eq v [] y))
  | inr y ↦ rw y refl
]

pick_slice_unset : (name : Bytes) (v : List Bytes) → pick_slice [] name [] v ≡ v
unfolding pick_slice
pick_slice_unset name [] = rw (==-self (length {A = Bytes} []), pick_slice) refl
pick_slice_unset name (x ∷ xs) =
    rw (ne→== (length (x ∷ xs)) 0 (λ e. omega (arith, e)), pick_slice) refl

pick_bool_unset : (name : Bytes) (b : Bool) → pick_bool [] name false b ≡ b
unfolding pick_bool
pick_bool_unset name b = refl

text_unset : (name v : Bytes) → pick_str [] name [] v ≡ v
text_unset name v = pick_str_unset name [] v ∙ or_default_empty v

cmd_server_unset : (sec : ServerSection) → cmd_server [] server_defaults sec ≡ auto_server sec
unfolding cmd_server
cmd_server_unset sec =
    rw
      (
        cmd_server,
        pick_str_unset (codes "http") (codes ":7000") sec.http,
        pick_str_unset (codes "udp") (codes ":7001") sec.udp,
        text_unset (codes "public-udp") sec.public_udp,
        text_unset (codes "public-url") sec.public_url,
        text_unset (codes "name") sec.name,
      )
      refl

cmd_expose_unset : (sec : ExposeSection) → cmd_expose [] expose_defaults sec ≡ auto_expose sec
unfolding cmd_expose
cmd_expose_unset sec =
    rw
      (
        cmd_expose,
        text_unset (codes "server") sec.server,
        text_unset (codes "code") sec.code,
        text_unset (codes "name") sec.name,
        text_unset (codes "file-root") sec.file_root,
        pick_slice_unset (codes "allow") sec.allow,
        pick_bool_unset (codes "allow-dial") sec.allow_dial,
        pick_bool_unset (codes "allow-exec") sec.allow_exec,
      )
      refl

cmd_connect_unset : (sec : ConnectSection) → cmd_connect [] connect_defaults sec ≡ auto_connect sec
unfolding cmd_connect
cmd_connect_unset sec =
    rw
      (
        cmd_connect,
        text_unset (codes "server") sec.server,
        text_unset (codes "code") sec.code,
        text_unset (codes "name") sec.name,
        pick_slice_unset (codes "L") sec.forward,
        pick_slice_unset (codes "D") sec.socks,
      )
      refl

-- Without a subcommand exactly the enabled sections are started, in the order server, expose, connect,
-- and each with the settings that its subcommand makes of the same config file when no flag is given.
pub auto_modes_lem :
    (cfg : Config)
    → auto_modes cfg
      ≡ only_if cfg.server.enabled (run_server (cmd_server [] server_defaults cfg.server))
        ++ (only_if cfg.expose.enabled (run_expose (cmd_expose [] expose_defaults cfg.expose))
            ++ only_if cfg.connect.enabled
                (run_connect (cmd_connect [] connect_defaults cfg.connect)))
unfolding auto_modes
auto_modes_lem cfg =
    rw (cmd_server_unset cfg.server, cmd_expose_unset cfg.expose, cmd_connect_unset cfg.connect)
      refl
