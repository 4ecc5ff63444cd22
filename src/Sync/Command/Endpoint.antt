-- ===== src/Sync/Command/Endpoint.antt =====
-- examples/relay-sync/main.go: the endpoint, and the arguments of its commands. A flag set is the list of
-- the names that were given, as in cmd/relay-tunnel.
use relay_tunnel.Prelude.{
  not, ◌&&◌, ◌||◌, ◌==◌, ◌≡◌, List, [], ◌∷◌, Bytes, codes, contains, ◌⊎◌, inl, inr, if◌then◌else◌,
  bytes_eq, nat_eq, arith, ℕ_discrete, length,
}
use mathlib.Core.Path.{ap₂}
use relay_tunnel.Config.{Config}
use relay_tunnel.Cmd.Settings.{pick_str, cmd_connect, cmd_expose, ConnectFlags, ExposeFlags}

-- `secServer, secCode`
unfoldable pub section_of : Bytes → Config → Bytes × Bytes
section_of section cfg =
    if section == codes "connect"
    then (cfg.connect.server, cfg.connect.code)
    else (cfg.expose.server, cfg.expose.code)

unfoldable pub override : List Bytes → (name flag_val sec_val : Bytes) → Bytes
override set name flag_val sec_val =
    if not (contains set name) && not (sec_val == []) then sec_val else flag_val

-- `resolveEndpoint`, of the configuration that `config.Load` gave.
unfoldable pub resolve_endpoint :
    List Bytes → Config → (section server code : Bytes) → Bytes × Bytes
unfolding section_of override
resolve_endpoint set cfg section server code =
    let (sec_server, sec_code) = section_of section cfg in
    (override set (codes "server") server sec_server, override set (codes "code") code sec_code)

pub data Usage : Type 0 where
  no_endpoint wrong_arguments : Usage

-- `cmdServe`: the endpoint and the directory.
unfoldable pub cmd_serve : Bytes × Bytes → List Bytes → Usage ⊎ (Bytes × Bytes × Bytes)
cmd_serve (server, code) rest = if server == [] || code == [] then inl no_endpoint else elim rest [
  | [] ↦ inl wrong_arguments
  | dir ∷ more ↦ if length more == 0 then inr (server, code, dir) else inl wrong_arguments
]

override-pick_str :
    (set : List Bytes) (name flag_val sec_val : Bytes)
    → override set name flag_val sec_val ≡ pick_str set name flag_val sec_val
unfolding override pick_str
override-pick_str set name flag_val sec_val = ground arith

-- From the same flags and configuration, relay-sync uses the server and the code that relay-tunnel uses:
-- `serve` those of `expose`, and `push` and `pull` those of `connect`.
pub resolve_endpoint_lem :
    (set : List Bytes) (cfg : Config) (f : ConnectFlags) (g : ExposeFlags)
    → (resolve_endpoint set cfg (codes "connect") f.server f.code
        ≡ ((cmd_connect set f cfg.connect).server, (cmd_connect set f cfg.connect).code))
      × (resolve_endpoint set cfg (codes "expose") g.server g.code
          ≡ ((cmd_expose set g cfg.expose).server, (cmd_expose set g cfg.expose).code))
unfolding resolve_endpoint section_of cmd_connect cmd_expose bytes_eq nat_eq ℕ_discrete
resolve_endpoint_lem set cfg f g = (
  ap₂ (λ a b. (a, b)) (override-pick_str set (codes "server") f.server cfg.connect.server)
      (override-pick_str set (codes "code") f.code cfg.connect.code),
  ap₂ (λ a b. (a, b)) (override-pick_str set (codes "server") g.server cfg.expose.server)
      (override-pick_str set (codes "code") g.code cfg.expose.code),
)
