-- ===== src/Cmd/Run.antt =====
-- cmd/relay-tunnel/main.go: which command the arguments are, what a connecting side is asked to do
-- once, and what the three modes check before they start. An error that ends the program is a value
-- here.
use relay_tunnel.Prelude.{
  ◌*◌, Bool, ◌&&◌, ◌||◌, ◌==◌, Option, ◌⊎◌, inl, inr, List, [], ◌∷◌, ◌++◌, map, Bytes, codes,
  contains, length, if◌then◌else◌, bytes_eq, nat_eq,
}
use relay_tunnel.Signal.State.{hour}
use relay_tunnel.Signal.Admin.{Admin, new_admin}
use relay_tunnel.Signal.Api.Status.{ServerConfig}
use relay_tunnel.App.Host.{has_prefix}
use relay_tunnel.App.Client.{parse_forward}
use relay_tunnel.Cmd.Settings.{ServerJob, ExposeJob, ConnectJob}

pub data Command : Type 0 where
  auto server expose connect update : List Bytes → Command
  show_version show_example show_usage unknown_subcommand : Command

abbrev pub is_one_of : Bytes → List Bytes → Bool
is_one_of word words = contains words word

-- `main`, of the arguments after the program's name.
unfoldable pub dispatch : List Bytes → Command
unfolding has_prefix
dispatch [] = auto []
dispatch (word ∷ rest) =
    if word == codes "server"
    then server rest
    else if word == codes "expose"
    then expose rest
    else if word == codes "connect"
    then connect rest
    else if is_one_of word (codes "update" ∷ codes "-update" ∷ codes "--update" ∷ [])
    then update rest
    else if is_one_of word (codes "-update-version" ∷ codes "--update-version" ∷ [])
    then update (codes "--version" ∷ rest)
    else if is_one_of word (codes "version" ∷ codes "-version" ∷ codes "--version" ∷ [])
    then show_version
    else if is_one_of word
        (codes "example-config" ∷ codes "-example-config" ∷ codes "--example-config" ∷ [])
    then show_example
    else if is_one_of word (codes "-h" ∷ codes "--help" ∷ codes "help" ∷ [])
    then show_usage
    else if has_prefix word (codes "-")
    then auto (word ∷ rest)
    else unknown_subcommand

-- What `cmdConnect` does with the arguments that are no flags, after it has a connection.
pub data OneShot : Type 0 where
  download upload : Bytes → Bytes → OneShot
  run_command : List Bytes → OneShot
  wrong_usage unknown_action : OneShot

abbrev pub two_paths : (Bytes → Bytes → OneShot) → List Bytes → OneShot
two_paths act (a ∷ b ∷ []) = act a b
two_paths act _ = wrong_usage

abbrev pub without_dashes : List Bytes → List Bytes
without_dashes [] = []
without_dashes (a ∷ args) = if a == codes "--" then args else a ∷ args

abbrev pub command_of : List Bytes → OneShot
command_of [] = wrong_usage
command_of (a ∷ args) = run_command (a ∷ args)

unfoldable pub one_shot : Bytes → List Bytes → OneShot
one_shot action args =
    if action == codes "get"
    then two_paths download args
    else if action == codes "put"
    then two_paths upload args
    else if action == codes "exec"
    then command_of (without_dashes args)
    else unknown_action

-- A listener of `runConnect`: a forward with its addresses, none if its text is not one, or a proxy.
pub data Listener : Type 0 where
  forwarding : Option (Bytes × Bytes) → Listener
  proxy : Bytes → Listener

pub data Refusal : Type 0 where
  no_endpoint nothing_to_do : Refusal

-- `runConnect`: what it listens on.
unfoldable pub run_connect_job : (Bytes → Bytes → Bytes) → ConnectJob → Refusal ⊎ List Listener
unfolding parse_forward
run_connect_job join job =
    if job.server == [] || job.code == []
    then inl no_endpoint
    else if length job.forwards == 0 && length job.socks == 0
    then inl nothing_to_do
    else inr (
        map (λ spec. forwarding (parse_forward join spec)) job.forwards
        ++ map (λ spec. proxy spec) job.socks)

-- What `cmdConnect` does with its settings and arguments.
pub data ConnectPlan : Type 0 where
  missing_endpoint : ConnectPlan
  once : OneShot → ConnectPlan
  tunnels : Refusal ⊎ List Listener → ConnectPlan

unfoldable pub connect_plan : (Bytes → Bytes → Bytes) → ConnectJob → List Bytes → ConnectPlan
unfolding run_connect_job one_shot
connect_plan join job rest =
    if job.server == [] || job.code == [] then missing_endpoint else elim rest [
      | [] ↦ tunnels (run_connect_job join job)
      | action ∷ args ↦ once (one_shot action args)
    ]

-- `runExpose`: the server, the code, which is `newCode()` if there was none, and the policy that is
-- served.
unfoldable pub run_expose_job : Bytes → ExposeJob → Refusal ⊎ ExposeJob
run_expose_job new_code job =
    if job.server == []
    then inl no_endpoint
    else inr (record job { code = if job.code == [] then new_code else job.code })

-- `runServer`: the configuration of the server, and the administrator's sign in. `disabled` and
-- `trust_forwarded_headers` go with it as they are.
abbrev pub server_config : Bytes → ServerJob → ServerConfig
server_config version job = record {
  name = job.name;
  version = version;
  http_addr = job.http_addr;
  udp_addr = job.udp_addr;
  public_udp_addr = job.public_udp;
  public_url = job.public_url;
}

unfoldable pub run_server_job : Bytes → ServerJob → ServerConfig × Admin
unfolding new_admin
run_server_job version job = (
  server_config version job,
  new_admin (job.admin.session_hours * hour)
      (record { username = job.admin.username; password_hash = job.admin.password_hash }),
)
