-- ===== src/Cmd/Settings.antt =====
-- cmd/relay-tunnel/main.go: how flags and the config file make the settings of `cmdServer`,
-- `cmdExpose` and `cmdConnect`, and which modes `cmdAuto` starts. A flag set is the list of the names
-- that were given.
pub mod Defaults
use relay_tunnel.Prelude.{
  ℕ, Bool, true, false, not, ◌&&◌, ◌||◌, ◌==◌, Option, none, some, ◌⊎◌, inl, inr, List, [], ◌∷◌,
  ◌++◌, Bytes, codes, contains, length, ltb, if◌then◌else◌, bytes_eq, nat_eq,
}
use relay_tunnel.App.Host.{HostPolicy}
use relay_tunnel.Config.{AdminSection, ServerSection, ExposeSection, ConnectSection, Config}

unfoldable pub pick_str : List Bytes → (name flag_val cfg_val : Bytes) → Bytes
pick_str set name flag_val cfg_val =
    if contains set name || cfg_val == [] then flag_val else cfg_val

unfoldable pub pick_bool : List Bytes → Bytes → Bool → Bool → Bool
pick_bool set name flag_val cfg_val = if contains set name then flag_val else flag_val || cfg_val

unfoldable pub pick_slice : List Bytes → Bytes → List Bytes → List Bytes → List Bytes
pick_slice set name flag_val cfg_val =
    if contains set name || length cfg_val == 0 then flag_val else cfg_val

-- `orDefault`
unfoldable pub or_default : Bytes → Bytes → Bytes
or_default v d = if v == [] then d else v

-- The arguments of `runServer`, `runExpose` and `runConnect`.
pub record ServerJob : Type 0 where
  pub http_addr : Bytes
  pub udp_addr : Bytes
  pub public_udp : Bytes
  pub public_url : Bytes
  pub name : Bytes
  pub admin : AdminSection

pub record ExposeJob : Type 0 where
  pub server : Bytes
  pub code : Bytes
  pub name : Bytes
  pub policy : HostPolicy

pub record ConnectJob : Type 0 where
  pub server : Bytes
  pub code : Bytes
  pub name : Bytes
  pub forwards : List Bytes
  pub socks : List Bytes

pub record ServerFlags : Type 0 where
  pub http : Bytes
  pub udp : Bytes
  pub public_udp : Bytes
  pub public_url : Bytes
  pub admin : Bool
  pub name : Bytes

pub record ExposeFlags : Type 0 where
  pub server : Bytes
  pub code : Bytes
  pub allow_dial : Bool
  pub allow_exec : Bool
  pub file_root : Bytes
  pub allow : List Bytes
  pub name : Bytes

pub record ConnectFlags : Type 0 where
  pub server : Bytes
  pub code : Bytes
  pub forwards : List Bytes
  pub socks : List Bytes
  pub name : Bytes

-- The flags' defaults.
abbrev pub server_defaults : ServerFlags
server_defaults = record {
  http = codes ":7000";
  udp = codes ":7001";
  public_udp = [];
  public_url = [];
  admin = true;
  name = [];
}

abbrev pub expose_defaults : ExposeFlags
expose_defaults = record {
  server = [];
  code = [];
  allow_dial = false;
  allow_exec = false;
  file_root = [];
  allow = [];
  name = [];
}

abbrev pub connect_defaults : ConnectFlags
connect_defaults = record { server = []; code = []; forwards = []; socks = []; name = [] }

-- The administrator's section; the flag can only turn the interface off.
abbrev pub admin_of : List Bytes → Bool → AdminSection → AdminSection
admin_of set admin sec =
    if contains set (codes "admin") && not admin then record sec { disabled = true } else sec

unfoldable pub cmd_server : List Bytes → ServerFlags → ServerSection → ServerJob
unfolding pick_str
cmd_server set f sec = record {
  http_addr = pick_str set (codes "http") f.http sec.http;
  udp_addr = pick_str set (codes "udp") f.udp sec.udp;
  public_udp = pick_str set (codes "public-udp") f.public_udp sec.public_udp;
  public_url = pick_str set (codes "public-url") f.public_url sec.public_url;
  name = pick_str set (codes "name") f.name sec.name;
  admin = admin_of set f.admin sec.admin;
}

unfoldable pub cmd_expose : List Bytes → ExposeFlags → ExposeSection → ExposeJob
unfolding pick_str pick_bool pick_slice
cmd_expose set f ex =
    let allow_list = pick_slice set (codes "allow") f.allow ex.allow in
    record {
      server = pick_str set (codes "server") f.server ex.server;
      code = pick_str set (codes "code") f.code ex.code;
      name = pick_str set (codes "name") f.name ex.name;
      policy = record {
        allow_dial =
            pick_bool set (codes "allow-dial") f.allow_dial ex.allow_dial
            || ltb 0 (length allow_list);
        allow = allow_list;
        allow_exec = pick_bool set (codes "allow-exec") f.allow_exec ex.allow_exec;
        file_root = pick_str set (codes "file-root") f.file_root ex.file_root;
      };
    }

unfoldable pub cmd_connect : List Bytes → ConnectFlags → ConnectSection → ConnectJob
unfolding pick_str pick_slice
cmd_connect set f cc = record {
  server = pick_str set (codes "server") f.server cc.server;
  code = pick_str set (codes "code") f.code cc.code;
  name = pick_str set (codes "name") f.name cc.name;
  forwards = pick_slice set (codes "L") f.forwards cc.forward;
  socks = pick_slice set (codes "D") f.socks cc.socks;
}

pub data Mode : Type 0 where
  run_server : ServerJob → Mode
  run_expose : ExposeJob → Mode
  run_connect : ConnectJob → Mode

abbrev pub only_if : Bool → Mode → List Mode
only_if true m = m ∷ []
only_if false m = []

abbrev pub auto_server : ServerSection → ServerJob
auto_server sc = record {
  http_addr = or_default sc.http (codes ":7000");
  udp_addr = or_default sc.udp (codes ":7001");
  public_udp = sc.public_udp;
  public_url = sc.public_url;
  name = sc.name;
  admin = sc.admin;
}

abbrev pub auto_expose : ExposeSection → ExposeJob
auto_expose ex = record {
  server = ex.server;
  code = ex.code;
  name = ex.name;
  policy = record {
    allow_dial = ex.allow_dial || ltb 0 (length ex.allow);
    allow = ex.allow;
    allow_exec = ex.allow_exec;
    file_root = ex.file_root;
  };
}

abbrev pub auto_connect : ConnectSection → ConnectJob
auto_connect cc = record {
  server = cc.server;
  code = cc.code;
  name = cc.name;
  forwards = cc.forward;
  socks = cc.socks;
}

-- The modes that `cmdAuto` starts.
unfoldable pub auto_modes : Config → List Mode
unfolding or_default
auto_modes cfg =
    only_if cfg.server.enabled (run_server (auto_server cfg.server))
    ++ (only_if cfg.expose.enabled (run_expose (auto_expose cfg.expose))
        ++ only_if cfg.connect.enabled (run_connect (auto_connect cfg.connect)))
