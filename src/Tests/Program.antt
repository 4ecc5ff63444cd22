-- ===== src/Tests/Program.antt =====
-- internal/config and cmd/relay-tunnel: an account that is saved, an update, and the settings of a file.
use relay_tunnel.Prelude.{
  ◌≡◌, refl, arith, true, false, ◌&&◌, Option, none, some, [], ◌∷◌, ◌++◌, Bytes, codes, nat_eq,
  bytes_eq, ℕ_discrete,
}
use relay_tunnel.Signal.Admin.{to_lower}
use relay_tunnel.Signal.Admin.Password.{split}
use relay_tunnel.Config.{
  AdminSection, Config, data_read, text, object, Fields, empty, field, change_admin, Disk, document,
  save_admin,
}
use relay_tunnel.Config.Keeps.{IsChanged, save_admin_lem}
use relay_tunnel.Cmd.Update.{
  space_parts, fields, checksum_in, checksum_for, Files, Calls, verified, download_and_replace,
}
use relay_tunnel.Cmd.Update.Verified.{is_verified, Installs, download_and_replace_lem}
use relay_tunnel.Cmd.Settings.{
  pick_bool, pick_slice, expose_defaults, server_defaults, cmd_server, cmd_expose, run_server,
  run_expose, auto_modes,
}
use relay_tunnel.Cmd.Settings.Defaults.{auto_modes_lem}

-- Stand-ins for encoding/json: one document, and one text for every document.
abbrev stored : Fields
stored =
    field (codes "server")
      (object
        (field (codes "udp") (text (codes ":7001")) (field (codes "admin") (object empty) empty)))
      empty

abbrev unmarshal : Bytes → Option (Option Fields)
unmarshal d = some (some stored)

abbrev marshal : Fields → Option Bytes
marshal doc = some (codes "{}")

abbrev works : Disk
works = record { created = true; flushed = true; renamed = true }

save_admin_lem_example :
    (save_admin unmarshal marshal (codes "c.json") (codes "root") [] (data_read (codes "{}")) works
      ≡ (none, some (codes "{}" ++ (10 ∷ []))))
    × IsChanged (codes "root") [] stored (change_admin (codes "root") [] stored)
unfolding document bytes_eq ℕ_discrete
save_admin_lem_example =
    save_admin_lem unmarshal marshal (codes "c.json") (codes "root") [] (data_read (codes "{}"))
      works stored (codes "{}") refl (λ e. ground arith) refl refl refl

-- Stand-in for the digest.
abbrev sha256 : Bytes → Bytes
sha256 b = codes "ab"

abbrev sums : Bytes
sums = codes "cd  other_value\nAB *tool\n"

listed_digest : checksum_for sums (codes "tool") ≡ some (codes "ab")
unfolding checksum_for checksum_in fields space_parts split to_lower nat_eq bytes_eq ℕ_discrete
listed_digest = refl

-- Both renames of the new binary fail.
abbrev stuck : Calls
stuck = record {
  created = true;
  written = true;
  partly = [];
  closed = true;
  moded = true;
  cleared = true;
  moved_aside = true;
  moved_in = false;
  put_back = false;
  backup_removed = true;
  staged_removed = true;
}

abbrev installed : Files
installed = record { exe = some (codes "old"); backup = none; staged = none }

download_and_replace_lem_example :
    ((download_and_replace sha256 (codes "tool") (some sums) (some (codes "new")) stuck installed).1
      ≡ (is_verified (verified sha256 (codes "tool") (some sums) (some (codes "new"))) && false))
    × Installs sha256 (codes "tool") (some sums) (some (codes "new")) (codes "old") stuck (
        download_and_replace sha256 (codes "tool") (some sums) (some (codes "new")) stuck installed)
download_and_replace_lem_example =
    download_and_replace_lem sha256 (codes "tool") (codes "old") stuck installed (some sums)
      (some (codes "new")) refl

abbrev admin_section : AdminSection
admin_section = record {
  disabled = false;
  username = [];
  password_hash = [];
  session_hours = 0;
  trust_forwarded_headers = false;
}

abbrev settings : Config
settings = record {
  server = record {
    enabled = true;
    name = [];
    http = [];
    udp = codes ":9";
    public_udp = [];
    public_url = [];
    verbose = false;
    admin = admin_section;
  };
  expose = record {
    enabled = true;
    name = [];
    server = codes "ws://s";
    code = codes "x";
    allow_dial = false;
    allow = codes "h:80" ∷ [];
    allow_exec = false;
    file_root = [];
    verbose = false;
  };
  connect = record {
    enabled = false;
    name = [];
    server = [];
    code = [];
    forward = [];
    socks = [];
    verbose = false;
  };
}

auto_modes_lem_example :
    auto_modes settings
    ≡ run_server (cmd_server [] server_defaults settings.server)
      ∷ run_expose (cmd_expose [] expose_defaults settings.expose)
      ∷ []
auto_modes_lem_example = auto_modes_lem settings

-- The flag `--allow-dial=false` does not stop dialing where the file has a list of targets.
dial_despite_flag :
    (cmd_expose (codes "allow-dial" ∷ []) expose_defaults settings.expose).policy.allow_dial ≡ true
unfolding cmd_expose pick_bool pick_slice nat_eq bytes_eq ℕ_discrete
dial_despite_flag = refl
