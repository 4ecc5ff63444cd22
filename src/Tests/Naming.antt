-- ===== src/Tests/Naming.antt =====
-- internal/signal, internal/webui and examples/relay-sync: a name, the status, a path and an endpoint.
use relay_tunnel.Prelude.{
  ℕ, ◌≡◌, ◌==◌, ◌||◌, refl, Bool, true, false, Option, none, some, List, [], ◌∷◌, ◌++◌, Bytes,
  codes, AllOf, nat_eq, bytes_eq, ℕ_discrete,
}
use relay_tunnel.Signal.State.{new_server, Message, message, type_hello}
use relay_tunnel.Signal.Names.{join_words, utf8, sanitize_name, public_udp_of}
use relay_tunnel.Signal.Names.Words.{IsWord, concat, plain_of, words_of}
use relay_tunnel.Signal.Names.Clean.{IsCut, sanitize_name_lem}
use relay_tunnel.Signal.Api.{ok}
use relay_tunnel.Signal.Api.Views.{status_counts, count_sessions}
use relay_tunnel.Signal.Api.Status.{ServerConfig, StatusView, handle_status}
use relay_tunnel.Config.{Config}
use relay_tunnel.Cmd.Settings.{
  ConnectFlags, cmd_connect, cmd_expose, connect_defaults, expose_defaults,
}
use relay_tunnel.Sync.Command.Endpoint.{resolve_endpoint, resolve_endpoint_lem}

-- Two words with a tab, a control character and spaces around them.
abbrev name : List ℕ
name = 32 ∷ 97 ∷ 9 ∷ 32 ∷ 7 ∷ 228 ∷ 98 ∷ 10 ∷ []

sanitize_name_lem_example :
    (words : List (List ℕ)) × (kept rest : List ℕ) × AllOf IsWord words
    × (words ≡ words_of name)
    × (concat words ≡ plain_of name)
    × (join_words words ≡ kept ++ rest)
    × (sanitize_name name ≡ utf8 kept)
    × IsCut kept rest
sanitize_name_lem_example = sanitize_name_lem name

-- Stand-ins for `net.SplitHostPort` and `net.JoinHostPort`.
abbrev split_host_port : Bytes → Option (Bytes × Bytes)
split_host_port a = some (a, codes "7001")

abbrev join_host_port : Bytes → Bytes → Bytes
join_host_port host port = host ++ (58 ∷ port)

abbrev server : ServerConfig
server = record {
  name = [];
  version = [];
  http_addr = codes ":7000";
  udp_addr = codes ":7001";
  public_udp_addr = [];
  public_url = [];
}

abbrev red_hello : Message
red_hello = record (message type_hello) { code = codes "red"; role = codes "host" }

abbrev status_now : StatusView
status_now = record {
  name = [];
  version = codes "dev";
  started_at = 3;
  uptime = 5;
  http_addr = codes ":7000";
  udp_addr = codes ":7001";
  public_udp_addr = [];
  public_url = [];
  counts = record { sessions = 0; sessions_paired = 0; peers_connected = 0; relays = 0 };
  relay_ttl_seconds = 180;
  totals = record {
    peers_joined = 0;
    pairs = 0;
    reflections = 0;
    relayed_packets = 0;
    relayed_bytes = 0;
    dropped_packets = 0;
  };
  udp = record {
    bound_addr = codes ":7001";
    advertised_addr = codes "h:7001";
    advertised_derived = true;
    packets_received = 0;
    invalid_packets = 0;
    last_packet_at = none;
    last_reflection_at = none;
  };
}

status_lem :
    handle_status split_host_port join_host_port server true (codes "h") 3 8 new_server
    ≡ ok 200 status_now
unfolding handle_status public_udp_of status_counts count_sessions nat_eq bytes_eq ℕ_discrete
status_lem = refl

-- An export with two pages.
abbrev is_exported : Bytes → Bool
is_exported n = n == codes "index.html" || n == codes "sessions.html"

abbrev clean : Bytes → Bytes
clean p = p

abbrev empty_config : Config
empty_config = record {
  server = record {
    enabled = false;
    name = [];
    http = [];
    udp = [];
    public_udp = [];
    public_url = [];
    verbose = false;
    admin = record {
      disabled = false;
      username = [];
      password_hash = [];
      session_hours = 0;
      trust_forwarded_headers = false;
    };
  };
  expose = record {
    enabled = false;
    name = [];
    server = codes "ws://a";
    code = codes "red";
    allow_dial = false;
    allow = [];
    allow_exec = false;
    file_root = [];
    verbose = false;
  };
  connect = record {
    enabled = false;
    name = [];
    server = codes "ws://b";
    code = [];
    forward = [];
    socks = [];
    verbose = false;
  };
}

abbrev typed_code : ConnectFlags
typed_code = record connect_defaults { code = codes "blue" }

resolve_endpoint_lem_example :
    (resolve_endpoint (codes "code" ∷ []) empty_config (codes "connect") [] (codes "blue") ≡ (
      (cmd_connect (codes "code" ∷ []) typed_code empty_config.connect).server,
      (cmd_connect (codes "code" ∷ []) typed_code empty_config.connect).code,
    ))
    × (resolve_endpoint (codes "code" ∷ []) empty_config (codes "expose") [] [] ≡ (
      (cmd_expose (codes "code" ∷ []) expose_defaults empty_config.expose).server,
      (cmd_expose (codes "code" ∷ []) expose_defaults empty_config.expose).code,
    ))
resolve_endpoint_lem_example =
    resolve_endpoint_lem (codes "code" ∷ []) empty_config typed_code expose_defaults
