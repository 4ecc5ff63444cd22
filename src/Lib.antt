-- ===== src/Lib.antt =====
-- Models of relay-tunnel, which connects a host and a client behind NATs: a rendezvous server pairs
-- two peers that know one code, and they then run QUIC over a punched path, or through the server.
--
-- The parts and their files (paths from the repository's root):
-- - Mux: internal/mux/mux.go. `write_header` and `read_header` are WriteHeader and ReadHeader over
--   a buffer of bytes; encoding/json is the record `Codec`.
-- - Signal/State: internal/signal/proto.go and the types of internal/signal/server.go. Sessions and
--   peers are shared through pointers there, so `Server` keeps them in stores under numbers that
--   are handed out once; the map `sessions` leads from codes to numbers. A message or datagram that
--   is sent is an `Effect`.
-- - Signal/Udp: serveUDP and gcRelay. `handle_datagram` is one round of the loop, `sweep` one tick.
-- - Signal/Pairing: handleWS and tryPair. `handle_hello` is what comes before the read loop,
--   `mark_ready` and `try_pair` serve a "ready" message, `leave` is the deferred function.
-- - Signal/Api: internal/signal/api.go. Each handler is given whether the request is authorized.
--   Signal/Api/Status has the status and the handlers that only read.
-- - Signal/Names: sanitizeName, over runes, logName, publicUDP and randToken.
-- - Signal/Routing: the patterns of Handler, and internal/webui/webui.go, where `serve_path` is the
--   choice of the file or page that answers a path.
-- - Signal/Admin: internal/signal/admin.go. Sessions of browsers, the sign in and the account.
-- - Signal/Step: the server's critical sections as events. The handlers of connections, the UDP
--   loop, the sweep and the API run at the same time and exclude each other with one mutex, so a
--   run is a list of such events, in any order.
-- - Nat: internal/nat/nat.go. Local and remote candidates, hole punching, reflection and the
--   relayed connection; the reads of a socket are a list, so every loop ends with it. The Go loops
--   end at a deadline, after a number of reads that depends on the network.
-- - App: internal/app. `socks_handshake` (socks.go) reads the client's bytes from a list,
--   `handle_stream` (host.go) gives what is done for a stream, and `run_rounds` (connmanager.go) is
--   the loop of ConnManager over what becomes of its dials. App/Client is client.go: `begin_stream`
--   opens a stream and writes its header, `file_put` and `file_get` are the transfers;
--   App/Host/Serve is what the host does for such a stream, so that the two can be run against each
--   other, and `serve_socks` of App/Socks/Serve is a connection of the proxy. In
--   App/Manager/Waiting a caller of Conn looks and waits between the events of Run, in any order.
-- - Sync: examples/relay-sync. `plan_sync` (proto.go) compares two manifests; `sync` is push and
--   pull of client.go, a loop over the actions of the plan of which any may break off, where
--   `listed_tree` has the files that the walks with or without .gitignore rules come to; `handle`
--   (host.go) serves a request over a map from absolute paths to files; `read_frame` and
--   `write_frame` are the frames of proto.go, and Sync/Exchange carries requests and replies as
--   JSON in them; `walk_tree` walks the files below a directory with the rules of gitignore.go;
--   `split_command` and `run_with_retry` are those of main.go, the latter over what becomes of its
--   attempts, where the time that each returns stands in for the clock. `resolve_endpoint` and
--   `start` are its settings and its choice of a command.
-- - Signal/Dial: internal/signal/client.go. `dial` reads the server's messages and the datagrams of
--   the punch from lists; Signal/Dial/Meets puts it against `try_pair`.
-- - Config: internal/config. `save_admin` is SaveAdmin over a JSON document and the calls that
--   write it, Config/Unknown the keys that Load warns of, and Config/Example the document of
--   Example.
-- - Cmd/Update: cmd/relay-tunnel/update.go, with whether each call on the file system succeeds;
--   `self_update` of Cmd/Update/Latest chooses the release.
-- - Cmd/Settings: cmd/relay-tunnel/main.go, the merge of flags and sections, and the modes of
--   cmdAuto. Cmd/Run is the choice of the subcommand and what the modes check before they start.
-- - Prelude holds Go's maps, byte order, comparison and sorting; Tests runs the models.
--
-- Parameters are what the source does not hold: the text of an address (`show`), resolution of
-- names (`resolve`), encoding/json, regular expressions, SHA-256, path and path/filepath (whose
-- documented results the theorems that need them name, as that Abs returns clean paths), random
-- tokens and the clock, arguments of each event. Times are nanoseconds on natural numbers; the
-- counters wrap at 64 bits. A text is the list of its bytes; user names are taken to be ASCII,
-- where strings.ToLower and strings.TrimSpace act on single bytes. The handlers of Signal/Admin
-- take the hash of a password and its verification as arguments; Signal/Admin/Password models
-- them over PBKDF2 and base64.
--
-- Fuel: the loop that cuts a name, `cut_runes`, gets as many rounds as the name has runes, and each
-- round drops one, so it ends by its own test or at the empty name. `parse_positional` gets
-- one round more than there are arguments, since each round takes one away.
--
-- Not modelled: the matching of HTTP requests to patterns (net/http), JSON output, log lines,
-- TLS, QUIC, symbolic links (a file has one path, and is stored under it), the web frontend,
-- flag parsing, HTTP downloads, and the copies between two open connections, of which only the
-- bytes towards the host are followed.
pub mod Prelude
pub mod App
pub mod Mux
pub mod Nat
pub mod Signal
pub mod Sync
pub mod Config
pub mod Cmd
mod Tests
