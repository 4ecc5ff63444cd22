-- ===== src/Tests/Transfers.antt =====
-- internal/app: an upload and a download, a request of a proxy, and a caller of `Conn`.
use relay_tunnel.Prelude.{
  ℕ, ◌≡◌, ◌⊎◌, inl, inr, ◌&&◌, refl, arith, Bool, true, false, ◌==◌, Option, none, some, List, [],
  ◌∷◌, ◌++◌, Bytes, codes, if◌then◌else◌, nat_eq, bytes_eq, ℕ_discrete,
}
use relay_tunnel.Mux.{FileHeader, OpenMsg, Codec}
use relay_tunnel.Mux.Laws.{buffer}
use relay_tunnel.App.Host.{HostPolicy, has_prefix, inside, host_tcp, dial_allowed}
use relay_tunnel.App.Host.Serve.{Opens, perform_on, serve_stream}
use relay_tunnel.App.Client.{tcp_header, get_header, put_header, begin_stream, file_put, file_get}
use relay_tunnel.App.Client.Transfer.{file_get-file_put}
use relay_tunnel.App.Client.Denied.{denied_download_succeeds}
use relay_tunnel.App.Socks.Laws.{domain, put_uint16}
use relay_tunnel.App.Socks.Serve.{serve_socks, serve_socks-serve_stream}
use relay_tunnel.App.Manager.{new_manager}
use relay_tunnel.App.Manager.Waiting.{
  looking, given_up, got, Event, is_set, is_cleared, runs, on_event, run_events, run_events-returns,
}

-- Stand-ins for `filepath.Abs` and `filepath.Join`.
abbrev absolute : Bytes → Bytes
absolute p = p

abbrev joined : Bytes → Bytes → Bytes
joined root p = root ++ (47 ∷ p)

abbrev policy : HostPolicy
policy = record { allow_dial = true; allow = []; allow_exec = false; file_root = codes "/srv" }

abbrev op_of : Option FileHeader → Bytes
op_of none = []
op_of (some h) = h.op

-- A stand-in for `encoding/json` that keeps the two headers of this path apart.
abbrev json : Codec OpenMsg
json = record {
  marshal = λ m. some (op_of m.file);
  unmarshal =
      λ b. some (if b == codes "get" then get_header (codes "x") else put_header (codes "x") 3 420);
}

rooted : inside absolute joined 47 (codes "/srv/x") (codes "/srv") ≡ true
unfolding inside has_prefix nat_eq bytes_eq ℕ_discrete
rooted = refl

abbrev always : Bytes → Bool
always p = true

abbrev opens : Opens
opens = record { reaches = always; may_read = always; may_write = always }

file_get-file_put_example :
    (w : Bytes) × (v : Bytes) × (file_put json buffer
        (some (codes "abc"))
        (some (3, 420))
        (some [])
        (codes "x")
      ≡ inr w)
    × (begin_stream json buffer (some []) (get_header (codes "x")) ≡ inr v)
    × (file_get json buffer
          (some [])
          (codes "x")
          true
          (serve_stream absolute joined 47 json opens policy v
            (serve_stream absolute joined 47 json opens policy w []).disk).sent
          true
        ≡ record { local = some (codes "abc"); failure = none })
unfolding nat_eq bytes_eq ℕ_discrete
file_get-file_put_example =
    file_get-file_put absolute joined 47 json opens policy (codes "abc") (codes "x") (codes "put")
      (codes "get") 3 420 [] (refl, omega arith, refl) (refl, omega arith, refl)
      (λ e. absurd (ground arith)) rooted refl refl

abbrev show : Bytes → Bytes
show ip = ip

abbrev join : Bytes → ℕ → Bytes
join host port = host ++ (58 ∷ port ∷ [])

-- A stand-in for `encoding/json`: the target is all that it writes.
abbrev target_json : Codec OpenMsg
target_json = record { marshal = λ m. some m.target; unmarshal = λ b. some (tcp_header b) }

serve_socks-serve_stream_example :
    (w : Bytes) × (serve_socks target_json buffer show join true
        ((5 ∷ 1 ∷ 0 ∷ [])
          ++ ((5 ∷ 1 ∷ 0 ∷ 3 ∷ []) ++ ((2 ∷ codes "go") ++ (put_uint16 443 ++ (42 ∷ [])))))
        true
        (some [])
      ≡ some (inr w))
    × (serve_stream absolute joined 47 target_json opens policy w []
        ≡ perform_on opens (host_tcp (join (codes "go") 443) policy) (42 ∷ []) [])
    × ((serve_stream absolute joined 47 target_json opens policy w []).forwarded ≡ (
        if dial_allowed policy (join (codes "go") 443) && always (join (codes "go") 443)
        then 42 ∷ []
        else []))
serve_socks-serve_stream_example =
    serve_socks-serve_stream absolute joined 47 target_json opens policy show join
      (domain (codes "go")) 443 0 5 (0 ∷ []) (42 ∷ []) (join (codes "go") 443) [] (omega arith)
      (omega arith) (refl, omega arith, refl)

-- The caller waits, the connection comes and goes before it runs again, and comes back.
abbrev history : List Event
history = runs ∷ is_set 1 ∷ is_cleared ∷ runs ∷ is_set 2 ∷ []

run_events-returns_example :
    ((run_events history (new_manager, looking)).1 ≡ given_up)
    ⊎ ((d : ℕ) × ((run_events history (new_manager, looking)).1 ≡ got d))
    ⊎ ((run_events (runs ∷ runs ∷ []) (run_events history (new_manager, looking))).1 ≡ got 2)
unfolding run_events on_event
run_events-returns_example = run_events-returns history new_manager 2 refl

abbrev no_root : HostPolicy
no_root = record policy { file_root = [] }

denied_download_succeeds_example :
    (v : Bytes) × (begin_stream json buffer (some []) (get_header (codes "x")) ≡ inr v)
    × ((serve_stream absolute joined 47 json opens no_root v []).disk ≡ [])
    × (file_get json buffer
          (some [])
          (codes "x")
          true
          (serve_stream absolute joined 47 json opens no_root v []).sent
          true
        ≡ record { local = some []; failure = none })
unfolding nat_eq bytes_eq ℕ_discrete
denied_download_succeeds_example =
    denied_download_succeeds absolute joined 47 json opens no_root (codes "x") (codes "get") []
      (refl, omega arith, refl) (inl refl)
