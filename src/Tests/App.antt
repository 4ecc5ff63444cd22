-- ===== src/Tests/App.antt =====
-- internal/app: a SOCKS request, a stream of a host, and a connection that is lost.
use relay_tunnel.Prelude.{
  ℕ, ◌≡◌, refl, inl, inr, Bool-cases, if◌then◌else◌, nat_eq, bytes_eq, ℕ_discrete, arith, true,
  false, none, some, List, [], ◌∷◌, ◌++◌, Bytes, codes,
}
use relay_tunnel.Mux.{kind_file, OpenMsg}
use relay_tunnel.Signal.Admin.Password.{split}
use relay_tunnel.App.Host.{HostPolicy, handle_stream}
use relay_tunnel.App.Host.Laws.{IsClean, has_dots, Permits, handle_stream-Permits}
use relay_tunnel.App.Manager.{new_manager, failed, connected, Round, run_rounds}
use relay_tunnel.App.Manager.Laws.{
  IsIdle, AllBounded, failures, waits_from, run_rounds-IsIdle, run_rounds-waits,
}

-- Stand-ins for `net.IP.String`, `net.JoinHostPort`, `filepath.Abs` and `filepath.Join`.
abbrev show : Bytes → Bytes
show ip = ip

abbrev join : Bytes → ℕ → Bytes
join host port = host ++ (58 ∷ port ∷ [])

abbrev absolute : Bytes → Bytes
absolute p = if has_dots (split 47 p) then codes "/" else p

slash-IsClean : IsClean 47 (codes "/")
unfolding split nat_eq bytes_eq ℕ_discrete
slash-IsClean = refl

absolute-IsClean : (p : Bytes) → IsClean 47 (absolute p)
absolute-IsClean p = elim (Bool-cases (has_dots (split 47 p))) [
  | inl e ↦ rw e slash-IsClean
  | inr e ↦ rw e e
]

abbrev joined : Bytes → Bytes → Bytes
joined root p = root ++ (47 ∷ p)

abbrev policy : HostPolicy
policy = record {
  allow_dial = true;
  allow = codes "a:1" ∷ [];
  allow_exec = false;
  file_root = codes "/srv";
}

abbrev get_file : OpenMsg
get_file = record {
  kind = kind_file;
  target = [];
  file = some (record { op = codes "get"; path = codes "x"; size = 0; mode = 0 });
  exec = none;
}

handle_stream-Permits_example :
    Permits absolute 47 policy (handle_stream absolute joined 47 (some get_file) policy)
handle_stream-Permits_example =
    handle_stream-Permits absolute joined 47 absolute-IsClean (some get_file) policy

abbrev rounds : List Round
rounds = failed ∷ failed ∷ connected 1 false ∷ failed ∷ connected 2 true ∷ []

run_rounds-IsIdle_example :
    IsIdle (run_rounds rounds new_manager).0 × AllBounded (run_rounds rounds new_manager).1
run_rounds-IsIdle_example =
    run_rounds-IsIdle rounds new_manager (refl, refl, refl, omega arith, omega arith)

run_rounds-waits_example :
    (run_rounds (connected 1 false ∷ failures 5) new_manager).1 ≡ waits_from 0 5
run_rounds-waits_example = run_rounds-waits 1 5 new_manager
