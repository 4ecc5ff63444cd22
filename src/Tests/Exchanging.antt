-- ===== src/Tests/Exchanging.antt =====
-- examples/relay-sync: requests over the streams that carry them.
use relay_tunnel.Prelude.{
  if◌then◌else◌, ◌==◌, ◌≡◌, refl, arith, true, none, some, [], ◌∷◌, ◌++◌, Bytes, codes, lookup, sym,
  subst, nat_eq, bytes_eq, ℕ_discrete,
}
use relay_tunnel.App.Host.{has_prefix}
use relay_tunnel.Sync.Files.{Tree}
use relay_tunnel.Sync.Pass.{written}
use relay_tunnel.Sync.Host.{host_get, file, confine, handle}
use relay_tunnel.Sync.Frame.{write_frame}
use relay_tunnel.Sync.Exchange.{Codecs, serve_exchange}
use relay_tunnel.Sync.Exchange.Carried.{FitsReply, Carries, for_get, serve_exchange-Carries}
use relay_tunnel.Sync.Host.Stored.{put_request, get_request}
use relay_tunnel.Sync.Exchange.{acknowledged, received_file}
use relay_tunnel.Sync.Exchange.Stored.{exchange_put_then_get}
use relay_tunnel.Tests.Serving.{
  absolute, joined, match_string, path_base, root, io, readme, readme_path,
}

-- Stand-ins for encoding/json: two requests and two replies, and texts that tell little of them.
abbrev codecs : Codecs
codecs = record {
  request = record {
    marshal = λ r. some r.op;
    unmarshal = λ b. some (
        if b == codes "get"
        then get_request (codes "readme")
        else put_request (codes "readme") readme);
  };
  manifest = record { marshal = λ r. none; unmarshal = λ b. none };
  get = record {
    marshal = λ r. some (r.size ∷ []);
    unmarshal = λ b. some (record { accepted = true; problem = []; size = 5 });
  };
  plain = record {
    marshal = λ r. some (1 ∷ []);
    unmarshal = λ b. some (record { accepted = true; problem = [] });
  };
}

abbrev shared : Tree
shared = (codes "/srv/readme", readme) ∷ []

shared_reply :
    (handle absolute joined 47 match_string path_base root
      (some (get_request (codes "readme")))
      []
      io
      shared).1
    ≡ file 5 (codes "hello")
unfolding handle host_get confine has_prefix lookup nat_eq bytes_eq ℕ_discrete
shared_reply = refl

shared_fits :
    FitsReply codecs
      (codes "error")
      for_get
      (handle absolute joined 47 match_string path_base root
        (some (get_request (codes "readme")))
        []
        io
        shared).1
      (5 ∷ [])
shared_fits =
    subst (λ r. FitsReply codecs (codes "error") for_get r (5 ∷ [])) (sym shared_reply)
      (refl, omega arith, refl)

serve_exchange-Carries_example :
    ((serve_exchange codecs
        (codes "error")
        absolute
        joined
        47
        match_string
        path_base
        root
        (write_frame [] (codes "get") ++ [])
        io
        shared).0
      ≡ (handle absolute joined 47 match_string path_base root
          (some (get_request (codes "readme")))
          []
          io
          shared).0)
    × Carries codecs
        (codes "error")
        95
        60
        for_get
        (handle absolute joined 47 match_string path_base root
          (some (get_request (codes "readme")))
          []
          io
          shared).1
        (serve_exchange codecs
          (codes "error")
          absolute
          joined
          47
          match_string
          path_base
          root
          (write_frame [] (codes "get") ++ [])
          io
          shared).1
unfolding nat_eq bytes_eq ℕ_discrete
serve_exchange-Carries_example =
    serve_exchange-Carries codecs (codes "error") absolute joined 47 match_string path_base root
      (get_request (codes "readme")) [] io shared 95 60 for_get (codes "get") (5 ∷ []) refl
      (refl, omega arith, refl) shared_fits

abbrev served_readme : Bytes → Tree → Tree × Bytes
served_readme stream fs =
    serve_exchange codecs (codes "error") absolute joined 47 match_string path_base root stream io
      fs

exchange_put_then_get_example :
    (acknowledged codecs (served_readme (write_frame [] (codes "put") ++ readme.content) []).1
      ≡ true)
    × ((served_readme (write_frame [] (codes "put") ++ readme.content) []).0
        ≡ written (codes "/srv/readme") 90 [] (some readme))
    × (received_file codecs 95 60
          (served_readme
            (write_frame [] (codes "get"))
            (served_readme (write_frame [] (codes "put") ++ readme.content) []).0).1
        ≡ some readme)
unfolding nat_eq bytes_eq ℕ_discrete
exchange_put_then_get_example =
    exchange_put_then_get codecs (codes "error") absolute joined 47 match_string path_base root
      (codes "readme") (codes "/srv/readme") readme io io [] 95 (codes "put") (1 ∷ []) (codes "get")
      (5 ∷ []) readme_path refl refl refl (omega arith) refl (refl, omega arith, refl)
      (refl, omega arith, refl) (refl, omega arith, refl) (refl, omega arith, refl)
