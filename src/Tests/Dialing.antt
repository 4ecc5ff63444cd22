-- ===== src/Tests/Dialing.antt =====
-- internal/signal: two peers that dial, one directly and one through the server.
use relay_tunnel.Prelude.{
  ℕ, ◌≡◌, ◌≢◌, refl, arith, false, Option, some, [], ◌∷◌, Bytes, codes, length, lookup, nat_eq,
  bytes_eq, ℕ_discrete,
}
use relay_tunnel.Signal.State.{
  Addr, host, client, Peer, Server, new_server, message, type_reflected,
}
use relay_tunnel.Signal.Pairing.{try_pair}
use relay_tunnel.Signal.Pairing.Once.{HasPeers}
use relay_tunnel.Nat.Relay.{reflect, token_len}
use relay_tunnel.Signal.Dial.{DialParams, Input, dial}
use relay_tunnel.Signal.Dial.Meets.{inbox, Hears, met, to_host, to_client, dial_meets}
use relay_tunnel.Tests.Scenario.{addr_a, token_a, token_b, code_x, peer_a, peer_b, session_x}

abbrev here : Peer
here = record peer_a { public = codes "a:1"; fp = codes "f" }

abbrev there : Peer
there = record peer_b { public = codes "b:2" }

abbrev meeting : Server
meeting = record new_server {
  sessions = (code_x, 0) ∷ [];
  objects = (0, session_x) ∷ [];
  peers = (1, here) ∷ (2, there) ∷ [];
  next = 3;
}

meeting-HasPeers : HasPeers 0 1 2 session_x here there meeting
unfolding lookup nat_eq ℕ_discrete
meeting-HasPeers = record {
  at_session = refl;
  host_slot = refl;
  client_slot = refl;
  at_host = refl;
  at_client = refl;
}

-- Stand-ins for `net.ResolveUDPAddr` and `UDPAddr.String`.
abbrev resolve : Bytes → Option Addr
resolve t = some addr_a

abbrev show : Addr → Bytes
show a = a.ip

abbrev server : Bytes
server = codes "s:7"

abbrev input_of : ℕ → Bytes → Input
input_of number token = record {
  first = some (record (message type_reflected) { relay_token = token; relay_addr = server });
  reflections = some (codes "RTADx:1") ∷ [];
  locals = [];
  messages = inbox number (try_pair 14 0 meeting).1;
  punches = [];
  force_relay = false;
}

abbrev host_params : DialParams
host_params = record { code = code_x; role = host; name = []; cert_fingerprint = codes "f" }

abbrev client_params : DialParams
client_params = record { code = code_x; role = client; name = []; cert_fingerprint = [] }

one-ne : ◌≢◌ {A = ℕ} 1 2
one-ne e = absurd (omega (arith, e))

hears :
    (number : ℕ) (token : Bytes)
    → length token ≡ token_len
    → Hears resolve
        (input_of number token)
        token
        server
        (codes "x:1")
        addr_a
        (inbox number (try_pair 14 0 meeting).1)
unfolding reflect nat_eq bytes_eq ℕ_discrete
hears number token l = record {
  first = refl;
  named = λ e. ground arith;
  resolves = refl;
  token_length = l;
  reflects = refl;
  messages = refl;
}

dial_meets_example :
    (dial resolve show host_params (input_of 1 token_a)
      ≡ met resolve show host_params
          (input_of 1 token_a)
          (codes "x:1")
          addr_a
          token_a
          (to_host here there))
    × (dial resolve show client_params (input_of 2 token_b)
        ≡ met resolve show client_params
            (input_of 2 token_b)
            (codes "x:1")
            addr_a
            token_b
            (to_client here there))
dial_meets_example =
    dial_meets resolve show 14 0 1 2 session_x here there meeting host_params client_params
      (input_of 1 token_a) (input_of 2 token_b) server (codes "x:1") (codes "x:1") addr_a
      meeting-HasPeers refl refl refl one-ne (λ e. ground arith) (λ e. ground arith)
      (hears 1 token_a refl) (hears 2 token_b refl)
