-- ===== src/Signal/Dial/Meets.antt =====
-- internal/signal: `Dial` of client.go against what `handleWS` and `tryPair` of server.go send.
use relay_tunnel.Prelude.{
  ℕ, Bool, true, false, ◌==◌, Option, none, some, inl, inr, List, [], ◌∷◌, Bytes, length,
  if◌then◌else◌, nat_eq, bytes_eq, ℕ_discrete, ◌≡◌, ◌≢◌, refl, subst, sym, ap, arith, Bool-cases,
  Option-cases, ne→==, ==-self,
}
use relay_tunnel.Signal.State.{
  Addr, host, client, role_name, Message, message, type_reflected, type_paired, type_go, type_error,
  Effect, send, Peer, Session, Server,
}
use relay_tunnel.Signal.Pairing.{try_pair}
use relay_tunnel.Signal.Pairing.Once.{HasPeers, try_pair_tells_both}
use relay_tunnel.Nat.Relay.{reflect, new_relay_conn, token_len}
use relay_tunnel.Signal.Dial.{
  DialParams, Input, Link, direct, relayed, Dialed, await_go, hello_message, ready_message,
  candidates, punch, reflected, relay_path, by_relay, path_to, dial_reflected, dial,
}

-- The messages of effects that go to the peer with this number.
abbrev pub inbox : ℕ → List Effect → List (Option Message)
inbox c [] = []
inbox c (send d m ∷ es) = if c == d then some m ∷ inbox c es else inbox c es
inbox c (_ ∷ es) = inbox c es

-- The direct path where the punch finds the peer, and the path through the server otherwise.
abbrev pub path_or_relay : Bool → Option Addr → Addr → Bytes → Link
path_or_relay true o srv token = relayed srv token
path_or_relay false none srv token = relayed srv token
path_or_relay false (some peer) srv token = direct peer

reflected_ne_error : (type_reflected == type_error) ≡ false
reflected_ne_error = ground arith

await_go_pair :
    (x m : Message) (ms : List (Option Message))
    → m.kind ≡ type_paired
    → await_go x (some m ∷ some (message type_go) ∷ ms) ≡ inr m
unfolding await_go bytes_eq ℕ_discrete
await_go_pair x m ms e = rw e refl

-- What the server's register message says, that the server is reached and reflects, and the messages
-- that come after.
pub record Hears (resolve : Bytes → Option Addr) (i : Input) (token server public : Bytes)
    (srv : Addr) (ms : List (Option Message)) : Type 0 where
  pub first :
      i.first ≡ some (record (message type_reflected) { relay_token = token; relay_addr = server })
  pub named : server ≢ []
  pub resolves : resolve server ≡ some srv
  pub token_length : length token ≡ token_len
  pub reflects : reflect i.reflections ≡ some public
  pub messages : i.messages ≡ ms

-- The "paired" messages of the two peers.
abbrev pub to_host : Peer → Peer → Message
to_host hp cp = record (message type_paired) {
  peer_addr = cp.public;
  peer_local_addrs = cp.local;
  peer_role = role_name client;
  relay_token = hp.token;
}

abbrev pub to_client : Peer → Peer → Message
to_client hp cp = record (message type_paired) {
  peer_addr = hp.public;
  peer_local_addrs = hp.local;
  peer_role = role_name host;
  cert_fingerprint = hp.fp;
  relay_token = cp.token;
}

module _ (now j h c : ℕ) (sess : Session) (hp cp : Peer) (s : Server)
    (p : HasPeers j h c sess hp cp s) (fresh : sess.paired ≡ false) (rh : hp.ready ≡ true)
    (rc : cp.ready ≡ true) (apart : h ≢ c) where
  inbox_host : inbox h (try_pair now j s).1 ≡ some (to_host hp cp) ∷ some (message type_go) ∷ []
  inbox_host =
      rw (try_pair_tells_both now j h c sess hp cp s p fresh rh rc, ==-self h, ne→== h c apart) refl

  inbox_client : inbox c (try_pair now j s).1 ≡ some (to_client hp cp) ∷ some (message type_go) ∷ []
  inbox_client =
      rw
        (
          try_pair_tells_both now j h c sess hp cp s p fresh rh rc,
          ==-self c,
          ne→== c h (λ e. apart (sym e)),
        )
        refl

module _ (resolve : Bytes → Option Addr) (show : Addr → Bytes) where
  relay_path_lem :
      (start : Message) (srv : Addr)
      → resolve start.relay_addr ≡ some srv
      → length start.relay_token ≡ token_len
      → relay_path resolve show start ≡ some (relayed srv start.relay_token)
  unfolding relay_path new_relay_conn
  relay_path_lem start srv e l = rw (e, l, ==-self token_len, relay_path) refl

  by_relay_lem :
      (start : Message) (srv : Addr)
      → resolve start.relay_addr ≡ some srv
      → length start.relay_token ≡ token_len
      → by_relay resolve show start ≡ inr (relayed srv start.relay_token)
  by_relay_lem start srv e l = rw (relay_path_lem start srv e l, by_relay) refl

  path_to_lem :
      (start paired : Message) (i : Input) (srv : Addr)
      → resolve start.relay_addr ≡ some srv
      → length start.relay_token ≡ token_len
      → path_to resolve show start paired i
        ≡ inr (
            path_or_relay i.force_relay
              (punch resolve show (candidates paired) i.punches)
              srv
              start.relay_token)
  path_to_lem start paired i srv e l = elim (Bool-cases i.force_relay) [
    | inl y ↦ rw (y, by_relay_lem start srv e l) refl
    | inr y ↦ elim (Option-cases (punch resolve show (candidates paired) i.punches)) [
      | inl z ↦ rw (y, z, by_relay_lem start srv e l) refl
      | inr (peer, z) ↦ rw (y, z) refl
    ]
  ]

  -- The result that a "paired" message leads to.
  abbrev pub met : DialParams → Input → Bytes → Addr → Bytes → Message → Dialed
  met p i public srv token paired = (
    hello_message p ∷ ready_message p public i.locals ∷ [],
    inr (record {
      role = p.role;
      cert_fingerprint = paired.cert_fingerprint;
      path =
          path_or_relay i.force_relay (punch resolve show (candidates paired) i.punches) srv token;
    }),
  )

  dial-met :
      (p : DialParams) (i : Input) (token server public : Bytes) (srv : Addr) (paired : Message)
      → Hears resolve i token server public srv (some paired ∷ some (message type_go) ∷ [])
      → paired.kind ≡ type_paired
      → paired.peer_addr ≢ []
      → dial resolve show p i ≡ met p i public srv token paired
  unfolding dial dial_reflected reflected
  dial-met p i token server public srv paired h k n =
      rw
        (
          h.first,
          dial,
          reflected_ne_error,
          ==-self type_reflected,
          ne→== token [] (λ e. omega (arith, h.token_length, ap length e)),
          ne→== server [] h.named,
          h.resolves,
          h.reflects,
          dial_reflected,
          reflected,
          h.messages,
          await_go_pair (message []) paired [] k,
          ne→== paired.peer_addr [] n,
          path_to_lem (record (message type_reflected) { relay_token = token; relay_addr = server })
              paired i srv h.resolves h.token_length,
        )
        refl

  -- When a session that is not paired has two different peers, both ready and with a public address,
  -- then the call of Dial behind each of them returns a connection: one that was given the peer's token,
  -- of the right length, and a server address that resolves, that got a reflection, and that reads the
  -- messages which the pairing sends to this peer. The connection is direct where the punch with the
  -- other's addresses found it and no relay was forced, and through the server with the peer's token
  -- otherwise; the client's has the host's fingerprint.
  pub dial_meets :
      (now j h c : ℕ) (sess : Session) (hp cp : Peer) (s : Server) (ph pc : DialParams)
      (ih ic : Input) (server pub_h pub_c : Bytes) (srv : Addr)
      → HasPeers j h c sess hp cp s
      → sess.paired ≡ false
      → hp.ready ≡ true
      → cp.ready ≡ true
      → h ≢ c
      → hp.public ≢ []
      → cp.public ≢ []
      → Hears resolve ih hp.token server pub_h srv (inbox h (try_pair now j s).1)
      → Hears resolve ic cp.token server pub_c srv (inbox c (try_pair now j s).1)
      → (dial resolve show ph ih ≡ met ph ih pub_h srv hp.token (to_host hp cp))
        × (dial resolve show pc ic ≡ met pc ic pub_c srv cp.token (to_client hp cp))
  dial_meets now j h c sess hp cp s ph pc ih ic server pub_h pub_c srv p fresh rh rc apart nh nc
        hears_h hears_c =
      (
        dial-met ph ih hp.token server pub_h srv (to_host hp cp)
            (subst (Hears resolve ih hp.token server pub_h srv)
              (inbox_host now j h c sess hp cp s p fresh rh rc apart) hears_h)
            refl nc,
        dial-met pc ic cp.token server pub_c srv (to_client hp cp)
            (subst (Hears resolve ic cp.token server pub_c srv)
              (inbox_client now j h c sess hp cp s p fresh rh rc apart) hears_c)
            refl nh,
      )
