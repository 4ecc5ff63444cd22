-- ===== src/Signal/Dial.antt =====
-- internal/signal/client.go: `Dial`, from the messages and datagrams that it reads. `resolve` is
-- `net.ResolveUDPAddr` and `show` is `UDPAddr.String`.
pub mod Meets
use relay_tunnel.Prelude.{
  ℕ, Bool, true, false, not, ◌||◌, ◌==◌, Option, none, some, ◌⊎◌, inl, inr, List, [], ◌∷◌, Bytes,
  ◌>>=◌, if◌then◌else◌, bytes_eq,
}
use relay_tunnel.Signal.State.{
  Addr, Role, role_name, Message, message, type_hello, type_reflected, type_paired, type_ready,
  type_go, type_error,
}
use relay_tunnel.Nat.Candidates.{resolve_candidates}
use relay_tunnel.Nat.Punch.{Packet, punch_rounds}
use relay_tunnel.Nat.Relay.{reflect, new_relay_conn}

pub record DialParams : Type 0 where
  pub code : Bytes
  pub role : Role
  pub name : Bytes
  pub cert_fingerprint : Bytes

-- What the connection and the socket deliver: the first message, the reads of `Reflect`, the addresses
-- of `LocalCandidates`, the messages after "ready", and the reads of `Punch`. None is an error.
-- `force_relay` is the environment's RT_FORCE_RELAY.
pub record Input : Type 0 where
  pub first : Option Message
  pub reflections : List (Option Bytes)
  pub locals : List Bytes
  pub messages : List (Option Message)
  pub punches : List (Option Packet)
  pub force_relay : Bool

-- The connection to the peer: with the peer's address, or with the server's and the relay token.
pub data Link : Type 0 where
  direct : Addr → Link
  relayed : Addr → Bytes → Link

pub record Tunnel : Type 0 where
  pub role : Role
  pub cert_fingerprint : Bytes
  pub path : Link

pub data DialError : Type 0 where
  read_failed unexpected_response no_reflection no_peer_addr no_relay : DialError
  refused : Bytes → DialError

-- What is sent to the server, and how it ends.
abbrev pub Dialed : Type 0
Dialed = List Message × (DialError ⊎ Tunnel)

-- The loop that waits for "go"; `paired` is the last "paired" message.
unfoldable pub await_go : Message → List (Option Message) → DialError ⊎ Message
await_go paired [] = inl read_failed
await_go paired (none ∷ ms) = inl read_failed
await_go paired (some m ∷ ms) =
    let paired' = if m.kind == type_paired then m else paired in
    let rest = await_go paired' ms in
    if m.kind == type_error
    then inl (refused m.error)
    else if m.kind == type_go
    then inr paired'
    else rest

abbrev pub hello_message : DialParams → Message
hello_message p = record (message type_hello) {
  role = role_name p.role;
  code = p.code;
  name = p.name;
}

abbrev pub ready_message : DialParams → Bytes → List Bytes → Message
ready_message p public locals = record (message type_ready) {
  public_addr = public;
  local_addrs = locals;
  cert_fingerprint = p.cert_fingerprint;
}

abbrev pub candidates : Message → List Bytes
candidates paired = paired.peer_addr ∷ paired.peer_local_addrs

module _ (resolve : Bytes → Option Addr) (show : Addr → Bytes) where
  -- `nat.Punch`; none is its error.
  unfoldable pub punch : List Bytes → List (Option Packet) → Option Addr
  punch cs reads = do
    peers ← resolve_candidates resolve show cs
    (punch_rounds show peers [] reads).peer

  -- `nat.Reflect`
  unfoldable pub reflected : Bytes → List (Option Bytes) → Option Bytes
  reflected server reads = do srv ← resolve server; reflect reads

  -- `nat.NewRelayConn`
  unfoldable pub relay_path : Message → Option Link
  relay_path start = do
    srv ← resolve start.relay_addr
    token ← new_relay_conn start.relay_token
    some (relayed srv token)

  abbrev pub by_relay : Message → DialError ⊎ Link
  by_relay start = elim (relay_path start) [ none ↦ inl no_relay | some path ↦ inr path ]

  abbrev pub path_to : Message → Message → Input → DialError ⊎ Link
  path_to start paired i =
      if i.force_relay then by_relay start else elim (punch (candidates paired) i.punches) [
        | none ↦ by_relay start
        | some peer ↦ inr (direct peer)
      ]

  abbrev pub tunnel : DialParams → Message → DialError ⊎ Link → DialError ⊎ Tunnel
  tunnel p paired (inl e) = inl e
  tunnel p paired (inr path) =
      inr (record { role = p.role; cert_fingerprint = paired.cert_fingerprint; path = path })

  abbrev pub meet : DialParams → Input → Message → DialError ⊎ Message → DialError ⊎ Tunnel
  meet p i start (inl e) = inl e
  meet p i start (inr paired) =
      if paired.peer_addr == [] then inl no_peer_addr else tunnel p paired (path_to start paired i)

  -- What follows the first message, `start`, which is the variable `refl`.
  unfoldable pub dial_reflected : DialParams → Input → Message → Dialed
  unfolding await_go punch reflected relay_path
  dial_reflected p i start =
      if start.kind == type_error
      then (hello_message p ∷ [], inl (refused start.error))
      else if not (start.kind == type_reflected)
          || start.relay_token == []
          || start.relay_addr == []
      then (hello_message p ∷ [], inl unexpected_response)
      else elim (reflected start.relay_addr i.reflections) [
        | none ↦ (hello_message p ∷ [], inl no_reflection)
        | some public ↦ (
          hello_message p ∷ ready_message p public i.locals ∷ [],
          meet p i start (await_go (message []) i.messages),
        )
      ]

  -- `Dial`, once the socket and the connection to the server are open.
  unfoldable pub dial : DialParams → Input → Dialed
  unfolding dial_reflected
  dial p i = elim i.first [
    | none ↦ (hello_message p ∷ [], inl read_failed)
    | some start ↦ dial_reflected p i start
  ]
