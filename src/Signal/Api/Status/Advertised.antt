-- ===== src/Signal/Api/Status/Advertised.antt =====
-- internal/signal/api.go and server.go: the status shows the address that peers are told.
use relay_tunnel.Prelude.{
  ℕ, ◌≡◌, refl, ap, true, ◌==◌, Option, none, some, List, [], Bytes, codes, nat_eq, bytes_eq,
  lookup, AllOf, arith, Bool-cases, Option-cases, inl, inr, ◌++◌, subst,
}
use relay_tunnel.Signal.State.{
  Server, Session, Role, Message, Effect, send, close, datagram, reply, error_message, type_hello,
  type_reflected, role_name, peer_of,
}
use relay_tunnel.Signal.Pairing.{Hello, register, join, handle_hello, parse_role}
use relay_tunnel.Signal.Api.{Response, ok, failed}
use relay_tunnel.Signal.Api.Status.{ServerConfig, hello_of, handle_status, StatusView}

-- A message that tells a peer its address tells it to probe this one.
abbrev pub Tells : Bytes → Effect → Type 0
Tells addr (reply m) = m.kind ≡ type_reflected → m.relay_addr ≡ addr
Tells addr (send c m) = m.kind ≡ type_reflected → m.relay_addr ≡ addr
Tells addr (close c) = Unit
Tells addr (datagram a b) = Unit

error-Tells : (addr text : Bytes) → Tells addr (reply (error_message text))
unfolding nat_eq
error-Tells addr text e = absurd (ground arith)

register-Tells :
    (h : Hello) (now : ℕ) (code : Bytes) (role : Role) (i : ℕ) (sess : Session) (s : Server)
    → AllOf (Tells h.relay_addr) (register h now code role i sess s).1
unfolding register
register-Tells h now code role i sess s = elim (Option-cases (peer_of sess role)) [
  | inl e ↦ rw (register, e) (λ _. refl, tt)
  | inr (c, e) ↦
      rw (register, e)
        (
          error-Tells h.relay_addr
              (codes "a " ++ (role_name role ++ codes " is already connected for this code")),
          tt,
        )
]

join-Tells :
    (h : Hello) (now : ℕ) (code : Bytes) (role : Role) (s : Server)
    → AllOf (Tells h.relay_addr) (join h now code role s).1
unfolding join
join-Tells h now code role s = elim (Option-cases (lookup code s.sessions)) [
  | inl e ↦ rw (join, e) (register-Tells h now code role s.next _ _)
  | inr (i, e) ↦ elim (Option-cases (lookup i s.objects)) [
    | inl e' ↦ rw (join, e, e') tt
    | inr (sess, e') ↦ rw (join, e, e') (register-Tells h now code role i sess s)
  ]
]

handle_hello-Tells :
    (h : Hello) (now : ℕ) (m : Option Message) (s : Server)
    → AllOf (Tells h.relay_addr) (handle_hello h now m s).1
unfolding handle_hello
handle_hello-Tells h now none s = (error-Tells h.relay_addr (codes "expected hello"), tt)
handle_hello-Tells h now (some m) s = elim (Bool-cases (m.kind == type_hello)) [
  | inr e ↦ rw (e, handle_hello) (error-Tells h.relay_addr (codes "expected hello"), tt)
  | inl e ↦ elim (Bool-cases (m.code == [])) [
    | inl e' ↦
        rw (e, e', handle_hello) (error-Tells h.relay_addr (codes "missing code or role"), tt)
    | inr e' ↦ elim (Option-cases (parse_role m.role)) [
      | inl e″ ↦
          rw (e, e', e″, handle_hello) (error-Tells h.relay_addr (codes "missing code or role"), tt)
      | inr (role, e″) ↦ rw (e, e', e″, handle_hello) (join-Tells h now m.code role s)
    ]
  ]
]

abbrev shown : Response StatusView → Bytes
shown (ok status v) = v.udp.advertised_addr
shown (failed status text) = []

-- The advertised address that an authorized status shows is the address that every peer is told to
-- probe whose request has the same host, whatever its hello and whenever it joins.
pub handle_status-advertised :
    (split_host_port : Bytes → Option (Bytes × Bytes)) (join_host_port : Bytes → Bytes → Bytes)
    (c : ServerConfig) (host : Bytes) (started now : ℕ) (s : Server) (v : StatusView)
    → handle_status split_host_port join_host_port c true host started now s ≡ ok 200 v
    → (random : Bytes) (name : List ℕ) (remote : Bytes) (later : ℕ) (m : Option Message)
      (s' : Server)
    → AllOf
        (Tells v.udp.advertised_addr)
        (handle_hello
          (hello_of split_host_port join_host_port c random name remote host)
          later
          m
          s').1
unfolding handle_status
handle_status-advertised split_host_port join_host_port c host started now s v e random name remote
      later m s' =
    subst
      (λ a.
        AllOf (Tells a)
          (handle_hello (hello_of split_host_port join_host_port c random name remote host) later m
            s').1)
      (ap shown e)
      (handle_hello-Tells (hello_of split_host_port join_host_port c random name remote host) later
        m s')
