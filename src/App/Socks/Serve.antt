-- ===== src/App/Socks/Serve.antt =====
-- internal/app/socks.go: an accepted connection of the proxy, from its handshake to the stream, and what
-- the exposing side makes of that stream. `split_host_port` tells whether `net.SplitHostPort` takes an
-- address, and `join_text` is `net.JoinHostPort`.
use relay_tunnel.Prelude.{
  ◌&&◌, Bool-cases, subst, sym, ℕ, ◌≡◌, ◌<◌, refl, Bool, true, Option, none, some, [], ◌∷◌, ◌++◌,
  Bytes, codes, length, ◌⊎◌, inl, inr, if◌then◌else◌, append_assoc, ap, ◌∙◌, nat_eq, bytes_eq,
  ℕ_discrete,
}
use relay_tunnel.Prelude.Wire.{put_uint32}
use relay_tunnel.Mux.{Codec, OpenMsg}
use relay_tunnel.Mux.Laws.{buffer}
use relay_tunnel.App.Host.{HostPolicy, handle_stream, host_tcp, dial_allowed}
use relay_tunnel.App.Host.Serve.{Opens, FileStore, perform_on, serve_stream}
use relay_tunnel.App.Client.{Failure, tcp_header, open_tcp, copy_to}
use relay_tunnel.App.Client.Transfer.{Encodes, frame, begin_stream-frame, serve_stream-frame}
use relay_tunnel.App.Socks.{socks_handshake}
use relay_tunnel.App.Socks.Laws.{
  Target, IsTarget, encode, text_of, atyp_of, put_uint16, socks_handshake_lem,
}

-- The address that `SOCKS` listens on.
abbrev pub listen_addr : (Bytes → Bool) → (Bytes → Bytes → Bytes) → Bytes → Bytes
listen_addr split_host_port join_text addr =
    if split_host_port addr then addr else join_text (codes "127.0.0.1") addr

module _ {W : Type 0} (json : Codec OpenMsg) (write : W → Bytes → Option W) (show : Bytes → Bytes)
    (join : Bytes → ℕ → Bytes) where
  unfoldable pub tunnelled : Option (Bytes × Bytes) → Bool → Option W → Option (Failure ⊎ W)
  unfolding open_tcp copy_to
  tunnelled none connected opened = none
  tunnelled (some (target, rest)) connected opened =
      some (copy_to json write (open_tcp json write connected opened target) rest)

  -- `serveSOCKS`, with what the client sends in the whole; none is a handshake that failed. `splice`
  -- copies what is left to the stream.
  unfoldable pub serve_socks : Bool → Bytes → Bool → Option W → Option (Failure ⊎ W)
  unfolding tunnelled socks_handshake
  serve_socks replied c connected opened =
      tunnelled (socks_handshake show join replied c).target connected opened

module _ (absolute : Bytes → Bytes) (joined : Bytes → Bytes → Bytes) (sep : ℕ)
    (json : Codec OpenMsg) (io : Opens) (p : HostPolicy) (show : Bytes → Bytes)
    (join : Bytes → ℕ → Bytes) where
  handle_stream-tcp :
      (target : Bytes)
      → handle_stream absolute joined sep (some (tcp_header target)) p ≡ host_tcp target p
  unfolding handle_stream bytes_eq nat_eq ℕ_discrete
  handle_stream-tcp target = refl

  forwarded_by_dial :
      (target rest : Bytes) (disk : FileStore)
      → (perform_on io (host_tcp target p) rest disk).forwarded
        ≡ (if dial_allowed p target && io.reaches target then rest else [])
  unfolding host_tcp perform_on
  forwarded_by_dial target rest disk = elim (Bool-cases (dial_allowed p target)) [
    | inl e ↦ rw e refl
    | inr e ↦ rw e refl
  ]

  -- Over a live connection on which a stream can be opened, a SOCKS client whose CONNECT request is
  -- well formed and whose header can be sent makes the exposing side do what `hostTCP` does for the
  -- requested host and port, with the bytes after the request left to read. Exactly those bytes are
  -- forwarded to the target where the policy allows it and the dial reaches it, and none otherwise.
  pub serve_socks-serve_stream :
      (t : Target) (port reserved version : ℕ) (methods rest b : Bytes) (disk : FileStore)
      → IsTarget t
      → port < 65536
      → Encodes json (tcp_header (join (text_of show join t) port)) b
      → (w : Bytes) × (serve_socks json buffer show join true
            ((5 ∷ length methods ∷ methods)
              ++ ((version ∷ 1 ∷ reserved ∷ atyp_of t ∷ [])
                  ++ (encode t ++ (put_uint16 port ++ rest))))
            true
            (some [])
          ≡ some (inr w))
        × (serve_stream absolute joined sep json io p w disk
            ≡ perform_on io (host_tcp (join (text_of show join t) port) p) rest disk)
        × ((serve_stream absolute joined sep json io p w disk).forwarded ≡ (
            if dial_allowed p (join (text_of show join t) port)
              && io.reaches (join (text_of show join t) port)
            then rest
            else []))
  unfolding serve_socks tunnelled open_tcp copy_to
  serve_socks-serve_stream t port reserved version methods rest b disk ok_target small enc =
      let target = join (text_of show join t) port in
      let served =
        subst
          (λ w.
            serve_stream absolute joined sep json io p w disk
            ≡ perform_on io (host_tcp target p) rest disk)
          (sym (append_assoc (put_uint32 (length b)) b rest))
          (serve_stream-frame absolute joined sep json io p (tcp_header target) b rest disk enc
            ∙ ap (λ a. perform_on io a rest disk) (handle_stream-tcp target)) in
      (
        frame b ++ rest,
        rw (
          serve_socks,
          socks_handshake_lem show join t port reserved version methods rest ok_target small,
          begin_stream-frame json (tcp_header target) b enc,
        ),
        served,
        ap (λ x. x.forwarded) served ∙ forwarded_by_dial target rest disk,
      )
