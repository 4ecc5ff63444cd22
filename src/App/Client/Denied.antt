-- ===== src/App/Client/Denied.antt =====
-- internal/app/client.go and host.go: a download that gets nothing. The host closes the stream without
-- a word, which the client cannot tell from the end of a file.
use relay_tunnel.Prelude.{
  ◌⊎◌, inl, Bool-cases, false, ◌==◌, ap, ◌∙◌, ==-ne, ℕ, ◌≡◌, refl, true, none, some, [], Bytes, inr,
  nat_eq, bytes_eq, ℕ_discrete,
}
use relay_tunnel.Mux.{Codec, OpenMsg}
use relay_tunnel.Mux.Laws.{buffer}
use relay_tunnel.App.Host.{inside, HostPolicy, host_file, handle_stream}
use relay_tunnel.App.Host.Serve.{Opens, FileStore, perform_on, serve_stream}
use relay_tunnel.App.Client.{get_header, begin_stream, downloaded, file_get}
use relay_tunnel.App.Client.Transfer.{Encodes, file_get-serve_stream}

module _ (absolute : Bytes → Bytes) (joined : Bytes → Bytes → Bytes) (sep : ℕ)
    (json : Codec OpenMsg) (io : Opens) (p : HostPolicy) where
  -- A download that gets nothing: files are not served, the path is outside the root of files, or the
  -- file cannot be opened.
  abbrev pub GetsNothing : Bytes → Type 0
  GetsNothing remote =
      (p.file_root ≡ [])
      ⊎ (inside absolute joined sep (absolute (joined p.file_root remote)) (absolute p.file_root)
          ≡ false)
      ⊎ (io.may_read (absolute (joined p.file_root remote)) ≡ false)

  sent_nothing :
      (remote : Bytes) (disk : FileStore)
      → GetsNothing remote
      → ((perform_on io
            (handle_stream absolute joined sep (some (get_header remote)) p)
            []
            disk).sent
          ≡ [])
        × ((perform_on io
              (handle_stream absolute joined sep (some (get_header remote)) p)
              []
              disk).disk
            ≡ disk)
  unfolding handle_stream host_file perform_on bytes_eq nat_eq ℕ_discrete
  sent_nothing remote disk n = elim (Bool-cases (p.file_root == [])) [
    | inl e ↦ rw (handle_stream, host_file, e) (refl, refl)
    | inr e ↦ elim n [
      | inl r ↦ absurd (==-ne p.file_root e r)
      | inr (inl i) ↦ rw (handle_stream, host_file, e, i) (refl, refl)
      | inr (inr o) ↦
          elim (Bool-cases (
            inside absolute joined sep (absolute (joined p.file_root remote))
              (absolute p.file_root))) [
                | inl i ↦ rw (handle_stream, host_file, e, i, o) (refl, refl)
                | inr i ↦ rw (handle_stream, host_file, e, i) (refl, refl)
              ]
    ]
  ]

  -- A download that gets nothing, because files are not served, the path is outside the root of files or
  -- the file cannot be opened, and whose header can be sent: the files of the exposing side are as they
  -- were, and the client is left with an empty file and no error.
  pub denied_download_succeeds :
      (remote c : Bytes) (disk : FileStore)
      → Encodes json (get_header remote) c
      → GetsNothing remote
      → (v : Bytes) × (begin_stream json buffer (some []) (get_header remote) ≡ inr v)
        × ((serve_stream absolute joined sep json io p v disk).disk ≡ disk)
        × (file_get json buffer
              (some [])
              remote
              true
              (serve_stream absolute joined sep json io p v disk).sent
              true
            ≡ record { local = some []; failure = none })
  unfolding file_get downloaded
  denied_download_succeeds remote c disk enc n =
      let (v, begun_get, served) =
        file_get-serve_stream absolute joined sep json io p remote c disk enc in
      let (s, d) = sent_nothing remote disk n in
      (v, begun_get, ap (λ x. x.disk) served ∙ d, rw (file_get, begun_get, served, s))
