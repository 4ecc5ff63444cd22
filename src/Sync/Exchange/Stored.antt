-- ===== src/Sync/Exchange/Stored.antt =====
-- examples/relay-sync: an upload and a download, over the streams that carry them.
use relay_tunnel.Prelude.{
  ℕ, ◌<◌, ◌^◌, ◌≡◌, refl, ap, sym, subst, ◌∙◌, Bool, true, Option, some, [], ◌++◌, Bytes, lookup,
  length, append-nil, bytes_eq, nat_eq, ℕ_discrete,
}
use relay_tunnel.Sync.Files.{Tree, File, is_positive}
use relay_tunnel.Sync.Pass.{written}
use relay_tunnel.Sync.Frame.{write_frame}
use relay_tunnel.Sync.Host.{Reply, ok, file, Io, confine, handle, Request}
use relay_tunnel.Sync.Host.Stored.{
  put_request, get_request, got_file, put_then_get, host_get_file, lookup-written,
}
use relay_tunnel.Sync.Exchange.{
  Codecs, plain_reply, get_reply, is_ok, acknowledged, received_file, serve_exchange,
}
use relay_tunnel.Sync.Exchange.Carried.{Fits, FitsReply, for_put, for_get, serve_exchange-Carries}

module _ (c : Codecs) (text : Bytes) (absolute : Bytes → Option Bytes)
    (joined : Bytes → Bytes → Bytes) (sep : ℕ) (match_string : Bytes → Bytes → Bool)
    (path_base : Bytes → Bytes) (root path abs : Bytes) (f : File) where
  abbrev handled : Option Request → Bytes → Io → Tree → Tree × Reply
  handled = handle absolute joined sep match_string path_base root

  abbrev served : Bytes → Io → Tree → Tree × Bytes
  served = serve_exchange c text absolute joined sep match_string path_base root

  put_served :
      (io : Io) (fs : Tree) (b d : Bytes)
      → handled (some (put_request path f)) f.content io fs ≡ (written abs io.now fs (some f), ok)
      → Fits c.request (put_request path f) b
      → Fits c.plain (plain_reply text ok) d
      → ((served (write_frame [] b ++ f.content) io fs).0 ≡ written abs io.now fs (some f))
        × (acknowledged c (served (write_frame [] b ++ f.content) io fs).1 ≡ true)
  put_served io fs b d done fits fits_reply =
      let (same, carried) =
        serve_exchange-Carries c text absolute joined sep match_string path_base root
          (put_request path f) f.content io fs 0 0 for_put b d refl fits
          (subst (λ r. FitsReply c text for_put r d) (sym (ap (λ x. x.1) done)) fits_reply) in
      (same ∙ ap (λ x. x.0) done, carried ∙ ap (λ x. is_ok x.1) done)

  get_served :
      (io : Io) (fs : Tree) (now : ℕ) (b d : Bytes)
      → confine absolute joined sep match_string path_base root path ≡ some abs
      → io.opened ≡ true
      → lookup abs fs ≡ some f
      → Fits c.request (get_request path) b
      → Fits c.get (get_reply text (file (length f.content) f.content)) d
      → received_file c now f.mtime (served (write_frame [] b) io fs).1
        ≡ got_file now f.mtime (handled (some (get_request path)) [] io fs).1
  unfolding handle bytes_eq ℕ_discrete
  get_served io fs now b d allowed opened stored fits fits_reply =
      let reply =
        host_get_file absolute joined sep match_string path_base root path abs f io fs allowed
          opened stored in
      ap (λ s. received_file c now f.mtime (served s io fs).1) (sym (append-nil (write_frame [] b)))
      ∙ (serve_exchange-Carries c text absolute joined sep match_string path_base root
          (get_request path) [] io fs now f.mtime for_get b d refl fits
          (subst (λ r. FitsReply c text for_get r d) (sym reply) fits_reply)).1

  -- Over streams on which the requests and the replies are no longer than a frame: a file of less
  -- than 2^63 bytes with a positive modification time that is uploaded to an allowed path, where the
  -- file system makes its directory and opens it, is acknowledged and stored as one done copy of a
  -- pass stores it; and when it is then downloaded and opens, the client writes the same bytes with
  -- the same time.
  pub exchange_put_then_get :
      (io io' : Io) (fs : Tree) (now : ℕ) (b d b' d' : Bytes)
      → confine absolute joined sep match_string path_base root path ≡ some abs
      → io.made ≡ true
      → io.opened ≡ true
      → io'.opened ≡ true
      → length f.content < 2 ^ 63
      → is_positive f.mtime ≡ true
      → Fits c.request (put_request path f) b
      → Fits c.plain (plain_reply text ok) d
      → Fits c.request (get_request path) b'
      → Fits c.get (get_reply text (file (length f.content) f.content)) d'
      → (acknowledged c (served (write_frame [] b ++ f.content) io fs).1 ≡ true)
        × ((served (write_frame [] b ++ f.content) io fs).0 ≡ written abs io.now fs (some f))
        × (received_file c now f.mtime
              (served (write_frame [] b') io' (served (write_frame [] b ++ f.content) io fs).0).1
            ≡ some f)
  exchange_put_then_get io io' fs now b d b' d' allowed made opened opened' small dated put
        put_reply get get_reply' =
      let (stored, back) =
        put_then_get absolute joined sep match_string path_base root path abs f [] io io' fs now
          allowed made opened opened' small dated in
      let (after, accepted) = put_served io fs b d stored put put_reply in
      (
        accepted,
        after,
        ap (λ t. received_file c now f.mtime (served (write_frame [] b') io' t).1) after
            ∙ get_served io' (written abs io.now fs (some f)) now b' d' allowed opened'
                (lookup-written absolute joined sep match_string path_base abs io.now fs f dated)
                get get_reply'
            ∙ back,
      )
