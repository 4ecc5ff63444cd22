-- ===== src/Signal/Admin/Request.antt =====
-- internal/signal/admin.go: how the caller reached the server, and the cookie that is set. `forwarded` is
-- the header of a proxy, empty if there is none; texts are taken to be ASCII.
use relay_tunnel.Prelude.{
  ℕ, Bool, not, ◌&&◌, ◌==◌, [], ◌∷◌, Bytes, codes, if◌then◌else◌, bytes_eq, nat_eq,
}
use relay_tunnel.Signal.Admin.{trim_left, trim_right}

-- `scheme`; `tls` tells whether the request came over TLS.
unfoldable pub scheme_of : (trust : Bool) (forwarded : Bytes) (tls : Bool) → Bytes
scheme_of trust forwarded tls =
    if trust && not (forwarded == [])
    then forwarded
    else if tls
    then codes "https"
    else codes "http"

-- The part before the first comma, or the whole.
abbrev pub before_comma : Bytes → Bytes
before_comma [] = []
before_comma (c ∷ cs) = let rest = before_comma cs in if c == 44 then [] else c ∷ rest

-- `clientIP`
unfoldable pub client_ip : (trust : Bool) (forwarded remote : Bytes) → Bytes
unfolding trim_left trim_right
client_ip trust forwarded remote =
    if trust && not (forwarded == [])
    then trim_left (trim_right (before_comma forwarded))
    else remote

-- The attributes of `setAdminCookie` that are not constants; the path is "/", and the cookie is for HTTP
-- only and lax about sites.
pub record Cookie : Type 0 where
  pub value : Bytes
  pub expires : ℕ
  pub secure : Bool

unfoldable pub admin_cookie : (trust : Bool) (forwarded : Bytes) (tls : Bool) → Bytes → ℕ → Cookie
unfolding scheme_of
admin_cookie trust forwarded tls token expires = record {
  value = token;
  expires = expires;
  secure = scheme_of trust forwarded tls == codes "https";
}
