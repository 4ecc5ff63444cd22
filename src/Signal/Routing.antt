-- ===== src/Signal/Routing.antt =====
-- internal/signal/server.go and internal/webui/webui.go: which handler a request goes to, and which
-- file of the web interface answers a path. `clean` is `path.Clean`; the files of the export are
-- their names, and `is_file` tells whether `fs.Stat` finds a regular file.
pub mod Pages
use relay_tunnel.Prelude.{
  ℕ, Bool, true, false, not, ◌&&◌, ◌||◌, ◌==◌, Option, none, some, List, [], ◌∷◌, ◌++◌, Bytes,
  codes, if◌then◌else◌, bytes_eq, nat_eq, Dict,
}

-- The answer of the web interface: the icon, the file of a path, a page with its status, or the plain 404
-- of net/http. A page is one that the export has, or nothing is written.
pub data Served : Type 0 where
  icon plain_not_found nothing_written : Served
  file : Bytes → Served
  page : Bytes → ℕ → Served

-- `strings.TrimPrefix` of a slash
abbrev pub trim_slash : Bytes → Bytes
trim_slash [] = []
trim_slash (c ∷ cs) = if c == 47 then cs else c ∷ cs

abbrev pub page_or : Option Served → Served → Served
page_or none other = other
page_or (some s) other = s

module _ (is_file : Bytes → Bool) (clean : Bytes → Bytes) where
  unfoldable pub exists : Bytes → Bool
  exists name = not (name == []) && is_file name

  -- `ServePage`: none if the export has no such page.
  unfoldable pub serve_page : Bytes → ℕ → Option Served
  serve_page name status = if is_file (name ++ codes ".html") then some (page name status) else none

  -- `frontend.ServeHTTP`
  unfoldable pub serve_path : Bytes → Served
  unfolding exists serve_page
  serve_path path =
      let name = trim_slash (clean path) in
      if name == codes "favicon.ico"
      then icon
      else if name == [] || name == codes "." || name == codes "index.html"
      then page_or (serve_page (codes "index") 200) nothing_written
      else if exists name
      then file path
      else if exists (name ++ codes ".html")
      then file (path ++ codes ".html")
      else page_or (serve_page (codes "404") 404) plain_not_found

  -- `New`: whether there is an interface to serve.
  abbrev pub has_interface : Bool
  has_interface = is_file (codes "index.html")

-- The handlers of `Handler`; the last three are those of the pattern "/".
pub data Endpoint : Type 0 where
  signal status list_sessions get_session delete_session : Endpoint
  list_relays delete_relay prune_relays : Endpoint
  auth_status auth_login auth_logout auth_account : Endpoint
  healthz openapi : Endpoint
  interface banner_only no_interface : Endpoint

abbrev pub api_routes : Dict Bytes Endpoint
api_routes =
    (codes "GET /api/v1/status", status)
    ∷ (codes "GET /api/v1/sessions", list_sessions)
    ∷ (codes "GET /api/v1/sessions/{code}", get_session)
    ∷ (codes "DELETE /api/v1/sessions/{code}", delete_session)
    ∷ (codes "GET /api/v1/relays", list_relays)
    ∷ (codes "DELETE /api/v1/relays/{token}", delete_relay)
    ∷ (codes "DELETE /api/v1/relays", prune_relays)
    ∷ (codes "GET /api/v1/auth/session", auth_status)
    ∷ (codes "POST /api/v1/auth/login", auth_login)
    ∷ (codes "POST /api/v1/auth/logout", auth_logout)
    ∷ (codes "POST /api/v1/auth/account", auth_account)
    ∷ (codes "GET /healthz", healthz)
    ∷ (codes "GET /openapi.json", openapi)
    ∷ (codes "GET /api/v1/openapi.json", openapi)
    ∷ []

-- `Handler`: the patterns and their handlers, where the admin interface is disabled or not, and a web
-- interface was built or not.
unfoldable pub routes : (disabled ui : Bool) → Dict Bytes Endpoint
routes true ui = (codes "/signal", signal) ∷ (codes "/", banner_only) ∷ []
routes false ui =
    (codes "/signal", signal)
    ∷ (api_routes ++ ((codes "/", if ui then interface else no_interface) ∷ []))

-- The status of the answer to a path that the pattern "/" was chosen for, where there is no interface.
abbrev pub banner_status : Bytes → ℕ
banner_status path = if path == codes "/" then 200 else 404
