-- ===== src/Config/Unknown.antt =====
-- internal/config/config.go: the keys of the file that no section declares, of which `Load` warns,
-- and the example. The types of the sections are a schema with the names of their `json` tags; a key
-- is compared with them as strings.EqualFold compares ASCII.
pub mod Paths
pub mod Exact
use relay_tunnel.Prelude.{
  Bool, true, false, ◌==◌, Option, none, some, List, [], ◌∷◌, ◌++◌, map, Bytes, codes,
  if◌then◌else◌, bytes_eq, nat_eq,
}
use relay_tunnel.Prelude.Sort.{sort, bytes_leb}
use relay_tunnel.Signal.Admin.{to_lower}
use relay_tunnel.Config.{Json, text, other_value, object, Fields, empty, field}

-- A struct, or another type.
mutual
  pub data Schema : Type 0 where
    leaf : Schema
    struct_of : Members → Schema

  pub data Members : Type 0 where
    no_members : Members
    member : Bytes → Schema → Members → Members

-- `fieldByJSONName`
unfoldable pub member_named : Bytes → Members → Option Schema
unfolding to_lower
member_named key no_members = none
member_named key (member name s ms) =
    let rest = member_named key ms in if to_lower name == to_lower key then some s else rest

-- A key of a section, with a dot between.
abbrev pub dot : Bytes → Bytes → Bytes
dot k sub = k ++ (46 ∷ sub)

abbrev pub report_key : Bytes → Option (List Bytes) → List Bytes
report_key k none = k ∷ []
report_key k (some subs) = map (dot k) subs

-- `unknownFields`; a value that is no object and a type that is no struct have nothing to check.
unfoldable pub unknown_in : Fields → Members → List Bytes
unfolding member_named
unknown_in empty ms = []
unknown_in (field k (object gs) fs) ms =
    report_key k (elim (member_named k ms) [
      | none ↦ none
      | some leaf ↦ some []
      | some (struct_of ns) ↦ some (unknown_in gs ns)
    ])
    ++ unknown_in fs ms
unknown_in (field k (text t) fs) ms =
    report_key k (elim (member_named k ms) [ none ↦ none | some s ↦ some [] ]) ++ unknown_in fs ms
unknown_in (field k (other_value t) fs) ms =
    report_key k (elim (member_named k ms) [ none ↦ none | some s ↦ some [] ]) ++ unknown_in fs ms

abbrev pub leaves : List Bytes → Members → Members
leaves [] more = more
leaves (name ∷ names) more = member name leaf (leaves names more)

abbrev pub admin_members : Members
admin_members =
    leaves
      (codes "disabled"
        ∷ codes "username"
        ∷ codes "password_hash"
        ∷ codes "session_hours"
        ∷ codes "trust_forwarded_headers"
        ∷ [])
      no_members

abbrev pub server_members : Members
server_members =
    leaves
      (codes "enabled"
        ∷ codes "name"
        ∷ codes "http"
        ∷ codes "udp"
        ∷ codes "public_udp"
        ∷ codes "public_url"
        ∷ codes "verbose"
        ∷ [])
      (member (codes "admin") (struct_of admin_members) no_members)

abbrev pub expose_members : Members
expose_members =
    leaves
      (codes "enabled"
        ∷ codes "name"
        ∷ codes "server"
        ∷ codes "code"
        ∷ codes "allow_dial"
        ∷ codes "allow"
        ∷ codes "allow_exec"
        ∷ codes "file_root"
        ∷ codes "verbose"
        ∷ [])
      no_members

abbrev pub connect_members : Members
connect_members =
    leaves
      (codes "enabled"
        ∷ codes "name"
        ∷ codes "server"
        ∷ codes "code"
        ∷ codes "forward"
        ∷ codes "socks"
        ∷ codes "verbose"
        ∷ [])
      no_members

abbrev pub config_members : Members
config_members = member (codes "server") (struct_of server_members) (
    member (codes "expose") (struct_of expose_members)
      (member (codes "connect") (struct_of connect_members) no_members))

-- `unknownKeys`, of the file's object; none is a file that is no object.
unfoldable pub unknown_keys : Option Fields → List Bytes
unfolding unknown_in
unknown_keys none = []
unknown_keys (some fs) = sort bytes_leb (unknown_in fs config_members)
