-- ===== src/Tests/Settings.antt =====
-- internal/config: keys that no section declares, and the example.
use relay_tunnel.Prelude.{
  ◌≡◌, ◌↔◌, refl, true, Bool, false, ◌&&◌, Option, some, none, [], ◌∷◌, codes, contains, nat_eq,
  bytes_eq, ℕ_discrete,
}
use relay_tunnel.Prelude.Sort.{sort, insert_sorted, bytes_leb}
use relay_tunnel.Signal.Admin.{to_lower}
use relay_tunnel.Config.{object, other_value, text, Fields, empty, field, get_field, fields_of}
use relay_tunnel.Config.Example.{example}
use relay_tunnel.Config.Unknown.{
  leaf, struct_of, Members, no_members, member, member_named, config_members, unknown_in,
  unknown_keys,
}
use relay_tunnel.Config.Unknown.Paths.{KeyPath, dotted, IsUnknown}
use relay_tunnel.Config.Unknown.Exact.{unknown_keys_iff}

-- A setting of the client in the section of the host, and a section in other letters.
abbrev misplaced : Fields
misplaced =
    field (codes "expose")
      (object (field (codes "socks") (other_value []) (field (codes "code") (text []) empty)))
      (field (codes "SERVER") (object (field (codes "Http") (text []) empty))
        (field (codes "x") (text []) empty))

misplaced_keys : unknown_keys (some misplaced) ≡ codes "expose.socks" ∷ codes "x" ∷ []
unfolding unknown_keys unknown_in member_named to_lower sort insert_sorted bytes_leb nat_eq bytes_eq
    ℕ_discrete
misplaced_keys = refl

unknown_keys_iff_example :
    (contains (unknown_keys (some misplaced)) (codes "expose.socks") ≡ true)
    ↔ ((p : KeyPath) × IsUnknown p misplaced config_members × (codes "expose.socks" ≡ dotted p))
unfolding get_field nat_eq bytes_eq ℕ_discrete
unknown_keys_iff_example =
    unknown_keys_iff misplaced (codes "expose.socks")
      (refl, (refl, (refl, tt)), (refl, (refl, tt), (refl, tt)))

abbrev is_some : {A : Type 0} → Option A → Bool
is_some none = false
is_some (some _) = true

-- Whether a document has every setting of every section.
abbrev documents : Members → Fields → Bool
documents no_members fs = true
documents (member name leaf ms) fs = is_some (get_field name fs) && documents ms fs
documents (member name (struct_of ns) ms) fs =
    documents ns (fields_of (get_field name fs)) && documents ms fs

example_settings : documents config_members example ≡ true
unfolding get_field nat_eq bytes_eq ℕ_discrete
example_settings = refl

-- `Load` warns of nothing in the example.
example_keys : unknown_keys (some example) ≡ []
unfolding unknown_keys unknown_in member_named to_lower sort nat_eq bytes_eq ℕ_discrete
example_keys = refl
