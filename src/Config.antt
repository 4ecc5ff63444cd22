-- ===== src/Config.antt =====
-- internal/config: the sections of the config file, `Load`, and `SaveAdmin`, which changes the account
-- in the file. `unmarshal` and `marshal` are encoding/json for a generic map.
pub mod Keeps
pub mod Unknown
pub mod Example
use relay_tunnel.Prelude.{
  ℕ, Bool, true, false, not, ◌&&◌, ◌||◌, ◌==◌, Option, none, some, ◌⊎◌, inl, inr, List, [], ◌∷◌,
  ◌++◌, Bytes, codes, if◌then◌else◌, bytes_eq,
}

pub record AdminSection : Type 0 where
  pub disabled : Bool
  pub username : Bytes
  pub password_hash : Bytes
  pub session_hours : ℕ
  pub trust_forwarded_headers : Bool

pub record ServerSection : Type 0 where
  pub enabled : Bool
  pub name : Bytes
  pub http : Bytes
  pub udp : Bytes
  pub public_udp : Bytes
  pub public_url : Bytes
  pub verbose : Bool
  pub admin : AdminSection

pub record ExposeSection : Type 0 where
  pub enabled : Bool
  pub name : Bytes
  pub server : Bytes
  pub code : Bytes
  pub allow_dial : Bool
  pub allow : List Bytes
  pub allow_exec : Bool
  pub file_root : Bytes
  pub verbose : Bool

pub record ConnectSection : Type 0 where
  pub enabled : Bool
  pub name : Bytes
  pub server : Bytes
  pub code : Bytes
  pub forward : List Bytes
  pub socks : List Bytes
  pub verbose : Bool

pub record Config : Type 0 where
  pub server : ServerSection
  pub expose : ExposeSection
  pub connect : ConnectSection

-- What `os.ReadFile` gives: the bytes, that there is no such file, or another error.
pub data FileRead : Type 0 where
  data_read : Bytes → FileRead
  not_exist read_error : FileRead

pub data LoadError : Type 0 where
  unreadable unparsable : LoadError

-- `Load`, of a path that was given or not; `parse` is encoding/json for `Config` and `empty` the zero
-- value. The warnings about unknown keys are log lines.
unfoldable pub load : (Bytes → Option Config) → Config → FileRead → Bool → LoadError ⊎ Config
load parse empty not_exist explicit = if explicit then inl unreadable else inr empty
load parse empty read_error explicit = inl unreadable
load parse empty (data_read d) explicit = elim (parse d) [ none ↦ inl unparsable | some c ↦ inr c ]

-- A JSON value: a text, a map, or one that is not looked into.
mutual
  pub data Json : Type 0 where
    text : Bytes → Json
    other_value : Bytes → Json
    object : Fields → Json

  pub data Fields : Type 0 where
    empty : Fields
    field : Bytes → Json → Fields → Fields

unfoldable pub get_field : Bytes → Fields → Option Json
get_field k empty = none
get_field k (field j v fs) = if k == j then some v else get_field k fs

unfoldable pub set_field : Bytes → Json → Fields → Fields
set_field k v empty = field k v empty
set_field k v (field j w fs) = if k == j then field k v fs else field j w (set_field k v fs)

-- `doc[key].(map[string]any)`, and an empty map where that is nil.
abbrev pub fields_of : Option Json → Fields
fields_of (some (object fs)) = fs
fields_of _ = empty

unfoldable pub submap : Bytes → Fields → Fields
unfolding get_field
submap k doc = fields_of (get_field k doc)

abbrev pub set_text : Bytes → Bytes → Fields → Fields
set_text k v fs = if v == [] then fs else set_field k (text v) fs

-- The change of the document.
unfoldable pub change_admin : Bytes → Bytes → Fields → Fields
unfolding set_field submap
change_admin username password_hash doc =
    let server = submap (codes "server") doc in
    let admin = submap (codes "admin") server in
    let admin' =
      set_text (codes "password_hash") password_hash (set_text (codes "username") username admin) in
    set_field (codes "server") (object (set_field (codes "admin") (object admin') server)) doc

pub data SaveError : Type 0 where
  nothing_to_save no_path unparsable_file unreadable_file not_encoded not_written panicked :
      SaveError

-- What becomes of the temporary file: it is created, it is written, synced and closed, and it is
-- renamed over the original.
pub record Disk : Type 0 where
  pub created : Bool
  pub flushed : Bool
  pub renamed : Bool

-- How the call ends, none without an error, and what the file holds then; none where it is as before.
abbrev pub Saved : Type 0
Saved = Option SaveError × Option Bytes

module _ (unmarshal : Bytes → Option (Option Fields)) (marshal : Fields → Option Bytes) where
  -- The document of the file; a JSON `null` leaves a nil map behind.
  unfoldable pub document : FileRead → SaveError ⊎ Fields
  document not_exist = inr empty
  document read_error = inl unreadable_file
  document (data_read []) = inr empty
  document (data_read (c ∷ cs)) = elim (unmarshal (c ∷ cs)) [
    | none ↦ inl unparsable_file
    | some none ↦ inl panicked
    | some (some doc) ↦ inr doc
  ]

  abbrev pub write_out : Disk → Option Bytes → Saved
  write_out d none = (some not_encoded, none)
  write_out d (some out) =
      if d.created && d.flushed && d.renamed
      then (none, some (out ++ (10 ∷ [])))
      else (some not_written, none)

  abbrev pub save_document : Bytes → Bytes → Disk → SaveError ⊎ Fields → Saved
  save_document username password_hash d (inl e) = (some e, none)
  save_document username password_hash d (inr doc) =
      write_out d (marshal (change_admin username password_hash doc))

  -- `SaveAdmin`; `file` is what reading the file at `path` gives.
  unfoldable pub save_admin : Bytes → Bytes → Bytes → FileRead → Disk → Saved
  unfolding change_admin document
  save_admin path username password_hash file d =
      if username == [] && password_hash == []
      then (some nothing_to_save, none)
      else if path == []
      then (some no_path, none)
      else save_document username password_hash d (document file)
