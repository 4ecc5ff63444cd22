-- ===== src/Config/Keeps.antt =====
-- internal/config/save.go: what `SaveAdmin` changes in the file, and what it keeps.
use relay_tunnel.Prelude.{
  true, false, ◌&&◌, ◌==◌, Option, none, some, inl, inr, [], ◌∷◌, ◌++◌, Bytes, codes, if◌then◌else◌,
  bytes_eq, ◌≡◌, ◌≢◌, refl, sym, ap, ◌∙◌, arith, Bool-cases, Either-cases, ==-self, ne→==,
}
use relay_tunnel.Config.{
  FileRead, Json, text, object, Fields, empty, field, get_field, set_field, submap, set_text,
  change_admin, SaveError, Disk, document, write_out, save_admin,
}

get_field-set :
    (j k : Bytes) (v : Json) (fs : Fields)
    → get_field j (set_field k v fs) ≡ (if j == k then some v else get_field j fs)
unfolding get_field set_field
get_field-set j k v empty = refl
get_field-set j k v (field i w fs) = ground (arith, get_field-set j k v fs)

get_field-set_ne :
    (j k : Bytes) (v : Json) (fs : Fields) → j ≢ k → get_field j (set_field k v fs) ≡ get_field j fs
get_field-set_ne j k v fs n = rw (get_field-set j k v fs, ne→== j k n) refl

submap-set : (k : Bytes) (v fs : Fields) → submap k (set_field k (object v) fs) ≡ v
unfolding submap
submap-set k v fs = rw (get_field-set k k (object v) fs, ==-self k) refl

-- What a text is after an empty one leaves it alone.
abbrev pub new_text : Bytes → Option Json → Option Json
new_text v old = if v == [] then old else some (text v)

get_field-set_text :
    (k v : Bytes) (fs : Fields) → get_field k (set_text k v fs) ≡ new_text v (get_field k fs)
get_field-set_text k v fs = elim (Bool-cases (v == [])) [
  | inl y ↦ rw y refl
  | inr y ↦ rw (y, get_field-set k k (text v) fs, ==-self k) refl
]

get_field-set_text_ne :
    (j k v : Bytes) (fs : Fields) → j ≢ k → get_field j (set_text k v fs) ≡ get_field j fs
get_field-set_text_ne j k v fs n = elim (Bool-cases (v == [])) [
  | inl y ↦ rw y refl
  | inr y ↦ rw y (get_field-set_ne j k (text v) fs n)
]

abbrev pub account : Fields → Fields
account doc = submap (codes "admin") (submap (codes "server") doc)

-- The document has the new account and is the old one everywhere else.
pub record IsChanged (username password_hash : Bytes) (doc doc' : Fields) : Type 0 where
  pub has_username :
      get_field (codes "username") (account doc')
      ≡ new_text username (get_field (codes "username") (account doc))
  pub has_password_hash :
      get_field (codes "password_hash") (account doc')
      ≡ new_text password_hash (get_field (codes "password_hash") (account doc))
  pub keeps_account :
      (k : Bytes)
      → k ≢ codes "username"
      → k ≢ codes "password_hash"
      → get_field k (account doc') ≡ get_field k (account doc)
  pub keeps_server :
      (k : Bytes)
      → k ≢ codes "admin"
      → get_field k (submap (codes "server") doc') ≡ get_field k (submap (codes "server") doc)
  pub keeps_document : (k : Bytes) → k ≢ codes "server" → get_field k doc' ≡ get_field k doc

names-ne : ◌≢◌ {A = Bytes} (codes "username") (codes "password_hash")
names-ne e = ground arith

account-change_admin :
    (username password_hash : Bytes) (doc : Fields)
    → account (change_admin username password_hash doc)
      ≡ set_text
          (codes "password_hash")
          password_hash
          (set_text (codes "username") username (account doc))
unfolding change_admin
account-change_admin username password_hash doc =
    let server = submap (codes "server") doc in
    let admin' =
      set_text (codes "password_hash") password_hash
        (set_text (codes "username") username (account doc)) in
    ap (submap (codes "admin"))
      (submap-set (codes "server") (set_field (codes "admin") (object admin') server) doc)
    ∙ submap-set (codes "admin") admin' server

change_admin-IsChanged :
    (username password_hash : Bytes) (doc : Fields)
    → IsChanged username password_hash doc (change_admin username password_hash doc)
unfolding change_admin
change_admin-IsChanged username password_hash doc =
    let server = submap (codes "server") doc in
    let named = set_text (codes "username") username (account doc) in
    let admin' = set_text (codes "password_hash") password_hash named in
    let at = account-change_admin username password_hash doc in
    record {
      has_username =
          ap (get_field (codes "username")) at
          ∙ get_field-set_text_ne (codes "username") (codes "password_hash") password_hash named
              names-ne
          ∙ get_field-set_text (codes "username") username (account doc);
      has_password_hash =
          ap (get_field (codes "password_hash")) at
          ∙ get_field-set_text (codes "password_hash") password_hash named
          ∙ ap (new_text password_hash) (
              get_field-set_text_ne (codes "password_hash") (codes "username") username
                (account doc) (λ e. names-ne (sym e)));
      keeps_account = λ k n m.
          ap (get_field k) at
          ∙ get_field-set_text_ne k (codes "password_hash") password_hash named m
          ∙ get_field-set_text_ne k (codes "username") username (account doc) n;
      keeps_server = λ k n.
          ap (get_field k)
            (submap-set (codes "server") (set_field (codes "admin") (object admin') server) doc)
          ∙ get_field-set_ne k (codes "admin") (object admin') server n;
      keeps_document = λ k n.
          get_field-set_ne k (codes "server")
            (object (set_field (codes "admin") (object admin') server)) doc n;
    }

module _ (unmarshal : Bytes → Option (Option Fields)) (marshal : Fields → Option Bytes) where
  write_out_error :
      (d : Disk) (o : Option Bytes) (e : SaveError)
      → (write_out unmarshal marshal d o).0 ≡ some e
      → (write_out unmarshal marshal d o).1 ≡ none
  write_out_error d none e h = refl
  write_out_error d (some out) e h = elim (Bool-cases (d.created && d.flushed && d.renamed)) [
    | inl y ↦ let none_is = rw y at h in absurd (ground arith)
    | inr y ↦ rw y refl
  ]

  -- Wherever the saving of an account fails, the file is as it was.
  pub save_admin_failed :
      (path username password_hash : Bytes) (file : FileRead) (d : Disk) (e : SaveError)
      → (save_admin unmarshal marshal path username password_hash file d).0 ≡ some e
      → (save_admin unmarshal marshal path username password_hash file d).1 ≡ none
  unfolding save_admin
  save_admin_failed path username password_hash file d e h =
      elim (Bool-cases (username == [] && password_hash == [])) [
        | inl y ↦ rw (y, save_admin) refl
        | inr y ↦ elim (Bool-cases (path == [])) [
          | inl z ↦ rw (y, z, save_admin) refl
          | inr z ↦ elim (Either-cases (document unmarshal marshal file)) [
            | inl (e', q) ↦ rw (y, z, q, save_admin) refl
            | inr (doc, q) ↦
                rw (y, z, q, save_admin)
                  (write_out_error d (marshal (change_admin username password_hash doc)) e
                    (rw (y, z, q, save_admin) at h))
          ]
        ]
      ]

  -- A user name or a password hash is saved when the path is not empty, the file is missing, empty or
  -- a JSON document, the changed document has a JSON form, and the temporary file is written and
  -- renamed: then there is no error, and the file holds the JSON, with a line break, of a document with
  -- the new user name and password hash, each only if it is not empty, in which every other_value key of
  -- the account, of the server section and of the document has the value that it had.
  pub save_admin_lem :
      (path username password_hash : Bytes) (file : FileRead) (d : Disk) (doc : Fields)
      (out : Bytes)
      → (username == [] && password_hash == []) ≡ false
      → path ≢ []
      → document unmarshal marshal file ≡ inr doc
      → marshal (change_admin username password_hash doc) ≡ some out
      → (d.created && d.flushed && d.renamed) ≡ true
      → (save_admin unmarshal marshal path username password_hash file d
          ≡ (none, some (out ++ (10 ∷ []))))
        × IsChanged username password_hash doc (change_admin username password_hash doc)
  unfolding save_admin
  save_admin_lem path username password_hash file d doc out y z q r t = (
    rw (y, ne→== path [] z, q, r, t, save_admin) refl,
    change_admin-IsChanged username password_hash doc,
  )
