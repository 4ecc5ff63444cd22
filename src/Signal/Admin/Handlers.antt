-- ===== src/Signal/Admin/Handlers.antt =====
-- internal/signal/admin.go: `checkAdminPassword`, `handleAuthLogin` and `handleAuthAccount`.
use relay_tunnel.Prelude.{
  ℕ, Bool, true, false, not, ◌&&◌, ◌==◌, ◌⊎◌, inl, inr, Option, none, some, [], Bytes, length, ltb,
  if◌then◌else◌, nat_eq, bytes_eq,
}
use relay_tunnel.Signal.Admin.{
  AdminSession, Account, Admin, Reply, NameError, refuse, issue, rename, normalize_username,
  validate_username, admin_username, password_unset, auth_session, initial_admin_password,
}

-- A login request, and a request to change the account.
pub record Credentials : Type 0 where
  pub username : Bytes
  pub password : Bytes

pub record AccountRequest : Type 0 where
  pub current_password : Bytes
  pub new_username : Bytes
  pub new_password : Bytes

-- What `handleAuthAccount` leaves: the state, the answer and what it handed to `SaveAdmin`.
pub record Changed : Type 0 where
  pub admin : Admin
  pub reply : Reply
  pub saved : Option (Bytes × Bytes)

abbrev pub is_error : Option NameError → Bool
is_error none = false
is_error (some _) = true

module _ (verify : Bytes → Bytes → Bool) where
  -- `checkAdminPassword`: whether the password must be changed; none is `errBadCredentials`.
  unfoldable pub check_admin_password : Account → Bytes → Bytes → Option Bool
  unfolding normalize_username admin_username
  check_admin_password c username password =
      if not (normalize_username username == normalize_username (admin_username c))
      then none
      else if c.password_hash == []
      then if password == initial_admin_password then some true else none
      else if verify c.password_hash password
      then some false
      else none

  -- `handleAuthLogin` with this random token; a request of none is malformed.
  unfoldable pub handle_auth_login : ℕ → Bytes → Option Credentials → Admin → Admin × Reply
  unfolding issue check_admin_password admin_username
  handle_auth_login now token none a = (a, refuse 400)
  handle_auth_login now token (some req) a =
      elim (check_admin_password a.account req.username req.password) [
        | none ↦ (a, refuse 401)
        | some must_change ↦ (
          issue now token (admin_username a.account) must_change a,
          (
            200,
            some (record {
              authenticated = true;
              username = admin_username a.account;
              must_change = must_change;
              password_unset = password_unset a.account;
            }),
          ),
        )
      ]

-- The hash of the new password, empty where there is none, or the status that refuses it.
unfoldable pub new_hash : (Bytes → Option Bytes) → Bytes → ℕ ⊎ Bytes
new_hash hash password =
    if password == []
    then inr []
    else if ltb (length password) 8
    then inl 400
    else if password == initial_admin_password
    then inl 400
    else elim (hash password) [ none ↦ inl 500 | some h ↦ inr h ]

-- The guards of `handleAuthAccount` after the sign in is known: the username and the hash to store,
-- or the status that refuses the request.
unfoldable pub account_change :
    (Bytes → Bytes → Bool)
    → (Bytes → Option Bytes)
    → Account
    → AdminSession
    → AccountRequest
    → ℕ ⊎ (Bytes × Bytes)
unfolding check_admin_password normalize_username validate_username admin_username new_hash
account_change verify hash c sess req =
    elim (check_admin_password verify c sess.username req.current_password) [
      | none ↦ inl 401
      | some _ ↦
          let username = normalize_username req.new_username in
          let renaming =
            not (username == []) && not (username == normalize_username (admin_username c)) in
          let bad_name = is_error (validate_username username) in
          if not (username == []) && bad_name
          then inl 400
          else if password_unset c && req.new_password == []
          then inl 400
          else if not renaming && req.new_password == []
          then inl 400
          else elim (new_hash hash req.new_password) [
            | inl code ↦ inl code
            | inr h ↦ inr (username, h)
          ]
    ]

unfoldable pub set_account : Bytes → Bytes → Account → Account
set_account username h c = record {
  username = if username == [] then c.username else username;
  password_hash = if h == [] then c.password_hash else h;
}

abbrev pub cookie_value : Option Bytes → Bytes
cookie_value none = []
cookie_value (some token) = token

-- The end of `handleAuthAccount`, once `SaveAdmin` returned no error.
unfoldable pub store_account : Option Bytes → Bytes → Bytes → Admin → Admin × Reply
unfolding set_account rename admin_username
store_account cookie username h a =
    let account' = set_account username h a.account in
    let current = admin_username account' in
    (
      record a { account = account'; sessions = rename (cookie_value cookie) current a.sessions },
      (
        200,
        some (record {
          authenticated = true;
          username = current;
          must_change = false;
          password_unset = false;
        }),
      ),
    )

unfoldable pub save_account :
    Option (Bytes → Bytes → Bool) → Option Bytes → Bytes → Bytes → Admin → Changed
unfolding store_account
save_account save cookie username h a = elim save [
  | none ↦ record { admin = a; reply = refuse 500; saved = none }
  | some write ↦
      let (a', reply) = store_account cookie username h a in
      if write username h
      then record { admin = a'; reply = reply; saved = some (username, h) }
      else record { admin = a; reply = refuse 500; saved = some (username, h) }
]

module _ (verify : Bytes → Bytes → Bool) (hash : Bytes → Option Bytes)
    (save : Option (Bytes → Bytes → Bool)) where
  -- `handleAuthAccount` once the cookie's session is looked up.
  unfoldable pub change_for :
      Option Bytes → Option AccountRequest → Admin × Option AdminSession → Changed
  unfolding account_change save_account
  change_for cookie req (a, none) = record { admin = a; reply = refuse 401; saved = none }
  change_for cookie none (a, some sess) = record { admin = a; reply = refuse 400; saved = none }
  change_for cookie (some r) (a, some sess) = elim (account_change verify hash a.account sess r) [
    | inl code ↦ record { admin = a; reply = refuse code; saved = none }
    | inr (username, h) ↦ save_account save cookie username h a
  ]

  -- `handleAuthAccount`
  unfoldable pub handle_auth_account : ℕ → Option Bytes → Option AccountRequest → Admin → Changed
  unfolding auth_session change_for
  handle_auth_account now cookie req a = change_for cookie req (auth_session now cookie a)
