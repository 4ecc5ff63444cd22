-- ===== src/Tests/Account.antt =====
-- internal/signal/admin.go: the first sign in, and a change of the account.
use relay_tunnel.Prelude.{
  ◌≡◌, ◌≢◌, ◌==◌, refl, arith, Bool, true, false, Option, some, List, [], ◌∷◌, Bytes, codes, lookup,
  insert, retain, nat_eq, bytes_eq, ℕ_discrete,
}
use relay_tunnel.Signal.Admin.{
  AdminSession, Account, Admin, new_admin, issue, rename, lookup_session, auth_session, authorized,
  admin_username, normalize_username, trim_left, trim_right, to_lower, validate_username,
  all_name_chars,
}
use relay_tunnel.Signal.Admin.Handlers.{
  AccountRequest, check_admin_password, handle_auth_login, handle_auth_account, change_for,
  account_change, new_hash, set_account, store_account, save_account,
}
use relay_tunnel.Signal.Admin.Laws.{handle_auth_account_ok}
use relay_tunnel.Signal.Admin.Guard.{
  Request, login, account, serve, serve_all, authorized_has_password,
}

-- Stand-ins for `verifyPassword`, `hashPassword` and `SaveAdmin`.
abbrev verify : Bytes → Bytes → Bool
verify h p = h == 36 ∷ p

abbrev hash : Bytes → Option Bytes
hash p = some (36 ∷ p)

hash-ne : (p h : Bytes) → hash p ≡ some h → h ≢ []
hash-ne p h e = ground arith

abbrev save : Option (Bytes → Bytes → Bool)
save = some (λ _ _. true)

abbrev fresh : Account
fresh = record { username = []; password_hash = [] }

abbrev cookie : Bytes
cookie = codes "t0k3n"

abbrev change : AccountRequest
change = record {
  current_password = codes "admin";
  new_username = codes " Alice";
  new_password = codes "correct horse";
}

abbrev requests : List Request
requests =
    login 100 cookie (some (record { username = codes "Admin "; password = codes "admin" }))
    ∷ account 200 (some cookie) (some change) save
    ∷ []

-- The state after the first sign in.
abbrev signed_in : Admin
signed_in = record {
  sessions =
      (cookie, record { username = codes "admin"; expires = 1_000; must_change = true }) ∷ [];
  ttl = 900;
  account = fresh;
}

change-200 :
    (handle_auth_account verify hash save 200 (some cookie) (some change) signed_in).reply.0 ≡ 200
unfolding handle_auth_account change_for auth_session lookup_session account_change
    check_admin_password normalize_username trim_left trim_right to_lower validate_username
    all_name_chars admin_username new_hash save_account store_account lookup bytes_eq nat_eq
    ℕ_discrete
change-200 = refl

handle_auth_account_ok_example :
    let r = handle_auth_account verify hash save 200 (some cookie) (some change) signed_in in
    ((username : Bytes) × (h : Bytes) × (r.saved ≡ some (username, h))
      × (r.admin.account ≡ set_account username h signed_in.account))
    × ((token : Bytes) (s : AdminSession)
        → lookup token r.admin.sessions ≡ some s
        → (some cookie ≡ some token)
          × (s.username ≡ admin_username r.admin.account)
          × (s.must_change ≡ false))
    × ((token : Bytes) × (s : AdminSession) × (some cookie ≡ some token)
        × (lookup token signed_in.sessions ≡ some s)
        × (lookup token r.admin.sessions
            ≡ some (record s { username = admin_username r.admin.account; must_change = false })))
handle_auth_account_ok_example =
    handle_auth_account_ok verify hash save 200 (some cookie) (some change) signed_in change-200

-- The session has expired.
late-401 :
    (handle_auth_account verify hash save 2_000 (some cookie) (some change) signed_in).reply.0 ≢ 200
unfolding handle_auth_account change_for auth_session lookup_session lookup bytes_eq nat_eq
    ℕ_discrete
late-401 e = absurd (ground arith)

let_in :
    (authorized 300 (some cookie) (serve_all verify hash requests (new_admin 900 fresh))).1 ≡ true
unfolding authorized serve_all serve new_admin issue rename handle_auth_login handle_auth_account
    change_for auth_session lookup_session account_change check_admin_password normalize_username
    trim_left trim_right to_lower validate_username all_name_chars admin_username new_hash
    save_account store_account set_account lookup insert retain bytes_eq nat_eq ℕ_discrete
let_in = refl

authorized_has_password_example :
    (serve_all verify hash requests (new_admin 900 fresh)).account.password_hash ≢ []
authorized_has_password_example =
    authorized_has_password verify hash hash-ne 900 fresh requests 300 (some cookie) let_in
