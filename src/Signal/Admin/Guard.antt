-- ===== src/Signal/Admin/Guard.antt =====
-- internal/signal/admin.go: a browser may manage the server only once a password has been chosen.
use relay_tunnel.Prelude.{
  ℕ, ◌≡◌, ◌≢◌, inl, inr, refl, sym, ap, subst, ◌∙◌, Bool, true, false, not, ◌==◌, Option, none,
  some, List, [], ◌∷◌, Bytes, arith, Dict, lookup, retain, lookup-insert_cases, lookup-erase,
  lookup-retain, NodupKeys, insert-NodupKeys, erase-NodupKeys, retain-NodupKeys, nat_eq, bytes_eq,
  Bool-cases, Option-cases, ==→eq, ==-ne,
}
use relay_tunnel.Signal.Admin.{
  AdminSession, Account, Admin, issue, rename, revoke, drop_token, reap, is_live, new_admin,
  auth_session, lookup_session, authorized, may_pass, handle_auth_session, handle_auth_logout,
  admin_username,
}
use relay_tunnel.Signal.Admin.Handlers.{
  Credentials, AccountRequest, check_admin_password, handle_auth_login, handle_auth_account,
  account_change, new_hash, cookie_value, set_account, store_account,
}
use relay_tunnel.Signal.Admin.Laws.{
  auth_session-cases, handle_auth_account-cases, check_admin_password_iff,
}

-- Every session that is not held to change its password was admitted with a password chosen.
abbrev pub IsGuarded : Admin → Type 0
IsGuarded a =
    NodupKeys a.sessions
    × ((token : Bytes) (s : AdminSession)
        → lookup token a.sessions ≡ some s
        → s.must_change ≡ false
        → a.account.password_hash ≢ [])

-- What a browser can ask for. A login comes with the random token that it would be given.
pub data Request : Type 0 where
  session : ℕ → Option Bytes → Request
  login : ℕ → Bytes → Option Credentials → Request
  logout : Option Bytes → Request
  account : ℕ → Option Bytes → Option AccountRequest → Option (Bytes → Bytes → Bool) → Request

lookup_of_retain :
    (p : Bytes → AdminSession → Bool) (t : Bytes) (s : AdminSession) (d : Dict Bytes AdminSession)
    → NodupKeys d
    → lookup t (retain p d) ≡ some s
    → lookup t d ≡ some s
lookup_of_retain p t s d n h = ground (arith, lookup-retain p t d n)

drop_token-IsGuarded : (token : Bytes) (a : Admin) → IsGuarded a → IsGuarded (drop_token token a)
drop_token-IsGuarded token a (n, g) = (
  erase-NodupKeys token a.sessions n,
  λ t s l m. g t s (ground (arith, lookup-erase t token a.sessions)) m,
)

auth_session-IsGuarded :
    (now : ℕ) (cookie : Option Bytes) (a : Admin)
    → IsGuarded a
    → IsGuarded (auth_session now cookie a).0
unfolding auth_session lookup_session
auth_session-IsGuarded now none a g = g
auth_session-IsGuarded now (some token) a g = elim (Bool-cases (token == [])) [
  | inl e ↦ rw (e, auth_session) g
  | inr e ↦ elim (Option-cases (lookup token a.sessions)) [
    | inl l ↦ rw (e, auth_session, lookup_session, l) (drop_token-IsGuarded token a g)
    | inr (s, l) ↦ elim (Bool-cases (is_live now s)) [
      | inl v ↦ rw (e, auth_session, lookup_session, l, v) g
      | inr v ↦ rw (e, auth_session, lookup_session, l, v) (drop_token-IsGuarded token a g)
    ]
  ]
]

issue-IsGuarded :
    (now : ℕ) (token username : Bytes) (must_change : Bool) (a : Admin)
    → (must_change ≡ false → a.account.password_hash ≢ [])
    → IsGuarded a
    → IsGuarded (issue now token username must_change a)
unfolding issue
issue-IsGuarded now token username must_change a k (n, g) = (
  insert-NodupKeys token _ (reap now a.sessions)
      (retain-NodupKeys (λ _ s. is_live now s) a.sessions n),
  λ t s l m. elim (lookup-insert_cases t token _ s (reap now a.sessions) l) [
    | inl (_, e) ↦ k (sym (ap (λ x. x.must_change) e) ∙ m)
    | inr l' ↦ g t s (lookup_of_retain (λ _ x. is_live now x) t s a.sessions n l') m
  ],
)

rename-none :
    (keep username t : Bytes) (d : Dict Bytes AdminSession)
    → lookup t d ≡ none
    → lookup t (rename keep username d) ≡ none
unfolding rename lookup
rename-none keep username t [] h = refl
rename-none keep username t ((k, v) ∷ d) h = ground (arith, rename-none keep username t d)

rename-NodupKeys :
    (keep username : Bytes) (d : Dict Bytes AdminSession)
    → NodupKeys d
    → NodupKeys (rename keep username d)
unfolding rename
rename-NodupKeys keep username [] n = tt
rename-NodupKeys keep username ((k, v) ∷ d) (f, n) =
    ground (arith, rename-none keep username k d f, rename-NodupKeys keep username d n)

new_admin-IsGuarded : (ttl : ℕ) (c : Account) → IsGuarded (new_admin ttl c)
unfolding new_admin lookup
new_admin-IsGuarded ttl c = (tt, λ t s l m. absurd (ground arith))

none-unauthorized :
    (now : ℕ) (cookie : Option Bytes) (a : Admin)
    → (auth_session now cookie a).1 ≡ none
    → ¬ ((authorized now cookie a).1 ≡ true)
unfolding authorized
none-unauthorized now cookie a e h = absurd (ground (arith, rw (authorized, e) at h))

not-true : (b : Bool) → not b ≡ true → b ≡ false
not-true b h = ground arith

some-authorized :
    (now : ℕ) (cookie : Option Bytes) (a : Admin) (s : AdminSession)
    → auth_session now cookie a ≡ (a, some s)
    → (authorized now cookie a).1 ≡ true
    → s.must_change ≡ false
unfolding authorized
some-authorized now cookie a s e h = not-true s.must_change (subst (λ x. may_pass x.1 ≡ true) e h)

hash_of_check :
    (verify : Bytes → Bytes → Bool) (c : Account) (req : Credentials) (m : Bool)
    → check_admin_password verify c req.username req.password ≡ some m
    → m ≡ false
    → c.password_hash ≢ []
hash_of_check verify c req m e f =
    let (_, x) = (check_admin_password_iff verify c req.username req.password m).0 e in
    elim x [ inl (_, _, t) ↦ absurd (ground arith) | inr (n, _, _) ↦ n ]

module _ (verify : Bytes → Bytes → Bool) (hash : Bytes → Option Bytes) where
  unfoldable pub serve : Request → Admin → Admin
  unfolding handle_auth_session handle_auth_login handle_auth_logout handle_auth_account
  serve (session now cookie) a = (handle_auth_session now cookie a).0
  serve (login now token req) a = (handle_auth_login verify now token req a).0
  serve (logout cookie) a = (handle_auth_logout cookie a).0
  serve (account now cookie req save) a =
      (handle_auth_account verify hash save now cookie req a).admin

  unfoldable pub serve_all : List Request → Admin → Admin
  unfolding serve
  serve_all [] a = a
  serve_all (r ∷ rs) a = serve_all rs (serve r a)

  module _ (hash-ne : (p h : Bytes) → hash p ≡ some h → h ≢ []) where
    new_hash-ne : (p h : Bytes) → p ≢ [] → new_hash hash p ≡ inr h → h ≢ []
    unfolding new_hash
    new_hash-ne p h n e = ground (arith, hash-ne p h)

    -- What the guards of the handler let through.
    account_change_hashes :
        (c : Account) (sess : AdminSession) (req : AccountRequest) (username h : Bytes)
        → account_change verify hash c sess req ≡ inr (username, h)
        → (new_hash hash req.new_password ≡ inr h)
          × ((c.password_hash ≡ []) → req.new_password ≢ [])
    unfolding account_change
    account_change_hashes c sess req username h e = ground arith

    -- A change that is carried out leaves a password chosen.
    account_change-hash :
        (c : Account) (sess : AdminSession) (req : AccountRequest) (username h : Bytes)
        → account_change verify hash c sess req ≡ inr (username, h)
        → (set_account username h c).password_hash ≢ []
    unfolding set_account
    account_change-hash c sess req username h e =
        let (n, k) = account_change_hashes c sess req username h e in
        elim (Bool-cases (c.password_hash == [])) [
          | inl u ↦
              ground (arith, new_hash-ne req.new_password h (k (==→eq c.password_hash [] u)) n)
          | inr u ↦ ground (arith, ==-ne c.password_hash u)
        ]

    login-IsGuarded :
        (now : ℕ) (token : Bytes) (req : Option Credentials) (a : Admin)
        → IsGuarded a
        → IsGuarded (handle_auth_login verify now token req a).0
    unfolding handle_auth_login
    login-IsGuarded now token none a g = g
    login-IsGuarded now token (some req) a g =
        elim (Option-cases (check_admin_password verify a.account req.username req.password)) [
          | inl e ↦ rw (handle_auth_login, e) g
          | inr (m, e) ↦
              rw (handle_auth_login, e)
                (issue-IsGuarded now token (admin_username a.account) m a
                  (hash_of_check verify a.account req m e) g)
        ]

    account-IsGuarded :
        (now : ℕ) (cookie : Option Bytes) (req : Option AccountRequest)
        (save : Option (Bytes → Bytes → Bool)) (a : Admin)
        → IsGuarded a
        → IsGuarded (handle_auth_account verify hash save now cookie req a).admin
    unfolding store_account
    account-IsGuarded now cookie req save a g =
        elim (handle_auth_account-cases verify hash save now cookie req a) [
          | inl (_, r) ↦ subst IsGuarded (sym r) (auth_session-IsGuarded now cookie a g)
          | inr (token, s, q, username, h, c, l, v, e, e', _, w, r) ↦ subst IsGuarded (sym r) (
            rename-NodupKeys (cookie_value cookie)
                (admin_username (set_account username h a.account)) a.sessions g.0,
            λ t x y z. account_change-hash a.account s q username h e',
          )
        ]

    serve-IsGuarded : (r : Request) (a : Admin) → IsGuarded a → IsGuarded (serve r a)
    unfolding serve handle_auth_session handle_auth_logout revoke
    serve-IsGuarded (session now cookie) a g = auth_session-IsGuarded now cookie a g
    serve-IsGuarded (login now token req) a g = login-IsGuarded now token req a g
    serve-IsGuarded (logout none) a g = g
    serve-IsGuarded (logout (some token)) a g = drop_token-IsGuarded token a g
    serve-IsGuarded (account now cookie req save) a g = account-IsGuarded now cookie req save a g

    pub serve_all-IsGuarded :
        (rs : List Request) (a : Admin) → IsGuarded a → IsGuarded (serve_all rs a)
    unfolding serve_all
    serve_all-IsGuarded [] a g = g
    serve_all-IsGuarded (r ∷ rs) a g = serve_all-IsGuarded rs (serve r a) (serve-IsGuarded r a g)

    -- After any requests to a fresh server, where hashing never gives the empty text, a browser
    -- that is let in to manage the server finds that its password has been chosen.
    pub authorized_has_password :
        (ttl : ℕ) (c : Account) (rs : List Request) (now : ℕ) (cookie : Option Bytes)
        → let a = serve_all rs (new_admin ttl c) in
          (authorized now cookie a).1 ≡ true → a.account.password_hash ≢ []
    unfolding authorized
    authorized_has_password ttl c rs now cookie h =
        let a = serve_all rs (new_admin ttl c) in
        let (_, g) = serve_all-IsGuarded rs (new_admin ttl c) (new_admin-IsGuarded ttl c) in
        elim (auth_session-cases now cookie a) [
          | inl (e, _) ↦ absurd (none-unauthorized now cookie a e h)
          | inr (token, s, _, e, l, _) ↦ g token s l (some-authorized now cookie a s e h)
        ]
