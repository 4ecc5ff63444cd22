-- ===== src/Signal/Admin/Laws.antt =====
-- internal/signal/admin.go: who may sign in, and what a change of the account leaves.
use relay_tunnel.Prelude.{
  ℕ, ◌≡◌, ◌≢◌, ◌↔◌, ◌⊎◌, inl, inr, refl, sym, ap, subst, ◌∙◌, Bool, true, false, ◌==◌, Option, none,
  some, [], ◌∷◌, Bytes, arith, Dict, lookup, nat_eq, bytes_eq, Bool-cases, Option-cases,
  Either-cases,
}
use relay_tunnel.Signal.Admin.{
  AdminSession, Account, Admin, rename, normalize_username, admin_username, auth_session, is_live,
  lookup_session, initial_admin_password,
}
use relay_tunnel.Signal.Admin.Handlers.{
  AccountRequest, Changed, check_admin_password, handle_auth_account, account_change, change_for,
  new_hash, cookie_value, save_account, set_account, store_account,
}

module _ (verify : Bytes → Bytes → Bool) where
  pub check_admin_password_iff :
      (c : Account) (username password : Bytes) (must_change : Bool)
      → (check_admin_password verify c username password ≡ some must_change) ↔ (
          (normalize_username username ≡ normalize_username (admin_username c))
          × (((c.password_hash ≡ []) × (password ≡ initial_admin_password) × (must_change ≡ true))
              ⊎ ((c.password_hash ≢ [])
                  × (verify c.password_hash password ≡ true)
                  × (must_change ≡ false))))
  unfolding check_admin_password
  check_admin_password_iff c username password must_change = ground arith

pub lookup-rename :
    (keep username token : Bytes) (d : Dict Bytes AdminSession) (s : AdminSession)
    → lookup token (rename keep username d) ≡ some s
    → (token ≡ keep) × (s.username ≡ username) × (s.must_change ≡ false)
unfolding rename lookup
lookup-rename keep username token [] s h = absurd (ground arith)
lookup-rename keep username token ((t, v) ∷ d) s h =
    ground (arith, lookup-rename keep username token d s)

lookup-rename_kept :
    (keep username : Bytes) (d : Dict Bytes AdminSession) (s : AdminSession)
    → lookup keep d ≡ some s
    → lookup keep (rename keep username d)
      ≡ some (record s { username = username; must_change = false })
unfolding rename lookup
lookup-rename_kept keep username [] s h = absurd (ground arith)
lookup-rename_kept keep username ((t, v) ∷ d) s h =
    ground (arith, lookup-rename_kept keep username d s)

-- The session of a cookie: none, or a live one stored under the cookie's value.
pub auth_session-cases :
    (now : ℕ) (cookie : Option Bytes) (a : Admin)
    → (((auth_session now cookie a).1 ≡ none) × ((auth_session now cookie a).0.account ≡ a.account))
      ⊎ ((token : Bytes) × (s : AdminSession) × (cookie ≡ some token)
          × (auth_session now cookie a ≡ (a, some s))
          × (lookup token a.sessions ≡ some s)
          × (is_live now s ≡ true))
unfolding auth_session
auth_session-cases now none a = inl (refl, refl)
auth_session-cases now (some token) a = elim (Bool-cases (token == [])) [
  | inl e ↦ inl (rw (e, auth_session) refl, rw (e, auth_session) refl)
  | inr e ↦ elim (Option-cases (lookup token a.sessions)) [
    | inl l ↦
        inl (
          rw (e, auth_session, lookup_session, l) refl,
          rw (e, auth_session, lookup_session, l) refl,
        )
    | inr (s, l) ↦ elim (Bool-cases (is_live now s)) [
      | inl v ↦ inr (token, s, refl, rw (e, auth_session, lookup_session, l, v) refl, l, v)
      | inr v ↦ inl (
        rw (e, auth_session, lookup_session, l, v) refl,
        rw (e, auth_session, lookup_session, l, v) refl,
      )
    ]
  ]
]

pub auth_session-account :
    (now : ℕ) (cookie : Option Bytes) (a : Admin)
    → (auth_session now cookie a).0.account ≡ a.account
auth_session-account now cookie a = elim (auth_session-cases now cookie a) [
  | inl (_, e) ↦ e
  | inr (token, s, c, e, l, v) ↦ ap (λ x. x.0.account) e
]

new_hash_code :
    (hash : Bytes → Option Bytes) (p : Bytes) (code : ℕ) → new_hash hash p ≡ inl code → code ≢ 200
unfolding new_hash
new_hash_code hash p code h = ground arith

module _ (verify : Bytes → Bytes → Bool) (hash : Bytes → Option Bytes) where
  -- No refusal is answered with 200.
  account_change_code :
      (c : Account) (sess : AdminSession) (req : AccountRequest) (code : ℕ)
      → account_change verify hash c sess req ≡ inl code
      → code ≢ 200
  unfolding account_change
  account_change_code c sess req code h = ground (arith, new_hash_code hash req.new_password code)

module _ (verify : Bytes → Bytes → Bool) (hash : Bytes → Option Bytes)
    (save : Option (Bytes → Bytes → Bool)) where
  -- A refused request, and one that is carried out.
  abbrev Refused : ℕ → Option Bytes → Admin → Changed → Type 0
  Refused now cookie a r = (r.reply.0 ≢ 200) × (r.admin ≡ (auth_session now cookie a).0)

  abbrev pub CarriedOut : ℕ → Option Bytes → Option AccountRequest → Admin → Changed → Type 0
  CarriedOut now cookie req a r =
      (token : Bytes) × (s : AdminSession) × (q : AccountRequest) × (username : Bytes) × (h : Bytes)
      × (cookie ≡ some token)
      × (lookup token a.sessions ≡ some s)
      × (is_live now s ≡ true)
      × (req ≡ some q)
      × (account_change verify hash a.account s q ≡ inr (username, h))
      × (r.reply.0 ≡ 200)
      × (r.saved ≡ some (username, h))
      × (r.admin ≡ (store_account cookie username h a).0)

  -- What the handler does once the session is known.
  save-cases :
      (cookie : Option Bytes) (username h : Bytes) (a : Admin)
      → let r = save_account save cookie username h a in
        ((r.reply.0 ≢ 200) × (r.admin ≡ a))
        ⊎ ((r.reply.0 ≡ 200)
            × (r.saved ≡ some (username, h))
            × (r.admin ≡ (store_account cookie username h a).0))
  unfolding save_account
  save-cases cookie username h a = elim (Option-cases save) [
    | inl e ↦ inl (rw (save_account, e) (ground arith), rw (save_account, e) refl)
    | inr (w, e) ↦ elim (Bool-cases (w username h)) [
      | inl e' ↦ inr (
        rw (save_account, e, e') refl,
        rw (save_account, e, e') refl,
        rw (save_account, e, e') refl,
      )
      | inr e' ↦ inl (rw (save_account, e, e') (ground arith), rw (save_account, e, e') refl)
    ]
  ]

  change_for-cases :
      (cookie : Option Bytes) (req : Option AccountRequest) (a : Admin) (s : AdminSession)
      → let r = change_for verify hash save cookie req (a, some s) in
        ((r.reply.0 ≢ 200) × (r.admin ≡ a))
        ⊎ ((q : AccountRequest) × (username : Bytes) × (h : Bytes) × (req ≡ some q)
            × (account_change verify hash a.account s q ≡ inr (username, h))
            × (r.reply.0 ≡ 200)
            × (r.saved ≡ some (username, h))
            × (r.admin ≡ (store_account cookie username h a).0))
  unfolding change_for
  change_for-cases cookie none a s = inl (ground arith, refl)
  change_for-cases cookie (some q) a s =
      elim (Either-cases (account_change verify hash a.account s q)) [
        | inl (code, e) ↦ inl (
          rw (change_for, e) (account_change_code verify hash a.account s q code e),
          rw (change_for, e) refl,
        )
        | inr ((username, h), e) ↦ elim (save-cases cookie username h a) [
          | inl (k, r) ↦ inl (rw (change_for, e) k, rw (change_for, e) r)
          | inr (g, k, r) ↦ inr (
            q,
            username,
            h,
            refl,
            e,
            rw (change_for, e) g,
            rw (change_for, e) k,
            rw (change_for, e) r,
          )
        ]
      ]

  pub handle_auth_account-cases :
      (now : ℕ) (cookie : Option Bytes) (req : Option AccountRequest) (a : Admin)
      → let r = handle_auth_account verify hash save now cookie req a in
        Refused now cookie a r ⊎ CarriedOut now cookie req a r
  unfolding handle_auth_account
  handle_auth_account-cases now cookie req a = elim (auth_session-cases now cookie a) [
    | inl (e, _) ↦ inl (
      rw (handle_auth_account, change_for, e) (ground arith),
      rw (handle_auth_account, change_for, e) refl,
    )
    | inr (token, s, c, e, l, v) ↦ elim (change_for-cases cookie req a s) [
      | inl (k, r) ↦ inl (
        subst (λ x. (change_for verify hash save cookie req x).reply.0 ≢ 200) (sym e) k,
        subst (λ x. (change_for verify hash save cookie req x).admin ≡ x.0) (sym e) r,
      )
      | inr (q, username, h, e', e″, g, k, r) ↦ inr (
        token,
        s,
        q,
        username,
        h,
        c,
        l,
        v,
        e',
        e″,
        subst (λ x. (change_for verify hash save cookie req x).reply.0 ≡ 200) (sym e) g,
        subst (λ x. (change_for verify hash save cookie req x).saved ≡ some (username, h)) (sym e)
            k,
        subst
            (λ x.
              (change_for verify hash save cookie req x).admin
              ≡ (store_account cookie username h a).0)
            (sym e) r,
      )
    ]
  ]

  -- A change of the account that is answered with 200 stores the name and the hash that it hands
  -- to `SaveAdmin`. Every session that is left is the one of the request's cookie, and that one is
  -- left: it bears the account's name, is no longer held to change the password, and is otherwise as
  -- it was.
  pub handle_auth_account_ok :
      (now : ℕ) (cookie : Option Bytes) (req : Option AccountRequest) (a : Admin)
      → let r = handle_auth_account verify hash save now cookie req a in
        r.reply.0 ≡ 200
        → ((username : Bytes) × (h : Bytes) × (r.saved ≡ some (username, h))
            × (r.admin.account ≡ set_account username h a.account))
          × ((token : Bytes) (s : AdminSession)
              → lookup token r.admin.sessions ≡ some s
              → (cookie ≡ some token)
                × (s.username ≡ admin_username r.admin.account)
                × (s.must_change ≡ false))
          × ((token : Bytes) × (s : AdminSession) × (cookie ≡ some token)
              × (lookup token a.sessions ≡ some s)
              × (lookup token r.admin.sessions
                  ≡ some (record s {
                    username = admin_username r.admin.account;
                    must_change = false;
                  })))
  unfolding set_account store_account
  handle_auth_account_ok now cookie req a h = elim (handle_auth_account-cases now cookie req a) [
    | inl (n, _) ↦ absurd (n h)
    | inr (token, s, q, username, k, c, l, v, e, e', g, w, r) ↦ (
      (username, k, w, rw (r) refl),
      λ t s' f.
          let (m, n, x) =
            lookup-rename (cookie_value cookie) (admin_username (set_account username k a.account))
              t a.sessions s' (rw (r) at f) in
          (c ∙ ap some (sym (m ∙ ap cookie_value c)), rw (r) n, x),
      (
        token,
        s,
        c,
        l,
        rw (r, c)
            (lookup-rename_kept token (admin_username (set_account username k a.account)) a.sessions
              s l),
      ),
    )
  ]

  -- A change of the account that is answered with anything else leaves the account as it was.
  pub handle_auth_account_refused :
      (now : ℕ) (cookie : Option Bytes) (req : Option AccountRequest) (a : Admin)
      → let r = handle_auth_account verify hash save now cookie req a in
        r.reply.0 ≢ 200 → r.admin.account ≡ a.account
  handle_auth_account_refused now cookie req a h =
      elim (handle_auth_account-cases now cookie req a) [
        | inl (_, r) ↦ ap (λ x. x.account) r ∙ auth_session-account now cookie a
        | inr (token, s, q, username, k, c, l, v, e, e', g, w, r) ↦ absurd (h g)
      ]
