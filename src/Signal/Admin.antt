-- ===== src/Signal/Admin.antt =====
-- internal/signal/admin.go: the administrator account, its browser sessions and their handlers.
-- `verify` is `verifyPassword`, `hash` is `hashPassword` with the salt it draws, and `save` is the
-- result of `cfg.SaveAdmin` (none where there is no such function). Texts are ASCII.

pub mod Handlers
pub mod Laws
pub mod Request
pub mod Password
pub mod Guard
use relay_tunnel.Prelude.{
  ℕ, ◌+◌, ◌-◌, ◌*◌, Bool, true, false, not, ◌&&◌, ◌||◌, ◌==◌, ◌⊎◌, inl, inr, Option, none, some,
  List, [], ◌∷◌, Bytes, codes, length, ltb, leb, if◌then◌else◌, Dict, lookup, insert, erase, retain,
  nat_eq, bytes_eq,
}
use relay_tunnel.Signal.State.{second}

pub record AdminSession : Type 0 where
  pub username : Bytes
  pub expires : ℕ
  pub must_change : Bool

-- `cfg.Admin`, as far as a sign in reads it
pub record Account : Type 0 where
  pub username : Bytes
  pub password_hash : Bytes

pub record Admin : Type 0 where
  pub sessions : Dict Bytes AdminSession
  pub ttl : ℕ
  pub account : Account

abbrev pub default_admin_username : Bytes
default_admin_username = codes "admin"

abbrev pub initial_admin_password : Bytes
initial_admin_password = codes "admin"

-- `newAdminAuth`; a ttl that is not positive is 0 here.
unfoldable pub new_admin : ℕ → Account → Admin
new_admin ttl account = record {
  sessions = [];
  ttl = if ltb 0 ttl then ttl else 12 * (3600 * second);
  account = account;
}

abbrev pub is_live : ℕ → AdminSession → Bool
is_live now s = not (ltb s.expires now)

-- `reapLocked`
abbrev pub reap : ℕ → Dict Bytes AdminSession → Dict Bytes AdminSession
reap now = retain (λ _ s. is_live now s)

-- `issue` of this random token.
unfoldable pub issue : ℕ → Bytes → Bytes → Bool → Admin → Admin
issue now token username must_change a = record a {
  sessions =
      insert token
        (record { username = username; expires = now + a.ttl; must_change = must_change })
        (reap now a.sessions);
}

abbrev pub drop_token : Bytes → Admin → Admin
drop_token token a = record a { sessions = erase token a.sessions }

-- `adminAuth.lookup`
unfoldable pub lookup_session : ℕ → Bytes → Admin → Admin × Option AdminSession
lookup_session now token a = elim (lookup token a.sessions) [
  | none ↦ (drop_token token a, none)
  | some s ↦ if is_live now s then (a, some s) else (drop_token token a, none)
]

-- `revoke`
unfoldable pub revoke : Bytes → Admin → Admin
revoke token a = drop_token token a

-- `rename`
unfoldable pub rename : Bytes → Bytes → Dict Bytes AdminSession → Dict Bytes AdminSession
rename keep username [] = []
rename keep username ((token, s) ∷ d) =
    let rest = rename keep username d in
    if token == keep
    then (token, record s { username = username; must_change = false }) ∷ rest
    else rest

-- `strings.TrimSpace` and `strings.ToLower`, on ASCII
abbrev pub is_space : ℕ → Bool
is_space c = (leb 9 c && leb c 13) || c == 32

unfoldable pub trim_left : Bytes → Bytes
trim_left [] = []
trim_left (c ∷ cs) = let rest = trim_left cs in if is_space c then rest else c ∷ cs

unfoldable pub trim_right : Bytes → Bytes
trim_right [] = []
trim_right (c ∷ cs) = let rest = trim_right cs in if rest == [] && is_space c then [] else c ∷ rest

unfoldable pub to_lower : Bytes → Bytes
to_lower [] = []
to_lower (c ∷ cs) = (if leb 65 c && leb c 90 then c + 32 else c) ∷ to_lower cs

unfoldable pub normalize_username : Bytes → Bytes
normalize_username name = to_lower (trim_right (trim_left name))

pub data NameError : Type 0 where
  too_short too_long bad_character : NameError

abbrev pub is_name_char : ℕ → Bool
is_name_char c = (leb 97 c && leb c 122) || (leb 48 c && leb c 57) || c == 46 || c == 45 || c == 95

unfoldable pub all_name_chars : Bytes → Bool
all_name_chars [] = true
all_name_chars (c ∷ cs) = is_name_char c && all_name_chars cs

-- `validateUsername`; none is no error.
unfoldable pub validate_username : Bytes → Option NameError
unfolding all_name_chars
validate_username name =
    if ltb (length name) 3
    then some too_short
    else if ltb 32 (length name)
    then some too_long
    else if all_name_chars name
    then none
    else some bad_character

unfoldable pub admin_username : Account → Bytes
admin_username c = if c.username == [] then default_admin_username else c.username

abbrev pub password_unset : Account → Bool
password_unset c = c.password_hash == []

-- `authSession` of the cookie's value.
unfoldable pub auth_session : ℕ → Option Bytes → Admin → Admin × Option AdminSession
unfolding lookup_session
auth_session now none a = (a, none)
auth_session now (some token) a = if token == [] then (a, none) else lookup_session now token a

abbrev pub may_pass : Option AdminSession → Bool
may_pass none = false
may_pass (some s) = not s.must_change

-- `authorized`
unfoldable pub authorized : ℕ → Option Bytes → Admin → Admin × Bool
unfolding auth_session
authorized now cookie a = let (a', s) = auth_session now cookie a in (a', may_pass s)

-- An answer: its status, and the body's `authStatus` where it is not an error.
pub record AuthStatus : Type 0 where
  pub authenticated : Bool
  pub username : Bytes
  pub must_change : Bool
  pub password_unset : Bool

abbrev pub Reply : Type 0
Reply = ℕ × Option AuthStatus

abbrev pub refuse : ℕ → Reply
refuse code = (code, none)

abbrev status_of : Account → Option AdminSession → Reply
status_of c none = (
  200,
  some (record {
    authenticated = false;
    username = [];
    must_change = false;
    password_unset = password_unset c;
  }),
)
status_of c (some s) = (
  200,
  some (record {
    authenticated = true;
    username = s.username;
    must_change = s.must_change;
    password_unset = password_unset c;
  }),
)

-- `handleAuthSession`
unfoldable pub handle_auth_session : ℕ → Option Bytes → Admin → Admin × Reply
unfolding auth_session
handle_auth_session now cookie a =
    let (a', s) = auth_session now cookie a in (a', status_of a'.account s)

-- `handleAuthLogout`
unfoldable pub handle_auth_logout : Option Bytes → Admin → Admin × Reply
unfolding revoke
handle_auth_logout none a = (a, refuse 204)
handle_auth_logout (some token) a = (revoke token a, refuse 204)
