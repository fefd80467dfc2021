-- ===== src/Auth.antt =====
-- src/libarr/api/auth.py: who a request comes from, the first account, login, and the end of the
-- OIDC flow. The settings, the library of password hashes and the signer of cookies are parameters.
pub mod Identity
pub mod Oidc
mod Tests
use libarr.Prelude.{
  zero, ◌==◌, suc, ◌%◌, length, ◌-◌, Result, is_empty, ◌++◌, opt_eq, get_row, if◌then◌else◌, ◌>>=◌,
  ok, any, some, next_id, or_empty, err, ◌&&◌, [], none, ◌||◌, false, ◌∷◌, truthy, not, or_else,
  find, codes, text_eq, List, Option, Bool, ℕ, Text,
}
use libarr.Models.{User, Session}
use libarr.Http.{unauthorized, forbidden, conflict, bad_request, Reply}

-- The settings and the libraries: `pwdlib`, `itsdangerous`, `ipaddress`, `hmac`, `base64`.
pub record Env (Ip : Type 0) : Type 0 where
  pub auth_enabled : Bool
  pub lan_auth_bypass : Bool
  pub oidc_client_secret : Text
  -- `_password_hash.hash`
  pub hash : Text → Text
  -- `_password_hash.verify`, an exception as none
  pub verify : Text → Text → Option Bool
  -- `_serializer().dumps({"uid": …})`
  pub dumps : ℕ → Text
  -- `_serializer().loads`, a bad or old signature as none, and the "uid" if it is an int
  pub loads : Text → Option (Option ℕ)
  pub ip_address : Text → Option Ip
  pub is_in_network : Ip → Text → Bool
  pub hmac : Text → Text → Text
  pub urlsafe_b64encode : Text → Text
  -- an exception as none
  pub urlsafe_b64decode : Text → Option Text

-- What a handler reads of a request; `cookie` is the one named `libarr_session`.
pub record Request : Type 0 where
  pub host : Option Text
  pub cookie : Option Text
  pub api_key : Option Text
  pub basic : Option (Text × Text)

abbrev pub user_id : User → ℕ
user_id u = u.id

abbrev pub is_admin : User → Bool
is_admin u = text_eq u.role (codes "admin")

-- `_LAN_NETWORKS`
unfoldable pub lan_networks : List Text
lan_networks =
    codes "10.0.0.0/8"
    ∷ codes "172.16.0.0/12"
    ∷ codes "192.168.0.0/16"
    ∷ codes "127.0.0.0/8"
    ∷ codes "fc00::/7"
    ∷ codes "::1/128"
    ∷ []

abbrev pub first_user : Option User → Option User → Option User
first_user none next = next
first_user (some u) next = some u

-- `select(User).where(User.username == name)).first()`
unfoldable pub user_named : Text → Session → Option User
user_named name s = find (λ u. text_eq u.username name) s.users

module _ {Ip : Type 0} (env : Env Ip) where
  unfoldable pub verify_password : Text → Text → Bool
  verify_password password password_hash = or_else false (env.verify password password_hash)

  unfoldable pub is_lan_host : Text → Bool
  is_lan_host host = elim (env.ip_address host) [
    | none ↦ false
    | some address ↦ any (env.is_in_network address) lan_networks
  ]

  unfoldable pub is_bypassed : Request → Bool
  is_bypassed request =
      not env.auth_enabled || (env.lan_auth_bypass && is_lan_host (or_empty request.host))

  -- `_bypass_user`: the first admin.
  unfoldable pub bypass_user : Request → Session → Option User
  bypass_user request s = if is_bypassed request then find is_admin s.users else none

  unfoldable pub read_session_token : Text → Option ℕ
  read_session_token token = or_else none (env.loads token)

  abbrev pub user_of : Option ℕ → Session → Option User
  user_of none s = none
  user_of (some uid) s = get_row user_id uid s.users

  unfoldable pub cookie_user : Option Text → Session → Option User
  cookie_user cookie s =
      if truthy cookie then user_of (read_session_token (or_empty cookie)) s else none

  unfoldable pub key_user : Option Text → Session → Option User
  key_user key s = if truthy key then find (λ u. opt_eq u.api_key (or_empty key)) s.users else none

  abbrev pub verified : Text → Option User → Option User
  verified password none = none
  verified password (some u) = if verify_password password u.password_hash then some u else none

  unfoldable pub basic_user : Option (Text × Text) → Session → Option User
  basic_user none s = none
  basic_user (some credentials) s = verified credentials.1 (user_named credentials.0 s)

  unfoldable pub get_current_user : Request → Session → Option User
  get_current_user request s = first_user (bypass_user request s) (
      first_user (cookie_user request.cookie s)
        (first_user (key_user request.api_key s) (basic_user request.basic s)))

  unfoldable pub require_user : Request → Session → Reply User
  require_user request s = elim (get_current_user request s) [
    | none ↦ err (unauthorized (codes "Authentication required"))
    | some u ↦ ok u
  ]

  abbrev pub only_admin : User → Reply User
  only_admin u = if is_admin u then ok u else err (forbidden (codes "Admin privileges required"))

  unfoldable pub require_admin : Request → Session → Reply User
  require_admin request s = do u ← require_user request s; only_admin u

  abbrev pub first_admin : Text → Text → Text → User
  first_admin username password key = record {
    id = next_id user_id [];
    username = username;
    password_hash = env.hash password;
    api_key = some key;
    notify_events = codes "[\"import\",\"search\"]";
    oidc_sub = none;
    role = codes "admin";
  }

  unfoldable pub create_first : Text → Text → Text → Session → List User → Reply (User × Session)
  create_first username password key s [] = ok (
    first_admin username password key,
    record s { users = first_admin username password key ∷ [] },
  )
  create_first username password key s (u ∷ us) =
      err (conflict (codes "Bootstrap already completed"))

  -- `bootstrap`: `key` is the fresh text of `issue_api_key`.
  unfoldable pub bootstrap : Text → Text → Text → Session → Reply (User × Session)
  bootstrap username password key s = create_first username password key s s.users

  unfoldable pub log_in_as : Option User → Reply Text
  log_in_as none = err (unauthorized (codes "Invalid credentials"))
  log_in_as (some u) = ok (env.dumps u.id)

  -- `login`: the token of the cookie that it sets.
  unfoldable pub login : Text → Text → Session → Reply Text
  login username password s = log_in_as (verified password (user_named username s))

-- What the identity provider tells of a user: "sub" and "email", as texts, "" where missing.
pub record Userinfo : Type 0 where
  pub sub : Text
  pub email : Text

-- `token.partition(".")` without the dot.
unfoldable pub partition : ℕ → Text → Text × Text
partition sep [] = ([], [])
partition sep (c ∷ t) =
    let rest = partition sep t in if c == sep then ([], t) else (c ∷ rest.0, rest.1)

-- `"=" * n`
unfoldable pub equals_signs : ℕ → Text
equals_signs zero = []
equals_signs (suc n) = b'=' ∷ equals_signs n

module _ {Ip : Type 0} (env : Env Ip) where
  unfoldable pub same_digest : Text → Option Text → Bool
  same_digest expected none = false
  same_digest expected (some given) = text_eq expected given

  -- src/libarr/oidc.py: `verify_state`.
  unfoldable pub verify_state : Text → Text → Bool
  verify_state secret token =
      let (nonce, sig) = partition b'.' token in
      same_digest (env.hmac secret nonce)
        (env.urlsafe_b64decode (sig ++ equals_signs ((4 - length sig % 4) % 4)))

  unfoldable pub secret_or_default : Text
  secret_or_default =
      if is_empty env.oidc_client_secret then codes "libarr" else env.oidc_client_secret

  abbrev or_user : Option User → Option User → Option User
  or_user none next = next
  or_user (some u) next = some u

  unfoldable pub oidc_user : Text → Text → Session → Option User
  oidc_user sub email s = or_user (find (λ u. opt_eq u.oidc_sub sub) s.users) (user_named email s)

  -- `str(info.get("email") or f"oidc-{sub}")`
  abbrev pub email_of : Userinfo → Text
  email_of info = if is_empty info.email then codes "oidc-" ++ info.sub else info.email

  -- A new user has the hash of a fresh `password`.
  abbrev pub new_oidc_user : Text → Userinfo → Session → User
  new_oidc_user password info s = record {
    id = next_id user_id s.users;
    username = email_of info;
    password_hash = env.hash password;
    api_key = none;
    notify_events = codes "[\"import\",\"search\"]";
    oidc_sub = some info.sub;
    role = codes "user";
  }

  unfoldable pub log_in : Text → Userinfo → Session → Option User → Text × Session
  log_in password info s (some u) = (env.dumps u.id, s)
  log_in password info s none = (
    env.dumps (new_oidc_user password info s).id,
    record s { users = s.users ++ new_oidc_user password info s ∷ [] },
  )

  unfoldable pub oidc_session : Text → Userinfo → Session → Reply (Text × Session)
  oidc_session password info s =
      if is_empty info.sub
      then err (bad_request (codes "OIDC userinfo missing 'sub'"))
      else ok (log_in password info s (oidc_user info.sub (email_of info) s))

  unfoldable pub with_userinfo : Text → Result Text Userinfo → Session → Reply (Text × Session)
  with_userinfo password (err detail) s = err (bad_request detail)
  with_userinfo password (ok info) s = oidc_session password info s

  -- `oidc_callback`: the token of the new session. `expected` is the cookie `oidc_state`, `reply`
  -- what `exchange_and_userinfo` returns or raises.
  unfoldable pub oidc_callback :
      Option Text → Text → Text → Result Text Userinfo → Session → Reply (Text × Session)
  oidc_callback expected state password reply s =
      if not (truthy expected) || not (verify_state secret_or_default state)
      then err (bad_request (codes "Invalid OIDC state"))
      else with_userinfo password reply s
