-- ===== src/Auth/Tests.antt =====
-- Requests against a table of two users, with a signer and hashes that add a letter.
use libarr.Prelude.{
  ℕ, Text, codes, text_eq, ◌≡◌, refl, true, false, none, some, [], ◌∷◌, arith, get_row, next_id,
  HasDistinctIds, Result, ok, err, take,
}
use libarr.Models.{User, Session}
use libarr.Samples.{empty_session, sample_user}
use libarr.Http.{conflict}
use libarr.Auth.{
  Env, Request, Userinfo, is_admin, user_id, user_named, get_current_user, require_user,
  require_admin, verify_password, log_in_as, bypass_user, is_bypassed, cookie_user,
  read_session_token, bootstrap, create_first, login, oidc_callback, with_userinfo, oidc_session,
  log_in, oidc_user, verify_state, secret_or_default, partition, same_digest, equals_signs,
}
use libarr.Auth.Identity.{
  IsAuthenticated, require_user-IsAuthenticated, require_admin-is_admin, login-get_current_user,
  bootstrap_once,
}
use libarr.Auth.Oidc.{IsNamed, oidc_callback-any_cookie, oidc_callback-AddsAtMostOne}

-- A hash is the password, a token is the id after a letter, a digest is the nonce.
abbrev env : Env Text
env = record {
  auth_enabled = true;
  lan_auth_bypass = false;
  oidc_client_secret = codes "s";
  hash = λ password. password;
  verify = λ password password_hash. some (text_eq password password_hash);
  dumps = λ uid. b't' ∷ uid ∷ [];
  loads = λ token. elim token [ [] ↦ none | c ∷ t ↦ elim t [ [] ↦ none | d ∷ r ↦ some (some d) ] ];
  ip_address = λ host. none;
  is_in_network = λ address network. false;
  hmac = λ secret nonce. nonce;
  urlsafe_b64encode = λ digest. digest;
  urlsafe_b64decode = λ digest. some (take 1 digest);
}

abbrev users : Session
users = record empty_session {
  users =
      sample_user 1 (codes "ann") (codes "admin") ∷ sample_user 2 (codes "bob") (codes "user") ∷ [];
}

abbrev with_cookie : ℕ → Request
with_cookie uid = record {
  host = none;
  cookie = some (b't' ∷ uid ∷ []);
  api_key = none;
  basic = none;
}

bob_required :
    require_user env (with_cookie 2) users ≡ ok (sample_user 2 (codes "bob") (codes "user"))
unfolding require_user get_current_user bypass_user is_bypassed cookie_user read_session_token
    get_row
bob_required = refl

ann_required :
    require_admin env (with_cookie 1) users ≡ ok (sample_user 1 (codes "ann") (codes "admin"))
unfolding require_admin require_user get_current_user bypass_user is_bypassed cookie_user
    read_session_token get_row codes text_eq
ann_required = refl

bob_logged_in : login env (codes "bob") (codes "h") users ≡ ok (b't' ∷ 2 ∷ [])
unfolding login log_in_as user_named verify_password codes text_eq
bob_logged_in = refl

require_user-IsAuthenticated_example :
    IsAuthenticated env (with_cookie 2) users (sample_user 2 (codes "bob") (codes "user"))
require_user-IsAuthenticated_example =
    require_user-IsAuthenticated env (with_cookie 2) users
      (sample_user 2 (codes "bob") (codes "user")) bob_required

require_admin-is_admin_example :
    (is_admin (sample_user 1 (codes "ann") (codes "admin")) ≡ true)
    × IsAuthenticated env (with_cookie 1) users (sample_user 1 (codes "ann") (codes "admin"))
require_admin-is_admin_example =
    require_admin-is_admin env (with_cookie 1) users (sample_user 1 (codes "ann") (codes "admin"))
      ann_required

distinct_users : HasDistinctIds user_id users.users
distinct_users = omega arith

login-get_current_user_example :
    (u : User) × (get_current_user env (with_cookie 2) users ≡ some u)
    × (user_named (codes "bob") users ≡ some u)
    × (verify_password env (codes "h") u.password_hash ≡ true)
login-get_current_user_example =
    login-get_current_user env users (codes "bob") (codes "h") (b't' ∷ 2 ∷ []) (with_cookie 2)
      (λ uid. refl) distinct_users bob_logged_in refl (unfold is_bypassed in refl) refl

abbrev first : User
first = record {
  id = 1;
  username = codes "ann";
  password_hash = codes "h";
  api_key = some (codes "k");
  notify_events = codes "[\"import\",\"search\"]";
  oidc_sub = none;
  role = codes "admin";
}

first_made :
    bootstrap env (codes "ann") (codes "h") (codes "k") empty_session
    ≡ ok (first, record empty_session { users = first ∷ [] })
unfolding bootstrap create_first next_id
first_made = refl

bootstrap_once_example :
    (is_admin first ≡ true)
    × ((name other again : Text)
        → bootstrap env name other again (record empty_session { users = first ∷ [] })
          ≡ err (conflict (codes "Bootstrap already completed")))
bootstrap_once_example =
    bootstrap_once env empty_session (codes "ann") (codes "h") (codes "k") first
      (record empty_session { users = first ∷ [] }) first_made

abbrev reply : Result Text Userinfo
reply = ok (record { sub = codes "x"; email = codes "ann" })

ann_logged_in :
    oidc_callback env (some (codes "c")) (codes "n.n") (codes "p") reply users
    ≡ ok (b't' ∷ 1 ∷ [], users)
unfolding oidc_callback with_userinfo oidc_session log_in oidc_user user_named verify_state
    secret_or_default partition same_digest equals_signs codes text_eq
ann_logged_in = refl

oidc_callback-any_cookie_example :
    oidc_callback env (some (codes "c")) (codes "n.n") (codes "p") reply users
    ≡ oidc_callback env (some (codes "forged")) (codes "n.n") (codes "p") reply users
oidc_callback-any_cookie_example =
    oidc_callback-any_cookie env (codes "c") (codes "forged") (codes "n.n") (codes "p") reply users
      (unfold codes in refl) (unfold codes in refl)

oidc_callback-AddsAtMostOne_example :
    (verify_state env (secret_or_default env) (codes "n.n") ≡ true) × IsNamed env reply users users
oidc_callback-AddsAtMostOne_example =
    oidc_callback-AddsAtMostOne env (some (codes "c")) (codes "n.n") (codes "p") reply users
      (b't' ∷ 1 ∷ []) users ann_logged_in
