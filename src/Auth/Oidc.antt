-- ===== src/Auth/Oidc.antt =====
-- src/libarr/api/auth.py: what the OIDC callback checks, and what it adds.
use libarr.Prelude.{
  ok_inj, guard-returned, ◌<◌, Text, codes, truthy, is_empty, ◌≡◌, refl, subst, ◌⊎◌, inl, inr, true,
  false, not, ◌||◌, Option, none, some, List, [], ◌∷◌, ◌++◌, arith, next_id-fresh, Result, ok, err,
  All,
}
use libarr.Models.{User, Session}
use libarr.Auth.{
  Env, Userinfo, user_id, oidc_callback, with_userinfo, oidc_session, log_in, oidc_user, email_of,
  new_oidc_user, secret_or_default, verify_state,
}

module _ {Ip : Type 0} (env : Env Ip) where
  -- The callback does not read what the cookie `oidc_state` holds: any two texts that are not empty
  -- make it do the same, although the cookie is set for the callback to verify that the flow started
  -- in this browser.
  pub oidc_callback-any_cookie :
      (cookie other state password : Text) (reply : Result Text Userinfo) (s : Session)
      → is_empty cookie ≡ false
      → is_empty other ≡ false
      → oidc_callback env (some cookie) state password reply s
        ≡ oidc_callback env (some other) state password reply s
  unfolding oidc_callback
  oidc_callback-any_cookie cookie other state password reply s filled other_filled =
      rw (filled, other_filled) refl

  -- What logging in makes of the table of users: it is as it was, or has one more user, with the
  -- role "user", the provider's subject and an id of its own.
  abbrev pub AddsAtMostOne : Text → List User → List User → Type 0
  AddsAtMostOne sub before after =
      (after ≡ before)
      ⊎ ((u : User) × (after ≡ before ++ u ∷ [])
          × (u.role ≡ codes "user")
          × (u.oidc_sub ≡ some sub)
          × All (λ v. v.id < u.id) before)

  log_in-AddsAtMostOne :
      (password : Text) (info : Userinfo) (s : Session) (found : Option User)
      → AddsAtMostOne info.sub s.users (log_in env password info s found).1.users
  unfolding log_in
  log_in-AddsAtMostOne password info s (some u) = inl refl
  log_in-AddsAtMostOne password info s none =
      inr (new_oidc_user env password info s, refl, refl, refl, next_id-fresh user_id s.users)

  -- The provider's answer was read, and its subject is not empty.
  abbrev pub IsNamed : Result Text Userinfo → Session → Session → Type 0
  IsNamed reply s s' =
      (info : Userinfo) × (reply ≡ ok info)
      × (is_empty info.sub ≡ false)
      × AddsAtMostOne info.sub s.users s'.users

  with_userinfo-IsNamed :
      (password : Text) (reply : Result Text Userinfo) (s : Session) (token : Text) (s' : Session)
      → with_userinfo env password reply s ≡ ok (token, s')
      → IsNamed reply s s'
  unfolding with_userinfo oidc_session
  with_userinfo-IsNamed password (err detail) s token s' e = cc
  with_userinfo-IsNamed password (ok info) s token s' e =
      let found = oidc_user env info.sub (email_of env info) s in
      let (filled, same) = guard-returned (is_empty info.sub) _ _ e in
      (
        info,
        refl,
        filled,
        subst (λ r. AddsAtMostOne info.sub s.users r.1.users) (ok_inj same)
            (log_in-AddsAtMostOne password info s found),
      )

  -- Where the callback succeeds, the state has a right signature, the provider gave a subject that
  -- is not empty, and the table of users is as it was or has one more user at its end, with the role
  -- "user", that subject and an id above all others: nobody becomes an admin by logging in.
  pub oidc_callback-AddsAtMostOne :
      (cookie : Option Text) (state password : Text) (reply : Result Text Userinfo) (s : Session)
      (token : Text) (s' : Session)
      → oidc_callback env cookie state password reply s ≡ ok (token, s')
      → (verify_state env (secret_or_default env) state ≡ true) × IsNamed reply s s'
  unfolding oidc_callback
  oidc_callback-AddsAtMostOne cookie state password reply s token s' e =
      let (valid, e1) =
        guard-returned (not (truthy cookie) || not (verify_state env (secret_or_default env) state))
          _ _ e in
      (ground arith, with_userinfo-IsNamed password reply s token s' e1)
