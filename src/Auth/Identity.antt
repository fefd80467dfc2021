-- ===== src/Auth/Identity.antt =====
-- src/libarr/api/auth.py: the credentials of a request, the login and the bootstrap.
use libarr.Prelude.{
  chain-returned, ok_inj, All-find, find-eq_some, some_inj, ℕ, Text, codes, text_eq, text_eq_refl,
  opt_eq, or_empty, truthy, is_empty, ◌≡◌, refl, sym, ap, subst, ◌∙◌, ◌≢◌, ◌⊎◌, inl, inr, Bool,
  true, false, Option, none, some, List, [], ◌∷◌, arith, get_row, get_row-id, find, HasDistinctIds,
  ok, err, Bool-cases, ==_refl,
}
use libarr.Models.{User, Session}
use libarr.Http.{unauthorized, HttpError, Reply, conflict}
use libarr.Auth.{
  first_admin, create_first, log_in_as, only_admin, first_user, verified, user_of, Env, Request,
  user_id, is_admin, user_named, is_bypassed, bypass_user, cookie_user, read_session_token,
  key_user, basic_user, get_current_user, require_user, require_admin, verify_password, bootstrap,
  login,
}

-- The row of a user that a query finds is the row with its id.
find-get_row :
    (p : User → Bool) (us : List User) {u : User}
    → HasDistinctIds user_id us
    → find p us ≡ some u
    → get_row user_id u.id us ≡ some u
unfolding get_row
find-get_row p [] d e = cc
find-get_row p (v ∷ vs) {u} (fresh, d) e = elim (Bool-cases (p v)) [
  | inl yes_ ↦ subst (λ w. get_row user_id w.id (v ∷ vs) ≡ some w) (some_inj (hit yes_)) self
  | inr no_ ↦
      skip (All-find (λ w. w.id ≢ v.id) p vs fresh (miss no_)) ∙ find-get_row p vs d (miss no_)
]
  where
    hit : p v ≡ true → some v ≡ some u
    hit h = ground arith

    miss : p v ≡ false → find p vs ≡ some u
    miss h = ground arith

    self : get_row user_id v.id (v ∷ vs) ≡ some v
    self = rw (==_refl v.id) refl

    skip : u.id ≢ v.id → get_row user_id u.id (v ∷ vs) ≡ get_row user_id u.id vs
    skip h = ground arith

module _ {Ip : Type 0} (env : Env Ip) (request : Request) (s : Session) where
  abbrev pub IsBypassed : User → Type 0
  IsBypassed u = (is_bypassed env request ≡ true) × (is_admin u ≡ true)

  abbrev pub HasCookie : User → Type 0
  HasCookie u =
      (read_session_token env (or_empty request.cookie) ≡ some u.id)
      × (get_row user_id u.id s.users ≡ some u)

  abbrev pub HasKey : User → Type 0
  HasKey u = (truthy request.api_key ≡ true) × (opt_eq u.api_key (or_empty request.api_key) ≡ true)

  abbrev pub HasPassword : User → Type 0
  HasPassword u =
      (credentials : Text × Text) × (request.basic ≡ some credentials)
      × (text_eq u.username credentials.0 ≡ true)
      × (verify_password env credentials.1 u.password_hash ≡ true)

  -- One of the four ways to prove to be `u`.
  abbrev pub IsAuthenticated : User → Type 0
  IsAuthenticated u = IsBypassed u ⊎ (HasCookie u ⊎ (HasKey u ⊎ HasPassword u))

  bypass_user-IsBypassed : (u : User) → bypass_user env request s ≡ some u → IsBypassed u
  unfolding bypass_user
  bypass_user-IsBypassed u e = elim (Bool-cases (is_bypassed env request)) [
    | inl yes_ ↦ (yes_, find-eq_some is_admin s.users {x = u} (ground arith))
    | inr no_ ↦ absurd (ground arith)
  ]

  user_of-get_row :
      (uid : Option ℕ) (u : User)
      → user_of env uid s ≡ some u
      → (uid ≡ some u.id) × (get_row user_id u.id s.users ≡ some u)
  user_of-get_row none u e = cc
  user_of-get_row (some uid) u e =
      let same = get_row-id user_id uid s.users e in
      (ap some (sym same), subst (λ k. get_row user_id k s.users ≡ some u) (sym same) e)

  cookie_user-HasCookie : (u : User) → cookie_user env request.cookie s ≡ some u → HasCookie u
  unfolding cookie_user
  cookie_user-HasCookie u e = elim (Bool-cases (truthy request.cookie)) [
    | inl yes_ ↦ user_of-get_row (read_session_token env (or_empty request.cookie)) u (ground arith)
    | inr no_ ↦ absurd (ground arith)
  ]

  key_user-HasKey : (u : User) → key_user env request.api_key s ≡ some u → HasKey u
  unfolding key_user
  key_user-HasKey u e = elim (Bool-cases (truthy request.api_key)) [
    | inl yes_ ↦ (
      yes_,
      find-eq_some (λ v. opt_eq v.api_key (or_empty request.api_key)) s.users {x = u}
          (ground arith),
    )
    | inr no_ ↦ absurd (ground arith)
  ]

  verified-eq_some :
      (password : Text) (found : Option User) (u : User)
      → verified env password found ≡ some u
      → (found ≡ some u) × (verify_password env password u.password_hash ≡ true)
  verified-eq_some password none u e = cc
  verified-eq_some password (some v) u e =
      elim (Bool-cases (verify_password env password v.password_hash)) [
        | inl yes_ ↦
            let same = hit yes_ in
            (
              ap some same,
              subst (λ w. verify_password env password w.password_hash ≡ true) same yes_,
            )
        | inr no_ ↦ absurd (ground arith)
      ]
    where
      hit : verify_password env password v.password_hash ≡ true → v ≡ u
      hit h = some_inj (ground arith)

  basic_user-HasPassword :
      (basic : Option (Text × Text)) (u : User)
      → basic_user env basic s ≡ some u
      → (credentials : Text × Text) × (basic ≡ some credentials)
        × (text_eq u.username credentials.0 ≡ true)
        × (verify_password env credentials.1 u.password_hash ≡ true)
  unfolding basic_user user_named
  basic_user-HasPassword none u e = cc
  basic_user-HasPassword (some (name, password)) u e =
      let (found, right) = verified-eq_some password (user_named name s) u e in
      (
        (name, password),
        refl,
        find-eq_some (λ v. text_eq v.username name) s.users {x = u} found,
        right,
      )

  first_user-cases :
      (a b : Option User) (u : User) → first_user a b ≡ some u → (a ≡ some u) ⊎ (b ≡ some u)
  first_user-cases none b u e = inr e
  first_user-cases (some v) b u e = inl e

  get_current_user-IsAuthenticated :
      (u : User) → get_current_user env request s ≡ some u → IsAuthenticated u
  unfolding get_current_user
  get_current_user-IsAuthenticated u e =
      elim (first_user-cases (bypass_user env request s)
        (first_user (cookie_user env request.cookie s)
          (first_user (key_user env request.api_key s) (basic_user env request.basic s)))
        u e) [
          | inl a ↦ inl (bypass_user-IsBypassed u a)
          | inr b ↦
              elim (first_user-cases (cookie_user env request.cookie s)
                (first_user (key_user env request.api_key s) (basic_user env request.basic s)) u
                b) [
                  | inl a ↦ inr (inl (cookie_user-HasCookie u a))
                  | inr c ↦
                      elim (first_user-cases (key_user env request.api_key s)
                        (basic_user env request.basic s) u c) [
                          | inl a ↦ inr (inr (inl (key_user-HasKey u a)))
                          | inr d ↦ inr (inr (inr (basic_user-HasPassword request.basic u d)))
                        ]
                ]
        ]

  -- A request that the wall lets through proves who it is: the wall is off for it and it acts as an
  -- admin, or its cookie is signed for the user, or it has the user's key, or the name and password.
  pub require_user-IsAuthenticated :
      (u : User) → require_user env request s ≡ ok u → IsAuthenticated u
  unfolding require_user
  require_user-IsAuthenticated u e = go (get_current_user env request s) refl e
    where
      go :
          (found : Option User)
          → get_current_user env request s ≡ found
          → elim found [
            | none ↦ err (unauthorized (codes "Authentication required"))
            | some v ↦ ok v
          ]
            ≡ ok u
          → IsAuthenticated u
      go none same h = cc
      go (some v) same h = get_current_user-IsAuthenticated u (same ∙ ap some (ok_inj h))

  -- What an admin's handler is run for is an authenticated user with the role of an admin.
  pub require_admin-is_admin :
      (u : User) → require_admin env request s ≡ ok u → (is_admin u ≡ true) × IsAuthenticated u
  unfolding require_admin
  require_admin-is_admin u e =
      let (v, known, h) = chain-returned (require_user env request s) (only_admin env) e in
      go v known h
    where
      go :
          (v : User)
          → require_user env request s ≡ ok v
          → only_admin env v ≡ ok u
          → (is_admin u ≡ true) × IsAuthenticated u
      go v known h = elim (Bool-cases (is_admin v)) [
        | inl yes_ ↦
            subst (λ w. (is_admin w ≡ true) × IsAuthenticated w) (ok_inj (same yes_))
              (yes_, require_user-IsAuthenticated v known)
        | inr no_ ↦ absurd (wrong no_)
      ]
        where
          same : is_admin v ≡ true → ◌≡◌ {A = Reply User} (ok v) (ok u)
          same yes_ = ground arith

          wrong : is_admin v ≡ false → ⊥
          wrong no_ = ground arith

  no_bypass : is_bypassed env request ≡ false → bypass_user env request s ≡ none
  unfolding bypass_user
  no_bypass wall = rw wall refl

  by_cookie :
      (token : Text) (u : User)
      → is_empty token ≡ false
      → env.loads token ≡ some (some u.id)
      → get_row user_id u.id s.users ≡ some u
      → cookie_user env (some token) s ≡ some u
  unfolding cookie_user read_session_token
  by_cookie token u filled read row = rw (filled, read) row

module _ {Ip : Type 0} (env : Env Ip) (s : Session) where
  -- The cookie that a login sets brings the next request, where the wall is not bypassed, back as
  -- the user of that name, if the signer reads back what it signed, into a text that is not empty,
  -- and no two users share an id.
  pub login-get_current_user :
      (username password token : Text) (request : Request)
      → ((uid : ℕ) → env.loads (env.dumps uid) ≡ some (some uid))
      → HasDistinctIds user_id s.users
      → login env username password s ≡ ok token
      → is_empty token ≡ false
      → is_bypassed env request ≡ false
      → request.cookie ≡ some token
      → (u : User) × (get_current_user env request s ≡ some u)
        × (user_named username s ≡ some u)
        × (verify_password env password u.password_hash ≡ true)
  login-get_current_user username password token request law d e filled wall cookie =
      unfold login in go (verified env password (user_named username s)) refl e
    where
      back :
          (u : User)
          → user_named username s ≡ some u
          → env.dumps u.id ≡ token
          → get_current_user env request s ≡ some u
      back u named same =
          unfold get_current_user in
          rw (no_bypass env request s wall, cookie, by_cookie env request s token u filled read row)
            refl
        where
          read : env.loads token ≡ some (some u.id)
          read = subst (λ t. env.loads t ≡ some (some u.id)) same (law u.id)

          row : get_row user_id u.id s.users ≡ some u
          row =
              find-get_row (λ v. text_eq v.username username) s.users d (unfold user_named in named)

      go :
          (found : Option User)
          → verified env password (user_named username s) ≡ found
          → log_in_as env found ≡ ok token
          → (u : User) × (get_current_user env request s ≡ some u)
            × (user_named username s ≡ some u)
            × (verify_password env password u.password_hash ≡ true)
      go none same h = absurd (unfold log_in_as in cc)
      go (some u) same h =
          let (named, right) =
            verified-eq_some env request s password (user_named username s) u same in
          (
            u,
            back u named (
                ok_inj {E = HttpError} {A = Text} {a = env.dumps u.id} {b = token}
                  (unfold log_in_as in h)),
            named,
            right,
          )

  create_first-eq_ok :
      (username password key : Text) (us : List User) (u : User) (s' : Session)
      → create_first env username password key s us ≡ ok (u, s')
      → (first_admin env username password key ≡ u)
        × (first_admin env username password key ∷ [] ≡ s'.users)
  unfolding create_first
  create_first-eq_ok username password key [] u s' e =
      (ap (λ p. p.0) (ok_inj e), ap (λ p. p.1.users) (ok_inj e))
  create_first-eq_ok username password key (v ∷ vs) u s' e = cc

  -- The first account is an admin, and after it no second one can be made in this way.
  pub bootstrap_once :
      (username password key : Text) (u : User) (s' : Session)
      → bootstrap env username password key s ≡ ok (u, s')
      → (is_admin u ≡ true)
        × ((name other again : Text)
            → bootstrap env name other again s'
              ≡ err (conflict (codes "Bootstrap already completed")))
  bootstrap_once username password key u s' e =
      let (made, only) =
        create_first-eq_ok username password key s.users u s' (unfold bootstrap in e) in
      (
        subst (λ v. is_admin v ≡ true) made (text_eq_refl (codes "admin")),
        λ name other again.
            unfold bootstrap in
            subst
              (λ us.
                create_first env name other again s' us
                ≡ err (conflict (codes "Bootstrap already completed")))
              only (unfold create_first in refl),
      )
