-- ===== src/Server/Auth/Accounts.antt =====
-- No two accounts of internal/server share a name or an address.
use cribbager.Common.{
  Text, text_eq, ℕ, ◌≡◌, Bool, true, false, not, [], Option, none, some, length, ltb, if◌then◌else◌,
  Bool-cases, inl, inr,
}
use cribbager.Server.RateLimit.{RateLimiter, allow}
use cribbager.Server.Handlers.{Answer, replied, refused}
use cribbager.Server.Auth.Store.{
  User, ResetToken, empty_store, taken, create_user, update_password, user_by_email, delete_session,
  delete_sessions_for_user, create_session, create_reset_token, reset_token_by_id,
  delete_reset_token, reap_expired,
}
use cribbager.Server.Auth.Requests.{
  Library, AuthState, Request, SignupBody, LoginBody, ResetBody, start_session, limited, with_body,
  valid_username, valid_email,
}
use cribbager.Server.Auth.Handlers.{
  created, with_hash, sign_up, handle_signup, checked, login_user, log_in, handle_login, log_out,
  handle_logout, minted, handle_password_reset_request, reset_store, reset_with, consumed,
  reset_password, handle_password_reset,
}
use cribbager.Server.Auth.Apart.{Apart, taken-All, set_user-Apart, with_password-Apart}

-- The guards of a request keep what its handler keeps.
limited-keeps :
    {A Body : Type 0} (P : AuthState → Type 0) (req : Request Body) (limiter : RateLimiter Text)
    (with_limiter : RateLimiter Text → AuthState) (handle : AuthState → Body → AuthState × Answer A)
    (st : AuthState)
    → P st
    → ((r : RateLimiter Text) → P (with_limiter r))
    → ((r : RateLimiter Text) (body : Body) → P (handle (with_limiter r) body).0)
    → P (limited req limiter with_limiter handle st).0
unfolding limited with_body
limited-keeps {Body = Body} P req limiter with_limiter handle st h k each =
    elim (Bool-cases req.same_origin) [
      | inr cross ↦ rw cross h
      | inl own ↦ elim (Bool-cases (allow text_eq limiter req.now req.client_ip).1) [
        | inr many ↦ rw (own, many) (k _)
        | inl few ↦ rw (own, few) (by_body req.body)
      ]
    ]
  where
    by_body :
        (b : Option Body)
        → P (with_body handle (with_limiter (allow text_eq limiter req.now req.client_ip).0) b).0
    by_body none = k _
    by_body (some body) = each _ body

guard-keeps :
    {A : Type 0} (P : AuthState → Type 0) (b : Bool) (st : AuthState) (status : ℕ)
    (m : AuthState × Answer A)
    → P st
    → P m.0
    → P (if b then (st, refused status) else m).0
guard-keeps P true st status m h k = h
guard-keeps P false st status m h k = k

module _ (lib : Library) (symmetric : (s t : Text) → lib.fold_eq s t ≡ lib.fold_eq t s) where
  abbrev Fine : AuthState → Type 0
  Fine st = Apart lib.fold_eq st.store.users

  created-Fine :
      (st : AuthState) (now : ℕ) (token : Text) (u : User)
      → Fine st
      → Fine (created lib st now token u (create_user lib.fold_eq st.store u)).0
  unfolding created create_user start_session create_session
  created-Fine st now token u a = elim (Bool-cases (taken lib.fold_eq st.store.users u)) [
    | inl used ↦ rw used a
    | inr free ↦ rw free (
        set_user-Apart lib.fold_eq st.store.users u symmetric a
          (taken-All lib.fold_eq st.store.users u free))
  ]

  sign_up-Fine :
      (now : ℕ) (id token : Text) (st : AuthState) (body : SignupBody)
      → Fine st
      → Fine (sign_up lib now id token st body).0
  unfolding sign_up with_hash
  sign_up-Fine now id token st body a =
      guard-keeps Fine (not (valid_username (lib.lower (lib.trim body.username)))) st 400 _ a (
        guard-keeps Fine (not (valid_email (lib.lower (lib.trim body.email)))) st 400 _ a (
          guard-keeps Fine (ltb (length body.password) 8) st 400 _ a
            (by_hash (lib.hash_password body.password))))
    where
      u : User
      u = record {
        id = id;
        username = lib.lower (lib.trim body.username);
        email = lib.lower (lib.trim body.email);
        display_name =
            if text_eq (lib.trim body.display_name) []
            then lib.lower (lib.trim body.username)
            else lib.trim body.display_name;
        password_hash = [];
        created_at = now;
      }

      by_hash : (h : Option Text) → Fine (with_hash lib st now token u h).0
      by_hash none = a
      by_hash (some hash) = created-Fine st now token (record u { password_hash = hash }) a

  log_in-Fine :
      (now : ℕ) (token : Text) (st : AuthState) (body : LoginBody)
      → Fine st
      → Fine (log_in lib now token st body).0
  unfolding log_in checked start_session create_session
  log_in-Fine now token st body a =
      by_user (login_user lib st.store (lib.lower (lib.trim body.username)))
    where
      by_user : (o : Option User) → Fine (checked lib st now token body.password o).0
      by_user none = a
      by_user (some u) =
          guard-keeps Fine (not (lib.check_password u.password_hash body.password)) st 401 _ a a

  reset_password-Fine :
      (now : ℕ) (st : AuthState) (body : ResetBody)
      → Fine st
      → Fine (reset_password lib now st body).0
  unfolding reset_password consumed reset_with reset_store update_password delete_reset_token
      delete_sessions_for_user
  reset_password-Fine now st body a =
      by_token (reset_token_by_id st.store.resets (lib.trim body.token))
    where
      by_hash : (t : ResetToken) (h : Option Text) → Fine (reset_with lib st t h).0
      by_hash t none = a
      by_hash t (some hash) = with_password-Apart lib.fold_eq st.store.users t.user_id hash a

      by_token : (o : Option ResetToken) → Fine (consumed lib st now body.password o).0
      by_token none = a
      by_token (some t) = guard-keeps Fine (not (ltb now t.expires_at)) st 400 _ a (
          guard-keeps Fine (ltb (length body.password) 8) st 400 _ a
            (by_hash t (lib.hash_password body.password)))

  minted-Fine :
      (st : AuthState) (now : ℕ) (token : Text) (o : Option User)
      → Fine st
      → Fine (minted lib st now token o)
  unfolding minted create_reset_token
  minted-Fine st now token none a = a
  minted-Fine st now token (some u) a = a

  logout-Fine :
      (st : AuthState) (same_origin : Bool) (cookie : Text)
      → Fine st
      → Fine (handle_logout lib st same_origin cookie).0
  unfolding handle_logout log_out delete_session
  logout-Fine st same_origin cookie a =
      guard-keeps Fine (not same_origin) st 403 _ a (elim (Bool-cases (text_eq cookie [])) [
        | inl no_cookie ↦ rw no_cookie a
        | inr set ↦ rw set a
      ])

-- One request to the accounts, or the reaping of what has expired.
pub data AuthStep (lib : Library) : AuthState → AuthState → Type 0 where
  signs_up :
      (st : AuthState) (req : Request SignupBody) (id token : Text)
      → AuthStep lib st (handle_signup lib st req id token).0
  logs_in :
      (st : AuthState) (req : Request LoginBody) (token : Text)
      → AuthStep lib st (handle_login lib st req token).0
  logs_out :
      (st : AuthState) (same_origin : Bool) (cookie : Text)
      → AuthStep lib st (handle_logout lib st same_origin cookie).0
  asks_reset :
      (st : AuthState) (req : Request Text) (token : Text)
      → AuthStep lib st (handle_password_reset_request lib st req token).0
  resets :
      (st : AuthState) (req : Request ResetBody)
      → AuthStep lib st (handle_password_reset lib st req).0
  expires :
      (st : AuthState) (now : ℕ) → AuthStep lib st (record st { store = reap_expired now st.store })

-- The states that a run of such requests comes to, from one without accounts.
pub data AuthReached (lib : Library) : AuthState → Type 0 where
  opened :
      (login auth : RateLimiter Text)
      → AuthReached lib (record { store = empty_store; login_limiter = login; auth_limiter = auth })
  went : {st st' : AuthState} → AuthReached lib st → AuthStep lib st st' → AuthReached lib st'

AuthStep-Fine :
    (lib : Library) {st st' : AuthState}
    → ((s t : Text) → lib.fold_eq s t ≡ lib.fold_eq t s)
    → AuthStep lib st st'
    → Apart lib.fold_eq st.store.users
    → Apart lib.fold_eq st'.store.users
unfolding handle_signup handle_login handle_password_reset_request handle_password_reset
    reap_expired
AuthStep-Fine lib sym_eq (signs_up st req id token) a =
    limited-keeps (Fine lib sym_eq) req st.auth_limiter (λ r. record st { auth_limiter = r })
      (sign_up lib req.now id token) st a (λ r. a)
      (λ r body. sign_up-Fine lib sym_eq req.now id token (record st { auth_limiter = r }) body a)
AuthStep-Fine lib sym_eq (logs_in st req token) a =
    limited-keeps (Fine lib sym_eq) req st.login_limiter (λ r. record st { login_limiter = r })
      (log_in lib req.now token) st a (λ r. a)
      (λ r body. log_in-Fine lib sym_eq req.now token (record st { login_limiter = r }) body a)
AuthStep-Fine lib sym_eq (logs_out st same_origin cookie) a =
    logout-Fine lib sym_eq st same_origin cookie a
AuthStep-Fine lib sym_eq (asks_reset st req token) a =
    limited-keeps (Fine lib sym_eq) req st.auth_limiter (λ r. record st { auth_limiter = r })
      (λ counted email. (
        minted lib counted req.now token
            (user_by_email lib.fold_eq counted.store.users (lib.lower (lib.trim email))),
        replied 200 tt,
      ))
      st a (λ r. a)
      (λ r email. minted-Fine lib sym_eq (record st { auth_limiter = r }) req.now token _ a)
AuthStep-Fine lib sym_eq (resets st req) a =
    limited-keeps (Fine lib sym_eq) req st.auth_limiter (λ r. record st { auth_limiter = r })
      (reset_password lib req.now) st a (λ r. a)
      (λ r body. reset_password-Fine lib sym_eq req.now (record st { auth_limiter = r }) body a)
AuthStep-Fine lib sym_eq (expires st now) a = a

-- After any run of sign-ups, logins, logouts, password resets and reapings, no two accounts have usernames or
-- addresses that the case-insensitive comparison, which is symmetric, takes for equal.
pub AuthReached-Apart :
    (lib : Library) {st : AuthState}
    → ((s t : Text) → lib.fold_eq s t ≡ lib.fold_eq t s)
    → AuthReached lib st
    → Apart lib.fold_eq st.store.users
AuthReached-Apart lib sym_eq (opened login auth) = tt
AuthReached-Apart lib sym_eq (went r step) =
    AuthStep-Fine lib sym_eq step (AuthReached-Apart lib sym_eq r)
