-- ===== src/Server/Auth/Handlers.antt =====
-- The handlers of internal/server/auth_handlers.go, on the store and the limiters.
use cribbager.Common.{
  Text, text_eq, ℕ, ◌+◌, Bool, not, Option, none, some, length, ltb, [], if◌then◌else◌,
}
use cribbager.Server.Handlers.{Answer, replied, refused}
use cribbager.Server.Auth.Store.{
  User, ResetToken, AuthStore, create_user, user_by_username, user_by_email, update_password,
  delete_session, delete_sessions_for_user, create_reset_token, reset_token_by_id,
  delete_reset_token, current_user,
}
use cribbager.Server.Auth.Requests.{
  Library, AuthState, Request, SignupBody, LoginBody, ResetBody, LoggedIn, UserResponse,
  to_user_response, start_session, limited, valid_username, valid_email, reset_token_ttl,
}

module _ (lib : Library) where
  -- `handleSignup` after its guards, with the fresh id and token.
  unfoldable pub created :
      AuthState → ℕ → Text → User → Option AuthStore → AuthState × Answer LoggedIn
  unfolding start_session
  created st now token u none = (st, refused 409)
  created st now token u (some m) = (
    record st { store = start_session m token u.id now },
    replied 201 (record { cookie = token; user = to_user_response u }),
  )

  unfoldable pub with_hash : AuthState → ℕ → Text → User → Option Text → AuthState × Answer LoggedIn
  unfolding created create_user
  with_hash st now token u none = (st, refused 500)
  with_hash st now token u (some hash) =
      let v : User = record u { password_hash = hash } in
      created st now token v (create_user lib.fold_eq st.store v)

  unfoldable pub sign_up : ℕ → Text → Text → AuthState → SignupBody → AuthState × Answer LoggedIn
  unfolding with_hash valid_username valid_email
  sign_up now id token st body =
      let username : Text = lib.lower (lib.trim body.username) in
      let email : Text = lib.lower (lib.trim body.email) in
      let typed : Text = lib.trim body.display_name in
      if not (valid_username username)
      then (st, refused 400)
      else if not (valid_email email)
      then (st, refused 400)
      else if ltb (length body.password) 8
      then (st, refused 400)
      else with_hash st now token
          (record {
            id = id;
            username = username;
            email = email;
            display_name = if text_eq typed [] then username else typed;
            password_hash = [];
            created_at = now;
          })
          (lib.hash_password body.password)

  unfoldable pub handle_signup :
      AuthState → Request SignupBody → Text → Text → AuthState × Answer LoggedIn
  unfolding sign_up limited
  handle_signup st req id token =
      limited req st.auth_limiter (λ r. record st { auth_limiter = r }) (sign_up req.now id token)
        st

  -- The user by name, then by email.
  unfoldable pub login_user : AuthStore → Text → Option User
  unfolding user_by_username user_by_email
  login_user m ident = elim (user_by_username lib.fold_eq m.users ident) [
    | none ↦ user_by_email lib.fold_eq m.users ident
    | some u ↦ some u
  ]

  unfoldable pub checked : AuthState → ℕ → Text → Text → Option User → AuthState × Answer LoggedIn
  unfolding start_session
  checked st now token password none = (st, refused 401)
  checked st now token password (some u) =
      if not (lib.check_password u.password_hash password) then (st, refused 401) else (
        record st { store = start_session st.store token u.id now },
        replied 200 (record { cookie = token; user = to_user_response u }),
      )

  unfoldable pub log_in : ℕ → Text → AuthState → LoginBody → AuthState × Answer LoggedIn
  unfolding checked login_user
  log_in now token st body =
      checked st now token body.password (login_user st.store (lib.lower (lib.trim body.username)))

  unfoldable pub handle_login : AuthState → Request LoginBody → Text → AuthState × Answer LoggedIn
  unfolding log_in limited
  handle_login st req token =
      limited req st.login_limiter (λ r. record st { login_limiter = r }) (log_in req.now token) st

  -- `handleLogout`, by the cookie's value, empty where there is no cookie.
  unfoldable pub log_out : AuthState → Text → AuthState
  unfolding delete_session
  log_out st cookie =
      if text_eq cookie [] then st else record st { store = delete_session st.store cookie }

  unfoldable pub handle_logout : AuthState → Bool → Text → AuthState × Answer Unit
  unfolding log_out
  handle_logout st same_origin cookie =
      if not same_origin then (st, refused 403) else (log_out st cookie, replied 204 tt)

  unfoldable pub handle_me : AuthState → ℕ → Text → Answer UserResponse
  unfolding current_user
  handle_me st now cookie = elim (current_user st.store now cookie) [
    | none ↦ refused 401
    | some u ↦ replied 200 (to_user_response u)
  ]

  unfoldable pub minted : AuthState → ℕ → Text → Option User → AuthState
  unfolding create_reset_token
  minted st now token none = st
  minted st now token (some u) = record st {
    store =
        create_reset_token st.store
          (record { id = token; user_id = u.id; expires_at = now + reset_token_ttl });
  }

  -- `handlePasswordResetRequest`; the email with the link is sent beside the answer.
  unfoldable pub handle_password_reset_request :
      AuthState → Request Text → Text → AuthState × Answer Unit
  unfolding minted limited user_by_email
  handle_password_reset_request st req token =
      limited req st.auth_limiter (λ r. record st { auth_limiter = r })
        (λ counted email. (
          minted counted req.now token
              (user_by_email lib.fold_eq counted.store.users (lib.lower (lib.trim email))),
          replied 200 tt,
        ))
        st

  -- The new password, the end of the token, and the end of the user's logins.
  unfoldable pub reset_store : AuthStore → ResetToken → Text → AuthStore
  unfolding update_password delete_reset_token delete_sessions_for_user
  reset_store m t hash =
      delete_sessions_for_user (delete_reset_token (update_password m t.user_id hash) t.id)
        t.user_id

  unfoldable pub reset_with : AuthState → ResetToken → Option Text → AuthState × Answer Unit
  unfolding reset_store
  reset_with st t none = (st, refused 500)
  reset_with st t (some hash) = (record st { store = reset_store st.store t hash }, replied 204 tt)

  unfoldable pub consumed : AuthState → ℕ → Text → Option ResetToken → AuthState × Answer Unit
  unfolding reset_with
  consumed st now password none = (st, refused 400)
  consumed st now password (some t) =
      if not (ltb now t.expires_at)
      then (st, refused 400)
      else if ltb (length password) 8
      then (st, refused 400)
      else reset_with st t (lib.hash_password password)

  unfoldable pub reset_password : ℕ → AuthState → ResetBody → AuthState × Answer Unit
  unfolding consumed reset_token_by_id
  reset_password now st body =
      consumed st now body.password (reset_token_by_id st.store.resets (lib.trim body.token))

  unfoldable pub handle_password_reset : AuthState → Request ResetBody → AuthState × Answer Unit
  unfolding reset_password limited
  handle_password_reset st req =
      limited req st.auth_limiter (λ r. record st { auth_limiter = r }) (reset_password req.now) st
