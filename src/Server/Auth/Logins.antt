-- ===== src/Server/Auth/Logins.antt =====
-- What a sign-up and a password reset of internal/server leave.
use cribbager.Common.{
  Text, text_eq, text_eq_refl, ℕ, ◌+◌, ◌<◌, ◌≤◌, ◌≡◌, refl, subst, Bool, true, false, not, List, [],
  ◌∷◌, Option, none, some, length, ltb, if◌then◌else◌, arith, Bool-cases, inl, inr,
}
use cribbager.Server.Handlers.{Answer, replied, refused, handler_panics, handler_unfinished}
use cribbager.Server.Auth.Store.{
  User, Session, AuthStore, user_by_id, session_by_id, set_login, set_user, create_session,
  create_user, taken, current_user, user_of_session,
}
use cribbager.Server.Auth.Requests.{
  Library, AuthState, SignupBody, LoggedIn, to_user_response, start_session, session_ttl,
  valid_username, valid_email,
}
use cribbager.Server.Auth.Handlers.{created, with_hash, sign_up}
use cribbager.Server.Auth.Resets.{passed}

-- A lookup in the store after a new account and a new session.
found_user : (us : List User) (u : User) → user_by_id (set_user us u) u.id ≡ some u
unfolding user_by_id set_user
found_user [] u = rw (text_eq_refl u.id) refl
found_user (v ∷ vs) u = elim (Bool-cases (text_eq v.id u.id)) [
  | inl found ↦ rw (found, text_eq_refl u.id) refl
  | inr other ↦ rw (other, other) (found_user vs u)
]

found_login : (ss : List Session) (s : Session) → session_by_id (set_login ss s) s.id ≡ some s
unfolding session_by_id set_login
found_login [] s = rw (text_eq_refl s.id) refl
found_login (t ∷ ts) s = elim (Bool-cases (text_eq t.id s.id)) [
  | inl found ↦ rw (found, text_eq_refl s.id) refl
  | inr other ↦ rw (other, other) (found_login ts s)
]

-- The user of the new session, before and after its end.
abbrev pub KnownUntil : ℕ → AuthState → LoggedIn → Type 0
KnownUntil end st r =
    (time : ℕ)
    → (time < end
        → (u : User) × (current_user st.store time r.cookie ≡ some u)
          × (to_user_response u ≡ r.user))
      × (end ≤ time → current_user st.store time r.cookie ≡ none)

new_login-Known :
    (st : AuthState) (m : AuthStore) (token : Text) (u : User) (now : ℕ)
    → text_eq token [] ≡ false
    → user_by_id m.users u.id ≡ some u
    → KnownUntil
        (now + session_ttl)
        (record st { store = start_session m token u.id now })
        (record { cookie = token; user = to_user_response u })
unfolding start_session create_session current_user user_of_session
new_login-Known st m token u now set known time =
    let s : Session = record { id = token; user_id = u.id; expires_at = now + session_ttl } in
    (
      λ early.
          let live : ltb time (now + session_ttl) ≡ true = ground arith in
          (u, rw (set, found_login m.sessions s, live) known, refl),
      λ late.
          let dead : ltb time (now + session_ttl) ≡ false = ground arith in
          rw (set, found_login m.sessions s, dead) refl,
    )

abbrev KnownAnswer : ℕ → AuthState × Answer LoggedIn → Type 0
KnownAnswer end (st, replied status r) = KnownUntil end st r
KnownAnswer end (st, refused status) = Unit
KnownAnswer end (st, handler_panics) = Unit
KnownAnswer end (st, handler_unfinished) = Unit

-- A sign-up that succeeds, with a token that is not empty, has set a cookie that names the new account: until the
-- session's end, thirty days on, the cookie's user is the one that the answer shows, and from then on nobody.
pub sign_up-Known :
    (lib : Library) (now : ℕ) (id token : Text) (st st' : AuthState) (body : SignupBody)
    (r : LoggedIn)
    → text_eq token [] ≡ false
    → sign_up lib now id token st body ≡ (st', replied 201 r)
    → KnownUntil (now + session_ttl) st' r
unfolding sign_up with_hash created create_user
sign_up-Known lib now id token st st' body r set e =
    let (named, e1) =
      passed (not (valid_username (lib.lower (lib.trim body.username)))) st st' 400 201 r _ e in
    let (mailed, e2) =
      passed (not (valid_email (lib.lower (lib.trim body.email)))) st st' 400 201 r _ e1 in
    let (long, e3) = passed (ltb (length body.password) 8) st st' 400 201 r _ e2 in
    by_hash (lib.hash_password body.password) e3
  where
    u : User
    u = record {
      id = id;
      username = lib.lower (lib.trim body.username);
      email = lib.lower (lib.trim body.email);
      display_name =
          if text_eq (lib.trim body.display_name) []
          then lib.lower (lib.trim body.username)
          else lib.trim body.display_name;
      password_hash = [];
      created_at = now;
    }

    by_store :
        (v : User) (b : Bool)
        → created lib st now token v
            (if b then none else some (record st.store { users = set_user st.store.users v }))
          ≡ (st', replied 201 r)
        → KnownUntil (now + session_ttl) st' r
    by_store v true e = absurd (ground arith)
    by_store v false e = subst (KnownAnswer (now + session_ttl)) e (
        new_login-Known st (record st.store { users = set_user st.store.users v }) token v now set
          (found_user st.store.users v))

    by_hash :
        (h : Option Text)
        → with_hash lib st now token u h ≡ (st', replied 201 r)
        → KnownUntil (now + session_ttl) st' r
    by_hash none e = absurd (ground arith)
    by_hash (some hash) e =
        by_store (record u { password_hash = hash })
          (taken lib.fold_eq st.store.users (record u { password_hash = hash })) e
