-- ===== src/Server/Auth/Resets.antt =====
-- What a password reset of internal/server leaves.
use cribbager.Common.{
  Text, text_eq, text_eq-eq, ℕ, ◌<◌, ◌≡◌, refl, ap, sym, subst, ◌∙◌, Bool, true, false, not, List,
  [], ◌∷◌, Option, none, some, length, ltb, if◌then◌else◌, arith, Bool-cases, inl, inr,
}
use cribbager.Server.Handlers.{Answer, replied, refused}
use cribbager.Server.Auth.Store.{
  User, Session, ResetToken, with_password, update_password, user_by_id, session_by_id,
  without_user, delete_sessions_for_user, reset_token_by_id, without_reset, delete_reset_token,
}
use cribbager.Server.Auth.Requests.{Library, AuthState, ResetBody}
use cribbager.Server.Auth.Handlers.{reset_store, reset_with, consumed, reset_password}

token_id :
    (ts : List ResetToken) (id : Text) (t : ResetToken)
    → reset_token_by_id ts id ≡ some t
    → t.id ≡ id
unfolding reset_token_by_id
token_id [] id t e = cc
token_id (u ∷ us) id t e = elim (Bool-cases (text_eq u.id id)) [
  | inl found ↦
      let same : u ≡ t = ground arith in
      ap (λ (x : ResetToken). x.id) (sym same) ∙ text_eq-eq u.id id found
  | inr other ↦ token_id us id t (ground arith)
]

spent_token : (ts : List ResetToken) (id : Text) → reset_token_by_id (without_reset ts id) id ≡ none
unfolding reset_token_by_id without_reset
spent_token [] id = refl
spent_token (t ∷ ts) id = ground (arith, spent_token ts id)

logged_out_user :
    (ss : List Session) (user cookie : Text) (s : Session)
    → session_by_id (without_user ss user) cookie ≡ some s
    → text_eq s.user_id user ≡ false
unfolding session_by_id without_user
logged_out_user [] user cookie s e = cc
logged_out_user (x ∷ xs) user cookie s e = ground (arith, logged_out_user xs user cookie s)

new_password :
    (us : List User) (id hash : Text) (u : User)
    → user_by_id us id ≡ some u
    → user_by_id (with_password us id hash) id ≡ some (record u { password_hash = hash })
unfolding user_by_id with_password
new_password [] id hash u e = cc
new_password (v ∷ vs) id hash u e = elim (Bool-cases (text_eq v.id id)) [
  | inl found ↦
      let same : v ≡ u = ground arith in
      rw (found, found) (ap (λ (x : User). some (record x { password_hash = hash })) same)
  | inr other ↦ rw (other, other) (new_password vs id hash u (ground arith))
]

-- What a reset that succeeds has done.
pub record ResetDone (lib : Library) (now : ℕ) (st st' : AuthState) (body : ResetBody)
    : Type 0 where
  pub token : ResetToken
  pub hash : Text
  pub found : reset_token_by_id st.store.resets (lib.trim body.token) ≡ some token
  pub in_time : now < token.expires_at
  pub hashed : lib.hash_password body.password ≡ some hash
  pub spent :
      (later : ℕ) (password : Text)
      → reset_password lib later st' (record { token = body.token; password = password })
        ≡ (st', refused 400)
  pub logged_out :
      (cookie : Text) (s : Session)
      → session_by_id st'.store.sessions cookie ≡ some s
      → text_eq s.user_id token.user_id ≡ false
  pub renewed :
      (u : User)
      → user_by_id st.store.users token.user_id ≡ some u
      → user_by_id st'.store.users token.user_id ≡ some (record u { password_hash = hash })

reset_done :
    (lib : Library) (now : ℕ) (st : AuthState) (body : ResetBody) (t : ResetToken) (hash : Text)
    → reset_token_by_id st.store.resets (lib.trim body.token) ≡ some t
    → now < t.expires_at
    → lib.hash_password body.password ≡ some hash
    → ResetDone lib now st (record st { store = reset_store lib st.store t hash }) body
unfolding reset_store update_password delete_reset_token delete_sessions_for_user reset_password
    consumed
reset_done lib now st body t hash found in_time hashed = record {
  token = t;
  hash = hash;
  found = found;
  in_time = in_time;
  hashed = hashed;
  spent = λ later password.
      rw
        (subst (λ id. reset_token_by_id (without_reset st.store.resets t.id) id ≡ none)
          (token_id st.store.resets (lib.trim body.token) t found)
          (spent_token st.store.resets t.id))
        refl;
  logged_out = λ cookie s e. logged_out_user st.store.sessions t.user_id cookie s e;
  renewed = λ u e. new_password st.store.users t.user_id hash u e;
}

-- A guard before an answer of success.
pub passed :
    {A : Type 0} (b : Bool) (st st' : AuthState) (bad good : ℕ) (a : A) (m : AuthState × Answer A)
    → (if b then (st, refused bad) else m) ≡ (st', replied good a)
    → (b ≡ false) × (m ≡ (st', replied good a))
passed true st st' bad good a m e = absurd (ground arith)
passed false st st' bad good a m e = (refl, e)

-- A password reset that is answered with success had a token that was known and not expired. It has set the new
-- password's hash for the token's user; that token is refused ever after, without a change; and no login session
-- of the user is left.
pub reset_password-ResetDone :
    (lib : Library) (now : ℕ) (st st' : AuthState) (body : ResetBody)
    → reset_password lib now st body ≡ (st', replied 204 tt)
    → ResetDone lib now st st' body
unfolding reset_password consumed reset_with
reset_password-ResetDone lib now st st' body =
    by_token (reset_token_by_id st.store.resets (lib.trim body.token)) refl
  where
    by_hash :
        (t : ResetToken) (h : Option Text)
        → reset_token_by_id st.store.resets (lib.trim body.token) ≡ some t
        → now < t.expires_at
        → lib.hash_password body.password ≡ h
        → reset_with lib st t h ≡ (st', replied 204 tt)
        → ResetDone lib now st st' body
    by_hash t none found live hashed e = absurd (ground arith)
    by_hash t (some hash) found live hashed e =
        subst (λ k. ResetDone lib now st k body) (ap (λ (p : AuthState × Answer Unit). p.0) e)
          (reset_done lib now st body t hash found live hashed)

    by_token :
        (o : Option ResetToken)
        → reset_token_by_id st.store.resets (lib.trim body.token) ≡ o
        → consumed lib st now body.password o ≡ (st', replied 204 tt)
        → ResetDone lib now st st' body
    by_token none found e = absurd (ground arith)
    by_token (some t) found e =
        let (live, e1) = passed (not (ltb now t.expires_at)) st st' 400 204 tt _ e in
        let (long, e2) = passed (ltb (length body.password) 8) st st' 400 204 tt _ e1 in
        by_hash t (lib.hash_password body.password) found (ground arith) refl e2
