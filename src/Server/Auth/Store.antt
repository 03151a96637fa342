-- ===== src/Server/Auth/Store.antt =====
-- internal/server/auth_store_mem.go and auth.go: the in-memory store of accounts, login sessions and
-- reset tokens, and the user of a request. A map by id is an association list; a time is a number.
-- `strings.EqualFold` is the parameter `fold_eq`.
use cribbager.Common.{
  Text, text_eq, ℕ, Bool, false, ◌||◌, List, [], ◌∷◌, Option, none, some, ltb, if◌then◌else◌,
}

pub record User : Type 0 where
  pub id : Text
  pub username : Text
  pub email : Text
  pub display_name : Text
  pub password_hash : Text
  pub created_at : ℕ

-- A login session, and a reset token, by the same fields.
pub record Session : Type 0 where
  pub id : Text
  pub user_id : Text
  pub expires_at : ℕ

pub record ResetToken : Type 0 where
  pub id : Text
  pub user_id : Text
  pub expires_at : ℕ

pub record AuthStore : Type 0 where
  pub users : List User
  pub sessions : List Session
  pub resets : List ResetToken

abbrev pub empty_store : AuthStore
empty_store = record { users = []; sessions = []; resets = [] }

module _ (fold_eq : Text → Text → Bool) where
  abbrev pub clash : User → User → Bool
  clash u v = fold_eq u.username v.username || fold_eq u.email v.email

  -- The loop of `CreateUser`.
  unfoldable pub taken : List User → User → Bool
  taken [] u = false
  taken (v ∷ vs) u = clash v u || taken vs u

  unfoldable pub user_by_username : List User → Text → Option User
  user_by_username [] name = none
  user_by_username (u ∷ us) name =
      if fold_eq u.username name then some u else user_by_username us name

  unfoldable pub user_by_email : List User → Text → Option User
  user_by_email [] email = none
  user_by_email (u ∷ us) email = if fold_eq u.email email then some u else user_by_email us email

-- `m.users[u.ID] = u`
unfoldable pub set_user : List User → User → List User
set_user [] u = u ∷ []
set_user (v ∷ vs) u = if text_eq v.id u.id then u ∷ vs else v ∷ set_user vs u

-- `CreateUser`; `none` is ErrUserExists.
unfoldable pub create_user : (Text → Text → Bool) → AuthStore → User → Option AuthStore
unfolding taken set_user
create_user fold_eq m u =
    if taken fold_eq m.users u then none else some (record m { users = set_user m.users u })

unfoldable pub user_by_id : List User → Text → Option User
user_by_id [] id = none
user_by_id (u ∷ us) id = if text_eq u.id id then some u else user_by_id us id

-- `UpdatePassword`: nothing for an unknown user.
unfoldable pub with_password : List User → Text → Text → List User
with_password [] id hash = []
with_password (u ∷ us) id hash =
    if text_eq u.id id then record u { password_hash = hash } ∷ us else u ∷ with_password us id hash

unfoldable pub update_password : AuthStore → Text → Text → AuthStore
unfolding with_password
update_password m id hash = record m { users = with_password m.users id hash }

unfoldable pub set_login : List Session → Session → List Session
set_login [] s = s ∷ []
set_login (t ∷ ts) s = if text_eq t.id s.id then s ∷ ts else t ∷ set_login ts s

unfoldable pub create_session : AuthStore → Session → AuthStore
unfolding set_login
create_session m s = record m { sessions = set_login m.sessions s }

unfoldable pub session_by_id : List Session → Text → Option Session
session_by_id [] id = none
session_by_id (s ∷ ss) id = if text_eq s.id id then some s else session_by_id ss id

unfoldable pub without_session : List Session → Text → List Session
without_session [] id = []
without_session (s ∷ ss) id =
    if text_eq s.id id then without_session ss id else s ∷ without_session ss id

unfoldable pub delete_session : AuthStore → Text → AuthStore
unfolding without_session
delete_session m id = record m { sessions = without_session m.sessions id }

unfoldable pub without_user : List Session → Text → List Session
without_user [] user = []
without_user (s ∷ ss) user =
    if text_eq s.user_id user then without_user ss user else s ∷ without_user ss user

unfoldable pub delete_sessions_for_user : AuthStore → Text → AuthStore
unfolding without_user
delete_sessions_for_user m user = record m { sessions = without_user m.sessions user }

unfoldable pub set_reset : List ResetToken → ResetToken → List ResetToken
set_reset [] t = t ∷ []
set_reset (u ∷ us) t = if text_eq u.id t.id then t ∷ us else u ∷ set_reset us t

unfoldable pub create_reset_token : AuthStore → ResetToken → AuthStore
unfolding set_reset
create_reset_token m t = record m { resets = set_reset m.resets t }

unfoldable pub reset_token_by_id : List ResetToken → Text → Option ResetToken
reset_token_by_id [] id = none
reset_token_by_id (t ∷ ts) id = if text_eq t.id id then some t else reset_token_by_id ts id

unfoldable pub without_reset : List ResetToken → Text → List ResetToken
without_reset [] id = []
without_reset (t ∷ ts) id = if text_eq t.id id then without_reset ts id else t ∷ without_reset ts id

unfoldable pub delete_reset_token : AuthStore → Text → AuthStore
unfolding without_reset
delete_reset_token m id = record m { resets = without_reset m.resets id }

unfoldable pub live_sessions : ℕ → List Session → List Session
live_sessions now [] = []
live_sessions now (s ∷ ss) =
    if ltb now s.expires_at then s ∷ live_sessions now ss else live_sessions now ss

unfoldable pub live_resets : ℕ → List ResetToken → List ResetToken
live_resets now [] = []
live_resets now (t ∷ ts) =
    if ltb now t.expires_at then t ∷ live_resets now ts else live_resets now ts

-- `ReapExpired`
unfoldable pub reap_expired : ℕ → AuthStore → AuthStore
unfolding live_sessions live_resets
reap_expired now m = record m {
  sessions = live_sessions now m.sessions;
  resets = live_resets now m.resets;
}

unfoldable pub user_of_session : AuthStore → ℕ → Option Session → Option User
unfolding user_by_id
user_of_session m now none = none
user_of_session m now (some s) = if ltb now s.expires_at then user_by_id m.users s.user_id else none

-- `currentUser`, by the cookie's value, empty where there is no cookie.
unfoldable pub current_user : AuthStore → ℕ → Text → Option User
unfolding user_of_session session_by_id
current_user m now cookie =
    if text_eq cookie [] then none else user_of_session m now (session_by_id m.sessions cookie)
