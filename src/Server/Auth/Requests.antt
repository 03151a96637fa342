-- ===== src/Server/Auth/Requests.antt =====
-- internal/server/auth_handlers.go: sign-up, login, logout and the password reset. The clock, the
-- fresh tokens and the limiter's answer are arguments; trimming, lower case, `strings.EqualFold` and
-- bcrypt are the parameters of `Library`.
use cribbager.Common.{
  Text, text_eq, ℕ, suc, ◌+◌, Bool, true, false, ◌&&◌, ◌||◌, not, [], ◌∷◌, Option, none, some,
  length, drop, ltb, leb, ◌==◌, if◌then◌else◌,
}
use cribbager.Server.RateLimit.{RateLimiter, allow}
use cribbager.Server.Handlers.{Answer, refused}
use cribbager.Server.Auth.Store.{User, AuthStore, create_session}

pub record Library : Type 0 where
  pub trim : Text → Text
  pub lower : Text → Text
  pub fold_eq : Text → Text → Bool
  pub hash_password : Text → Option Text
  pub check_password : Text → Text → Bool

abbrev username_byte : ℕ → Bool
username_byte b =
    (leb 97 b && leb b 122)
    || ((leb 65 b && leb b 90) || ((leb 48 b && leb b 57) || (b == 95 || b == 45)))

-- The loop of `validUsername`; a byte of a longer character is not allowed either.
unfoldable pub username_bytes : Text → Bool
username_bytes [] = true
username_bytes (b ∷ bs) = username_byte b && username_bytes bs

unfoldable pub valid_username : Text → Bool
unfolding username_bytes
valid_username u = if ltb (length u) 3 || ltb 24 (length u) then false else username_bytes u

-- `strings.ContainsAny(e, " \t\r\n")`
unfoldable pub has_space : Text → Bool
has_space [] = false
has_space (b ∷ bs) = (b == 32 || (b == 9 || (b == 13 || b == 10))) || has_space bs

-- `strings.IndexByte` and `strings.LastIndexByte`; `none` is -1.
abbrev shifted : Option ℕ → Option ℕ
shifted none = none
shifted (some i) = some (suc i)

unfoldable pub index_byte : ℕ → Text → Option ℕ
index_byte b [] = none
index_byte b (x ∷ xs) = if x == b then some 0 else shifted (index_byte b xs)

unfoldable pub last_index_byte : ℕ → Text → Option ℕ
last_index_byte b [] = none
last_index_byte b (x ∷ xs) = elim (last_index_byte b xs) [
  | none ↦ if x == b then some 0 else none
  | some i ↦ some (suc i)
]

abbrev domain_ok : Text → Bool
domain_ok d = elim (last_index_byte 46 d) [
  | none ↦ false
  | some i ↦ ltb 0 i && ltb (suc i) (length d)
]

abbrev email_at : Text → Option ℕ → Bool
email_at e none = false
email_at e (some at) = if at == 0 || suc at == length e then false else domain_ok (drop (suc at) e)

unfoldable pub valid_email : Text → Bool
valid_email e = if has_space e then false else email_at e (index_byte 64 e)

-- The times that a session and a reset token live, in nanoseconds.
abbrev pub session_ttl : ℕ
session_ttl = 2592000000000000

abbrev pub reset_token_ttl : ℕ
reset_token_ttl = 3600000000000

pub record AuthState : Type 0 where
  pub store : AuthStore
  pub login_limiter : RateLimiter Text
  pub auth_limiter : RateLimiter Text

-- What every request brings: its `Origin` check, its address, the clock.
pub record Request (Body : Type 0) : Type 0 where
  pub same_origin : Bool
  pub client_ip : Text
  pub now : ℕ
  pub body : Option Body

pub record UserResponse : Type 0 where
  pub id : Text
  pub username : Text
  pub email : Text
  pub display_name : Text

abbrev pub to_user_response : User → UserResponse
to_user_response u = record {
  id = u.id;
  username = u.username;
  email = u.email;
  display_name = u.display_name;
}

-- The cookie that a response sets, with the user.
pub record LoggedIn : Type 0 where
  pub cookie : Text
  pub user : UserResponse

pub record SignupBody : Type 0 where
  pub username : Text
  pub email : Text
  pub password : Text
  pub display_name : Text

pub record LoginBody : Type 0 where
  pub username : Text
  pub password : Text

pub record ResetBody : Type 0 where
  pub token : Text
  pub password : Text

-- `startSession`, with the fresh token.
unfoldable pub start_session : AuthStore → Text → Text → ℕ → AuthStore
start_session m token user now =
    create_session m (record { id = token; user_id = user; expires_at = now + session_ttl })

-- `decodeJSON`, and the handler on what it read.
unfoldable pub with_body :
    {A Body : Type 0}
    → (AuthState → Body → AuthState × Answer A)
    → AuthState
    → Option Body
    → AuthState × Answer A
with_body handle st none = (st, refused 400)
with_body handle st (some body) = handle st body

-- The guards of the mutating requests: the origin, then the limiter, which counts the request.
unfoldable pub limited :
    {A Body : Type 0}
    → Request Body
    → RateLimiter Text
    → (RateLimiter Text → AuthState)
    → (AuthState → Body → AuthState × Answer A)
    → AuthState
    → AuthState × Answer A
unfolding with_body
limited req limiter with_limiter handle st =
    let (counted, allowed) = allow text_eq limiter req.now req.client_ip in
    if not req.same_origin
    then (st, refused 403)
    else if not allowed
    then (with_limiter counted, refused 429)
    else with_body handle (with_limiter counted) req.body
