-- ===== src/Gateway/Sessions.antt =====
-- `AuthHandler`, api-gateway/internal/handler/auth_handler.go. A reply is a status and a body; a
-- request's body is what the JSON decoder made of it, or its error.
use Prim.Native.String.{◌++◌}
use fund_kit.Base.{ℕ, String, Bool, ◌&&◌, not, ◌==◌, if◌then◌else◌, Result, ok, err, ◌>>=◌}
use fund_kit.Base.Int.{ℤ}
use fund_kit.Gateway.User.{User, AuthError, Registration}
use fund_kit.Gateway.Users.{UserTable}
use fund_kit.Gateway.Auth.{
  Bcrypt, Jwt, AuthConfig, Session, register, authenticate, profile, issue_token,
}
use fund_kit.Gateway.Identity.{Caller}

-- `err.Error()`.
unfoldable pub message : AuthError → String
message AuthError.user_not_found = "user not found"
message AuthError.username_taken = "username is already registered"
message AuthError.email_taken = "email is already registered"
message AuthError.invalid_credentials = "invalid username or password"
message (AuthError.validation field text) = field ++ ": " ++ text
message (AuthError.infrastructure text) = text

-- `loginRequest`.
pub record Login : Type 0 where
  pub username : String
  pub password : String

pub record UserView : Type 0 where
  pub id : String
  pub username : String
  pub email : String
  pub phone : String
  pub full_name : String

-- `expires_at` is the time that the JSON text of it names.
pub record SessionResponse : Type 0 where
  pub token : String
  pub user_id : String
  pub expires_at : ℤ
  pub user : UserView

pub data Body : Type 0 where
  session : SessionResponse → Body
  view : UserView → Body
  error : String → Body
  field_error : String → String → Body

pub record Reply : Type 0 where
  pub status : ℕ
  pub body : Body

unfoldable pub to_user_view : User → UserView
to_user_view u = record {
  id = u.id;
  username = u.username;
  email = u.email;
  phone = u.phone;
  full_name = u.full_name;
}

unfoldable pub to_session_response : Session → SessionResponse
unfolding to_user_view
to_session_response s = record {
  token = s.token;
  user_id = s.user.id;
  expires_at = s.expires_at;
  user = to_user_view s.user;
}

abbrev error_reply : ℕ → String → Reply
error_reply status text = record { status = status; body = error text }

unfoldable pub write_auth_error : AuthError → Reply
unfolding message
write_auth_error (AuthError.validation field text) = record {
  status = 400;
  body = field_error (message (AuthError.validation field text)) field;
}
write_auth_error AuthError.username_taken = error_reply 409 (message AuthError.username_taken)
write_auth_error AuthError.email_taken = error_reply 409 (message AuthError.email_taken)
write_auth_error AuthError.invalid_credentials =
    error_reply 401 (message AuthError.invalid_credentials)
write_auth_error AuthError.user_not_found = error_reply 404 (message AuthError.user_not_found)
write_auth_error (AuthError.infrastructure text) = error_reply 500 "internal server error"

-- A handler's answer: its success, or the reply that the error maps to.
abbrev answer {ℓ} : {A : Type ℓ} → (A → Reply) → Result AuthError A → Reply
answer success (ok a) = success a
answer success (err e) = write_auth_error e

-- The `binding:"required"` tags of `registerRequest` and `loginRequest`.
unfoldable pub is_complete : Registration → Bool
is_complete r =
    not (r.username == "")
    && not (r.email == "")
    && not (r.phone == "")
    && not (r.full_name == "")
    && not (r.password == "")

unfoldable pub is_complete_login : Login → Bool
is_complete_login r = not (r.username == "") && not (r.password == "")

module _ (d : UserTable) (b : Bcrypt) (j : Jwt) (cfg : AuthConfig) where
  open d use {Db}

  -- `POST /auth/register`. `missing` is the text of the validator's error.
  unfoldable pub register_handler :
      (String → Bool) → String → String → ℤ → String → Result String Registration → Db → Reply × Db
  register_handler is_address uuid salt now missing (err text) db = (error_reply 400 text, db)
  register_handler is_address uuid salt now missing (ok request) db =
      let (r, db') = register d b cfg is_address uuid salt request db in
      let issued = r >>= issue_token j cfg now in
      if is_complete request
      then (
        answer (λ s. record { status = 201; body = session (to_session_response s) }) issued,
        db',
      )
      else (error_reply 400 missing, db)

  -- `POST /auth/login`.
  unfoldable pub login_handler : ℤ → Result String Login → Db → Reply
  login_handler now (err text) db = error_reply 400 "username and password are required"
  login_handler now (ok request) db =
      let issued =
        authenticate d b cfg request.username request.password db >>= issue_token j cfg now in
      if is_complete_login request
      then answer (λ s. record { status = 200; body = session (to_session_response s) }) issued
      else error_reply 400 "username and password are required"

  -- `GET /auth/me`, behind the check of the token.
  unfoldable pub me_handler : Caller → Db → Reply
  me_handler caller db =
      let found = profile d b cfg caller.user_id db in
      if caller.user_id == ""
      then error_reply 401 "not authenticated"
      else answer (λ u. record { status = 200; body = view (to_user_view u) }) found
