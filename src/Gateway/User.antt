-- ===== src/Gateway/User.antt =====
-- Accounts, api-gateway/internal/domain/user.go.
use Prim.Native.Char.{Char, code}
use Prim.Native.String.{len, count}
use fund_kit.Base.{
  ℕ, String, Bool, true, false, ◌&&◌, ◌||◌, not, ◌==◌, eqb, leb, ltb, if◌then◌else◌, Result, ok,
  ◌>>◌, fail_if,
}
use fund_kit.Base.Text.{trim_space, to_lower}

-- The sentinel errors, a `ValidationError` with its field and message, and the text of another error.
pub data AuthError : Type 0 where
  user_not_found username_taken email_taken invalid_credentials : AuthError
  validation : String → String → AuthError
  infrastructure : String → AuthError

pub record User : Type 0 where
  pub id : String
  pub username : String
  pub email : String
  pub phone : String
  pub full_name : String
  pub password_hash : String
  pub created_at : ℕ
  pub updated_at : ℕ

-- `User.BeforeCreate`; `uuid` is what `uuid.New` returns.
unfoldable pub before_create : String → User → User
before_create uuid u = if u.id == "" then record u { id = uuid } else u

pub record Registration : Type 0 where
  pub username : String
  pub email : String
  pub phone : String
  pub full_name : String
  pub password : String

abbrev pub min_password_length : ℕ
min_password_length = 8

unfoldable pub normalize_username : String → String
normalize_username username = to_lower (trim_space username)

-- `Registration.Normalize`.
unfoldable pub normalize : Registration → Registration
normalize r = record r {
  username = normalize_username r.username;
  email = to_lower (trim_space r.email);
  phone = trim_space r.phone;
  full_name = trim_space r.full_name;
}

abbrev is_digit : Char → Bool
is_digit c = leb b'0' (code c) && leb (code c) b'9'

abbrev is_username_char : Char → Bool
is_username_char c =
    let n = code c in
    (leb b'a' n && leb n b'z')
    || (leb b'A' n && leb n b'Z')
    || is_digit c
    || eqb n b'.'
    || eqb n b'_'
    || eqb n b'-'

abbrev is_phone_char : Char → Bool
is_phone_char c =
    let n = code c in is_digit c || eqb n b' ' || eqb n b'(' || eqb n b')' || eqb n b'-'

abbrev all_chars : (Char → Bool) → String → Bool
all_chars p String.[] = true
all_chars p (String.◌∷◌ c s) = p c && all_chars p s

-- A class of characters, repeated between `low` and `high` times, up to the end of the text.
abbrev repeats : (Char → Bool) → ℕ → ℕ → String → Bool
repeats p low high s = all_chars p s && leb low (count s) && leb (count s) high

-- `usernamePattern`.
unfoldable pub matches_username : String → Bool
matches_username s = repeats is_username_char 3 64 s

abbrev matches_local : String → Bool
matches_local String.[] = false
matches_local (String.◌∷◌ c s) = is_digit c && repeats is_phone_char 6 19 s

-- `phonePattern`.
unfoldable pub matches_phone : String → Bool
matches_phone String.[] = false
matches_phone (String.◌∷◌ c s) =
    if eqb (code c) b'+' then matches_local s else matches_local (String.◌∷◌ c s)

-- `Registration.Validate`; `is_address` is whether `mail.ParseAddress` takes the text.
unfoldable pub validate : (String → Bool) → Registration → Result AuthError (Unit {0})
unfolding matches_username matches_phone
validate is_address r = do
  fail_if (not (matches_username r.username)) (
      validation "username"
        "must be 3-64 characters using letters, digits, dot, dash or underscore")
  fail_if (not (is_address r.email)) (validation "email" "must be a valid email address")
  fail_if (not (matches_phone r.phone))
      (validation "phone" "must be a valid phone number, e.g. +919876543210")
  fail_if (ltb (count r.full_name) 2) (validation "full_name" "must be at least 2 characters")
  fail_if (ltb (len r.password) min_password_length)
      (validation "password" "must be at least 8 characters")
  ok tt
