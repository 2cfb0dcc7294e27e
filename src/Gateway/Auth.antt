-- ===== src/Gateway/Auth.antt =====
-- `AuthService`, api-gateway/internal/service/auth_service.go, and the claims of a token,
-- api-gateway/internal/token/claims.go. bcrypt and the JWT library are parameters. A time is a count
-- of nanoseconds; logging is left out.
use Prim.Native.String.{◌++◌}
use fund_kit.Base.{
  String, List, Option, none, some, ◌≡◌, Bool, true, ◌||◌, if◌then◌else◌, Result, ok, err, ◌>>=◌,
  contains,
}
use fund_kit.Base.Int.{ℤ, pos, ltb_ℤ, ◌+ℤ◌, ◌≤ℤ◌}
use fund_kit.Gateway.User.{User, AuthError, Registration, normalize, normalize_username, validate}
use fund_kit.Gateway.Users.{UserTable, create, get_by_username, get_by_id}

-- `bcrypt.GenerateFromPassword`, with the salt that it draws, and `bcrypt.CompareHashAndPassword`,
-- which takes the hash first: whether it returns no error.
pub record Bcrypt : Type 0 where
  pub generate : String → String → ℤ → Result String String
  pub compare : String → String → Bool

pub record IsLawfulBcrypt (b : Bcrypt) : Type 0 where
  pub compare_generated :
      (salt password : String) (cost : ℤ) {hash : String}
      → b.generate salt password cost ≡ ok hash
      → b.compare hash password ≡ true

-- `Claims`, with the registered claims that the gateway sets.
pub record Claims : Type 0 where
  pub subject : String
  pub issuer : String
  pub issued_at : ℤ
  pub not_before : ℤ
  pub expires_at : ℤ
  pub username : String
  pub email : String
  pub phone : String
  pub full_name : String

-- The algorithm that a token's header names: one of the HMAC family, or another.
pub data SigningMethod : Type 0 where
  hmac : String → SigningMethod
  other : String → SigningMethod

abbrev pub alg : SigningMethod → String
alg (hmac name) = name
alg (other name) = name

abbrev pub signing_method_hs256 : SigningMethod
signing_method_hs256 = hmac "HS256"

-- `jwt.NewNumericDate`, `SignedString`, and `ParseWithClaims` with a key function, the valid
-- methods and a required expiry, at the time of the call: `none` is an error or an invalid token.
-- `IsSigned m key text claims` says that `text` carries `claims` and a signature by `m` under `key`.
pub record Jwt : Type 1 where
  pub IsSigned : SigningMethod → String → String → Claims → Type 0
  pub new_numeric_date : ℤ → ℤ
  pub signed_string : SigningMethod → Claims → String → Result String String
  pub parse_with_claims : (SigningMethod → Option String) → List String → String → ℤ → Option Claims

-- The times of the claims are ones that a token can carry.
abbrev pub HasNumericDates : Jwt → Claims → Type 0
HasNumericDates j c =
    (j.new_numeric_date c.issued_at ≡ c.issued_at)
    × (j.new_numeric_date c.not_before ≡ c.not_before)
    × (j.new_numeric_date c.expires_at ≡ c.expires_at)

pub record IsLawfulJwt (j : Jwt) : Type 1 where
  pub new_numeric_date_idem :
      (t : ℤ) → j.new_numeric_date (j.new_numeric_date t) ≡ j.new_numeric_date t
  pub new_numeric_date_le : (t : ℤ) → j.new_numeric_date t ≤ℤ t
  pub parse_signed :
      (key_func : SigningMethod → Option String) (methods : List String) (m : SigningMethod)
      (claims : Claims) (key : String) (now : ℤ) {text : String}
      → j.signed_string m claims key ≡ ok text
      → HasNumericDates j claims
      → key_func m ≡ some key
      → contains (alg m) methods ≡ true
      → claims.not_before ≤ℤ now
      → ltb_ℤ now claims.expires_at ≡ true
      → j.parse_with_claims key_func methods text now ≡ some claims
  pub parse_verified :
      (key_func : SigningMethod → Option String) (methods : List String) (text : String) (now : ℤ)
      {claims : Claims}
      → j.parse_with_claims key_func methods text now ≡ some claims
      → (m : SigningMethod) × (key : String) × (key_func m ≡ some key)
        × (contains (alg m) methods ≡ true)
        × j.IsSigned m key text claims
        × (ltb_ℤ now claims.expires_at ≡ true)

-- `config.AuthConfig`.
pub record AuthConfig : Type 0 where
  pub jwt_secret : String
  pub token_ttl : ℤ
  pub issuer : String
  pub bcrypt_cost : ℤ

abbrev pub decoy_hash : String
decoy_hash = "$2a$10$N9qo8uLOickgx2ZMRZoMyeIjZAgcfl7p92ldGxad68LJZdL17lhWy"

-- The cost that `NewAuthService` keeps: bcrypt's default, 10, unless it lies between 4 and 31.
unfoldable pub work_factor : AuthConfig → ℤ
work_factor cfg =
    if ltb_ℤ cfg.bcrypt_cost (pos 4) || ltb_ℤ (pos 31) cfg.bcrypt_cost
    then pos 10
    else cfg.bcrypt_cost

pub record Session : Type 0 where
  pub token : String
  pub expires_at : ℤ
  pub user : User

-- The hash that a login is compared with.
abbrev pub hash_of : Option User → String
hash_of none = decoy_hash
hash_of (some u) = u.password_hash

-- `if err != nil && !errors.Is(err, domain.ErrUserNotFound) { return nil, err }`.
unfoldable pub absent_as_none : Result AuthError User → Result AuthError (Option User)
absent_as_none (ok u) = ok (some u)
absent_as_none (err AuthError.user_not_found) = ok none
absent_as_none (err e) = err e

-- `compareErr != nil || user == nil`, and what follows it.
unfoldable pub judge : Option User → Bool → Result AuthError User
judge none matches = err AuthError.invalid_credentials
judge (some u) matches = if matches then ok u else err AuthError.invalid_credentials

-- An error that is wrapped with the step it comes from.
abbrev wrap {ℓ} : {A : Type ℓ} → String → Result String A → Result AuthError A
wrap step (ok a) = ok a
wrap step (err text) = err (AuthError.infrastructure (step ++ text))

module _ (d : UserTable) (b : Bcrypt) (cfg : AuthConfig) where
  open d use {Db}

  -- What `Register` hands to the repository.
  unfoldable pub new_user : (String → Bool) → String → Registration → Result AuthError User
  new_user is_address salt input = do
    let r = normalize input
    done ← validate is_address r
    hash ← wrap "hash password: " (b.generate salt r.password (work_factor cfg))
    ok (record {
      id = "";
      username = r.username;
      email = r.email;
      phone = r.phone;
      full_name = r.full_name;
      password_hash = hash;
      created_at = 0;
      updated_at = 0;
    })

  unfoldable pub register :
      (String → Bool) → String → String → Registration → Db → Result AuthError User × Db
  unfolding new_user
  register is_address uuid salt input db = elim (new_user is_address salt input) [
    | err e ↦ (err e, db)
    | ok user ↦ create d uuid user db
  ]

  unfoldable pub authenticate : String → String → Db → Result AuthError User
  unfolding judge absent_as_none
  authenticate username password db = do
    user ← absent_as_none (get_by_username d (normalize_username username) db)
    judge user (b.compare (hash_of user) password)

  -- `Profile`.
  unfoldable pub profile : String → Db → Result AuthError User
  profile user_id db = get_by_id d user_id db

module _ (j : Jwt) (cfg : AuthConfig) where
  -- The claims of a token that is issued at `now`.
  unfoldable pub claims_of : ℤ → User → Claims
  claims_of now user = record {
    subject = user.id;
    issuer = cfg.issuer;
    issued_at = j.new_numeric_date now;
    not_before = j.new_numeric_date now;
    expires_at = j.new_numeric_date (now +ℤ cfg.token_ttl);
    username = user.username;
    email = user.email;
    phone = user.phone;
    full_name = user.full_name;
  }

  unfoldable pub issue_token : ℤ → User → Result AuthError Session
  unfolding claims_of
  issue_token now user = do
    signed ←
        wrap "sign token: "
          (j.signed_string signing_method_hs256 (claims_of now user) cfg.jwt_secret)
    ok (record { token = signed; expires_at = now +ℤ cfg.token_ttl; user = user })
