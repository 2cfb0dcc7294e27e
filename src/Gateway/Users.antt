-- ===== src/Gateway/Users.antt =====
-- `UserRepository`, api-gateway/internal/repository/user_repository.go, over the statements that it
-- issues and what PostgreSQL documents of them. `by_username` and `by_id` are the table of accounts
-- as a reader sees it: a unique index has at most one row for a key.
use fund_kit.Base.{
  ℕ, String, Option, none, some, ◌≡◌, Bool, ◌&&◌, not, if◌then◌else◌, Result, ok, err, update,
}
use fund_kit.Base.Text.{to_lower, contains_text}
use fund_kit.Gateway.User.{User, AuthError, before_create}

-- An error of a statement: whether it is `gorm.ErrDuplicatedKey`, and its text.
pub record Failure : Type 0 where
  pub duplicated_key : Bool
  pub text : String

pub record UserTable : Type 1 where
  pub Db : Type 0
  pub by_username : Db → String → Option User
  pub by_id : Db → String → Option User
  -- `INSERT INTO users`: the row as it was stored
  pub insert_user : User → Db → Result Failure (User × Db)
  -- `SELECT … WHERE username = ?`; `none` is `gorm.ErrRecordNotFound`
  pub first_by_username : String → Db → Result Failure (Option User)
  -- `SELECT … WHERE id = ?`
  pub first_by_id : String → Db → Result Failure (Option User)

module _ (d : UserTable) where
  open d use {Db, by_username, by_id}

  -- What an insert stores: the row that it was given, with the timestamps filled in.
  abbrev pub IsStored : User → User → Type 0
  IsStored u row = (t : ℕ) × (s : ℕ) × (row ≡ record u { created_at = t; updated_at = s })

  -- The documented behaviour that the service relies on.
  pub record IsLawful : Type 1 where
    pub insert_user_lem :
        (u : User) (db : Db) {row : User} {db' : Db}
        → d.insert_user u db ≡ ok (row, db')
        → IsStored u row
          × (by_username db' ≡ update (by_username db) u.username (some row))
          × (by_id db' ≡ update (by_id db) u.id (some row))
    pub first_by_username_lem :
        (name : String) (db : Db) {r : Option User}
        → d.first_by_username name db ≡ ok r
        → r ≡ by_username db name
    pub first_by_id_lem :
        (id : String) (db : Db) {r : Option User} → d.first_by_id id db ≡ ok r → r ≡ by_id db id

unfoldable pub classify_unique_violation : Failure → AuthError
classify_unique_violation e =
    let message = to_lower e.text in
    if not e.duplicated_key
      && not (contains_text message "duplicate")
      && not (contains_text message "unique")
    then AuthError.infrastructure e.text
    else (if contains_text message "email" then AuthError.email_taken else AuthError.username_taken)

-- `if errors.Is(err, gorm.ErrRecordNotFound) { return nil, domain.ErrUserNotFound }`.
unfoldable pub found : Result Failure (Option User) → Result AuthError User
found (err e) = err (AuthError.infrastructure e.text)
found (ok none) = err AuthError.user_not_found
found (ok (some u)) = ok u

module _ (d : UserTable) where
  open d use {Db}

  -- `Create`; `uuid` is what `uuid.New` returns.
  unfoldable pub create : String → User → Db → Result AuthError User × Db
  unfolding classify_unique_violation
  create uuid u db = elim (d.insert_user (before_create uuid u) db) [
    | err e ↦ (err (classify_unique_violation e), db)
    | ok (row, db') ↦ (ok row, db')
  ]

  unfoldable pub get_by_username : String → Db → Result AuthError User
  unfolding found
  get_by_username name db = found (d.first_by_username name db)

  unfoldable pub get_by_id : String → Db → Result AuthError User
  unfolding found
  get_by_id id db = found (d.first_by_id id db)
