-- ===== src/Gateway/Credentials.antt =====
-- Credentials, from registration to login
-- (api-gateway/internal/service/auth_service.go, api-gateway/internal/repository/user_repository.go).
use fund_kit.Base.{
  String, Option, none, some, ◌≡◌, refl, sym, ap, ◌∙◌, ◌⊎◌, inl, inr, Bool, true, false, ok, err,
  Result-cases, ok-injective, Bool-cases, update, update_self, ◌==◌,
}
use fund_kit.Gateway.User.{
  User, AuthError, Registration, normalize, normalize_username, validate, before_create,
}
use fund_kit.Gateway.Users.{Failure, UserTable, IsLawful, create, get_by_username, found}
use fund_kit.Gateway.Auth.{
  Bcrypt, IsLawfulBcrypt, AuthConfig, work_factor, new_user, register, authenticate, judge,
  absent_as_none,
}

before_create-keeps :
    (uuid : String) (u : User)
    → ((before_create uuid u).username ≡ u.username)
      × ((before_create uuid u).password_hash ≡ u.password_hash)
unfolding before_create
before_create-keeps uuid u = elim (Bool-cases (u.id == "")) [
  | inl empty ↦ rw empty (refl, refl)
  | inr given ↦ rw given (refl, refl)
]

module _ (d : UserTable) (b : Bcrypt) (cfg : AuthConfig) (lawful : IsLawful d) where
  open d use {Db, by_username, by_id}

  -- `Authenticate` looks the user name up in its normal form, in a table that behaves as
  -- documented, and has one of three outcomes: the stored account, when bcrypt takes the password
  -- for its hash; the one error of wrong credentials, when no stored account of that name takes the
  -- password; or the error of the statement that failed.
  pub authenticate_outcome :
      (username password : String) (db : Db)
      → let name = normalize_username username in
        let r = authenticate d b cfg username password db in
        ((u : User) × (by_username db name ≡ some u)
          × (b.compare u.password_hash password ≡ true)
          × (r ≡ ok u))
        ⊎ (((u : User) → by_username db name ≡ some u → b.compare u.password_hash password ≡ false)
            × (r ≡ err AuthError.invalid_credentials))
        ⊎ ((e : Failure) × (d.first_by_username name db ≡ err e)
            × (r ≡ err (AuthError.infrastructure e.text)))
  unfolding authenticate get_by_username found absent_as_none judge
  authenticate_outcome username password db =
      let name = normalize_username username in
      elim (Result-cases (d.first_by_username name db)) [
        | inr (e, q) ↦ inr (inr (e, q, rw q refl))
        | inl (none, q) ↦
            let here = lawful.first_by_username_lem name db q in
            inr (inl (λ u h. absurd (cc (here, h)), rw q refl))
        | inl (some u, q) ↦
            let here = lawful.first_by_username_lem name db q in
            elim (Bool-cases (b.compare u.password_hash password)) [
              | inl matches ↦ inl (u, sym here, matches, rw (q, matches) refl)
              | inr differs ↦ inr (inl (λ v h. cc (here, h, differs), rw (q, differs) refl))
            ]
      ]

  new_user-eq-ok :
      (is_address : String → Bool) (salt : String) (input : Registration) {u : User}
      → new_user d b cfg is_address salt input ≡ ok u
      → (u.username ≡ normalize_username input.username)
        × (b.generate salt input.password (work_factor cfg) ≡ ok u.password_hash)
  unfolding new_user normalize
  new_user-eq-ok is_address salt input h =
      elim (Result-cases (validate is_address (normalize input))) [
        | inr (e, q) ↦ absurd (cc (h, q))
        | inl (done, q) ↦ elim (Result-cases (b.generate salt input.password (work_factor cfg))) [
          | inr (e, g) ↦ absurd (cc (h, q, g))
          | inl (hash, g) ↦ (cc (h, q, g), cc (h, q, g))
        ]
      ]

  -- If `Register` answers an account and the look-up of a later login does not fail, then
  -- `Authenticate`, on the table that `Register` left, with the registered password and any user
  -- name of the same normal form, answers that account. The table and bcrypt behave as documented.
  pub register-authenticate :
      IsLawfulBcrypt b
      → (is_address : String → Bool) (uuid salt : String) (input : Registration) (db : Db)
        {u : User} {db' : Db}
      → register d b cfg is_address uuid salt input db ≡ (ok u, db')
      → (username : String) → normalize_username username ≡ normalize_username input.username
      → {r : Option User} → d.first_by_username (normalize_username username) db' ≡ ok r
      → authenticate d b cfg username input.password db' ≡ ok u
  unfolding register create before_create authenticate get_by_username found absent_as_none judge
  register-authenticate sound is_address uuid salt input db {u} {db'} h username same answered =
      elim (Result-cases (new_user d b cfg is_address salt input)) [
        | inr (e, q) ↦ absurd (cc (h, q))
        | inl (fresh, q) ↦ elim (Result-cases (d.insert_user (before_create uuid fresh) db)) [
          | inr (e, g) ↦ absurd (cc (h, q, g))
          | inl ((row, db₁), g) ↦
              let facts = new_user-eq-ok is_address salt input q in
              let stored = lawful.insert_user_lem (before_create uuid fresh) db g in
              let here = lawful.first_by_username_lem (normalize_username username) db' answered in
              let kept = before_create-keeps uuid fresh in
              let made : register d b cfg is_address uuid salt input db ≡ (ok row, db₁) =
                rw (q, g, register, create) refl in
              let this : row ≡ u = ok-injective (ap (λ p. p.0) (sym made ∙ h)) in
              let table : db₁ ≡ db' = ap (λ p. p.1) (sym made ∙ h) in
              let name : (before_create uuid fresh).username ≡ normalize_username username =
                kept.0 ∙ facts.0 ∙ sym same in
              let there : by_username db₁ (normalize_username username) ≡ some row =
                ap (λ m. m (normalize_username username)) stored.1
                ∙ ap (λ k. update (by_username db) k (some row) (normalize_username username)) name
                ∙ update_self (by_username db) (normalize_username username) (some row) in
              let looked : d.first_by_username (normalize_username username) db' ≡ ok (some u) =
                cc (answered, here, there, this, table) in
              let hash : u.password_hash ≡ fresh.password_hash =
                sym (ap (λ v. v.password_hash) this)
                ∙ ap (λ v. v.password_hash) stored.0.2
                ∙ kept.1 in
              let matches : b.compare u.password_hash input.password ≡ true =
                ap (λ k. b.compare k input.password) hash
                ∙ sound.compare_generated salt input.password (work_factor cfg) facts.1 in
              rw (looked, matches) refl
        ]
      ]
