-- ===== src/Orders/Startup.antt =====
-- The connection to the database, order-service/internal/repository/postgres.go. What the driver
-- answers is an argument; the limits of the pool are left out.
use fund_kit.Base.{
  ℕ, List, Option, none, some, ◌≡◌, refl, ◌⊎◌, inl, inr, Bool, true, false, arith, Result, ok, err,
  ◌>>=◌, ◌>>◌, if◌then◌else◌, Result-cases, Bool-cases, Option-cases,
}
use fund_kit.Base.Int.{ℤ, pos, ltb_ℤ, ◌≤ℤ◌}

abbrev pub required_schema_version : ℕ
required_schema_version = 2

-- The row of golang-migrate's table.
pub record MigrationState : Type 0 where
  pub version : ℤ
  pub dirty : Bool

-- The errors of `VerifySchema`: the table cannot be read, it has no row, a migration has failed
-- part-way, or the version is too old.
pub data SchemaError : Type 0 where
  unreadable : List ℕ → SchemaError
  never_migrated : SchemaError
  dirty_version : ℤ → SchemaError
  behind : ℤ → SchemaError

-- `VerifySchema`, from the answer to its query.
unfoldable pub verify_schema : Result (List ℕ) (Option MigrationState) → ℤ × Option SchemaError
verify_schema (err text) = (pos 0, some (unreadable text))
verify_schema (ok none) = (pos 0, some never_migrated)
verify_schema (ok (some state)) =
    if state.dirty
    then (state.version, some (dirty_version state.version))
    else if ltb_ℤ state.version (pos required_schema_version)
    then (state.version, some (behind state.version))
    else (state.version, none)

pub data OpenError : Type 0 where
  not_opened no_handle not_reached : List ℕ → OpenError
  wrong_schema : SchemaError → OpenError

-- `if err != nil { return nil, … }`
abbrev pub unless {ℓ} : {E : Type ℓ} → Option (List ℕ) → (List ℕ → E) → Result E (Unit {0})
unless none wrap = ok tt
unless (some text) wrap = err (wrap text)

abbrev pub accepted : ℤ × Option SchemaError → Result OpenError ℤ
accepted (version, none) = ok version
accepted (version, some e) = err (wrong_schema e)

-- What the driver answers: to opening a database, and on one that is open to asking for its handle, to
-- a ping and to the query of the schema's version.
pub record Driver (D : Type 0) : Type 0 where
  pub opened : Result (List ℕ) D
  pub handle_error : D → Option (List ℕ)
  pub ping_error : D → Option (List ℕ)
  pub state : D → Result (List ℕ) (Option MigrationState)

abbrev pub or_open_error : {D : Type 0} → Result (List ℕ) D → Result OpenError D
or_open_error (ok db) = ok db
or_open_error (err text) = err (not_opened text)

module _ {D : Type 0} (driver : Driver D) where
  -- `OpenPostgres`.
  unfoldable pub open_postgres : Result OpenError D
  unfolding verify_schema
  open_postgres = do
    db ← or_open_error driver.opened
    unless (driver.handle_error db) no_handle
    unless (driver.ping_error db) not_reached
    version ← accepted (verify_schema (driver.state db))
    ok db

-- `ClosePostgres` and `PingPostgres`: the error, if any. `none` is a nil handle.
unfoldable pub close_postgres :
    {D : Type 0} → (D → Option (List ℕ)) → (D → Option (List ℕ)) → Option D → Option (List ℕ)
close_postgres handle_error close none = none
close_postgres handle_error close (some db) = elim (handle_error db) [
  | some text ↦ some text
  | none ↦ close db
]

unfoldable pub ping_postgres : {D : Type 0} → List ℕ → Driver D → Option D → Option (List ℕ)
ping_postgres not_initialised driver none = some not_initialised
ping_postgres not_initialised driver (some db) = elim (driver.handle_error db) [
  | some text ↦ some text
  | none ↦ driver.ping_error db
]

-- The row says that the migrations up to the required one have run.
abbrev pub IsMigrated : Result (List ℕ) (Option MigrationState) → Type 0
IsMigrated r =
    (s : MigrationState) × (r ≡ ok (some s))
    × (s.dirty ≡ false)
    × (pos required_schema_version ≤ℤ s.version)

-- What each error reports.
abbrev pub IsSchemaCause : Result (List ℕ) (Option MigrationState) → SchemaError → Type 0
IsSchemaCause r (unreadable text) = r ≡ err text
IsSchemaCause r never_migrated = r ≡ ok none
IsSchemaCause r (dirty_version v) =
    (s : MigrationState) × (r ≡ ok (some s)) × (s.dirty ≡ true) × (s.version ≡ v)
IsSchemaCause r (behind v) =
    (s : MigrationState) × (r ≡ ok (some s)) × (s.dirty ≡ false) × (s.version ≡ v) × (v ≤ℤ pos 1)

verify_schema-cases :
    (r : Result (List ℕ) (Option MigrationState))
    → (((verify_schema r).1 ≡ none) × IsMigrated r)
      ⊎ ((e : SchemaError) × ((verify_schema r).1 ≡ some e) × IsSchemaCause r e)
unfolding verify_schema
verify_schema-cases (err text) = inr (unreadable text, refl, refl)
verify_schema-cases (ok none) = inr (never_migrated, refl, refl)
verify_schema-cases (ok (some state)) = elim (Bool-cases state.dirty) [
  | inl dirty ↦ inr (dirty_version state.version, rw dirty refl, (state, refl, dirty, refl))
  | inr clean ↦ elim (Bool-cases (ltb_ℤ state.version (pos required_schema_version))) [
    | inl old ↦
        inr (behind state.version, rw (clean, old) refl, (state, refl, clean, refl, ground arith))
    | inr new ↦ inl (rw (clean, new) refl, (state, refl, clean, ground arith))
  ]
]

accepted-cases :
    (x : ℤ × Option SchemaError)
    → ((x.1 ≡ none) × (accepted x ≡ ok x.0))
      ⊎ ((e : SchemaError) × (x.1 ≡ some e) × (accepted x ≡ err (wrong_schema e)))
accepted-cases (v, none) = inl (refl, refl)
accepted-cases (v, some e) = inr (e, refl, refl)

module _ {D : Type 0} (driver : Driver D) where
  abbrev pub IsOpened : D → Type 0
  IsOpened db = driver.opened ≡ ok db

  abbrev pub IsCause : OpenError → Type 0
  IsCause (not_opened text) = driver.opened ≡ err text
  IsCause (no_handle text) = (db : D) × IsOpened db × (driver.handle_error db ≡ some text)
  IsCause (not_reached text) =
      (db : D) × IsOpened db × (driver.handle_error db ≡ none) × (driver.ping_error db ≡ some text)
  IsCause (wrong_schema e) =
      (db : D) × IsOpened db
      × (driver.handle_error db ≡ none)
      × (driver.ping_error db ≡ none)
      × IsSchemaCause (driver.state db) e

  -- `OpenPostgres` answers the open database exactly when the driver opens it, its handle and its ping
  -- succeed and its schema is migrated; otherwise it answers an error, and the error names its cause.
  pub open_postgres_outcome :
      ((db : D) × (open_postgres driver ≡ ok db)
        × IsOpened db
        × (driver.handle_error db ≡ none)
        × (driver.ping_error db ≡ none)
        × IsMigrated (driver.state db))
      ⊎ ((e : OpenError) × (open_postgres driver ≡ err e) × IsCause e)
  unfolding open_postgres
  open_postgres_outcome = elim (Result-cases driver.opened) [
    | inr (text, o) ↦ inr (not_opened text, rw o refl, o)
    | inl (db, o) ↦ elim (Option-cases (driver.handle_error db)) [
      | inr (text, h) ↦ inr (no_handle text, rw (o, h) refl, (db, o, h))
      | inl h ↦ elim (Option-cases (driver.ping_error db)) [
        | inr (text, p) ↦ inr (not_reached text, rw (o, h, p) refl, (db, o, h, p))
        | inl p ↦ elim (verify_schema-cases (driver.state db)) [
          | inl (good, migrated) ↦ inl (db, rw (o, h, p) (verified db good), o, h, p, migrated)
          | inr (e, bad, cause) ↦
              inr (wrong_schema e, rw (o, h, p) (refused db e bad), (db, o, h, p, cause))
        ]
      ]
    ]
  ]
    where
      verified :
          (db : D)
          → (verify_schema (driver.state db)).1 ≡ none
          → (accepted (verify_schema (driver.state db)) >>= λ version. ok db) ≡ ok db
      verified db good = elim (accepted-cases (verify_schema (driver.state db))) [
        | inl (n, a) ↦ rw a refl
        | inr (e, n, a) ↦ absurd (cc)
      ]

      refused :
          (db : D) (e : SchemaError)
          → (verify_schema (driver.state db)).1 ≡ some e
          → (accepted (verify_schema (driver.state db)) >>= λ version. ok db) ≡ err (wrong_schema e)
      refused db e bad = elim (accepted-cases (verify_schema (driver.state db))) [
        | inl (n, a) ↦ absurd (cc)
        | inr (e', n, a) ↦ rw a (cc)
      ]
