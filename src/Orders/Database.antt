-- ===== src/Orders/Database.antt =====
-- The order database behind gorm, as order-service uses it: the statements that
-- order-service/internal/repository issues, and what PostgreSQL documents of them. A statement may
-- fail with the text of an error. `orders` and `outbox` are the two tables as a reader sees them.
use fund_kit.Base.{
  ℕ, String, List, [], ◌∷◌, ◌++◌, Option, none, some, ◌≡◌, ◌≢◌, ◌⊎◌, Result, ok, err, update,
}
use fund_kit.Orders.Status.{OrderStatus}
use fund_kit.Orders.Domain.{Order, OutboxMessage, OrderError}

pub record Database : Type 1 where
  pub Db : Type 0
  pub orders : Db → String → Option Order
  pub outbox : Db → List OutboxMessage
  -- `INSERT INTO orders`: the row as it was stored
  pub insert_order : Order → Db → Result (List ℕ) (Order × Db)
  -- `SELECT … WHERE id = ?`; `none` is `gorm.ErrRecordNotFound`
  pub first_order : String → Db → Result (List ℕ) (Option Order)
  -- `SELECT … ORDER BY created_at DESC`, with `LIMIT` where one is given
  pub recent_orders : Option ℕ → Db → Result (List ℕ) (List Order)
  -- `UPDATE orders SET status = next WHERE id = ? AND status = expected`: the rows affected
  pub set_status : String → OrderStatus → OrderStatus → Db → Result (List ℕ) (ℕ × Db)
  -- `DELETE FROM orders WHERE id = ?`: the rows affected
  pub remove_order : String → Db → Result (List ℕ) (ℕ × Db)
  -- `INSERT INTO outbox`
  pub insert_outbox : OutboxMessage → Db → Result (List ℕ) Db
  -- `db.Transaction(body)`
  pub transaction : (Db → Result OrderError (Order × Db)) → Db → Result OrderError Order × Db

module _ (d : Database) where
  open d use {Db, orders, outbox}

  -- What an insert stores: the row that it was given, with the timestamps filled in.
  abbrev pub IsStored : Order → Order → Type 0
  IsStored o row = (t : ℕ) × (u : ℕ) × (row ≡ record o { created_at = t; updated_at = u })

  abbrev pub WasUpdated : String → OrderStatus → OrderStatus → Db → Db → Type 0
  WasUpdated id expected next db db' =
      (o : Order) × (t : ℕ) × (orders db id ≡ some o)
      × (o.status ≡ expected)
      × (orders db' ≡ update (orders db) id (some (record o { status = next; updated_at = t })))

  abbrev pub DidNotMatch : String → OrderStatus → Db → Db → Type 0
  DidNotMatch id expected db db' =
      ((o : Order) → orders db id ≡ some o → o.status ≢ expected) × (orders db' ≡ orders db)

  -- The documented behaviour that the service relies on.
  pub record IsLawful : Type 1 where
    pub orders_keyed : (db : Db) (id : String) {o : Order} → orders db id ≡ some o → o.id ≡ id
    pub insert_order_lem :
        (o : Order) (db : Db) {row : Order} {db' : Db}
        → d.insert_order o db ≡ ok (row, db')
        → IsStored o row
          × (orders db o.id ≡ none)
          × (orders db' ≡ update (orders db) o.id (some row))
          × (outbox db' ≡ outbox db)
    pub first_order_lem :
        (id : String) (db : Db) {r : Option Order} → d.first_order id db ≡ ok r → r ≡ orders db id
    pub set_status_lem :
        (id : String) (expected next : OrderStatus) (db : Db) {n : ℕ} {db' : Db}
        → d.set_status id expected next db ≡ ok (n, db')
        → (outbox db' ≡ outbox db)
          × (((n ≡ 1) × WasUpdated id expected next db db')
              ⊎ ((n ≡ 0) × DidNotMatch id expected db db'))
    pub remove_order_lem :
        (id : String) (db : Db) {n : ℕ} {db' : Db}
        → d.remove_order id db ≡ ok (n, db')
        → (outbox db' ≡ outbox db)
          × (((n ≡ 1) × (orders db' ≡ update (orders db) id none))
              ⊎ ((n ≡ 0) × (orders db id ≡ none) × (orders db' ≡ orders db)))
    pub insert_outbox_lem :
        (m : OutboxMessage) (db : Db) {db' : Db}
        → d.insert_outbox m db ≡ ok db'
        → (orders db' ≡ orders db)
          × ((i : ℕ) × (outbox db' ≡ outbox db ++ record m { id = i } ∷ []))
    -- A body that fails is rolled back; one that succeeds is committed, or the commit fails.
    pub transaction_rolled_back :
        (body : Db → Result OrderError (Order × Db)) (db : Db) {e : OrderError}
        → body db ≡ err e
        → d.transaction body db ≡ (err e, db)
    pub transaction_committed :
        (body : Db → Result OrderError (Order × Db)) (db : Db) {o : Order} {db' : Db}
        → body db ≡ ok (o, db')
        → (d.transaction body db ≡ (ok o, db'))
          ⊎ ((text : List ℕ) × (d.transaction body db ≡ (err (OrderError.infrastructure text), db)))
