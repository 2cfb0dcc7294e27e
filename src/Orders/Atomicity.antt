-- ===== src/Orders/Atomicity.antt =====
-- What the two transactions of `OrderRepository` do
-- (order-service/internal/repository/order_repository.go).
use fund_kit.Base.{
  ℕ, String, [], ◌∷◌, ◌++◌, Option, none, some, ◌≡◌, sym, ap, ◌∙◌, ◌⊎◌, inl, inr, arith, update,
  update_self, Result, ok, err, Result-cases, subst,
}
use fund_kit.Orders.Status.{OrderStatus}
use fund_kit.Orders.Domain.{
  Order, OutboxMessage, OrderError, Minted, before_create, new_order_status_changed_outbox,
}
use fund_kit.Orders.Database.{Database, IsLawful, IsStored, WasUpdated}
use fund_kit.Orders.Repository.{
  classify, create_body, create_with_outbox, update_body, update_status_with_outbox, get_by_id,
  first_row,
}

module _ (d : Database) where
  open d use {Db, orders, outbox}

  -- The row is in the table, and the event about it is the newest row of the outbox.
  abbrev pub IsRecorded : Minted → Order → Db → Db → Type 0
  IsRecorded m row db db' =
      (orders db' ≡ update (orders db) row.id (some row))
      × ((i : ℕ) × (msg : OutboxMessage) × (new_order_status_changed_outbox m row ≡ ok msg)
          × (outbox db' ≡ outbox db ++ record msg { id = i } ∷ []))

  abbrev pub IsCreated : String → Minted → Order → Order → Db → Db → Type 0
  IsCreated uuid m o row db db' =
      IsStored d (before_create uuid o) row × (orders db row.id ≡ none) × IsRecorded m row db db'

  abbrev pub IsMoved : String → OrderStatus → OrderStatus → Minted → Order → Db → Db → Type 0
  IsMoved id current next m row db db' =
      (o : Order) × (t : ℕ) × (orders db id ≡ some o)
      × (o.status ≡ current)
      × (row ≡ record o { status = next; updated_at = t })
      × IsRecorded m row db db'

module _ (d : Database) (lawful : IsLawful d) where
  open d use {Db, orders, outbox}
  open lawful use {
    insert_order_lem, insert_outbox_lem, first_order_lem, set_status_lem, orders_keyed,
    transaction_committed, transaction_rolled_back,
  }

  insert-IsRecorded :
      (m : Minted) (row : Order) (msg : OutboxMessage) {db db₁ db₂ : Db}
      → (orders db₁ ≡ update (orders db) row.id (some row))
      → (outbox db₁ ≡ outbox db)
      → new_order_status_changed_outbox m row ≡ ok msg
      → d.insert_outbox msg db₁ ≡ ok db₂
      → IsRecorded d m row db db₂
  insert-IsRecorded m row msg {db₁ = db₁} eo ex em h =
      let (same, (i, grown)) = insert_outbox_lem msg db₁ h in
      (same ∙ eo, (i, msg, em, rw ex at grown))

  create_body-IsCreated :
      (uuid : String) (m : Minted) (o : Order) (db : Db) {row : Order} {db' : Db}
      → create_body d uuid m o db ≡ ok (row, db')
      → IsCreated d uuid m o row db db'
  unfolding create_body
  create_body-IsCreated uuid m o db {row} {db'} h =
      elim (Result-cases (d.insert_order (before_create uuid o) db)) [
        | inr (e, p) ↦ ground arith
        | inl ((row₁, db₁), p) ↦ elim (Result-cases (new_order_status_changed_outbox m row₁)) [
          | inr (e, q) ↦ ground arith
          | inl (msg, q) ↦ elim (Result-cases (d.insert_outbox msg db₁)) [
            | inr (e, r) ↦ ground arith
            | inl (db₂, r) ↦
                let e : ◌≡◌ {A = Order × Db} (row₁, db₂) (row, db') = ground arith in
                let (stored, absent, eo, ex) = insert_order_lem _ db p in
                let ei : row₁.id ≡ (before_create uuid o).id = ground arith in
                subst (λ x. IsCreated d uuid m o x.0 db x.1) e
                  (stored, rw ei absent, insert-IsRecorded m row₁ msg (rw (← ei) at eo) ex q r)
          ]
        ]
      ]

  -- What a transaction leaves: the body's work, or the database as it was.
  transaction-cases :
      (body : Db → Result OrderError (Order × Db)) (db : Db)
      → let (r, db') = d.transaction body db in
        ((row : Order) × (r ≡ ok row) × (body db ≡ ok (row, db')))
        ⊎ ((e : OrderError) × (r ≡ err e) × (db' ≡ db))
  transaction-cases body db = elim (Result-cases (body db)) [
    | inr (e, p) ↦
        let q = transaction_rolled_back body db p in inr (e, ap (λ x. x.0) q, ap (λ x. x.1) q)
    | inl ((row, db₁), p) ↦ elim (transaction_committed body db p) [
      | inl q ↦ inl (row, ap (λ x. x.0) q, p ∙ ap (λ x. ok (row, x.1)) (sym q))
      | inr (text, q) ↦ inr (_, ap (λ x. x.0) q, ap (λ x. x.1) q)
    ]
  ]

  -- Over a database that behaves as documented, `CreateWithOutbox` either returns the stored order,
  -- with the row added to the table, its id free before, and one pending event about it appended to
  -- the outbox, or returns an error and leaves the database as it was.
  pub create_with_outbox_atomic :
      (uuid : String) (m : Minted) (o : Order) (db : Db)
      → let (r, db') = create_with_outbox d uuid m o db in
        ((row : Order) × (r ≡ ok row) × IsCreated d uuid m o row db db')
        ⊎ ((e : OrderError) × (r ≡ err e) × (db' ≡ db))
  unfolding create_with_outbox
  create_with_outbox_atomic uuid m o db = elim (transaction-cases (create_body d uuid m o) db) [
    | inl (row, p, q) ↦ inl (row, rw p, create_body-IsCreated uuid m o db q)
    | inr (e, p, q) ↦ inr (_, ap classify p, q)
  ]

  pub get_by_id-eq-ok :
      (id : String) (db : Db) {row : Order} → get_by_id d id db ≡ ok row → orders db id ≡ some row
  unfolding get_by_id
  get_by_id-eq-ok id db h = elim (Result-cases (d.first_order id db)) [
    | inr (e, p) ↦ ground arith
    | inl (none, p) ↦ ground arith
    | inl (some o, p) ↦ let q = first_order_lem id db p in ground arith
  ]

  first_row-eq-ok :
      (id : String) (db : Db) {row : Order} → first_row d id db ≡ ok row → orders db id ≡ some row
  unfolding first_row
  first_row-eq-ok id db h = elim (Result-cases (d.first_order id db)) [
    | inr (e, p) ↦ ground arith
    | inl (none, p) ↦ ground arith
    | inl (some o, p) ↦ let q = first_order_lem id db p in ground arith
  ]

  set_status-IsMoved :
      (id : String) (current next : OrderStatus) (m : Minted) (db db₁ : Db) {row : Order}
      → WasUpdated d id current next db db₁
      → outbox db₁ ≡ outbox db
      → orders db₁ id ≡ some row
      → (msg : OutboxMessage) → new_order_status_changed_outbox m row ≡ ok msg
      → {db₂ : Db} → d.insert_outbox msg db₁ ≡ ok db₂
      → IsMoved d id current next m row db db₂
  set_status-IsMoved id current next m db db₁ {row} (o, t, found, same, eo) ex now msg em h =
      let stored : Order = record o { status = next; updated_at = t } in
      let ei : o.id ≡ id = orders_keyed db id found in
      let er : ◌≡◌ {A = Option Order} (some stored) (some row) =
        sym (update_self (orders db) id (some stored)) ∙ sym (ap (λ f. f id) eo) ∙ now in
      let es : row ≡ stored = cc in
      let ek : id ≡ row.id = ground arith in
      (
        o,
        t,
        found,
        same,
        es,
        insert-IsRecorded m row msg
            (eo
              ∙ ap (λ r. update (orders db) id (some r)) (sym es)
              ∙ ap (λ k. update (orders db) k (some row)) ek)
            ex em h,
      )

  update_body-IsMoved :
      (id : String) (current next : OrderStatus) (m : Minted) (db : Db) {row : Order} {db' : Db}
      → update_body d id current next m db ≡ ok (row, db')
      → IsMoved d id current next m row db db'
  unfolding update_body
  update_body-IsMoved id current next m db {row} {db'} h =
      elim (Result-cases (d.set_status id current next db)) [
        | inr (e, p) ↦ ground arith
        | inl ((n, db₁), p) ↦ elim (Result-cases (first_row d id db₁)) [
          | inr (e, g) ↦ ground arith
          | inl (row₁, g) ↦ elim (Result-cases (new_order_status_changed_outbox m row₁)) [
            | inr (e, q) ↦ ground arith
            | inl (msg, q) ↦ elim (Result-cases (d.insert_outbox msg db₁)) [
              | inr (e, r) ↦ ground arith
              | inl (db₂, r) ↦
                  let (ex, split) = set_status_lem id current next db p in
                  elim split [
                    | inr (zero_rows, unmatched) ↦ ground arith
                    | inl (one_row, moved) ↦
                        let e : ◌≡◌ {A = Order × Db} (row₁, db₂) (row, db') = ground arith in
                        subst (λ x. IsMoved d id current next m x.0 db x.1) e
                          (set_status-IsMoved id current next m db db₁ moved ex
                            (first_row-eq-ok id db₁ g) msg q r)
                  ]
            ]
          ]
        ]
      ]

  -- Over a database that behaves as documented, `UpdateStatusWithOutbox` either moves an order that
  -- is in the status `current` to `next` and appends one pending event about the row that results,
  -- or returns an error and leaves the database as it was.
  pub update_status_with_outbox_atomic :
      (id : String) (current next : OrderStatus) (m : Minted) (db : Db)
      → let (r, db') = update_status_with_outbox d id current next m db in
        ((row : Order) × (r ≡ ok row) × IsMoved d id current next m row db db')
        ⊎ ((e : OrderError) × (r ≡ err e) × (db' ≡ db))
  unfolding update_status_with_outbox
  update_status_with_outbox_atomic id current next m db =
      elim (transaction-cases (update_body d id current next m) db) [
        | inl (row, p, q) ↦ inl (row, p, update_body-IsMoved id current next m db q)
        | inr (e, p, q) ↦ inr (e, p, q)
      ]
