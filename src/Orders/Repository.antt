-- ===== src/Orders/Repository.antt =====
-- `OrderRepository`, order-service/internal/repository/order_repository.go.
use fund_kit.Base.{
  ℕ, ◌+◌, String, codes, List, [], ◌∷◌, none, some, Bool, true, false, ◌&&◌, ◌||◌, if◌then◌else◌,
  leb, eqb, Result, ok, err, ◌>>=◌, ◌>>◌, fail_if, ◌≡◌,
}
use fund_kit.Base.Int.{ℤ, pos, pos_part, ltb_ℤ}
use fund_kit.Orders.Status.{OrderStatus}
use fund_kit.Orders.Domain.{
  Order, OrderError, Minted, before_create, new_order_status_changed_outbox,
}
use fund_kit.Orders.Database.{Database}

-- The text of `err.Error()`.
unfoldable pub message : OrderError → List ℕ
message OrderError.order_not_found = codes "order not found"
message OrderError.duplicate_order = codes "duplicate order request"
message OrderError.order_not_cancelable = codes "only pending orders can be deleted"
message OrderError.invalid_transition = codes "invalid order status transition"
message (OrderError.infrastructure text) = text

-- `strings.ToLower`, on ASCII.
to_lower : List ℕ → List ℕ
to_lower [] = []
to_lower (c ∷ cs) = (if leb b'A' c && leb c b'Z' then c + 32 else c) ∷ to_lower cs

starts_with : List ℕ → List ℕ → Bool
starts_with text [] = true
starts_with [] (c ∷ cs) = false
starts_with (t ∷ text) (c ∷ cs) = eqb t c && starts_with text cs

-- `strings.Contains`.
contains_text : List ℕ → List ℕ → Bool
unfolding starts_with
contains_text [] part = starts_with [] part
contains_text (t ∷ text) part = starts_with (t ∷ text) part || contains_text text part

unfoldable pub is_unique_violation : OrderError → Bool
unfolding message to_lower contains_text
is_unique_violation e =
    let text = to_lower (message e) in
    contains_text text (codes "duplicate key")
    || contains_text text (codes "unique constraint")
    || contains_text text (codes "sqlstate 23505")

-- An error of a statement, as the service sees it.
abbrev pub lift {ℓ} : {A : Type ℓ} → Result (List ℕ) A → Result OrderError A
lift (ok a) = ok a
lift (err text) = err (OrderError.infrastructure text)

-- `if isUniqueViolation(err) { return domain.ErrDuplicateOrder }`.
unfoldable pub classify : Result OrderError Order → Result OrderError Order
classify (ok o) = ok o
classify (err e) = err (if is_unique_violation e then OrderError.duplicate_order else e)

module _ (d : Database) where
  open d use {Db}

  -- The closure of `CreateWithOutbox`.
  unfoldable pub create_body : String → Minted → Order → Db → Result OrderError (Order × Db)
  create_body uuid m o db = do
    (row, db₁) ← lift (d.insert_order (before_create uuid o) db)
    msg ← new_order_status_changed_outbox m row
    db₂ ← lift (d.insert_outbox msg db₁)
    ok (row, db₂)

  unfoldable pub create_with_outbox : String → Minted → Order → Db → Result OrderError Order × Db
  unfolding classify
  create_with_outbox uuid m o db =
      let (r, db') = d.transaction (create_body uuid m o) db in (classify r, db')

  -- `tx.First`, whose error is gorm's.
  unfoldable pub first_row : String → Db → Result OrderError Order
  first_row id db = do
    found ← lift (d.first_order id db)
    elim found [ none ↦ err (OrderError.infrastructure (codes "record not found")) | some o ↦ ok o ]

  unfoldable pub get_by_id : String → Db → Result OrderError Order
  get_by_id id db = do
    found ← lift (d.first_order id db)
    elim found [ none ↦ err OrderError.order_not_found | some o ↦ ok o ]

  -- `List`: no limit unless it is above zero.
  unfoldable pub list : ℤ → Db → Result OrderError (List Order)
  list limit db =
      lift (d.recent_orders (if ltb_ℤ (pos 0) limit then some (pos_part limit) else none) db)

  -- The closure of `UpdateStatusWithOutbox`.
  unfoldable pub update_body :
      String → OrderStatus → OrderStatus → Minted → Db → Result OrderError (Order × Db)
  unfolding first_row
  update_body id expected next m db = do
    (affected, db₁) ← lift (d.set_status id expected next db)
    fail_if (eqb affected 0) OrderError.invalid_transition
    updated ← first_row id db₁
    msg ← new_order_status_changed_outbox m updated
    db₂ ← lift (d.insert_outbox msg db₁)
    ok (updated, db₂)

  unfoldable pub update_status_with_outbox :
      String → OrderStatus → OrderStatus → Minted → Db → Result OrderError Order × Db
  update_status_with_outbox id expected next m = d.transaction (update_body id expected next m)

  unfoldable pub delete : String → Db → Result OrderError (Unit {0}) × Db
  delete id db = elim (d.remove_order id db) [
    | err text ↦ (err (OrderError.infrastructure text), db)
    | ok (affected, db') ↦
        if eqb affected 0 then (err OrderError.order_not_found, db') else (ok tt, db')
  ]

pub lift-eq-ok {ℓ} : {A : Type ℓ} (r : Result (List ℕ) A) {a : A} → lift r ≡ ok a → r ≡ ok a
lift-eq-ok (ok a) h = cc
lift-eq-ok (err text) h = cc
