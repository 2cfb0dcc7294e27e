-- ===== src/Orders/Service.antt =====
-- `OrderService`, order-service/internal/service/order_service.go. Its state is the database, the
-- cache and the lifecycle workers that it has started and that have not run yet. Logging is left out.
use fund_kit.Base.{ℕ, String, List, [], ◌∷◌, ◌++◌, Bool, not, Result, ok, err, if◌then◌else◌}
use fund_kit.Base.Int.{ℤ, pos, ltb_ℤ}
use fund_kit.Orders.Status.{OrderStatus, pending, processing, executed, failed, is_status}
use fund_kit.Orders.Domain.{Order, NewOrder, OrderError, Minted, transition}
use fund_kit.Orders.Database.{Database}
use fund_kit.Orders.Repository.{
  create_with_outbox, get_by_id, update_status_with_outbox, delete as delete_row, list as list_rows,
}
use fund_kit.Orders.Reservation.{Redis, claim_idempotency, confirm_idempotency, release_idempotency}

-- `Money.IsPositive`.
abbrev pub is_positive : ℤ → Bool
is_positive amount = ltb_ℤ (pos 0) amount

-- The order that `Place` fills in from the command.
unfoldable pub order_of : NewOrder → Order
order_of input = record {
  id = "";
  user_id = input.user_id;
  user_name = input.user_name;
  user_email = input.user_email;
  user_phone = input.user_phone;
  fund_id = input.fund_id;
  amount = input.amount;
  type = input.type;
  status = pending;
  idempotency_key = input.idempotency_key;
  created_at = 0;
  updated_at = 0;
}

-- The status that `processLifecycle` ends an order in.
abbrev pub final_status : Order → OrderStatus
final_status order = if not (is_positive order.amount) then failed else executed

module _ (d : Database) (c : Redis) where
  pub record State : Type 0 where
    pub db : d.Db
    pub cache : c.Cache
    pub in_flight : List String

module _ (d : Database) (c : Redis) (ttl : ℕ) where
  open d use {Db}

  -- The part of `Place` below the reservation. A failed release is only logged.
  unfoldable pub place_reserved :
      String → Minted → NewOrder → State d c → Result OrderError Order × State d c
  unfolding order_of
  place_reserved uuid m input s =
      let (r, db') = create_with_outbox d uuid m (order_of input) s.db in
      elim r [
        | err e ↦ (
          err e,
          record s {
            db = db';
            cache = (release_idempotency c ttl input.idempotency_key s.cache).1;
          },
        )
        | ok row ↦ (ok row, record s { db = db'; in_flight = s.in_flight ++ row.id ∷ [] })
      ]

  unfoldable pub place :
      String → Minted → NewOrder → State d c → Result OrderError Order × State d c
  unfolding place_reserved
  place uuid m input s =
      let (r, cache') = claim_idempotency c ttl input.idempotency_key s.cache in
      let t = record s { cache = cache' } in
      elim r [
        | err e ↦ (err e, t)
        | ok claimed ↦
            if claimed then place_reserved uuid m input t else (err OrderError.duplicate_order, t)
      ]

  -- `List` and `Get`.
  unfoldable pub list : ℤ → State d c → Result OrderError (List Order)
  list limit s = list_rows d limit s.db

  unfoldable pub get : String → State d c → Result OrderError Order
  get id s = get_by_id d id s.db

  -- `UpdateStatus`. `gap` is what other requests and workers commit between its read and its write.
  unfoldable pub update_status :
      String → OrderStatus → Minted → (Db → Db) → State d c → Result OrderError Order × State d c
  update_status id next m gap s = elim (get_by_id d id s.db) [
    | err e ↦ (err e, s)
    | ok order ↦ elim (transition order next) [
      | err e ↦ (err e, s)
      | ok moved ↦
          let (r, db') = update_status_with_outbox d id order.status next m (gap s.db) in
          (r, record s { db = db' })
    ]
  ]

  -- `Delete`. A failed release is only logged.
  unfoldable pub delete : String → (Db → Db) → State d c → Result OrderError (Unit {0}) × State d c
  delete id gap s = elim (get_by_id d id s.db) [
    | err e ↦ (err e, s)
    | ok order ↦
        if not (is_status order.status pending)
        then (err OrderError.order_not_cancelable, s)
        else (let (r, db') = delete_row d id (gap s.db) in
            elim r [
              | err e ↦ (err e, record s { db = db' })
              | ok done ↦ (
                ok tt,
                record s {
                  db = db';
                  cache = (release_idempotency c ttl order.idempotency_key s.cache).1;
                },
              )
            ])
  ]

  -- `processLifecycle`. Its errors are only logged; `gap₁` and `gap₂` are what others commit
  -- between its three statements.
  unfoldable pub process_lifecycle :
      String → Minted → Minted → (Db → Db) → (Db → Db) → State d c → State d c
  process_lifecycle id m₁ m₂ gap₁ gap₂ s = elim (get_by_id d id s.db) [
    | err e ↦ s
    | ok order ↦
        if not (is_status order.status pending)
        then s
        else (let (r₁, db₁) = update_status_with_outbox d id pending processing m₁ (gap₁ s.db) in
            elim r₁ [
              | err e ↦ record s { db = db₁ }
              | ok row₁ ↦
                  let (r₂, db₂) =
                    update_status_with_outbox d id processing (final_status order) m₂ (gap₂ db₁) in
                  elim r₂ [
                    | err e ↦ record s { db = db₂ }
                    | ok row₂ ↦ record s {
                      db = db₂;
                      cache = (confirm_idempotency c ttl order.idempotency_key s.cache).1;
                    }
                  ]
            ])
  ]
