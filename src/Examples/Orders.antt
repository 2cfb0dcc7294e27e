-- ===== src/Examples/Orders.antt =====
-- Runs of the order service, whatever its statements answer.
use fund_kit.Base.{◌≤◌, update, List, [], ◌∷◌, ◌≡◌, refl, false, ok, err, ◌⊎◌}
use fund_kit.Orders.Status.{pending, processing}
use fund_kit.Orders.Domain.{new_order_status_changed_outbox, before_create, Order, OrderError}
use fund_kit.Orders.Repository.{create_with_outbox, create_body, update_status_with_outbox}
use fund_kit.Orders.Atomicity.{
  IsCreated, IsMoved, create_with_outbox_atomic, update_status_with_outbox_atomic,
}
use fund_kit.Orders.History.{IsConsistent}
use fund_kit.Orders.Service.{order_of, place}
use fund_kit.Orders.Reservation.{claim_idempotency}
use fund_kit.Orders.Idempotency.{Attempt, placed_count, one_order_per_key}
use fund_kit.Orders.Lifecycle.{placing, perform, perform-IsConsistent}
use fund_kit.Orders.Outcomes.{IsPlaced, IsRefused, place_outcome}
use fund_kit.Examples.Tables.{find, insert_order, transaction, postgres, postgres-IsLawful}
use fund_kit.Examples.Keys.{set_nx, redis, redis-IsLawfulRedis, redis-LeavesHeldKeys}
use fund_kit.Examples.Requests.{minted, minted_later, buy, empty_tables, empty, placed}

create_with_outbox_atomic_example :
    let (r, db') = create_with_outbox postgres "o1" minted (order_of buy) empty_tables in
    ((row : Order) × (r ≡ ok row)
      × IsCreated postgres "o1" minted (order_of buy) row empty_tables db')
    ⊎ ((e : OrderError) × (r ≡ err e) × (db' ≡ empty_tables))
create_with_outbox_atomic_example =
    create_with_outbox_atomic postgres postgres-IsLawful "o1" minted (order_of buy) empty_tables

update_status_with_outbox_atomic_example :
    let (r, db') =
      update_status_with_outbox postgres "o1" pending processing minted_later placed.db in
    ((row : Order) × (r ≡ ok row)
      × IsMoved postgres "o1" pending processing minted_later row placed.db db')
    ⊎ ((e : OrderError) × (r ≡ err e) × (db' ≡ placed.db))
update_status_with_outbox_atomic_example =
    update_status_with_outbox_atomic postgres postgres-IsLawful "o1" pending processing minted_later
      placed.db

place_outcome_example :
    let (r, s') = place postgres redis 600 "o1" minted buy empty in
    let claim = claim_idempotency redis 600 "k1" empty.cache in
    ((row : Order) × (r ≡ ok row) × IsPlaced postgres redis "o1" minted buy row empty s')
    ⊎ ((claim.0 ≡ ok false)
        × (r ≡ err OrderError.duplicate_order)
        × IsRefused postgres redis empty s'
        × (redis.held s'.cache ≡ redis.held empty.cache))
    ⊎ ((e : OrderError) × (r ≡ err e) × IsRefused postgres redis empty s')
place_outcome_example =
    place_outcome postgres redis 600 postgres-IsLawful redis-IsLawfulRedis "o1" minted buy empty

-- The same request again, with nothing between the two calls.
abbrev twice : List (Attempt postgres redis)
twice =
    record { uuid = "o1"; minted = minted; input = buy; others = λ s. s }
    ∷ record { uuid = "o2"; minted = minted_later; input = buy; others = λ s. s }
    ∷ []

one_of_two : placed_count postgres redis 600 twice empty ≡ 1
unfolding placed_count place find claim_idempotency set_nx create_with_outbox transaction
    create_body insert_order new_order_status_changed_outbox before_create update
one_of_two = refl

one_order_per_key_example : placed_count postgres redis 600 twice empty ≤ 1
one_order_per_key_example =
    one_order_per_key postgres redis 600 postgres-IsLawful redis-IsLawfulRedis redis-LeavesHeldKeys
      "k1" twice empty (refl, (λ s h. h), (refl, (λ s h. h), tt))

nothing_stored : IsConsistent postgres empty_tables
unfolding find
nothing_stored id o found = absurd (cc)

perform-IsConsistent_example :
    IsConsistent postgres (perform postgres redis 600 (placing "o1" minted buy) empty).db
perform-IsConsistent_example =
    perform-IsConsistent postgres redis 600 postgres-IsLawful (placing "o1" minted buy) empty refl
      nothing_stored
