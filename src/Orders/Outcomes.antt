-- ===== src/Orders/Outcomes.antt =====
-- What `Place` and the lifecycle worker achieve, branch by branch
-- (order-service/internal/service/order_service.go).
use fund_kit.Base.{
  ℕ, String, List, [], ◌∷◌, ◌++◌, some, ◌≡◌, ap, ◌∙◌, ◌⊎◌, inl, inr, true, false, update_self,
  Result, ok, err, Result-cases,
}
use fund_kit.Orders.Status.{OrderStatus}
use fund_kit.Orders.Domain.{Order, NewOrder, OrderError, Minted, duplicate_order}
use fund_kit.Orders.Database.{Database, IsLawful}
use fund_kit.Orders.Reservation.{Redis, IsLawfulRedis, idempotency_key, claim_idempotency}
use fund_kit.Orders.Atomicity.{IsCreated, create_with_outbox_atomic}
use fund_kit.Orders.History.{trail}
use fund_kit.Orders.Service.{State, order_of, place_reserved, place}

module _ (d : Database) (c : Redis) where
  -- The order and its event are stored, its reservation is held and its worker has started.
  abbrev pub IsPlaced : String → Minted → NewOrder → Order → State d c → State d c → Type 0
  IsPlaced uuid m input row s s' =
      IsCreated d uuid m (order_of input) row s.db s'.db
      × (c.held s'.cache (idempotency_key input.idempotency_key) ≡ some "processing")
      × (s'.in_flight ≡ s.in_flight ++ row.id ∷ [])

  -- Nothing was stored and no worker was started.
  abbrev pub IsRefused : State d c → State d c → Type 0
  IsRefused s s' = (s'.db ≡ s.db) × (s'.in_flight ≡ s.in_flight)

module _ (d : Database) where
  open d use {Db, orders, outbox}

  -- A statement of the worker has ended in an error.
  abbrev pub HasFailed : Result OrderError Order × Db → Type 0
  HasFailed r = (e : OrderError) × (r.0 ≡ err e)

  -- The order is stored in this status, and these statuses have been reported since `db`.
  abbrev pub IsAt : String → OrderStatus → List OrderStatus → Db → Db → Type 0
  IsAt id status reported db db' =
      (row : Order) × (orders db' id ≡ some row)
      × (row.status ≡ status)
      × (trail id (outbox db') ≡ trail id (outbox db) ++ reported)

module _ (d : Database) (c : Redis) (ttl : ℕ) (lawful : IsLawful d) (sound : IsLawfulRedis c) where
  open d use {Db, orders, outbox}

  place_reserved_outcome :
      (uuid : String) (m : Minted) (input : NewOrder) (s : State d c)
      → let (r, s') = place_reserved d c ttl uuid m input s in
        ((row : Order) × (r ≡ ok row)
          × IsCreated d uuid m (order_of input) row s.db s'.db
          × (s'.cache ≡ s.cache)
          × (s'.in_flight ≡ s.in_flight ++ row.id ∷ []))
        ⊎ ((e : OrderError) × (r ≡ err e) × IsRefused d c s s')
  unfolding place_reserved
  place_reserved_outcome uuid m input s =
      elim (create_with_outbox_atomic d lawful uuid m (order_of input) s.db) [
        | inr (e, q, same) ↦
            inr (e, rw (q, place_reserved), (rw (q, place_reserved) same, rw (q, place_reserved)))
        | inl (row, q, created) ↦ inl (
          row,
          rw (q, place_reserved),
          rw (q, place_reserved) created,
          rw (q, place_reserved),
          rw (q, place_reserved),
        )
      ]

  -- Over a database and a Redis that behave as documented, `Place` ends in one of three ways. It
  -- stores the order with its event, holds the reservation and starts one worker. Or the key was
  -- held already: the error is `ErrDuplicateOrder`, nothing is stored or started, and the
  -- reservations are as they were. Or it returns an error, and nothing is stored or started.
  pub place_outcome :
      (uuid : String) (m : Minted) (input : NewOrder) (s : State d c)
      → let (r, s') = place d c ttl uuid m input s in
        let claim = claim_idempotency c ttl input.idempotency_key s.cache in
        ((row : Order) × (r ≡ ok row) × IsPlaced d c uuid m input row s s')
        ⊎ ((claim.0 ≡ ok false)
            × (r ≡ err duplicate_order)
            × IsRefused d c s s'
            × (c.held s'.cache ≡ c.held s.cache))
        ⊎ ((e : OrderError) × (r ≡ err e) × IsRefused d c s s')
  unfolding place claim_idempotency
  place_outcome uuid m input s =
      let key = idempotency_key input.idempotency_key in
      let claim = claim_idempotency c ttl input.idempotency_key s.cache in
      elim (Result-cases claim.0) [
        | inr (e, p) ↦ inr (inr (e, rw (p, place), (rw (p, place), rw (p, place))))
        | inl (false, p) ↦
            let same = sound.set_nx_refused key "processing" ttl s.cache (λ i. (p i, claim.1)) in
            inr (inl (p, rw (p, place), (rw (p, place), rw (p, place)), rw (p, place) same))
        | inl (true, p) ↦
            let held = sound.set_nx_taken key "processing" ttl s.cache (λ i. (p i, claim.1)) in
            elim (place_reserved_outcome uuid m input (record s { cache = claim.1 })) [
              | inr (e, q, refused) ↦ inr (inr (e, rw (p, place) q, rw (p, place) refused))
              | inl (row, q, created, same, started) ↦ inl (
                row,
                rw (p, place) q,
                (
                  rw (p, place) created,
                  rw (p, place)
                      (ap (λ x. c.held x key) same
                        ∙ ap (λ f. f key) held.1
                        ∙ update_self (c.held s.cache) key (some "processing")),
                  rw (p, place) started,
                ),
              )
            ]
      ]
