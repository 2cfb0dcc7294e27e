-- ===== src/Orders/Lifecycle.antt =====
-- What the operations of `OrderService` commit
-- (order-service/internal/service/order_service.go), other requests and workers included.
use fund_kit.Base.{ℕ, String, [], ◌≡◌, refl, inl, inr, true, false, arith, Result-cases, Bool-cases}
use fund_kit.Orders.Status.{OrderStatus, pending, processing, is_status, can_transition_status}
use fund_kit.Orders.Domain.{Order, NewOrder, Minted, before_create, transition}
use fund_kit.Orders.Database.{Database, IsLawful}
use fund_kit.Orders.Repository.{
  create_with_outbox, get_by_id, update_status_with_outbox, delete as delete_row,
}
use fund_kit.Orders.Reservation.{Redis, claim_idempotency}
use fund_kit.Orders.History.{
  trail, IsConsistent, Reach, here, after, create, move, remove, Reach-IsConsistent,
}
use fund_kit.Orders.Service.{
  State, order_of, place_reserved, place, update_status, delete, process_lifecycle, final_status,
}

Reach-trans : {d : Database} {a b c : d.Db} → Reach d a b → Reach d b c → Reach d a c
Reach-trans r here = r
Reach-trans r (after q st) = after (Reach-trans r q) st

module _ (d : Database) where
  open d use {Db, outbox}

  -- What others commit while an operation waits is made of the same transactions.
  abbrev pub IsInterference : (Db → Db) → Type 0
  IsInterference gap = (db : Db) → Reach d db (gap db)

  -- A request or a worker of the service, with what it mints and what runs beside it.
  pub data Operation : Type 0 where
    placing : String → Minted → NewOrder → Operation
    updating : String → OrderStatus → Minted → (gap : Db → Db) → IsInterference gap → Operation
    deleting : String → (gap : Db → Db) → IsInterference gap → Operation
    working :
        String
        → Minted
        → Minted
        → (gap₁ : Db → Db) → IsInterference gap₁
        → (gap₂ : Db → Db) → IsInterference gap₂
        → Operation

  -- `uuid.New` gives an id that no event bears.
  abbrev pub IsFresh : Db → Operation → Type 0
  IsFresh db (placing uuid m input) = trail uuid (outbox db) ≡ []
  IsFresh db _ = Unit

module _ (d : Database) (c : Redis) (ttl : ℕ) where
  open d use {Db}

  unfoldable pub perform : Operation d → State d c → State d c
  perform (placing uuid m input) s = (place d c ttl uuid m input s).1
  perform (updating id next m gap steps) s = (update_status d c ttl id next m gap s).1
  perform (deleting id gap steps) s = (delete d c ttl id gap s).1
  perform (working id m₁ m₂ gap₁ steps₁ gap₂ steps₂) s =
      process_lifecycle d c ttl id m₁ m₂ gap₁ gap₂ s

  place_reserved-Reach :
      (uuid : String) (m : Minted) (input : NewOrder) (s : State d c)
      → trail uuid (d.outbox s.db) ≡ []
      → Reach d s.db (place_reserved d c ttl uuid m input s).1.db
  unfolding place_reserved
  place_reserved-Reach uuid m input s fresh =
      let st : Reach d s.db (create_with_outbox d uuid m (order_of input) s.db).1 = after here (
        create uuid m (order_of input) s.db (unfold order_of in refl)
          (unfold order_of before_create in fresh)) in
      elim (Result-cases (create_with_outbox d uuid m (order_of input) s.db).0) [
        | inl (row, p) ↦ rw (p, place_reserved) st
        | inr (e, p) ↦ rw (p, place_reserved) st
      ]

  place-Reach :
      (uuid : String) (m : Minted) (input : NewOrder) (s : State d c)
      → trail uuid (d.outbox s.db) ≡ []
      → Reach d s.db (place d c ttl uuid m input s).1.db
  unfolding place
  place-Reach uuid m input s fresh =
      let claim = claim_idempotency c ttl input.idempotency_key s.cache in
      elim (Result-cases claim.0) [
        | inr (e, p) ↦ rw (p, place) here
        | inl (false, p) ↦ rw (p, place) here
        | inl (true, p) ↦
            rw (p, place) (place_reserved-Reach uuid m input (record s { cache = claim.1 }) fresh)
      ]

  -- A checked transition that is written after others have run.
  move-Reach :
      (id : String) (current next : OrderStatus) (m : Minted) (gap : Db → Db)
      → IsInterference d gap
      → (db : Db) → can_transition_status current next ≡ true
      → Reach d db (update_status_with_outbox d id current next m (gap db)).1
  move-Reach id current next m gap steps db legal =
      after (steps db) (move id current next m (gap db) legal)

  update_status-Reach :
      (id : String) (next : OrderStatus) (m : Minted) (gap : Db → Db)
      → IsInterference d gap
      → (s : State d c) → Reach d s.db (update_status d c ttl id next m gap s).1.db
  unfolding update_status transition
  update_status-Reach id next m gap steps s = elim (Result-cases (get_by_id d id s.db)) [
    | inr (e, p) ↦ rw (p, update_status) here
    | inl (order, p) ↦ elim (Bool-cases (can_transition_status order.status next)) [
      | inr illegal ↦ rw (p, update_status, illegal) here
      | inl legal ↦
          rw (p, update_status, legal) (move-Reach id order.status next m gap steps s.db legal)
    ]
  ]

  delete-Reach :
      (id : String) (gap : Db → Db)
      → IsInterference d gap
      → (s : State d c) → Reach d s.db (delete d c ttl id gap s).1.db
  unfolding delete
  delete-Reach id gap steps s = elim (Result-cases (get_by_id d id s.db)) [
    | inr (e, p) ↦ rw (p, delete) here
    | inl (order, p) ↦ elim (Bool-cases (is_status order.status pending)) [
      | inr started ↦ rw (p, delete, started) here
      | inl waiting ↦
          let st : Reach d s.db (delete_row d id (gap s.db)).1 =
            after (steps s.db) (remove id (gap s.db)) in
          elim (Result-cases (delete_row d id (gap s.db)).0) [
            | inl (u, q) ↦ rw (p, delete, waiting, q) st
            | inr (e, q) ↦ rw (p, delete, waiting, q) st
          ]
    ]
  ]

  final-legal : (o : Order) → can_transition_status processing (final_status o) ≡ true
  unfolding can_transition_status
  final-legal o = ground arith

  process_lifecycle-Reach :
      (id : String) (m₁ m₂ : Minted) (gap₁ : Db → Db)
      → IsInterference d gap₁
      → (gap₂ : Db → Db) → IsInterference d gap₂
      → (s : State d c) → Reach d s.db (process_lifecycle d c ttl id m₁ m₂ gap₁ gap₂ s).db
  unfolding process_lifecycle
  process_lifecycle-Reach id m₁ m₂ gap₁ steps₁ gap₂ steps₂ s =
      elim (Result-cases (get_by_id d id s.db)) [
        | inr (e, p) ↦ rw (p, process_lifecycle) here
        | inl (order, p) ↦ elim (Bool-cases (is_status order.status pending)) [
          | inr started ↦ rw (p, process_lifecycle, started) here
          | inl waiting ↦
              let step₁ = update_status_with_outbox d id pending processing m₁ (gap₁ s.db) in
              let st₁ : Reach d s.db step₁.1 =
                move-Reach id pending processing m₁ gap₁ steps₁ s.db
                  (unfold can_transition_status in refl) in
              elim (Result-cases step₁.0) [
                | inr (e, q) ↦ rw (p, process_lifecycle, waiting, q) st₁
                | inl (row₁, q) ↦
                    let step₂ =
                      update_status_with_outbox d id processing (final_status order) m₂
                        (gap₂ step₁.1) in
                    let st₂ : Reach d s.db step₂.1 = Reach-trans st₁ (
                      move-Reach id processing (final_status order) m₂ gap₂ steps₂ step₁.1
                        (final-legal order)) in
                    elim (Result-cases step₂.0) [
                      | inr (e, r) ↦ rw (p, process_lifecycle, waiting, q, r) st₂
                      | inl (row₂, r) ↦ rw (p, process_lifecycle, waiting, q, r) st₂
                    ]
              ]
        ]
      ]

  perform-Reach :
      (op : Operation d) (s : State d c) → IsFresh d s.db op → Reach d s.db (perform op s).db
  unfolding perform
  perform-Reach (placing uuid m input) s fresh = place-Reach uuid m input s fresh
  perform-Reach (updating id next m gap steps) s fresh = update_status-Reach id next m gap steps s
  perform-Reach (deleting id gap steps) s fresh = delete-Reach id gap steps s
  perform-Reach (working id m₁ m₂ gap₁ steps₁ gap₂ steps₂) s fresh =
      process_lifecycle-Reach id m₁ m₂ gap₁ steps₁ gap₂ steps₂ s

  -- Over a database that behaves as documented, every operation of the service keeps the outbox's
  -- history of each stored order a legal walk of the state machine from PENDING to the order's
  -- status, whatever transactions others commit between its statements, if the id of a new order is
  -- fresh.
  pub perform-IsConsistent :
      IsLawful d
      → (op : Operation d) (s : State d c) → IsFresh d s.db op
      → IsConsistent d s.db
      → IsConsistent d (perform op s).db
  perform-IsConsistent lawful op s fresh h =
      Reach-IsConsistent d lawful h (perform-Reach op s fresh)
