-- ===== src/Orders/LongIds.antt =====
-- The column of the outbox for the correlation id, order-service/internal/domain/outbox.go, and the
-- requests whose id is longer: order-service/internal/handler/middleware.go,
-- order-service/internal/service/order_service.go and
-- order-service/internal/repository/order_repository.go.
use fund_kit.Base.{
  ℕ, ◌<◌, String, codes, List, length, some, ◌≡◌, ◌≢◌, refl, sym, ap, subst, true, false,
  Bool-cases, inl, inr, Result, ok, err, Result-cases, ◌==◌, text-ne, arith,
}
use fund_kit.Base.Text.{trim_space}
use fund_kit.Http.{Headers, get_header}
use fund_kit.Orders.Domain.{
  Order, OutboxMessage, NewOrder, OrderError, Minted, before_create,
  new_order_status_changed_outbox,
}
use fund_kit.Orders.Database.{Database, IsLawful}
use fund_kit.Orders.Repository.{create_body, create_with_outbox, classify}
use fund_kit.Orders.Reservation.{Redis, claim_idempotency}
use fund_kit.Orders.Service.{State, order_of, place_reserved, place}
use fund_kit.Orders.Outcomes.{IsRefused}
use fund_kit.Orders.Identity.{identity_from_headers}
use fund_kit.Orders.Handlers.{
  CreateOrderRequest, order, create_order, new_order_of, resolve_order_user_id, is_valid_create,
  bind,
}
use fund_kit.Orders.Router.{
  Gin, Route, routes, Request, Moment, orders, create_one, request_id, ensure_context, serve,
}
use fund_kit.Orders.Placing.{create_order-place}
use fund_kit.Orders.Tracing.{outbox-request_id, orders-injective}

-- A character column of 64: PostgreSQL refuses a row with a longer value.
pub record LimitsRequestId (d : Database) : Type 0 where
  pub too_long :
      (msg : OutboxMessage) (db : d.Db)
      → 64 < length (codes msg.request_id)
      → (text : List ℕ) × (d.insert_outbox msg db ≡ err text)

ensure_context-long :
    (id inbound : String)
    → 64 < length (codes (trim_space inbound))
    → ensure_context id inbound ≡ trim_space inbound
unfolding ensure_context
ensure_context-long id inbound long =
    let blank : trim_space inbound ≢ "" =
      λ e. let short : 64 < 0 = subst (λ x. 64 < length (codes x)) e long in omega arith in
    let present = text-ne (trim_space inbound) "" blank in rw present refl

module _ (d : Database) (limited : LimitsRequestId d) where
  create_body-long :
      (uuid : String) (m : Minted) (o : Order) (db : d.Db)
      → 64 < length (codes m.request_id)
      → (e : OrderError) × (create_body d uuid m o db ≡ err e)
  unfolding create_body
  create_body-long uuid m o db long =
      elim (Result-cases (d.insert_order (before_create uuid o) db)) [
        | inr (text, p) ↦ (OrderError.infrastructure text, rw p refl)
        | inl ((row, db₁), p) ↦ elim (Result-cases (new_order_status_changed_outbox m row)) [
          | inr (e, q) ↦ (e, rw (p, q) refl)
          | inl (msg, q) ↦
              let own = (outbox-request_id m row q).0 in
              let (text, r) =
                limited.too_long msg db₁ (subst (λ x. 64 < length (codes x)) (sym own) long) in
              (OrderError.infrastructure text, rw (p, q, r) refl)
        ]
      ]

  module _ (lawful : IsLawful d) where
    create_with_outbox-long :
        (uuid : String) (m : Minted) (o : Order) (db : d.Db)
        → 64 < length (codes m.request_id)
        → (e : OrderError) × (create_with_outbox d uuid m o db ≡ (err e, db))
    unfolding create_with_outbox classify
    create_with_outbox-long uuid m o db long =
        let (e, failed) = create_body-long uuid m o db long in
        let back = lawful.transaction_rolled_back (create_body d uuid m o) db failed in
        (_, ap (λ x. (classify x.0, x.1)) back)

    module _ (c : Redis) (ttl : ℕ) where
      place-long :
          (uuid : String) (m : Minted) (input : NewOrder) (s : State d c)
          → 64 < length (codes m.request_id)
          → let (r, s') = place d c ttl uuid m input s in
            ((e : OrderError) × (r ≡ err e)) × IsRefused d c s s'
      unfolding place place_reserved
      place-long uuid m input s long =
          elim (Result-cases (claim_idempotency c ttl input.idempotency_key s.cache).0) [
            | inr (e, p) ↦ rw (p, place) ((e, refl), (refl, refl))
            | inl (false, p) ↦ rw (p, place) ((OrderError.duplicate_order, refl), (refl, refl))
            | inl (true, p) ↦
                let (e, failed) = create_with_outbox-long uuid m (order_of input) s.db long in
                rw (p, place, place_reserved, failed) ((e, refl), (ap (λ x. x.1) failed, refl))
          ]

      create_order-long :
          (uuid : String) (m : Minted) (invalid : List ℕ) (h : Headers)
          (body : Result (List ℕ) CreateOrderRequest) (s : State d c)
          → 64 < length (codes m.request_id)
          → let (reply, s') = create_order d c ttl uuid m invalid h body s in
            IsRefused d c s s' × ((row : Order) → reply ≢ record { status = 201; body = order row })
      unfolding create_order
      create_order-long uuid m invalid h body s long =
          let s' = (create_order d c ttl uuid m invalid h body s).1 in
          (
            elim (Result-cases (bind invalid is_valid_create body)) [
              | inr (text, p) ↦ rw (p, create_order) (refl, refl)
              | inl (request, p) ↦
                  let caller = identity_from_headers h in
                  let user_id = resolve_order_user_id caller request in
                  let refused =
                    (place-long uuid m (new_order_of caller user_id request) s long).1 in
                  elim (Bool-cases (user_id == "")) [
                    | inl anonymous ↦ rw (p, anonymous, create_order) (refl, refl)
                    | inr named ↦ rw (p, named, create_order) refused
                  ]
            ],
            λ row answered.
                let (request, bound, valid, (named, made)) =
                  create_order-place d c ttl uuid m invalid h body s {row = row} {s' = s'}
                    (λ i. (answered i, s')) in
                let caller = identity_from_headers h in
                let input = new_order_of caller (resolve_order_user_id caller request) request in
                let ((e, failed), refused) = place-long uuid m input s long in
                let placed : (place d c ttl uuid m input s).0 ≡ ok row = ap (λ x. x.0) made in
                cc (failed, placed),
          )

      module _ (Pnl : Type 0) (gin : Gin) where
        -- If the database behaves as documented and the column of the outbox takes 64 characters,
        -- then a request to `POST /orders` under a longer correlation id, which the client chooses,
        -- stores no order and no event, starts no worker, and is not answered with an order,
        -- whatever its body says.
        pub long_request_id-IsRefused :
            (t : Moment Pnl d c ttl gin) (r : Request) (s : State d c) {matched : Route}
            {params : String → String}
            → gin routes r.method r.path ≡ some (matched, params)
            → matched.endpoint ≡ create_one
            → 64 < length (codes (trim_space (get_header r.headers "x-request-id")))
            → let (answer, out, s') = serve Pnl d c ttl gin t r s in
              IsRefused d c s s'
              × ((row : Order) → answer ≢ orders (record { status = 201; body = order row }))
        unfolding serve request_id
        long_request_id-IsRefused t r s {matched} {params} routed creates long =
            let id = ensure_context t.new_id (get_header r.headers "x-request-id") in
            let m = record t.minted { request_id = id } in
            let long' : 64 < length (codes id) =
              subst (λ x. 64 < length (codes x)) (sym (ensure_context-long t.new_id _ long)) long in
            let (refused, unanswered) =
              create_order-long t.uuid m t.invalid r.headers r.new_order s long' in
            rw (routed, creates, serve)
              (refused, λ row answered. unanswered row (orders-injective answered))
