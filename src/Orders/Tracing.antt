-- ===== src/Orders/Tracing.antt =====
-- The correlation id of a request to `POST /orders`: order-service/internal/handler/middleware.go,
-- order-service/internal/service/order_service.go, order-service/internal/domain/outbox.go and
-- order-service/internal/messaging/kafka.go.
use fund_kit.Base.{
  ℕ, String, List, [], ◌∷◌, ◌++◌, some, ◌≡◌, sym, ap, Result, ok, ok-injective, inl, inr,
  Option-cases, update,
}
use fund_kit.Http.{Headers, get_header, set_header}
use fund_kit.Orders.Domain.{Order, OutboxMessage, Minted, new_order_status_changed_outbox}
use fund_kit.Orders.Database.{Database, IsLawful}
use fund_kit.Orders.Reservation.{Redis, IsLawfulRedis}
use fund_kit.Orders.Service.{State}
use fund_kit.Orders.Identity.{identity_from_headers}
use fund_kit.Orders.Handlers.{
  CreateOrderRequest, Reply, order, create_order, new_order_of, resolve_order_user_id,
}
use fund_kit.Orders.Placing.{create_order-place, place-IsPlaced}
use fund_kit.Orders.Router.{
  Gin, Route, routes, Request, Moment, Answer, orders, create_one, request_id, ensure_context,
  serve,
}

pub outbox-request_id :
    (m : Minted) (row : Order) {msg : OutboxMessage}
    → new_order_status_changed_outbox m row ≡ ok msg
    → (msg.request_id ≡ m.request_id) × (msg.payload.request_id ≡ m.request_id)
unfolding new_order_status_changed_outbox
outbox-request_id m row {msg} e = elim (Option-cases m.marshal_error) [
  | inl q ↦
      let e' = ok-injective (rw q at e) in
      (ap (λ x. x.request_id) (sym e'), ap (λ x. x.payload.request_id) (sym e'))
  | inr (text, q) ↦ absurd (cc (rw q at e))
]

-- The newest row of the outbox, and the event in it, carry this id.
abbrev pub IsTagged : (d : Database) → String → d.Db → d.Db → OutboxMessage → Type 0
IsTagged d id db db' msg =
    (d.outbox db' ≡ d.outbox db ++ msg ∷ []) × (msg.request_id ≡ id) × (msg.payload.request_id ≡ id)

pub orders-injective :
    {Pnl : Type 0} {a b : Reply} → ◌≡◌ {A = Answer Pnl} (orders a) (orders b) → a ≡ b
orders-injective h = cc

module _ (d : Database) (c : Redis) (ttl : ℕ) (lawful : IsLawful d) (sound : IsLawfulRedis c) where
  create_order-IsTagged :
      (uuid : String) (m : Minted) (invalid : List ℕ) (h : Headers)
      (body : Result (List ℕ) CreateOrderRequest) (s : State d c) {row : Order} {s' : State d c}
      → create_order d c ttl uuid m invalid h body s
        ≡ (record { status = 201; body = order row }, s')
      → (msg : OutboxMessage) × IsTagged d m.request_id s.db s'.db msg
  create_order-IsTagged uuid m invalid h body s {row} e =
      let (request, bound, valid, (named, made)) =
        create_order-place d c ttl uuid m invalid h body s e in
      let user_id = resolve_order_user_id (identity_from_headers h) request in
      let input = new_order_of (identity_from_headers h) user_id request in
      let (i, msg, q, grown) = (place-IsPlaced d c ttl lawful sound uuid m input s made).0.2.1 in
      let (own, inner) = outbox-request_id m row q in (record msg { id = i }, (grown, own, inner))

  module _ (Pnl : Type 0) (gin : Gin) where
    pub serve-IsTagged :
        (t : Moment Pnl d c ttl gin) (r : Request) (s : State d c) {matched : Route}
        {params : String → String} {row : Order} {out : Headers} {s' : State d c}
        → gin routes r.method r.path ≡ some (matched, params)
        → matched.endpoint ≡ create_one
        → serve Pnl d c ttl gin t r s
          ≡ (orders (record { status = 201; body = order row }), out, s')
        → let id = ensure_context t.new_id (get_header r.headers "x-request-id") in
          (get_header out "x-request-id" ≡ id)
          × ((msg : OutboxMessage) × IsTagged d id s.db s'.db msg)
    unfolding serve request_id set_header update
    serve-IsTagged t r s {matched} {params} {row} {out} {s'} routed creates e =
        let id = ensure_context t.new_id (get_header r.headers "x-request-id") in
        let e' = rw (routed, creates, serve) at e in
        let m = record t.minted { request_id = id } in
        let made = orders-injective (ap (λ x. x.0) e') in
        let after = ap (λ x. x.2) e' in
        (
          ap (λ x. get_header x.1 "x-request-id") (sym e'),
          create_order-IsTagged t.uuid m t.invalid r.headers r.new_order s (λ i. (made i, after i)),
        )
