-- ===== src/Orders/Handlers.antt =====
-- `OrderHandler` and `PortfolioHandler`,
-- order-service/internal/handler/{order_handler,portfolio_handler}.go. A reply is a status and a body;
-- a request's body is what the JSON decoder made of it, or the text of its error.
use fund_kit.Base.{
  ℕ, String, codes, List, none, some, Bool, ◌&&◌, ◌||◌, not, ◌==◌, if◌then◌else◌, Result, ok, err,
}
use fund_kit.Base.Int.{ℤ, pos, ltb_ℤ}
use fund_kit.Base.Decimal.{parse_int}
use fund_kit.Http.{Headers}
use fund_kit.Orders.Status.{OrderStatus, pending, processing, executed, failed, is_status}
use fund_kit.Orders.Domain.{Order, NewOrder, OrderError, Minted}
use fund_kit.Orders.Database.{Database}
use fund_kit.Orders.Repository.{message}
use fund_kit.Orders.Reservation.{Redis}
use fund_kit.Orders.Service.{State, place, update_status, delete, list, get, is_positive}
use fund_kit.Orders.Identity.{CallerIdentity, identity_from_headers, display_name}

pub record CreateOrderRequest : Type 0 where
  pub user_id : String
  pub fund_id : String
  pub amount : ℤ
  pub type : String
  pub idempotency_key : String

pub data Body : Type 0 where
  order : Order → Body
  orders : List Order → Body
  message_body : List ℕ → Body
  error : List ℕ → Body

pub record Reply : Type 0 where
  pub status : ℕ
  pub body : Body

abbrev pub error_reply : ℕ → List ℕ → Reply
error_reply status text = record { status = status; body = error text }

unfoldable pub write_domain_error : OrderError → Reply
unfolding message
write_domain_error OrderError.order_not_found = error_reply 404 (message OrderError.order_not_found)
write_domain_error OrderError.duplicate_order = error_reply 409 (message OrderError.duplicate_order)
write_domain_error OrderError.invalid_transition =
    error_reply 409 (message OrderError.invalid_transition)
write_domain_error OrderError.order_not_cancelable =
    error_reply 409 (message OrderError.order_not_cancelable)
write_domain_error (OrderError.infrastructure text) =
    error_reply 500 (codes "internal server error")

-- The reply to an order, or to the error of the service.
abbrev pub answer {ℓ} : {A : Type ℓ} → (A → Reply) → Result OrderError A → Reply
answer success (ok a) = success a
answer success (err e) = write_domain_error e

-- The `binding` tags of `createOrderRequest` and of `updateOrderStatusRequest`.
unfoldable pub is_valid_create : CreateOrderRequest → Bool
is_valid_create r =
    not (r.fund_id == "")
    && is_positive r.amount
    && (r.type == "SIP" || r.type == "LUMPSUM")
    && not (r.idempotency_key == "")

unfoldable pub is_valid_status : OrderStatus → Bool
is_valid_status s =
    is_status s pending || is_status s processing || is_status s executed || is_status s failed

-- `ShouldBindJSON`: `invalid` is the text of the validator's error.
abbrev pub bind {ℓ} : {A : Type ℓ} → List ℕ → (A → Bool) → Result (List ℕ) A → Result (List ℕ) A
bind invalid is_valid (err text) = err text
bind invalid is_valid (ok request) = if is_valid request then ok request else err invalid

-- The customer whom an order is placed for: the forwarded identity, and otherwise the body's.
unfoldable pub resolve_order_user_id : CallerIdentity → CreateOrderRequest → String
resolve_order_user_id caller request =
    if caller.user_id == "" then request.user_id else caller.user_id

unfoldable pub new_order_of : CallerIdentity → String → CreateOrderRequest → NewOrder
new_order_of caller user_id request = record {
  user_id = user_id;
  user_name = display_name caller;
  user_email = caller.email;
  user_phone = caller.phone;
  fund_id = request.fund_id;
  amount = request.amount;
  type = request.type;
  idempotency_key = request.idempotency_key;
}

-- The limit of a listing: the query's when it is a number between 1 and 500, and otherwise 100.
unfoldable pub list_limit : String → ℤ
list_limit raw = elim (parse_int (codes raw)) [
  | none ↦ pos 100
  | some parsed ↦
      if not (raw == "") && ltb_ℤ (pos 0) parsed && not (ltb_ℤ (pos 500) parsed)
      then parsed
      else pos 100
]

module _ (d : Database) (c : Redis) (ttl : ℕ) where
  open d use {Db}

  -- `POST /orders`.
  unfoldable pub create_order :
      String
      → Minted
      → List ℕ
      → Headers
      → Result (List ℕ) CreateOrderRequest
      → State d c
      → Reply × State d c
  create_order uuid m invalid h body s = elim (bind invalid is_valid_create body) [
    | err text ↦ (error_reply 400 text, s)
    | ok request ↦
        let caller = identity_from_headers h in
        let user_id = resolve_order_user_id caller request in
        let (r, s') = place d c ttl uuid m (new_order_of caller user_id request) s in
        if user_id == ""
        then (error_reply 400 (codes "user_id is required"), s)
        else (answer (λ o. record { status = 201; body = order o }) r, s')
  ]

  -- `GET /orders`; `raw` is the query parameter `limit`.
  unfoldable pub list_orders : String → State d c → Reply
  list_orders raw s =
      answer (λ os. record { status = 200; body = orders os }) (list d c ttl (list_limit raw) s)

  -- `GET /orders/:id`.
  unfoldable pub get_order : String → State d c → Reply
  get_order id s = answer (λ o. record { status = 200; body = order o }) (get d c ttl id s)

  -- `PATCH /orders/:id`.
  unfoldable pub update_order_status :
      String
      → Minted
      → List ℕ
      → (Db → Db)
      → Result (List ℕ) OrderStatus
      → State d c
      → Reply × State d c
  update_order_status id m invalid gap body s = elim (bind invalid is_valid_status body) [
    | err text ↦ (error_reply 400 text, s)
    | ok next ↦
        let (r, s') = update_status d c ttl id next m gap s in
        (answer (λ o. record { status = 200; body = order o }) r, s')
  ]

  -- `DELETE /orders/:id`.
  unfoldable pub delete_order : String → (Db → Db) → State d c → Reply × State d c
  delete_order id gap s =
      let (r, s') = delete d c ttl id gap s in
      (
        answer
            (λ done. record {
              status = 200;
              body = message_body (codes "order deleted successfully");
            })
            r,
        s',
      )
