-- ===== src/Orders/Domain.antt =====
-- The order aggregate and its outbox record,
-- order-service/internal/domain/{order,outbox}.go. A `time.Time` is a count of ticks.
use fund_kit.Base.{ℕ, String, List, Option, none, some, ◌==◌, if◌then◌else◌, Result, ok, err}
use fund_kit.Base.Int.{ℤ}
use fund_kit.Orders.Status.{OrderStatus, can_transition_status}

-- Sentinel errors, and the text of an error of the database, Redis or the serialiser.
pub data OrderError : Type 0 where
  order_not_found duplicate_order order_not_cancelable : OrderError
  invalid_transition : OrderError
  infrastructure : List ℕ → OrderError

pub record Order : Type 0 where
  pub id : String
  pub user_id : String
  pub user_name : String
  pub user_email : String
  pub user_phone : String
  pub fund_id : String
  pub amount : ℤ  -- paise
  pub type : String
  pub status : OrderStatus
  pub idempotency_key : String
  pub created_at : ℕ
  pub updated_at : ℕ

pub record NewOrder : Type 0 where
  pub user_id : String
  pub user_name : String
  pub user_email : String
  pub user_phone : String
  pub fund_id : String
  pub amount : ℤ
  pub type : String
  pub idempotency_key : String

-- `Order.Transition`, which changes the order in memory.
unfoldable pub transition : Order → OrderStatus → Result OrderError Order
transition o next =
    if can_transition_status o.status next
    then ok (record o { status = next })
    else err OrderError.invalid_transition

-- `Order.BeforeCreate`, the hook that runs on an insert; `uuid` is what `uuid.New` returns.
unfoldable pub before_create : String → Order → Order
before_create uuid o = if o.id == "" then record o { id = uuid } else o

pub data OutboxStatus : Type 0 where
  pending processed failed : OutboxStatus

abbrev pub aggregate_order : String
aggregate_order = "order"

abbrev pub event_order_status_changed : String
event_order_status_changed = "order.status_changed"

abbrev pub order_event_version : ℕ
order_event_version = 2

-- The envelope on the wire.
pub record OrderEvent : Type 0 where
  pub event_id : String
  pub event_type : String
  pub version : ℕ
  pub occurred_at : ℕ
  pub request_id : String
  pub order : Order

-- The payload's bytes are kept as the envelope that they encode.
pub record OutboxMessage : Type 0 where
  pub id : ℕ
  pub aggregate_type : String
  pub aggregate_id : String
  pub event_type : String
  pub payload : OrderEvent
  pub request_id : String
  pub status : OutboxStatus
  pub attempts : ℕ
  pub last_error : List ℕ
  pub created_at : ℕ
  pub processed_at : Option ℕ

-- What a call reads from outside: the event id of `uuid.New`, the time of `time.Now`, the
-- correlation id of the request, and what `json.Marshal` reports.
pub record Minted : Type 0 where
  pub event_id : String
  pub now : ℕ
  pub request_id : String
  pub marshal_error : Option (List ℕ)

-- `NewOrderStatusChangedOutbox`. The id is the table's to assign.
unfoldable pub new_order_status_changed_outbox : Minted → Order → Result OrderError OutboxMessage
new_order_status_changed_outbox m o = elim m.marshal_error [
  | some text ↦ err (OrderError.infrastructure text)
  | none ↦ ok (record {
    id = 0;
    aggregate_type = aggregate_order;
    aggregate_id = o.id;
    event_type = event_order_status_changed;
    payload = record {
      event_id = m.event_id;
      event_type = event_order_status_changed;
      version = order_event_version;
      occurred_at = m.now;
      request_id = m.request_id;
      order = o;
    };
    request_id = m.request_id;
    status = OutboxStatus.pending;
    attempts = 0;
    last_error = List.[];
    created_at = m.now;
    processed_at = none;
  })
]
