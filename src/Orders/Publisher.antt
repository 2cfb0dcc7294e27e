-- ===== src/Orders/Publisher.antt =====
-- `Publisher`, order-service/internal/messaging/kafka.go, over the Kafka writer: the message that it
-- sends and its error. A nil publisher, or one without a writer, sends nothing and reports no error.
-- The payload's bytes are kept as the envelope that they encode; metrics and logging are left out.
use fund_kit.Base.{ℕ, String, codes, List, [], ◌∷◌, ◌++◌, Option, none, some, Result, ok, err}
use fund_kit.Base.Decimal.{format_int}
use fund_kit.Orders.Domain.{
  Order, OrderEvent, OutboxMessage, event_order_status_changed, order_event_version,
}

pub record ProducerHeader : Type 0 where
  pub key : String
  pub value : List ℕ

pub record ProducerMessage : Type 0 where
  pub key : String
  pub value : OrderEvent
  pub headers : List ProducerHeader

-- `trace.HeaderKey`.
abbrev pub header_key : String
header_key = "x-request-id"

-- The message of `PublishOutbox`.
unfoldable pub outbox_message : OutboxMessage → ProducerMessage
outbox_message msg = record {
  key = msg.aggregate_id;
  value = msg.payload;
  headers =
      record { key = header_key; value = codes msg.request_id }
      ∷ record { key = "event-type"; value = codes msg.event_type }
      ∷ record { key = "aggregate-type"; value = codes msg.aggregate_type }
      ∷ record { key = "outbox-id"; value = format_int msg.id }
      ∷ [];
}

-- The envelope and the message of `PublishOrderStatusChanged`; `id` is what `trace.NewID` returns and
-- `request_id` what the context carries.
unfoldable pub status_changed_event : String → ℕ → String → Order → OrderEvent
status_changed_event id now request_id order = record {
  event_id = id;
  event_type = event_order_status_changed;
  version = order_event_version;
  occurred_at = now;
  request_id = request_id;
  order = order;
}

unfoldable pub status_changed_message : OrderEvent → ProducerMessage
status_changed_message event = record {
  key = event.order.id;
  value = event;
  headers =
      record { key = header_key; value = codes event.request_id }
      ∷ record { key = "event-type"; value = codes event.event_type }
      ∷ [];
}

-- An error with the step that it comes from.
abbrev wrapped : List ℕ → Result (List ℕ) (Unit {0}) → Result (List ℕ) (Unit {0})
wrapped step (ok done) = ok done
wrapped step (err text) = err (step ++ text)

-- `WriteMessages` of the publisher's writer, where there is one.
abbrev pub Writer : Type 0 → Type 0
Writer P = Option (ProducerMessage → P → Result (List ℕ) (Unit {0}) × P)

module _ {P : Type 0} where
  unfoldable pub publish_outbox : Writer P → OutboxMessage → P → Result (List ℕ) (Unit {0}) × P
  unfolding outbox_message
  publish_outbox none msg p = (ok tt, p)
  publish_outbox (some write) msg p =
      let (r, p') = write (outbox_message msg) p in
      (wrapped (codes "write outbox message " ++ format_int msg.id ++ codes ": ") r, p')

  -- `marshal_error` is what `json.Marshal` reports.
  unfoldable pub publish_order_status_changed :
      Writer P → String → ℕ → String → Option (List ℕ) → Order → P → Result (List ℕ) (Unit {0}) × P
  unfolding status_changed_event status_changed_message
  publish_order_status_changed none id now request_id marshal_error order p = (ok tt, p)
  publish_order_status_changed (some write) id now request_id (some text) order p =
      (err (codes "marshal order event: " ++ text), p)
  publish_order_status_changed (some write) id now request_id none order p =
      let (r, p') =
        write (status_changed_message (status_changed_event id now request_id order)) p in
      (wrapped (codes "write order event: ") r, p')
