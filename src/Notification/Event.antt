-- ===== src/Notification/Event.antt =====
-- The event contract, notification-service/internal/domain/event.go.
use fund_kit.Base.{ℕ, String, Bool, not, ◌||◌, ◌==◌, eqb, if◌then◌else◌, Result, ok, ◌>>◌, fail_if}
use fund_kit.Base.Int.{ℤ}
use fund_kit.Portfolio.Position.{EventError, permanent}

pub record Order : Type 0 where
  pub id : String
  pub user_id : String
  pub user_name : String
  pub user_email : String
  pub user_phone : String
  pub fund_id : String
  pub amount : ℤ  -- paise
  pub type : String
  pub status : String

pub record Recipient : Type 0 where
  pub name : String
  pub email : String
  pub phone : String

-- `Order.Recipient`.
unfoldable pub recipient : Order → Recipient
recipient o = record {
  name = if o.user_name == "" then o.user_id else o.user_name;
  email = o.user_email;
  phone = o.user_phone;
}

pub record OrderEvent : Type 0 where
  pub event_id : String
  pub event_type : String
  pub version : ℕ
  pub occurred_at : ℕ
  pub request_id : String
  pub order : Order

unfoldable pub is_terminal : Order → Bool
is_terminal o = (o.status == "EXECUTED") || (o.status == "FAILED")

-- `OrderEvent.Validate`.
unfoldable pub validate : OrderEvent → Result EventError (Unit {0})
validate e = do
  fail_if (not (eqb e.version 2)) permanent
  fail_if (e.order.id == "") permanent
  ok tt
