-- ===== src/Portfolio/Event.antt =====
-- The event contract, portfolio-service/internal/domain/event.go.
use fund_kit.Base.{
  ℕ, String, Bool, not, ◌&&◌, ◌||◌, ◌==◌, eqb, if◌then◌else◌, Result, ok, err, ◌>>◌, fail_if,
}
use fund_kit.Base.Int.{ℤ, pos, ltb_ℤ}
use fund_kit.Portfolio.Position.{EventError, permanent}

pub data Side : Type 0 where
  buy sell : Side

pub record Order : Type 0 where
  pub id : String
  pub user_id : String
  pub fund_id : String
  pub amount : ℤ  -- paise
  pub type : String
  pub status : String

pub record OrderEvent : Type 0 where
  pub event_id : String
  pub event_type : String
  pub version : ℕ
  pub occurred_at : ℕ
  pub request_id : String
  pub order : Order

abbrev pub supported_order_event_version : ℕ
supported_order_event_version = 2

unfoldable pub is_executed : OrderEvent → Bool
is_executed e = (e.event_type == "order.status_changed") && (e.order.status == "EXECUTED")

-- `Order.Side`.
unfoldable pub side : Order → Result EventError Side
side o =
    if (o.type == "SIP") || (o.type == "LUMPSUM") || (o.type == "BUY")
    then ok buy
    else if (o.type == "REDEEM") || (o.type == "SELL") || (o.type == "SWITCH_OUT")
    then ok sell
    else err permanent

unfoldable pub validate : OrderEvent → Result EventError (Unit {0})
validate e = do
  fail_if (not (eqb e.version supported_order_event_version)) permanent
  fail_if (e.event_id == "") permanent
  fail_if (e.order.id == "") permanent
  fail_if (e.order.user_id == "") permanent
  fail_if (e.order.fund_id == "") permanent
  fail_if (not (ltb_ℤ (pos 0) e.order.amount)) permanent
  ok tt
