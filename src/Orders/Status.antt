-- ===== src/Orders/Status.antt =====
-- The order state machine, order-service/internal/domain/order.go.
use fund_kit.Base.{String, ◌≡◌, ◌↔◌, Bool, true, false, ◌||◌, ◌==◌, eq_iff, arith}

-- `OrderStatus` is a string; `other` stands for a text that is none of the four constants.
pub data OrderStatus : Type 0 where
  pending processing executed failed : OrderStatus
  other : String → OrderStatus

-- Go's `==` on two statuses.
abbrev pub is_status : OrderStatus → OrderStatus → Bool
is_status pending pending = true
is_status processing processing = true
is_status executed executed = true
is_status failed failed = true
is_status (other s) (other t) = s == t
is_status _ _ = false

-- `CanTransitionStatus`.
unfoldable pub can_transition_status : OrderStatus → OrderStatus → Bool
can_transition_status pending next = is_status next processing || is_status next failed
can_transition_status processing next = is_status next executed || is_status next failed
can_transition_status executed next = is_status next executed
can_transition_status failed next = is_status next failed
can_transition_status (other s) next = false

unfoldable pub is_terminal : OrderStatus → Bool
is_terminal status = is_status status executed || is_status status failed

pub is_status_iff : (s t : OrderStatus) → (is_status s t ≡ true) ↔ (s ≡ t)
is_status_iff (other a) (other b) = (λ h. grind (arith, eq_iff a b), λ h. grind (arith, eq_iff a b))
is_status_iff _ _ = ground arith
