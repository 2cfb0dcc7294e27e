-- ===== src/Portfolio/Float.antt =====
-- Go's `float64` as portfolio-service/internal/domain uses it. Units and prices are such numbers; the
-- theorems hold for every arithmetic of this shape.
use fund_kit.Base.{Bool}
use fund_kit.Base.Int.{ℤ}

pub record Float64 : Type 1 where
  pub F : Type 0
  pub zero : F
  pub unit_epsilon : F  -- the literal 1e-9
  pub hundred : F
  pub add : F → F → F
  pub sub : F → F → F
  pub mul : F → F → F
  pub div : F → F → F
  pub le : F → F → Bool
  pub lt : F → F → Bool
  pub is_nan : F → Bool
  pub is_inf : F → Bool
  pub of_int : ℤ → F  -- `float64(m)`
  pub round_to_money : F → ℤ  -- `Money(math.Round(x))`
