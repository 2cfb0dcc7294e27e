-- ===== src/Portfolio/Position.antt =====
-- Valuation and position arithmetic, portfolio-service/internal/domain/portfolio.go.
use fund_kit.Base.{String, List, [], ◌∷◌, ◌++◌, Bool, ◌||◌, if◌then◌else◌, Result, ok, err}
use fund_kit.Base.Int.{ℤ, pos, add64, sub64}
use fund_kit.Portfolio.Float.{Float64}

-- `ErrPermanent`, wrapped, or any other error.
pub data EventError : Type 0 where
  permanent : EventError
  transient : EventError

module _ (f : Float64) where
  open f use {F}

  pub record Holding : Type 0 where
    pub fund_id : String
    pub fund_name : String
    pub units : F
    pub invested_amount : ℤ  -- paise

  pub record HoldingValuation : Type 0 where
    pub holding : Holding
    pub nav : F
    pub current_value : ℤ
    pub unrealized_gain : ℤ

  pub record PortfolioValuation : Type 0 where
    pub user_id : String
    pub total_value : ℤ
    pub total_unrealized_gain : ℤ
    pub holdings : List HoldingValuation

  unfoldable pub paise_from_product : F → F → ℤ
  paise_from_product nav_rupees units =
      if f.is_nan nav_rupees || f.is_inf nav_rupees || f.is_nan units || f.is_inf units
      then pos 0
      else f.round_to_money (f.mul (f.mul nav_rupees f.hundred) units)

  -- `Holding.Value`.
  unfoldable pub value : Holding → F → HoldingValuation
  value h nav =
      let current = paise_from_product nav h.units in
      record {
        holding = h;
        nav = nav;
        current_value = current;
        unrealized_gain = sub64 current h.invested_amount;
      }

  -- `PortfolioValuation.Add`.
  unfoldable pub add : PortfolioValuation → HoldingValuation → PortfolioValuation
  add p v = record p {
    total_value = add64 p.total_value v.current_value;
    total_unrealized_gain = add64 p.total_unrealized_gain v.unrealized_gain;
    holdings = p.holdings ++ v ∷ [];
  }

  unfoldable pub avg_cost : Holding → ℤ
  avg_cost h =
      if f.le h.units f.unit_epsilon
      then pos 0
      else f.round_to_money (f.div (f.of_int h.invested_amount) h.units)

  -- `Holding.ApplyBuy`.
  unfoldable pub apply_buy : F → ℤ → Holding → Holding
  apply_buy units amount h = record h {
    units = f.add h.units units;
    invested_amount = add64 h.invested_amount amount;
  }

  -- `Holding.ApplySell`: the cost released, and the holding that is left.
  unfoldable pub apply_sell : F → Holding → Result EventError (ℤ × Holding)
  apply_sell units h =
      if f.le units f.zero
      then err permanent
      else if f.lt (f.add h.units f.unit_epsilon) units
      then err permanent
      else (let remaining = f.sub h.units units in
          if f.le remaining f.unit_epsilon
          then ok (h.invested_amount, record h { units = f.zero; invested_amount = pos 0 })
          else (let released =
                f.round_to_money (f.div (f.mul (f.of_int h.invested_amount) units) h.units) in
              ok (
                released,
                record h { units = remaining; invested_amount = sub64 h.invested_amount released },
              )))

  unfoldable pub is_closed : Holding → Bool
  is_closed h = f.le h.units f.unit_epsilon

  -- `UnitsFor`; `amount.Rupees()` is `float64(m) / 100`.
  unfoldable pub units_for : ℤ → F → F
  units_for amount nav_rupees =
      if f.le nav_rupees f.zero || f.is_nan nav_rupees || f.is_inf nav_rupees
      then f.zero
      else f.div (f.div (f.of_int amount) f.hundred) nav_rupees
