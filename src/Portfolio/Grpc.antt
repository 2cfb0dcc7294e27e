-- ===== src/Portfolio/Grpc.antt =====
-- `PortfolioServer`, portfolio-service/internal/handler/grpc_server.go. `Valuate` has no error of its
-- own, so the codes that an error of it would be mapped to do not occur.
use fund_kit.Base.{String, List, map, ◌==◌, if◌then◌else◌, Result, ok, err}
use fund_kit.Base.Int.{ℤ}
use fund_kit.Portfolio.Float.{Float64}
use fund_kit.Portfolio.Position.{HoldingValuation, PortfolioValuation}
use fund_kit.Portfolio.Service.{Feed, State, valuate}

-- The gRPC status of a refusal: its code and message.
pub data Status : Type 0 where
  invalid_argument : String → Status

module _ (f : Float64) where
  open f use {F}

  pub record MutualFundHolding : Type 0 where
    pub fund_name : String
    pub units : F
    pub nav : F

  pub record PortfolioResponse : Type 0 where
    pub user_id : String
    pub total_value : F
    pub holdings : List MutualFundHolding

  pub record HoldingPnl : Type 0 where
    pub fund_id : String
    pub fund_name : String
    pub units : F
    pub invested_amount : F
    pub nav : F
    pub current_value : F
    pub unrealized_gain : F

  pub record PnlResponse : Type 0 where
    pub user_id : String
    pub total_value : F
    pub total_unrealized_gain : F
    pub holdings : List HoldingPnl

  -- `Money.Rupees`.
  unfoldable pub rupees : ℤ → F
  rupees m = f.div (f.of_int m) f.hundred

  unfoldable pub to_holding : HoldingValuation f → MutualFundHolding
  to_holding h = record { fund_name = h.holding.fund_name; units = h.holding.units; nav = h.nav }

  unfoldable pub to_holding_pnl : HoldingValuation f → HoldingPnl
  unfolding rupees
  to_holding_pnl h = record {
    fund_id = h.holding.fund_id;
    fund_name = h.holding.fund_name;
    units = h.holding.units;
    invested_amount = rupees h.holding.invested_amount;
    nav = h.nav;
    current_value = rupees h.current_value;
    unrealized_gain = rupees h.unrealized_gain;
  }

  unfoldable pub to_pnl_response : PortfolioValuation f → PnlResponse
  unfolding to_holding_pnl
  to_pnl_response v = record {
    user_id = v.user_id;
    total_value = rupees v.total_value;
    total_unrealized_gain = rupees v.total_unrealized_gain;
    holdings = map to_holding_pnl v.holdings;
  }

module _ (f : Float64) (n : Feed f) where
  -- `GetPortfolio`.
  unfoldable pub get_portfolio :
      String → State f n → Result Status (PortfolioResponse f) × State f n
  get_portfolio user_id s =
      let (v, s') = valuate f n user_id s in
      if user_id == "" then (err (invalid_argument "user_id is required"), s) else (
        ok (record {
          user_id = v.user_id;
          total_value = rupees f v.total_value;
          holdings = map (to_holding f) v.holdings;
        }),
        s',
      )

  -- `GetUserPnL`.
  unfoldable pub get_user_pnl : String → State f n → Result Status (PnlResponse f) × State f n
  get_user_pnl user_id s =
      let (v, s') = valuate f n user_id s in
      if user_id == ""
      then (err (invalid_argument "user_id is required"), s)
      else (ok (to_pnl_response f v), s')
