-- ===== src/Portfolio/Service.antt =====
-- `PortfolioService`, portfolio-service/internal/service/portfolio_service.go. The NAV cache and the
-- NAV feed are the ports that the service declares; `World` is their state. Logging is left out.
use fund_kit.Base.{
  String, List, [], ◌∷◌, Option, none, some, Bool, false, not, if◌then◌else◌, update, Result, ok,
  err,
}
use fund_kit.Base.Int.{pos}
use fund_kit.Portfolio.Float.{Float64}
use fund_kit.Portfolio.Position.{
  EventError, transient, Holding, PortfolioValuation, value, add, units_for,
}
use fund_kit.Portfolio.Event.{Side, Order, OrderEvent, validate, is_executed, side}
use fund_kit.Portfolio.Ledger.{Ledger, Movement, apply, list_by_user}

-- `NAVCache` and `NAVProvider`. A cache read that is no error is a hit or a miss.
pub record Feed (f : Float64) : Type 1 where
  pub World : Type 0
  pub get_nav : String → World → Result (Unit {0}) (Option f.F) × World
  pub set_nav : String → f.F → World → Result (Unit {0}) (Unit {0}) × World
  pub fetch : String → World → Result (Unit {0}) f.F × World

module _ (f : Float64) (n : Feed f) where
  open f use {F}
  open n use {World}

  pub record State : Type 0 where
    pub ledger : Ledger f
    pub world : World

  -- The read of the feed in `resolveNAV`, and the write of the cache.
  unfoldable pub fetch_nav : String → World → F × World
  fetch_nav fund_id w =
      let (r, w') = n.fetch fund_id w in
      elim r [ err e ↦ (f.zero, w') | ok price ↦ (price, (n.set_nav fund_id price w').1) ]

  unfoldable pub resolve_nav : String → World → F × World
  resolve_nav fund_id w =
      let (r, w') = n.get_nav fund_id w in
      elim r [
        | ok (some price) ↦ (price, w')
        | ok none ↦ fetch_nav fund_id w'
        | err e ↦ fetch_nav fund_id w'
      ]

  -- `unitsFor`.
  unfoldable pub fill_units : Order → World → Result EventError F × World
  fill_units o w =
      let (nav, w') = resolve_nav o.fund_id w in
      let units = units_for f o.amount nav in
      (if f.le units f.zero then err transient else ok units, w')

  -- The `Movement` of an executed order.
  abbrev pub movement : OrderEvent → Option Side → F → Movement f
  movement e sd units = record {
    event_id = e.event_id;
    user_id = e.order.user_id;
    fund_id = e.order.fund_id;
    side = sd;
    units = units;
    amount = e.order.amount;
  }

  -- `ApplyOrderEvent` from the pricing on.
  unfoldable pub apply_fill : OrderEvent → Side → State → Result EventError Bool × State
  apply_fill e sd s =
      let (priced, w') = fill_units e.order s.world in
      elim priced [
        | err x ↦ (err x, record s { world = w' })
        | ok units ↦
            let (r, ledger') = apply f (movement e (some sd) units) s.ledger in
            (r, record { ledger = ledger'; world = w' })
      ]

  unfoldable pub apply_order_event : OrderEvent → State → Result EventError Bool × State
  apply_order_event e s = elim (validate e) [
    | err x ↦ (err x, s)
    | ok valid ↦
        if not (is_executed e)
        then (ok false, s)
        else elim (side e.order) [ err x ↦ (err x, s) | ok sd ↦ apply_fill e sd s ]
  ]

  -- The price of one holding in `Valuate`: the one resolved before, or a new one.
  unfoldable pub price_of : (String → Option F) → String → World → F × World
  price_of prices fund_id w = elim (prices fund_id) [
    | some price ↦ (price, w)
    | none ↦ resolve_nav fund_id w
  ]

  -- The loop of `Valuate`; `prices` is its map of the prices that it has resolved.
  unfoldable pub valuate_loop :
      List (Holding f)
      → (String → Option F)
      → PortfolioValuation f
      → World
      → PortfolioValuation f × World
  valuate_loop [] prices v w = (v, w)
  valuate_loop (h ∷ hs) prices v w =
      let (price, w') = price_of prices h.fund_id w in
      valuate_loop hs (update prices h.fund_id (some price)) (add f v (value f h price)) w'

  unfoldable pub valuate : String → State → PortfolioValuation f × State
  valuate user_id s =
      let (v, w') =
        valuate_loop (list_by_user f user_id s.ledger) (λ _. none)
          (record {
            user_id = user_id;
            total_value = pos 0;
            total_unrealized_gain = pos 0;
            holdings = [];
          })
          s.world in
      (v, record s { world = w' })
