-- ===== src/Portfolio/Valuation.antt =====
-- The totals of `Valuate`, portfolio-service/internal/service/portfolio_service.go.
use fund_kit.Base.{
  String, List, [], ◌∷◌, ◌++◌, map, ◌≡◌, refl, sym, ap, ◌∙◌, Option, none, some, update,
  append_assoc, append-nil,
}
use fund_kit.Base.Int.{ℤ, pos, ◌+ℤ◌, wrap64, wrap64-add, wrap64-wrap64, +ℤ_assoc, +ℤ_zero, zero-+ℤ}
use fund_kit.Portfolio.Float.{Float64}
use fund_kit.Portfolio.Position.{Holding, HoldingValuation, PortfolioValuation, value, add}
use fund_kit.Portfolio.Ledger.{list_by_user}
use fund_kit.Portfolio.Service.{Feed, State, valuate_loop, valuate, price_of}

regrouped : (t a b : ℤ) → wrap64 (wrap64 (t +ℤ a) +ℤ b) ≡ wrap64 (t +ℤ (a +ℤ b))
regrouped t a b = wrap64-add (t +ℤ a) b ∙ ap wrap64 (+ℤ_assoc t a b)

module _ (f : Float64) where
  -- The exact sums of the rows, as unbounded integers.
  abbrev pub sum_values : List (HoldingValuation f) → ℤ
  sum_values [] = pos 0
  sum_values (v ∷ vs) = v.current_value +ℤ sum_values vs

  abbrev pub sum_gains : List (HoldingValuation f) → ℤ
  sum_gains [] = pos 0
  sum_gains (v ∷ vs) = v.unrealized_gain +ℤ sum_gains vs

  abbrev pub holding_of : HoldingValuation f → Holding f
  holding_of v = v.holding

  -- The rows that have been added to a valuation since `v`.
  abbrev IsExtended : PortfolioValuation f → List (Holding f) → PortfolioValuation f → Type 0
  IsExtended v hs v' =
      (rows : List (HoldingValuation f)) × (v'.holdings ≡ v.holdings ++ rows)
      × (map holding_of rows ≡ hs)
      × (v'.total_value ≡ wrap64 (v.total_value +ℤ sum_values rows))
      × (v'.total_unrealized_gain ≡ wrap64 (v.total_unrealized_gain +ℤ sum_gains rows))

  module _ (n : Feed f) where
    valuate_loop-IsExtended :
        (hs : List (Holding f)) (prices : String → Option f.F) (v : PortfolioValuation f)
        (w : n.World)
        → v.total_value ≡ wrap64 v.total_value
        → v.total_unrealized_gain ≡ wrap64 v.total_unrealized_gain
        → IsExtended v hs (valuate_loop f n hs prices v w).0
    unfolding valuate_loop value add
    valuate_loop-IsExtended [] prices v w ev eg = (
      [],
      sym (append-nil v.holdings),
      refl,
      ev ∙ ap wrap64 (sym (+ℤ_zero v.total_value)),
      eg ∙ ap wrap64 (sym (+ℤ_zero v.total_unrealized_gain)),
    )
    valuate_loop-IsExtended (h ∷ hs) prices v w ev eg =
        let (price, w') = price_of f n prices h.fund_id w in
        let row = value f h price in
        let (rows, eh, em, et, eu) =
          valuate_loop-IsExtended hs (update prices h.fund_id (some price)) (add f v row) w'
            (sym (wrap64-wrap64 (v.total_value +ℤ row.current_value)))
            (sym (wrap64-wrap64 (v.total_unrealized_gain +ℤ row.unrealized_gain))) in
        (
          row ∷ rows,
          eh ∙ append_assoc v.holdings (row ∷ []) rows,
          ap (λ l. h ∷ l) em,
          et ∙ regrouped v.total_value row.current_value (sum_values rows),
          eu ∙ regrouped v.total_unrealized_gain row.unrealized_gain (sum_gains rows),
        )

    -- A valuation has one row for each holding of the user, in order, and its totals are the exact
    -- sums of its rows, wrapped to 64 bits once.
    pub valuate_totals :
        (user_id : String) (s : State f n)
        → let v = (valuate f n user_id s).0 in
          (map holding_of v.holdings ≡ list_by_user f user_id s.ledger)
          × (v.total_value ≡ wrap64 (sum_values v.holdings))
          × (v.total_unrealized_gain ≡ wrap64 (sum_gains v.holdings))
    unfolding valuate
    valuate_totals user_id s =
        let start : PortfolioValuation f = record {
          user_id = user_id;
          total_value = pos 0;
          total_unrealized_gain = pos 0;
          holdings = [];
        } in
        let (rows, eh, em, et, eu) =
          valuate_loop-IsExtended (list_by_user f user_id s.ledger) (λ _. none) start s.world
            (unfold wrap64 in refl) (unfold wrap64 in refl) in
        (
          ap (map holding_of) eh ∙ em,
          et ∙ ap wrap64 (zero-+ℤ (sum_values rows) ∙ ap sum_values (sym eh)),
          eu ∙ ap wrap64 (zero-+ℤ (sum_gains rows) ∙ ap sum_gains (sym eh)),
        )
