-- ===== src/Portfolio/Ledger.antt =====
-- `HoldingsRepository`, portfolio-service/internal/repository/holdings.go. Every method holds the
-- lock from its first line to its return, so the ledger is a state and a method a function on it.
-- `by_user` has no holdings for a user that the map has no entry for.
pub mod Dedup
pub mod Idempotence
pub mod Positions
pub mod Sales
pub mod Refinement
pub mod Repeats
pub mod Redelivery
use fund_kit.Base.{
  ℕ, ◌-◌, String, List, [], ◌∷◌, ◌++◌, Option, none, some, Bool, true, false, ◌==◌, if◌then◌else◌,
  leb, length, take, drop, get_elem?, modify, suc, update, Result, ok, err,
}
use fund_kit.Base.Int.{ℤ}
use fund_kit.Portfolio.Float.{Float64}
use fund_kit.Portfolio.Position.{EventError, permanent, Holding, apply_buy, apply_sell, is_closed}
use fund_kit.Portfolio.Event.{Side, buy, sell}

abbrev pub max_applied_events : ℕ
max_applied_events = 100_000

unfoldable pub fund_name : String → String
fund_name id =
    if id == "fund-axi-blue"
    then "AXI Bluechip"
    else if id == "fund-icici-growth"
    then "ICICI Growth"
    else if id == "fund-hdfc-top"
    then "HDFC Top 100"
    else id

-- `delete(m, id)` for each of the ids.
unfoldable pub forget : List String → (String → Bool) → String → Bool
forget [] seen = seen
forget (id ∷ ids) seen = forget ids (update seen id false)

-- The deduplication set and the order in which it was filled.
pub record Applied : Type 0 where
  pub events : String → Bool
  pub order : List String

-- `markApplied`.
unfoldable pub mark_applied : String → Applied → Applied
mark_applied event_id s =
    let events = update s.events event_id true in
    let order = s.order ++ event_id ∷ [] in
    if leb (length order) max_applied_events
    then record { events = events; order = order }
    else (let evict = length order - max_applied_events in
        record { events = forget (take evict order) events; order = drop evict order })

module _ (f : Float64) where
  open f use {F}

  pub record Movement : Type 0 where
    pub event_id : String
    pub user_id : String
    pub fund_id : String
    pub side : Option Side  -- `none` is a side that is neither BUY nor SELL
    pub units : F
    pub amount : ℤ

  pub record Ledger : Type 0 where
    pub by_user : String → List (Holding f)
    pub applied : Applied

  -- `indexOfFund`; `none` is -1.
  unfoldable pub index_of_fund : List (Holding f) → String → Option ℕ
  index_of_fund [] id = none
  index_of_fund (h ∷ hs) id =
      let rest = index_of_fund hs id in
      if h.fund_id == id then some 0 else (elim rest [ none ↦ none | some i ↦ some (suc i) ])

  -- `applyBuy`, on the holdings of the movement's user.
  unfoldable pub buy_into : Movement → List (Holding f) → List (Holding f)
  unfolding index_of_fund
  buy_into m hs = elim (index_of_fund hs m.fund_id) [
    | some i ↦ modify hs i (apply_buy f m.units m.amount)
    | none ↦
        hs
        ++ record {
          fund_id = m.fund_id;
          fund_name = fund_name m.fund_id;
          units = m.units;
          invested_amount = m.amount;
        }
          ∷ []
  ]

  -- `applySell`, on the holdings of the movement's user. The index is always in range.
  unfoldable pub sell_from : Movement → List (Holding f) → Result EventError (List (Holding f))
  unfolding index_of_fund
  sell_from m hs = elim (index_of_fund hs m.fund_id) [
    | none ↦ err permanent
    | some i ↦ elim (get_elem? hs i) [
      | none ↦ err permanent
      | some h ↦ elim (apply_sell f m.units h) [
        | err e ↦ err e
        | ok (released, h') ↦
            let hs' = modify hs i (λ _. h') in
            ok (if is_closed f h' then take i hs' ++ drop (suc i) hs' else hs')
      ]
    ]
  ]

  -- The `switch` of `Apply`.
  unfoldable pub move_position : Movement → Ledger → Result EventError Ledger
  move_position m s = elim m.side [
    | none ↦ err permanent
    | some buy ↦
        ok (record s { by_user = update s.by_user m.user_id (buy_into m (s.by_user m.user_id)) })
    | some sell ↦ elim (sell_from m (s.by_user m.user_id)) [
      | err e ↦ err e
      | ok hs ↦ ok (record s { by_user = update s.by_user m.user_id hs })
    ]
  ]

  -- `Apply`: whether the movement was applied, or an error.
  unfoldable pub apply : Movement → Ledger → Result EventError Bool × Ledger
  unfolding move_position
  apply m s = if s.applied.events m.event_id then (ok false, s) else elim (move_position m s) [
    | err e ↦ (err e, s)
    | ok s' ↦ (ok true, record s' { applied = mark_applied m.event_id s'.applied })
  ]

  -- `ListByUser`.
  unfoldable pub list_by_user : String → Ledger → List (Holding f)
  list_by_user user_id s = s.by_user user_id
