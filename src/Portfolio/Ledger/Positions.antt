-- ===== src/Portfolio/Ledger/Positions.antt =====
-- `HoldingsRepository.Apply` as a change of one position in a map from funds to positions,
-- portfolio-service/internal/repository/holdings.go.
use fund_kit.Base.{
  String, List, [], ◌∷◌, ◌≡◌, ◌≢◌, refl, Option, none, some, ◌==◌, eq_iff, eq_refl, arith,
  if◌then◌else◌, Result, ok, err,
}
use fund_kit.Base.Int.{ℤ}
use fund_kit.Portfolio.Float.{Float64}
use fund_kit.Portfolio.Position.{EventError, permanent, Holding, apply_buy, apply_sell, is_closed}
use fund_kit.Portfolio.Event.{buy, sell}
use fund_kit.Portfolio.Ledger.{Movement, buy_into, sell_from, fund_name}

module _ (f : Float64) where
  -- The position in a fund.
  abbrev pub position : List (Holding f) → String → Option (Holding f)
  position [] id = none
  position (h ∷ hs) id = let rest = position hs id in if h.fund_id == id then some h else rest

  abbrev pub HasDistinctFunds : List (Holding f) → Type 0
  HasDistinctFunds [] = Unit
  HasDistinctFunds (h ∷ hs) = (position hs h.fund_id ≡ none) × HasDistinctFunds hs

  -- What a movement makes of the position in its fund; `none` is no position.
  unfoldable pub settle : Movement f → Option (Holding f) → Result EventError (Option (Holding f))
  settle m old = elim m.side [
    | none ↦ err permanent
    | some buy ↦ elim old [
      | none ↦ ok (
          some (record {
            fund_id = m.fund_id;
            fund_name = fund_name m.fund_id;
            units = m.units;
            invested_amount = m.amount;
          }))
      | some h ↦ ok (some (apply_buy f m.units m.amount h))
    ]
    | some sell ↦ elim old [
      | none ↦ err permanent
      | some h ↦ elim (apply_sell f m.units h) [
        | err e ↦ err e
        | ok (released, h') ↦ ok (if is_closed f h' then none else some h')
      ]
    ]
  ]

  pub buy_into-cons :
      (m : Movement f) (h : Holding f) (hs : List (Holding f))
      → buy_into f m (h ∷ hs) ≡ (
          if h.fund_id == m.fund_id
          then apply_buy f m.units m.amount h ∷ hs
          else h ∷ buy_into f m hs)
  unfolding buy_into
  buy_into-cons m h hs = ground arith

  unfoldable pub sell_here :
      Movement f → Holding f → List (Holding f) → Result EventError (List (Holding f))
  sell_here m h hs = elim (apply_sell f m.units h) [
    | err e ↦ err e
    | ok (released, h') ↦ ok (if is_closed f h' then hs else h' ∷ hs)
  ]

  pub sell_from-cons :
      (m : Movement f) (h : Holding f) (hs : List (Holding f))
      → sell_from f m (h ∷ hs) ≡ (
          if h.fund_id == m.fund_id
          then sell_here m h hs
          else (elim (sell_from f m hs) [ err e ↦ err e | ok hs' ↦ ok (h ∷ hs') ]))
  unfolding sell_from sell_here
  sell_from-cons m h hs = ground arith

  apply_buy-fund : (u : f.F) (a : ℤ) (h : Holding f) → (apply_buy f u a h).fund_id ≡ h.fund_id
  unfolding apply_buy
  apply_buy-fund u a h = refl

  pub apply_sell-fund :
      (u : f.F) (h : Holding f) {r : ℤ} {h' : Holding f}
      → apply_sell f u h ≡ ok (r, h')
      → h'.fund_id ≡ h.fund_id
  unfolding apply_sell
  apply_sell-fund u h e = ground arith

  pub buy_into-position :
      (m : Movement f) (hs : List (Holding f))
      → m.side ≡ some buy
      → settle m (position hs m.fund_id) ≡ ok (position (buy_into f m hs) m.fund_id)
  unfolding settle
  buy_into-position m [] e = rw e (unfold buy_into in ground (arith, eq_refl m.fund_id))
  buy_into-position m (h ∷ hs) e =
      rw (buy_into-cons m h hs)
        (ground (arith, buy_into-position m hs e, apply_buy-fund m.units m.amount h))

  pub buy_into-others :
      (m : Movement f) (hs : List (Holding f)) (id : String)
      → m.fund_id ≢ id
      → position (buy_into f m hs) id ≡ position hs id
  buy_into-others m [] id ne = unfold buy_into in ground (arith, eq_iff m.fund_id id)
  buy_into-others m (h ∷ hs) id ne = rw (buy_into-cons m h hs) (
      ground (
        arith,
        buy_into-others m hs id ne,
        apply_buy-fund m.units m.amount h,
        eq_iff h.fund_id m.fund_id,
        eq_iff h.fund_id id,
      ))

  pub buy_into-HasDistinctFunds :
      (m : Movement f) (hs : List (Holding f))
      → HasDistinctFunds hs
      → HasDistinctFunds (buy_into f m hs)
  buy_into-HasDistinctFunds m [] d = unfold buy_into in (refl, tt)
  buy_into-HasDistinctFunds m (h ∷ hs) d = rw (buy_into-cons m h hs) (
      ground (
        arith,
        buy_into-HasDistinctFunds m hs d.1,
        buy_into-others m hs h.fund_id,
        apply_buy-fund m.units m.amount h,
        eq_iff h.fund_id m.fund_id,
        eq_iff m.fund_id h.fund_id,
      ))
