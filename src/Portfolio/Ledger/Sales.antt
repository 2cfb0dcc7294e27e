-- ===== src/Portfolio/Ledger/Sales.antt =====
-- A sale changes the position in its fund alone,
-- portfolio-service/internal/repository/holdings.go.
use fund_kit.Base.{
  String, List, [], ◌∷◌, ◌≡◌, ◌≢◌, sym, ◌∙◌, inl, inr, some, ◌==◌, eq_iff, arith, ok, err,
  Result-cases, Bool-cases,
}
use fund_kit.Portfolio.Float.{Float64}
use fund_kit.Portfolio.Position.{EventError, Holding, apply_sell}
use fund_kit.Portfolio.Event.{sell}
use fund_kit.Portfolio.Ledger.{Movement, sell_from}
use fund_kit.Portfolio.Ledger.Positions.{
  position, HasDistinctFunds, settle, sell_here, sell_from-cons, apply_sell-fund,
}

module _ (f : Float64) where
  -- The list that a sale leaves, and what it makes of each fund.
  abbrev IsSold : Movement f → List (Holding f) → List (Holding f) → Type 0
  IsSold m hs hs' =
      (settle f m (position f hs m.fund_id) ≡ ok (position f hs' m.fund_id))
      × ((id : String) → m.fund_id ≢ id → position f hs' id ≡ position f hs id)
      × HasDistinctFunds f hs'

  sell_here-IsSold :
      (m : Movement f) (h : Holding f) (hs : List (Holding f)) {hs' : List (Holding f)}
      → m.side ≡ some sell
      → h.fund_id ≡ m.fund_id
      → HasDistinctFunds f (h ∷ hs)
      → sell_here f m h hs ≡ ok hs'
      → IsSold m (h ∷ hs) hs'
  unfolding sell_here settle
  sell_here-IsSold m h hs {hs'} es same d e = elim (Result-cases (apply_sell f m.units h)) [
    | inr (x, p) ↦ ground arith
    | inl ((r, h'), p) ↦
        let kept : h'.fund_id ≡ h.fund_id = apply_sell-fund f m.units h p in
        (
          ground (arith, eq_iff h.fund_id m.fund_id, eq_iff h'.fund_id m.fund_id),
          λ id ne. ground (arith, eq_iff h.fund_id id, eq_iff h'.fund_id id),
          ground arith,
        )
  ]

  pub sell_from-IsSold :
      (m : Movement f) (hs : List (Holding f)) {hs' : List (Holding f)}
      → m.side ≡ some sell
      → HasDistinctFunds f hs
      → sell_from f m hs ≡ ok hs'
      → IsSold m hs hs'
  sell_from-IsSold m [] es d e = unfold sell_from in ground arith
  sell_from-IsSold m (h ∷ hs) {hs'} es d e =
      let step = sym (sell_from-cons f m h hs) ∙ e in
      elim (Bool-cases (h.fund_id == m.fund_id)) [
        | inl here ↦
            sell_here-IsSold m h hs es ((eq_iff h.fund_id m.fund_id).0 here) d (rw here at step)
        | inr there ↦ elim (Result-cases (sell_from f m hs)) [
          | inr (x, p) ↦ ground arith
          | inl (rest, p) ↦
              let (moved, others, distinct) = sell_from-IsSold m hs es d.1 p in
              let e' : hs' ≡ h ∷ rest = ground arith in
              rw e' (
                ground arith,
                λ id ne. ground (arith, others id ne),
                (
                  ground (
                    arith,
                    others h.fund_id,
                    eq_iff m.fund_id h.fund_id,
                    eq_iff h.fund_id m.fund_id,
                  ),
                  distinct,
                ),
              )
        ]
      ]

  pub sell_from-err :
      (m : Movement f) (hs : List (Holding f)) {x : EventError}
      → m.side ≡ some sell
      → sell_from f m hs ≡ err x
      → settle f m (position f hs m.fund_id) ≡ err x
  unfolding settle sell_here
  sell_from-err m [] es e = unfold sell_from in ground arith
  sell_from-err m (h ∷ hs) es e =
      let step = sym (sell_from-cons f m h hs) ∙ e in
      elim (Bool-cases (h.fund_id == m.fund_id)) [
        | inl here ↦ ground arith
        | inr there ↦ elim (Result-cases (sell_from f m hs)) [
          | inl (rest, p) ↦ ground arith
          | inr (y, p) ↦ let ih = sell_from-err m hs es p in ground arith
        ]
      ]
