-- ===== src/Portfolio/Ledger/Refinement.antt =====
-- `Apply` against a map from users and funds to positions,
-- portfolio-service/internal/repository/holdings.go.
use fund_kit.Base.{
  String, List, ◌≡◌, ◌≢◌, sym, ap, ◌∙◌, subst, ◌⊎◌, inl, inr, Option, true, false, arith, update,
  update_self, update_ne, ok, err, Result-cases, text-cases, ==-false, Option-cases, Bool-cases,
}
use fund_kit.Portfolio.Float.{Float64}
use fund_kit.Portfolio.Position.{EventError, Holding}
use fund_kit.Portfolio.Event.{buy, sell}
use fund_kit.Portfolio.Ledger.{Movement, Ledger, buy_into, sell_from, move_position, apply}
use fund_kit.Portfolio.Ledger.Positions.{
  position, HasDistinctFunds, settle, buy_into-position, buy_into-others, buy_into-HasDistinctFunds,
}
use fund_kit.Portfolio.Ledger.Sales.{sell_from-IsSold, sell_from-err}

module _ (f : Float64) where
  -- The abstract ledger: each user's position in each fund.
  abbrev pub view : Ledger f → String → String → Option (Holding f)
  view s user_id id = position f (s.by_user user_id) id

  abbrev pub IsValid : Ledger f → Type 0
  IsValid s = (user_id : String) → HasDistinctFunds f (s.by_user user_id)

  -- One position is settled, and every other one is as it was.
  abbrev pub IsSettled : Movement f → Ledger f → Ledger f → Type 0
  IsSettled m s s' =
      (settle f m (view s m.user_id m.fund_id) ≡ ok (view s' m.user_id m.fund_id))
      × ((id : String) → m.fund_id ≢ id → view s' m.user_id id ≡ view s m.user_id id)
      × ((user_id id : String) → m.user_id ≢ user_id → view s' user_id id ≡ view s user_id id)

  -- The holdings of one user are replaced.
  with_holdings-IsValid :
      (s : Ledger f) (user_id : String) (hs : List (Holding f))
      → IsValid s
      → HasDistinctFunds f hs
      → (u : String) → HasDistinctFunds f (update s.by_user user_id hs u)
  with_holdings-IsValid s user_id hs v d u = elim (text-cases user_id u) [
    | inl same ↦
        subst (λ k. HasDistinctFunds f (update s.by_user user_id hs k)) same
          (rw (update_self s.by_user user_id hs) d)
    | inr differ ↦ rw (update_ne s.by_user user_id u hs (==-false user_id u differ)) (v u)
  ]

  -- The ledger in which the movement's user holds `hs`.
  abbrev with_holdings : Movement f → Ledger f → List (Holding f) → Ledger f
  with_holdings m s hs = record s { by_user = update s.by_user m.user_id hs }

  with_holdings-IsSettled :
      (m : Movement f) (s : Ledger f) (hs : List (Holding f))
      → settle f m (view s m.user_id m.fund_id) ≡ ok (position f hs m.fund_id)
      → ((id : String) → m.fund_id ≢ id → position f hs id ≡ view s m.user_id id)
      → IsSettled m s (with_holdings m s hs)
  with_holdings-IsSettled m s hs moved others =
      let mine : update s.by_user m.user_id hs m.user_id ≡ hs =
        update_self s.by_user m.user_id hs in
      (
        moved ∙ ap (λ l. ok (position f l m.fund_id)) (sym mine),
        λ id ne. ap (λ l. position f l id) mine ∙ others id ne,
        λ user_id id ne. ap (λ l. position f l id) (update_ne s.by_user m.user_id user_id hs ne),
      )

  move_position-IsSettled :
      (m : Movement f) (s : Ledger f) {s' : Ledger f}
      → IsValid s
      → move_position f m s ≡ ok s'
      → IsSettled m s s' × IsValid s'
  unfolding move_position
  move_position-IsSettled m s {s'} v h = elim (Option-cases m.side) [
    | inl unknown ↦ ground arith
    | inr (buy, e) ↦
        let hs = s.by_user m.user_id in
        let e' : s' ≡ with_holdings m s (buy_into f m hs) = ground arith in
        rw e' (
          with_holdings-IsSettled m s (buy_into f m hs) (buy_into-position f m hs e)
              (buy_into-others f m hs),
          with_holdings-IsValid s m.user_id (buy_into f m hs) v
              (buy_into-HasDistinctFunds f m hs (v m.user_id)),
        )
    | inr (sell, e) ↦ elim (Result-cases (sell_from f m (s.by_user m.user_id))) [
      | inr (x, p) ↦ ground arith
      | inl (hs, p) ↦
          let e' : s' ≡ with_holdings m s hs = ground arith in
          let (moved, others, distinct) =
            sell_from-IsSold f m (s.by_user m.user_id) e (v m.user_id) p in
          rw e' (
            with_holdings-IsSettled m s hs moved others,
            with_holdings-IsValid s m.user_id hs v distinct,
          )
    ]
  ]

  move_position-err :
      (m : Movement f) (s : Ledger f) {x : EventError}
      → move_position f m s ≡ err x
      → settle f m (view s m.user_id m.fund_id) ≡ err x
  unfolding move_position
  move_position-err m s {x} h = elim (Option-cases m.side) [
    | inl unknown ↦ unfold settle in ground arith
    | inr (buy, e) ↦ ground arith
    | inr (sell, e) ↦ elim (Result-cases (sell_from f m (s.by_user m.user_id))) [
      | inl (hs, p) ↦ ground arith
      | inr (y, p) ↦ let fact = sell_from-err f m (s.by_user m.user_id) e p in ground arith
    ]
  ]

  pub apply_refines :
      (m : Movement f) (s : Ledger f)
      → IsValid s
      → let (r, s') = apply f m s in
        ((s.applied.events m.event_id ≡ true) × (r ≡ ok false) × (s' ≡ s))
        ⊎ ((x : EventError) × (r ≡ err x)
            × (settle f m (view s m.user_id m.fund_id) ≡ err x)
            × (s' ≡ s))
        ⊎ ((r ≡ ok true) × IsSettled m s s' × IsValid s')
  unfolding apply
  apply_refines m s v = elim (Bool-cases (s.applied.events m.event_id)) [
    | inl seen ↦ inl (seen, rw seen, rw seen)
    | inr new ↦ elim (Result-cases (move_position f m s)) [
      | inr (x, p) ↦ inr (inl (x, rw (new, p), move_position-err m s p, rw (new, p)))
      | inl (s', p) ↦
          let (settled, valid) = move_position-IsSettled m s v p in
          inr (inr (rw (new, p), rw (new, p) settled, rw (new, p) valid))
    ]
  ]
