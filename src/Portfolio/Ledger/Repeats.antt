-- ===== src/Portfolio/Ledger/Repeats.antt =====
-- Two events about one fill, portfolio-service/internal/repository/holdings.go. The order service can
-- write them: its state machine tolerates EXECUTED to EXECUTED, and each update mints an event id.
use fund_kit.Base.{
  String, List, [], ◌∷◌, ◌++◌, ◌≡◌, ◌≢◌, sym, ap, ◌∙◌, inl, inr, some, true, false, arith, update,
  update_ne, leb, length, ok, Bool-cases, ok-injective, Bool,
}
use fund_kit.Portfolio.Float.{Float64}
use fund_kit.Portfolio.Position.{Holding, apply_buy}
use fund_kit.Portfolio.Event.{buy}
use fund_kit.Portfolio.Ledger.{
  Applied, Movement, Ledger, apply, mark_applied, forget, max_applied_events,
}
use fund_kit.Portfolio.Ledger.Positions.{settle}
use fund_kit.Portfolio.Ledger.Idempotence.{apply-cases, move_position-applied}
use fund_kit.Portfolio.Ledger.Refinement.{view, IsValid, apply_refines}

forget-unseen :
    (ids : List String) (seen : String → Bool) (id : String)
    → seen id ≡ false
    → forget ids seen id ≡ false
unfolding forget update
forget-unseen [] seen id h = h
forget-unseen (k ∷ ids) seen id h = forget-unseen ids (update seen k false) id (ground arith)

-- Marking one id leaves another one unseen.
mark_applied-unseen :
    (k id : String) (a : Applied)
    → k ≢ id
    → a.events id ≡ false
    → (mark_applied k a).events id ≡ false
unfolding mark_applied
mark_applied-unseen k id a differ h =
    let kept : update a.events k true id ≡ false = update_ne a.events k id true differ ∙ h in
    elim (Bool-cases (leb (length (a.order ++ k ∷ [])) max_applied_events)) [
      | inl room ↦ rw room kept
      | inr full ↦ rw full (forget-unseen _ (update a.events k true) id kept)
    ]

module _ (f : Float64) where
  abbrev pub bought_twice : Movement f → Holding f → Holding f
  bought_twice m h = apply_buy f m.units m.amount (apply_buy f m.units m.amount h)

  settle-buy :
      (m : Movement f) (h : Holding f)
      → m.side ≡ some buy
      → settle f m (some h) ≡ ok (some (apply_buy f m.units m.amount h))
  unfolding settle
  settle-buy m h bs = rw bs

  apply-buy :
      (m : Movement f) (s : Ledger f) (h : Holding f)
      → IsValid f s
      → m.side ≡ some buy
      → s.applied.events m.event_id ≡ false
      → view f s m.user_id m.fund_id ≡ some h
      → let s' = (apply f m s).1 in
        IsValid f s'
        × (view f s' m.user_id m.fund_id ≡ some (apply_buy f m.units m.amount h))
        × (s'.applied ≡ mark_applied m.event_id s.applied)
  apply-buy m s h v bs new held =
      let moved : settle f m (view f s m.user_id m.fund_id)
          ≡ ok (some (apply_buy f m.units m.amount h)) =
        ap (settle f m) held ∙ settle-buy m h bs in
      elim (apply_refines f m s v) [
        | inl (seen, r, same) ↦ cc
        | inr (inl (x, r, fails, same)) ↦ cc
        | inr (inr (r, settled, v')) ↦ (v', ok-injective (sym settled.0 ∙ moved), marked m s r)
      ]
    where
      marked :
          (m : Movement f) (s : Ledger f)
          → (apply f m s).0 ≡ ok true
          → (apply f m s).1.applied ≡ mark_applied m.event_id s.applied
      marked m s r = elim (apply-cases f m s) [
        | inl (seen, e) ↦ cc
        | inr (inl (x, e)) ↦ cc
        | inr (inr (s', fresh, p, e)) ↦
            ap (λ x. x.1.applied) e ∙ ap (mark_applied m.event_id) (move_position-applied f m s p)
      ]

  -- If each user's funds are distinct and a purchase into a held position is delivered under two
  -- different event ids, both unseen, the position takes the units and the amount twice.
  pub second_event_applied :
      (m : Movement f) (id : String) (s : Ledger f) (h : Holding f)
      → IsValid f s
      → m.side ≡ some buy
      → s.applied.events m.event_id ≡ false
      → s.applied.events id ≡ false
      → m.event_id ≢ id
      → view f s m.user_id m.fund_id ≡ some h
      → let again : Movement f = record m { event_id = id } in
        view f (apply f again (apply f m s).1).1 m.user_id m.fund_id ≡ some (bought_twice m h)
  second_event_applied m id s h v bs new unseen differ held =
      let (v₁, held₁, marked) = apply-buy m s h v bs new held in
      let unseen₁ : (apply f m s).1.applied.events id ≡ false =
        ap (λ a. a.events id) marked ∙ mark_applied-unseen m.event_id id s.applied differ unseen in
      (apply-buy (record m { event_id = id }) (apply f m s).1 (apply_buy f m.units m.amount h) v₁ bs
        unseen₁ held₁).1
