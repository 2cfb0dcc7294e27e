-- ===== src/Portfolio/Ledger/Idempotence.antt =====
-- `HoldingsRepository.Apply` behind an at-least-once stream,
-- portfolio-service/internal/repository/holdings.go.
use fund_kit.Base.{
  ℕ, ◌+◌, ◌<◌, String, List, [], ◌∷◌, ◌≡◌, sym, ap, ◌∙◌, subst, ◌⊎◌, inl, inr, true, false, arith,
  length, ok, err, Result-cases, Bool-cases,
}
use fund_kit.Portfolio.Float.{Float64}
use fund_kit.Portfolio.Position.{EventError}
use fund_kit.Portfolio.Ledger.{
  Movement, Ledger, apply, move_position, mark_applied, max_applied_events,
}
use fund_kit.Portfolio.Ledger.Dedup.{
  IsWellFormed, IsRecent, mark_applied-IsWellFormed, mark_applied-IsRecent,
  mark_applied-IsRecent_self, IsRecent-seen,
}

module _ (f : Float64) where
  pub move_position-applied :
      (m : Movement f) (s : Ledger f) {s' : Ledger f}
      → move_position f m s ≡ ok s'
      → s'.applied ≡ s.applied
  unfolding move_position
  move_position-applied m s h = ground arith

  -- `Apply` skips an id that it has seen, changes nothing on an error, or moves the position and
  -- marks the id.
  pub apply-cases :
      (m : Movement f) (s : Ledger f)
      → ((s.applied.events m.event_id ≡ true) × (apply f m s ≡ (ok false, s)))
        ⊎ ((e : EventError) × (apply f m s ≡ (err e, s)))
        ⊎ ((s' : Ledger f) × (s.applied.events m.event_id ≡ false)
            × (move_position f m s ≡ ok s')
            × (apply f m s ≡ (ok true, record s' { applied = mark_applied m.event_id s'.applied })))
  unfolding apply
  apply-cases m s = elim (Bool-cases (s.applied.events m.event_id)) [
    | inl seen ↦ inl (seen, rw seen)
    | inr new ↦ elim (Result-cases (move_position f m s)) [
      | inr (e, p) ↦ inr (inl (e, rw (new, p)))
      | inl (s', p) ↦ inr (inr (s', new, p, rw (new, p)))
    ]
  ]

  -- Every call of `Apply` keeps the deduplication set and its queue in agreement, free of repeats
  -- and within the bound.
  pub apply-IsWellFormed :
      (m : Movement f) (s : Ledger f)
      → IsWellFormed s.applied
      → IsWellFormed (apply f m s).1.applied
  apply-IsWellFormed m s w = elim (apply-cases m s) [
    | inl (seen, e) ↦ rw e w
    | inr (inl (x, e)) ↦ rw e w
    | inr (inr (s', new, p, e)) ↦
        rw (e, move_position-applied m s p) (mark_applied-IsWellFormed m.event_id s.applied new w)
  ]

  -- A run of deliveries.
  unfoldable pub deliver : List (Movement f) → Ledger f → Ledger f
  deliver [] s = s
  deliver (m ∷ ms) s = deliver ms (apply f m s).1

  pub apply-IsRecent :
      (k : ℕ) (id : String) (m : Movement f) (s : Ledger f)
      → IsWellFormed s.applied
      → k + 1 < max_applied_events
      → IsRecent k id s.applied
      → IsRecent (k + 1) id (apply f m s).1.applied
  apply-IsRecent k id m s w small (older, newer, split, short) = elim (apply-cases m s) [
    | inl (seen, e) ↦ rw e (older, newer, split, omega arith)
    | inr (inl (x, e)) ↦ rw e (older, newer, split, omega arith)
    | inr (inr (s', new, p, e)) ↦
        rw (e, move_position-applied m s p)
          (mark_applied-IsRecent k m.event_id id s.applied w small (older, newer, split, short))
  ]

  deliver-seen :
      (k : ℕ) (id : String) (ms : List (Movement f)) (s : Ledger f)
      → IsWellFormed s.applied
      → k + length ms < max_applied_events
      → IsRecent k id s.applied
      → (deliver ms s).applied.events id ≡ true
  unfolding deliver
  deliver-seen k id [] s w small recent = IsRecent-seen k id s.applied w recent
  deliver-seen k id (m ∷ ms) s w small recent =
      deliver-seen (k + 1) id ms (apply f m s).1 (apply-IsWellFormed m s w) (omega arith)
        (apply-IsRecent k id m s w (omega arith) recent)

  pub applied-IsRecent :
      (m : Movement f) (s : Ledger f) {s' : Ledger f}
      → IsWellFormed s.applied
      → apply f m s ≡ (ok true, s')
      → IsRecent 0 m.event_id s'.applied
  applied-IsRecent m s {s'} w h = elim (apply-cases m s) [
    | inl (seen, e) ↦ cc
    | inr (inl (x, e)) ↦ cc
    | inr (inr (s₁, new, p, e)) ↦
        let same : s' ≡ record s₁ { applied = mark_applied m.event_id s₁.applied } =
          ap (λ r. r.1) (sym h ∙ e) in
        rw (same, move_position-applied m s p) (mark_applied-IsRecent_self m.event_id s.applied w)
  ]

  -- Once a movement has been applied to a ledger whose deduplication set is well formed, a
  -- redelivery of it is skipped and changes nothing, after any further deliveries, as long as there
  -- are fewer of them than the window holds.
  pub redelivery_ignored :
      (m : Movement f) (ms : List (Movement f)) (s : Ledger f) {s' : Ledger f}
      → IsWellFormed s.applied
      → apply f m s ≡ (ok true, s')
      → length ms < max_applied_events
      → apply f m (deliver ms s') ≡ (ok false, deliver ms s')
  unfolding apply
  redelivery_ignored m ms s {s'} w h small =
      let w' : IsWellFormed s'.applied =
        subst (λ r. IsWellFormed r.1.applied) h (apply-IsWellFormed m s w) in
      rw (deliver-seen 0 m.event_id ms s' w' (omega arith) (applied-IsRecent m s w h))
