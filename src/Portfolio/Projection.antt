-- ===== src/Portfolio/Projection.antt =====
-- The event path of `PortfolioService`, portfolio-service/internal/service/portfolio_service.go and
-- domain/event.go.
use fund_kit.Base.{
  ℕ, ◌+◌, ◌<◌, String, List, [], ◌∷◌, ◌≡◌, ◌≢◌, subst, ◌⊎◌, inl, inr, some, true, eq_iff, arith,
  length, ok, err, Result-cases, Bool-cases,
}
use fund_kit.Base.Int.{pos, ◌≤ℤ◌}
use fund_kit.Portfolio.Float.{Float64}
use fund_kit.Portfolio.Position.{permanent}
use fund_kit.Portfolio.Event.{Side, OrderEvent, validate, is_executed, side}
use fund_kit.Portfolio.Ledger.{Ledger, Movement, apply, max_applied_events}
use fund_kit.Portfolio.Ledger.Dedup.{IsWellFormed, IsRecent, IsRecent-seen}
use fund_kit.Portfolio.Ledger.Idempotence.{
  apply-cases, apply-IsWellFormed, apply-IsRecent, applied-IsRecent,
}
use fund_kit.Portfolio.Service.{Feed, State, fill_units, movement, apply_fill, apply_order_event}

-- An accepted envelope has the supported version, an event id, an order id, a user, a fund and a
-- positive amount, and every other envelope is a permanent failure.
pub validate_outcome :
    (e : OrderEvent)
    → ((validate e ≡ ok tt)
        × (e.version ≡ 2)
        × (e.event_id ≢ "")
        × (e.order.id ≢ "")
        × (e.order.user_id ≢ "")
        × (e.order.fund_id ≢ "")
        × (pos 1 ≤ℤ e.order.amount))
      ⊎ ((validate e ≡ err permanent)
          × ((e.version ≢ 2)
              ⊎ (e.event_id ≡ "")
              ⊎ (e.order.id ≡ "")
              ⊎ (e.order.user_id ≡ "")
              ⊎ (e.order.fund_id ≡ "")
              ⊎ (e.order.amount ≤ℤ pos 0)))
unfolding validate
validate_outcome e = ground (
  arith,
  eq_iff e.event_id "",
  eq_iff e.order.id "",
  eq_iff e.order.user_id "",
  eq_iff e.order.fund_id "",
)

module _ (f : Float64) (n : Feed f) where
  -- The event is a valid executed fill that was given these units, and the ledger took its movement.
  abbrev pub IsFilled : OrderEvent → State f n → State f n → Type 0
  IsFilled e s s' =
      (validate e ≡ ok tt)
      × (is_executed e ≡ true)
      × ((sd : Side) × (units : f.F) × (side e.order ≡ ok sd)
          × ((fill_units f n e.order s.world).0 ≡ ok units)
          × (apply f (movement f n e (some sd) units) s.ledger ≡ (ok true, s'.ledger)))

  apply_fill-cases :
      (e : OrderEvent) (sd : Side) (s : State f n)
      → let (r, s') = apply_fill f n e sd s in
        ((units : f.F) × (r ≡ ok true)
          × ((fill_units f n e.order s.world).0 ≡ ok units)
          × (apply f (movement f n e (some sd) units) s.ledger ≡ (ok true, s'.ledger)))
        ⊎ ((r ≢ ok true) × (s'.ledger ≡ s.ledger))
  unfolding apply_fill
  apply_fill-cases e sd s = elim (Result-cases (fill_units f n e.order s.world).0) [
    | inr (x, p) ↦ inr (rw (p, apply_fill) (λ q. cc), rw (p, apply_fill))
    | inl (units, p) ↦ elim (apply-cases f (movement f n e (some sd) units) s.ledger) [
      | inl (seen, q) ↦ inr (rw (p, apply_fill, q) (λ r. cc), rw (p, apply_fill, q))
      | inr (inl (x, q)) ↦ inr (rw (p, apply_fill, q) (λ r. cc), rw (p, apply_fill, q))
      | inr (inr (s', new, moved, q)) ↦ inl (units, rw (p, apply_fill, q), p, rw (p, apply_fill, q))
    ]
  ]

  -- `ApplyOrderEvent` answers true for such a fill only; otherwise the ledger is as it was.
  pub apply_order_event-cases :
      (e : OrderEvent) (s : State f n)
      → let (r, s') = apply_order_event f n e s in
        ((r ≡ ok true) × IsFilled e s s') ⊎ ((r ≢ ok true) × (s'.ledger ≡ s.ledger))
  unfolding apply_order_event
  apply_order_event-cases e s = elim (Result-cases (validate e)) [
    | inr (x, p) ↦ inr (rw (p, apply_order_event) (λ q. cc), rw (p, apply_order_event))
    | inl (u, p) ↦ elim (Bool-cases (is_executed e)) [
      | inr other_status ↦ inr (
        rw (p, apply_order_event, other_status) (λ q. cc),
        rw (p, apply_order_event, other_status),
      )
      | inl executed ↦ elim (Result-cases (side e.order)) [
        | inr (x, q) ↦ inr (
          rw (p, apply_order_event, executed, q) (λ r. cc),
          rw (p, apply_order_event, executed, q),
        )
        | inl (sd, q) ↦ elim (apply_fill-cases e sd s) [
          | inr (r, same) ↦ inr (
            rw (p, apply_order_event, executed, q) r,
            rw (p, apply_order_event, executed, q) same,
          )
          | inl (units, r, priced, applied) ↦ inl (
            rw (p, apply_order_event, executed, q) r,
            (p, executed, (sd, units, q, priced, rw (p, apply_order_event, executed, q) applied)),
          )
        ]
      ]
    ]
  ]

  apply_order_event-IsWellFormed :
      (e : OrderEvent) (s : State f n)
      → IsWellFormed s.ledger.applied
      → IsWellFormed (apply_order_event f n e s).1.ledger.applied
  apply_order_event-IsWellFormed e s w = elim (apply_order_event-cases e s) [
    | inr (r, same) ↦ rw same w
    | inl (r, (valid, executed, (sd, units, q, priced, applied))) ↦
        subst (λ x. IsWellFormed x.1.applied) applied
          (apply-IsWellFormed f (movement f n e (some sd) units) s.ledger w)
  ]

  apply_order_event-IsRecent :
      (k : ℕ) (id : String) (e : OrderEvent) (s : State f n)
      → IsWellFormed s.ledger.applied
      → k + 1 < max_applied_events
      → IsRecent k id s.ledger.applied
      → IsRecent (k + 1) id (apply_order_event f n e s).1.ledger.applied
  apply_order_event-IsRecent k id e s w small (older, newer, split, short) =
      elim (apply_order_event-cases e s) [
        | inr (r, same) ↦ rw same (older, newer, split, omega arith)
        | inl (r, (valid, executed, (sd, units, q, priced, applied))) ↦
            subst (λ x. IsRecent (k + 1) id x.1.applied) applied
              (apply-IsRecent f k id (movement f n e (some sd) units) s.ledger w small
                (older, newer, split, short))
      ]

  -- The consumer's run over a stream of events.
  unfoldable pub project : List OrderEvent → State f n → State f n
  project [] s = s
  project (e ∷ es) s = project es (apply_order_event f n e s).1

  project-seen :
      (k : ℕ) (id : String) (es : List OrderEvent) (s : State f n)
      → IsWellFormed s.ledger.applied
      → k + length es < max_applied_events
      → IsRecent k id s.ledger.applied
      → (project es s).ledger.applied.events id ≡ true
  unfolding project
  project-seen k id [] s w small recent = IsRecent-seen k id s.ledger.applied w recent
  project-seen k id (e ∷ es) s w small recent =
      project-seen (k + 1) id es (apply_order_event f n e s).1
        (apply_order_event-IsWellFormed e s w) (omega arith)
        (apply_order_event-IsRecent k id e s w (omega arith) recent)

  filled-seen :
      (e : OrderEvent) (es : List OrderEvent) (s s' : State f n)
      → IsWellFormed s.ledger.applied
      → IsFilled e s s'
      → length es < max_applied_events
      → (project es s').ledger.applied.events e.event_id ≡ true
  filled-seen e es s s' w (valid, executed, (sd, units, q, priced, applied)) small =
      let m = movement f n e (some sd) units in
      project-seen 0 e.event_id es s'
        (subst (λ x. IsWellFormed x.1.applied) applied (apply-IsWellFormed f m s.ledger w))
        (omega arith) (applied-IsRecent f m s.ledger w applied)

  -- An event that has changed a ledger whose deduplication set is well formed does not change it
  -- again when it is redelivered after further events, as long as there are fewer of them than the
  -- deduplication window holds.
  pub redelivered_event_harmless :
      (e : OrderEvent) (es : List OrderEvent) (s : State f n)
      → IsWellFormed s.ledger.applied
      → (apply_order_event f n e s).0 ≡ ok true
      → length es < max_applied_events
      → let t = project es (apply_order_event f n e s).1 in
        ((apply_order_event f n e t).0 ≢ ok true)
        × ((apply_order_event f n e t).1.ledger ≡ t.ledger)
  redelivered_event_harmless e es s w taken small =
      let t = project es (apply_order_event f n e s).1 in
      elim (apply_order_event-cases e s) [
        | inr (r, same) ↦ absurd (r taken)
        | inl (r, filled) ↦
            let seen = filled-seen e es s (apply_order_event f n e s).1 w filled small in
            elim (apply_order_event-cases e t) [
              | inr kept ↦ kept
              | inl (r', (valid, executed, (sd, units, q, priced, applied))) ↦
                  absurd (seen_refused (movement f n e (some sd) units) t.ledger seen applied)
            ]
      ]
    where
      seen_refused :
          (m : Movement f) (l : Ledger f) {l' : Ledger f}
          → l.applied.events m.event_id ≡ true
          → apply f m l ≡ (ok true, l')
          → ⊥
      seen_refused m l seen h = elim (apply-cases f m l) [
        | inl (s₁, q) ↦ cc
        | inr (inl (x, q)) ↦ cc
        | inr (inr (s₁, new, moved, q)) ↦ cc
      ]
