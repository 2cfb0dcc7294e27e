-- ===== src/Portfolio/Pricing.antt =====
-- Which events move the ledger, and by how many units: `ApplyOrderEvent` with `unitsFor` and
-- `resolveNAV`, portfolio-service/internal/service/portfolio_service.go, and `UnitsFor`,
-- portfolio-service/internal/domain/portfolio.go.
use fund_kit.Base.{
  String, none, some, ◌≡◌, ◌≢◌, refl, sym, ap, ◌∙◌, ◌⊎◌, inl, inr, true, false, ok, ok-injective,
  Result-cases, Bool-cases,
}
use fund_kit.Portfolio.Float.{Float64}
use fund_kit.Portfolio.Position.{units_for}
use fund_kit.Portfolio.Event.{Side, Order, OrderEvent, validate, is_executed, side}
use fund_kit.Portfolio.Ledger.{Ledger, apply}
use fund_kit.Portfolio.Service.{
  Feed, State, fetch_nav, resolve_nav, fill_units, movement, apply_fill, apply_order_event,
}
use fund_kit.Portfolio.Projection.{apply_order_event-cases}

module _ (f : Float64) (n : Feed f) where
  open f use {F}
  open n use {World}

  -- The cache has this price, or it has none or fails and the feed answers it.
  abbrev pub IsQuoted : String → World → F → Type 0
  IsQuoted fund_id w nav =
      ((n.get_nav fund_id w).0 ≡ ok (some nav))
      ⊎ (((price : F) → (n.get_nav fund_id w).0 ≢ ok (some price))
          × ((n.fetch fund_id (n.get_nav fund_id w).1).0 ≡ ok nav))

  -- A price that is positive and finite.
  abbrev pub IsUsable : F → Type 0
  IsUsable nav = (f.le nav f.zero ≡ false) × (f.is_nan nav ≡ false) × (f.is_inf nav ≡ false)

  -- The units that the amount, in rupees, buys at such a price; they are more than zero.
  abbrev pub IsPriced : Order → World → F → Type 0
  IsPriced o w units =
      (nav : F) × IsQuoted o.fund_id w nav
      × IsUsable nav
      × (units ≡ f.div (f.div (f.of_int o.amount) f.hundred) nav)
      × (f.le units f.zero ≡ false)

  -- The event is valid, executed and priced, and the ledger takes its movement.
  abbrev pub IsProjected : OrderEvent → State f n → Ledger f → Type 0
  IsProjected e s ledger =
      (validate e ≡ ok tt)
      × (is_executed e ≡ true)
      × ((sd : Side) × (units : F) × (side e.order ≡ ok sd)
          × IsPriced e.order s.world units
          × (apply f (movement f n e (some sd) units) s.ledger ≡ (ok true, ledger)))

  resolve_nav-quoted :
      (fund_id : String) (w : World) (nav : F)
      → IsQuoted fund_id w nav
      → (resolve_nav f n fund_id w).0 ≡ nav
  unfolding resolve_nav fetch_nav
  resolve_nav-quoted fund_id w nav (inl hit) = rw (hit, resolve_nav) refl
  resolve_nav-quoted fund_id w nav (inr (miss, fetched)) =
      elim (Result-cases (n.get_nav fund_id w).0) [
        | inl (some price, q) ↦ absurd (miss price q)
        | inl (none, q) ↦ rw (q, resolve_nav, fetched, fetch_nav) refl
        | inr (e, q) ↦ rw (q, resolve_nav, fetched, fetch_nav) refl
      ]

  fetch_nav-quoted :
      (fund_id : String) (w w' : World)
      → ((fetch_nav f n fund_id w').0 ≡ f.zero)
        ⊎ ((n.fetch fund_id w').0 ≡ ok (fetch_nav f n fund_id w').0)
  unfolding fetch_nav
  fetch_nav-quoted fund_id w w' = elim (Result-cases (n.fetch fund_id w').0) [
    | inl (price, q) ↦ inr (rw (q, fetch_nav) refl)
    | inr (e, q) ↦ inl (rw (q, fetch_nav) refl)
  ]

  -- The price is quoted, or it is zero.
  resolve_nav-cases :
      (fund_id : String) (w : World)
      → ((resolve_nav f n fund_id w).0 ≡ f.zero) ⊎ IsQuoted fund_id w (resolve_nav f n fund_id w).0
  unfolding resolve_nav
  resolve_nav-cases fund_id w =
      let fed = fetch_nav-quoted fund_id w (n.get_nav fund_id w).1 in
      elim (Result-cases (n.get_nav fund_id w).0) [
        | inl (some price, q) ↦ inr (inl (rw (q, resolve_nav) refl))
        | inl (none, q) ↦ elim fed [
          | inl zero ↦ inl (rw (q, resolve_nav) zero)
          | inr quoted ↦ inr (inr (λ price z. absurd (cc (q, z)), rw (q, resolve_nav) quoted))
        ]
        | inr (e, q) ↦ elim fed [
          | inl zero ↦ inl (rw (q, resolve_nav) zero)
          | inr quoted ↦ inr (inr (λ price z. absurd (cc (q, z)), rw (q, resolve_nav) quoted))
        ]
      ]

  fill_units_complete :
      (o : Order) (w : World) (units : F) → IsPriced o w units → (fill_units f n o w).0 ≡ ok units
  unfolding fill_units units_for
  fill_units_complete o w units (nav, quoted, (high, number, finite), bought, some_units) =
      let priced = resolve_nav-quoted o.fund_id w nav quoted in
      rw (priced, fill_units, high, number, finite, ← bought, some_units) refl

  units_for-cases :
      (o : Order) (nav : F)
      → (units_for f o.amount nav ≡ f.zero)
        ⊎ (IsUsable nav
            × (units_for f o.amount nav ≡ f.div (f.div (f.of_int o.amount) f.hundred) nav))
  unfolding units_for
  units_for-cases o nav = elim (Bool-cases (f.le nav f.zero)) [
    | inl low ↦ inl (rw low refl)
    | inr high ↦ elim (Bool-cases (f.is_nan nav)) [
      | inl odd ↦ inl (rw (high, odd) refl)
      | inr number ↦ elim (Bool-cases (f.is_inf nav)) [
        | inl endless ↦ inl (rw (high, number, endless) refl)
        | inr finite ↦ inr ((high, number, finite), rw (high, number, finite) refl)
      ]
    ]
  ]

  fill_units-eq :
      (o : Order) (w : World) (units : F)
      → (fill_units f n o w).0 ≡ ok units
      → let nav = (resolve_nav f n o.fund_id w).0 in
        (units_for f o.amount nav ≡ units) × (f.le units f.zero ≡ false)
  unfolding fill_units
  fill_units-eq o w units h =
      let nav = (resolve_nav f n o.fund_id w).0 in
      elim (Bool-cases (f.le (units_for f o.amount nav) f.zero)) [
        | inl none_bought ↦ absurd (cc (rw (none_bought, fill_units) at h))
        | inr some_bought ↦
            let e : units_for f o.amount nav ≡ units =
              ok-injective (rw (some_bought, fill_units) at h) in
            (e, ap (λ u. f.le u f.zero) (sym e) ∙ some_bought)
      ]

  fill_units_sound :
      (o : Order) (w : World) (units : F)
      → f.le f.zero f.zero ≡ true
      → (fill_units f n o w).0 ≡ ok units
      → IsPriced o w units
  fill_units_sound o w units zero_le h =
      let nav = (resolve_nav f n o.fund_id w).0 in
      let (e, some_units) = fill_units-eq o w units h in
      elim (units_for-cases o nav) [
        | inl zero ↦ absurd (cc (some_units, zero_le, ap (λ u. f.le u f.zero) (sym e ∙ zero)))
        | inr ((high, number, finite), bought) ↦ elim (resolve_nav-cases o.fund_id w) [
          | inl unquoted ↦ absurd (cc (high, zero_le, ap (λ u. f.le u f.zero) unquoted))
          | inr quoted ↦ (nav, quoted, (high, number, finite), sym e ∙ bought, some_units)
        ]
      ]

  apply_order_event-projected :
      (e : OrderEvent) (s : State f n) (ledger : Ledger f)
      → IsProjected e s ledger
      → (apply_order_event f n e s).0 ≡ ok true
  unfolding apply_order_event apply_fill
  apply_order_event-projected e s ledger (valid, executed, (sd, units, q, priced, applied)) =
      let filled = fill_units_complete e.order s.world units priced in
      rw (valid, apply_order_event, executed, q, filled, apply_fill, applied) refl

  -- If zero is at most zero, as for a float64, `ApplyOrderEvent` answers true exactly when the
  -- event is valid and executed and has a side, the cache or else the feed quotes a price of its
  -- fund that is positive and finite, the rupees of its amount divided by that price are more than
  -- zero units, and the ledger takes the movement of these units; otherwise the ledger is as it
  -- was.
  pub apply_order_event_outcome :
      (e : OrderEvent) (s : State f n)
      → f.le f.zero f.zero ≡ true
      → let (r, s') = apply_order_event f n e s in
        ((r ≡ ok true) × IsProjected e s s'.ledger)
        ⊎ ((r ≢ ok true)
            × ((ledger : Ledger f) → ¬ IsProjected e s ledger)
            × (s'.ledger ≡ s.ledger))
  apply_order_event_outcome e s zero_le = elim (apply_order_event-cases f n e s) [
    | inl (r, (valid, executed, (sd, units, q, filled, applied))) ↦
        let priced = fill_units_sound e.order s.world units zero_le filled in
        inl (r, (valid, executed, (sd, units, q, priced, applied)))
    | inr (other, same) ↦
        inr (
          other,
          λ ledger projected. other (apply_order_event-projected e s ledger projected),
          same,
        )
  ]
