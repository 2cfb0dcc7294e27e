-- ===== src/Examples/Portfolio.antt =====
-- A ledger over a whole-number arithmetic: a number of the model is a count of thousandths.
use fund_kit.Base.{
  inl, inr, ap, update, ==-false, ℕ, ◌+◌, ◌-◌, ◌*◌, ◌/◌, ◌≡◌, ◌≢◌, [], ◌∷◌, none, some, refl, true,
  false, leb, ltb, ok, ◌⊎◌, map, arith,
}
use fund_kit.Base.Int.{ℤ, pos, negsuc, wrap64}
use fund_kit.Portfolio.Float.{Float64}
use fund_kit.Portfolio.Position.{Holding, units_for, apply_sell}
use fund_kit.Portfolio.Event.{buy, sell, OrderEvent, validate, is_executed, side}
use fund_kit.Portfolio.Ledger.{
  Movement, Ledger, apply, list_by_user, mark_applied, sell_from, buy_into,
}
use fund_kit.Portfolio.Ledger.Dedup.{IsWellFormed}
use fund_kit.Portfolio.Ledger.Idempotence.{deliver}
use fund_kit.Portfolio.Ledger.Redelivery.{first, again, finished, redelivered_stream_same}
use fund_kit.Portfolio.Ledger.Refinement.{view, IsValid}
use fund_kit.Portfolio.Ledger.Repeats.{bought_twice, second_event_applied}
use fund_kit.Portfolio.Service.{
  Feed, State, apply_order_event, valuate, apply_fill, fill_units, resolve_nav, fetch_nav,
}
use fund_kit.Portfolio.Projection.{project, redelivered_event_harmless}
use fund_kit.Portfolio.Pricing.{IsProjected, apply_order_event_outcome}
use fund_kit.Portfolio.Valuation.{sum_values, sum_gains, holding_of, valuate_totals}

abbrev pub magnitude : ℤ → ℕ
magnitude (pos n) = n
magnitude (negsuc n) = 0

abbrev pub thousandths : Float64
thousandths = record {
  F = ℕ;
  zero = 0;
  unit_epsilon = 0;
  hundred = 100_000;
  add = λ a b. a + b;
  sub = λ a b. a - b;
  mul = λ a b. a * b / 1_000;
  div = λ a b. a * 1_000 / b;
  le = leb;
  lt = ltb;
  is_nan = λ a. false;
  is_inf = λ a. false;
  of_int = λ m. magnitude m * 1_000;
  round_to_money = λ a. pos ((a + 500) / 1_000);
}

-- A feed with one price and no cache.
abbrev pub feed : Feed thousandths
feed = record {
  World = Unit;
  get_nav = λ id w. (ok none, w);
  set_nav = λ id price w. (ok tt, w);
  fetch = λ id w. (ok 50_000, w);
}

abbrev pub empty : Ledger thousandths
empty = record { by_user = λ u. []; applied = record { events = λ id. false; order = [] } }

abbrev pub buying : Movement thousandths
buying = record {
  event_id = "e1";
  user_id = "u1";
  fund_id = "F001";
  side = some buy;
  units = 10_000;
  amount = pos 50_000;
}

abbrev selling : Movement thousandths
selling = record buying { event_id = "e2"; side = some sell; units = 4_000 }

empty-IsWellFormed : IsWellFormed empty.applied
empty-IsWellFormed = record { distinct = tt; agrees = λ k. refl; bounded = omega arith }

abbrev bought : Ledger thousandths
bought = (apply thousandths buying empty).1

buying_applied : apply thousandths buying empty ≡ (ok true, bought)
unfolding apply
buying_applied = refl

selling_applied : (apply thousandths selling bought).0 ≡ ok true
unfolding apply mark_applied update sell_from buy_into apply_sell
selling_applied = refl

-- The purchase is delivered three times, and the sale twice.
redelivered_stream_same_example :
    deliver thousandths (buying ∷ buying ∷ selling ∷ buying ∷ selling ∷ []) empty
    ≡ deliver thousandths (buying ∷ selling ∷ []) empty
redelivered_stream_same_example =
    redelivered_stream_same thousandths empty {sent = buying ∷ selling ∷ []}
      {delivered = buying ∷ buying ∷ selling ∷ buying ∷ selling ∷ []}
      (first buying (
        again buying (inl refl)
          (first selling (again buying (inr (inl refl)) (again selling (inl refl) finished)))))
      empty-IsWellFormed (omega arith) (ap (λ r. r.0) buying_applied, (selling_applied, tt))

abbrev event : OrderEvent
event = record {
  event_id = "e1";
  event_type = "order.status_changed";
  version = 2;
  occurred_at = 1;
  request_id = "r";
  order = record {
    id = "o1";
    user_id = "u1";
    fund_id = "F001";
    amount = pos 50_000;
    type = "BUY";
    status = "EXECUTED";
  };
}

abbrev service : State thousandths feed
service = record { ledger = empty; world = tt }

apply_order_event_outcome_example :
    let (r, s') = apply_order_event thousandths feed event service in
    ((r ≡ ok true) × IsProjected thousandths feed event service s'.ledger)
    ⊎ ((r ≢ ok true)
        × ((ledger : Ledger thousandths) → ¬ IsProjected thousandths feed event service ledger)
        × (s'.ledger ≡ empty))
apply_order_event_outcome_example = apply_order_event_outcome thousandths feed event service refl

event_taken : (apply_order_event thousandths feed event service).0 ≡ ok true
unfolding apply_order_event validate is_executed side apply_fill fill_units units_for resolve_nav
    fetch_nav apply
event_taken = refl

redelivered_event_harmless_example :
    let t =
      project thousandths feed (event ∷ []) (apply_order_event thousandths feed event service).1 in
    ((apply_order_event thousandths feed event t).0 ≢ ok true)
    × ((apply_order_event thousandths feed event t).1.ledger ≡ t.ledger)
redelivered_event_harmless_example =
    redelivered_event_harmless thousandths feed event (event ∷ []) service empty-IsWellFormed
      event_taken (omega arith)

valuate_totals_example :
    let v = (valuate thousandths feed "u1" service).0 in
    (map (holding_of thousandths) v.holdings ≡ list_by_user thousandths "u1" empty)
    × (v.total_value ≡ wrap64 (sum_values thousandths v.holdings))
    × (v.total_unrealized_gain ≡ wrap64 (sum_gains thousandths v.holdings))
valuate_totals_example = valuate_totals thousandths feed "u1" service

abbrev held : Holding thousandths
held = record { fund_id = "F001"; fund_name = "F001"; units = 10_000; invested_amount = pos 50_000 }

abbrev holding_ledger : Ledger thousandths
holding_ledger = record empty { by_user = λ u. held ∷ [] }

holding_ledger-IsValid : IsValid thousandths holding_ledger
holding_ledger-IsValid u = (refl, tt)

second_event_applied_example :
    view thousandths
      (apply thousandths
        (record buying { event_id = "e2" })
        (apply thousandths buying holding_ledger).1).1
      "u1"
      "F001"
    ≡ some (bought_twice thousandths buying held)
second_event_applied_example =
    second_event_applied thousandths buying "e2" holding_ledger held holding_ledger-IsValid refl
      refl refl (==-false "e1" "e2" refl) refl
