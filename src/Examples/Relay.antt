-- ===== src/Examples/Relay.antt =====
-- A pass over three rows, of which the broker refuses the first order's.
use fund_kit.Base.{
  refl, ℕ, ◌<◌, String, List, [], ◌∷◌, ◌++◌, none, some, ◌≡◌, Result, ok, err, arith, ◌==◌,
  if◌then◌else◌, codes, length, false, true, eqb, Option, Bool-cases, inl, inr, subst,
}
use Prim.Native.Nat.{max}
use fund_kit.Base.Int.{pos}
use fund_kit.Orders.Status.{pending}
use fund_kit.Orders.Domain.{Order, OutboxMessage, OutboxStatus}
use fund_kit.Relay.Batch.{
  publish_loop, publish_batch, publish_one, record_failure, failed_row, set_where, select,
}
use fund_kit.Relay.Order.{recorded, of, taken-IsPrefix, IsPrefixOf}
use fund_kit.Relay.Drain.{pending_count}
use fund_kit.Relay.Replicas.{taken_of_two, second_relay_overtakes}
use fund_kit.Relay.Run.{tick, done, run, AllWithin, run_stops_empty}
use fund_kit.Relay.Batch.{contains_id}
use fund_kit.Relay.Marked.{AreMarkedOf, IsWithin, ids_of}
use fund_kit.Relay.Delivered.{IsLogging, KeepsLog, run_marks_delivered}
use fund_kit.Relay.Loop.{Config, with_defaults, Weather, Drained, drain, drain_ends}

abbrev order_row : String → Order
order_row id = record {
  id = id;
  user_id = "u1";
  user_name = "Asha";
  user_email = "asha@example.com";
  user_phone = "";
  fund_id = "F001";
  amount = pos 50000;
  type = "BUY";
  status = pending;
  idempotency_key = "k1";
  created_at = 1;
  updated_at = 1;
}

abbrev row : ℕ → String → OutboxMessage
row i id = record {
  id = i;
  aggregate_type = "order";
  aggregate_id = id;
  event_type = "order.status_changed";
  payload = record {
    event_id = "e";
    event_type = "order.status_changed";
    version = 2;
    occurred_at = 1;
    request_id = "r";
    order = order_row id;
  };
  request_id = "r";
  status = OutboxStatus.pending;
  attempts = 0;
  last_error = [];
  created_at = 1;
  processed_at = none;
}

abbrev rows : List OutboxMessage
rows = row 1 "o1" ∷ row 2 "o2" ∷ row 3 "o1" ∷ []

-- The broker's log of ids.
abbrev publish : OutboxMessage → List ℕ → Result (List ℕ) (Unit {0}) × List ℕ
publish m log =
    if m.aggregate_id == "o1" then (err (codes "refused"), log) else (ok tt, log ++ m.id ∷ [])

taken-IsPrefix_example :
    let (r, rows', (broker', log)) = publish_batch (recorded publish) 2 10 7 rows ([], []) in
    (r.published ≡ length log)
    × ((id : String) → IsPrefixOf (of id log) (of id (row 1 "o1" ∷ row 2 "o2" ∷ [])))
unfolding select
taken-IsPrefix_example = taken-IsPrefix publish 2 10 7 rows []

one_sent : 0 < (publish_batch publish 2 10 7 rows []).0.published
unfolding publish_batch publish_loop publish_one record_failure failed_row set_where select
one_sent = omega arith

abbrev config : Config
config = record {
  interval = 0;
  batch_size = 0;
  max_attempts = 0;
  max_backoff = 0;
  shutdown_flush = 0;
}

abbrev weather : Weather publish
weather = record {
  cancelled = λ n. false;
  transaction_error = λ n broker. none;
  clock = λ n. n;
  arrivals = (row 7 "o7" ∷ []) ∷ [];
}

drain_ends_example :
    (r : Drained publish) × (drain publish
        (with_defaults config)
        weather
        5
        0
        weather.arrivals
        rows
        []
      ≡ some r)
drain_ends_example =
    drain_ends publish (with_defaults config) weather 5 0 weather.arrivals rows [] (omega arith)

abbrev accept : OutboxMessage → List ℕ → Result (List ℕ) (Unit {0}) × List ℕ
accept m log = (ok tt, log ++ m.id ∷ [])

abbrev good_weather : Weather accept
good_weather = record {
  cancelled = λ n. false;
  transaction_error = λ n broker. none;
  clock = λ n. n;
  arrivals = [] ∷ (row 8 "o8" ∷ []) ∷ [];
}

-- Every transaction fails, and then the context ends while another order is placed.
abbrev bad_weather : Weather accept
bad_weather = record good_weather { transaction_error = λ n broker. some ([], broker) }

run_stops_empty_example :
    let d = with_defaults config in
    let (waits, rows', broker') =
      run accept config
        (tick (λ l. l) bad_weather ∷ done (λ l. l ++ row 9 "o9" ∷ []) good_weather ∷ [])
        rows
        [] in
    AllWithin accept (max d.interval d.max_backoff) waits × (pending_count rows' ≡ 0)
unfolding with_defaults
run_stops_empty_example =
    run_stops_empty accept (λ m p. refl) config (tick (λ l. l) bad_weather ∷ []) []
      (λ l. l ++ row 9 "o9" ∷ []) good_weather rows [] tt (λ k. refl) (λ k p. refl) (omega arith)
      (omega arith)

-- Two events of one order: the second is sent first.
second_relay_overtakes_example :
    (more : List OutboxMessage) × (taken_of_two accept 10 1 (row 1 "o1" ∷ row 3 "o1" ∷ []) []
      ≡ row 3 "o1" ∷ (more ++ row 1 "o1" ∷ []))
second_relay_overtakes_example =
    second_relay_overtakes accept 10 (λ m p. refl) (row 1 "o1" ∷ []) [] (row 3 "o1") [] (refl, tt)
      (omega arith) (refl, tt)

-- A log that the broker keeps, of the ids that it has taken.
contains_id-more : (j : ℕ) (js : List ℕ) → IsWithin js (js ++ j ∷ [])
contains_id-more j [] i h = absurd (cc)
contains_id-more j (k ∷ js) i h = elim (Bool-cases (eqb i k)) [
  | inl here ↦ rw here refl
  | inr not_here ↦ rw (not_here, contains_id-more j js i (rw not_here at h)) refl
]

contains_id-last : (j : ℕ) (js : List ℕ) → contains_id j (js ++ j ∷ []) ≡ true
contains_id-last j [] = ground arith
contains_id-last j (k ∷ js) = ground (arith, contains_id-last j js)

publish-IsLogging : IsLogging publish (λ log. log)
publish-IsLogging = record {
  kept = λ m log. elim (Bool-cases (m.aggregate_id == "o1")) [
    | inl refused ↦ rw refused (λ i h. h)
    | inr sent ↦ rw sent (contains_id-more m.id log)
  ];
  added = λ m log e. elim (Bool-cases (m.aggregate_id == "o1")) [
    | inl refused ↦ absurd (cc (rw refused at e))
    | inr sent ↦ rw sent (contains_id-last m.id log)
  ];
}

-- The first transaction of every drain fails after it has published a row.
abbrev lossy_weather : Weather publish
lossy_weather = record weather {
  transaction_error = λ n log. if eqb n 0 then some (codes "reset", log ++ 2 ∷ []) else none;
}

lossy_weather-KeepsLog : KeepsLog publish (λ log. log) lossy_weather
lossy_weather-KeepsLog n log e log' failed = elim (Bool-cases (eqb n 0)) [
  | inl first ↦
      let same : ◌≡◌ {A = Option (List ℕ × List ℕ)} (some (codes "reset", log ++ 2 ∷ []))
          (some (e, log')) =
        rw first at failed in
      subst (IsWithin log) (cc (same)) (contains_id-more 2 log)
  | inr later ↦ absurd (cc (rw later at failed))
]

run_marks_delivered_example :
    let (waits, rows', broker') =
      run publish config (tick (λ l. l) lossy_weather ∷ done (λ l. l) weather ∷ []) rows [] in
    AreMarkedOf broker' rows' × IsWithin (ids_of rows) (ids_of rows')
run_marks_delivered_example =
    run_marks_delivered publish (λ log. log) config
      (tick (λ l. l) lossy_weather ∷ done (λ l. l) weather ∷ []) rows [] publish-IsLogging
      (
        (λ ids l h. h, λ l i h. h),
        lossy_weather-KeepsLog,
        ((λ ids l h. h, λ l i h. h), λ n log e log' failed. absurd (cc), tt),
      )
      (λ h. absurd (cc), (λ h. absurd (cc), (λ h. absurd (cc), tt)))
