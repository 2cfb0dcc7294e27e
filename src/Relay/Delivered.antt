-- ===== src/Relay/Delivered.antt =====
-- What the relay marks processed, order-service/internal/relay/relay.go and
-- order-service/internal/repository/outbox_repository.go.
use fund_kit.Base.{
  ℕ, zero, suc, ◌+◌, List, [], ◌∷◌, ◌≡◌, inl, inr, Option, none, some, true, contains, eqb, ltb,
  take, Result, ok, Bool-cases, Option-cases, Result-cases,
}
use fund_kit.Orders.Domain.{OutboxMessage}
use fund_kit.Relay.Batch.{
  Batch, BatchResult, is_pending, select, contains_id, publish_one, publish_loop, publish_batch,
  start,
}
use fund_kit.Relay.Marked.{
  AreMarkedOf, IsWithin, IsKept, IsKept-IsWithin, ids_of, contains_id-snoc, record_failure-IsKept,
  mark_processed-IsKept, arrive-IsKept,
}
use fund_kit.Relay.Drain.{pending_count}
use fund_kit.Base.Int.{ℤ}
use fund_kit.Relay.Loop.{
  arrive, arrivals_now, arrivals_later, arrival_count, Config, with_defaults, Weather, Drained,
  after_pass, drain,
}
use fund_kit.Relay.Run.{Turn, tick, done, drain_all, flush, run_from, run}

module _ {P : Type 0} (publish : OutboxMessage → P → Result (List ℕ) (Unit {0}) × P)
    (log : P → List ℕ) where
  -- The ids that the broker has taken: none is forgotten, and a message that it accepts is among
  -- them.
  pub record IsLogging : Type 0 where
    pub kept : (m : OutboxMessage) (p : P) → IsWithin (log p) (log (publish m p).1)
    pub added :
        (m : OutboxMessage) (p : P) {answered : Unit {0}}
        → (publish m p).0 ≡ ok answered
        → contains_id m.id (log (publish m p).1) ≡ true

  -- What a failed transaction has published by then is not forgotten either.
  abbrev pub KeepsLog : Weather publish → Type 0
  KeepsLog w =
      (n : ℕ) (p : P) (e : List ℕ) (p' : P)
      → w.transaction_error n p ≡ some (e, p')
      → IsWithin (log p) (log p')

  -- The others mark no row processed and remove none.
  abbrev pub IsHonest : (List OutboxMessage → List OutboxMessage) → Type 0
  IsHonest others =
      ((ids : List ℕ) (rows : List OutboxMessage)
        → AreMarkedOf ids rows
        → AreMarkedOf ids (others rows))
      × ((rows : List OutboxMessage) → IsWithin (ids_of rows) (ids_of (others rows)))

  -- In every turn the others are, and a failed transaction keeps the broker's log.
  abbrev pub AreHonest : List (Turn publish) → Type 0
  AreHonest [] = Unit
  AreHonest (tick others w ∷ ts) = IsHonest others × KeepsLog w × AreHonest ts
  AreHonest (done others w ∷ ts) = IsHonest others × KeepsLog w × AreHonest ts

  module _ (logging : IsLogging) (before : List ℕ) where
    -- The rows, and what is to be marked, have been taken by the broker.
    abbrev IsTaken : Batch P → Type 0
    IsTaken b = IsKept before (log b.broker) b.rows × IsWithin b.published (log b.broker)

    publish_one-IsTaken :
        (max : ℕ) (m : OutboxMessage) (b : Batch P)
        → IsTaken b
        → IsTaken (publish_one publish max m b)
    unfolding publish_one
    publish_one-IsTaken max m b (marked, taken) =
        elim (Bool-cases (contains m.aggregate_id b.blocked)) [
          | inl blocked ↦ rw (blocked, publish_one) (marked, taken)
          | inr clear ↦
              let within = logging.kept m b.broker in
              elim (Result-cases (publish m b.broker).0) [
                | inr (cause, q) ↦
                    rw (clear, publish_one, q)
                      (
                        record_failure-IsKept before _ max cause m b.rows
                            (IsKept-IsWithin before _ _ b.rows within marked),
                        λ i h. within i (taken i h),
                      )
                | inl (sent, q) ↦
                    rw (clear, publish_one, q)
                      (
                        IsKept-IsWithin before _ _ b.rows within marked,
                        λ i h. elim (contains_id-snoc i m.id b.published h) [
                          | inl old ↦ within i (taken i old)
                          | inr same ↦ rw same (logging.added m b.broker q)
                        ],
                      )
              ]
        ]

    publish_loop-IsTaken :
        (max : ℕ) (ms : List OutboxMessage) (b : Batch P)
        → IsTaken b
        → IsTaken (publish_loop publish max ms b)
    unfolding publish_loop
    publish_loop-IsTaken max [] b h = h
    publish_loop-IsTaken max (m ∷ ms) b h =
        publish_loop-IsTaken max ms (publish_one publish max m b) (publish_one-IsTaken max m b h)

    -- The rows that are marked have been taken by the broker.
    abbrev pub IsSound : List OutboxMessage → P → Type 0
    IsSound rows broker = IsKept before (log broker) rows

    publish_batch-IsSound :
        (limit max now : ℕ) (rows : List OutboxMessage) (broker : P)
        → IsSound rows broker
        → let pass = publish_batch publish limit max now rows broker in IsSound pass.1 pass.2
    unfolding publish_batch
    publish_batch-IsSound limit max now rows broker h =
        let batch = take limit (select is_pending rows) in
        let b = publish_loop publish max batch (start publish rows broker) in
        let (marked, taken) =
          publish_loop-IsTaken max batch (start publish rows broker)
            (h, λ i none_yet. absurd (cc)) in
        mark_processed-IsKept before publish now b.published (log b.broker) b.rows taken marked

    abbrev IsSoundEnd : Option (Drained publish) → Type 0
    IsSoundEnd none = Unit
    IsSoundEnd (some (e, rows, broker)) = IsSound rows broker

    after_pass-IsSound :
        (c : Config) (result : BatchResult) (rows : List OutboxMessage) (broker : P)
        (again : Option (Drained publish))
        → IsSound rows broker
        → IsSoundEnd again
        → IsSoundEnd (after_pass publish c result rows broker again)
    unfolding after_pass
    after_pass-IsSound c result rows broker again here later =
        elim (Bool-cases (eqb result.claimed 0)) [
          | inl idle ↦ rw (idle, after_pass) here
          | inr busy ↦ elim (Bool-cases (eqb result.published 0)) [
            | inl stuck ↦ rw (busy, after_pass, stuck) here
            | inr moved ↦ elim (Bool-cases (ltb result.claimed c.batch_size)) [
              | inl last ↦ rw (busy, after_pass, moved, last) here
              | inr full ↦ rw (busy, after_pass, moved, full) later
            ]
          ]
        ]

    drain-IsSound :
        (c : Config) (w : Weather publish) (fuel n : ℕ) (arrivals : List (List OutboxMessage))
        (rows : List OutboxMessage) (broker : P)
        → KeepsLog w
        → IsSound rows broker
        → IsSoundEnd (drain publish c w fuel n arrivals rows broker)
    unfolding drain
    drain-IsSound c w zero n arrivals rows broker keeps h = tt
    drain-IsSound c w (suc fuel) n arrivals rows broker keeps h =
        let now = arrive rows (arrivals_now arrivals) in
        let here : IsSound now broker =
          arrive-IsKept before (log broker) rows (arrivals_now arrivals) h in
        let pass = publish_batch publish c.batch_size c.max_attempts (w.clock n) now broker in
        let after = publish_batch-IsSound c.batch_size c.max_attempts (w.clock n) now broker here in
        elim (Bool-cases (w.cancelled n)) [
          | inl stop ↦ rw (stop, drain) h
          | inr on ↦ elim (Option-cases (w.transaction_error n broker)) [
            | inr ((e, p'), q) ↦
                rw (on, drain, q)
                  (IsKept-IsWithin before (log broker) (log p') now (keeps n broker e p' q) here)
            | inl fine ↦
                rw (on, drain, fine)
                  (after_pass-IsSound c pass.0 pass.1 pass.2 _ after (
                    drain-IsSound c w fuel (n + 1) (arrivals_later arrivals) pass.1 pass.2 keeps
                      after))
          ]
        ]

    drain_all-IsSound :
        (c : Config) (w : Weather publish) (rows : List OutboxMessage) (broker : P)
        → KeepsLog w
        → IsSound rows broker
        → let r = drain_all publish c w rows broker in IsSound r.1 r.2
    unfolding drain_all
    drain_all-IsSound c w rows broker keeps h =
        let fuel = suc (pending_count rows + arrival_count w.arrivals) in
        let end = drain-IsSound c w fuel 0 w.arrivals rows broker keeps h in
        elim (Option-cases (drain publish c w fuel 0 w.arrivals rows broker)) [
          | inl q ↦ rw (q, drain_all) h
          | inr ((e, rows', broker'), q) ↦ rw (q, drain_all) (rw q at end)
        ]

    others-IsSound :
        (others : List OutboxMessage → List OutboxMessage) (rows : List OutboxMessage) (broker : P)
        → IsHonest others
        → IsSound rows broker
        → IsSound (others rows) broker
    others-IsSound others rows broker (unmarked, more) (marked, there) =
        (unmarked (log broker) rows marked, λ i h. more rows i (there i h))

    run_from-IsSound :
        (c : Config) (turns : List (Turn publish)) (backoff : ℤ) (rows : List OutboxMessage)
        (broker : P)
        → AreHonest turns
        → IsSound rows broker
        → let r = run_from publish c turns backoff rows broker in IsSound r.1 r.2
    unfolding run_from flush
    run_from-IsSound c [] backoff rows broker honest h = h
    run_from-IsSound c (done others w ∷ turns) backoff rows broker (calm, keeps, rest) h =
        drain_all-IsSound c w (others rows) broker keeps (others-IsSound others rows broker calm h)
    run_from-IsSound c (tick others w ∷ turns) backoff rows broker (calm, keeps, rest) h =
        let after =
          drain_all-IsSound c w (others rows) broker keeps
            (others-IsSound others rows broker calm h) in
        run_from-IsSound c turns _ _ _ rest after

    run-IsSound :
        (c : Config) (turns : List (Turn publish)) (rows : List OutboxMessage) (broker : P)
        → AreHonest turns
        → IsSound rows broker
        → let r = run publish c turns rows broker in IsSound r.1 r.2
    unfolding run
    run-IsSound c turns rows broker honest h =
        run_from-IsSound (with_defaults c) turns _ rows broker honest h

  -- If the broker forgets no message that it took, also when a transaction fails, the others mark
  -- no row processed and remove none, and every marked row has been taken at the start, then after
  -- `Run` every row that is marked processed has been taken by the broker, and every row is still
  -- in the table, whatever the broker answers, whichever transactions fail and whenever the context
  -- ends.
  pub run_marks_delivered :
      (c : Config) (turns : List (Turn publish)) (rows : List OutboxMessage) (broker : P)
      → IsLogging
      → AreHonest turns
      → AreMarkedOf (log broker) rows
      → let (waits, rows', broker') = run publish c turns rows broker in
        AreMarkedOf (log broker') rows' × IsWithin (ids_of rows) (ids_of rows')
  run_marks_delivered c turns rows broker logging honest marked =
      run-IsSound logging (ids_of rows) c turns rows broker honest (marked, λ i h. h)
