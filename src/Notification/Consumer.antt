-- ===== src/Notification/Consumer.antt =====
-- The Kafka consumer of notification-service, notification-service/internal/consumer/kafka.go, over
-- any handler of decoded events. The handler has a state `S` and a result `A`. Logging and tracing
-- are left out; a wait is its length in nanoseconds.
use fund_kit.Base.{
  ℕ, zero, suc, List, [], ◌∷◌, ◌++◌, Option, none, some, Bool, true, false, ltb, if◌then◌else◌,
  Result, ok, err,
}
use fund_kit.Base.Int.{ℤ, add64}
use fund_kit.Portfolio.Position.{EventError, permanent, transient}
use fund_kit.Consumer.{
  offset_of, Offset, Surroundings, Message, Parked, Reason, unparseable, permanent_failure,
  retries_exhausted, Fetched, fetched, stopped, failed,
}
use fund_kit.Notification.Recorder.{
  Recorder, success, error, dead_lettered, observe_consume, observe_retry, observe_dead_letter,
  observe_dlq_publish_failure,
}
use fund_kit.Notification.DeadLetters
use fund_kit.Notification.DeadLetters.{Failure, Publisher}

-- The state of the handler, the counters, the waits, what is parked, and the committed offsets.
pub record Worker (S : Type 0) : Type 0 where
  pub inner : S
  pub recorder : Recorder
  pub waits : List ℤ
  pub parked : List Parked
  pub committed : List Offset

module _ {E S A : Type 0} (handle : E → S → Result EventError A × S) (dlq : Option Publisher) where
  abbrev pub Outcome : Type 0
  Outcome = Result EventError A × ℕ × Worker S

  -- One round of `handleWithRetries`, up to the error that it looks at.
  unfoldable pub run_attempt : E → ℕ → Worker S → Result EventError A × Worker S
  run_attempt e attempt s =
      let counted = if ltb 1 attempt then observe_retry s.recorder else s.recorder in
      let (r, inner') = handle e s.inner in (r, record s { inner = inner'; recorder = counted })

  -- `handleWithRetries` from the given attempt and wait, with `left` attempts after it.
  unfoldable pub handle_from : Surroundings → E → ℕ → ℕ → ℤ → Worker S → Outcome
  unfolding run_attempt
  handle_from c e zero attempt backoff s = let (r, s') = run_attempt e attempt s in (r, attempt, s')
  handle_from c e (suc left) attempt backoff s =
      let (r, s') = run_attempt e attempt s in
      elim r [
        | ok a ↦ (ok a, attempt, s')
        | err permanent ↦ (err permanent, attempt, s')
        | err transient ↦ elim (c.cancelled attempt) [
          | true ↦ (err transient, attempt, s')
          | false ↦
              handle_from c e left (suc attempt) (add64 backoff backoff)
                (record s' { waits = s'.waits ++ backoff ∷ [] })
        ]
      ]

  -- `maxAttempts` is `suc extra`.
  unfoldable pub handle_with_retries : Surroundings → E → ℕ → ℤ → Worker S → Outcome
  unfolding handle_from
  handle_with_retries c e extra retry_backoff s = handle_from c e extra 1 retry_backoff s

  -- A failure to commit is only logged.
  unfoldable pub commit : Surroundings → Message → Worker S → Worker S
  commit c m s =
      if c.commit_fails then s else record s { committed = s.committed ++ offset_of m ∷ [] }

  -- `Publish`: whether the message is parked.
  unfoldable pub publish : Surroundings → Message → Failure → Worker S → Bool × Worker S
  publish c m failure s = elim dlq [
    | none ↦ (false, s)
    | some p ↦
        if c.park_fails
        then (false, record s { recorder = observe_dlq_publish_failure s.recorder })
        else (
          true,
          record s {
            parked = s.parked ++ DeadLetters.message p c.failed_at m failure ∷ [];
            recorder = observe_dead_letter failure.reason s.recorder;
          },
        )
  ]

  unfoldable pub dead_letter : Surroundings → Message → Failure → Worker S → Worker S
  unfolding commit publish
  dead_letter c m failure s =
      let (done, s') = publish c m failure s in
      let t = commit c m s' in
      if done
      then record t { recorder = observe_consume dead_lettered t.recorder }
      else record s' { recorder = observe_consume error s'.recorder }

  unfoldable pub reason_of : EventError → Reason
  reason_of permanent = permanent_failure
  reason_of transient = retries_exhausted

  -- The end of `process`.
  unfoldable pub conclude : Surroundings → Message → Outcome → Worker S
  unfolding reason_of dead_letter
  conclude c m (ok a, attempts, s) =
      let t = commit c m s in record t { recorder = observe_consume success t.recorder }
  conclude c m (err x, attempts, s) =
      dead_letter c m
        (record { reason = reason_of x; attempts = attempts; error = some (c.error_text x) }) s

  -- `process`; `decode` is `json.Unmarshal`.
  unfoldable pub process :
      (List ℕ → Option E) → ℕ → ℤ → Surroundings → Message → Worker S → Worker S
  process decode extra retry_backoff c m s = elim (decode m.value) [
    | none ↦
        dead_letter c m (record { reason = unparseable; attempts = 0; error = some c.decode_error })
          s
    | some e ↦ conclude c m (handle_with_retries c e extra retry_backoff s)
  ]

  -- `Run`, over what its fetches report.
  unfoldable pub run : (List ℕ → Option E) → ℕ → ℤ → List Fetched → Worker S → Worker S
  run decode extra retry_backoff [] s = s
  run decode extra retry_backoff (stopped ∷ fs) s = s
  run decode extra retry_backoff (failed ∷ fs) s = run decode extra retry_backoff fs s
  run decode extra retry_backoff (fetched c m ∷ fs) s =
      run decode extra retry_backoff fs (process decode extra retry_backoff c m s)
