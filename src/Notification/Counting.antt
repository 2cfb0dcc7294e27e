-- ===== src/Notification/Counting.antt =====
-- The counters of notification-service's consumer against what it does,
-- notification-service/internal/{consumer/kafka,platform/metrics/metrics}.go.
use native.Mathlib.Nat.{zero-add}
use fund_kit.Base.{
  ℕ, zero, suc, ◌+◌, ◌≤◌, List, [], ◌∷◌, Option, some, ◌≡◌, refl, inl, inr, arith, length,
  length-append, ltb, lt→ltb, if◌then◌else◌, Result, ok, err, Result-cases, Bool-cases,
  Option-cases,
}
use fund_kit.Base.Int.{ℤ, add64}
use fund_kit.Portfolio.Position.{EventError, permanent, transient}
use fund_kit.Consumer.{
  offset_of, Fetched, fetched, stopped, failed, Surroundings, Message, Parked, Reason, unparseable,
  permanent_failure, retries_exhausted,
}
use fund_kit.Notification.Recorder.{
  Counts, Recorder, dead_lettered, count_status, count_reason, observe_consume, observe_retry,
  observe_dead_letter, observe_dlq_publish_failure,
}
use fund_kit.Notification.DeadLetters.{Publisher, Failure}
use fund_kit.Notification.Consumer.{
  Worker, handle_from, handle_with_retries, conclude, commit, dead_letter, publish, process, run,
}

-- What the counters say of a worker that has processed `n` messages: each was counted once; the dead
-- letters are those on the topic, with one reason each; an error is a failure to park; a retry is a
-- wait; nothing but a success or a dead letter was committed.
pub record IsCounted {S : Type 0} (n : ℕ) (k : Counts) (s : Worker S) : Type 0 where
  pub once : k.consumed_success + k.consumed_error + k.consumed_dead_lettered ≡ n
  pub lettered : k.consumed_dead_lettered ≡ length s.parked
  pub reasons : k.unparseable + k.permanent + k.exhausted ≡ length s.parked
  pub errors : k.dlq_failures ≡ k.consumed_error
  pub retried : k.retries ≡ length s.waits
  pub moved : length s.committed ≤ k.consumed_success + k.consumed_dead_lettered

abbrev pub AreCounted : {S : Type 0} → ℕ → Worker S → Type 0
AreCounted n s = (k : Counts) × (s.recorder ≡ some k) × IsCounted n k s

lettered-IsCounted :
    {S : Type 0} (r : Reason) (n : ℕ) (k : Counts) (s s' : Worker S)
    → IsCounted n k s
    → length s'.parked ≡ length s.parked + 1
    → length s'.waits ≡ length s.waits
    → length s'.committed ≤ length s.committed + 1
    → IsCounted (suc n) (count_status dead_lettered (count_reason r k)) s'
lettered-IsCounted unparseable n k s s' h p w c = omega arith
lettered-IsCounted permanent_failure n k s s' h p w c = omega arith
lettered-IsCounted retries_exhausted n k s s' h p w c = omega arith

module _ {E S A : Type 0} (handle : E → S → Result EventError A × S) (p : Publisher) where
  dead_letter-AreCounted :
      (c : Surroundings) (m : Message) (failure : Failure) (n : ℕ) (s : Worker S)
      → AreCounted n s
      → AreCounted (suc n) (dead_letter handle (some p) c m failure s)
  unfolding dead_letter observe_consume observe_dead_letter observe_dlq_publish_failure
  dead_letter-AreCounted c m failure n s (k, e, h) = elim (Bool-cases c.park_fails) [
    | inl held ↦ rw (held, publish, e) (_, refl, ground arith)
    | inr parks ↦
        let grown = λ (x : Parked). length-append s.parked (x ∷ []) in
        elim (Bool-cases c.commit_fails) [
          | inl stuck ↦
              rw (parks, stuck, publish, e)
                (_, refl, lettered-IsCounted failure.reason n k s _ h (grown _) refl (omega arith))
          | inr moved ↦
              rw (parks, moved, publish, e)
                (
                  _,
                  refl,
                  lettered-IsCounted failure.reason n k s _ h (grown _) refl
                      (omega (arith, length-append s.committed (offset_of m ∷ []))),
                )
        ]
  ]

  -- The recorder after the retry that the attempt counts.
  abbrev counted : ℕ → Recorder → Recorder
  counted attempt r = if ltb 1 attempt then observe_retry r else r

  handle_from-AreCounted :
      (c : Surroundings) (e : E) (left attempt : ℕ) (backoff : ℤ) (n : ℕ) (s : Worker S)
      (k : Counts)
      → 1 ≤ attempt
      → counted attempt s.recorder ≡ some k
      → IsCounted n k s
      → AreCounted n (handle_from handle (some p) c e left attempt backoff s).2
  unfolding handle_from observe_retry
  handle_from-AreCounted c e zero attempt backoff n s k one r h = (k, r, omega arith)
  handle_from-AreCounted c e (suc left) attempt backoff n s k one r h =
      elim (Result-cases (handle e s.inner).0) [
        | inl (a, q) ↦ rw (q, handle_from) (k, r, omega arith)
        | inr (permanent, q) ↦ rw (q, handle_from) (k, r, omega arith)
        | inr (transient, q) ↦ elim (Bool-cases (c.cancelled attempt)) [
          | inl done ↦ rw (q, handle_from, done) (k, r, omega arith)
          | inr on ↦
              rw (q, handle_from, on)
                (handle_from-AreCounted c e left (suc attempt) (add64 backoff backoff) n _
                  (record k { retries = k.retries + 1 }) (omega arith)
                  (again attempt s.recorder k one r)
                  (omega (arith, h, length-append s.waits (backoff ∷ []))))
        ]
      ]
    where
      again :
          (attempt : ℕ) (r : Recorder) (k : Counts)
          → 1 ≤ attempt
          → counted attempt r ≡ some k
          → counted (suc attempt) (counted attempt r) ≡ some (record k { retries = k.retries + 1 })
      again attempt r k one q = rw (lt→ltb 1 (suc attempt) (omega arith), q) refl

  conclude-AreCounted :
      (c : Surroundings) (m : Message) (out : Result EventError A × ℕ × Worker S) (n : ℕ)
      → AreCounted n out.2
      → AreCounted (suc n) (conclude handle (some p) c m out)
  unfolding conclude commit observe_consume
  conclude-AreCounted c m (ok a, attempts, s) n (k, e, h) = elim (Bool-cases c.commit_fails) [
    | inl stuck ↦ rw (stuck, e) (_, refl, omega arith)
    | inr moved ↦
        rw (moved, e) (_, refl, omega (arith, length-append s.committed (offset_of m ∷ [])))
  ]
  conclude-AreCounted c m (err x, attempts, s) n h = dead_letter-AreCounted c m _ n s h

  process-AreCounted :
      (decode : List ℕ → Option E) (extra : ℕ) (retry_backoff : ℤ) (c : Surroundings) (m : Message)
      (n : ℕ) (s : Worker S)
      → AreCounted n s
      → AreCounted (suc n) (process handle (some p) decode extra retry_backoff c m s)
  unfolding process handle_with_retries
  process-AreCounted decode extra retry_backoff c m n s (k, e, h) =
      elim (Option-cases (decode m.value)) [
        | inl bad ↦ rw (bad, process) (dead_letter-AreCounted c m _ n s (k, e, h))
        | inr (x, q) ↦
            rw (q, process)
              (conclude-AreCounted c m
                (handle_with_retries handle (some p) c x extra retry_backoff s) n
                (handle_from-AreCounted c x extra 1 retry_backoff n s k (omega arith) e h))
      ]

  -- The messages that `Run` gets before it stops.
  abbrev pub received : List Fetched → ℕ
  received [] = 0
  received (stopped ∷ fs) = 0
  received (failed ∷ fs) = received fs
  received (fetched c m ∷ fs) = suc (received fs)

  -- If the publisher is configured and the counters agree with the worker, they agree after a run:
  -- each message that the run gets is counted once, as a success, an error or a dead letter; the
  -- dead letters, in all and by reason, are as many as the parked copies; the errors are the
  -- failures to park; the retries are the waits; and there are no more commits than successes and
  -- dead letters.
  pub run-AreCounted :
      (decode : List ℕ → Option E) (extra : ℕ) (retry_backoff : ℤ) (fs : List Fetched) (n : ℕ)
      (s : Worker S)
      → AreCounted n s
      → AreCounted (received fs + n) (run handle (some p) decode extra retry_backoff fs s)
  unfolding run
  run-AreCounted decode extra retry_backoff [] n s h = rw zero-add h
  run-AreCounted decode extra retry_backoff (stopped ∷ fs) n s h = rw zero-add h
  run-AreCounted decode extra retry_backoff (failed ∷ fs) n s h =
      run-AreCounted decode extra retry_backoff fs n s h
  run-AreCounted decode extra retry_backoff (fetched c m ∷ fs) n s h =
      let grown : received fs + suc n ≡ suc (received fs) + n = omega arith in
      rw (← grown) (
        run-AreCounted decode extra retry_backoff fs (suc n) _
          (process-AreCounted decode extra retry_backoff c m n s h))
