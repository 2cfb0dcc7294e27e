-- ===== src/Examples/Consumer.antt =====
-- A handler that fails once and then succeeds.
use fund_kit.Base.{
  ℕ, suc, String, List, [], ◌∷◌, Option, none, some, ◌≡◌, refl, Result, ok, err, ◌⊎◌, Bool, true,
  false, codes, eqb, ltb, ◌&&◌, ◌==◌, not, inr, Bool-cases, ◌<◌, arith, inl, if◌then◌else◌,
}
use fund_kit.Portfolio.Position.{EventError, transient}
use fund_kit.Consumer.{
  Surroundings, Message, State, retries_exhausted, dlq_message, apply_with_retries, process, run,
  Offset, offset_of, retry_from, dead_letter, Fetched, fetched, stopped, failed,
}
use fund_kit.Consumer.Stream.{
  ConsumerGroup, IsLawfulGroup, is_offset, contains_offset, held_message_skipped,
}
use fund_kit.Consumer.NoLoss.{AllSettled, run_no_loss}
use fund_kit.Consumer.Retries.{HasRun, apply_with_retries-HasRun}
use fund_kit.Consumer.Safety.{IsParked, MayCommit, process_no_loss, cancelled_event_parked}

abbrev pub surroundings : Surroundings
surroundings = record {
  cancelled = λ n. false;
  park_fails = false;
  commit_fails = false;
  failed_at = codes "2026-01-01T00:00:00Z";
  decimal = λ n. n ∷ [];
  error_text = λ e. codes "failed";
  decode_error = codes "invalid character";
  group = codes "portfolio-service";
}

abbrev stopping : Surroundings
stopping = record surroundings { cancelled = λ n. true }

abbrev pub message : Message
message = record {
  topic = "orders";
  partition = 0;
  offset = 42;
  key = codes "o1";
  value = codes "x";
  headers = [];
}

-- The state counts the calls.
abbrev flaky : String → ℕ → Result EventError Bool × ℕ
flaky e n = (if eqb n 0 then err transient else ok true, suc n)

abbrev decode : List ℕ → Option String
decode bytes = elim bytes [ [] ↦ none | b ∷ more ↦ some "event" ]

apply_with_retries-HasRun_example :
    HasRun flaky "event" surroundings 2 1 0 (apply_with_retries flaky surroundings "event" 2 0)
apply_with_retries-HasRun_example = apply_with_retries-HasRun flaky "event" surroundings 2 0

abbrev at_start : State flaky
at_start = record { inner = 0; parked = []; committed = [] }

process_no_loss_example :
    let s' = process flaky decode 2 surroundings message at_start in
    ((e : String) × (a : Bool) × (decode message.value ≡ some e)
      × ((apply_with_retries flaky surroundings e 2 0).0 ≡ ok a)
      × (s'.parked ≡ [])
      × MayCommit flaky message at_start s')
    ⊎ (IsParked flaky message at_start s' × MayCommit flaky message at_start s')
    ⊎ ((s'.parked ≡ []) × (s'.committed ≡ []))
process_no_loss_example = process_no_loss flaky decode 2 surroundings message at_start

cancelled_event_parked_example :
    let s' = process flaky decode 2 stopping message at_start in
    (s'.parked
      ≡ dlq_message stopping message
          (record { reason = retries_exhausted; attempts = 1; error = codes "failed" })
        ∷ [])
    × (s'.committed ≡ offset_of message ∷ [])
cancelled_event_parked_example =
    cancelled_event_parked flaky decode 1 stopping message "event" at_start refl refl refl refl refl

-- A message that cannot be decoded, at a dead-letter topic that is down, and the one after it.
abbrev broken : Message
broken = record message { offset = 41; value = [] }

abbrev unable : Surroundings
unable = record surroundings { park_fails = true }

resume : List Offset → String → ℕ → ℕ
resume [] topic partition = 0
resume (o ∷ os) topic partition =
    let rest = resume os topic partition in
    if (topic == o.topic) && eqb partition o.partition && not (ltb o.offset rest)
    then suc o.offset
    else rest

abbrev group : ConsumerGroup
group = record { resumes_at = resume }

resume-past :
    (offsets : List Offset) (o : Offset)
    → contains_offset o offsets ≡ true
    → o.offset < resume offsets o.topic o.partition
unfolding resume
resume-past [] o h = absurd (cc)
resume-past (x ∷ xs) o h = elim (Bool-cases (is_offset o x)) [
  | inl here ↦ ground arith
  | inr later ↦ ground (arith, resume-past xs o (rw later at h))
]

group-IsLawful : IsLawfulGroup group
group-IsLawful = record { past = resume-past }

held_message_skipped_example :
    let s' =
      run flaky decode 2 (fetched unable broken ∷ fetched surroundings message ∷ []) at_start in
    (s'.parked ≡ []) × (41 < resume s'.committed "orders" 0)
unfolding apply_with_retries retry_from process dead_letter
held_message_skipped_example =
    held_message_skipped flaky decode 2 group group-IsLawful unable surroundings broken message
      at_start (inl refl) refl ("event", true, refl, refl) refl refl refl (omega arith)

abbrev stream : List Fetched
stream = fetched surroundings broken ∷ failed ∷ fetched surroundings message ∷ stopped ∷ []

run_no_loss_example :
    AllSettled flaky decode 2 stream at_start (run flaky decode 2 stream at_start).parked
run_no_loss_example = run_no_loss flaky decode 2 stream at_start (refl, (refl, tt))
