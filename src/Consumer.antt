-- ===== src/Consumer.antt =====
-- The Kafka consumer, portfolio-service/internal/consumer/{kafka,dlq}.go, over any handler of decoded
-- events; notification-service has a copy of it (fund_kit.Notification). The handler has a state `S`
-- and a result `A`. Logging, tracing and metrics are left out.
pub mod Retries
pub mod Safety
pub mod Stream
pub mod NoLoss
pub mod Trace
use fund_kit.Base.{
  ℕ, zero, suc, ◌+◌, String, codes, List, [], ◌∷◌, ◌++◌, Option, none, some, Bool, true, false, leb,
  length, take, if◌then◌else◌, Result, ok, err,
}
use fund_kit.Portfolio.Position.{EventError, permanent, transient}

pub record Header : Type 0 where
  pub key : String
  pub value : List ℕ

pub record Message : Type 0 where
  pub topic : String
  pub partition : ℕ
  pub offset : ℕ
  pub key : List ℕ
  pub value : List ℕ
  pub headers : List Header

-- What `CommitMessages` commits of a message.
pub record Offset : Type 0 where
  pub topic : String
  pub partition : ℕ
  pub offset : ℕ

abbrev pub offset_of : Message → Offset
offset_of m = record { topic = m.topic; partition = m.partition; offset = m.offset }

-- `metrics.Reason*`, the value of the header `dlq-reason`.
pub data Reason : Type 0 where
  unparseable permanent_failure retries_exhausted : Reason

unfoldable pub reason_text : Reason → List ℕ
reason_text unparseable = codes "unparseable"
reason_text permanent_failure = codes "permanent_failure"
reason_text retries_exhausted = codes "retries_exhausted"

pub record Failure : Type 0 where
  pub reason : Reason
  pub attempts : ℕ
  pub error : List ℕ

abbrev pub max_error_header_bytes : ℕ
max_error_header_bytes = 512

-- `truncate`; the ellipsis is three bytes of UTF-8.
unfoldable pub truncate : List ℕ → ℕ → List ℕ
truncate text limit =
    if leb (length text) limit
    then text
    else take limit text ++ (0xe2 ∷ 0x80 ∷ 0xa6 ∷ codes "(truncated)")

-- What one message meets outside the consumer: whether the context is done in the wait after an
-- attempt, what writing to the dead-letter topic and committing report, the time as RFC 3339, the
-- decimal text of a number, and the texts of errors.
pub record Surroundings : Type 0 where
  pub cancelled : ℕ → Bool
  pub park_fails : Bool
  pub commit_fails : Bool
  pub failed_at : List ℕ
  pub decimal : ℕ → List ℕ
  pub error_text : EventError → List ℕ
  pub decode_error : List ℕ
  pub group : List ℕ

-- `DeadLetterPublisher.headers`.
unfoldable pub dlq_headers : Surroundings → Message → Failure → List Header
unfolding reason_text
dlq_headers c original failure =
    original.headers
    ++ (record { key = "dlq-reason"; value = reason_text failure.reason }
        ∷ record { key = "dlq-error"; value = truncate failure.error max_error_header_bytes }
        ∷ record { key = "dlq-attempts"; value = c.decimal failure.attempts }
        ∷ record { key = "dlq-failed-at"; value = c.failed_at }
        ∷ record { key = "dlq-origin-topic"; value = codes original.topic }
        ∷ record { key = "dlq-origin-partition"; value = c.decimal original.partition }
        ∷ record { key = "dlq-origin-offset"; value = c.decimal original.offset }
        ∷ record { key = "dlq-consumer-group"; value = c.group }
        ∷ [])

-- `DeadLetterPublisher.message`: what is parked.
pub record Parked : Type 0 where
  pub key : List ℕ
  pub value : List ℕ
  pub headers : List Header

unfoldable pub dlq_message : Surroundings → Message → Failure → Parked
unfolding dlq_headers
dlq_message c original failure = record {
  key = original.key;
  value = original.value;
  headers = dlq_headers c original failure;
}

-- What a fetch reports: a message with what it meets, a context that is done or a closed reader, or
-- another error.
pub data Fetched : Type 0 where
  fetched : Surroundings → Message → Fetched
  stopped failed : Fetched

module _ {E S A : Type 0} (handle : E → S → Result EventError A × S) where
  -- The state of the handler, what is on the dead-letter topic, and the committed offsets.
  pub record State : Type 0 where
    pub inner : S
    pub parked : List Parked
    pub committed : List Offset

  -- `applyWithRetries` from the given attempt, with `left` attempts after it: the last result, the
  -- attempts made, and the handler's state. `maxAttempts` is `suc left` at attempt 1.
  unfoldable pub retry_from : Surroundings → E → ℕ → ℕ → S → Result EventError A × ℕ × S
  retry_from c e zero attempt s = let (r, s') = handle e s in (r, attempt, s')
  retry_from c e (suc left) attempt s =
      let (r, s') = handle e s in
      elim r [
        | ok a ↦ (ok a, attempt, s')
        | err permanent ↦ (err permanent, attempt, s')
        | err transient ↦ elim (c.cancelled attempt) [
          | true ↦ (err transient, attempt, s')
          | false ↦ retry_from c e left (suc attempt) s'
        ]
      ]

  unfoldable pub apply_with_retries : Surroundings → E → ℕ → S → Result EventError A × ℕ × S
  unfolding retry_from
  apply_with_retries c e extra s = retry_from c e extra 1 s

  -- `commit`; a failure is only logged.
  unfoldable pub commit : Surroundings → Message → State → State
  commit c m s =
      if c.commit_fails then s else record s { committed = s.committed ++ offset_of m ∷ [] }

  -- `Publish`: whether the message is parked.
  unfoldable pub publish : Surroundings → Message → Failure → State → Bool × State
  unfolding dlq_message
  publish c m failure s =
      if c.park_fails
      then (false, s)
      else (true, record s { parked = s.parked ++ dlq_message c m failure ∷ [] })

  -- `deadLetter`.
  unfoldable pub dead_letter : Surroundings → Message → Failure → State → State
  unfolding commit publish
  dead_letter c m failure s =
      let (done, s') = publish c m failure s in if done then commit c m s' else s'

  abbrev pub reason_of : EventError → Reason
  reason_of permanent = permanent_failure
  reason_of transient = retries_exhausted

  -- The end of `process`: commit what succeeded, park what failed.
  unfoldable pub conclude : Surroundings → Message → Result EventError A × ℕ × S → State → State
  conclude c m (ok a, attempts, inner') s = commit c m (record s { inner = inner' })
  conclude c m (err x, attempts, inner') s =
      dead_letter c m (record { reason = reason_of x; attempts = attempts; error = c.error_text x })
        (record s { inner = inner' })

  -- `process`; `decode` is `json.Unmarshal`, and `extra` is `maxAttempts` less one.
  unfoldable pub process : (List ℕ → Option E) → ℕ → Surroundings → Message → State → State
  process decode extra c m s = elim (decode m.value) [
    | none ↦
        dead_letter c m (record { reason = unparseable; attempts = 0; error = c.decode_error }) s
    | some e ↦ conclude c m (apply_with_retries c e extra s.inner) s
  ]

  -- `Run`, over what its fetches report.
  unfoldable pub run : (List ℕ → Option E) → ℕ → List Fetched → State → State
  run decode extra [] s = s
  run decode extra (stopped ∷ fs) s = s
  run decode extra (failed ∷ fs) s = run decode extra fs s
  run decode extra (fetched c m ∷ fs) s = run decode extra fs (process decode extra c m s)
