-- ===== src/Notification/Recorder.antt =====
-- The counters of notification-service/internal/platform/metrics/metrics.go that its consumer moves.
-- `none` is the nil recorder. The histogram of the times is left out.
use fund_kit.Base.{ℕ, ◌+◌, Option, none, some}
use fund_kit.Consumer.{Reason, unparseable, permanent_failure, retries_exhausted}

-- The values of the label `status` that the consumer uses.
pub data Status : Type 0 where
  success error dead_lettered : Status

-- One number for each value of a label: by `status`, by `reason`, and the two that have none.
pub record Counts : Type 0 where
  pub consumed_success : ℕ
  pub consumed_error : ℕ
  pub consumed_dead_lettered : ℕ
  pub retries : ℕ
  pub unparseable : ℕ
  pub permanent : ℕ
  pub exhausted : ℕ
  pub dlq_failures : ℕ

abbrev pub Recorder : Type 0
Recorder = Option Counts

abbrev pub recorded : (Counts → Counts) → Recorder → Recorder
recorded f none = none
recorded f (some k) = some (f k)

abbrev pub count_status : Status → Counts → Counts
count_status success k = record k { consumed_success = k.consumed_success + 1 }
count_status error k = record k { consumed_error = k.consumed_error + 1 }
count_status dead_lettered k = record k { consumed_dead_lettered = k.consumed_dead_lettered + 1 }

abbrev pub count_reason : Reason → Counts → Counts
count_reason unparseable k = record k { unparseable = k.unparseable + 1 }
count_reason permanent_failure k = record k { permanent = k.permanent + 1 }
count_reason retries_exhausted k = record k { exhausted = k.exhausted + 1 }

unfoldable pub observe_consume : Status → Recorder → Recorder
observe_consume status = recorded (count_status status)

unfoldable pub observe_retry : Recorder → Recorder
observe_retry = recorded (λ k. record k { retries = k.retries + 1 })

unfoldable pub observe_dead_letter : Reason → Recorder → Recorder
observe_dead_letter reason = recorded (count_reason reason)

unfoldable pub observe_dlq_publish_failure : Recorder → Recorder
observe_dlq_publish_failure = recorded (λ k. record k { dlq_failures = k.dlq_failures + 1 })
