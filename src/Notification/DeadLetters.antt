-- ===== src/Notification/DeadLetters.antt =====
-- What notification-service parks, notification-service/internal/consumer/dlq.go.
use fund_kit.Base.{
  ℕ, String, codes, List, [], ◌∷◌, ◌++◌, Option, none, some, leb, length, take, if◌then◌else◌,
}
use fund_kit.Base.Decimal.{format_int}
use fund_kit.Consumer.{Message, Header, Parked, Reason, reason_text, max_error_header_bytes}

-- `Failure`; an error is its text, and `none` is nil.
pub record Failure : Type 0 where
  pub reason : Reason
  pub attempts : ℕ
  pub error : Option (List ℕ)

-- `DeadLetterPublisher`; `none` is a publisher that is nil or that has no writer.
pub record Publisher : Type 0 where
  pub topic : String
  pub group : List ℕ

unfoldable pub topic_of : Option Publisher → String
topic_of none = "unknown"
topic_of (some p) = p.topic

unfoldable pub error_text : Option (List ℕ) → List ℕ
error_text none = []
error_text (some text) = text

unfoldable pub truncate : List ℕ → ℕ → List ℕ
truncate text limit =
    if leb (length text) limit
    then text
    else take limit text ++ (0xe2 ∷ 0x80 ∷ 0xa6 ∷ codes "(truncated)")

-- `headers`; `failed_at` is the time as RFC 3339. Attempts, partitions and offsets are not negative.
unfoldable pub headers : Publisher → List ℕ → Message → Failure → List Header
unfolding truncate error_text reason_text
headers p failed_at original failure =
    original.headers
    ++ (record { key = "dlq-reason"; value = reason_text failure.reason }
        ∷ record {
          key = "dlq-error";
          value = truncate (error_text failure.error) max_error_header_bytes;
        }
        ∷ record { key = "dlq-attempts"; value = format_int failure.attempts }
        ∷ record { key = "dlq-failed-at"; value = failed_at }
        ∷ record { key = "dlq-origin-topic"; value = codes original.topic }
        ∷ record { key = "dlq-origin-partition"; value = format_int original.partition }
        ∷ record { key = "dlq-origin-offset"; value = format_int original.offset }
        ∷ record { key = "dlq-consumer-group"; value = p.group }
        ∷ [])

unfoldable pub message : Publisher → List ℕ → Message → Failure → Parked
unfolding headers
message p failed_at original failure = record {
  key = original.key;
  value = original.value;
  headers = headers p failed_at original failure;
}
