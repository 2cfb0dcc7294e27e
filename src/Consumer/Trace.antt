-- ===== src/Consumer/Trace.antt =====
-- The correlation id that a consumer handles a message under: `headerValue` of
-- portfolio-service/internal/consumer/kafka.go and `EnsureContext` of
-- portfolio-service/internal/platform/trace/trace.go on the bytes of a header; notification-service
-- has copies of both.
use fund_kit.Base.{ℕ, String, List, [], ◌∷◌, ◌==◌, if◌then◌else◌}
use fund_kit.Money.Rupees.{trim_space}
use fund_kit.Consumer.{Header, Message}

-- `headerValue`: the first header of the key.
unfoldable pub header_value : List Header → String → List ℕ
header_value [] key = []
header_value (h ∷ hs) key = let rest = header_value hs key in if h.key == key then h.value else rest

-- `EnsureContext`; `id` is what `NewID` returns.
unfoldable pub ensure_bytes : List ℕ → List ℕ → List ℕ
ensure_bytes id inbound = elim (trim_space inbound) [ [] ↦ id | c ∷ cs ↦ c ∷ cs ]

-- The id of the context that `process` handles the message in.
unfoldable pub message_id : List ℕ → Message → List ℕ
unfolding header_value ensure_bytes
message_id id m = ensure_bytes id (header_value m.headers "x-request-id")
