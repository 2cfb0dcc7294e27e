-- ===== src/Notification/Health.antt =====
-- The probes of notification-service, notification-service/internal/handler/health_handler.go. The
-- time of a live answer is left out.
use fund_kit.Base.{ℕ, String, Bool, true, false, not, if◌then◌else◌}

-- `ConsumerState`: whether the consumer is ready.
abbrev pub ConsumerState : Type 0
ConsumerState = Bool

abbrev pub mark_ready : ConsumerState → ConsumerState
mark_ready s = true

abbrev pub mark_not_ready : ConsumerState → ConsumerState
mark_not_ready s = false

-- `/healthz` and `/health`: a code and a status.
unfoldable pub live : ℕ × String
live = (200, "UP")

-- `/readyz`: a code, a status and that of the consumer.
unfoldable pub readyz : ConsumerState → ℕ × String × String
readyz s = if not s then (503, "NOT_READY", "DOWN") else (200, "READY", "UP")
