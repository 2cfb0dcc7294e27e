-- ===== src/Portfolio/Interceptors.antt =====
-- The interceptors of the gRPC server, portfolio-service/internal/handler/interceptor.go, and the
-- correlation id of portfolio-service/internal/platform/trace/trace.go. Logging is left out.
use fund_kit.Base.{ℕ, ◌+◌, String, List, [], ◌∷◌, Option, none, some, ◌==◌, if◌then◌else◌}
use fund_kit.Base.Text.{trim_space}

-- `EnsureContext`; `id` is what `NewID` returns.
unfoldable pub ensure_context : String → String → String
ensure_context id inbound = let given = trim_space inbound in if given == "" then id else given

abbrev pub first_value : List String → String
first_value [] = ""
first_value (v ∷ vs) = v

-- `UnaryRequestID`: the id of the context and of the response header, from the values that the
-- metadata has for the key; `none` is no metadata.
unfoldable pub unary_request_id : String → Option (List String) → String
unfolding ensure_context
unary_request_id id none = ensure_context id ""
unary_request_id id (some values) = ensure_context id (first_value values)

-- `UnaryTimeout`: the deadline that the handler runs under.
unfoldable pub unary_timeout : ℕ → ℕ → Option ℕ → ℕ
unary_timeout d now none = now + d
unary_timeout d now (some deadline) = deadline
