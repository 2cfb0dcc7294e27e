-- ===== src/Gateway/Cors.antt =====
-- The allow-list of origins and the request id: api-gateway/internal/middleware/{cors,requestid}.go and
-- api-gateway/internal/platform/trace/trace.go.
use fund_kit.Base.{
  ℕ, String, List, map, Option, none, some, ◌&&◌, not, ◌==◌, contains, if◌then◌else◌,
}
use fund_kit.Base.Text.{trim_space}
use fund_kit.Http.{Headers, get_header, set_header}

unfoldable pub allowed : List String → List String
allowed origins = map trim_space origins

-- The response headers that `CORS` sets.
unfoldable pub cors_headers : String → Headers → Headers
cors_headers origin h =
    let h₁ = set_header h "access-control-allow-origin" origin in
    let h₂ = set_header h₁ "vary" "Origin" in
    let h₃ = set_header h₂ "access-control-allow-methods" "GET, POST, PATCH, DELETE, OPTIONS" in
    let h₄ =
      set_header h₃ "access-control-allow-headers" "Content-Type, Authorization, x-request-id" in
    let h₅ = set_header h₄ "access-control-expose-headers" "x-request-id" in
    set_header h₅ "access-control-max-age" "600"

-- `CORS`: the response headers, and the code of the answer when the request goes no further.
unfoldable pub cors : List String → String → Headers → Headers → Option ℕ × Headers
unfolding allowed cors_headers
cors origins method inbound h =
    let origin = get_header inbound "origin" in
    let h' =
      if contains origin (allowed origins) && not (origin == "")
      then cors_headers origin h
      else h in
    (if method == "OPTIONS" then some 204 else none, h')

-- `EnsureContext`: the id that the request goes on with; `id` is what `NewID` returns.
unfoldable pub ensure_context : String → String → String
ensure_context id inbound = let given = trim_space inbound in if given == "" then id else given

-- `RequestID`: the headers of the request, and those of the response.
unfoldable pub request_id : String → Headers → Headers → Headers × Headers
unfolding ensure_context
request_id id inbound h =
    let used = ensure_context id (get_header inbound "x-request-id") in
    (set_header inbound "x-request-id" used, set_header h "x-request-id" used)
