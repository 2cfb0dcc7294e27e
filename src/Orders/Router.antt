-- ===== src/Orders/Router.antt =====
-- `NewRouter`, order-service/internal/handler/router.go, with `RequestID` of its middleware.go and
-- order-service/internal/platform/trace/trace.go. The matching of a path is gin's. The deadline,
-- logging, metrics and recovery are left out.
use fund_kit.Base.{ℕ, String, List, [], ◌∷◌, Option, none, some, ◌==◌, if◌then◌else◌, Result}
use fund_kit.Base.Text.{trim_space}
use fund_kit.Http.{Headers, get_header, set_header}
use fund_kit.Orders.Status.{OrderStatus}
use fund_kit.Orders.Domain.{Minted}
use fund_kit.Orders.Database.{Database}
use fund_kit.Orders.Reservation.{Redis}
use fund_kit.Orders.Service.{State}
use fund_kit.Orders.Readiness.{ReadinessCheck, ready}
use fund_kit.Orders.Pnl.{PnlBody, get_user_pnl}
use fund_kit.Orders.Handlers.{
  CreateOrderRequest, Reply, create_order, list_orders, get_order, update_order_status,
  delete_order,
}

-- `EnsureContext`: the id of the request's context; `id` is what `NewID` returns.
unfoldable pub ensure_context : String → String → String
ensure_context id inbound = let given = trim_space inbound in if given == "" then id else given

-- `RequestID`: the id of the request's context, and the response headers.
unfoldable pub request_id : String → Headers → Headers → String × Headers
unfolding ensure_context
request_id id inbound out =
    let used = ensure_context id (get_header inbound "x-request-id") in
    (used, set_header out "x-request-id" used)

-- The handlers that the router names.
pub data Endpoint : Type 0 where
  live readiness create_one list_all get_one update_one delete_one pnl : Endpoint

pub record Route : Type 0 where
  pub method : String
  pub pattern : String
  pub endpoint : Endpoint

abbrev route : String → String → Endpoint → Route
route method pattern endpoint = record { method = method; pattern = pattern; endpoint = endpoint }

unfoldable pub routes : List Route
routes =
    route "GET" "/healthz" live
    ∷ route "GET" "/readyz" readiness
    ∷ route "GET" "/health" live
    ∷ route "POST" "/orders" create_one
    ∷ route "GET" "/orders" list_all
    ∷ route "GET" "/orders/:id" get_one
    ∷ route "PATCH" "/orders/:id" update_one
    ∷ route "DELETE" "/orders/:id" delete_one
    ∷ route "GET" "/portfolio/:userId/pnl" pnl
    ∷ []

-- gin: the route of a method and a path, with the parameters of its pattern.
abbrev pub Gin : Type 0
Gin = List Route → String → String → Option (Route × (String → String))

-- A request. A body is what the JSON decoder made of it, for each of the handlers that read one.
pub record Request : Type 0 where
  pub method : String
  pub path : String
  pub query_limit : String
  pub headers : Headers
  pub new_order : Result (List ℕ) CreateOrderRequest
  pub next_status : Result (List ℕ) OrderStatus

pub data Answer (Pnl : Type 0) : Type 0 where
  unmatched up : Answer Pnl
  is_ready : ℕ × String × (String → Option String) → Answer Pnl
  orders : Reply → Answer Pnl
  portfolio : ℕ × PnlBody Pnl → Answer Pnl

module _ (Pnl : Type 0) (d : Database) (c : Redis) (ttl : ℕ) (gin : Gin) where
  open d use {Db}

  -- What a request meets: a new request id and order id, the event id and the time, the text of the
  -- validator's error, what others commit between two statements, what the probes find, and the
  -- remote procedure.
  pub record Moment : Type 0 where
    pub new_id : String
    pub uuid : String
    pub minted : Minted
    pub invalid : List ℕ
    pub gap : Db → Db
    pub checks : List ReadinessCheck
    pub rpc : Option (String → Result String Pnl)

  -- The handler of an endpoint, in a context with the request's id.
  unfoldable pub handle :
      Endpoint → (String → String) → String → Moment → Request → State d c → Answer Pnl × State d c
  handle live params id t r s = (up, s)
  handle readiness params id t r s = (is_ready (ready t.checks), s)
  handle create_one params id t r s =
      let m = record t.minted { request_id = id } in
      let (reply, s') = create_order d c ttl t.uuid m t.invalid r.headers r.new_order s in
      (orders reply, s')
  handle list_all params id t r s = (orders (list_orders d c ttl r.query_limit s), s)
  handle get_one params id t r s = (orders (get_order d c ttl (params "id") s), s)
  handle update_one params id t r s =
      let m = record t.minted { request_id = id } in
      let (reply, s') =
        update_order_status d c ttl (params "id") m t.invalid t.gap r.next_status s in
      (orders reply, s')
  handle delete_one params id t r s =
      let (reply, s') = delete_order d c ttl (params "id") t.gap s in (orders reply, s')
  handle pnl params id t r s = (portfolio (get_user_pnl t.rpc r.headers (params "userId")), s)

  -- A request that no route matches gets gin's own answer.
  unfoldable pub dispatch :
      Option (Route × (String → String))
      → String
      → Moment
      → Request
      → State d c
      → Answer Pnl × State d c
  unfolding handle
  dispatch none id t r s = (unmatched, s)
  dispatch (some (matched, params)) id t r s = handle matched.endpoint params id t r s

  -- A request through the chain: the answer, the response headers of the middleware, and the state.
  unfoldable pub serve : Moment → Request → State d c → Answer Pnl × Headers × State d c
  unfolding dispatch
  serve t r s =
      let (id, out) = request_id t.new_id r.headers (λ key. []) in
      let (answer, s') = dispatch (gin routes r.method r.path) id t r s in (answer, out, s')
