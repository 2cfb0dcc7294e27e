-- ===== src/Gateway/Router.antt =====
-- `NewRouter`, api-gateway/internal/handler/router.go: the chain of the middleware and the routes. The
-- matching of a path and the address of a client are gin's. Logging, metrics and recovery are left
-- out.
use fund_kit.Base.{
  ℕ, String, List, [], ◌∷◌, Option, none, some, ◌≡◌, ◌⊎◌, Bool, true, false, if◌then◌else◌, Result,
  ok, err,
}
use fund_kit.Base.Int.{ℤ}
use fund_kit.Http.{Headers, set_header}
use fund_kit.Config.Gateway.{HealthTarget}
use fund_kit.Gateway.User.{Registration}
use fund_kit.Gateway.Users.{UserTable}
use fund_kit.Gateway.Auth.{Bcrypt, Jwt, AuthConfig}
use fund_kit.Gateway.Identity.{Caller, jwt_auth}
use fund_kit.Gateway.Sessions.{Login, Reply, register_handler, login_handler, me_handler}
use fund_kit.Gateway.Health.{ReadinessCheck, ProbeOutcome, StackStatus, ready, stack}
use fund_kit.Gateway.Cors.{cors, request_id}
use fund_kit.Gateway.RateLimit.{Bucket, Clients, allow}

-- The handlers that the router names.
pub data Endpoint : Type 0 where
  live readiness stack_health register login me proxy : Endpoint

-- `none` is any method; a guarded route is one of the group with `JWTAuth`.
pub record Route : Type 0 where
  pub method : Option String
  pub pattern : String
  pub guarded : Bool
  pub endpoint : Endpoint

abbrev open_route : String → String → Endpoint → Route
open_route method pattern endpoint = record {
  method = some method;
  pattern = pattern;
  guarded = false;
  endpoint = endpoint;
}

abbrev guarded_route : Option String → String → Endpoint → Route
guarded_route method pattern endpoint = record {
  method = method;
  pattern = pattern;
  guarded = true;
  endpoint = endpoint;
}

unfoldable pub routes : List Route
routes =
    open_route "GET" "/healthz" live
    ∷ open_route "GET" "/readyz" readiness
    ∷ open_route "GET" "/health" live
    ∷ open_route "GET" "/services/health" stack_health
    ∷ open_route "POST" "/auth/register" register
    ∷ open_route "POST" "/auth/login" login
    ∷ open_route "POST" "/login" login
    ∷ guarded_route (some "GET") "/auth/me" me
    ∷ guarded_route none "/orders" proxy
    ∷ guarded_route none "/orders/*path" proxy
    ∷ guarded_route none "/portfolio" proxy
    ∷ guarded_route none "/portfolio/*path" proxy
    ∷ []

-- gin: the route of a method and a path, and `ClientIP` of a request from a remote address.
pub record Gin : Type 0 where
  pub route_of : List Route → String → String → Option Route
  pub is_address : String → Bool
  pub client_ip : Headers → String → String

abbrev pub IsListed : Route → List Route → Type 0
IsListed r [] = ⊥
IsListed r (x ∷ xs) = (r ≡ x) ⊎ IsListed r xs

-- A route that matches is one of those declared. An engine that was given no trusted proxies trusts
-- all of them, and takes a client's address from X-Forwarded-For.
pub record IsLawfulGin (g : Gin) : Type 0 where
  pub matched :
      (rs : List Route) (method path : String) {r : Route}
      → g.route_of rs method path ≡ some r
      → IsListed r rs
  pub forwarded_for :
      (h : Headers) (remote ip : String)
      → g.is_address ip ≡ true
      → h "x-forwarded-for" ≡ ip ∷ []
      → g.client_ip h remote ≡ ip

-- A request. A body is what the JSON decoder made of it, for each of the handlers that read one.
pub record Request : Type 0 where
  pub method : String
  pub path : String
  pub remote : String
  pub headers : Headers
  pub registration : Result String Registration
  pub credentials : Result String Login

-- What a request meets: a new request id and user id, a salt, the times, the text of the validator's
-- error, which texts are addresses, and what the probes find.
pub record Moment : Type 0 where
  pub new_id : String
  pub uuid : String
  pub salt : String
  pub seen : ℕ
  pub tick : ℕ
  pub now : ℤ
  pub missing : String
  pub is_email : String → Bool
  pub checks : List ReadinessCheck
  pub meets : HealthTarget → ProbeOutcome

-- An error with its code, an answer of a handler, or the request handed on to the proxy.
pub data Answer : Type 0 where
  refused : ℕ → String → Answer
  account : Reply → Answer
  up : Answer
  is_ready : ℕ × String × List (String × String) → Answer
  services : ℕ × StackStatus → Answer
  forwarded : Caller → Headers → Answer

-- The context of a request that no check of a token has filled.
abbrev pub nobody : Caller
nobody = record { user_id = ""; username = ""; email = ""; phone = ""; full_name = "" }

module _ (d : UserTable) (p : Bcrypt) (j : Jwt) (cfg : AuthConfig) (b : Bucket) (g : Gin)
    (origins : List String) (targets : List HealthTarget) where
  pub record State : Type 0 where
    pub db : d.Db
    pub clients : Clients b

  -- The handler of a route.
  unfoldable pub handle : Endpoint → Moment → Request → Caller → Headers → State → Answer × State
  handle live t r caller h s = (up, s)
  handle readiness t r caller h s = (is_ready (ready t.checks), s)
  handle stack_health t r caller h s = (services (stack t.meets targets), s)
  handle register t r caller h s =
      let (reply, db') =
        register_handler d p j cfg t.is_email t.uuid t.salt t.now t.missing r.registration s.db in
      (account reply, record s { db = db' })
  handle login t r caller h s = (account (login_handler d p j cfg t.now r.credentials s.db), s)
  handle me t r caller h s = (account (me_handler d p j cfg caller s.db), s)
  handle proxy t r caller h s = (forwarded caller h, s)

  -- A route's handlers: the check of the token, if the route is guarded, and its own.
  unfoldable pub handle_route : Route → Moment → Request → Headers → State → Answer × State
  handle_route route t r h s =
      if route.guarded
      then elim (jwt_auth j cfg.jwt_secret t.now h) [
        | err text ↦ (refused 401 text, s)
        | ok (caller, h') ↦ handle route.endpoint t r caller h' s
      ]
      else handle route.endpoint t r nobody h s

  unfoldable pub dispatch : Option Route → Moment → Request → Headers → State → Answer × State
  unfolding handle_route
  dispatch none t r h s = (refused 404 "404 page not found", s)
  dispatch (some route) t r h s = handle_route route t r h s

  -- The rate limiter and what is behind it.
  unfoldable pub limit : Moment → Request → Headers → Headers → State → Answer × Headers × State
  unfolding dispatch
  limit t r h out s =
      let (allowed, clients') = allow b (g.client_ip h r.remote) t.seen t.tick s.clients in
      let s' = record s { clients = clients' } in
      let (answer, s'') = dispatch (g.route_of routes r.method r.path) t r h s' in
      if allowed
      then (answer, out, s'')
      else (refused 429 "too many requests, please slow down", set_header out "retry-after" "1", s')

  -- A request through the whole chain: the answer, the headers that the middleware sets, and the
  -- state.
  unfoldable pub serve : Moment → Request → State → Answer × Headers × State
  unfolding limit
  serve t r s =
      let (h, out) = request_id t.new_id r.headers (λ key. []) in
      let (stop, out') = cors origins r.method h out in
      elim stop [ some code ↦ (refused code "", out', s) | none ↦ limit t r h out' s ]
