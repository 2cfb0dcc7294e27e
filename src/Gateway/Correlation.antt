-- ===== src/Gateway/Correlation.antt =====
-- The correlation id of a request, from the gateway to the consumers of the order's event:
-- api-gateway/internal/middleware/requestid.go, order-service/internal/handler/middleware.go,
-- order-service/internal/messaging/kafka.go and the consumers of the other two services.
use Prim.Native.String as Str
use fund_kit.Base.{
  ℕ, String, codes, List, [], ◌∷◌, map, some, ◌≡◌, ◌≢◌, refl, sym, ap, ◌∙◌, inl, inr, ◌==◌, false,
  subst, text-ne, Bool-cases, ==-false, update,
}
use fund_kit.Base.Text.{trim_space}
use fund_kit.Money.Trimmed.{trim_space-space, codes-trim_space}
use fund_kit.Http.{Headers, first_value, get_header, set_header}
use fund_kit.Config.Gateway.{HealthTarget}
use fund_kit.Consumer.{Header, Message}
use fund_kit.Consumer.Trace.{header_value, ensure_bytes, message_id}
use fund_kit.Orders.Domain.{Order, OutboxMessage}
use fund_kit.Orders.Database.{Database, IsLawful}
use fund_kit.Orders.Reservation.{Redis, IsLawfulRedis}
use fund_kit.Orders.Service as Service
use fund_kit.Orders.Handlers.{order}
use fund_kit.Orders.Publisher.{ProducerHeader, ProducerMessage, outbox_message}
use fund_kit.Orders.Router as Shop
use fund_kit.Orders.Tracing.{IsTagged, serve-IsTagged}
use fund_kit.Gateway.Users.{UserTable}
use fund_kit.Gateway.Auth.{Bcrypt, Jwt, AuthConfig}
use fund_kit.Gateway.Identity.{Caller, ReverseProxy, IsLawfulProxy}
use fund_kit.Gateway.Verified.{jwt_auth-other}
use fund_kit.Gateway.Cors.{ensure_context, request_id}
use fund_kit.Gateway.RateLimit.{Bucket}
use fund_kit.Gateway.Router.{Gin, IsLawfulGin, Request, Moment, State, forwarded, serve}
use fund_kit.Gateway.Chain.{serve-forwarded}

-- Kafka: the message that a consumer fetches for one that was produced.
abbrev pub Kafka : Type 0
Kafka = ProducerMessage → Message

abbrev pub as_fetched : ProducerHeader → Header
as_fetched h = record { key = h.key; value = h.value }

-- What Kafka documents: a record's headers are delivered as they were produced.
pub record IsLawfulKafka (deliver : Kafka) : Type 0 where
  pub headers_kept : (m : ProducerMessage) → (deliver m).headers ≡ map as_fetched m.headers

-- What a generated id is: a text that is not blank, with no white space around it.
abbrev pub IsTrimmed : String → Type 0
IsTrimmed id = (id ≢ "") × (trim_space id ≡ id)

ensure_context-IsTrimmed :
    (id inbound : String) → IsTrimmed id → IsTrimmed (ensure_context id inbound)
unfolding ensure_context
ensure_context-IsTrimmed id inbound trimmed = elim (Bool-cases (trim_space inbound == "")) [
  | inl blank ↦ rw blank trimmed
  | inr given ↦ rw given (==-false _ "" given, trim_space-space inbound)
]

-- Such an id is adopted by the next service.
adopted : (own id : String) → IsTrimmed id → Shop.ensure_context own id ≡ id
unfolding Shop.ensure_context
adopted own id (present, trimmed) = let q = text-ne id "" present in rw (trimmed, q) refl

adopted_bytes : (own : List ℕ) (id : String) → IsTrimmed id → ensure_bytes own (codes id) ≡ codes id
unfolding ensure_bytes
adopted_bytes own Str.[] (present, trimmed) = absurd (present refl)
adopted_bytes own (Str.◌∷◌ c s) (present, trimmed) =
    let same = codes-trim_space (Str.◌∷◌ c s) ∙ ap codes trimmed in rw (same, ensure_bytes) refl

fetched_id :
    (deliver : Kafka)
    → IsLawfulKafka deliver
    → (msg : OutboxMessage) (own : List ℕ) → IsTrimmed msg.request_id
    → message_id own (deliver (outbox_message msg)) ≡ codes msg.request_id
unfolding message_id header_value outbox_message
fetched_id deliver lawful msg own trimmed =
    ap (λ hs. ensure_bytes own (header_value hs "x-request-id"))
      (lawful.headers_kept (outbox_message msg))
    ∙ adopted_bytes own msg.request_id trimmed

module _ (users : UserTable) (crypt : Bcrypt) (j : Jwt) (cfg : AuthConfig) (b : Bucket) (g : Gin)
    (origins : List String) (targets : List HealthTarget) where
  -- What the gateway hands on carries the id of its request.
  forwarded-id :
      IsLawfulGin g
      → (t : Moment) (r : Request) (s : State users crypt j cfg b g origins targets)
        {caller : Caller} {h out : Headers} {s' : State users crypt j cfg b g origins targets}
      → serve users crypt j cfg b g origins targets t r s ≡ (forwarded caller h, out, s')
      → h "x-request-id" ≡ ensure_context t.new_id (get_header r.headers "x-request-id") ∷ []
  unfolding request_id set_header update
  forwarded-id lawful t r s e =
      let (q, same, within) =
        serve-forwarded users crypt j cfg b g origins targets lawful t r s e in
      jwt_auth-other j cfg.jwt_secret t.now (request_id t.new_id r.headers (λ key. [])).0 q
        "x-request-id" refl

module _ (Pnl : Type 0) (d : Database) (c : Redis) (ttl : ℕ) (engine : Shop.Gin) (users : UserTable)
    (crypt : Bcrypt) (j : Jwt) (cfg : AuthConfig) (b : Bucket) (g : Gin) (origins : List String)
    (targets : List HealthTarget) where
  -- If the gateway hands a request on, the forwarded request is routed to `POST /orders` and
  -- answered with a created order, and gin, the reverse proxy, the database, Redis and Kafka behave
  -- as documented, then the request has one correlation id throughout: the client's, without white
  -- space around it, or the gateway's new one where the client sends none. It is in the response of
  -- order-service, in the one row that the order adds to the outbox and in that row's event, and a
  -- consumer handles the published row under it. The new id is not blank and has no white space
  -- around it, and the request's Connection header does not list x-request-id.
  pub placed_order-IsCorrelated :
      (lawful : IsLawful d) (redis : IsLawfulRedis c) (gin : IsLawfulGin g) (p : ReverseProxy)
      → IsLawfulProxy p
      → (deliver : Kafka) → IsLawfulKafka deliver
      → (t : Moment) → IsTrimmed t.new_id
      → (r : Request) (s : State users crypt j cfg b g origins targets) {caller : Caller}
        {h out : Headers} {s' : State users crypt j cfg b g origins targets}
      → serve users crypt j cfg b g origins targets t r s ≡ (forwarded caller h, out, s')
      → p.connection_lists h "x-request-id" ≡ false
      → (u : Shop.Moment Pnl d c ttl engine) (q : Shop.Request) (z : Service.State d c)
        {matched : Shop.Route} {params : String → String} {row : Order} {reply : Headers}
        {z' : Service.State d c}
      → q.headers ≡ p.forward h
      → engine Shop.routes q.method q.path ≡ some (matched, params)
      → matched.endpoint ≡ Shop.create_one
      → Shop.serve Pnl d c ttl engine u q z
        ≡ (Shop.orders (record { status = 201; body = order row }), reply, z')
      → let id = ensure_context t.new_id (get_header r.headers "x-request-id") in
        (get_header reply "x-request-id" ≡ id)
        × ((msg : OutboxMessage) × IsTagged d id z.db z'.db msg
            × ((own : List ℕ) → message_id own (deliver (outbox_message msg)) ≡ codes id))
  placed_order-IsCorrelated lawful redis gin p proxy deliver kafka t fresh r s {h = h} e kept u q z
        same routed creates made =
      let id = ensure_context t.new_id (get_header r.headers "x-request-id") in
      let trimmed = ensure_context-IsTrimmed t.new_id (get_header r.headers "x-request-id") fresh in
      let sent = forwarded-id users crypt j cfg b g origins targets gin t r s e in
      let received : get_header q.headers "x-request-id" ≡ id =
        ap (λ f. get_header f "x-request-id") same
        ∙ ap first_value (proxy.forwarded h "x-request-id" refl kept ∙ sent) in
      let kept_id : Shop.ensure_context u.new_id (get_header q.headers "x-request-id") ≡ id =
        ap (Shop.ensure_context u.new_id) received ∙ adopted u.new_id id trimmed in
      let (answered, (msg, (grown, own, inner))) =
        serve-IsTagged d c ttl lawful redis Pnl engine u q z routed creates made in
      let tagged = own ∙ kept_id in
      (
        answered ∙ kept_id,
        (
          msg,
          (grown, tagged, inner ∙ kept_id),
          λ other.
              fetched_id deliver kafka msg other (subst IsTrimmed (sym tagged) trimmed)
              ∙ ap codes tagged,
        ),
      )
