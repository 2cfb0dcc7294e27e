-- ===== src/Examples/Correlation.antt =====
-- Requests with a correlation id, through the gateway and order-service.
use fund_kit.Base.{
  ℕ, String, codes, List, [], ◌∷◌, map, Option, none, some, ◌≡◌, ◌≢◌, refl, ◌<◌, arith, false, ◌==◌,
  ◌&&◌, ltb, length, update, Bool-cases, inl, inr, ok, err, if◌then◌else◌, lt→ltb,
}
use fund_kit.Base.Text.{trim_space}
use fund_kit.Http.{get_header, set_header, del_header}
use fund_kit.Orders.Domain.{OutboxMessage, Order, before_create, new_order_status_changed_outbox}
use fund_kit.Orders.Database.{Database, IsLawful}
use fund_kit.Orders.Repository.{create_body, create_with_outbox}
use fund_kit.Orders.Reservation.{claim_idempotency}
use fund_kit.Orders.Service.{State, place}
use fund_kit.Orders.Outcomes.{IsRefused}
use fund_kit.Orders.Identity.{identity_from_headers, display_name}
use fund_kit.Orders.Handlers.{
  order, create_order, is_valid_create, resolve_order_user_id, new_order_of,
}
use fund_kit.Orders.Publisher.{outbox_message}
use fund_kit.Orders.Router.{Gin, Route, routes, Request, Moment, orders, serve, create_one}
use fund_kit.Orders.Router as Shop
use fund_kit.Orders.Tracing.{IsTagged}
use fund_kit.Orders.LongIds.{LimitsRequestId, long_request_id-IsRefused}
use fund_kit.Consumer.Trace.{message_id}
use fund_kit.Gateway.Identity.{clear_identity_headers, set_identity_headers}
use fund_kit.Gateway.Cors.{ensure_context}
use fund_kit.Gateway.Correlation.{
  Kafka, IsLawfulKafka, as_fetched, IsTrimmed, placed_order-IsCorrelated,
}
use fund_kit.Examples.Accounts.{accounts, bcrypt, jwt, auth_config, proxy, proxy-IsLawful}
use fund_kit.Examples.RateLimit.{bucket}
use fund_kit.Examples.Admission as Front
use fund_kit.Examples.Gateway.{placed_row}
use fund_kit.Examples.Gateway as Shown
use fund_kit.Examples.Requests.{minted, empty}
use fund_kit.Examples.Tables.{postgres, postgres-IsLawful, find, insert_order, transaction}
use fund_kit.Examples.Keys.{redis, redis-IsLawfulRedis, set_nx}

-- A router that knows exact patterns.
exact : List Route → String → String → Option (Route × (String → String))
exact [] method path = none
exact (r ∷ rs) method path =
    let rest = exact rs method path in
    if (r.method == method) && (r.pattern == path) then some (r, λ name. "") else rest

abbrev kafka : Kafka
kafka m = record {
  topic = "order-events";
  partition = 0;
  offset = 0;
  key = codes m.key;
  value = [];
  headers = map as_fetched m.headers;
}

kafka-IsLawful : IsLawfulKafka kafka
kafka-IsLawful = record { headers_kept = λ m. refl }

r1-IsTrimmed : IsTrimmed "r1"
unfolding trim_space
r1-IsTrimmed = (λ e. absurd (cc), refl)

abbrev moment : Moment ℕ postgres redis 600 exact
moment = record {
  new_id = "r9";
  uuid = "o1";
  minted = minted;
  invalid = [];
  gap = λ db. db;
  checks = [];
  rpc = none;
}

abbrev request : Request
request = record {
  method = "POST";
  path = "/orders";
  query_limit = "";
  headers = proxy.forward Front.admitted;
  new_order = ok Shown.request;
  next_status = err [];
}

abbrev create_route : Route
create_route = record { method = "POST"; pattern = "/orders"; endpoint = create_one }

abbrev after : State postgres redis
after = (serve ℕ postgres redis 600 exact moment request empty).2

created : serve ℕ postgres redis 600 exact moment request empty ≡ (
  orders (record { status = 201; body = order placed_row }),
  set_header (λ key. []) "x-request-id" "r1",
  after,
)
unfolding serve exact routes Shop.request_id set_header update trim_space clear_identity_headers
    del_header set_identity_headers create_order is_valid_create resolve_order_user_id
    identity_from_headers place claim_idempotency set_nx create_with_outbox transaction create_body
    insert_order find new_order_status_changed_outbox before_create new_order_of display_name
created = refl

routed : exact routes "POST" "/orders" ≡ some (create_route, λ name. "")
unfolding exact routes
routed = refl

unlisted : proxy.connection_lists Front.admitted "x-request-id" ≡ false
unfolding set_identity_headers clear_identity_headers del_header set_header update
unlisted = refl

placed_order-IsCorrelated_example :
    (get_header (set_header (λ key. []) "x-request-id" "r1") "x-request-id" ≡ "r1")
    × ((msg : OutboxMessage) × IsTagged postgres "r1" empty.db after.db msg
        × ((own : List ℕ) → message_id own (kafka (outbox_message msg)) ≡ codes "r1"))
unfolding trim_space set_header update ensure_context
placed_order-IsCorrelated_example =
    placed_order-IsCorrelated ℕ postgres redis 600 exact accounts bcrypt jwt auth_config bucket
      Front.gin ("http://localhost:3000" ∷ []) [] postgres-IsLawful redis-IsLawfulRedis
      Front.gin-IsLawful proxy proxy-IsLawful kafka kafka-IsLawful Front.moment r1-IsTrimmed
      Front.request Front.gate Front.answered unlisted moment request empty refl routed refl created

-- A database with the column's limit.
abbrev strict : Database
strict = record postgres {
  insert_outbox = λ m t.
      if ltb 64 (length (codes m.request_id))
      then err (codes "ERROR: value too long for type character varying(64)")
      else postgres.insert_outbox m t;
}

strict-IsLawful : IsLawful strict
strict-IsLawful = record {
  orders_keyed = postgres-IsLawful.orders_keyed;
  insert_order_lem = postgres-IsLawful.insert_order_lem;
  first_order_lem = postgres-IsLawful.first_order_lem;
  set_status_lem = postgres-IsLawful.set_status_lem;
  remove_order_lem = postgres-IsLawful.remove_order_lem;
  insert_outbox_lem = λ m t h. elim (Bool-cases (ltb 64 (length (codes m.request_id)))) [
    | inl long ↦ absurd (cc (rw long at h))
    | inr short ↦ postgres-IsLawful.insert_outbox_lem m t (rw short at h)
  ];
  transaction_rolled_back = postgres-IsLawful.transaction_rolled_back;
  transaction_committed = postgres-IsLawful.transaction_committed;
}

strict-Limits : LimitsRequestId strict
strict-Limits = record {
  too_long = λ msg t long.
      (codes "ERROR: value too long for type character varying(64)", rw (lt→ltb 64 _ long) refl);
}

-- 65 letters.
abbrev long_id : String
long_id = "aaaaaaaaaaaaaaaaaaaaaaaaaaaaaaaaaaaaaaaaaaaaaaaaaaaaaaaaaaaaaaaaa"

abbrev long_request : Request
long_request = record request {
  headers = λ key. if key == "x-request-id" then long_id ∷ [] else [];
}

abbrev start : State strict redis
start = record { db = empty.db; cache = empty.cache; in_flight = [] }

abbrev strict_moment : Moment ℕ strict redis 600 exact
strict_moment = record {
  new_id = "r9";
  uuid = "o1";
  minted = minted;
  invalid = [];
  gap = λ db. db;
  checks = [];
  rpc = none;
}

is_long : 64 < length (codes (trim_space long_id))
unfolding trim_space
is_long = omega arith

long_request_id-IsRefused_example :
    let (answer, out, s') = serve ℕ strict redis 600 exact strict_moment long_request start in
    IsRefused strict redis start s'
    × ((row : Order) → answer ≢ orders (record { status = 201; body = order row }))
long_request_id-IsRefused_example =
    long_request_id-IsRefused strict strict-Limits strict-IsLawful redis 600 ℕ exact strict_moment
      long_request start routed refl is_long
