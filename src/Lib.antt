-- ===== src/Lib.antt =====
-- FundKit takes mutual fund orders and keeps customers' portfolios. Its four Go services are a
-- gateway and three that are joined by one stream of events on Kafka; this library models them.
--
-- api-gateway registers customers, signs a token for each login, and forwards a request with the
-- identity of its token in headers, which order-service reads. order-service stores an order and an
-- event about it in one PostgreSQL transaction (the transactional outbox), behind an idempotency
-- reservation in Redis; a worker drives a new order through its states, and a relay publishes the
-- outbox to Kafka. portfolio-service consumes the events, prices each executed order and moves a
-- position in its ledger, which it also values. notification-service consumes the same events and
-- alerts the customer of the outcome.
--
-- The parts, by directory of the repository:
--   Base          tests, lists, results, 64-bit integers, decimals and texts, which the other
--                 modules share.
--   Orders        order-service/internal/{domain,repository,service,cache,handler,portfolio}.
--                 Status and Domain have the order, its state machine and the outbox row; Database
--                 and Reservation state what PostgreSQL and Redis document, as records of
--                 operations and laws; Repository and Service have one function for each Go method,
--                 under its name in snake case. Identity, Handlers, Pnl and Readiness have the HTTP
--                 handlers, Publisher the messages to Kafka, Startup the check of the schema,
--                 Router the routes and the request id, Main the start and the end of
--                 cmd/server/main.go. Atomicity, History, Lifecycle, Outcomes,
--                 Idempotency, Placing, Tracing and LongIds hold the proofs.
--   Relay         order-service/internal/repository/outbox_repository.go (Batch) and
--                 internal/relay/relay.go (Loop, and Run for the ticks and the end). Order, Drain,
--                 Flush, Marked, Delivered and Requeue hold the proofs, Backlog has Enqueue and the
--                 count of what is late, and Replicas two relays at once.
--   Portfolio     portfolio-service/internal/{domain,repository,service}: Event, Position, Ledger
--                 and Service, with NavCache for its ports and Grpc, Interceptors, Health and
--                 Metrics for its server. Pricing says which events move the ledger, and
--                 Ledger.Redelivery has a stream that repeats itself. Float is Go's float64, a record
--                 of operations without laws.
--   Consumer      portfolio-service/internal/consumer/{kafka,dlq}.go, over any handler. Safety,
--                 Retries, NoLoss and Stream hold the proofs, Stream with what kafka-go documents
--                 of a group's offsets. Trace has the correlation id of a message.
--   Notification  notification-service/internal/{domain,service}: Event and Notifier;
--                 internal/consumer: Consumer and DeadLetters, with the counters of
--                 internal/platform/metrics in Recorder; internal/handler: Health. Agreement
--                 compares its consumer with that of portfolio-service; Counting, Waits, Dedup and
--                 Delivery hold other proofs.
--   Gateway       api-gateway/internal/{domain,repository,service,handler,middleware,token}: User,
--                 Users, Auth, Sessions (the handlers) and Identity (the check of a token). bcrypt,
--                 the JWT library, the table of accounts and the reverse proxy are records of
--                 operations and laws. Credentials, Tokens, Verified, Forwarding and Holdings hold
--                 the proofs; the last two join the gateway to the services behind it. RateLimit,
--                 Cors and Health have the rest of the middleware and the probes, Router the whole
--                 chain over gin's matching of paths; Janitor, Chain and Admission hold proofs
--                 about the limiter and the chain. Correlation follows the correlation id of a
--                 request through order-service and Kafka to a consumer.
--   Http          the headers of a request, by a key in lower case.
--   Money         order-service/internal/domain/money.go, of which the other two services have
--                 copies: the grouping of digits, and in Rupees the printing and the parsing;
--                 Printed, RoundTrip and Trimmed hold the proofs.
--   Config        internal/config/config.go of each service, Env having what they share; Accepted
--                 and Outbox hold the proofs.
--   Examples      a PostgreSQL and a Redis of lists, a broker, a feed and messages, at which the
--                 theorems are applied.
--
-- A Go method that changes state is a function from a state to a result and a state. A service's
-- state is its database, its cache and the workers that it has started; other requests and workers
-- commit their transactions at the points where an operation is between two statements, and `Step`
-- in Orders.History is what any one of these transactions does. An error is a value. A `time.Time`
-- is a number of ticks, a payload's bytes are the envelope that they encode, and money is a whole
-- number of paise with the wrap-around of int64 written out. What a call reads from outside, such
-- as a new UUID, the clock and a failure of the serialiser, is an argument.
--
-- The drain of the relay runs on fuel, one unit for a pass, and others insert rows between the
-- passes: a pass that publishes nothing is the last, and any other retires a pending row, so one
-- unit more than the pending rows and those that are inserted meanwhile is enough.
-- The retries of a consumer are a recursion on the attempts that are left, `extra` of them after
-- the first: the configuration refuses a maximum below 1.
--
-- Printing a number takes 19 units of fuel, one for a digit: an int64 has no more digits.
--
-- Not modelled: recovery and the timeouts of the HTTP servers; Kafka, gin, gorm and the
-- metrics, which are libraries; logging, tracing and the entry points of the other services, which
-- are input and output. A request's body is what the JSON decoder made of it. Letters are
-- lower-cased as in ASCII. The history of the outbox is that of one relay; Relay.Replicas has two
-- passes at once.
pub mod Base
pub mod Orders
pub mod Relay
pub mod Portfolio
pub mod Consumer
pub mod Notification
pub mod Money
pub mod Http
pub mod Gateway
pub mod Config
pub mod Examples
