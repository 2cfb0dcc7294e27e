-- ===== src/Config/Order.antt =====
-- order-service/internal/config/config.go. Durations are in nanoseconds.
use fund_kit.Base.{◌*◌, String, List, [], ◌∷◌, not, ◌==◌, Result, ok, ◌>>=◌, ◌>>◌, fail_if}
use fund_kit.Base.Int.{ℤ, pos, ltb_ℤ}
use fund_kit.Config.Env.{
  Env, ParseDuration, env_string, env_list, env_duration, env_int, database_url, is_empty, second,
  hour,
}

pub record ServiceConfig : Type 0 where
  pub name : String
  pub http_port : String
  pub metrics_port : String
  pub log_level : String
  pub shutdown_timeout : ℤ
  pub request_timeout : ℤ

pub record DatabaseConfig : Type 0 where
  pub url : String
  pub connect_timeout : ℤ
  pub max_open_conns : ℤ
  pub max_idle_conns : ℤ
  pub conn_max_lifetime : ℤ

pub record RedisConfig : Type 0 where
  pub addr : String
  pub password : String
  pub db : ℤ
  pub dial_timeout : ℤ
  pub idempotency_ttl : ℤ

pub record KafkaConfig : Type 0 where
  pub brokers : List String
  pub order_topic : String

pub record PortfolioConfig : Type 0 where
  pub grpc_addr : String
  pub dial_timeout : ℤ
  pub call_timeout : ℤ

pub record OutboxConfig : Type 0 where
  pub poll_interval : ℤ
  pub batch_size : ℤ
  pub max_attempts : ℤ
  pub max_backoff : ℤ
  pub shutdown_flush : ℤ

pub record Config : Type 0 where
  pub service : ServiceConfig
  pub database : DatabaseConfig
  pub redis : RedisConfig
  pub kafka : KafkaConfig
  pub portfolio : PortfolioConfig
  pub outbox : OutboxConfig

-- What `Load` reads, before its checks.
unfoldable pub read :
    (String → String → String → String → String → String) → ParseDuration → Env → Config
read url parse env = record {
  service = record {
    name = env_string env "SERVICE_NAME" "order-service" "SERVICE_NAME";
    http_port = env_string env "HTTP_PORT" "8081" "PORT";
    metrics_port = env_string env "METRICS_PORT" "9100" "";
    log_level = env_string env "LOG_LEVEL" "info" "LOG_LEVEL";
    shutdown_timeout = env_duration parse env "SHUTDOWN_TIMEOUT" (pos (15 * second));
    request_timeout = env_duration parse env "REQUEST_TIMEOUT" (pos (10 * second));
  };
  database = record {
    url = database_url url env;
    connect_timeout = env_duration parse env "DB_CONNECT_TIMEOUT" (pos (10 * second));
    max_open_conns = env_int env "DB_MAX_OPEN_CONNS" (pos 25);
    max_idle_conns = env_int env "DB_MAX_IDLE_CONNS" (pos 5);
    conn_max_lifetime = env_duration parse env "DB_CONN_MAX_LIFETIME" (pos (hour));
  };
  redis = record {
    addr = env_string env "REDIS_URL" "localhost:6379" "REDIS_URL";
    password = env_string env "REDIS_PASSWORD" "" "REDIS_PASSWORD";
    db = env_int env "REDIS_DB" (pos 0);
    dial_timeout = env_duration parse env "REDIS_DIAL_TIMEOUT" (pos (5 * second));
    idempotency_ttl = env_duration parse env "IDEMPOTENCY_TTL" (pos (24 * hour));
  };
  kafka = record {
    brokers = env_list env "KAFKA_BROKERS" ("localhost:9092" ∷ []) "KAFKA_BROKERS";
    order_topic = env_string env "KAFKA_ORDER_TOPIC" "order_events" "";
  };
  portfolio = record {
    grpc_addr = env_string env "PORTFOLIO_GRPC_URL" "localhost:50051" "PORTFOLIO_GRPC_URL";
    dial_timeout = env_duration parse env "PORTFOLIO_DIAL_TIMEOUT" (pos (5 * second));
    call_timeout = env_duration parse env "PORTFOLIO_CALL_TIMEOUT" (pos (3 * second));
  };
  outbox = record {
    poll_interval = env_duration parse env "OUTBOX_POLL_INTERVAL" (pos (second));
    batch_size = env_int env "OUTBOX_BATCH_SIZE" (pos 100);
    max_attempts = env_int env "OUTBOX_MAX_ATTEMPTS" (pos 10);
    max_backoff = env_duration parse env "OUTBOX_MAX_BACKOFF" (pos (30 * second));
    shutdown_flush = env_duration parse env "OUTBOX_SHUTDOWN_FLUSH" (pos (5 * second));
  };
}

-- `Config.validate`.
unfoldable pub validate : Config → Result String (Unit {0})
validate c = do
  fail_if (c.database.url == "")
      "config: FUNDKIT_DB_URL (or FUNDKIT_DB_HOST/DB_NAME/DB_USER) must be set"
  fail_if (is_empty c.kafka.brokers)
      "config: FUNDKIT_KAFKA_BROKERS must contain at least one broker"
  fail_if (c.redis.addr == "") "config: FUNDKIT_REDIS_URL must be set"
  fail_if (not (ltb_ℤ (pos 0) c.outbox.batch_size))
      "config: FUNDKIT_OUTBOX_BATCH_SIZE must be greater than zero"
  fail_if (not (ltb_ℤ (pos 0) c.outbox.poll_interval))
      "config: FUNDKIT_OUTBOX_POLL_INTERVAL must be greater than zero"
  ok tt

-- `Load`.
unfoldable pub load :
    (String → String → String → String → String → String)
    → ParseDuration
    → Env
    → Result String Config
unfolding read validate
load url parse env = do done ← validate (read url parse env); ok (read url parse env)
