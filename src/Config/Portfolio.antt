-- ===== src/Config/Portfolio.antt =====
-- portfolio-service/internal/config/config.go. Durations are in nanoseconds; an
-- error is its text without the value that it quotes.
use fund_kit.Base.{◌*◌, String, List, [], ◌∷◌, Bool, true, ◌==◌, Result, ok, ◌>>◌, fail_if}
use fund_kit.Base.Int.{ℤ, pos, ltb_ℤ}
use fund_kit.Config.Env.{
  Env, ParseDuration, env_string, env_list, env_duration, env_int, env_bool, is_empty, millisecond,
  second,
}

pub record ServiceConfig : Type 0 where
  pub name : String
  pub grpc_port : String
  pub http_port : String
  pub metrics_port : String
  pub log_level : String
  pub shutdown_timeout : ℤ
  pub request_timeout : ℤ

pub record RedisConfig : Type 0 where
  pub addr : String
  pub password : String
  pub db : ℤ
  pub dial_timeout : ℤ

pub record KafkaConfig : Type 0 where
  pub brokers : List String
  pub order_topic : String
  pub group_id : String
  pub min_bytes : ℤ
  pub max_bytes : ℤ
  pub max_wait : ℤ
  pub start_offset : String
  pub dlq_topic : String
  pub max_attempts : ℤ
  pub retry_backoff : ℤ

-- The one field of `NAVConfig` and that of `LedgerConfig` stand for them.
pub record Config : Type 0 where
  pub service : ServiceConfig
  pub redis : RedisConfig
  pub nav_cache_ttl : ℤ
  pub kafka : KafkaConfig
  pub seed_holdings : Bool

-- What `Load` reads, before its checks.
unfoldable pub read : ParseDuration → Env → Config
read parse env = record {
  service = record {
    name = env_string env "SERVICE_NAME" "portfolio-service" "SERVICE_NAME";
    grpc_port = env_string env "GRPC_PORT" "50051" "GRPC_PORT";
    http_port = env_string env "HTTP_PORT" "8082" "PORT";
    metrics_port = env_string env "METRICS_PORT" "9100" "";
    log_level = env_string env "LOG_LEVEL" "info" "LOG_LEVEL";
    shutdown_timeout = env_duration parse env "SHUTDOWN_TIMEOUT" (pos (15 * second));
    request_timeout = env_duration parse env "REQUEST_TIMEOUT" (pos (5 * second));
  };
  redis = record {
    addr = env_string env "REDIS_URL" "localhost:6379" "REDIS_URL";
    password = env_string env "REDIS_PASSWORD" "" "REDIS_PASSWORD";
    db = env_int env "REDIS_DB" (pos 0);
    dial_timeout = env_duration parse env "REDIS_DIAL_TIMEOUT" (pos (5 * second));
  };
  nav_cache_ttl = env_duration parse env "NAV_CACHE_TTL" (pos (30 * second));
  kafka = record {
    brokers = env_list env "KAFKA_BROKERS" ("localhost:29092" ∷ []) "KAFKA_BROKERS";
    order_topic = env_string env "KAFKA_ORDER_TOPIC" "order_events" "";
    group_id = env_string env "KAFKA_CONSUMER_GROUP" "fundkit-portfolio-workers" "";
    min_bytes = env_int env "KAFKA_MIN_BYTES" (pos 1);
    max_bytes = env_int env "KAFKA_MAX_BYTES" (pos 10000000);
    max_wait = env_duration parse env "KAFKA_MAX_WAIT" (pos (500 * millisecond));
    start_offset = env_string env "KAFKA_START_OFFSET" "last" "";
    dlq_topic = env_string env "KAFKA_DLQ_TOPIC" "order_events_portfolio_dlq" "";
    max_attempts = env_int env "KAFKA_MAX_ATTEMPTS" (pos 3);
    retry_backoff = env_duration parse env "KAFKA_RETRY_BACKOFF" (pos (200 * millisecond));
  };
  seed_holdings = env_bool env "SEED_HOLDINGS" true;
}

-- `Load`.
unfoldable pub load : ParseDuration → Env → Result String Config
unfolding read
load parse env = do
  let c = read parse env
  fail_if (c.redis.addr == "") "config: FUNDKIT_REDIS_URL must be set"
  fail_if (is_empty c.kafka.brokers)
      "config: FUNDKIT_KAFKA_BROKERS must contain at least one broker"
  fail_if (c.kafka.order_topic == "") "config: FUNDKIT_KAFKA_ORDER_TOPIC must not be empty"
  fail_if (c.kafka.dlq_topic == "") "config: FUNDKIT_KAFKA_DLQ_TOPIC must not be empty"
  fail_if (c.kafka.dlq_topic == c.kafka.order_topic)
      "config: FUNDKIT_KAFKA_DLQ_TOPIC must differ from FUNDKIT_KAFKA_ORDER_TOPIC"
  fail_if (c.kafka.group_id == "") "config: FUNDKIT_KAFKA_CONSUMER_GROUP must not be empty"
  fail_if (ltb_ℤ c.kafka.max_attempts (pos 1))
      "config: FUNDKIT_KAFKA_MAX_ATTEMPTS must be at least 1"
  ok c
