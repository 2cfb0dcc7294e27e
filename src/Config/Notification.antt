-- ===== src/Config/Notification.antt =====
-- notification-service/internal/config/config.go. Durations are in nanoseconds; an
-- error is its text without the value that it quotes.
use fund_kit.Base.{◌*◌, String, List, [], ◌∷◌, ◌==◌, Result, ok, ◌>>◌, fail_if}
use fund_kit.Base.Int.{ℤ, pos, ltb_ℤ}
use fund_kit.Config.Env.{
  Env, ParseDuration, env_string, env_list, env_duration, env_int, is_empty, millisecond, second,
}

pub record ServiceConfig : Type 0 where
  pub name : String
  pub http_port : String
  pub metrics_port : String
  pub log_level : String
  pub shutdown_timeout : ℤ

-- `CommitPolicy`, which nothing sets or reads, is left out.
pub record KafkaConfig : Type 0 where
  pub brokers : List String
  pub order_topic : String
  pub group_id : String
  pub min_bytes : ℤ
  pub max_bytes : ℤ
  pub max_wait : ℤ
  pub start_offset : String
  pub dlq_topic : String
  pub max_attempts : ℤ
  pub retry_backoff : ℤ

pub record Config : Type 0 where
  pub service : ServiceConfig
  pub kafka : KafkaConfig

-- What `Load` reads, before its checks.
unfoldable pub read : ParseDuration → Env → Config
read parse env = record {
  service = record {
    name = env_string env "SERVICE_NAME" "notification-service" "SERVICE_NAME";
    http_port = env_string env "HTTP_PORT" "8083" "PORT";
    metrics_port = env_string env "METRICS_PORT" "9100" "";
    log_level = env_string env "LOG_LEVEL" "info" "LOG_LEVEL";
    shutdown_timeout = env_duration parse env "SHUTDOWN_TIMEOUT" (pos (15 * second));
  };
  kafka = record {
    brokers = env_list env "KAFKA_BROKERS" ("localhost:29092" ∷ []) "KAFKA_BROKERS";
    order_topic = env_string env "KAFKA_ORDER_TOPIC" "order_events" "";
    group_id = env_string env "KAFKA_CONSUMER_GROUP" "fundkit-notification-workers" "";
    min_bytes = env_int env "KAFKA_MIN_BYTES" (pos 1);
    max_bytes = env_int env "KAFKA_MAX_BYTES" (pos 10000000);
    max_wait = env_duration parse env "KAFKA_MAX_WAIT" (pos (500 * millisecond));
    start_offset = env_string env "KAFKA_START_OFFSET" "last" "";
    dlq_topic = env_string env "KAFKA_DLQ_TOPIC" "order_events_dlq" "";
    max_attempts = env_int env "KAFKA_MAX_ATTEMPTS" (pos 3);
    retry_backoff = env_duration parse env "KAFKA_RETRY_BACKOFF" (pos (200 * millisecond));
  };
}

-- `Load`.
unfoldable pub load : ParseDuration → Env → Result String Config
unfolding read
load parse env = do
  let c = read parse env
  fail_if (is_empty c.kafka.brokers)
      "config: FUNDKIT_KAFKA_BROKERS must contain at least one broker"
  fail_if (c.kafka.dlq_topic == "") "config: FUNDKIT_KAFKA_DLQ_TOPIC must not be empty"
  fail_if (c.kafka.dlq_topic == c.kafka.order_topic)
      "config: FUNDKIT_KAFKA_DLQ_TOPIC must differ from FUNDKIT_KAFKA_ORDER_TOPIC"
  fail_if (ltb_ℤ c.kafka.max_attempts (pos 1))
      "config: FUNDKIT_KAFKA_MAX_ATTEMPTS must be at least 1"
  ok c
