-- ===== src/Config/Gateway.antt =====
-- api-gateway/internal/config/config.go. Durations are in nanoseconds; a rate is a number of the type
-- `Rate`, which stands for float64.
use Prim.Native.String.{len}
use fund_kit.Base.{
  ◌*◌, Option, String, List, [], ◌∷◌, ◌==◌, ltb, if◌then◌else◌, Result, ok, ◌>>=◌, ◌>>◌, fail_if,
}
use fund_kit.Base.Int.{ℤ, pos}
use fund_kit.Base.Text.{trim_space}
use fund_kit.Gateway.Auth.{AuthConfig}
use fund_kit.Config.Env.{
  Env, ParseDuration, env_string, env_list, env_duration, env_int, database_url, or_default, second,
  minute, hour,
}

pub record ServiceConfig : Type 0 where
  pub name : String
  pub http_port : String
  pub metrics_port : String
  pub log_level : String
  pub shutdown_timeout : ℤ
  pub proxy_timeout : ℤ

pub record DatabaseConfig : Type 0 where
  pub url : String
  pub connect_timeout : ℤ
  pub max_open_conns : ℤ
  pub max_idle_conns : ℤ
  pub conn_max_lifetime : ℤ

pub record RateLimitConfig (Rate : Type 0) : Type 0 where
  pub requests_per_second : Rate
  pub burst : ℤ
  pub client_ttl : ℤ

pub record HealthTarget : Type 0 where
  pub name : String
  pub url : String

pub record UpstreamConfig : Type 0 where
  pub order_service_url : String
  pub health_targets : List HealthTarget
  pub health_timeout : ℤ

-- The one field of `CORSConfig` stands for it.
pub record Config (Rate : Type 0) : Type 0 where
  pub service : ServiceConfig
  pub auth : AuthConfig
  pub database : DatabaseConfig
  pub rate_limit : RateLimitConfig Rate
  pub allowed_origins : List String
  pub upstreams : UpstreamConfig

-- `fmt.Sscanf(text, "%g", &rate)` and the fallback of `envFloat`.
unfoldable pub env_float : {Rate : Type 0} → (String → Option Rate) → Env → String → Rate → Rate
unfolding env_string
env_float scan env key fallback =
    let raw = env_string env key "" "" in
    if raw == "" then fallback else or_default fallback (scan raw)

unfoldable pub health_targets : Env → List HealthTarget
unfolding env_string
health_targets env =
    record {
      name = "order-service";
      url =
          env_string env "ORDER_SERVICE_HEALTH_URL" "http://localhost:8081/readyz"
            "ORDER_SERVICE_HEALTH_URL";
    }
    ∷ record {
      name = "portfolio-service";
      url =
          env_string env "PORTFOLIO_SERVICE_HEALTH_URL" "http://localhost:8082/readyz"
            "PORTFOLIO_SERVICE_HEALTH_URL";
    }
    ∷ record {
      name = "notification-service";
      url =
          env_string env "NOTIFICATION_SERVICE_HEALTH_URL" "http://localhost:8083/readyz"
            "NOTIFICATION_SERVICE_HEALTH_URL";
    }
    ∷ []

module _ {Rate : Type 0} (five : Rate) (scan : String → Option Rate) where
  -- What `Load` reads, before its checks; `five` is the rate 5.
  unfoldable pub read :
      (String → String → String → String → String → String) → ParseDuration → Env → Config Rate
  read url parse env = record {
    service = record {
      name = env_string env "SERVICE_NAME" "api-gateway" "SERVICE_NAME";
      http_port = env_string env "HTTP_PORT" "8080" "PORT";
      metrics_port = env_string env "METRICS_PORT" "9100" "";
      log_level = env_string env "LOG_LEVEL" "info" "LOG_LEVEL";
      shutdown_timeout = env_duration parse env "SHUTDOWN_TIMEOUT" (pos (15 * second));
      proxy_timeout = env_duration parse env "PROXY_TIMEOUT" (pos (15 * second));
    };
    auth = record {
      jwt_secret = env_string env "JWT_SECRET" "" "JWT_SECRET";
      token_ttl = env_duration parse env "JWT_TTL" (pos (24 * hour));
      issuer = env_string env "JWT_ISSUER" "fundkit-api-gateway" "";
      bcrypt_cost = env_int env "BCRYPT_COST" (pos 10);
    };
    database = record {
      url = database_url url env;
      connect_timeout = env_duration parse env "DB_CONNECT_TIMEOUT" (pos (10 * second));
      max_open_conns = env_int env "DB_MAX_OPEN_CONNS" (pos 15);
      max_idle_conns = env_int env "DB_MAX_IDLE_CONNS" (pos 5);
      conn_max_lifetime = env_duration parse env "DB_CONN_MAX_LIFETIME" (pos (hour));
    };
    rate_limit = record {
      requests_per_second = env_float scan env "RATE_LIMIT_RPS" five;
      burst = env_int env "RATE_LIMIT_BURST" (pos 10);
      client_ttl = env_duration parse env "RATE_LIMIT_CLIENT_TTL" (pos (10 * minute));
    };
    allowed_origins = env_list env "CORS_ALLOWED_ORIGINS" ("http://localhost:5173" ∷ []) "";
    upstreams = record {
      order_service_url =
          env_string env "ORDER_SERVICE_URL" "http://localhost:8081" "ORDER_SERVICE_URL";
      health_targets = health_targets env;
      health_timeout = env_duration parse env "HEALTH_TIMEOUT" (pos (2 * second));
    };
  }

  -- `Config.validate`.
  unfoldable pub validate : Config Rate → Result String (Unit {0})
  validate c = do
    fail_if (trim_space c.auth.jwt_secret == "") "config: FUNDKIT_JWT_SECRET must be set"
    fail_if (ltb (len c.auth.jwt_secret) 16)
        "config: FUNDKIT_JWT_SECRET must be at least 16 characters"
    fail_if (c.upstreams.order_service_url == "") "config: FUNDKIT_ORDER_SERVICE_URL must be set"
    fail_if (c.database.url == "")
        "config: FUNDKIT_DB_URL (or FUNDKIT_DB_HOST/DB_NAME/DB_USER) must be set"
    ok tt

  -- `Load`.
  unfoldable pub load :
      (String → String → String → String → String → String)
      → ParseDuration
      → Env
      → Result String (Config Rate)
  unfolding read validate
  load url parse env = do done ← validate (read url parse env); ok (read url parse env)
