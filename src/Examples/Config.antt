-- ===== src/Examples/Config.antt =====
-- Environments, and what the services read from them.
use fund_kit.Config.Env.{database_url, env_list, env_int, env_duration, Env, ParseDuration}
use fund_kit.Base.Text.{trim_space}
use fund_kit.Base.Decimal.{scan, scan_int}
use fund_kit.Base.{String, ◌≡◌, refl, ◌==◌, none, if◌then◌else◌, ok}
use fund_kit.Config.Accepted.{IsDecidedBy, consumer_load_outcome}
use fund_kit.Config.Portfolio
use fund_kit.Config.Notification
use fund_kit.Config.Order

abbrev parse : ParseDuration
parse text = none

abbrev one_topic : Env
one_topic key = if key == "FUNDKIT_KAFKA_DLQ_TOPIC" then " order_events " else ""

consumer_load_outcome_example :
    let p = Portfolio.read parse one_topic in
    let n = Notification.read parse one_topic in
    IsDecidedBy
      (Portfolio.load parse one_topic)
      p
      p.kafka.dlq_topic
      p.kafka.order_topic
      p.kafka.max_attempts
    × IsDecidedBy
        (Notification.load parse one_topic)
        n
        n.kafka.dlq_topic
        n.kafka.order_topic
        n.kafka.max_attempts
consumer_load_outcome_example = consumer_load_outcome parse one_topic

abbrev small_batches : Env
small_batches key =
    if key == "DB_URL"
    then "postgres://db/orders"
    else (if key == "FUNDKIT_OUTBOX_BATCH_SIZE" then "20" else "")

abbrev url : String → String → String → String → String → String
url user password host path mode = host

abbrev config : Order.Config
config = Order.read url parse small_batches

accepted : Order.load url parse small_batches ≡ ok config
unfolding Order.load database_url trim_space env_list env_int scan_int scan env_duration
accepted = refl
