-- ===== src/Config/Accepted.antt =====
-- What the checks of `Load` accept (internal/config/config.go of portfolio-service
-- and notification-service).
use Prim.Native.String.{◌++◌}
use fund_kit.Base.{
  String, List, [], ◌∷◌, ◌≡◌, ◌≢◌, refl, ◌⊎◌, inl, inr, true, false, ◌==◌, arith, if◌then◌else◌,
  Result, ok, err, Bool-cases, ==-false, eq_iff,
}
use fund_kit.Base.Int.{ℤ, pos, ltb_ℤ, ◌≤ℤ◌}
use fund_kit.Base.Text.{trim_space, split_commas}
use fund_kit.Config.Env.{Env, ParseDuration, env_string, env_list, is_empty, or_else, trimmed_parts}
use fund_kit.Config.Portfolio
use fund_kit.Config.Notification

given-nonempty : (a b : String) → (b == "") ≡ false → ((if a == "" then b else a) == "") ≡ false
given-nonempty a b h = elim (Bool-cases (a == "")) [ inl e ↦ rw e h | inr e ↦ rw (e, e) refl ]

-- A setting with a default is never empty.
env_string-nonempty :
    (env : Env) (key fallback legacy : String)
    → (fallback == "") ≡ false
    → (env_string env key fallback legacy == "") ≡ false
unfolding env_string
env_string-nonempty env key fallback legacy h =
    given-nonempty (trim_space (env ("FUNDKIT_" ++ key))) _ (elim (Bool-cases (legacy == "")) [
      | inl e ↦ rw e h
      | inr e ↦ rw e (given-nonempty (trim_space (env legacy)) fallback h)
    ])

or_else-nonempty :
    (fallback : String) (is : List String) → is_empty (or_else (fallback ∷ []) is) ≡ false
or_else-nonempty fallback [] = refl
or_else-nonempty fallback (i ∷ is) = refl

env_list-nonempty :
    (env : Env) (key fallback legacy : String)
    → is_empty (env_list env key (fallback ∷ []) legacy) ≡ false
unfolding env_list
env_list-nonempty env key fallback legacy =
    let raw = env_string env key "" legacy in
    elim (Bool-cases (raw == "")) [
      | inl e ↦ rw e refl
      | inr e ↦ rw e (or_else-nonempty fallback (trimmed_parts (split_commas raw)))
    ]

-- Loading succeeds with this configuration unless its dead letters go to the topic of the events or it
-- gives an event no attempt.
abbrev pub IsDecidedBy : {C : Type 0} → Result String C → C → String → String → ℤ → Type 0
IsDecidedBy r c dlq topic attempts =
    ((r ≡ ok c) × (dlq ≢ topic) × (pos 1 ≤ℤ attempts))
    ⊎ ((e : String) × (r ≡ err e) × ((dlq ≡ topic) ⊎ (ltb_ℤ attempts (pos 1) ≡ true)))

ltb_ℤ-false : (a b : ℤ) → ltb_ℤ a b ≡ false → b ≤ℤ a
ltb_ℤ-false a b h = ground arith

portfolio_load_outcome :
    (parse : ParseDuration) (env : Env)
    → let c = Portfolio.read parse env in
      IsDecidedBy
        (Portfolio.load parse env)
        c
        c.kafka.dlq_topic
        c.kafka.order_topic
        c.kafka.max_attempts
unfolding Portfolio.load Portfolio.read
portfolio_load_outcome parse env =
    let c = Portfolio.read parse env in
    let addr = env_string-nonempty env "REDIS_URL" "localhost:6379" "REDIS_URL" refl in
    let brokers = env_list-nonempty env "KAFKA_BROKERS" "localhost:29092" "KAFKA_BROKERS" in
    let topic = env_string-nonempty env "KAFKA_ORDER_TOPIC" "order_events" "" refl in
    let dlq = env_string-nonempty env "KAFKA_DLQ_TOPIC" "order_events_portfolio_dlq" "" refl in
    let group =
      env_string-nonempty env "KAFKA_CONSUMER_GROUP" "fundkit-portfolio-workers" "" refl in
    elim (Bool-cases (c.kafka.dlq_topic == c.kafka.order_topic)) [
      | inl same ↦ inr (
        "config: FUNDKIT_KAFKA_DLQ_TOPIC must differ from FUNDKIT_KAFKA_ORDER_TOPIC",
        rw (addr, brokers, topic, dlq, same) refl,
        inl ((eq_iff c.kafka.dlq_topic c.kafka.order_topic).0 same),
      )
      | inr differ ↦ elim (Bool-cases (ltb_ℤ c.kafka.max_attempts (pos 1))) [
        | inl few ↦ inr (
          "config: FUNDKIT_KAFKA_MAX_ATTEMPTS must be at least 1",
          rw (addr, brokers, topic, dlq, differ, group, few) refl,
          inr few,
        )
        | inr enough ↦ inl (
          rw (addr, brokers, topic, dlq, differ, group, enough) refl,
          ==-false c.kafka.dlq_topic c.kafka.order_topic differ,
          ltb_ℤ-false c.kafka.max_attempts (pos 1) enough,
        )
      ]
    ]

notification_load_outcome :
    (parse : ParseDuration) (env : Env)
    → let c = Notification.read parse env in
      IsDecidedBy
        (Notification.load parse env)
        c
        c.kafka.dlq_topic
        c.kafka.order_topic
        c.kafka.max_attempts
unfolding Notification.load Notification.read
notification_load_outcome parse env =
    let c = Notification.read parse env in
    let brokers = env_list-nonempty env "KAFKA_BROKERS" "localhost:29092" "KAFKA_BROKERS" in
    let dlq = env_string-nonempty env "KAFKA_DLQ_TOPIC" "order_events_dlq" "" refl in
    elim (Bool-cases (c.kafka.dlq_topic == c.kafka.order_topic)) [
      | inl same ↦ inr (
        "config: FUNDKIT_KAFKA_DLQ_TOPIC must differ from FUNDKIT_KAFKA_ORDER_TOPIC",
        rw (brokers, dlq, same) refl,
        inl ((eq_iff c.kafka.dlq_topic c.kafka.order_topic).0 same),
      )
      | inr differ ↦ elim (Bool-cases (ltb_ℤ c.kafka.max_attempts (pos 1))) [
        | inl few ↦ inr (
          "config: FUNDKIT_KAFKA_MAX_ATTEMPTS must be at least 1",
          rw (brokers, dlq, differ, few) refl,
          inr few,
        )
        | inr enough ↦ inl (
          rw (brokers, dlq, differ, enough) refl,
          ==-false c.kafka.dlq_topic c.kafka.order_topic differ,
          ltb_ℤ-false c.kafka.max_attempts (pos 1) enough,
        )
      ]
    ]

-- `Load` of portfolio-service and of notification-service answers what it read, and the dead
-- letters then go to a topic other than the events' and an event has at least one attempt; or it
-- refuses, and then the topics are the same or an event has less than one attempt.
pub consumer_load_outcome :
    (parse : ParseDuration) (env : Env)
    → let p = Portfolio.read parse env in
      let n = Notification.read parse env in
      IsDecidedBy
        (Portfolio.load parse env)
        p
        p.kafka.dlq_topic
        p.kafka.order_topic
        p.kafka.max_attempts
      × IsDecidedBy
          (Notification.load parse env)
          n
          n.kafka.dlq_topic
          n.kafka.order_topic
          n.kafka.max_attempts
consumer_load_outcome parse env =
    (portfolio_load_outcome parse env, notification_load_outcome parse env)
