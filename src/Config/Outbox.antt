-- ===== src/Config/Outbox.antt =====
-- The relay that order-service starts, from its settings (order-service/cmd/server/main.go and
-- order-service/internal/config/config.go). A setting that is not positive is 0 to the relay.
use fund_kit.Base.{
  ◌<◌, String, ◌≡◌, ◌≢◌, refl, sym, ◌∙◌, subst, true, false, ◌==◌, arith, inl, inr, ok,
  Result-cases, ok-injective, Bool-cases, ==-false,
}
use fund_kit.Base.Int.{pos, pos_part, ltb_ℤ}
use fund_kit.Config.Env.{Env, ParseDuration, is_empty}
use fund_kit.Config.Order.{OutboxConfig, Config, read, validate, load}
use fund_kit.Relay.Loop
use fund_kit.Relay.Loop.{with_defaults}

unfoldable pub relay_config : OutboxConfig → Loop.Config
relay_config c = record {
  interval = pos_part c.poll_interval;
  batch_size = pos_part c.batch_size;
  max_attempts = pos_part c.max_attempts;
  max_backoff = pos_part c.max_backoff;
  shutdown_flush = pos_part c.shutdown_flush;
}

validated :
    (c : Config) {done : Unit {0}}
    → validate c ≡ ok done
    → (c.database.url ≢ "")
      × (is_empty c.kafka.brokers ≡ false)
      × (c.redis.addr ≢ "")
      × (ltb_ℤ (pos 0) c.outbox.batch_size ≡ true)
      × (ltb_ℤ (pos 0) c.outbox.poll_interval ≡ true)
unfolding validate
validated c h = elim (Bool-cases (c.database.url == "")) [
  | inl url ↦ absurd (cc (h, url))
  | inr url ↦ elim (Bool-cases (is_empty c.kafka.brokers)) [
    | inl brokers ↦ absurd (cc (h, url, brokers))
    | inr brokers ↦ elim (Bool-cases (c.redis.addr == "")) [
      | inl addr ↦ absurd (cc (h, url, brokers, addr))
      | inr addr ↦ elim (Bool-cases (ltb_ℤ (pos 0) c.outbox.batch_size)) [
        | inr batch ↦ absurd (cc (h, url, brokers, addr, batch))
        | inl batch ↦ elim (Bool-cases (ltb_ℤ (pos 0) c.outbox.poll_interval)) [
          | inr poll ↦ absurd (cc (h, url, brokers, addr, batch, poll))
          | inl poll ↦
              (==-false c.database.url "" url, brokers, ==-false c.redis.addr "" addr, batch, poll)
        ]
      ]
    ]
  ]
]

-- If `Load` of order-service accepts an environment, then the settings have a database and a
-- broker, and the relay, with its defaults filled in, polls at the configured interval with the
-- configured batch size, both positive.
pub load-relay_config :
    (url : String → String → String → String → String → String) (parse : ParseDuration) (env : Env)
    {c : Config}
    → load url parse env ≡ ok c
    → let r = with_defaults (relay_config c.outbox) in
      (c.database.url ≢ "")
      × (is_empty c.kafka.brokers ≡ false)
      × (r.interval ≡ pos_part c.outbox.poll_interval)
      × (0 < r.interval)
      × (r.batch_size ≡ pos_part c.outbox.batch_size)
      × (0 < r.batch_size)
unfolding load with_defaults relay_config
load-relay_config url parse env {c} h = elim (Result-cases (validate (read url parse env))) [
  | inr (e, q) ↦ absurd (cc (h, q))
  | inl (done, q) ↦
      let made : load url parse env ≡ ok (read url parse env) = rw (q, load) refl in
      let same : read url parse env ≡ c = ok-injective (sym made ∙ h) in
      let (database, brokers, addr, batch, poll) =
        validated c (subst (λ x. validate x ≡ ok done) same q) in
      (database, brokers, ground arith, ground arith, ground arith, ground arith)
]
