-- ===== src/Notification/Delivery.antt =====
-- The alerts that reach a customer through the consumer,
-- notification-service/internal/{service/notifier,consumer/kafka}.go.
use fund_kit.Base.{
  ℕ, suc, String, List, [], ◌∷◌, ◌++◌, ◌≡◌, ◌≢◌, refl, ap, ◌∙◌, Option, some, false, ok, err,
}
use fund_kit.Base.Int.{ℤ}
use fund_kit.Portfolio.Position.{transient}
use fund_kit.Consumer
use fund_kit.Consumer.{offset_of, Offset, Surroundings, Message, apply_with_retries}
use fund_kit.Consumer.Retries.{retry_from-again, retry_from-done}
use fund_kit.Notification.Event.{OrderEvent, validate}
use fund_kit.Notification.Notifier.{Channel, State, handle, is_unrelated}
use fund_kit.Notification.DeadLetters.{Publisher}
use fund_kit.Notification.Consumer.{Worker, process}
use fund_kit.Notification.Agreement.{view, with_publisher, consumers_agree}
use fund_kit.Notification.Dedup.{handle_twice}

module _ {W : Type 0} (channels : List (Channel W)) (money : ℤ → String) where
  -- If a provider fails on the first of several attempts at a related and valid event with an id,
  -- and the context is not done, the consumer stops after two attempts and reports success, and the
  -- state is that of the failed attempt.
  pub failed_attempt_answers_success :
      (c : Surroundings) (e : OrderEvent) (extra : ℕ) (s : State W)
      → is_unrelated e.event_type ≡ false
      → validate e ≡ ok tt
      → e.event_id ≢ ""
      → (handle channels money e s).0 ≡ err transient
      → c.cancelled 1 ≡ false
      → apply_with_retries (handle channels money) c e (suc extra) s
        ≡ (ok 0, 2, (handle channels money e s).1)
  unfolding apply_with_retries
  failed_attempt_answers_success c e extra s related valid named failure on =
      retry_from-again (handle channels money) e c extra 1 s failure on
      ∙ retry_from-done (handle channels money) e c extra 2 (handle channels money e s).1
          (handle_twice channels money e s related valid named)

  committed_despite_failure :
      (decode : List ℕ → Option OrderEvent) (c : Surroundings) (m : Message) (e : OrderEvent)
      (extra : ℕ) (s : Consumer.State (handle channels money))
      → decode m.value ≡ some e
      → is_unrelated e.event_type ≡ false
      → validate e ≡ ok tt
      → e.event_id ≢ ""
      → (handle channels money e s.inner).0 ≡ err transient
      → c.cancelled 1 ≡ false
      → c.commit_fails ≡ false
      → Consumer.process (handle channels money) decode (suc extra) c m s ≡ record s {
        inner = (handle channels money e s.inner).1;
        committed = s.committed ++ offset_of m ∷ [];
      }
  unfolding Consumer.process Consumer.conclude Consumer.commit
  committed_despite_failure decode c m e extra s read related valid named failure on commits =
      let out = failed_attempt_answers_success c e extra s.inner related valid named failure on in
      rw (read, Consumer.process, out, commits) refl

  -- If a readable, related and valid event with an id fails at a provider on the first of several
  -- attempts, the context is not done and the commit succeeds, the consumer commits the offset,
  -- parks nothing, and leaves the notifier as the failed attempt left it.
  pub failed_alert_committed :
      (dlq : Option Publisher) (decode : List ℕ → Option OrderEvent) (retry_backoff : ℤ)
      (c : Surroundings) (m : Message) (e : OrderEvent) (extra : ℕ) (s : Worker (State W))
      → decode m.value ≡ some e
      → is_unrelated e.event_type ≡ false
      → validate e ≡ ok tt
      → e.event_id ≢ ""
      → (handle channels money e s.inner).0 ≡ err transient
      → c.cancelled 1 ≡ false
      → c.commit_fails ≡ false
      → let s' = process (handle channels money) dlq decode (suc extra) retry_backoff c m s in
        (s'.committed ≡ s.committed ++ offset_of m ∷ [])
        × (s'.parked ≡ s.parked)
        × (s'.inner ≡ (handle channels money e s.inner).1)
  failed_alert_committed dlq decode retry_backoff c m e extra s read related valid named failure on
        commits =
      let agrees =
        consumers_agree (handle channels money) dlq decode (suc extra) retry_backoff c m s
        ∙ committed_despite_failure decode (with_publisher dlq c) m e extra
            (view (handle channels money) s) read related valid named failure on commits in
      (ap (λ x. x.committed) agrees, ap (λ x. x.parked) agrees, ap (λ x. x.inner) agrees)
