-- ===== src/Notification/Agreement.antt =====
-- notification-service/internal/consumer/{kafka,dlq}.go against
-- portfolio-service/internal/consumer/{kafka,dlq}.go.
use fund_kit.Base.{
  ℕ, suc, zero, List, [], Option, none, some, Bool, ◌||◌, ◌≡◌, refl, ap, ◌∙◌, inl, inr, true, false,
  Result, ok, err, Result-cases, Bool-cases, Option-cases,
}
use fund_kit.Base.Int.{ℤ, add64}
use fund_kit.Base.Decimal.{format_int}
use fund_kit.Portfolio.Position.{EventError, permanent, transient}
use fund_kit.Consumer
use fund_kit.Consumer.{Surroundings, Message, retry_from, apply_with_retries}
use fund_kit.Notification.DeadLetters.{Publisher, Failure, error_text, message, truncate}
use fund_kit.Notification.Consumer.{
  Worker, handle_from, handle_with_retries, conclude, commit, dead_letter, publish, process,
}

abbrev is_missing : Option Publisher → Bool
is_missing none = true
is_missing (some p) = false

abbrev group_of : Option Publisher → List ℕ
group_of none = []
group_of (some p) = p.group

-- The surroundings with the publisher's group and decimals; one that is not configured fails.
abbrev pub with_publisher : Option Publisher → Surroundings → Surroundings
with_publisher dlq c = record c {
  park_fails = is_missing dlq || c.park_fails;
  decimal = format_int;
  group = group_of dlq;
}

module _ {E S A : Type 0} (handle : E → S → Result EventError A × S) where
  -- The worker without its counters and waits.
  abbrev pub view : Worker S → Consumer.State handle
  view s = record { inner = s.inner; parked = s.parked; committed = s.committed }

module _ {E S A : Type 0} (handle : E → S → Result EventError A × S) (dlq : Option Publisher) where
  abbrev Agrees : Surroundings → E → ℕ → ℕ → ℤ → Worker S → Type 0
  Agrees c e left attempt backoff s =
      let (r, n, s') = handle_from handle dlq c e left attempt backoff s in
      ((r, n, s'.inner) ≡ retry_from handle (with_publisher dlq c) e left attempt s.inner)
      × (s'.parked ≡ s.parked)
      × (s'.committed ≡ s.committed)

  handle_from-Agrees :
      (c : Surroundings) (e : E) (left attempt : ℕ) (backoff : ℤ) (s : Worker S)
      → Agrees c e left attempt backoff s
  unfolding handle_from retry_from
  handle_from-Agrees c e zero attempt backoff s = (refl, refl, refl)
  handle_from-Agrees c e (suc left) attempt backoff s = elim (Result-cases (handle e s.inner).0) [
    | inl (a, p) ↦ rw (p, handle_from, retry_from) (refl, refl, refl)
    | inr (permanent, p) ↦ rw (p, handle_from, retry_from) (refl, refl, refl)
    | inr (transient, p) ↦ elim (Bool-cases (c.cancelled attempt)) [
      | inl done ↦ rw (p, handle_from, retry_from, done) (refl, refl, refl)
      | inr on ↦
          rw (p, handle_from, retry_from, on)
            (handle_from-Agrees c e left (suc attempt) (add64 backoff backoff) _)
    ]
  ]

module _ {E S A : Type 0} (handle : E → S → Result EventError A × S) where
  view-dead_letter :
      (dlq : Option Publisher) (c : Surroundings) (m : Message) (failure : Failure) (s : Worker S)
      → view handle (dead_letter handle dlq c m failure s)
        ≡ Consumer.dead_letter handle
            (with_publisher dlq c)
            m
            (record {
              reason = failure.reason;
              attempts = failure.attempts;
              error = error_text failure.error;
            })
            (view handle s)
  unfolding dead_letter Consumer.dead_letter message Consumer.dlq_message truncate Consumer.truncate
  view-dead_letter none c m failure s = refl
  view-dead_letter (some p) c m failure s = elim (Bool-cases c.park_fails) [
    | inl held ↦ rw (held, publish) refl
    | inr parks ↦ elim (Bool-cases c.commit_fails) [
      | inl stuck ↦ rw (parks, stuck, publish) refl
      | inr moved ↦ rw (parks, moved, publish) refl
    ]
  ]

  view-conclude :
      (dlq : Option Publisher) (c : Surroundings) (m : Message)
      (out : Result EventError A × ℕ × Worker S)
      → view handle (conclude handle dlq c m out)
        ≡ Consumer.conclude handle
            (with_publisher dlq c)
            m
            (out.0, out.1, out.2.inner)
            (view handle out.2)
  unfolding conclude Consumer.conclude Consumer.commit commit error_text
  view-conclude dlq c m (ok a, attempts, s) = elim (Bool-cases c.commit_fails) [
    | inl stuck ↦ rw stuck refl
    | inr moved ↦ rw moved refl
  ]
  view-conclude dlq c m (err permanent, attempts, s) = view-dead_letter dlq c m _ s
  view-conclude dlq c m (err transient, attempts, s) = view-dead_letter dlq c m _ s

  -- `conclude` reads nothing of the handler's state before.
  conclude_same :
      (c : Surroundings) (m : Message) (out : Result EventError A × ℕ × S)
      (s t : Consumer.State handle)
      → s.parked ≡ t.parked
      → s.committed ≡ t.committed
      → Consumer.conclude handle c m out s ≡ Consumer.conclude handle c m out t
  unfolding Consumer.conclude
  conclude_same c m (ok a, attempts, inner') s t p q = rw (p, q) refl
  conclude_same c m (err x, attempts, inner') s t p q = rw (p, q) refl

  -- For every handler of events, notification-service's `process` leaves its handler, the
  -- dead-letter topic and the committed offsets as portfolio-service's `process` would with the
  -- same group and with decimal numbers, where a publisher that is not configured counts as one
  -- that fails.
  pub consumers_agree :
      (dlq : Option Publisher) (decode : List ℕ → Option E) (extra : ℕ) (retry_backoff : ℤ)
      (c : Surroundings) (m : Message) (s : Worker S)
      → view handle (process handle dlq decode extra retry_backoff c m s)
        ≡ Consumer.process handle decode extra (with_publisher dlq c) m (view handle s)
  unfolding process Consumer.process handle_with_retries Consumer.apply_with_retries error_text
  consumers_agree dlq decode extra retry_backoff c m s = elim (Option-cases (decode m.value)) [
    | inl bad ↦ rw (bad, process, Consumer.process) (view-dead_letter dlq c m _ s)
    | inr (e, p) ↦
        let out = handle_with_retries handle dlq c e extra retry_backoff s in
        let (same, parked, committed) : Agrees handle dlq c e extra 1 retry_backoff s =
          handle_from-Agrees handle dlq c e extra 1 retry_backoff s in
        rw (p, process, Consumer.process)
          (view-conclude dlq c m out
            ∙ conclude_same (with_publisher dlq c) m (out.0, out.1, out.2.inner) (view handle out.2)
                (view handle s) parked committed
            ∙ ap (λ o. Consumer.conclude handle (with_publisher dlq c) m o (view handle s)) same)
  ]
