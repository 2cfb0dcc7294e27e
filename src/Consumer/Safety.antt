-- ===== src/Consumer/Safety.antt =====
-- Where a message is after it was processed, portfolio-service/internal/consumer/{kafka,dlq}.go.
use fund_kit.Base.{
  ℕ, suc, true, false, List, [], ◌∷◌, ◌++◌, ◌≡◌, refl, ◌⊎◌, inl, inr, Option, some, Result, ok, err,
  Bool-cases, Option-cases,
}
use fund_kit.Portfolio.Position.{EventError, transient}
use fund_kit.Consumer.Retries.{retry_from-cancelled}
use fund_kit.Consumer.{
  offset_of, Surroundings, Message, Header, Parked, Failure, State, unparseable, retries_exhausted,
  reason_of, apply_with_retries, commit, dead_letter, dlq_message, process, conclude,
}

module _ {E S A : Type 0} (handle : E → S → Result EventError A × S) where
  -- The same key and body, and the original headers in front of the consumer's own.
  abbrev pub IsCopy : Message → Parked → Type 0
  IsCopy m p =
      (p.key ≡ m.key)
      × (p.value ≡ m.value)
      × ((more : List Header) × (p.headers ≡ m.headers ++ more))

  abbrev pub IsParked : Message → State handle → State handle → Type 0
  IsParked m s s' = (p : Parked) × IsCopy m p × (s'.parked ≡ s.parked ++ p ∷ [])

  pub dlq_message-IsCopy :
      (c : Surroundings) (m : Message) (failure : Failure) → IsCopy m (dlq_message c m failure)
  unfolding dlq_message
  dlq_message-IsCopy c m failure = (refl, refl, (_, refl))

  pub dead_letter-cases :
      (c : Surroundings) (m : Message) (failure : Failure) (s : State handle)
      → ((dead_letter handle c m failure s) ≡ s)
        ⊎ (IsParked m s (dead_letter handle c m failure s)
            × ((dead_letter handle c m failure s).inner ≡ s.inner)
            × (((dead_letter handle c m failure s).committed ≡ s.committed)
                ⊎ ((dead_letter handle c m failure s).committed ≡ s.committed ++ offset_of m ∷ [])))
  unfolding dead_letter
  dead_letter-cases c m failure s = elim (Bool-cases c.park_fails) [
    | inl held ↦ inl (rw held)
    | inr parked ↦ elim (Bool-cases c.commit_fails) [
      | inl stuck ↦ inr (
          rw (parked, stuck)
            ((dlq_message c m failure, dlq_message-IsCopy c m failure, refl), refl, inl refl))
      | inr moved ↦ inr (
          rw (parked, moved)
            ((dlq_message c m failure, dlq_message-IsCopy c m failure, refl), refl, inr refl))
    ]
  ]

  -- The offset is committed, or the commit failed.
  abbrev pub MayCommit : Message → State handle → State handle → Type 0
  MayCommit m s s' = (s'.committed ≡ s.committed) ⊎ (s'.committed ≡ s.committed ++ offset_of m ∷ [])

  conclude-cases :
      (c : Surroundings) (m : Message) (out : Result EventError A × ℕ × S) (s : State handle)
      → let s' = conclude handle c m out s in
        ((a : A) × (out.0 ≡ ok a) × (s'.parked ≡ s.parked) × MayCommit m s s')
        ⊎ (IsParked m s s' × MayCommit m s s')
        ⊎ ((s'.parked ≡ s.parked) × (s'.committed ≡ s.committed))
  unfolding conclude commit
  conclude-cases c m (ok a, attempts, inner') s = elim (Bool-cases c.commit_fails) [
    | inl stuck ↦ inl (a, refl, rw stuck, rw stuck (inl refl))
    | inr moved ↦ inl (a, refl, rw moved, rw moved (inr refl))
  ]
  conclude-cases c m (err x, attempts, inner') s =
      let failure : Failure = record {
        reason = reason_of handle x;
        attempts = attempts;
        error = c.error_text x;
      } in
      elim (dead_letter-cases c m failure (record s { inner = inner' })) [
        | inl held ↦ inr (inr (rw held (refl, refl)))
        | inr (parked, same, moved) ↦ inr (inl (parked, moved))
      ]

  -- After `process` the message is in one of three states. It was decoded and its handler
  -- succeeded, and nothing is parked. Or a copy with the same key and body is on the dead-letter
  -- topic, with the original headers first. Or nothing is parked and nothing is committed.
  pub process_no_loss :
      (decode : List ℕ → Option E) (extra : ℕ) (c : Surroundings) (m : Message) (s : State handle)
      → let s' = process handle decode extra c m s in
        ((e : E) × (a : A) × (decode m.value ≡ some e)
          × ((apply_with_retries handle c e extra s.inner).0 ≡ ok a)
          × (s'.parked ≡ s.parked)
          × MayCommit m s s')
        ⊎ (IsParked m s s' × MayCommit m s s')
        ⊎ ((s'.parked ≡ s.parked) × (s'.committed ≡ s.committed))
  unfolding process
  process_no_loss decode extra c m s = elim (Option-cases (decode m.value)) [
    | inl bad ↦
        elim (dead_letter-cases c m
          (record { reason = unparseable; attempts = 0; error = c.decode_error }) s) [
            | inl held ↦ inr (inr (rw (bad, process, held) (refl, refl)))
            | inr (parked, same, moved) ↦ inr (inl (rw (bad, process) (parked, moved)))
          ]
    | inr (e, p) ↦
        let out = apply_with_retries handle c e extra s.inner in
        elim (conclude-cases c m out s) [
          | inl (a, r, kept, moved) ↦ inl (e, a, p, r, rw (p, process) kept, rw (p, process) moved)
          | inr (inl (parked, moved)) ↦ inr (inl (rw (p, process) (parked, moved)))
          | inr (inr (kept, still)) ↦ inr (inr (rw (p, process) (kept, still)))
        ]
  ]

  -- If a readable event fails transiently with attempts left, the context is done during the wait,
  -- and the park and the commit succeed, the event is on the dead-letter topic and its offset is
  -- committed; the recorded reason is that the retries are exhausted, after one attempt.
  pub cancelled_event_parked :
      (decode : List ℕ → Option E) (extra : ℕ) (c : Surroundings) (m : Message) (e : E)
      (s : State handle)
      → decode m.value ≡ some e
      → (handle e s.inner).0 ≡ err transient
      → c.cancelled 1 ≡ true
      → c.park_fails ≡ false
      → c.commit_fails ≡ false
      → let s' = process handle decode (suc extra) c m s in
        (s'.parked
          ≡ s.parked
            ++ dlq_message c m (record {
              reason = retries_exhausted;
              attempts = 1;
              error = c.error_text transient;
            })
              ∷ [])
        × (s'.committed ≡ s.committed ++ offset_of m ∷ [])
  unfolding process conclude dead_letter commit apply_with_retries
  cancelled_event_parked decode extra c m e s read failure done parks commits =
      let out = retry_from-cancelled handle e c extra 1 s.inner failure done in
      rw (read, process, out, parks, commits) (refl, refl)
