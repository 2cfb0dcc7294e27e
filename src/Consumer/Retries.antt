-- ===== src/Consumer/Retries.antt =====
-- The retry loop, portfolio-service/internal/consumer/kafka.go.
use fund_kit.Base.{
  ℕ, zero, suc, ◌+◌, ◌≤◌, ◌≡◌, ◌≢◌, refl, sym, ap, ◌⊎◌, inl, inr, true, false, arith, Result, ok,
  err, Result-cases, Bool-cases,
}
use fund_kit.Portfolio.Position.{EventError, permanent, transient}
use fund_kit.Consumer.{Surroundings, retry_from, apply_with_retries}

module _ {E S A : Type 0} (handle : E → S → Result EventError A × S) (e : E) where
  -- The handler's state after so many calls, and that each of those calls failed transiently.
  abbrev pub calls : ℕ → S → S
  calls zero s = s
  calls (suc k) s = calls k (handle e s).1

  abbrev pub AllTransient : ℕ → S → Type 0
  AllTransient zero s = Unit
  AllTransient (suc k) s = ((handle e s).0 ≡ err transient) × AllTransient k (handle e s).1

  -- The attempts before the last failed transiently, the result is that of the last, and a transient
  -- failure is given up only with no attempt left or with the context done.
  abbrev pub HasRun : Surroundings → ℕ → ℕ → S → Result EventError A × ℕ × S → Type 0
  HasRun c left attempt s (r, n, s') =
      (k : ℕ) × (n ≡ attempt + k)
      × (k ≤ left)
      × AllTransient k s
      × (r ≡ (handle e (calls k s)).0)
      × (s' ≡ (handle e (calls k s)).1)
      × ((r ≢ err transient) ⊎ (k ≡ left) ⊎ (c.cancelled n ≡ true))

  retry_from-HasRun :
      (c : Surroundings) (left attempt : ℕ) (s : S)
      → HasRun c left attempt s (retry_from handle c e left attempt s)
  unfolding retry_from
  retry_from-HasRun c zero attempt s = (0, omega arith, omega arith, tt, refl, refl, inr (inl refl))
  retry_from-HasRun c (suc left) attempt s = elim (Result-cases (handle e s).0) [
    | inl (a, p) ↦ rw (p, retry_from) (0, omega arith, omega arith, tt, sym p, refl, inl (λ q. cc))
    | inr (permanent, p) ↦
        rw (p, retry_from) (0, omega arith, omega arith, tt, sym p, refl, inl (λ q. cc))
    | inr (transient, p) ↦ elim (Bool-cases (c.cancelled attempt)) [
      | inl done ↦
          rw (p, retry_from, done) (0, omega arith, omega arith, tt, sym p, refl, inr (inr done))
      | inr on ↦
          let (k, en, short, before, er, es, why) =
            retry_from-HasRun c left (suc attempt) (handle e s).1 in
          rw (p, retry_from, on) (suc k, omega arith, omega arith, (p, before), er, es, later why)
    ]
  ]
    where
      later : {k : ℕ} {P Q : Type 0} → P ⊎ (k ≡ left) ⊎ Q → P ⊎ (suc k ≡ suc left) ⊎ Q
      later (inl p) = inl p
      later (inr (inl q)) = inr (inl (ap suc q))
      later (inr (inr q)) = inr (inr q)

  -- `applyWithRetries` makes between 1 and `maxAttempts` attempts. All but the last have failed
  -- with an error that is not permanent, the result is the last attempt's, and a failure that is
  -- not permanent is final only on the last allowed attempt or when the context is done.
  pub apply_with_retries-HasRun :
      (c : Surroundings) (extra : ℕ) (s : S)
      → HasRun c extra 1 s (apply_with_retries handle c e extra s)
  unfolding apply_with_retries
  apply_with_retries-HasRun c extra s = retry_from-HasRun c extra 1 s

  pub retry_from-again :
      (c : Surroundings) (left attempt : ℕ) (s : S)
      → (handle e s).0 ≡ err transient
      → c.cancelled attempt ≡ false
      → retry_from handle c e (suc left) attempt s
        ≡ retry_from handle c e left (suc attempt) (handle e s).1
  unfolding retry_from
  retry_from-again c left attempt s p on = rw (p, retry_from, on)

  pub retry_from-done :
      (c : Surroundings) (left attempt : ℕ) (s : S) {a : A} {s' : S}
      → handle e s ≡ (ok a, s')
      → retry_from handle c e left attempt s ≡ (ok a, attempt, s')
  unfolding retry_from
  retry_from-done c zero attempt s p = rw (p, retry_from)
  retry_from-done c (suc left) attempt s {a} p =
      rw (p, retry_from) (ap (λ x. (ok a, attempt, x.1)) p)

  pub retry_from-cancelled :
      (c : Surroundings) (left attempt : ℕ) (s : S)
      → (handle e s).0 ≡ err transient
      → c.cancelled attempt ≡ true
      → retry_from handle c e (suc left) attempt s ≡ (err transient, attempt, (handle e s).1)
  unfolding retry_from
  retry_from-cancelled c left attempt s p done = rw (p, retry_from, done)
