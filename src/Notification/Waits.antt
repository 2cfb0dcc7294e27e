-- ===== src/Notification/Waits.antt =====
-- How long a message holds its partition up, notification-service/internal/consumer/kafka.go.
use native.Mathlib.Nat.{pow-succ', pow-le-pow_right, mul-le-mul_left}
use fund_kit.Base.{
  ℕ, zero, suc, ◌+◌, ◌*◌, ◌^◌, ◌≤◌, ◌<◌, List, [], ◌∷◌, ◌++◌, Option, ◌≡◌, refl, sym, ap, ◌∙◌, inl,
  inr, arith, length, append-nil, append_assoc, Result, Result-cases, Bool-cases,
}
use fund_kit.Base.Int.{ℤ, pos, pos_part, add64, wrap64_id, ◌+ℤ◌}
use fund_kit.Portfolio.Position.{EventError, permanent, transient}
use fund_kit.Consumer.{Surroundings}
use fund_kit.Notification.DeadLetters.{Publisher}
use fund_kit.Notification.Consumer.{Worker, handle_from, handle_with_retries}

-- Waits that double, the first one given.
abbrev pub doubling : ℕ → ℤ → List ℤ
doubling zero backoff = []
doubling (suc k) backoff = backoff ∷ doubling k (add64 backoff backoff)

abbrev pub total : List ℤ → ℕ
total [] = 0
total (z ∷ zs) = pos_part z + total zs

add64_double : (v : ℕ) → 2 * v < 2 ^ 63 → add64 (pos v) (pos v) ≡ pos (2 * v)
unfolding ◌+ℤ◌
add64_double v h = wrap64_id (pos v +ℤ pos v) (grind arith) ∙ grind arith

length-doubling : (k : ℕ) (backoff : ℤ) → length (doubling k backoff) ≡ k
length-doubling zero backoff = refl
length-doubling (suc k) backoff = ap suc (length-doubling k (add64 backoff backoff))

doubled : (k v : ℕ) → v * 2 ^ suc k ≡ 2 * v * 2 ^ k
doubled k v = rw (pow-succ' 2 k) (grind arith)

scaled_le : (k l v : ℕ) → k ≤ l → v * 2 ^ k ≤ v * 2 ^ l
scaled_le k l v h = mul-le-mul_left v (pow-le-pow_right (omega arith) h)

total-doubling : (k v : ℕ) → v * 2 ^ k < 2 ^ 63 → total (doubling k (pos v)) + v ≡ v * 2 ^ k
total-doubling zero v h = omega arith
total-doubling (suc k) v h =
    let e = doubled k v in
    let first : 2 * v ≤ 2 * v * 2 ^ k = omega (arith, scaled_le 0 k (2 * v) (omega arith)) in
    rw (add64_double v (omega arith)) (omega (arith, total-doubling k (2 * v) (omega arith)))

-- The run of an attempt and of those after it, from those after it.
earlier :
    (attempt left n : ℕ) (backoff : ℤ) (before after : List ℤ)
    → (k : ℕ) × (n ≡ suc attempt + k)
      × (k ≤ left)
      × (after ≡ (before ++ backoff ∷ []) ++ doubling k (add64 backoff backoff))
    → (k : ℕ) × (n ≡ attempt + k) × (k ≤ suc left) × (after ≡ before ++ doubling k backoff)
earlier attempt left n backoff before after (k, e, le, w) =
    (suc k, omega arith, omega arith, w ∙ append_assoc before (backoff ∷ []) _)

module _ {E S A : Type 0} (handle : E → S → Result EventError A × S) (dlq : Option Publisher) where
  handle_from-waits :
      (c : Surroundings) (e : E) (left attempt : ℕ) (backoff : ℤ) (s : Worker S)
      → let (r, n, s') = handle_from handle dlq c e left attempt backoff s in
        (k : ℕ) × (n ≡ attempt + k) × (k ≤ left) × (s'.waits ≡ s.waits ++ doubling k backoff)
  unfolding handle_from
  handle_from-waits c e zero attempt backoff s =
      (0, omega arith, omega arith, sym (append-nil s.waits))
  handle_from-waits c e (suc left) attempt backoff s = elim (Result-cases (handle e s.inner).0) [
    | inl (a, q) ↦ rw (q, handle_from) (0, omega arith, omega arith, sym (append-nil s.waits))
    | inr (permanent, q) ↦
        rw (q, handle_from) (0, omega arith, omega arith, sym (append-nil s.waits))
    | inr (transient, q) ↦ elim (Bool-cases (c.cancelled attempt)) [
      | inl done ↦ rw (q, handle_from, done) (0, omega arith, omega arith, sym (append-nil s.waits))
      | inr on ↦
          rw (q, handle_from, on)
            (earlier attempt left _ backoff s.waits _
              (handle_from-waits c e left (suc attempt) (add64 backoff backoff) _))
    ]
  ]

  -- If the configured delay, doubled for every attempt after the first, stays below 2^63,
  -- `handleWithRetries` waits once between each two attempts, its waits and one delay make together
  -- the delay doubled for each attempt after the first, and so no more than that for the configured
  -- number of attempts.
  pub handle_with_retries-waits :
      (c : Surroundings) (e : E) (extra delay : ℕ) (s : Worker S)
      → delay * 2 ^ extra < 2 ^ 63
      → let (r, n, s') = handle_with_retries handle dlq c e extra (pos delay) s in
        (k : ℕ) × (more : List ℤ) × (n ≡ suc k)
        × (k ≤ extra)
        × (s'.waits ≡ s.waits ++ more)
        × (length more ≡ k)
        × (total more + delay ≡ delay * 2 ^ k)
        × (total more + delay ≤ delay * 2 ^ extra)
  unfolding handle_with_retries
  handle_with_retries-waits c e extra delay s h =
      let (k, n, le, w) = handle_from-waits c e extra 1 (pos delay) s in
      let most = scaled_le k extra delay le in
      let sum = total-doubling k delay (omega arith) in
      (
        k,
        doubling k (pos delay),
        omega arith,
        le,
        w,
        length-doubling k (pos delay),
        sum,
        omega arith,
      )
