-- ===== src/Relay/Drain.antt =====
-- The rows before and after a pass of the relay,
-- order-service/internal/repository/outbox_repository.go.
use fund_kit.Base.{
  ℕ, zero, suc, ◌≤◌, ◌<◌, String, List, [], ◌∷◌, map, ◌≡◌, refl, ap, inl, inr, ◌⊎◌, true, false,
  arith, length, length-map, take, if◌then◌else◌, Result, Bool-cases, Result-cases, contains,
}
use fund_kit.Orders.Domain.{OutboxMessage}
use fund_kit.Orders.History.{trail}
use fund_kit.Relay.Batch.{
  Batch, is_pending, select, set_where, failed_row, record_failure, contains_id, mark_processed,
  publish_one, publish_loop, publish_batch, start,
}
use fund_kit.Relay.Order.{sent, publishes, published-sent}

-- How many rows are pending.
abbrev pub pending_count : List OutboxMessage → ℕ
pending_count [] = 0
pending_count (m ∷ ms) = if is_pending m then suc (pending_count ms) else pending_count ms

-- The same rows, with some of the pending ones retired.
abbrev pub Weakens : List OutboxMessage → List OutboxMessage → Type 0
Weakens [] [] = Unit
Weakens [] (y ∷ ys) = ⊥
Weakens (x ∷ xs) [] = ⊥
Weakens (x ∷ xs) (y ∷ ys) =
    (x.id ≡ y.id)
    × (x.aggregate_id ≡ y.aggregate_id)
    × (x.payload ≡ y.payload)
    × ((is_pending x ≡ true) ⊎ (is_pending y ≡ false))
    × Weakens xs ys

Weakens-refl : (xs : List OutboxMessage) → Weakens xs xs
Weakens-refl [] = tt
Weakens-refl (x ∷ xs) = (refl, refl, refl, ground arith, Weakens-refl xs)

record_failure-Weakens :
    (max : ℕ) (cause : List ℕ) (m : OutboxMessage) (xs ys : List OutboxMessage)
    → Weakens xs ys
    → Weakens xs (record_failure max cause m ys)
unfolding record_failure set_where failed_row
record_failure-Weakens max cause m [] [] h = tt
record_failure-Weakens max cause m [] (y ∷ ys) h = absurd h
record_failure-Weakens max cause m (x ∷ xs) [] h = absurd h
record_failure-Weakens max cause m (x ∷ xs) (y ∷ ys) h =
    ground (arith, record_failure-Weakens max cause m xs ys h.4)

-- Some pending row bears one of the ids.
abbrev HasPending : List ℕ → List OutboxMessage → Type 0
HasPending ids [] = ⊥
HasPending ids (x ∷ xs) =
    ((is_pending x ≡ true) × (contains_id x.id ids ≡ true)) ⊎ HasPending ids xs

module _ {P : Type 0} (publish : OutboxMessage → P → Result (List ℕ) (Unit {0}) × P) where
  mark_processed-le :
      (now : ℕ) (ids : List ℕ) (xs ys : List OutboxMessage)
      → Weakens xs ys
      → pending_count (mark_processed publish now ids ys) ≤ pending_count xs
  unfolding mark_processed set_where
  mark_processed-le now ids [] [] h = omega arith
  mark_processed-le now ids [] (y ∷ ys) h = absurd h
  mark_processed-le now ids (x ∷ xs) [] h = absurd h
  mark_processed-le now ids (x ∷ xs) (y ∷ ys) h =
      ground (arith, mark_processed-le now ids xs ys h.4)

  mark_processed-lt :
      (now : ℕ) (ids : List ℕ) (xs ys : List OutboxMessage)
      → Weakens xs ys
      → HasPending ids xs
      → pending_count (mark_processed publish now ids ys) < pending_count xs
  unfolding mark_processed set_where
  mark_processed-lt now ids [] ys h p = absurd p
  mark_processed-lt now ids (x ∷ xs) [] h p = absurd h
  mark_processed-lt now ids (x ∷ xs) (y ∷ ys) h (inl p) =
      ground (arith, mark_processed-le now ids xs ys h.4)
  mark_processed-lt now ids (x ∷ xs) (y ∷ ys) h (inr p) =
      ground (arith, mark_processed-lt now ids xs ys h.4 p)

  publish_one-Weakens :
      (max : ℕ) (m : OutboxMessage) (xs : List OutboxMessage) (b : Batch P)
      → Weakens xs b.rows
      → Weakens xs (publish_one publish max m b).rows
  unfolding publish_one
  publish_one-Weakens max m xs b h = elim (Bool-cases (contains m.aggregate_id b.blocked)) [
    | inl stalled ↦ rw (stalled, publish_one) h
    | inr free ↦ elim (Result-cases (publish m b.broker).0) [
      | inl (u, p) ↦ rw (free, p, publish_one) h
      | inr (cause, p) ↦ rw (free, p, publish_one) (record_failure-Weakens max cause m xs b.rows h)
    ]
  ]

  pub publish_loop-Weakens :
      (max : ℕ) (ms xs : List OutboxMessage) (b : Batch P)
      → Weakens xs b.rows
      → Weakens xs (publish_loop publish max ms b).rows
  unfolding publish_loop
  publish_loop-Weakens max [] xs b h = h
  publish_loop-Weakens max (m ∷ ms) xs b h =
      publish_loop-Weakens max ms xs (publish_one publish max m b)
        (publish_one-Weakens max m xs b h)

-- A pending row bears the id.
abbrev IsPendingId : ℕ → List OutboxMessage → Type 0
IsPendingId i [] = ⊥
IsPendingId i (x ∷ xs) = ((is_pending x ≡ true) × (x.id ≡ i)) ⊎ IsPendingId i xs

-- All of the messages are pending rows of the table.
abbrev AllPending : List OutboxMessage → List OutboxMessage → Type 0
AllPending [] rows = Unit
AllPending (m ∷ ms) rows = IsPendingId m.id rows × AllPending ms rows

AllPending-cons :
    (ms : List OutboxMessage) (x : OutboxMessage) (xs : List OutboxMessage)
    → AllPending ms xs
    → AllPending ms (x ∷ xs)
AllPending-cons [] x xs h = tt
AllPending-cons (m ∷ ms) x xs h = (inr h.0, AllPending-cons ms x xs h.1)

select-AllPending : (xs : List OutboxMessage) → AllPending (select is_pending xs) xs
unfolding select
select-AllPending [] = tt
select-AllPending (x ∷ xs) =
    let ih = AllPending-cons (select is_pending xs) x xs (select-AllPending xs) in
    elim (Bool-cases (is_pending x)) [
      | inl yes_pending ↦ rw yes_pending (inl (yes_pending, refl), ih)
      | inr not_pending ↦ rw not_pending ih
    ]

take-AllPending :
    (n : ℕ) (ms rows : List OutboxMessage) → AllPending ms rows → AllPending (take n ms) rows
take-AllPending zero ms rows h = tt
take-AllPending (suc n) [] rows h = tt
take-AllPending (suc n) (m ∷ ms) rows h = (h.0, take-AllPending n ms rows h.1)

IsPendingId-HasPending :
    (i : ℕ) (ids : List ℕ) (xs : List OutboxMessage) → IsPendingId i xs → HasPending (i ∷ ids) xs
IsPendingId-HasPending i ids [] h = absurd h
IsPendingId-HasPending i ids (x ∷ xs) (inl (p, e)) = inl (p, ground arith)
IsPendingId-HasPending i ids (x ∷ xs) (inr h) = inr (IsPendingId-HasPending i ids xs h)

module _ {P : Type 0} (publish : OutboxMessage → P → Result (List ℕ) (Unit {0}) × P) where
  sent-AllPending :
      (max : ℕ) (ms rows : List OutboxMessage) (b : Batch P)
      → AllPending ms rows
      → AllPending (sent publish max ms b) rows
  sent-AllPending max [] rows b h = tt
  sent-AllPending max (m ∷ ms) rows b h =
      let ih = sent-AllPending max ms rows (publish_one publish max m b) h.1 in
      elim (Bool-cases (publishes publish max m b)) [
        | inl yes_sent ↦ rw yes_sent (h.0, ih)
        | inr not_sent ↦ rw not_sent ih
      ]

  published-HasPending :
      (ms rows : List OutboxMessage)
      → AllPending ms rows
      → 0 < length ms
      → HasPending (map (λ m. m.id) ms) rows
  published-HasPending [] rows h pos = absurd (omega arith)
  published-HasPending (m ∷ ms) rows h pos =
      IsPendingId-HasPending m.id (map (λ (x : OutboxMessage). x.id) ms) rows h.0

  mark_processed-trail :
      (id : String) (now : ℕ) (ids : List ℕ) (xs ys : List OutboxMessage)
      → Weakens xs ys
      → trail id (mark_processed publish now ids ys) ≡ trail id xs
  unfolding mark_processed set_where
  mark_processed-trail id now ids [] [] h = refl
  mark_processed-trail id now ids [] (y ∷ ys) h = absurd h
  mark_processed-trail id now ids (x ∷ xs) [] h = absurd h
  mark_processed-trail id now ids (x ∷ xs) (y ∷ ys) h =
      let ih = mark_processed-trail id now ids xs ys h.4 in ground arith

  -- A pass leaves the history that the outbox tells of each order as it was.
  pub publish_batch-trail :
      (id : String) (limit max now : ℕ) (rows : List OutboxMessage) (broker : P)
      → trail id (publish_batch publish limit max now rows broker).1 ≡ trail id rows
  unfolding publish_batch
  publish_batch-trail id limit max now rows broker =
      let batch = take limit (select is_pending rows) in
      let b = publish_loop publish max batch (start publish rows broker) in
      mark_processed-trail id now b.published rows b.rows (
        publish_loop-Weakens publish max batch rows (start publish rows broker) (Weakens-refl rows))

  -- A pass that publishes a message leaves strictly fewer pending rows.
  pub publish_batch_progress :
      (limit max now : ℕ) (rows : List OutboxMessage) (broker : P)
      → 0 < (publish_batch publish limit max now rows broker).0.published
      → pending_count (publish_batch publish limit max now rows broker).1 < pending_count rows
  unfolding publish_batch
  publish_batch_progress limit max now rows broker some_sent =
      let batch = take limit (select is_pending rows) in
      let b = publish_loop publish max batch (start publish rows broker) in
      let out = sent publish max batch (start publish rows broker) in
      let ids : b.published ≡ map (λ m. m.id) out =
        published-sent publish max batch (start publish rows broker) in
      mark_processed-lt publish now b.published rows b.rows
        (publish_loop-Weakens publish max batch rows (start publish rows broker)
          (Weakens-refl rows))
        (rw ids (
          published-HasPending out rows
            (sent-AllPending max batch rows (start publish rows broker)
              (take-AllPending limit (select is_pending rows) rows (select-AllPending rows)))
            (omega (arith, ap length ids, length-map out (λ (m : OutboxMessage). m.id)))))
