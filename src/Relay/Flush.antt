-- ===== src/Relay/Flush.antt =====
-- A drain of the relay through a broker that accepts everything,
-- order-service/internal/{relay/relay,repository/outbox_repository}.go.
use fund_kit.Base.{
  ℕ, zero, suc, ◌+◌, ◌<◌, List, [], ◌∷◌, ◌++◌, map, ◌≡◌, refl, sym, ap, ◌∙◌, inl, inr, ◌⊎◌, Option,
  none, some, true, false, arith, contains, subst, append-nil, append_assoc, eqb, ltb, length, take,
  Result, ok, Bool-cases, length-map,
}
use fund_kit.Orders.Domain.{OutboxMessage}
use fund_kit.Relay.Batch.{
  Batch, is_pending, select, set_where, contains_id, mark_processed, publish_one, publish_loop,
  publish_batch, start, BatchResult,
}
use fund_kit.Relay.Drain.{pending_count, publish_batch_progress}
use fund_kit.Relay.Loop.{
  Config, Weather, Drained, after_pass, drain, arrive, arrivals_now, arrivals_later, arrival_count,
  arrivals-split,
}

-- Every pending row bears one of the ids.
abbrev IsCovered : List ℕ → List OutboxMessage → Type 0
IsCovered ids [] = Unit
IsCovered ids (x ∷ xs) = ((is_pending x ≡ false) ⊎ (contains_id x.id ids ≡ true)) × IsCovered ids xs

IsCovered-cons :
    (i : ℕ) (ids : List ℕ) (xs : List OutboxMessage) → IsCovered ids xs → IsCovered (i ∷ ids) xs
IsCovered-cons i ids [] h = tt
IsCovered-cons i ids (x ∷ xs) (inl idle, h) = (inl idle, IsCovered-cons i ids xs h)
IsCovered-cons i ids (x ∷ xs) (inr here, h) = (inr (ground arith), IsCovered-cons i ids xs h)

select-IsCovered : (xs : List OutboxMessage) → IsCovered (map (λ m. m.id) (select is_pending xs)) xs
unfolding select
select-IsCovered [] = tt
select-IsCovered (x ∷ xs) = elim (Bool-cases (is_pending x)) [
  | inl waiting ↦
      let ids = map (λ (m : OutboxMessage). m.id) (select is_pending xs) in
      subst (λ l. IsCovered (map (λ (m : OutboxMessage). m.id) l) (x ∷ xs)) (sym (selected waiting))
        (inr (ground arith), IsCovered-cons x.id ids xs (select-IsCovered xs))
  | inr idle ↦
      subst (λ l. IsCovered (map (λ (m : OutboxMessage). m.id) l) (x ∷ xs)) (sym (skipped idle))
        (inl idle, select-IsCovered xs)
]
  where
    selected : is_pending x ≡ true → select is_pending (x ∷ xs) ≡ x ∷ select is_pending xs
    selected h = rw h

    skipped : is_pending x ≡ false → select is_pending (x ∷ xs) ≡ select is_pending xs
    skipped h = rw h

take-short : {A : Type 0} (n : ℕ) (xs : List A) → length (take n xs) < n → take n xs ≡ xs
take-short zero xs h = absurd (omega arith)
take-short (suc n) [] h = refl
take-short (suc n) (x ∷ xs) h = ap (λ l. x ∷ l) (take-short n xs (omega arith))

module _ {P : Type 0} (publish : OutboxMessage → P → Result (List ℕ) (Unit {0}) × P) where
  mark_processed-covered :
      (now : ℕ) (ids : List ℕ) (xs : List OutboxMessage)
      → IsCovered ids xs
      → pending_count (mark_processed publish now ids xs) ≡ 0
  unfolding mark_processed set_where
  mark_processed-covered now ids [] h = refl
  mark_processed-covered now ids (x ∷ xs) h =
      let ih = mark_processed-covered now ids xs h.1 in ground arith

module _ {P : Type 0} (publish : OutboxMessage → P → Result (List ℕ) (Unit {0}) × P)
    (accepts : (m : OutboxMessage) (p : P) → (publish m p).0 ≡ ok tt) where
  publish_one-accepted :
      (max : ℕ) (m : OutboxMessage) (b : Batch P)
      → b.blocked ≡ []
      → publish_one publish max m b
        ≡ record b { published = b.published ++ m.id ∷ []; broker = (publish m b.broker).1 }
  unfolding publish_one
  publish_one-accepted max m b clear =
      let free : contains m.aggregate_id b.blocked ≡ false = ap (contains m.aggregate_id) clear in
      rw (free, publish_one, accepts m b.broker)

  publish_loop-accepted :
      (max : ℕ) (ms : List OutboxMessage) (b : Batch P)
      → b.blocked ≡ []
      → let b' = publish_loop publish max ms b in
        (b'.rows ≡ b.rows) × (b'.published ≡ b.published ++ map (λ m. m.id) ms)
  unfolding publish_loop
  publish_loop-accepted max [] b clear = (refl, sym (append-nil b.published))
  publish_loop-accepted max (m ∷ ms) b clear =
      let b₁ = record b { published = b.published ++ m.id ∷ []; broker = (publish m b.broker).1 } in
      let (same, grown) = publish_loop-accepted max ms b₁ clear in
      subst
        (λ x.
          let b' = publish_loop publish max ms x in
          (b'.rows ≡ b.rows)
          × (b'.published ≡ b.published ++ m.id ∷ map (λ (y : OutboxMessage). y.id) ms))
        (sym (publish_one-accepted max m b clear))
        (same, grown ∙ append_assoc b.published (m.id ∷ []) (map (λ (x : OutboxMessage). x.id) ms))

  -- A pass that claims less than it may leaves no pending row.
  publish_batch-last :
      (limit max now : ℕ) (rows : List OutboxMessage) (broker : P)
      → (publish_batch publish limit max now rows broker).0.claimed < limit
      → pending_count (publish_batch publish limit max now rows broker).1 ≡ 0
  unfolding publish_batch
  publish_batch-last limit max now rows broker short =
      let sel = select is_pending rows in
      let b = publish_loop publish max (take limit sel) (start publish rows broker) in
      let (same, ids) =
        publish_loop-accepted max (take limit sel) (start publish rows broker) refl in
      let all : b.published ≡ map (λ m. m.id) sel =
        ids ∙ ap (map (λ (m : OutboxMessage). m.id)) (take-short limit sel short) in
      rw (same, all)
        (mark_processed-covered publish now (map (λ (m : OutboxMessage). m.id) sel) rows
          (select-IsCovered rows))

  -- A pass publishes all that it claims.
  publish_batch-all :
      (limit max now : ℕ) (rows : List OutboxMessage) (broker : P)
      → let r = (publish_batch publish limit max now rows broker).0 in r.published ≡ r.claimed
  unfolding publish_batch
  publish_batch-all limit max now rows broker =
      let batch = take limit (select is_pending rows) in
      let (same, ids) = publish_loop-accepted max batch (start publish rows broker) refl in
      ap length ids ∙ length-map batch (λ (m : OutboxMessage). m.id)

  -- A drain that is given good weather ends without an error and with no pending row.
  abbrev HasDrained : Option (Drained publish) → Type 0
  HasDrained r =
      (rows : List OutboxMessage) × (broker : P) × (r ≡ some (none, rows, broker))
      × (pending_count rows ≡ 0)

  after_pass-HasDrained :
      (c : Config) (result : BatchResult) (rows : List OutboxMessage) (broker : P)
      (again : Option (Drained publish))
      → 0 < c.batch_size
      → result.published ≡ result.claimed
      → (result.claimed < c.batch_size → pending_count rows ≡ 0)
      → (0 < result.published → HasDrained again)
      → HasDrained (after_pass publish c result rows broker again)
  unfolding after_pass
  after_pass-HasDrained c result rows broker again room all last more =
      elim (Bool-cases (eqb result.claimed 0)) [
        | inl idle ↦ rw idle (rows, broker, refl, last (ground arith))
        | inr busy ↦
            let moved : eqb result.published 0 ≡ false = rw all busy in
            elim (Bool-cases (ltb result.claimed c.batch_size)) [
              | inl short ↦ rw (busy, moved, short) (rows, broker, refl, last (ground arith))
              | inr full ↦ rw (busy, moved, full) (more (ground arith))
            ]
      ]

  -- If the batch size is positive, the broker accepts every message, the context is not done and no
  -- transaction fails, a drain on more fuel than there are pending rows, with those that others
  -- insert between its passes, ends without an error and leaves no pending row.
  pub drain_empties :
      (c : Config) (w : Weather publish) (fuel n : ℕ) (arrivals : List (List OutboxMessage))
      (rows : List OutboxMessage) (broker : P)
      → 0 < c.batch_size
      → ((k : ℕ) → w.cancelled k ≡ false)
      → ((k : ℕ) (p : P) → w.transaction_error k p ≡ none)
      → pending_count rows + arrival_count arrivals < fuel
      → (rows' : List OutboxMessage) × (broker' : P) × (drain publish c w fuel n arrivals rows
            broker
          ≡ some (none, rows', broker'))
        × (pending_count rows' ≡ 0)
  unfolding drain
  drain_empties c w zero n arrivals rows broker room calm fine h = absurd (omega arith)
  drain_empties c w (suc fuel) n arrivals rows broker room calm fine h =
      let now = arrive rows (arrivals_now arrivals) in
      let pass = publish_batch publish c.batch_size c.max_attempts (w.clock n) now broker in
      let again = drain publish c w fuel (n + 1) (arrivals_later arrivals) pass.1 pass.2 in
      let split = arrivals-split rows arrivals in
      rw (calm n, drain, fine n broker)
        (after_pass-HasDrained c pass.0 pass.1 pass.2 again room
          (publish_batch-all c.batch_size c.max_attempts (w.clock n) now broker)
          (publish_batch-last c.batch_size c.max_attempts (w.clock n) now broker)
          (λ moved.
            let fewer : pending_count pass.1 < pending_count now =
              publish_batch_progress publish c.batch_size c.max_attempts (w.clock n) now broker
                moved in
            drain_empties c w fuel (n + 1) (arrivals_later arrivals) pass.1 pass.2 room calm fine
              (omega arith)))
