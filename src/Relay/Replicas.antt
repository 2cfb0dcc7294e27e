-- ===== src/Relay/Replicas.antt =====
-- Two relays at once, order-service/internal/repository/outbox_repository.go: a pass skips the rows
-- that the open transaction of another pass has locked.
use fund_kit.Base.{
  ℕ, ◌≤◌, List, [], ◌∷◌, ◌++◌, map, ◌≡◌, refl, ap, sym, ◌∙◌, append-nil, contains, subst,
  append_assoc, Bool, true, false, not, ◌&&◌, arith, length, take, Result, ok,
}
use fund_kit.Orders.Domain.{OutboxMessage}
use fund_kit.Relay.Batch.{is_pending, Batch, select, contains_id, publish_one, publish_loop, start}
use fund_kit.Relay.Order.{recorded}

abbrev pub ids : List OutboxMessage → List ℕ
ids = map (λ m. m.id)

-- `SELECT … WHERE status = PENDING ORDER BY id LIMIT limit FOR UPDATE SKIP LOCKED`, beside a pass that
-- holds the rows `locked`.
unfoldable pub claim : ℕ → List ℕ → List OutboxMessage → List OutboxMessage
claim limit locked rows =
    take limit (select (λ m. is_pending m && not (contains_id m.id locked)) rows)

-- Rows that the pass with these locks sees, or does not.
abbrev pub AreSeen : Bool → List ℕ → List OutboxMessage → Type 0
AreSeen seen locked [] = Unit
AreSeen seen locked (m ∷ ms) =
    ((is_pending m && not (contains_id m.id locked)) ≡ seen) × AreSeen seen locked ms

select-unseen :
    (locked : List ℕ) (ms rest : List OutboxMessage)
    → AreSeen false locked ms
    → select (λ m. is_pending m && not (contains_id m.id locked)) (ms ++ rest)
      ≡ select (λ m. is_pending m && not (contains_id m.id locked)) rest
unfolding select
select-unseen locked [] rest h = refl
select-unseen locked (m ∷ ms) rest h = rw (h.0) (select-unseen locked ms rest h.1)

take-select-seen :
    (locked : List ℕ) (ms rest : List OutboxMessage)
    → AreSeen true locked ms
    → take (length ms) (select (λ m. is_pending m && not (contains_id m.id locked)) (ms ++ rest))
      ≡ ms
unfolding select
take-select-seen locked [] rest h = refl
take-select-seen locked (m ∷ ms) rest h =
    rw (h.0) (ap (λ l. m ∷ l) (take-select-seen locked ms rest h.1))

contains_id-middle :
    (before after : List OutboxMessage) (m : OutboxMessage)
    → contains_id m.id (ids (before ++ m ∷ after)) ≡ true
contains_id-middle [] after m = ground arith
contains_id-middle (b ∷ before) after m = let ih = contains_id-middle before after m in ground arith

unseen : (a b : Bool) → b ≡ true → (a && not b) ≡ false
unseen true b h = ap not h
unseen false b h = refl

-- A pass does not see the rows that another one has claimed.
locked_unseen : (before ms : List OutboxMessage) → AreSeen false (ids (before ++ ms)) ms
locked_unseen before [] = tt
locked_unseen before (m ∷ ms) = (
  unseen (is_pending m) _ (contains_id-middle before ms m),
  subst (λ l. AreSeen false (ids l) ms) (append_assoc before (m ∷ []) ms)
      (locked_unseen (before ++ m ∷ []) ms),
)

module _ {P : Type 0} (publish : OutboxMessage → P → Result (List ℕ) (Unit {0}) × P) (max : ℕ) where
  -- What the broker has taken of two passes, the second of which publishes first.
  unfoldable pub taken_in_turn :
      List OutboxMessage → List OutboxMessage → List OutboxMessage → P → List OutboxMessage
  taken_in_turn second first rows broker =
      let b =
        publish_loop (recorded publish) max second (start (recorded publish) rows (broker, [])) in
      (publish_loop (recorded publish) max first
        (start (recorded publish) b.rows b.broker)).broker.1

  -- Two passes at once: one claims the first rows and is slow, and the other claims beside it and
  -- publishes before it.
  unfoldable pub taken_of_two : ℕ → List OutboxMessage → P → List OutboxMessage
  unfolding claim taken_in_turn
  taken_of_two limit rows broker =
      let first = claim limit [] rows in
      taken_in_turn (claim limit (ids first) rows) first rows broker

  module _ (accepts : (m : OutboxMessage) (p : P) → (publish m p).0 ≡ ok tt) where
    recorded-accepted :
        (m : OutboxMessage) (p : P) (log : List OutboxMessage)
        → recorded publish m (p, log) ≡ (ok tt, ((publish m p).1, log ++ m ∷ []))
    unfolding recorded
    recorded-accepted m p log = rw (accepts m p) refl

    publish_one-takes :
        (m : OutboxMessage) (b : Batch (P × List OutboxMessage))
        → b.blocked ≡ []
        → let b' = publish_one (recorded publish) max m b in
          (b'.blocked ≡ []) × (b'.broker.1 ≡ b.broker.1 ++ m ∷ [])
    unfolding publish_one recorded
    publish_one-takes m b clear =
        let free : contains m.aggregate_id b.blocked ≡ false = ap (contains m.aggregate_id) clear in
        rw (free, publish_one, accepts m b.broker.0)
          (clear, ap (λ x. x.1.1) (recorded-accepted m b.broker.0 b.broker.1))

    publish_loop-takes :
        (ms : List OutboxMessage) (b : Batch (P × List OutboxMessage))
        → b.blocked ≡ []
        → (publish_loop (recorded publish) max ms b).broker.1 ≡ b.broker.1 ++ ms
    unfolding publish_loop
    publish_loop-takes [] b clear = sym (append-nil b.broker.1)
    publish_loop-takes (m ∷ ms) b clear =
        let (clear', taken) = publish_one-takes m b clear in
        publish_loop-takes ms (publish_one (recorded publish) max m b) clear'
        ∙ ap (λ l. l ++ ms) taken
        ∙ append_assoc b.broker.1 (m ∷ []) ms

    taken_in_turn-all :
        (second first rows : List OutboxMessage) (broker : P)
        → taken_in_turn second first rows broker ≡ second ++ first
    unfolding taken_in_turn
    taken_in_turn-all second first rows broker =
        let b₀ = start (recorded publish) rows (broker, []) in
        let b = publish_loop (recorded publish) max second b₀ in
        publish_loop-takes first (start (recorded publish) b.rows b.broker) refl
        ∙ ap (λ l. l ++ first) (publish_loop-takes second b₀ refl)

    -- If the broker accepts every message, and the outbox holds a full batch of pending rows and
    -- behind it one more whose id is not among theirs, then, when one pass has claimed the batch
    -- and a second one claims beside it and publishes first, the broker takes the later row before
    -- every row of the batch, of whatever order they are.
    pub second_relay_overtakes :
        (ms rest : List OutboxMessage) (later : OutboxMessage) (broker : P)
        → AreSeen true [] ms
        → 1 ≤ length ms
        → AreSeen true (ids ms) (later ∷ [])
        → (more : List OutboxMessage) × (taken_of_two (length ms) (ms ++ later ∷ rest) broker
            ≡ later ∷ (more ++ ms))
    unfolding taken_of_two select
    second_relay_overtakes [] rest later broker pending some_row unlocked = absurd (omega arith)
    second_relay_overtakes (m ∷ ms) rest later broker pending some_row unlocked =
        let batch = m ∷ ms in
        let rows = batch ++ later ∷ rest in
        let first : claim (length batch) [] rows ≡ batch =
          take-select-seen [] batch (later ∷ rest) pending in
        let beside = select (λ x. is_pending x && not (contains_id x.id (ids batch))) rest in
        let found : select (λ x. is_pending x && not (contains_id x.id (ids batch))) (later ∷ rest)
            ≡ later ∷ beside =
          rw (unlocked.0) refl in
        let more = take (length ms) beside in
        let second : claim (length batch) (ids batch) rows ≡ later ∷ more =
          ap (take (length batch))
            (select-unseen (ids batch) batch (later ∷ rest) (locked_unseen [] batch) ∙ found) in
        let e = taken_in_turn-all (later ∷ more) batch rows broker in
        (
          more,
          ap (λ x. taken_in_turn (claim (length batch) (ids x) rows) x rows broker) first
              ∙ ap (λ x. taken_in_turn x batch rows broker) second
              ∙ e,
        )
