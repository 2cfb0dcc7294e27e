-- ===== src/Relay/Batch.antt =====
-- `OutboxRepository`, order-service/internal/repository/outbox_repository.go. The table is the list of
-- its rows in ascending order of their ids; `P` is the state of the broker and its publisher.
use fund_kit.Base.{
  ℕ, ◌+◌, String, List, [], ◌∷◌, ◌++◌, Option, none, some, Bool, true, false, ◌&&◌, ◌||◌, eqb, leb,
  ltb, length, take, contains, if◌then◌else◌, Result, ok, err,
}
use fund_kit.Orders.Domain.{OutboxMessage, OutboxStatus}

abbrev pub is_pending : OutboxMessage → Bool
is_pending m = elim m.status [ OutboxStatus.pending ↦ true | _ ↦ false ]

abbrev pub is_failed : OutboxMessage → Bool
is_failed m = elim m.status [ OutboxStatus.failed ↦ true | _ ↦ false ]

-- `WHERE …`.
unfoldable pub select : (OutboxMessage → Bool) → List OutboxMessage → List OutboxMessage
select p [] = []
select p (m ∷ ms) = let rest = select p ms in if p m then m ∷ rest else rest

-- `UPDATE outbox SET … WHERE p`.
unfoldable pub set_where :
    (OutboxMessage → Bool)
    → (OutboxMessage → OutboxMessage)
    → List OutboxMessage
    → List OutboxMessage
set_where p f [] = []
set_where p f (m ∷ ms) = (if p m then f m else m) ∷ set_where p f ms

-- `truncateError`.
abbrev pub truncate_error : List ℕ → ℕ → List ℕ
truncate_error text max = if leb (length text) max then text else take max text

-- The row that `recordFailure` writes.
unfoldable pub failed_row : ℕ → List ℕ → OutboxMessage → OutboxMessage
failed_row max_attempts cause m =
    let attempts = m.attempts + 1 in
    let t = record m { attempts = attempts; last_error = truncate_error cause 500 } in
    if ltb 0 max_attempts && leb max_attempts attempts
    then record t { status = OutboxStatus.failed }
    else t

-- `recordFailure`: the attempts are those of the claimed row `msg`.
unfoldable pub record_failure : ℕ → List ℕ → OutboxMessage → List OutboxMessage → List OutboxMessage
record_failure max_attempts cause msg =
    set_where (λ r. eqb r.id msg.id)
      (λ r. failed_row max_attempts cause (record r { attempts = msg.attempts }))

abbrev pub contains_id : ℕ → List ℕ → Bool
contains_id i [] = false
contains_id i (j ∷ js) = eqb i j || contains_id i js

-- The variables of the loop of `PublishBatch`.
pub record Batch (P : Type 0) : Type 0 where
  pub rows : List OutboxMessage
  pub blocked : List String
  pub published : List ℕ
  pub failed : ℕ
  pub first_error : Option (List ℕ)
  pub broker : P

pub record BatchResult : Type 0 where
  pub claimed : ℕ
  pub published : ℕ
  pub failed : ℕ
  pub error : Option (List ℕ)

module _ {P : Type 0} (publish : OutboxMessage → P → Result (List ℕ) (Unit {0}) × P) where
  -- One round of the loop: skip a blocked aggregate, publish, or record a failure and block.
  unfoldable pub publish_one : ℕ → OutboxMessage → Batch P → Batch P
  publish_one max_attempts msg b =
      if contains msg.aggregate_id b.blocked
      then b
      else (let (r, broker') = publish msg b.broker in
          elim r [
            | err cause ↦ record b {
              rows = record_failure max_attempts cause msg b.rows;
              blocked = msg.aggregate_id ∷ b.blocked;
              failed = b.failed + 1;
              first_error = (elim b.first_error [ none ↦ some cause | some e ↦ some e ]);
              broker = broker';
            }
            | ok done ↦ record b { published = b.published ++ msg.id ∷ []; broker = broker' }
          ])

  unfoldable pub publish_loop : ℕ → List OutboxMessage → Batch P → Batch P
  publish_loop max_attempts [] b = b
  publish_loop max_attempts (msg ∷ msgs) b =
      publish_loop max_attempts msgs (publish_one max_attempts msg b)

  abbrev pub start : List OutboxMessage → P → Batch P
  start rows broker = record {
    rows = rows;
    blocked = [];
    published = [];
    failed = 0;
    first_error = none;
    broker = broker;
  }

  -- `UPDATE … SET status = PROCESSED WHERE id IN published`.
  unfoldable pub mark_processed : ℕ → List ℕ → List OutboxMessage → List OutboxMessage
  mark_processed now ids =
      set_where (λ r. contains_id r.id ids)
        (λ r. record r { status = OutboxStatus.processed; processed_at = some now })

  -- `PublishBatch` when every statement of its transaction succeeds: the result, the table and the
  -- broker after it.
  unfoldable pub publish_batch :
      ℕ → ℕ → ℕ → List OutboxMessage → P → BatchResult × List OutboxMessage × P
  unfolding publish_loop mark_processed
  publish_batch limit max_attempts now rows broker =
      let batch = take limit (select is_pending rows) in
      let b = publish_loop max_attempts batch (start rows broker) in
      (
        record {
          claimed = length batch;
          published = length b.published;
          failed = b.failed;
          error = b.first_error;
        },
        mark_processed now b.published b.rows,
        b.broker,
      )

-- `RequeueFailed`: the rows affected, and the table.
unfoldable pub requeue_failed : List OutboxMessage → ℕ × List OutboxMessage
requeue_failed rows = (
  length (select is_failed rows),
  set_where is_failed
      (λ r. record r { status = OutboxStatus.pending; attempts = 0; last_error = [] }) rows,
)
