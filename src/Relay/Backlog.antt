-- ===== src/Relay/Backlog.antt =====
-- `Enqueue` and `PendingOlderThan`, order-service/internal/repository/outbox_repository.go.
use fund_kit.Base.{
  ℕ, ◌+◌, List, [], ◌∷◌, ◌++◌, Option, none, some, ◌≡◌, refl, ap, ◌∙◌, ◌&&◌, arith, ltb, length,
  Result, ok, err,
}
use fund_kit.Orders.Domain.{OutboxMessage, OutboxStatus}
use fund_kit.Orders.Database.{Database, IsLawful}
use fund_kit.Relay.Batch.{is_pending, select}

-- `PendingOlderThan`, at the time `now`.
unfoldable pub pending_older_than : ℕ → ℕ → List OutboxMessage → ℕ
pending_older_than now age rows =
    length (select (λ m. is_pending m && ltb (m.created_at + age) now) rows)

select-append :
    (xs ys : List OutboxMessage)
    → select is_pending (xs ++ ys) ≡ select is_pending xs ++ select is_pending ys
unfolding select
select-append [] ys = refl
select-append (x ∷ xs) ys = ground (arith, select-append xs ys)

module _ (d : Database) where
  open d use {Db, outbox}

  -- `Enqueue` in an open transaction; `none` is a nil one.
  unfoldable pub enqueue : List ℕ → Option Db → OutboxMessage → Result (List ℕ) Db
  enqueue no_transaction none msg = err no_transaction
  enqueue no_transaction (some db) msg =
      d.insert_outbox (record msg { status = OutboxStatus.pending }) db

  -- Whatever status the message had, the relay finds one more pending row, behind the others.
  pub enqueue-pending :
      IsLawful d
      → (text : List ℕ) (db : Db) (msg : OutboxMessage) {db' : Db}
      → enqueue text (some db) msg ≡ ok db'
      → (i : ℕ) × (select is_pending (outbox db')
          ≡ select is_pending (outbox db)
            ++ record msg { id = i; status = OutboxStatus.pending } ∷ [])
  unfolding enqueue select
  enqueue-pending lawful text db msg e =
      let (same, (i, grown)) =
        lawful.insert_outbox_lem (record msg { status = OutboxStatus.pending }) db e in
      (i, ap (select is_pending) grown ∙ select-append (outbox db) _)
