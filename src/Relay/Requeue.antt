-- ===== src/Relay/Requeue.antt =====
-- `RequeueFailed`, order-service/internal/repository/outbox_repository.go.
use fund_kit.Base.{◌+◌, List, [], ◌∷◌, ◌≡◌, refl, arith, length}
use fund_kit.Orders.Domain.{OutboxMessage}
use fund_kit.Relay.Batch.{is_failed, select, set_where, requeue_failed}
use fund_kit.Relay.Drain.{pending_count}

-- `RequeueFailed` reports how many rows are failed, leaves no failed row, and makes the pending
-- rows as many more.
pub requeue_failed-pending :
    (rows : List OutboxMessage)
    → let (n, rows') = requeue_failed rows in
      (n ≡ length (select is_failed rows))
      × (select is_failed rows' ≡ [])
      × (pending_count rows' ≡ pending_count rows + n)
unfolding requeue_failed select set_where
requeue_failed-pending [] = (refl, refl, refl)
requeue_failed-pending (x ∷ xs) =
    let (counted, none_failed, grown) = requeue_failed-pending xs in
    (ground arith, ground arith, ground arith)
