-- ===== src/Relay/Loop.antt =====
-- The relay's loop, order-service/internal/relay/relay.go.
use Prim.Native.Nat.{max}
use fund_kit.Base.{
  ℕ, zero, suc, ◌+◌, ◌*◌, ◌^◌, ◌<◌, List, [], ◌∷◌, ◌++◌, map, length, ap, ◌∙◌, ◌≡◌, ◌⊎◌, inl, inr,
  Option, none, some, Bool, true, false, arith, eqb, ltb, if◌then◌else◌, Result, Bool-cases,
  Option-cases,
}
use fund_kit.Base.Int.{ℤ, pos, negsuc, ◌≤ℤ◌, ltb_ℤ, add64, wrap64, wrap64_id, ◌+ℤ◌, int_laws}
use fund_kit.Orders.Domain.{OutboxMessage, OutboxStatus}
use fund_kit.Relay.Batch.{BatchResult, publish_batch}
use fund_kit.Relay.Drain.{pending_count, publish_batch_progress}

-- Durations in nanoseconds. A configured duration or size that is not positive is 0.
pub record Config : Type 0 where
  pub interval : ℕ
  pub batch_size : ℕ
  pub max_attempts : ℕ
  pub max_backoff : ℕ
  pub shutdown_flush : ℕ

abbrev pub second : ℕ
second = 1_000_000_000

-- `withDefaults`.
unfoldable pub with_defaults : Config → Config
with_defaults c =
    let interval = if eqb c.interval 0 then second else c.interval in
    record {
      interval = interval;
      batch_size = if eqb c.batch_size 0 then 100 else c.batch_size;
      max_attempts = if eqb c.max_attempts 0 then 10 else c.max_attempts;
      max_backoff = if ltb c.max_backoff interval then 30 * second else c.max_backoff;
      shutdown_flush = if eqb c.shutdown_flush 0 then 5 * second else c.shutdown_flush;
    }

-- `nextBackoff`, on durations of 64 bits.
unfoldable pub next_backoff : ℤ → ℤ → ℤ
next_backoff current ceiling =
    let next = add64 current current in if ltb_ℤ ceiling next then ceiling else next

-- The wait before the next tick, after a drain that failed or not.
unfoldable pub next_wait : Config → ℤ → Bool → ℤ
unfolding next_backoff
next_wait c backoff failed =
    if failed then next_backoff backoff (pos c.max_backoff) else pos c.interval

-- A positive wait, of at most so much.
abbrev pub IsWait : ℕ → ℤ → Type 0
IsWait most x = (pos 1 ≤ℤ x) × (x ≤ℤ pos most)

double64 : (n : ℕ) → n < 2 ^ 62 → add64 (pos n) (pos n) ≡ pos (n + n)
double64 n h =
    let sum : pos n +ℤ pos n ≡ pos (n + n) = omega int_laws in
    ap wrap64 sum ∙ wrap64_id (pos (n + n)) (omega arith, omega arith)

next_backoff_bounded :
    (n ceiling : ℕ)
    → 0 < ceiling
    → 0 < n
    → n < 2 ^ 62
    → IsWait ceiling (next_backoff (pos n) (pos ceiling))
unfolding next_backoff
next_backoff_bounded n ceiling hc hn small = rw (double64 n small) (ground arith)

pub next_wait_bounded :
    (c : Config) (backoff : ℤ) (failed : Bool)
    → 0 < c.interval
    → 0 < c.max_backoff
    → c.interval < 2 ^ 62
    → c.max_backoff < 2 ^ 62
    → IsWait (max c.interval c.max_backoff) backoff
    → IsWait (max c.interval c.max_backoff) (next_wait c backoff failed)
unfolding next_wait
next_wait_bounded c (pos n) true hi hm si sm hb =
    let (low, high) = next_backoff_bounded n c.max_backoff hm (ground arith) (ground arith) in
    (low, ground arith)
next_wait_bounded c (negsuc n) true hi hm si sm hb = absurd (ground arith)
next_wait_bounded c backoff false hi hm si sm hb = (ground arith, ground arith)

-- The rows that others insert, which are pending (`Enqueue` and the service's transactions).
abbrev pub as_pending : OutboxMessage → OutboxMessage
as_pending m = record m { status = OutboxStatus.pending }

unfoldable pub arrive : List OutboxMessage → List OutboxMessage → List OutboxMessage
arrive rows new = rows ++ map as_pending new

abbrev pub arrivals_now : List (List OutboxMessage) → List OutboxMessage
arrivals_now [] = []
arrivals_now (new ∷ later) = new

abbrev pub arrivals_later : List (List OutboxMessage) → List (List OutboxMessage)
arrivals_later [] = []
arrivals_later (new ∷ later) = later

abbrev pub arrival_count : List (List OutboxMessage) → ℕ
arrival_count [] = 0
arrival_count (new ∷ later) = length new + arrival_count later

pending_count-arrive :
    (rows new : List OutboxMessage)
    → pending_count (arrive rows new) ≡ pending_count rows + length new
unfolding arrive
pending_count-arrive [] [] = omega arith
pending_count-arrive [] (m ∷ new) = let ih = pending_count-arrive [] new in ground arith
pending_count-arrive (r ∷ rows) new = let ih = pending_count-arrive rows new in ground arith

-- What is to come from the next pass on.
pub arrivals-split :
    (rows : List OutboxMessage) (arrivals : List (List OutboxMessage))
    → pending_count (arrive rows (arrivals_now arrivals)) + arrival_count (arrivals_later arrivals)
      ≡ pending_count rows + arrival_count arrivals
arrivals-split rows [] = omega (arith, pending_count-arrive rows [])
arrivals-split rows (new ∷ later) = omega (arith, pending_count-arrive rows new)

module _ {P : Type 0} (publish : OutboxMessage → P → Result (List ℕ) (Unit {0}) × P) where
  -- What a pass meets outside: whether the context is done, and a transaction that fails, with what
  -- it has published by then. Its rows are rolled back. Each pass is a transaction of its own:
  -- `arrivals` has the rows that others insert before each of them, from the first one on.
  pub record Weather : Type 0 where
    pub cancelled : ℕ → Bool
    pub transaction_error : ℕ → P → Option (List ℕ × P)
    pub clock : ℕ → ℕ
    pub arrivals : List (List OutboxMessage)

  -- What `drain` returns: its error if any, the rows and the broker.
  abbrev pub Drained : Type 0
  Drained = Option (List ℕ) × List OutboxMessage × P

  -- The end of a pass that was committed; `again` is the next pass.
  unfoldable pub after_pass :
      Config → BatchResult → List OutboxMessage → P → Option Drained → Option Drained
  after_pass c result rows broker again =
      if eqb result.claimed 0
      then some (none, rows, broker)
      else if eqb result.published 0
      then some (result.error, rows, broker)
      else if ltb result.claimed c.batch_size
      then some (none, rows, broker)
      else again

  -- `drain`, its passes counted by `n`; `none` is out of fuel.
  unfoldable pub drain :
      Config → Weather → ℕ → ℕ → List (List OutboxMessage) → List OutboxMessage → P → Option Drained
  unfolding arrive
  drain c w zero n arrivals rows broker = none
  drain c w (suc fuel) n arrivals rows broker =
      let now = arrive rows (arrivals_now arrivals) in
      let (result, rows', broker') =
        publish_batch publish c.batch_size c.max_attempts (w.clock n) now broker in
      let again = drain c w fuel (n + 1) (arrivals_later arrivals) rows' broker' in
      if w.cancelled n then some (none, rows, broker) else elim (w.transaction_error n broker) [
        | some (e, broker'') ↦ some (some e, now, broker'')
        | none ↦ after_pass c result rows' broker' again
      ]

  after_pass-ends :
      (c : Config) (result : BatchResult) (rows : List OutboxMessage) (broker : P)
      (again : Option Drained)
      → (eqb result.published 0 ≡ true) ⊎ ((r : Drained) × (again ≡ some r))
      → (r : Drained) × (after_pass c result rows broker again ≡ some r)
  unfolding after_pass
  after_pass-ends c result rows broker again h = elim (Bool-cases (eqb result.claimed 0)) [
    | inl idle ↦ ((none, rows, broker), rw idle)
    | inr busy ↦ elim (Bool-cases (eqb result.published 0)) [
      | inl stuck ↦ ((result.error, rows, broker), rw (busy, stuck))
      | inr moved ↦ elim (Bool-cases (ltb result.claimed c.batch_size)) [
        | inl last ↦ ((none, rows, broker), rw (busy, moved, last))
        | inr full ↦ elim h [
          | inl stuck ↦ absurd (ground arith)
          | inr (r, e) ↦ (r, rw (busy, moved, full) e)
        ]
      ]
    ]
  ]

  -- The drain ends: one pass more than there are pending rows, with all those that others insert
  -- before its passes, is enough, whatever the broker, the context and the transactions do.
  pub drain_ends :
      (c : Config) (w : Weather) (fuel n : ℕ) (arrivals : List (List OutboxMessage))
      (rows : List OutboxMessage) (broker : P)
      → pending_count rows + arrival_count arrivals < fuel
      → (r : Drained) × (drain c w fuel n arrivals rows broker ≡ some r)
  unfolding drain
  drain_ends c w zero n arrivals rows broker h = absurd (omega arith)
  drain_ends c w (suc fuel) n arrivals rows broker h =
      let now = arrive rows (arrivals_now arrivals) in
      let pass = publish_batch publish c.batch_size c.max_attempts (w.clock n) now broker in
      let again = drain c w fuel (n + 1) (arrivals_later arrivals) pass.1 pass.2 in
      let progress : (eqb pass.0.published 0 ≡ true) ⊎ ((r : Drained) × (again ≡ some r)) =
        elim (Bool-cases (eqb pass.0.published 0)) [
          | inl stuck ↦ inl stuck
          | inr moved ↦
              let fewer : pending_count pass.1 < pending_count now =
                publish_batch_progress publish c.batch_size c.max_attempts (w.clock n) now broker
                  (ground arith) in
              let split = arrivals-split rows arrivals in
              inr
                (drain_ends c w fuel (n + 1) (arrivals_later arrivals) pass.1 pass.2 (omega arith))
        ] in
      elim (Bool-cases (w.cancelled n)) [
        | inl done ↦ ((none, rows, broker), rw (drain, done))
        | inr on ↦ elim (Option-cases (w.transaction_error n broker)) [
          | inr ((e, broker''), p) ↦ ((some e, now, broker''), rw (drain, on, p))
          | inl fine ↦
              let (r, e) = after_pass-ends c pass.0 pass.1 pass.2 again progress in
              (r, rw (drain, on, fine) e)
        ]
      ]
