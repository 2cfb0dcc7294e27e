-- ===== src/Relay/Run.antt =====
-- `Relay.Run` and `flush`, order-service/internal/relay/relay.go.
use Prim.Native.Nat.{max}
use fund_kit.Base.{
  ℕ, suc, ◌+◌, ◌^◌, ◌<◌, List, [], ◌∷◌, ◌++◌, ◌≡◌, Option, none, some, Bool, true, false, arith,
  Result, ok,
}
use fund_kit.Base.Int.{ℤ, pos}
use fund_kit.Orders.Domain.{OutboxMessage}
use fund_kit.Relay.Drain.{pending_count}
use fund_kit.Relay.Loop.{
  Config, with_defaults, next_wait, next_wait_bounded, IsWait, arrival_count, Weather, Drained,
  drain,
}
use fund_kit.Relay.Flush.{drain_empties}

module _ {P : Type 0} (publish : OutboxMessage → P → Result (List ℕ) (Unit {0}) × P) where
  -- What `Run` waits for: the timer, or the end of its context. In both cases others have changed
  -- the table since the last turn.
  pub data Turn : Type 0 where
    tick : (List OutboxMessage → List OutboxMessage) → Weather publish → Turn
    done : (List OutboxMessage → List OutboxMessage) → Weather publish → Turn

  -- `drain` on fuel that is enough.
  unfoldable pub drain_all : Config → Weather publish → List OutboxMessage → P → Drained publish
  drain_all c w rows broker =
      elim (drain publish c w (suc (pending_count rows + arrival_count w.arrivals)) 0 w.arrivals
        rows broker) [ none ↦ (none, rows, broker) | some r ↦ r ]

  -- `flush`: a drain in a context of its own, whose error is only logged.
  unfoldable pub flush : Config → Weather publish → List OutboxMessage → P → List OutboxMessage × P
  unfolding drain_all
  flush c w rows broker =
      let (failure, rows', broker') = drain_all c w rows broker in (rows', broker')

  abbrev pub is_failure : Option (List ℕ) → Bool
  is_failure none = false
  is_failure (some text) = true

  -- The loop of `Run`: the times that the timer is set to, the table and the broker. Of what follows
  -- the end of the context it sees nothing.
  unfoldable pub run_from :
      Config → List Turn → ℤ → List OutboxMessage → P → List ℤ × List OutboxMessage × P
  unfolding flush
  run_from c [] backoff rows broker = ([], rows, broker)
  run_from c (done others w ∷ turns) backoff rows broker =
      let (rows', broker') = flush c w (others rows) broker in ([], rows', broker')
  run_from c (tick others w ∷ turns) backoff rows broker =
      let (failure, rows', broker') = drain_all c w (others rows) broker in
      let wait = next_wait c backoff (is_failure failure) in
      let (waits, rows'', broker'') = run_from c turns wait rows' broker' in
      (wait ∷ waits, rows'', broker'')

  -- `New` and `Run`.
  unfoldable pub run : Config → List Turn → List OutboxMessage → P → List ℤ × List OutboxMessage × P
  run c turns rows broker = let d = with_defaults c in run_from d turns (pos d.interval) rows broker

  abbrev pub AreTicks : List Turn → Type 0
  AreTicks [] = Unit
  AreTicks (tick others w ∷ ts) = AreTicks ts
  AreTicks (done others w ∷ ts) = ⊥

  abbrev pub AllWithin : ℕ → List ℤ → Type 0
  AllWithin most [] = Unit
  AllWithin most (x ∷ xs) = IsWait most x × AllWithin most xs

  run_from-AllWithin :
      (c : Config) (turns : List Turn) (backoff : ℤ) (rows : List OutboxMessage) (broker : P)
      → 0 < c.interval
      → 0 < c.max_backoff
      → c.interval < 2 ^ 62
      → c.max_backoff < 2 ^ 62
      → IsWait (max c.interval c.max_backoff) backoff
      → AllWithin (max c.interval c.max_backoff) (run_from c turns backoff rows broker).0
  unfolding run_from
  run_from-AllWithin c [] backoff rows broker hi hm si sm hb = tt
  run_from-AllWithin c (done others w ∷ turns) backoff rows broker hi hm si sm hb = tt
  run_from-AllWithin c (tick others w ∷ turns) backoff rows broker hi hm si sm hb =
      let r = drain_all c w (others rows) broker in
      let bound = next_wait_bounded c backoff (is_failure r.0) hi hm si sm hb in
      (bound, run_from-AllWithin c turns _ r.1 r.2 hi hm si sm bound)

  module _ (accepts : (m : OutboxMessage) (p : P) → (publish m p).0 ≡ ok tt) where
    drain_all-empties :
        (c : Config) (w : Weather publish) (rows : List OutboxMessage) (broker : P)
        → 0 < c.batch_size
        → ((k : ℕ) → w.cancelled k ≡ false)
        → ((k : ℕ) (p : P) → w.transaction_error k p ≡ none)
        → pending_count (drain_all c w rows broker).1 ≡ 0
    unfolding drain_all
    drain_all-empties c w rows broker room calm fine =
        let (rows', broker', e, empty) =
          drain_empties publish accepts c w (suc (pending_count rows + arrival_count w.arrivals)) 0
            w.arrivals rows broker room calm fine (omega arith) in
        rw (e, drain_all) empty

    run_from-empties :
        (c : Config) (before after : List Turn) (others : List OutboxMessage → List OutboxMessage)
        (w : Weather publish) (backoff : ℤ) (rows : List OutboxMessage) (broker : P)
        → 0 < c.batch_size
        → AreTicks before
        → ((k : ℕ) → w.cancelled k ≡ false)
        → ((k : ℕ) (p : P) → w.transaction_error k p ≡ none)
        → pending_count (run_from c (before ++ done others w ∷ after) backoff rows broker).1 ≡ 0
    unfolding run_from
    run_from-empties c [] after others w backoff rows broker room ticks calm fine =
        drain_all-empties c w (others rows) broker room calm fine
    run_from-empties c (tick others' w' ∷ before) after others w backoff rows broker room ticks calm
          fine =
        run_from-empties c before after others w _ _ _ room ticks calm fine
    run_from-empties c (done others' w' ∷ before) after others w backoff rows broker room ticks calm
          fine =
        absurd ticks

    -- If the context of `Run` ends after any number of ticks, the broker accepts every message, in
    -- the flush the context is not done and no transaction fails, and the interval and the ceiling
    -- are below 2^62 nanoseconds, then the last pass leaves no pending row, whatever others have
    -- written between the ticks and inserted between the passes; and each wait between two drains
    -- is positive and at most the interval or the ceiling, whichever is more.
    pub run_stops_empty :
        (c : Config) (before after : List Turn) (others : List OutboxMessage → List OutboxMessage)
        (w : Weather publish) (rows : List OutboxMessage) (broker : P)
        → AreTicks before
        → ((k : ℕ) → w.cancelled k ≡ false)
        → ((k : ℕ) (p : P) → w.transaction_error k p ≡ none)
        → (with_defaults c).interval < 2 ^ 62
        → (with_defaults c).max_backoff < 2 ^ 62
        → let d = with_defaults c in
          let (waits, rows', broker') = run c (before ++ done others w ∷ after) rows broker in
          AllWithin (max d.interval d.max_backoff) waits × (pending_count rows' ≡ 0)
    unfolding run with_defaults
    run_stops_empty c before after others w rows broker ticks calm fine si sm =
        let d = with_defaults c in
        let turns = before ++ done others w ∷ after in
        let hi : 0 < d.interval = ground arith in
        let hm : 0 < d.max_backoff = ground arith in
        let room : 0 < d.batch_size = ground arith in
        (
          run_from-AllWithin d turns (pos d.interval) rows broker hi hm si sm
              (omega arith, omega arith),
          run_from-empties d before after others w (pos d.interval) rows broker room ticks calm
              fine,
        )
