-- ===== src/Portfolio/Ledger/Redelivery.antt =====
-- The ledger behind a stream that delivers each event at least once,
-- portfolio-service/internal/repository/holdings.go.
use fund_kit.Base.{
  ℕ, ◌+◌, ◌<◌, String, List, [], ◌∷◌, ◌≡◌, refl, ap, ◌∙◌, ◌⊎◌, inl, inr, true, arith, length, ok,
}
use fund_kit.Portfolio.Float.{Float64}
use fund_kit.Portfolio.Ledger.{Movement, Ledger, apply, Applied, max_applied_events}
use fund_kit.Portfolio.Ledger.Dedup.{IsWellFormed, IsRecent, IsRecent-seen}
use fund_kit.Portfolio.Ledger.Idempotence.{
  apply-IsWellFormed, apply-IsRecent, applied-IsRecent, deliver,
}

module _ (f : Float64) where
  -- A movement with the same event id was delivered before.
  abbrev pub IsAmong : String → List (Movement f) → Type 0
  IsAmong id [] = ⊥
  IsAmong id (m ∷ ms) = (id ≡ m.event_id) ⊎ IsAmong id ms

  -- What is delivered, for what was sent: each in the order of sending, and any of those before it
  -- again at any time. `before` is what was delivered first, the newest in front.
  pub data AtLeastOnce : List (Movement f) → List (Movement f) → List (Movement f) → Type 0 where
    finished : {before : List (Movement f)} → AtLeastOnce before [] []
    first :
        {before sent delivered : List (Movement f)} (m : Movement f)
        → AtLeastOnce (m ∷ before) sent delivered
        → AtLeastOnce before (m ∷ sent) (m ∷ delivered)
    again :
        {before sent delivered : List (Movement f)} (m : Movement f)
        → IsAmong m.event_id before
        → AtLeastOnce before sent delivered
        → AtLeastOnce before sent (m ∷ delivered)

  -- The ledger takes each of the movements.
  abbrev pub AllTaken : List (Movement f) → Ledger f → Type 0
  AllTaken [] s = Unit
  AllTaken (m ∷ ms) s = ((apply f m s).0 ≡ ok true) × AllTaken ms (apply f m s).1

  abbrev AllRecent : ℕ → List (Movement f) → Applied → Type 0
  AllRecent k [] a = Unit
  AllRecent k (m ∷ ms) a = IsRecent k m.event_id a × AllRecent k ms a

  AllRecent-seen :
      (k : ℕ) (id : String) (ms : List (Movement f)) (a : Applied)
      → IsWellFormed a
      → AllRecent k ms a
      → IsAmong id ms
      → a.events id ≡ true
  AllRecent-seen k id [] a w r i = absurd i
  AllRecent-seen k id (m ∷ ms) a w (r, rs) (inl same) =
      ap a.events same ∙ IsRecent-seen k m.event_id a w r
  AllRecent-seen k id (m ∷ ms) a w (r, rs) (inr i) = AllRecent-seen k id ms a w rs i

  apply-AllRecent :
      (k : ℕ) (ms : List (Movement f)) (m : Movement f) (s : Ledger f)
      → IsWellFormed s.applied
      → k + 1 < max_applied_events
      → AllRecent k ms s.applied
      → AllRecent (k + 1) ms (apply f m s).1.applied
  apply-AllRecent k [] m s w small all = tt
  apply-AllRecent k (x ∷ ms) m s w small (r, rs) =
      (apply-IsRecent f k x.event_id m s w small r, apply-AllRecent k ms m s w small rs)

  taken-IsRecent :
      (k : ℕ) (m : Movement f) (s : Ledger f)
      → IsWellFormed s.applied
      → (apply f m s).0 ≡ ok true
      → IsRecent k m.event_id (apply f m s).1.applied
  taken-IsRecent k m s w h =
      let (older, newer, split, short) =
        applied-IsRecent f m s {s' = (apply f m s).1} w (ap (λ r. (r, (apply f m s).1)) h) in
      (older, newer, split, omega arith)

  apply-seen :
      (m : Movement f) (s : Ledger f) → s.applied.events m.event_id ≡ true → (apply f m s).1 ≡ s
  unfolding apply
  apply-seen m s h = rw h refl

  deliver-AtLeastOnce :
      (k : ℕ) (s : Ledger f) {before sent delivered : List (Movement f)}
      → AtLeastOnce before sent delivered
      → IsWellFormed s.applied
      → AllRecent k before s.applied
      → k + length sent < max_applied_events
      → AllTaken sent s
      → deliver f delivered s ≡ deliver f sent s
  unfolding deliver
  deliver-AtLeastOnce k s finished w all small taken = refl
  deliver-AtLeastOnce k s (first m rest) w all small (took, taken) =
      deliver-AtLeastOnce (k + 1) (apply f m s).1 rest (apply-IsWellFormed f m s w)
        (taken-IsRecent (k + 1) m s w took, apply-AllRecent k _ m s w (omega arith) all)
        (omega arith) taken
  deliver-AtLeastOnce k s {before} (again m i rest) w all small taken =
      let seen = AllRecent-seen k m.event_id before s.applied w all i in
      rw (apply-seen m s seen) (deliver-AtLeastOnce k s rest w all small taken)

  -- If the ledger's deduplication set is well formed, and fewer movements are sent than the window
  -- holds, each of which the ledger takes when they are delivered once and in order, then
  -- delivering them in that order, with any of them delivered again at any time after, leaves the
  -- same ledger.
  pub redelivered_stream_same :
      (s : Ledger f) {sent delivered : List (Movement f)}
      → AtLeastOnce [] sent delivered
      → IsWellFormed s.applied
      → length sent < max_applied_events
      → AllTaken sent s
      → deliver f delivered s ≡ deliver f sent s
  redelivered_stream_same s h w small taken = deliver-AtLeastOnce 0 s h w tt (omega arith) taken
