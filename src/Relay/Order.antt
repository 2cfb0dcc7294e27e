-- ===== src/Relay/Order.antt =====
-- The order in which a pass of `PublishBatch` sends,
-- order-service/internal/repository/outbox_repository.go.
use fund_kit.Base.{
  ℕ, ◌+◌, ◌≤◌, String, List, [], ◌∷◌, ◌++◌, map, ◌≡◌, refl, sym, ap, ◌∙◌, inl, inr, ◌⊎◌, Bool, true,
  false, ◌==◌, eq_iff, eq_refl, arith, contains, if◌then◌else◌, Result, ok, err, append_assoc,
  append-nil, text-cases, Bool-cases, subst, length, length-map, take,
}
use fund_kit.Orders.Domain.{OutboxMessage}
use fund_kit.Relay.Batch.{
  Batch, is_pending, select, start, publish_one, publish_loop, publish_batch,
}

-- The messages of one aggregate.
abbrev pub of : String → List OutboxMessage → List OutboxMessage
of id [] = []
of id (m ∷ ms) = let rest = of id ms in if m.aggregate_id == id then m ∷ rest else rest

abbrev pub IsPrefixOf : List OutboxMessage → List OutboxMessage → Type 0
IsPrefixOf xs ys = (rest : List OutboxMessage) × (ys ≡ xs ++ rest)

module _ {P : Type 0} (publish : OutboxMessage → P → Result (List ℕ) (Unit {0}) × P) (max : ℕ) where
  -- Whether the round publishes its message.
  abbrev pub publishes : OutboxMessage → Batch P → Bool
  publishes m b =
      if contains m.aggregate_id b.blocked
      then false
      else (elim (publish m b.broker).0 [ ok done ↦ true | err cause ↦ false ])

  -- The messages that a run of the loop publishes.
  abbrev pub sent : List OutboxMessage → Batch P → List OutboxMessage
  sent [] b = []
  sent (m ∷ ms) b =
      let rest = sent ms (publish_one publish max m b) in if publishes m b then m ∷ rest else rest

  publish_one-cases :
      (m : OutboxMessage) (b : Batch P)
      → let b' = publish_one publish max m b in
        ((publishes m b ≡ true)
          × (b'.published ≡ b.published ++ m.id ∷ [])
          × (b'.blocked ≡ b.blocked)
          × (b'.failed ≡ b.failed)
          × (contains m.aggregate_id b.blocked ≡ false))
        ⊎ ((publishes m b ≡ false)
            × (b'.published ≡ b.published)
            × (contains m.aggregate_id b'.blocked ≡ true)
            × ((b'.blocked ≡ b.blocked) ⊎ (b'.blocked ≡ m.aggregate_id ∷ b.blocked))
            × (b'.failed ≤ b.failed + 1))
  unfolding publish_one
  publish_one-cases m b = ground (arith, eq_refl m.aggregate_id)

  -- The ids that a run of the loop adds to those to be marked processed are those of the messages
  -- that it sends, in order.
  pub published-sent :
      (ms : List OutboxMessage) (b : Batch P)
      → (publish_loop publish max ms b).published ≡ b.published ++ map (λ m. m.id) (sent ms b)
  unfolding publish_loop
  published-sent [] b = sym (append-nil b.published)
  published-sent (m ∷ ms) b =
      let b₁ = publish_one publish max m b in
      let later = map (λ (x : OutboxMessage). x.id) (sent ms b₁) in
      elim (publish_one-cases m b) [
        | inl (yes_sent, grown, b3, b4, b5) ↦ rw yes_sent (
            published-sent ms b₁
            ∙ ap (λ l. l ++ later) grown
            ∙ append_assoc b.published (m.id ∷ []) later)
        | inr (not_sent, kept, b3, b4, b5) ↦
            rw not_sent (published-sent ms b₁ ∙ ap (λ l. l ++ later) kept)
      ]

  -- A blocked aggregate sends nothing.
  blocked_silent :
      (id : String) (ms : List OutboxMessage) (b : Batch P)
      → contains id b.blocked ≡ true
      → of id (sent ms b) ≡ []
  blocked_silent id [] b h = refl
  blocked_silent id (m ∷ ms) b h =
      let b₁ = publish_one publish max m b in
      elim (publish_one-cases m b) [
        | inl (yes_sent, grown, same, kept, open_still) ↦
            let ih = blocked_silent id ms b₁ (rw same h) in
            rw yes_sent (ground (arith, eq_iff m.aggregate_id id))
        | inr (not_sent, kept, closed, more, fails) ↦
            rw not_sent (blocked_silent id ms b₁ (ground arith))
      ]

  sent-IsPrefix :
      (id : String) (ms : List OutboxMessage) (b : Batch P)
      → IsPrefixOf (of id (sent ms b)) (of id ms)
  sent-IsPrefix id [] b = ([], refl)
  sent-IsPrefix id (m ∷ ms) b =
      let b₁ = publish_one publish max m b in
      let (rest, e) = sent-IsPrefix id ms b₁ in
      elim (publish_one-cases m b) [
        | inl (yes_sent, b2, b3, b4, b5) ↦ rw yes_sent (rest, ground arith)
        | inr (not_sent, kept, closed, b4, b5) ↦ elim (text-cases m.aggregate_id id) [
          | inl same ↦ rw (not_sent, blocked_silent id ms b₁ (rw (← same) closed)) (_, refl)
          | inr differ ↦ rw (not_sent, differ) (rest, e)
        ]
      ]

module _ {P : Type 0} (publish : OutboxMessage → P → Result (List ℕ) (Unit {0}) × P) where
  -- The publisher, with a log of the messages that the broker has taken.
  unfoldable pub recorded :
      OutboxMessage → P × List OutboxMessage → Result (List ℕ) (Unit {0}) × (P × List OutboxMessage)
  recorded m (p, log) =
      let (r, p') = publish m p in (r, (p', elim r [ ok done ↦ log ++ m ∷ [] | err cause ↦ log ]))

  publish_one-log :
      (max : ℕ) (m : OutboxMessage) (b : Batch (P × List OutboxMessage))
      → (publish_one recorded max m b).broker.1
        ≡ (if publishes recorded max m b then b.broker.1 ++ m ∷ [] else b.broker.1)
  unfolding publish_one recorded
  publish_one-log max m b = ground arith

  publish_loop-log :
      (max : ℕ) (ms : List OutboxMessage) (b : Batch (P × List OutboxMessage))
      → (publish_loop recorded max ms b).broker.1 ≡ b.broker.1 ++ sent recorded max ms b
  unfolding publish_loop
  publish_loop-log max [] b = sym (append-nil b.broker.1)
  publish_loop-log max (m ∷ ms) b =
      let b₁ = publish_one recorded max m b in
      let later = publish_loop-log max ms b₁ in
      let one = publish_one-log max m b in
      elim (Bool-cases (publishes recorded max m b)) [
        | inl yes_sent ↦ rw yes_sent (
            later
            ∙ ap (λ l. l ++ sent recorded max ms b₁) (rw yes_sent at one)
            ∙ append_assoc b.broker.1 (m ∷ []) (sent recorded max ms b₁))
        | inr not_sent ↦
            rw not_sent (later ∙ ap (λ l. l ++ sent recorded max ms b₁) (rw not_sent at one))
      ]

  -- Whatever the broker answers, a pass reports as many messages published as the broker has taken,
  -- and for each aggregate what the broker has taken is a prefix, in order, of what the pass
  -- claimed.
  pub taken-IsPrefix :
      (limit max now : ℕ) (rows : List OutboxMessage) (broker : P)
      → let (r, rows', (broker', log)) = publish_batch recorded limit max now rows (broker, []) in
        (r.published ≡ length log)
        × ((id : String) → IsPrefixOf (of id log) (of id (take limit (select is_pending rows))))
  unfolding publish_batch
  taken-IsPrefix limit max now rows broker =
      let batch = take limit (select is_pending rows) in
      let b = start recorded rows (broker, []) in
      let log = publish_loop-log max batch b in
      let ids = published-sent recorded max batch b in
      (
        ap length ids
            ∙ length-map (sent recorded max batch b) (λ (m : OutboxMessage). m.id)
            ∙ ap length (sym log),
        λ id.
            subst (λ l. IsPrefixOf (of id l) (of id batch)) (sym log)
              (sent-IsPrefix recorded max id batch b),
      )
