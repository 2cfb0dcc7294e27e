-- ===== src/Relay/Marked.antt =====
-- The rows that are marked processed, and the rows of a table,
-- order-service/internal/repository/outbox_repository.go.
use fund_kit.Base.{
  ℕ, List, [], ◌∷◌, ◌++◌, map, ◌≡◌, ◌⊎◌, refl, inl, inr, some, Bool, true, false, arith, eqb,
  Result, Bool-cases,
}
use fund_kit.Orders.Domain.{OutboxMessage, OutboxStatus}
use fund_kit.Relay.Batch.{set_where, contains_id, failed_row, record_failure, mark_processed}
use fund_kit.Relay.Loop.{arrive}

abbrev pub is_processed : OutboxMessage → Bool
is_processed m = elim m.status [ OutboxStatus.processed ↦ true | _ ↦ false ]

-- Each row that is marked processed has its id in the list.
abbrev pub AreMarkedOf : List ℕ → List OutboxMessage → Type 0
AreMarkedOf ids [] = Unit
AreMarkedOf ids (m ∷ ms) =
    (is_processed m ≡ true → contains_id m.id ids ≡ true) × AreMarkedOf ids ms

-- Every id of the first list is in the second.
abbrev pub IsWithin : List ℕ → List ℕ → Type 0
IsWithin is js = (i : ℕ) → contains_id i is ≡ true → contains_id i js ≡ true

AreMarkedOf-IsWithin :
    (is js : List ℕ) (ms : List OutboxMessage)
    → IsWithin is js
    → AreMarkedOf is ms
    → AreMarkedOf js ms
AreMarkedOf-IsWithin is js [] within h = tt
AreMarkedOf-IsWithin is js (m ∷ ms) within (here, h) =
    (λ p. within m.id (here p), AreMarkedOf-IsWithin is js ms within h)

-- An update of the rows, each of which is unmarked after it, or was marked before, or is in the list.
set_where-AreMarkedOf :
    (ids : List ℕ) (p : OutboxMessage → Bool) (f : OutboxMessage → OutboxMessage)
    → ((m : OutboxMessage)
        → p m ≡ true
        → (is_processed m ≡ true → contains_id m.id ids ≡ true)
        → is_processed (f m) ≡ true
        → contains_id (f m).id ids ≡ true)
    → (ms : List OutboxMessage) → AreMarkedOf ids ms
    → AreMarkedOf ids (set_where p f ms)
unfolding set_where
set_where-AreMarkedOf ids p f step [] h = tt
set_where-AreMarkedOf ids p f step (m ∷ ms) (here, h) =
    let rest = set_where-AreMarkedOf ids p f step ms h in
    elim (Bool-cases (p m)) [
      | inl hit ↦ rw hit (step m hit here, rest)
      | inr miss ↦ rw miss (here, rest)
    ]

failed_row-marked :
    (max_attempts : ℕ) (cause : List ℕ) (m : OutboxMessage)
    → is_processed (failed_row max_attempts cause m) ≡ true
    → is_processed m ≡ true
unfolding failed_row
failed_row-marked max_attempts cause m h = ground arith

failed_row-id :
    (max_attempts : ℕ) (cause : List ℕ) (m : OutboxMessage)
    → (failed_row max_attempts cause m).id ≡ m.id
unfolding failed_row
failed_row-id max_attempts cause m = ground arith

abbrev pub ids_of : List OutboxMessage → List ℕ
ids_of ms = map (λ m. m.id) ms

set_where-ids :
    (p : OutboxMessage → Bool) (f : OutboxMessage → OutboxMessage)
    → ((m : OutboxMessage) → (f m).id ≡ m.id)
    → (ms : List OutboxMessage) → ids_of (set_where p f ms) ≡ ids_of ms
unfolding set_where
set_where-ids p f same [] = refl
set_where-ids p f same (m ∷ ms) =
    let rest = set_where-ids p f same ms in
    elim (Bool-cases (p m)) [
      | inl hit ↦ rw (hit, same m, rest) refl
      | inr miss ↦ rw (miss, rest) refl
    ]

pub contains_id-snoc :
    (i j : ℕ) (js : List ℕ)
    → contains_id i (js ++ j ∷ []) ≡ true
    → (contains_id i js ≡ true) ⊎ (i ≡ j)
contains_id-snoc i j [] h = ground arith
contains_id-snoc i j (k ∷ js) h = elim (Bool-cases (eqb i k)) [
  | inl here ↦ inl (rw here refl)
  | inr not_here ↦ elim (contains_id-snoc i j js (rw not_here at h)) [
    | inl old ↦ inl (rw (not_here, old) refl)
    | inr same ↦ inr same
  ]
]

arrive-AreMarkedOf :
    (ids : List ℕ) (ms new : List OutboxMessage)
    → AreMarkedOf ids ms
    → AreMarkedOf ids (arrive ms new)
unfolding arrive
arrive-AreMarkedOf ids [] [] h = tt
arrive-AreMarkedOf ids [] (m ∷ new) h = (λ p. absurd (cc), arrive-AreMarkedOf ids [] new tt)
arrive-AreMarkedOf ids (m ∷ ms) new (here, h) = (here, arrive-AreMarkedOf ids ms new h)

arrive-ids : (ms new : List OutboxMessage) → IsWithin (ids_of ms) (ids_of (arrive ms new))
unfolding arrive
arrive-ids [] new i h = absurd (cc)
arrive-ids (m ∷ ms) new i h = elim (Bool-cases (eqb i m.id)) [
  | inl here ↦ rw here refl
  | inr later ↦ rw (later, arrive-ids ms new i (rw later at h)) refl
]

module _ (before : List ℕ) where
  -- No row is lost, and each that is marked processed has its id in the list.
  abbrev pub IsKept : List ℕ → List OutboxMessage → Type 0
  IsKept ids ms = AreMarkedOf ids ms × IsWithin before (ids_of ms)

  pub IsKept-IsWithin :
      (is js : List ℕ) (ms : List OutboxMessage) → IsWithin is js → IsKept is ms → IsKept js ms
  IsKept-IsWithin is js ms within (marked, there) =
      (AreMarkedOf-IsWithin is js ms within marked, there)

  pub record_failure-IsKept :
      (ids : List ℕ) (max_attempts : ℕ) (cause : List ℕ) (msg : OutboxMessage)
      (ms : List OutboxMessage)
      → IsKept ids ms
      → IsKept ids (record_failure max_attempts cause msg ms)
  unfolding record_failure
  record_failure-IsKept ids max_attempts cause msg ms (marked, there) =
      let retried = λ (r : OutboxMessage). record r { attempts = msg.attempts } in
      (
        set_where-AreMarkedOf ids (λ r. eqb r.id msg.id)
            (λ r. failed_row max_attempts cause (retried r))
            (λ m hit here marked_then.
              rw (failed_row-id max_attempts cause (retried m))
                (here (failed_row-marked max_attempts cause (retried m) marked_then)))
            ms marked,
        rw
            (set_where-ids (λ r. eqb r.id msg.id) (λ r. failed_row max_attempts cause (retried r))
              (λ m. failed_row-id max_attempts cause (retried m)) ms)
            there,
      )

  module _ {P : Type 0} (publish : OutboxMessage → P → Result (List ℕ) (Unit {0}) × P) where
    pub mark_processed-IsKept :
        (now : ℕ) (ids js : List ℕ) (ms : List OutboxMessage)
        → IsWithin ids js
        → IsKept js ms
        → IsKept js (mark_processed publish now ids ms)
    unfolding mark_processed
    mark_processed-IsKept now ids js ms within (marked, there) =
        let mark = λ (r : OutboxMessage). record r {
          status = OutboxStatus.processed;
          processed_at = some now;
        } in
        (
          set_where-AreMarkedOf js (λ r. contains_id r.id ids) mark
              (λ m hit here marked_then. within m.id hit) ms marked,
          rw (set_where-ids (λ r. contains_id r.id ids) mark (λ m. refl) ms) there,
        )

  -- What others insert is not marked.
  pub arrive-IsKept :
      (ids : List ℕ) (ms new : List OutboxMessage) → IsKept ids ms → IsKept ids (arrive ms new)
  arrive-IsKept ids ms new (marked, there) =
      (arrive-AreMarkedOf ids ms new marked, λ i h. arrive-ids ms new i (there i h))
