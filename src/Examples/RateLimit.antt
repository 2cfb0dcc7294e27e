-- ===== src/Examples/RateLimit.antt =====
-- A bucket of one token that takes 5 ticks to fill, and a client whose entry is reaped.
use fund_kit.Base.{
  ℕ, ◌+◌, ◌≤◌, List, [], ◌∷◌, Option, none, some, ◌≡◌, refl, inl, inr, Bool, true, false, ◌&&◌,
  arith, ltb, leb, if◌then◌else◌, Bool-cases,
}
use fund_kit.Gateway.RateLimit.{Bucket, IsLawfulBucket, Event, request, tick, answers}
use fund_kit.Gateway.Janitor.{requests, IsOrdered, reaping_unobserved}

-- The time of the token that was taken last.
unfoldable pub WasTakenBy : Option ℕ → ℕ → Type 0
WasTakenBy none t = Unit
WasTakenBy (some taken) t = taken ≤ t

unfoldable pub take_token : ℕ → Option ℕ → Bool × Option ℕ
take_token now none = (true, some now)
take_token now (some taken) =
    if ltb now (taken + 5) && leb taken now then (false, some taken) else (true, some now)

unfoldable pub bucket : Bucket
unfolding take_token WasTakenBy
bucket = record {
  Limiter = Option ℕ;
  IsUsedAt = WasTakenBy;
  new_limiter = none;
  allow = take_token;
}

take_token-used : (now : ℕ) (l : Option ℕ) → WasTakenBy (take_token now l).1 now
unfolding take_token WasTakenBy
take_token-used now none = omega arith
take_token-used now (some taken) = elim (Bool-cases (ltb now (taken + 5) && leb taken now)) [
  | inl refused ↦ rw refused (ground arith)
  | inr granted ↦ rw granted (omega arith)
]

take_token-refilled :
    (l : Option ℕ) (last now : ℕ)
    → WasTakenBy l last
    → last + 5 ≤ now
    → take_token now l ≡ take_token now none
unfolding take_token WasTakenBy
take_token-refilled none last now used full = refl
take_token-refilled (some taken) last now used full =
    let ready : (ltb now (taken + 5) && leb taken now) ≡ false = ground arith in rw ready refl

bucket-IsLawful : IsLawfulBucket bucket 5
unfolding bucket
bucket-IsLawful = record { used = take_token-used; refilled = take_token-refilled }

abbrev history : List Event
history = request "a" 1 1 ∷ request "a" 2 3 ∷ tick 20 ∷ request "a" 21 21 ∷ []

history-IsOrdered : IsOrdered 2 0 history
history-IsOrdered = ground arith

reaping_unobserved_example :
    answers bucket 7 history (λ ip. none) ≡ answers bucket 7 (requests history) (λ ip. none)
reaping_unobserved_example =
    reaping_unobserved bucket 5 7 2 bucket-IsLawful (omega arith) history history-IsOrdered
