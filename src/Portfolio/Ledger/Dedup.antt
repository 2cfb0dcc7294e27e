-- ===== src/Portfolio/Ledger/Dedup.antt =====
-- The deduplication window of `HoldingsRepository`,
-- portfolio-service/internal/repository/holdings.go.
use fund_kit.Base.{
  ℕ, ◌+◌, ◌-◌, ◌≤◌, ◌<◌, String, List, [], ◌∷◌, ◌++◌, ◌≡◌, refl, sym, ap, ◌∙◌, subst, ◌⊎◌, inl, inr,
  Bool, true, false, ◌||◌, eq_refl, eq_iff, arith, leb, length, length-append, contains, leb→le,
  update, Bool-cases, append_assoc,
}
use fund_kit.Portfolio.Ledger.{Applied, mark_applied, forget, max_applied_events}

abbrev pub IsDistinct : List String → Type 0
IsDistinct [] = Unit
IsDistinct (x ∷ xs) = (contains x xs ≡ false) × IsDistinct xs

-- The set is the set of the queued ids, no id is queued twice, and the queue is within its bound.
pub record IsWellFormed (a : Applied) : Type 0 where
  pub agrees : (id : String) → a.events id ≡ contains id a.order
  pub distinct : IsDistinct a.order
  pub bounded : length a.order ≤ max_applied_events

contains-append :
    (k : String) (xs ys : List String) → contains k (xs ++ ys) ≡ contains k xs || contains k ys
contains-append k [] ys = refl
contains-append k (x ∷ xs) ys = ground (arith, contains-append k xs ys)

IsDistinct-snoc :
    (xs : List String) (y : String)
    → IsDistinct xs
    → contains y xs ≡ false
    → IsDistinct (xs ++ y ∷ [])
IsDistinct-snoc [] y h new = (refl, tt)
IsDistinct-snoc (x ∷ xs) y h new =
    ground (arith, contains-append x xs (y ∷ []), IsDistinct-snoc xs y h.1, eq_iff x y, eq_iff y x)

-- `markApplied` queues the id, and evicts the oldest one if the queue was full.
abbrev queued : String → Applied → Applied
queued id a = record { events = update a.events id true; order = a.order ++ id ∷ [] }

abbrev evicted : (String → Bool) → String → List String → Applied
evicted events x xs = record { events = update events x false; order = xs }

snoc-cons :
    (xs : List String) (y : String) → (x : String) × (zs : List String) × (xs ++ y ∷ [] ≡ x ∷ zs)
snoc-cons [] y = (y, [], refl)
snoc-cons (x ∷ xs) y = (x, xs ++ y ∷ [], refl)

queued_agrees :
    (id k : String) (a : Applied)
    → a.events k ≡ contains k a.order
    → update a.events id true k ≡ contains k (a.order ++ id ∷ [])
unfolding update
queued_agrees id k a h = ground (arith, contains-append k a.order (id ∷ []))

evicted_agrees :
    (x : String) (xs : List String) (events : String → Bool) (k : String)
    → events k ≡ contains k (x ∷ xs)
    → contains x xs ≡ false
    → update events x false k ≡ contains k xs
unfolding update
evicted_agrees x xs events k h fresh = ground (arith, eq_iff x k)

mark_applied-cases :
    (id : String) (a : Applied)
    → length a.order ≤ max_applied_events
    → ((mark_applied id a ≡ queued id a) × (length a.order < max_applied_events))
      ⊎ ((x : String) × (xs : List String) × (length a.order ≡ max_applied_events)
          × (a.order ++ id ∷ [] ≡ x ∷ xs)
          × (mark_applied id a ≡ evicted (update a.events id true) x xs))
unfolding mark_applied forget
mark_applied-cases id a h =
    let grown : length (a.order ++ id ∷ []) ≡ length a.order + 1 =
      length-append a.order (id ∷ []) in
    elim (Bool-cases (leb (length (a.order ++ id ∷ [])) max_applied_events)) [
      | inl fits ↦ inl (rw fits, omega (arith, leb→le, grown))
      | inr full ↦
          let one : length (a.order ++ id ∷ []) - max_applied_events ≡ 1 = ground arith in
          let (x, xs, e) = snoc-cons a.order id in inr (x, xs, ground arith, e, rw (full, one, e))
    ]

-- What was queued is in the set until it is evicted.
pub mark_applied-IsWellFormed :
    (id : String) (a : Applied)
    → a.events id ≡ false
    → IsWellFormed a
    → IsWellFormed (mark_applied id a)
mark_applied-IsWellFormed id a new w =
    let absent : contains id a.order ≡ false = sym (w.agrees id) ∙ new in
    let distinct' : IsDistinct (a.order ++ id ∷ []) =
      IsDistinct-snoc a.order id w.distinct absent in
    let agrees' : (k : String) → update a.events id true k ≡ contains k (a.order ++ id ∷ []) =
      λ k. queued_agrees id k a (w.agrees k) in
    elim (mark_applied-cases id a w.bounded) [
      | inl (e, room) ↦ rw e (record {
        agrees = agrees';
        distinct = distinct';
        bounded = omega (arith, length-append a.order (id ∷ []));
      })
      | inr (x, xs, full, split, e) ↦
          let (fresh, rest) = subst IsDistinct split distinct' in
          rw e (record {
            agrees = λ k.
                evicted_agrees x xs (update a.events id true) k (agrees' k ∙ ap (contains k) split)
                  fresh;
            distinct = rest;
            bounded = omega (arith, w.bounded, length-append a.order (id ∷ []), ap length split);
          })
    ]

-- The id was queued, and at most `k` ids after it.
abbrev pub IsRecent : ℕ → String → Applied → Type 0
IsRecent k id a =
    (older : List String) × (newer : List String) × (a.order ≡ older ++ id ∷ newer)
    × (length newer ≤ k)

pub mark_applied-IsRecent_self :
    (id : String) (a : Applied) → IsWellFormed a → IsRecent 0 id (mark_applied id a)
mark_applied-IsRecent_self id a w = elim (mark_applied-cases id a w.bounded) [
  | inl (e, room) ↦ rw e (a.order, [], refl, omega arith)
  | inr (x, xs, full, split, e) ↦ rw e (last_of x xs a.order full split)
]
  where
    last_of :
        (x : String) (xs order : List String)
        → length order ≡ max_applied_events
        → order ++ id ∷ [] ≡ x ∷ xs
        → (older : List String) × (newer : List String) × (xs ≡ older ++ id ∷ newer)
          × (length newer ≤ 0)
    last_of x xs [] full e = absurd (omega arith)
    last_of x xs (y ∷ ys) full e = (ys, [], cc, omega arith)

pub mark_applied-IsRecent :
    (k : ℕ) (j id : String) (a : Applied)
    → IsWellFormed a
    → k + 1 < max_applied_events
    → IsRecent k id a
    → IsRecent (k + 1) id (mark_applied j a)
mark_applied-IsRecent k j id a w small (older, newer, e, short) =
    let grown : a.order ++ j ∷ [] ≡ older ++ (id ∷ newer ++ j ∷ []) =
      ap (λ l. l ++ j ∷ []) e ∙ append_assoc older (id ∷ newer) (j ∷ []) in
    let short' : length (newer ++ j ∷ []) ≤ k + 1 = omega (arith, length-append newer (j ∷ [])) in
    elim (mark_applied-cases j a w.bounded) [
      | inl (m, room) ↦ rw m (older, newer ++ j ∷ [], grown, short')
      | inr (x, xs, full, split, m) ↦ rw m (tail_of x xs older grown short' full split)
    ]
  where
    tail_of :
        (x : String) (xs older : List String)
        → a.order ++ j ∷ [] ≡ older ++ (id ∷ newer ++ j ∷ [])
        → length (newer ++ j ∷ []) ≤ k + 1
        → length a.order ≡ max_applied_events
        → a.order ++ j ∷ [] ≡ x ∷ xs
        → (front : List String) × (back : List String) × (xs ≡ front ++ id ∷ back)
          × (length back ≤ k + 1)
    tail_of x xs [] grown short' full split =
        absurd (omega (arith, ap length grown, length-append a.order (j ∷ [])))
    tail_of x xs (y ∷ ys) grown short' full split = (ys, newer ++ j ∷ [], cc, short')

-- What is queued is seen.
pub IsRecent-seen :
    (k : ℕ) (id : String) (a : Applied) → IsWellFormed a → IsRecent k id a → a.events id ≡ true
IsRecent-seen k id a w (older, newer, e, short) =
    w.agrees id
    ∙ ap (contains id) e
    ∙ contains-append id older (id ∷ newer)
    ∙ grind (arith, eq_refl id)
