-- ===== src/Money.antt =====
-- The grouping of an amount's digits, order-service/internal/domain/money.go; the other two services
-- have copies of it. A text is the list of its codes.
pub mod Rupees
pub mod Printed
pub mod RoundTrip
pub mod Trimmed
use fund_kit.Base.{
  ℕ, ◌+◌, ◌/◌, ◌<◌, length-append, zero, suc, ◌-◌, ◌%◌, List, [], ◌∷◌, ◌++◌, ◌≡◌, ◌≢◌, refl, sym,
  ap, ◌∙◌, inl, inr, Bool, true, false, not, ◌&&◌, arith, eqb, leb, length, take, drop,
  if◌then◌else◌, Bool-cases,
}

abbrev pub comma : ℕ
comma = b','

-- The loop of `groupIndian` over the head; what is left of it is the digit and those after it.
unfoldable pub group_pairs : Bool → List ℕ → List ℕ
group_pairs first [] = []
group_pairs first (c ∷ cs) =
    let rest = group_pairs false cs in
    if not first && eqb (length (c ∷ cs) % 2) 0 then comma ∷ c ∷ rest else c ∷ rest

unfoldable pub group_indian : List ℕ → List ℕ
unfolding group_pairs
group_indian digits =
    if leb (length digits) 3
    then digits
    else (let k = length digits - 3 in group_pairs true (take k digits) ++ comma ∷ drop k digits)

-- What `ParseRupees` does to separators.
unfoldable pub without_commas : List ℕ → List ℕ
without_commas [] = []
without_commas (c ∷ cs) = let rest = without_commas cs in if eqb c comma then rest else c ∷ rest

abbrev pub HasNoComma : List ℕ → Type 0
HasNoComma [] = Unit
HasNoComma (c ∷ cs) = (c ≢ comma) × HasNoComma cs

without_commas-append :
    (xs ys : List ℕ) → without_commas (xs ++ ys) ≡ without_commas xs ++ without_commas ys
unfolding without_commas
without_commas-append [] ys = refl
without_commas-append (x ∷ xs) ys = ground (arith, without_commas-append xs ys)

without_commas-plain : (xs : List ℕ) → HasNoComma xs → without_commas xs ≡ xs
unfolding without_commas
without_commas-plain [] h = refl
without_commas-plain (x ∷ xs) h =
    let ih = without_commas-plain xs h.1 in let plain : x ≢ comma = h.0 in ground arith

without_commas-group_pairs :
    (first : Bool) (xs : List ℕ) → without_commas (group_pairs first xs) ≡ without_commas xs
unfolding without_commas group_pairs
without_commas-group_pairs first [] = refl
without_commas-group_pairs first (x ∷ xs) =
    let ih = without_commas-group_pairs false xs in
    elim (Bool-cases (not first && eqb (length (x ∷ xs) % 2) 0)) [
      | inl separated ↦ rw separated (ground arith)
      | inr together ↦ rw together (ground arith)
    ]

pub take-drop : (k : ℕ) (xs : List ℕ) → take k xs ++ drop k xs ≡ xs
take-drop zero xs = refl
take-drop (suc k) [] = refl
take-drop (suc k) (x ∷ xs) = ap (λ l. x ∷ l) (take-drop k xs)

-- If a text has no comma, taking the commas out of what `groupIndian` makes of it gives the text
-- back.
pub group_indian-without_commas :
    (digits : List ℕ) → HasNoComma digits → without_commas (group_indian digits) ≡ digits
unfolding group_indian without_commas
group_indian-without_commas digits h = elim (Bool-cases (leb (length digits) 3)) [
  | inl short ↦ rw short (without_commas-plain digits h)
  | inr long ↦
      let k = length digits - 3 in
      let head = group_pairs true (take k digits) in
      rw long (
        without_commas-append head (comma ∷ drop k digits)
        ∙ ap (λ l. l ++ without_commas (comma ∷ drop k digits))
            (without_commas-group_pairs true (take k digits))
        ∙ sym (without_commas-append (take k digits) (drop k digits))
        ∙ ap without_commas (take-drop k digits)
        ∙ without_commas-plain digits h)
]

length-drop : (k : ℕ) (xs : List ℕ) → length (drop k xs) ≡ length xs - k
length-drop zero xs = omega arith
length-drop (suc k) [] = omega arith
length-drop (suc k) (x ∷ xs) = length-drop k xs ∙ omega arith

length-group_pairs_inner : (xs : List ℕ) → length (group_pairs false xs) ≡ length xs + length xs / 2
unfolding group_pairs
length-group_pairs_inner [] = omega arith
length-group_pairs_inner (x ∷ xs) = let ih = length-group_pairs_inner xs in ground arith

length-group_pairs : (xs : List ℕ) → length (group_pairs true xs) ≡ length xs + (length xs - 1) / 2
unfolding group_pairs
length-group_pairs [] = omega arith
length-group_pairs (x ∷ xs) = let ih = length-group_pairs_inner xs in ground arith

-- `groupIndian` leaves a text of at most three characters as long as it is, and makes a longer one
-- longer by half of its length less two, rounded down: one separator before the last three
-- characters and one before each pair in front of them but the first.
pub length-group_indian :
    (digits : List ℕ)
    → length (group_indian digits)
      ≡ length digits + (if leb (length digits) 3 then 0 else (length digits - 2) / 2)
unfolding group_indian
length-group_indian digits = elim (Bool-cases (leb (length digits) 3)) [
  | inl short ↦ rw short (omega arith)
  | inr long ↦
      let k = length digits - 3 in
      let head = length-group_pairs (take k digits) in
      let whole = ap length (take-drop k digits) in
      let big : 3 < length digits = ground arith in
      rw long (
        length-append (group_pairs true (take k digits)) (comma ∷ drop k digits)
        ∙ omega (
          arith,
          head,
          whole,
          length-append (take k digits) (drop k digits),
          length-drop k digits,
        ))
]
