-- ===== src/Base/Decimal.antt =====
-- Go's package strconv on decimal texts, a text being the list of its codes.
use fund_kit.Base.{
  ℕ, zero, suc, ◌+◌, ◌-◌, ◌*◌, ◌/◌, ◌%◌, ◌^◌, ◌<◌, List, [], ◌∷◌, Option, none, some, ◌≡◌, refl,
  ◌∙◌, ap, Bool, true, ◌&&◌, ◌||◌, arith, eqb, ltb, leb, if◌then◌else◌, Bool-cases, ltb→lt, inl,
  inr,
}
use fund_kit.Base.Int.{ℤ, pos, negsuc}

abbrev pub is_digit : ℕ → Bool
is_digit c = leb b'0' c && leb c b'9'

-- The number that the digits make, after `read` has been read.
unfoldable pub scan : ℕ → List ℕ → Option ℕ
scan read [] = some read
scan read (c ∷ cs) =
    let rest = scan (10 * read + (c - b'0')) cs in if is_digit c then rest else none

-- At least one digit.
unfoldable pub scan_digits : List ℕ → Option ℕ
scan_digits [] = none
scan_digits (c ∷ cs) = scan 0 (c ∷ cs)

abbrev pub negated : ℕ → ℤ
negated zero = pos 0
negated (suc n) = negsuc n

-- The range of `int64`.
unfoldable pub non_negative : Option ℕ → Option ℤ
non_negative none = none
non_negative (some n) = if ltb n (2 ^ 63) then some (pos n) else none

unfoldable pub negative : Option ℕ → Option ℤ
negative none = none
negative (some n) = if leb n (2 ^ 63) then some (negated n) else none

-- `strconv.ParseInt(text, 10, 64)`, and `strconv.Atoi`.
unfoldable pub parse_int : List ℕ → Option ℤ
unfolding scan_digits non_negative negative
parse_int [] = none
parse_int (c ∷ cs) =
    if eqb c b'-'
    then negative (scan_digits cs)
    else (if eqb c b'+' then non_negative (scan_digits cs) else non_negative (scan_digits (c ∷ cs)))

-- The digits of a number in front of a text; one unit of fuel is one digit.
unfoldable pub digits_from : ℕ → ℕ → List ℕ → List ℕ
digits_from zero n text = text
digits_from (suc fuel) n text =
    let more = digits_from fuel (n / 10) ((b'0' + n % 10) ∷ text) in
    if ltb n 10 then (b'0' + n) ∷ text else more

-- `strconv.FormatInt(n, 10)` on a non-negative `int64`, which has 19 digits at most.
unfoldable pub format_int : ℕ → List ℕ
unfolding digits_from
format_int n = digits_from 19 n []

scan-digit :
    (read n : ℕ) (text : List ℕ)
    → n < 10
    → scan read ((b'0' + n) ∷ text) ≡ scan (10 * read + n) text
unfolding scan
scan-digit read n text h =
    let digit : is_digit (b'0' + n) ≡ true = ground arith in
    let value : b'0' + n - b'0' ≡ n = omega arith in rw (digit, value) refl

-- Enough fuel writes all the digits.
pub scan-digits_from :
    (fuel n : ℕ) (text : List ℕ) → n < 10 ^ fuel → scan 0 (digits_from fuel n text) ≡ scan n text
unfolding digits_from
scan-digits_from zero n text h = ap (λ k. scan k text) (omega arith)
scan-digits_from (suc fuel) n text h = elim (Bool-cases (ltb n 10)) [
  | inl last ↦
      rw last (scan-digit 0 n text (ltb→lt n 10 last) ∙ ap (λ k. scan k text) (omega arith))
  | inr more ↦ rw more (
      scan-digits_from fuel (n / 10) ((b'0' + n % 10) ∷ text) (omega arith)
      ∙ scan-digit (n / 10) (n % 10) text (omega arith)
      ∙ ap (λ k. scan k text) (omega arith))
]

take_digits : List ℕ → List ℕ
take_digits [] = []
take_digits (c ∷ cs) = let rest = take_digits cs in if is_digit c then c ∷ rest else []

-- `fmt.Sscanf(text, "%d", &n)`, on a text without white space in front: a sign and the digits behind
-- it; what follows them is not read.
unfoldable pub scan_int : List ℕ → Option ℤ
unfolding parse_int take_digits
scan_int [] = none
scan_int (c ∷ cs) =
    if eqb c b'-' || eqb c b'+'
    then parse_int (c ∷ take_digits cs)
    else parse_int (take_digits (c ∷ cs))
