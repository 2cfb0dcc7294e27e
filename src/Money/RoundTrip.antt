-- ===== src/Money/RoundTrip.antt =====
-- Printing an amount and reading it again (order-service/internal/domain/money.go).
use fund_kit.Base.{
  ℕ, suc, ◌*◌, ◌/◌, ◌%◌, ◌^◌, ◌<◌, ◌≤◌, codes, List, [], ◌∷◌, ◌++◌, some, ◌≡◌, refl, sym, ap, ◌∙◌,
  inl, inr, Bool, true, false, arith, eqb, ok, Bool-cases, eqb_iff,
}
use fund_kit.Base.Int.{ℤ, pos, negsuc, IsInt64, wrap64, wrap64-add, wrap64_id, ◌+ℤ◌, ◌-ℤ◌, sub64}
use fund_kit.Base.Decimal.{is_digit, scan, scan_digits, parse_int, format_int}
use fund_kit.Money.{group_indian}
use fund_kit.Money.Rupees.{
  dot, two_digits, magnitude, format, strip, take_sign, two_places, times_hundred, total_of,
  parse_unsigned, parse_cleaned, parse_rupees,
}
use fund_kit.Money.Printed.{
  all, is_plain, all-append, all_mono, all-group_indian, strip-append, strip-digits,
  strip-group_indian, trim_space-plain, cut-dot, take_sign-format_int, or_zero-format_int,
  format_int-digits, scan_digits-format_int, parse_int-digits,
}

-- What a symbol must be for ParseRupees to take it out again.
abbrev pub IsSymbol : List ℕ → Type 0
IsSymbol symbol = (strip symbol ≡ []) × (all is_plain symbol ≡ true)

digit-plain : (c : ℕ) → is_digit c ≡ true → is_plain c ≡ true
digit-plain c h = ground arith

two_digits-digits : (f : ℕ) → f < 100 → all is_digit (two_digits f) ≡ true
unfolding two_digits
two_digits-digits f h = ground arith

two_digits-parse : (f : ℕ) → f < 100 → parse_int (two_digits f) ≡ some (pos f)
unfolding two_digits scan_digits scan
two_digits-parse f h =
    parse_int-digits (two_digits f) f (two_digits-digits f h) (ground arith) (omega arith)

-- The printed magnitude without separators and symbol.
abbrev bare : ℕ → List ℕ
bare value = format_int (value / 100) ++ dot ∷ two_digits (value % 100)

strip-magnitude :
    (symbol : List ℕ) (value : ℕ) → IsSymbol symbol → strip (magnitude symbol value) ≡ bare value
unfolding magnitude strip
strip-magnitude symbol value h =
    let digits = format_int (value / 100) in
    let tail = two_digits (value % 100) in
    strip-append symbol (group_indian digits ++ dot ∷ tail)
    ∙ ap (λ l. l ++ strip (group_indian digits ++ dot ∷ tail)) h.0
    ∙ strip-append (group_indian digits) (dot ∷ tail)
    ∙ ap (λ l. l ++ strip (dot ∷ tail))
        (strip-group_indian digits (format_int-digits (value / 100)))
    ∙ ap (λ l. digits ++ dot ∷ l)
        (strip-digits tail (two_digits-digits (value % 100) (omega arith)))

magnitude-plain :
    (symbol : List ℕ) (value : ℕ) → IsSymbol symbol → all is_plain (magnitude symbol value) ≡ true
unfolding magnitude
magnitude-plain symbol value h =
    let digits = format_int (value / 100) in
    let tail = two_digits (value % 100) in
    let plain = all_mono is_digit is_plain digits digit-plain (format_int-digits (value / 100)) in
    let ending =
      all_mono is_digit is_plain tail digit-plain (two_digits-digits (value % 100) (omega arith)) in
    let grouped = all-group_indian is_plain digits refl ∙ plain in
    all-append is_plain symbol (group_indian digits ++ dot ∷ tail)
    ∙ rw (h.1, all-append is_plain (group_indian digits) (dot ∷ tail), grouped, ending) refl

parse_unsigned-bare :
    (negative : Bool) (value : ℕ)
    → value ≤ 2 ^ 63
    → parse_unsigned negative (bare value)
      ≡ ok (total_of negative (pos (value / 100)) (pos (value % 100)))
unfolding parse_unsigned two_places two_digits
parse_unsigned-bare negative value h =
    let digits = format_int (value / 100) in
    let tail = two_digits (value % 100) in
    let at = cut-dot digits tail (format_int-digits (value / 100)) in
    let whole =
      parse_int-digits digits (value / 100) (format_int-digits (value / 100))
        (scan_digits-format_int (value / 100) (omega arith)) (omega arith) in
    let fraction = two_digits-parse (value % 100) (omega arith) in
    rw (at, or_zero-format_int (value / 100), whole, fraction) refl

paise : (value : ℕ) → pos (value / 100 * 100) +ℤ pos (value % 100) ≡ pos value
unfolding ◌+ℤ◌
paise value = ground arith

negated_back : (n : ℕ) → n < 2 ^ 63 → sub64 (pos 0) (wrap64 (pos (suc n))) ≡ negsuc n
unfolding wrap64 ◌-ℤ◌
negated_back n h = ground arith

total-positive :
    (value : ℕ)
    → value < 2 ^ 63
    → total_of false (pos (value / 100)) (pos (value % 100)) ≡ pos value
unfolding total_of times_hundred
total-positive value h =
    wrap64-add (pos (value / 100 * 100)) (pos (value % 100))
    ∙ ap wrap64 (paise value)
    ∙ wrap64_id (pos value) (h, omega arith)

total-negative :
    (n : ℕ) → n < 2 ^ 63 → total_of true (pos (suc n / 100)) (pos (suc n % 100)) ≡ negsuc n
unfolding total_of times_hundred
total-negative n h =
    ap (λ z. sub64 (pos 0) z)
      (wrap64-add (pos (suc n / 100 * 100)) (pos (suc n % 100)) ∙ ap wrap64 (paise (suc n)))
    ∙ negated_back n h

parse_rupees-magnitude :
    (symbol : List ℕ) (value : ℕ)
    → IsSymbol symbol
    → value ≤ 2 ^ 63
    → parse_rupees (magnitude symbol value)
      ≡ ok (total_of false (pos (value / 100)) (pos (value % 100)))
unfolding parse_rupees parse_cleaned
parse_rupees-magnitude symbol value h b =
    let trimmed = trim_space-plain (magnitude symbol value) (magnitude-plain symbol value h) in
    let start = take_sign-format_int (value / 100) (dot ∷ two_digits (value % 100)) in
    rw (trimmed, strip-magnitude symbol value h, start.0, start.1)
      (parse_unsigned-bare false value b)

parse_rupees-minus :
    (symbol : List ℕ) (value : ℕ)
    → IsSymbol symbol
    → value ≤ 2 ^ 63
    → parse_rupees (b'-' ∷ magnitude symbol value)
      ≡ ok (total_of true (pos (value / 100)) (pos (value % 100)))
unfolding parse_rupees parse_cleaned strip take_sign
parse_rupees-minus symbol value h b =
    let trimmed =
      trim_space-plain (b'-' ∷ magnitude symbol value) (magnitude-plain symbol value h) in
    let stripped : strip (b'-' ∷ magnitude symbol value) ≡ b'-' ∷ bare value =
      ap (λ l. b'-' ∷ l) (strip-magnitude symbol value h) in
    ap (λ l. parse_cleaned (strip l)) trimmed
    ∙ ap parse_cleaned stripped
    ∙ parse_unsigned-bare true value b

-- The text of the branch for the smallest amount is the one that the general branch prints.
smallest_amount :
    (symbol : List ℕ)
    → symbol ++ (group_indian (codes "92233720368547758") ++ codes ".08")
      ≡ magnitude symbol (2 ^ 63)
unfolding magnitude format_int two_digits
smallest_amount symbol = refl

format-negative :
    (symbol : List ℕ) (n : ℕ) → format symbol (negsuc n) ≡ b'-' ∷ magnitude symbol (suc n)
unfolding format
format-negative symbol n = elim (Bool-cases (eqb (suc n) (2 ^ 63))) [
  | inl smallest ↦
      let same : suc n ≡ 2 ^ 63 = (eqb_iff (suc n) (2 ^ 63)).0 smallest in
      rw smallest (ap (λ l. b'-' ∷ l) (smallest_amount symbol ∙ ap (magnitude symbol) (sym same)))
  | inr other ↦ rw other refl
]

-- `ParseRupees` reads back what `Format` prints: for every 64-bit amount, the smallest included,
-- and every symbol that consists of rupee signs and separators, such as the rupee sign of `String`
-- and the empty one of `Rupee`.
pub parse_rupees-format :
    (symbol : List ℕ) (m : ℤ) → IsSymbol symbol → IsInt64 m → parse_rupees (format symbol m) ≡ ok m
unfolding format
parse_rupees-format symbol (pos n) h b =
    parse_rupees-magnitude symbol n h (omega arith) ∙ ap ok (total-positive n b.0)
parse_rupees-format symbol (negsuc n) h b =
    ap parse_rupees (format-negative symbol n)
    ∙ parse_rupees-minus symbol (suc n) h (omega arith)
    ∙ ap ok (total-negative n (omega arith))
