-- ===== src/Money/Printed.antt =====
-- The texts that `Format` prints, character by character
-- (order-service/internal/domain/money.go).
use fund_kit.Base.{
  ℕ, zero, suc, ◌+◌, ◌-◌, ◌/◌, ◌%◌, ◌^◌, ◌<◌, List, [], ◌∷◌, ◌++◌, some, ◌≡◌, refl, sym, ap, ◌∙◌,
  ◌≢◌, inl, inr, Bool, true, false, not, ◌&&◌, arith, eqb, ltb, leb, length, take, drop, Bool-cases,
  if◌then◌else◌,
}
use fund_kit.Base.Int.{pos}
use fund_kit.Base.Text.{is_space_code}
use fund_kit.Base.Decimal.{
  is_digit, scan, scan_digits, parse_int, non_negative, digits_from, format_int, scan-digits_from,
}
use fund_kit.Money.{
  comma, group_pairs, group_indian, without_commas, HasNoComma, group_indian-without_commas,
  take-drop,
}
use fund_kit.Money.Rupees.{
  dot, strip, is_stripped, cut, trim_space, trim_left, trim_right, add_trimmed, or_zero, is_empty,
  take_sign,
}

abbrev pub all : (ℕ → Bool) → List ℕ → Bool
all p [] = true
all p (c ∷ cs) = p c && all p cs

abbrev pub is_plain : ℕ → Bool
is_plain c = not (is_space_code c)

both : (a b : Bool) → (a && b) ≡ true → (a ≡ true) × (b ≡ true)
both true b h = (refl, h)
both false b h = absurd (cc)

pub all-append : (p : ℕ → Bool) (xs ys : List ℕ) → all p (xs ++ ys) ≡ (all p xs && all p ys)
all-append p [] ys = refl
all-append p (x ∷ xs) ys = let ih = all-append p xs ys in ground arith

pub all_mono :
    (p q : ℕ → Bool) (xs : List ℕ)
    → ((c : ℕ) → p c ≡ true → q c ≡ true)
    → all p xs ≡ true
    → all q xs ≡ true
all_mono p q [] h e = refl
all_mono p q (x ∷ xs) h e =
    let (here, there) = both (p x) (all p xs) e in rw (h x here) (all_mono p q xs h there)

all-group_pairs :
    (p : ℕ → Bool) (first : Bool) (xs : List ℕ)
    → p comma ≡ true
    → all p (group_pairs first xs) ≡ all p xs
unfolding group_pairs
all-group_pairs p first [] h = refl
all-group_pairs p first (x ∷ xs) h =
    let ih = all-group_pairs p false xs h in
    elim (Bool-cases (not first && eqb (length (x ∷ xs) % 2) 0)) [
      | inl separated ↦ rw (separated, h, ih) refl
      | inr together ↦ rw (together, ih) refl
    ]

pub all-group_indian :
    (p : ℕ → Bool) (xs : List ℕ) → p comma ≡ true → all p (group_indian xs) ≡ all p xs
unfolding group_indian
all-group_indian p xs h = elim (Bool-cases (leb (length xs) 3)) [
  | inl short ↦ rw short refl
  | inr long ↦
      let k = length xs - 3 in
      let head = all-group_pairs p true (take k xs) h in
      rw long (
        all-append p (group_pairs true (take k xs)) (comma ∷ drop k xs)
        ∙ rw (head, h) refl
        ∙ sym (all-append p (take k xs) (drop k xs))
        ∙ ap (all p) (take-drop k xs))
]

pub strip-append : (xs ys : List ℕ) → strip (xs ++ ys) ≡ strip xs ++ strip ys
unfolding strip
strip-append [] ys = refl
strip-append (x ∷ xs) ys = elim (Bool-cases (is_stripped x)) [
  | inl gone ↦ rw gone (strip-append xs ys)
  | inr kept ↦ rw kept (ap (λ l. x ∷ l) (strip-append xs ys))
]

digit-kept : (c : ℕ) → is_digit c ≡ true → is_stripped c ≡ false
digit-kept c h = ground arith

pub strip-digits : (xs : List ℕ) → all is_digit xs ≡ true → strip xs ≡ xs
unfolding strip
strip-digits [] h = refl
strip-digits (x ∷ xs) h =
    let (here, there) = both (is_digit x) (all is_digit xs) h in
    rw (digit-kept x here) (ap (λ l. x ∷ l) (strip-digits xs there))

strip-commas : (xs : List ℕ) → strip (without_commas xs) ≡ strip xs
unfolding strip without_commas
strip-commas [] = refl
strip-commas (x ∷ xs) = elim (Bool-cases (eqb x comma)) [
  | inl gone ↦ rw gone (strip-commas xs)
  | inr kept ↦
      let step : without_commas (x ∷ xs) ≡ x ∷ without_commas xs = rw kept refl in
      ap strip step ∙ ap (λ l. if is_stripped x then l else x ∷ l) (strip-commas xs)
]

digits-HasNoComma : (xs : List ℕ) → all is_digit xs ≡ true → HasNoComma xs
digits-HasNoComma [] h = tt
digits-HasNoComma (x ∷ xs) h =
    let (here, there) = both (is_digit x) (all is_digit xs) h in
    let differs : x ≢ comma = λ e. ground arith in (differs, digits-HasNoComma xs there)

-- Taking the separators out of a grouped number gives its digits back.
pub strip-group_indian : (xs : List ℕ) → all is_digit xs ≡ true → strip (group_indian xs) ≡ xs
strip-group_indian xs h =
    sym (strip-commas (group_indian xs))
    ∙ ap strip (group_indian-without_commas xs (digits-HasNoComma xs h))
    ∙ strip-digits xs h

not-true : (b : Bool) → not b ≡ true → b ≡ false
not-true false h = refl
not-true true h = absurd (cc)

-- A text without white space is trimmed to itself.
trim_left-plain : (xs : List ℕ) → all is_plain xs ≡ true → trim_left xs ≡ xs
trim_left-plain [] h = refl
trim_left-plain (x ∷ xs) h =
    let (here, there) = both (is_plain x) (all is_plain xs) h in
    rw (not-true (is_space_code x) here) refl

add_trimmed-plain : (c : ℕ) (cs : List ℕ) → is_plain c ≡ true → add_trimmed c cs ≡ c ∷ cs
add_trimmed-plain c [] h = rw (not-true (is_space_code c) h) refl
add_trimmed-plain c (d ∷ ds) h = refl

trim_right-plain : (xs : List ℕ) → all is_plain xs ≡ true → trim_right xs ≡ xs
trim_right-plain [] h = refl
trim_right-plain (x ∷ xs) h =
    let (here, there) = both (is_plain x) (all is_plain xs) h in
    ap (add_trimmed x) (trim_right-plain xs there) ∙ add_trimmed-plain x xs here

pub trim_space-plain : (xs : List ℕ) → all is_plain xs ≡ true → trim_space xs ≡ xs
trim_space-plain xs h = ap trim_right (trim_left-plain xs h) ∙ trim_right-plain xs h

-- Cutting at the point.
pub cut-dot : (xs ys : List ℕ) → all is_digit xs ≡ true → cut (xs ++ dot ∷ ys) ≡ (xs, some ys)
unfolding cut
cut-dot [] ys h = refl
cut-dot (x ∷ xs) ys h =
    let (here, there) = both (is_digit x) (all is_digit xs) h in
    let other : eqb x dot ≡ false = ground arith in rw (other, cut-dot xs ys there) refl

-- The digits of a number, and the number that they are read as.
digits_from-digits :
    (fuel n : ℕ) (text : List ℕ)
    → all is_digit text ≡ true
    → all is_digit (digits_from fuel n text) ≡ true
unfolding digits_from
digits_from-digits zero n text h = h
digits_from-digits (suc fuel) n text h =
    let last : ltb n 10 ≡ true → is_digit (b'0' + n) ≡ true = λ e. ground arith in
    let next : is_digit (b'0' + n % 10) ≡ true = ground arith in
    elim (Bool-cases (ltb n 10)) [
      | inl e ↦ rw (e, last e) h
      | inr e ↦ rw e (digits_from-digits fuel (n / 10) ((b'0' + n % 10) ∷ text) (rw next h))
    ]

pub format_int-digits : (n : ℕ) → all is_digit (format_int n) ≡ true
unfolding format_int
format_int-digits n = digits_from-digits 19 n [] refl

is_cons : List ℕ → Bool
is_cons [] = false
is_cons (c ∷ cs) = true

digits_from-is_cons :
    (fuel n : ℕ) (text : List ℕ) → is_cons text ≡ true → is_cons (digits_from fuel n text) ≡ true
unfolding digits_from is_cons
digits_from-is_cons zero n text h = h
digits_from-is_cons (suc fuel) n text h = elim (Bool-cases (ltb n 10)) [
  | inl e ↦ rw e refl
  | inr e ↦ rw e (digits_from-is_cons fuel (n / 10) ((b'0' + n % 10) ∷ text) refl)
]

scan_digits-scan : (xs : List ℕ) → is_cons xs ≡ true → scan_digits xs ≡ scan 0 xs
unfolding scan_digits is_cons
scan_digits-scan [] h = absurd (cc)
scan_digits-scan (x ∷ xs) h = refl

format_int-is_cons : (n : ℕ) → is_cons (format_int n) ≡ true
unfolding format_int digits_from is_cons
format_int-is_cons n = elim (Bool-cases (ltb n 10)) [
  | inl e ↦ rw e refl
  | inr e ↦ rw e (digits_from-is_cons 18 (n / 10) ((b'0' + n % 10) ∷ []) refl)
]

or_zero-is_cons : (xs : List ℕ) → is_cons xs ≡ true → or_zero xs ≡ xs
unfolding is_cons
or_zero-is_cons [] h = absurd (cc)
or_zero-is_cons (x ∷ xs) h = refl

pub or_zero-format_int : (n : ℕ) → or_zero (format_int n) ≡ format_int n
or_zero-format_int n = or_zero-is_cons (format_int n) (format_int-is_cons n)

-- A text that starts with a digit is not empty and has no sign.
take_sign-digits :
    (xs ys : List ℕ)
    → is_cons xs ≡ true
    → all is_digit xs ≡ true
    → (is_empty (xs ++ ys) ≡ false) × (take_sign (xs ++ ys) ≡ (false, xs ++ ys))
unfolding is_cons take_sign
take_sign-digits [] ys c h = absurd (cc)
take_sign-digits (x ∷ xs) ys c h =
    let (here, there) = both (is_digit x) (all is_digit xs) h in
    let minus : eqb x b'-' ≡ false = ground arith in
    let plus : eqb x b'+' ≡ false = ground arith in (refl, rw (minus, plus) refl)

pub take_sign-format_int :
    (n : ℕ) (ys : List ℕ)
    → (is_empty (format_int n ++ ys) ≡ false)
      × (take_sign (format_int n ++ ys) ≡ (false, format_int n ++ ys))
take_sign-format_int n ys =
    take_sign-digits (format_int n) ys (format_int-is_cons n) (format_int-digits n)

pub scan_digits-format_int : (n : ℕ) → n < 10 ^ 19 → scan_digits (format_int n) ≡ some n
unfolding format_int scan
scan_digits-format_int n h =
    scan_digits-scan (format_int n) (format_int-is_cons n) ∙ scan-digits_from 19 n [] h

pub parse_int-digits :
    (xs : List ℕ) (n : ℕ)
    → all is_digit xs ≡ true
    → scan_digits xs ≡ some n
    → n < 2 ^ 63
    → parse_int xs ≡ some (pos n)
unfolding parse_int scan_digits non_negative
parse_int-digits [] n h e b = absurd (cc)
parse_int-digits (x ∷ xs) n h e b =
    let (here, there) = both (is_digit x) (all is_digit xs) h in
    let minus : eqb x b'-' ≡ false = ground arith in
    let plus : eqb x b'+' ≡ false = ground arith in
    let small : ltb n (2 ^ 63) ≡ true = ground arith in rw (minus, plus, e, small) refl
