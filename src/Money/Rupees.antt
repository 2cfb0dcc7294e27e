-- ===== src/Money/Rupees.antt =====
-- `Format` and `ParseRupees`, order-service/internal/domain/money.go; the other two services have
-- copies of them. An amount is a 64-bit count of paise.
use fund_kit.Base.Decimal.{scan}
use fund_kit.Base.{
  ◌≡◌, refl, ℕ, suc, ◌+◌, ◌*◌, ◌/◌, ◌%◌, ◌^◌, codes, List, [], ◌∷◌, ◌++◌, Option, none, some, Bool,
  true, false, ◌||◌, eqb, if◌then◌else◌, Result, ok, err, ◌>>=◌,
}
use fund_kit.Base.Int.{ℤ, pos, negsuc, ◌+ℤ◌, ◌-ℤ◌, wrap64, add64, sub64}
use fund_kit.Base.Text.{is_space_code}
use fund_kit.Base.Decimal.{parse_int, format_int, negated}
use fund_kit.Money.{comma, group_indian}

-- `ErrInvalidAmount`, which every error of `ParseRupees` wraps.
pub data MoneyError : Type 0 where
  invalid_amount : MoneyError

abbrev pub paise_per_rupee : ℕ
paise_per_rupee = 100

abbrev pub rupee_sign : ℕ
rupee_sign = 0x20b9

abbrev pub dot : ℕ
dot = b'.'

-- `%02d`, of a number below 100.
unfoldable pub two_digits : ℕ → List ℕ
two_digits f = (b'0' + f / 10) ∷ (b'0' + f % 10) ∷ []

-- The amount without its sign.
unfoldable pub magnitude : List ℕ → ℕ → List ℕ
magnitude symbol value =
    symbol
    ++ (group_indian (format_int (value / paise_per_rupee))
        ++ dot ∷ two_digits (value % paise_per_rupee))

unfoldable pub format : List ℕ → ℤ → List ℕ
unfolding magnitude
format symbol (pos n) = magnitude symbol n
format symbol (negsuc n) =
    if eqb (suc n) (2 ^ 63)
    then b'-' ∷ (symbol ++ (group_indian (codes "92233720368547758") ++ codes ".08"))
    else b'-' ∷ magnitude symbol (suc n)

-- `String` and `Rupee`.
unfoldable pub string : ℤ → List ℕ
unfolding format
string m = format (rupee_sign ∷ []) m

unfoldable pub rupee : ℤ → List ℕ
unfolding format
rupee m = format [] m

abbrev pub trim_left : List ℕ → List ℕ
trim_left [] = []
trim_left (c ∷ cs) = let rest = trim_left cs in if is_space_code c then rest else c ∷ cs

abbrev pub add_trimmed : ℕ → List ℕ → List ℕ
add_trimmed c [] = if is_space_code c then [] else c ∷ []
add_trimmed c (d ∷ ds) = c ∷ d ∷ ds

abbrev pub trim_right : List ℕ → List ℕ
trim_right [] = []
trim_right (c ∷ cs) = add_trimmed c (trim_right cs)

-- `strings.TrimSpace`.
abbrev pub trim_space : List ℕ → List ℕ
trim_space text = trim_right (trim_left text)

abbrev pub is_stripped : ℕ → Bool
is_stripped c = eqb c comma || eqb c rupee_sign || eqb c b' '

-- The replacer, which takes separators, rupee signs and blanks out.
unfoldable pub strip : List ℕ → List ℕ
strip [] = []
strip (c ∷ cs) = let rest = strip cs in if is_stripped c then rest else c ∷ rest

-- Whether there was a minus, and the text without its first sign.
unfoldable pub take_sign : List ℕ → Bool × List ℕ
take_sign [] = (false, [])
take_sign (c ∷ cs) =
    if eqb c b'-' then (true, cs) else (if eqb c b'+' then (false, cs) else (false, c ∷ cs))

-- `strings.Cut(text, ".")`.
unfoldable pub cut : List ℕ → List ℕ × Option (List ℕ)
cut [] = ([], none)
cut (c ∷ cs) =
    let (before, after) = cut cs in if eqb c dot then ([], some cs) else (c ∷ before, after)

abbrev pub or_zero : List ℕ → List ℕ
or_zero [] = b'0' ∷ []
or_zero (c ∷ cs) = c ∷ cs

-- The paise part, brought to two digits; a longer one is refused.
unfoldable pub two_places : Option (List ℕ) → Result MoneyError (List ℕ)
two_places none = ok (b'0' ∷ b'0' ∷ [])
two_places (some []) = ok (b'0' ∷ b'0' ∷ [])
two_places (some (a ∷ [])) = ok (a ∷ b'0' ∷ [])
two_places (some (a ∷ b ∷ [])) = ok (a ∷ b ∷ [])
two_places (some (a ∷ b ∷ c ∷ cs)) = err invalid_amount

abbrev pub number : Option ℤ → Result MoneyError ℤ
number none = err invalid_amount
number (some z) = ok z

-- `z * 100` on `int64`.
unfoldable pub times_hundred : ℤ → ℤ
times_hundred (pos n) = wrap64 (pos (n * 100))
times_hundred (negsuc n) = wrap64 (negated (suc n * 100))

unfoldable pub total_of : Bool → ℤ → ℤ → ℤ
unfolding times_hundred
total_of negative whole fraction =
    let total = add64 (times_hundred whole) fraction in
    if negative then sub64 (pos 0) total else total

unfoldable pub parse_unsigned : Bool → List ℕ → Result MoneyError ℤ
unfolding two_places total_of cut
parse_unsigned negative text = do
  let (before, after) = cut text
  fraction ← two_places after
  whole_value ← number (parse_int (or_zero before))
  fraction_value ← number (parse_int fraction)
  ok (total_of negative whole_value fraction_value)

abbrev pub is_empty : List ℕ → Bool
is_empty [] = true
is_empty (c ∷ cs) = false

-- `ParseRupees` after the replacer.
unfoldable pub parse_cleaned : List ℕ → Result MoneyError ℤ
unfolding parse_unsigned take_sign
parse_cleaned cleaned =
    let (negative, unsigned) = take_sign cleaned in
    let parsed = parse_unsigned negative unsigned in
    if is_empty cleaned then err invalid_amount else parsed

unfoldable pub parse_rupees : List ℕ → Result MoneyError ℤ
unfolding parse_cleaned strip
parse_rupees text = parse_cleaned (strip (trim_space text))

printed_test : format (rupee_sign ∷ []) (pos 123456789) ≡ codes "₹12,34,567.89"
unfolding format group_indian format_int two_digits
printed_test = refl

parsed_test : parse_rupees (codes " -₹1,500.5 ") ≡ ok (negsuc 150049)
unfolding parse_rupees parse_int wrap64 scan ◌-ℤ◌ ◌+ℤ◌
parsed_test = refl

-- A second sign is taken for one of the number.
signs_test : parse_rupees (codes "--5") ≡ ok (pos 500)
unfolding parse_rupees parse_int wrap64 scan ◌-ℤ◌ ◌+ℤ◌
signs_test = refl
