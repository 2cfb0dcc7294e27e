-- ===== src/Examples/Money.antt =====
-- An amount's digits, grouped.
use fund_kit.Base.{[], ◌∷◌, ok, arith, ◌≡◌, refl, codes}
use fund_kit.Base.Int.{negsuc}
use fund_kit.Money.Rupees.{rupee_sign, strip, format, parse_rupees}
use fund_kit.Money.RoundTrip.{parse_rupees-format}
use fund_kit.Money.{group_indian}

-- ₹1,23,45,678
grouped : group_indian (codes "12345678") ≡ codes "1,23,45,678"
unfolding group_indian
grouped = refl

parse_rupees-format_example :
    parse_rupees (format (rupee_sign ∷ []) (negsuc 150049)) ≡ ok (negsuc 150049)
unfolding strip
parse_rupees-format_example =
    parse_rupees-format (rupee_sign ∷ []) (negsuc 150049) (refl, refl) (omega arith, omega arith)
