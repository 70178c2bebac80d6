-- ===== src/Samples/Decimals.antt =====
-- Runs of the decimal forms.
use reldex.Base.Int.{pos, negsuc, ◌-ℤ◌, ◌+ℤ◌}
use reldex.Base.{ℕ, ◌^◌, ◌≤◌, ◌≡◌, refl, true, false, [], ◌∷◌, ◌++◌, some, none, arith, ◌↔◌}
use reldex.Text.{codes, trim_start, trim_end, is_whitespace}
use reldex.Decimal.Number.{Number, ok, err, invalid_syntax, check_exponent, from_digits}
use reldex.Decimal.Scaled.{
  signed, digits_onto, ScaledNumber, new, from_number, required_scale, to_number,
}
use reldex.Decimal.Parse.{
  parse, parse_unsigned, take_digits, take_fraction, take_exponent, exponent_digits, from_parts,
  keep_digits, from_kept,
}
use reldex.Decimal.ParseDisplay.{parse-display}
use Prim.Native.Nat.{Ordering}
use reldex.Decimal.Order.{cmp_magnitude, cmp}
use reldex.Decimal.OrderLaws.{cmp_iff}
use reldex.Decimal.OrderValues.{compare_ℤ, cmp-mantissa_of}
use reldex.Decimal.Integers.{to_i64, from_i64, to_i128, from_magnitude, checked_accumulate}
use reldex.Decimal.IntegersBack.{to_i64-from_i64, to_i128-from_magnitude}
use reldex.Decimal.Number
use reldex.Decimal.Scaled
use reldex.Decimal.Digits.{zeros}
use reldex.Decimal.Canonical.{IsNormal, from_digits-IsNormal, from_digits_body}
use reldex.Decimal.Mantissa.{IsScaled}
use reldex.Decimal.RoundTrip.{from_number-to_number}
use reldex.Decimal.Exact.{mantissa_of, from_number_iff}
use reldex.Decimal.Required.{from_number-required_scale}
use reldex.Decimal.Display.{display-to_number}

-- -1.50, at the scale of two places.
abbrev price : ScaledNumber
price = record { mantissa = negsuc 149; scale = 2 }

-- -1.5.
abbrev pub price_number : Number
price_number = record { digits = 1 ∷ 5 ∷ []; exponent = pos 1; negative = true }

price_text : Scaled.display price ≡ codes "-1.5"
unfolding Scaled.display
price_text = refl

number_texts :
    (Number.display price_number ≡ codes "-1.5")
    × (Number.display (record { digits = 7 ∷ []; exponent = negsuc 1; negative = false })
        ≡ codes "0.007")
    × (Number.display (record { digits = 1 ∷ 2 ∷ []; exponent = pos 4; negative = false })
        ≡ codes "1200")
unfolding Number.display
number_texts = (refl, refl, refl)

price_value : to_number price ≡ price_number
unfolding to_number from_digits
price_value = refl

no_such_scale : new (pos 1) 19 ≡ none
unfolding new
no_such_scale = refl

price_found : from_number price_number 2 ≡ some price
unfolding from_number
price_found = refl

price_scale : required_scale price_number ≡ some 1
unfolding required_scale
price_scale = refl

zeros_trimmed : from_digits true (0 ∷ 1 ∷ 5 ∷ 0 ∷ []) (pos 2) ≡ ok price_number
unfolding from_digits
zeros_trimmed = refl

pub price_number-IsNormal : IsNormal price_number
price_number-IsNormal =
    ((omega arith, (omega arith, (omega arith, tt)), refl), omega arith, (omega arith, omega arith))

price-IsScaled : IsScaled price
price-IsScaled = (refl, omega arith)

from_digits_body_example :
    from_digits true (zeros 1 ++ ((1 ∷ 5 ∷ []) ++ zeros 1)) (pos 2) ≡ ok price_number
unfolding ◌-ℤ◌
from_digits_body_example =
    from_digits_body true 1 (1 ∷ 5 ∷ []) 1 (pos 2) price_number-IsNormal.0 (omega arith)
      (omega arith, omega arith)

from_digits-IsNormal_example : IsNormal price_number
from_digits-IsNormal_example =
    from_digits-IsNormal true (0 ∷ 1 ∷ 5 ∷ 0 ∷ []) (pos 2) price_number zeros_trimmed

from_number-to_number_example : from_number (to_number price) 2 ≡ some price
from_number-to_number_example = from_number-to_number price price-IsScaled

from_number_iff_example :
    (from_number price_number 2 ≡ some price)
    ↔ (IsScaled price × (price.scale ≡ 2) × (to_number price ≡ price_number))
from_number_iff_example = from_number_iff price_number 2 price price_number-IsNormal

from_number-required_scale_example :
    (r : ℕ) × (required_scale price_number ≡ some r)
    × (r ≤ 2)
    × ((y : ScaledNumber) × (from_number price_number r ≡ some y))
from_number-required_scale_example = from_number-required_scale price_number 2 price price_found

display-to_number_example : Scaled.display price ≡ Number.display (to_number price)
display-to_number_example = display-to_number price price-IsScaled

parse-display_example : parse (Number.display price_number) ≡ ok price_number
parse-display_example = parse-display price_number price_number-IsNormal

parsed :
    (parse (codes " -0150.0e-2 ") ≡ ok price_number)
    × (parse (codes "1.") ≡ ok (record { digits = 1 ∷ []; exponent = pos 1; negative = false }))
    × (parse (codes ".") ≡ err invalid_syntax)
    × (parse (codes "1e1234567") ≡ err invalid_syntax)
unfolding parse parse_unsigned take_digits take_fraction take_exponent exponent_digits from_parts
    keep_digits from_kept check_exponent ◌-ℤ◌ ◌+ℤ◌ trim_start trim_end is_whitespace
parsed = (refl, refl, refl, refl)

to_i128-from_magnitude_example :
    (n : Number) × (from_magnitude 1500 true ≡ ok n)
    × IsNormal n
    × (to_i128 n ≡ some (signed true 1500))
to_i128-from_magnitude_example = to_i128-from_magnitude true 1500 (omega arith)

-- -2^127 becomes a number, which is not read back: its magnitude does not fit in `i128`.
least_i128 : elim (from_magnitude (2 ^ 127) true) [ ok n ↦ to_i128 n | err e ↦ some (pos 0) ] ≡ none
unfolding from_magnitude to_i128 checked_accumulate
least_i128 = refl

abbrev cent : Number
cent = record { digits = 1 ∷ []; exponent = negsuc 0; negative = false }

cent-IsNormal : IsNormal cent
cent-IsNormal = ((omega arith, (omega arith, tt), refl), omega arith, (omega arith, omega arith))

-- In hundredths, -1.5 is -150 and the cent is 1.
cmp-mantissa_of_example :
    cmp price_number cent ≡ compare_ℤ (mantissa_of price_number 1) (mantissa_of cent 0)
unfolding ◌-ℤ◌ ◌+ℤ◌
cmp-mantissa_of_example =
    cmp-mantissa_of price_number cent 2 1 0 price_number-IsNormal cent-IsNormal refl refl

cmp_iff_example : (cmp price_number price_number ≡ Ordering.eq) ↔ (price_number ≡ price_number)
cmp_iff_example = cmp_iff price_number price_number price_number-IsNormal price_number-IsNormal

ordered :
    (cmp price_number cent ≡ Ordering.lt)
    × (cmp cent (record { digits = 1 ∷ 5 ∷ []; exponent = negsuc 0; negative = false })
        ≡ Ordering.lt)
unfolding cmp cmp_magnitude
ordered = (refl, refl)

to_i64-from_i64_example :
    IsNormal (from_i64 (negsuc 9223372036854775807))
    × (to_i64 (from_i64 (negsuc 9223372036854775807)) ≡ some (negsuc 9223372036854775807))
to_i64-from_i64_example = to_i64-from_i64 (negsuc 9223372036854775807) refl
