-- ===== src/Decimal/Scaled.antt =====
-- crates/db-core/src/store/scaled.rs: a decimal as a 64-bit mantissa and a scale.
use reldex.Base.Int.{ℤ, pos, negsuc, ◌+ℤ◌, ◌-ℤ◌, pos_part, neg, is_negative, abs}
use reldex.Base.{
  ℕ, zero, suc, ◌+◌, ◌-◌, ◌*◌, ◌/◌, ◌%◌, ◌^◌, Bool, false, Option, none, some, List, [], ◌∷◌, ◌++◌,
  length, take, drop, replicate, ltb, leb, ◌==◌, if◌then◌else◌,
}
use reldex.Text.{Text, codes}
use reldex.Decimal.Number.{
  Number, zero_number, is_zero, digit_count, from_digits, unwrap_or, ascii, sign,
}

pub record ScaledNumber : Type 0 where
  pub mantissa : ℤ
  pub scale : ℕ

abbrev pub max_scale : ℕ
max_scale = 18

unfoldable pub new : ℤ → ℕ → Option ScaledNumber
new mantissa scale =
    if ltb max_scale scale then none else some (record { mantissa = mantissa; scale = scale })

-- `magnitude = magnitude * 10 + digit` for each digit.
abbrev pub accumulate : ℕ → List ℕ → ℕ
accumulate m [] = m
accumulate m (d ∷ ds) = accumulate (m * 10 + d) ds

-- `for _ in 0..shift { magnitude *= 10; }`
abbrev pub times_ten : ℕ → ℕ → ℕ
times_ten zero m = m
times_ten (suc k) m = times_ten k (m * 10)

-- `i64::try_from`.
abbrev pub fits_i64 : ℤ → Bool
fits_i64 (pos n) = ltb n (2 ^ 63)
fits_i64 (negsuc n) = ltb n (2 ^ 63)

abbrev pub signed : Bool → ℕ → ℤ
signed negative m = if negative then neg m else pos m

abbrev pub exact : ℤ → ℕ → Option ScaledNumber
exact mantissa scale =
    if fits_i64 mantissa then some (record { mantissa = mantissa; scale = scale }) else none

-- A number that is not zero, at the power of ten that its digits are short of the mantissa.
unfoldable pub shifted : Number → ℕ → ℤ → Option ScaledNumber
shifted value scale (negsuc _) = none
shifted value scale (pos shift) =
    if ltb 19 (digit_count value + shift)
    then none
    else exact (signed value.negative (times_ten shift (accumulate 0 value.digits))) scale

unfoldable pub from_number : Number → ℕ → Option ScaledNumber
unfolding shifted ◌-ℤ◌ ◌+ℤ◌
from_number value scale =
    if ltb max_scale scale
    then none
    else if is_zero value
    then some (record { mantissa = pos 0; scale = scale })
    else shifted value scale (value.exponent -ℤ pos (digit_count value) +ℤ pos scale)

unfoldable pub required_scale : Number → Option ℕ
unfolding ◌-ℤ◌
required_scale value =
    let fraction_digits = pos_part (pos (digit_count value) -ℤ value.exponent) in
    if is_zero value
    then some 0
    else if leb fraction_digits max_scale
    then some fraction_digits
    else none

-- The loop of `magnitude_digits` with its reversal: the digits of `rest` in front of `acc`. The
-- array has twenty places.
unfoldable pub digits_onto : ℕ → ℕ → List ℕ → List ℕ
digits_onto zero rest acc = acc
digits_onto (suc places) rest acc =
    let more = digits_onto places (rest / 10) ((rest % 10) ∷ acc) in if rest == 0 then acc else more

unfoldable pub magnitude_digits : ScaledNumber → List ℕ
unfolding digits_onto
magnitude_digits n = digits_onto 20 (abs n.mantissa) []

unfoldable pub to_number : ScaledNumber → Number
unfolding magnitude_digits ◌-ℤ◌
to_number n =
    let digits = magnitude_digits n in
    unwrap_or (from_digits (is_negative n.mantissa) digits (pos (length digits) -ℤ pos n.scale))
      zero_number

-- `digits[len - 1] == 0`.
abbrev pub last_is_zero : List ℕ → Bool
last_is_zero [] = false
last_is_zero (d ∷ []) = d == 0
last_is_zero (d ∷ e ∷ ds) = last_is_zero (e ∷ ds)

abbrev pub init : List ℕ → List ℕ
init [] = []
init (d ∷ []) = []
init (d ∷ e ∷ ds) = d ∷ init (e ∷ ds)

-- `while scale > 0 && digits[len - 1] == 0 { len -= 1; scale -= 1; }`
pub record Trimmed : Type 0 where
  pub digits : List ℕ
  pub scale : ℕ

unfoldable pub trim : List ℕ → ℕ → Trimmed
trim digits zero = record { digits = digits; scale = 0 }
trim digits (suc scale) =
    let rest = trim (init digits) scale in
    if last_is_zero digits then rest else record { digits = digits; scale = suc scale }

unfoldable pub write_scaled : List ℕ → ℕ → Text
write_scaled digits scale =
    if scale == 0
    then ascii digits
    else if ltb scale (length digits)
    then ascii (take (length digits - scale) digits)
      ++ (b'.' ∷ ascii (drop (length digits - scale) digits))
    else codes "0." ++ (replicate (scale - length digits) b'0' ++ ascii digits)

-- `Display` for `ScaledNumber`.
unfoldable pub display : ScaledNumber → Text
unfolding magnitude_digits trim write_scaled
display n =
    let trimmed = trim (magnitude_digits n) n.scale in
    if abs n.mantissa == 0
    then codes "0"
    else sign (is_negative n.mantissa) ++ write_scaled trimmed.digits trimmed.scale
