-- ===== src/Decimal/Integers.antt =====
-- crates/db-driver-api/src/value/number.rs: `from_magnitude` and `to_i128`, whose values are not
-- negative until the sign is put on.
use reldex.Base.Int.{abs, is_negative, ℤ, pos, negsuc, ◌-ℤ◌}
use reldex.Base.{
  ℕ, zero, suc, ◌+◌, ◌*◌, ◌^◌, Bool, Option, none, some, List, [], ◌∷◌, length, ltb, ◌==◌,
  if◌then◌else◌,
}
use reldex.Decimal.Number.{
  Number, Result, ok, err, too_many_digits, zero_number, unwrap_or, is_zero, digit_count,
  strip_trailing, max_significant_digits,
}
use reldex.Decimal.Scaled.{fits_i64, signed, digits_onto}

-- The result of a checked operation on `i128`.
abbrev pub checked : ℕ → Option ℕ
checked n = if ltb n (2 ^ 127) then some n else none

infixl 5 ◌>>=◌
abbrev ◌>>=◌ : Option ℕ → (ℕ → Option ℕ) → Option ℕ
none >>= f = none
some n >>= f = f n

-- `value.checked_mul(10)?.checked_add(digit)?` for each digit.
unfoldable pub checked_accumulate : ℕ → List ℕ → Option ℕ
checked_accumulate m [] = some m
checked_accumulate m (d ∷ ds) = do
  v ← checked (m * 10)
  w ← checked (v + d)
  checked_accumulate w ds

unfoldable pub checked_times_ten : ℕ → ℕ → Option ℕ
checked_times_ten zero m = some m
checked_times_ten (suc k) m = do v ← checked (m * 10); checked_times_ten k v

-- The magnitude of digits with `k` places behind them.
unfoldable pub checked_magnitude : List ℕ → ℕ → Option ℕ
unfolding checked_accumulate checked_times_ten
checked_magnitude digits k = checked_accumulate 0 digits >>= checked_times_ten k

abbrev pub put_sign : Bool → Option ℕ → Option ℤ
put_sign negative none = none
put_sign negative (some v) = some (signed negative v)

abbrev pub integer : Bool → List ℕ → ℤ → Option ℤ
integer negative digits (negsuc _) = none
integer negative digits (pos k) = put_sign negative (checked_magnitude digits k)

unfoldable pub to_i128 : Number → Option ℤ
unfolding checked_magnitude ◌-ℤ◌
to_i128 n =
    if is_zero n
    then some (pos 0)
    else integer n.negative n.digits (n.exponent -ℤ pos (digit_count n))

unfoldable pub from_magnitude : ℕ → Bool → Result Number
unfolding digits_onto
from_magnitude magnitude negative =
    let digits = digits_onto 39 magnitude [] in
    let significant = strip_trailing digits in
    if magnitude == 0
    then ok zero_number
    else if ltb max_significant_digits (length significant)
    then err too_many_digits
    else ok (record { digits = significant; exponent = pos (length digits); negative = negative })

-- `i64::try_from`.
abbrev pub try_i64 : Option ℤ → Option ℤ
try_i64 none = none
try_i64 (some v) = if fits_i64 v then some v else none

unfoldable pub to_i64 : Number → Option ℤ
unfolding to_i128
to_i64 n = try_i64 (to_i128 n)

-- `From<i64>`, and the narrower signed types.
unfoldable pub from_i64 : ℤ → Number
unfolding from_magnitude
from_i64 v = unwrap_or (from_magnitude (abs v) (is_negative v)) zero_number
