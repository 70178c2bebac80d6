-- ===== src/Decimal/Parse.antt =====
-- crates/db-driver-api/src/value/number.rs: `Number::parse`, on the code points of a text. A byte
-- above ASCII is no digit, sign, point or `e`, and neither is a code point.
use reldex.Base.Int.{ℤ, pos, ◌+ℤ◌, ◌-ℤ◌, neg}
use reldex.Base.{
  ℕ, zero, suc, ◌+◌, ◌-◌, Bool, true, false, ◌||◌, List, [], ◌∷◌, ◌++◌, length, drop, ltb, ◌==◌,
  if◌then◌else◌,
}
use reldex.Text.{Text, is_ascii_digit, trim}
use reldex.Decimal.Number.{
  Number, Result, ok, err, ◌>>=◌, empty, invalid_syntax, too_many_digits, zero_number, count_zeros,
  strip_trailing, check_exponent, max_significant_digits,
}
use reldex.Decimal.Scaled.{accumulate}

-- The values of the digits that a text begins with, and what is behind them.
pub record Digits : Type 0 where
  pub values : List ℕ
  pub rest : Text

unfoldable pub take_digits : Text → Digits
take_digits [] = record { values = []; rest = [] }
take_digits (c ∷ t) =
    let later = take_digits t in
    if is_ascii_digit c
    then record { values = (c - b'0') ∷ later.values; rest = later.rest }
    else record { values = []; rest = c ∷ t }

-- A sign, if there is one.
pub record Signed : Type 0 where
  pub negative : Bool
  pub rest : Text

abbrev pub take_sign : Text → Signed
take_sign [] = record { negative = false; rest = [] }
take_sign (c ∷ t) =
    if c == b'-'
    then record { negative = true; rest = t }
    else if c == b'+'
    then record { negative = false; rest = t }
    else record { negative = false; rest = c ∷ t }

unfoldable pub take_fraction : Text → Digits
unfolding take_digits
take_fraction [] = record { values = []; rest = [] }
take_fraction (c ∷ t) = if c == b'.' then take_digits t else record { values = []; rest = c ∷ t }

-- The exponent behind `e` or `E`, which ends the text; without one, the text ends here.
unfoldable pub exponent_digits : Bool → Digits → Result ℤ
exponent_digits negative d =
    if length d.values == 0 || ltb 6 (length d.values)
    then err invalid_syntax
    else if length d.rest == 0
    then ok (if negative then neg (accumulate 0 d.values) else pos (accumulate 0 d.values))
    else err invalid_syntax

unfoldable pub take_exponent : Text → Result ℤ
unfolding exponent_digits take_digits
take_exponent [] = ok (pos 0)
take_exponent (c ∷ t) =
    let sign = take_sign t in
    if c == b'e' || c == b'E'
    then exponent_digits sign.negative (take_digits sign.rest)
    else err invalid_syntax

-- The loop over the digits, from the first that is not zero on: at most as many as there are places
-- in the buffer, and only zeros behind them.
unfoldable pub keep_digits : ℕ → List ℕ → Result (List ℕ)
keep_digits room [] = ok []
keep_digits zero (d ∷ ds) =
    let later = keep_digits zero ds in if d == 0 then later else err too_many_digits
keep_digits (suc room) (d ∷ ds) = do kept ← keep_digits room ds; ok (d ∷ kept)

unfoldable pub from_kept : Bool → List ℕ → ℤ → Result Number
unfolding check_exponent
from_kept negative [] exponent = ok zero_number
from_kept negative (d ∷ ds) exponent = do
  e ← check_exponent exponent
  ok (record { digits = d ∷ ds; exponent = e; negative = negative })

unfoldable pub from_parts : Bool → List ℕ → List ℕ → ℤ → Result Number
unfolding keep_digits from_kept ◌+ℤ◌ ◌-ℤ◌
from_parts negative int frac exponent_part =
    let leading = count_zeros (int ++ frac) in
    keep_digits max_significant_digits (drop leading (int ++ frac)) >>= (λ kept.
      from_kept negative (strip_trailing kept) (pos (length int) -ℤ pos leading +ℤ exponent_part))

unfoldable pub parse_unsigned : Bool → Text → Result Number
unfolding from_parts take_exponent take_fraction take_digits
parse_unsigned negative t =
    let int = take_digits t in
    let frac = take_fraction int.rest in
    if length int.values + length frac.values == 0
    then err invalid_syntax
    else take_exponent frac.rest >>= from_parts negative int.values frac.values

unfoldable pub parse : Text → Result Number
unfolding parse_unsigned
parse text =
    let t = trim text in
    let sign = take_sign t in
    if length t == 0 then err empty else parse_unsigned sign.negative sign.rest
