-- ===== src/Decimal/Number.antt =====
-- crates/db-driver-api/src/value/number.rs: `Number`, built from digits and written as text. The
-- digits are the list of the `len` significant ones: the places of the array behind them are zero.
use mathlib.Core.List.{reverse}
use reldex.Base.Int.{ℤ, pos, negsuc, ◌-ℤ◌, leb_ℤ}
use reldex.Base.{
  ℕ, suc, ◌+◌, ◌-◌, Bool, true, false, ◌&&◌, List, [], ◌∷◌, ◌++◌, map, length, take, drop,
  replicate, any, ltb, leb, ◌==◌, if◌then◌else◌,
}
use reldex.Text.{Text, codes}

abbrev pub max_significant_digits : ℕ
max_significant_digits = 40

abbrev pub min_exponent : ℤ
min_exponent = negsuc 128

abbrev pub max_exponent : ℤ
max_exponent = pos 126

pub data NumberError : Type 0 where
  empty invalid_syntax invalid_digit too_many_digits exponent_out_of_range : NumberError

pub data Result {ℓ} (A : Type ℓ) : Type ℓ where
  ok : A → Result A
  err : NumberError → Result A

infixl 5 ◌>>=◌
abbrev pub ◌>>=◌ {ℓ κ} : {A : Type ℓ} {B : Type κ} → Result A → (A → Result B) → Result B
ok a >>= f = f a
err e >>= f = err e

abbrev pub unwrap_or {ℓ} : {A : Type ℓ} → Result A → A → A
unwrap_or (ok a) b = a
unwrap_or (err e) b = b

pub record Number : Type 0 where
  pub digits : List ℕ
  pub exponent : ℤ
  pub negative : Bool

abbrev pub zero_number : Number
zero_number = record { digits = []; exponent = pos 0; negative = false }

abbrev pub is_zero : Number → Bool
is_zero n = length n.digits == 0

abbrev pub digit_count : Number → ℕ
digit_count n = length n.digits

-- `iter().take_while(|d| **d == 0).count()`.
abbrev pub count_zeros : List ℕ → ℕ
count_zeros [] = 0
count_zeros (d ∷ ds) = if d == 0 then suc (count_zeros ds) else 0

unfoldable pub check_exponent : ℤ → Result ℤ
check_exponent e =
    if leb_ℤ min_exponent e && leb_ℤ e max_exponent then ok e else err exponent_out_of_range

-- The digits between the leading and the trailing zeros.
abbrev pub strip_trailing : List ℕ → List ℕ
strip_trailing ds = take (length ds - count_zeros (reverse ds)) ds

unfoldable pub from_significant : Bool → List ℕ → ℤ → Result Number
unfolding check_exponent
from_significant negative [] exponent = ok zero_number
from_significant negative (d ∷ ds) exponent =
    if ltb max_significant_digits (length (d ∷ ds)) then err too_many_digits else do
      e ← check_exponent exponent
      ok (record { digits = d ∷ ds; exponent = e; negative = negative })

unfoldable pub from_digits : Bool → List ℕ → ℤ → Result Number
unfolding from_significant ◌-ℤ◌
from_digits negative digits exponent =
    let leading = count_zeros digits in
    if any (λ d. ltb 9 d) digits
    then err invalid_digit
    else from_significant negative (strip_trailing (drop leading digits)) (exponent -ℤ pos leading)

-- `char::from(b'0' + digit)` for each digit.
abbrev pub ascii : List ℕ → Text
ascii = map (λ d. b'0' + d)

abbrev pub sign : Bool → Text
sign true = b'-' ∷ []
sign false = []

-- The three forms behind the sign: an integer, a point inside the digits, and below one.
unfoldable pub write_digits : List ℕ → ℤ → Text
unfolding ◌-ℤ◌
write_digits digits (pos e) =
    if leb (length digits) e
    then ascii digits ++ replicate (e - length digits) b'0'
    else if ltb 0 e
    then ascii (take e digits) ++ (b'.' ∷ ascii (drop e digits))
    else codes "0." ++ ascii digits
write_digits digits (negsuc e) = codes "0." ++ (replicate (suc e) b'0' ++ ascii digits)

-- `Display` for `Number`.
unfoldable pub display : Number → Text
unfolding write_digits
display n = if is_zero n then codes "0" else sign n.negative ++ write_digits n.digits n.exponent
