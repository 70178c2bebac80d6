-- ===== src/Decimal/RoundTrip.antt =====
-- `ScaledNumber` and `Number`: either is the other, and both are written alike.
use reldex.Base.Int.{ℤ, pos, negsuc, ◌-ℤ◌, ◌+ℤ◌, is_negative, abs}
use reldex.Base.{
  ℕ, ◌+◌, ◌≤◌, ◌≡◌, refl, sym, ap, ◌∙◌, true, false, Option, none, some, List, [], ◌∷◌, ◌++◌,
  length, arith, ltb, ◌==◌, Bool-cases, if◌then◌else◌, inl, inr,
}
use reldex.Decimal.Number.{Number, zero_number, from_digits, from_significant, is_zero, digit_count}
use reldex.Decimal.Scaled.{
  ScaledNumber, max_scale, accumulate, times_ten, fits_i64, signed, exact, shifted, from_number,
  digits_onto, magnitude_digits, to_number,
}
use reldex.Decimal.Digits.{zeros, accumulate-append, times_ten-zeros}
use reldex.Decimal.Zeros.{IsBody}
use reldex.Decimal.Mantissa.{IsScaled, Shape, shape, to_number-Shape}

pub signed-abs : (m : ℤ) → 1 ≤ abs m → signed (is_negative m) (abs m) ≡ m
signed-abs (pos n) p = refl
signed-abs (negsuc n) p = refl

pub shift_back : (l k s : ℕ) → pos (l + k) -ℤ pos s -ℤ pos l +ℤ pos s ≡ pos k
unfolding ◌-ℤ◌ ◌+ℤ◌
shift_back l k s = ground arith

pub from_number-shifted :
    (n : Number) (s : ℕ)
    → s ≤ max_scale
    → 1 ≤ digit_count n
    → from_number n s ≡ shifted n s (n.exponent -ℤ pos (digit_count n) +ℤ pos s)
unfolding from_number
from_number-shifted n s scale p =
    ap (λ b. if b then none else if is_zero n then some zero_scaled else rest) small
    ∙ ap (λ b. if b then some zero_scaled else rest) some_digits
  where
    zero_scaled : ScaledNumber
    zero_scaled = record { mantissa = pos 0; scale = s }

    rest : Option ScaledNumber
    rest = shifted n s (n.exponent -ℤ pos (digit_count n) +ℤ pos s)

    small : ltb max_scale s ≡ false
    small = ground arith

    some_digits : is_zero n ≡ false
    some_digits = ground arith

-- The mantissa of a number whose digits leave room for `k` zeros.
pub shifted_digits :
    (n : Number) (k s m : ℕ)
    → digit_count n + k ≤ 19
    → accumulate 0 (n.digits ++ zeros k) ≡ m
    → shifted n s (pos k) ≡ exact (signed n.negative m) s
unfolding shifted
shifted_digits n k s m size value =
    ap (λ b. if b then none else exact (signed n.negative (times_ten k (accumulate 0 n.digits))) s)
      small
    ∙ ap (λ v. exact (signed n.negative v) s)
        (times_ten-zeros k (accumulate 0 n.digits)
          ∙ sym (accumulate-append 0 n.digits (zeros k))
          ∙ value)
  where
    small : ltb 19 (digit_count n + k) ≡ false
    small = ground arith

pub exact-fits :
    (m : ℤ) (s : ℕ) → fits_i64 m ≡ true → exact m s ≡ some (record { mantissa = m; scale = s })
exact-fits m s h = ap (λ b. if b then some (record { mantissa = m; scale = s }) else none) h

pub IsBody-length : (c : List ℕ) → IsBody c → 1 ≤ length c
IsBody-length [] b = absurd b
IsBody-length (d ∷ ds) b = omega arith

pub to_number_zero : (s : ℕ) → to_number (record { mantissa = pos 0; scale = s }) ≡ zero_number
unfolding to_number from_digits from_significant magnitude_digits digits_onto
to_number_zero s = refl

pub from_number_zero :
    (s : ℕ)
    → s ≤ max_scale
    → from_number zero_number s ≡ some (record { mantissa = pos 0; scale = s })
unfolding from_number
from_number_zero s h = ground arith

pub abs_zero : (m : ℤ) → (abs m == 0) ≡ true → m ≡ pos 0
abs_zero (pos n) h = ap pos (ground arith)
abs_zero (negsuc n) h = absurd (ground arith)

-- A scaled number with a mantissa of 64 bits and a scale of at most 18 comes back from `to_number` at
-- its own scale.
pub from_number-to_number :
    (x : ScaledNumber) → IsScaled x → from_number (to_number x) x.scale ≡ some x
from_number-to_number x (fits, scale) = elim (Bool-cases (abs x.mantissa == 0)) [
  | inl z ↦
      ap (λ m. from_number (to_number (record { mantissa = m; scale = x.scale })) x.scale)
        (abs_zero x.mantissa z)
      ∙ ap (λ n. from_number n x.scale) (to_number_zero x.scale)
      ∙ from_number_zero x.scale scale
      ∙ ap (λ m. some (record { mantissa = m; scale = x.scale })) (sym (abs_zero x.mantissa z))
  | inr n ↦ let (c, k, sh) = shape x (fits, scale) (ground arith) in by_digits c k sh (ground arith)
]
  where
    by_digits :
        (c : List ℕ) (k : ℕ)
        → Shape x c k
        → 1 ≤ abs x.mantissa
        → from_number (to_number x) x.scale ≡ some x
    by_digits c k (e, b, size, value) p =
        ap (λ n. from_number n x.scale) (to_number-Shape x c k (fits, scale) (e, b, size, value))
        ∙ from_number-shifted as_number x.scale scale (IsBody-length c b)
        ∙ ap (shifted as_number x.scale) (shift_back (length c) k x.scale)
        ∙ shifted_digits as_number k x.scale (abs x.mantissa) size value
        ∙ ap (λ m. exact m x.scale) (signed-abs x.mantissa p)
        ∙ exact-fits x.mantissa x.scale fits
      where
        as_number : Number
        as_number = record {
          digits = c;
          exponent = pos (length c + k) -ℤ pos x.scale;
          negative = is_negative x.mantissa;
        }
