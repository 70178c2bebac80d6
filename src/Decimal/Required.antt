-- ===== src/Decimal/Required.antt =====
-- `ScaledNumber::required_scale` is the least scale that `from_number` finds a number at.
use reldex.Base.Int.{ℤ, pos, negsuc, ◌-ℤ◌, ◌+ℤ◌, pos_part, neg_part}
use reldex.Base.{
  ℕ, zero, suc, ◌+◌, ◌-◌, ◌*◌, ◌≤◌, ◌≡◌, refl, sym, ap, ◌∙◌, Bool, true, false, Option, none, some,
  arith, leb, Bool-cases, if◌then◌else◌, inl, inr,
}
use reldex.Decimal.Number.{Number, digit_count, is_zero}
use reldex.Decimal.Scaled.{
  ScaledNumber, max_scale, accumulate, fits_i64, signed, shifted, from_number, required_scale,
}
use reldex.Decimal.Digits.{zeros, accumulate-append, accumulate-le}
use reldex.Decimal.RoundTrip.{from_number-shifted, shifted_digits, exact-fits}
use reldex.Decimal.Exact.{mantissa_of, shifted-Found, from_number-scale}

-- The places that are left at the scale of the fraction digits.
abbrev places_left : ℤ → ℕ → ℕ → ℕ → ℕ
places_left e l s k = k - (s - pos_part (pos l -ℤ e))

fraction_places :
    (e : ℤ) (l s k : ℕ)
    → e -ℤ pos l +ℤ pos s ≡ pos k
    → (pos_part (pos l -ℤ e) ≤ s)
      × (e -ℤ pos l +ℤ pos (pos_part (pos l -ℤ e)) ≡ pos (places_left e l s k))
unfolding ◌-ℤ◌ ◌+ℤ◌
fraction_places (pos e) l s k h = ground (arith, ap pos_part h, ap neg_part h)
fraction_places (negsuc e) l s k h = ground (arith, ap pos_part h, ap neg_part h)

accumulate-zeros_le : (j k m : ℕ) → j ≤ k → accumulate m (zeros j) ≤ accumulate m (zeros k)
accumulate-zeros_le zero k m le = accumulate-le m (zeros k)
accumulate-zeros_le (suc j) zero m le = absurd (omega arith)
accumulate-zeros_le (suc j) (suc k) m le = accumulate-zeros_le j k (m * 10 + 0) (omega arith)

fits-le :
    (negative : Bool) (a b : ℕ)
    → a ≤ b
    → fits_i64 (signed negative b) ≡ true
    → fits_i64 (signed negative a) ≡ true
fits-le true zero b le h = refl
fits-le true (suc a) zero le h = absurd (omega arith)
fits-le true (suc a) (suc b) le h = ground arith
fits-le false a b le h = ground arith

mantissa_of-fits :
    (n : Number) (j k : ℕ)
    → j ≤ k
    → fits_i64 (mantissa_of n k) ≡ true
    → fits_i64 (mantissa_of n j) ≡ true
mantissa_of-fits n j k le = fits-le n.negative _ _ (
    omega (
      arith,
      accumulate-append 0 n.digits (zeros j),
      accumulate-append 0 n.digits (zeros k),
      accumulate-zeros_le j k (accumulate 0 n.digits) le,
    ))

from_number-places :
    (n : Number) (r k : ℕ)
    → r ≤ max_scale
    → 1 ≤ digit_count n
    → digit_count n + k ≤ 19
    → fits_i64 (mantissa_of n k) ≡ true
    → n.exponent -ℤ pos (digit_count n) +ℤ pos r ≡ pos k
    → from_number n r ≡ some (record { mantissa = mantissa_of n k; scale = r })
from_number-places n r k scale p size fits places =
    from_number-shifted n r scale p
    ∙ ap (shifted n r) places
    ∙ shifted_digits n k r _ size refl
    ∙ exact-fits (mantissa_of n k) r fits

-- A number that is found at a scale has a required scale, which is no larger, and is found at that one
-- too: the required scale is the least of all that it is found at.
pub from_number-required_scale :
    (n : Number) (s : ℕ) (x : ScaledNumber)
    → from_number n s ≡ some x
    → (r : ℕ) × (required_scale n ≡ some r)
      × (r ≤ s)
      × ((y : ScaledNumber) × (from_number n r ≡ some y))
unfolding required_scale from_number
from_number-required_scale n s x h = elim (Bool-cases (is_zero n)) [
  | inl t ↦ (
    0,
    ap (λ b. if b then some 0 else by_places) t,
    omega arith,
    (record { mantissa = pos 0; scale = 0 }, rw t refl),
  )
  | inr f ↦
      let (k, places, size, (fits, eq)) =
        shifted-Found n s (n.exponent -ℤ pos (digit_count n) +ℤ pos s) x
          (sym (from_number-shifted n s scale (ground arith)) ∙ h) in
      let (le, left) = fraction_places n.exponent (digit_count n) s k places in
      (
        fraction_digits,
        ap (λ b. if b then some 0 else by_places) f
            ∙ ap (λ b. if b then some fraction_digits else none) (kept le),
        le,
        (
          _,
          from_number-places n fraction_digits _ (omega (arith, scale, le)) (ground arith)
              (omega (arith, size)) (mantissa_of-fits n _ k (omega arith) fits) left,
        ),
      )
]
  where
    scale : s ≤ max_scale
    scale = from_number-scale n s x h

    fraction_digits : ℕ
    fraction_digits = pos_part (pos (digit_count n) -ℤ n.exponent)

    kept : fraction_digits ≤ s → leb fraction_digits max_scale ≡ true
    kept le = ground (arith, scale)

    by_places : Option ℕ
    by_places = if leb fraction_digits max_scale then some fraction_digits else none
