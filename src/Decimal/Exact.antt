-- ===== src/Decimal/Exact.antt =====
-- `ScaledNumber::from_number` finds exactly the scaled number whose value is the number's.
use reldex.Base.Int.{ℤ, pos, negsuc, ◌-ℤ◌, ◌+ℤ◌, is_negative, abs, pos_part, neg_part}
use reldex.Base.{
  some-inj, ℕ, zero, suc, ◌+◌, ◌*◌, ◌≤◌, ◌≡◌, refl, sym, ap, ap₂, ◌∙◌, subst, Bool, true, false,
  some, List, [], ◌∷◌, ◌++◌, length, length-append, arith, ltb, Bool-cases, inl, inr, ◌↔◌,
}
use reldex.Decimal.Number.{Number, zero_number, digit_count}
use reldex.Decimal.Scaled.{
  ScaledNumber, max_scale, accumulate, fits_i64, signed, exact, shifted, from_number,
  magnitude_digits, to_number, digits_onto,
}
use reldex.Decimal.Digits.{
  zeros, length-zeros, AllDigits-append, AllDigits-zeros, accumulate-le, digits_onto_all,
}
use reldex.Decimal.Zeros.{IsBody}
use reldex.Decimal.Canonical.{IsNormal, IsNormalParts}
use reldex.Decimal.Mantissa.{IsScaled, Shape, to_number-Shape}
use reldex.Decimal.RoundTrip.{
  from_number-shifted, shifted_digits, exact-fits, from_number_zero, to_number_zero,
  from_number-to_number, IsBody-length,
}

exact-some :
    (m : ℤ) (s : ℕ) (x : ScaledNumber)
    → exact m s ≡ some x
    → (fits_i64 m ≡ true) × (record { mantissa = m; scale = s } ≡ x)
exact-some m s x h = elim (Bool-cases (fits_i64 m)) [
  | inl t ↦ (t, some-inj (record { mantissa = m; scale = s }) x (sym (exact-fits m s t) ∙ h))
  | inr f ↦ absurd (ground (arith, f))
]

abbrev pub mantissa_of : Number → ℕ → ℤ
mantissa_of n k = signed n.negative (accumulate 0 (n.digits ++ zeros k))

-- The steps that led to a result.
abbrev pub Found : Number → ℕ → ℤ → ScaledNumber → Type 0
Found n s z x =
    (k : ℕ) × (z ≡ pos k)
    × (digit_count n + k ≤ 19)
    × ((fits_i64 (mantissa_of n k) ≡ true) × (record { mantissa = mantissa_of n k; scale = s } ≡ x))

pub shifted-Found :
    (n : Number) (s : ℕ) (z : ℤ) (x : ScaledNumber) → shifted n s z ≡ some x → Found n s z x
unfolding shifted
shifted-Found n s (negsuc k) x h = absurd (ground arith)
shifted-Found n s (pos k) x h = elim (Bool-cases (ltb 19 (digit_count n + k))) [
  | inl t ↦ absurd (ground arith)
  | inr f ↦ (k, refl, ground arith, exact_result (ground arith))
]
  where
    exact_result :
        digit_count n + k ≤ 19
        → (fits_i64 (mantissa_of n k) ≡ true)
          × (record { mantissa = mantissa_of n k; scale = s } ≡ x)
    exact_result size =
        exact-some (mantissa_of n k) s x (sym (shifted_digits n k s _ size refl) ∙ h)

pub from_number-scale :
    (n : Number) (s : ℕ) (x : ScaledNumber) → from_number n s ≡ some x → s ≤ max_scale
unfolding from_number
from_number-scale n s x h = elim (Bool-cases (ltb max_scale s)) [
  | inl t ↦ absurd (ground arith)
  | inr f ↦ ground arith
]

-- The exponent, from the places that it leaves.
pub exponent_back : (e : ℤ) (l k s : ℕ) → e -ℤ pos l +ℤ pos s ≡ pos k → pos (l + k) -ℤ pos s ≡ e
unfolding ◌-ℤ◌ ◌+ℤ◌
exponent_back (pos e) l k s h = ground (arith, ap pos_part h, ap neg_part h)
exponent_back (negsuc e) l k s h = ground (arith, ap pos_part h, ap neg_part h)

abs-signed : (negative : Bool) (m : ℕ) → abs (signed negative m) ≡ m
abs-signed true zero = refl
abs-signed true (suc m) = refl
abs-signed false m = refl

is_negative-signed : (negative : Bool) (m : ℕ) → 1 ≤ m → is_negative (signed negative m) ≡ negative
is_negative-signed true zero p = absurd (omega arith)
is_negative-signed true (suc m) p = refl
is_negative-signed false m p = refl

pub accumulate-pos : (c es : List ℕ) → IsBody c → 1 ≤ accumulate 0 (c ++ es)
accumulate-pos [] es b = absurd b
accumulate-pos (d ∷ ds) es b = omega (arith, b.0, accumulate-le (0 * 10 + d) (ds ++ es))

-- The mantissa of a number has its digits, with `k` zeros behind them.
Shape-mantissa_of :
    (n : Number) (k s : ℕ)
    → IsBody n.digits
    → digit_count n + k ≤ 19
    → Shape (record { mantissa = mantissa_of n k; scale = s }) n.digits k
unfolding magnitude_digits
Shape-mantissa_of n k s b size = (
  ap (λ m. digits_onto 20 m []) (abs-signed n.negative (accumulate 0 (n.digits ++ zeros k)))
      ∙ written n.digits b size,
  b,
  size,
  sym (abs-signed n.negative (accumulate 0 (n.digits ++ zeros k))),
)
  where
    written :
        (c : List ℕ)
        → IsBody c
        → length c + k ≤ 19
        → digits_onto 20 (accumulate 0 (c ++ zeros k)) [] ≡ c ++ zeros k
    written [] b size = absurd b
    written (d ∷ ds) b size =
        digits_onto_all 20 d (ds ++ zeros k)
          (omega (arith, length-append ds (zeros k), length-zeros k, size)) b.0
          (AllDigits-append (d ∷ ds) (zeros k) b.1 (AllDigits-zeros k))

to_number-mantissa_of :
    (n : Number) (k s : ℕ)
    → IsBody n.digits
    → digit_count n + k ≤ 19
    → fits_i64 (mantissa_of n k) ≡ true
    → s ≤ max_scale
    → n.exponent -ℤ pos (digit_count n) +ℤ pos s ≡ pos k
    → to_number (record { mantissa = mantissa_of n k; scale = s }) ≡ n
to_number-mantissa_of n k s b size fits scale places =
    to_number-Shape (record { mantissa = mantissa_of n k; scale = s }) n.digits k (fits, scale)
      (Shape-mantissa_of n k s b size)
    ∙ ap (λ e. record { digits = n.digits; exponent = e; negative = is_negative (mantissa_of n k) })
        (exponent_back n.exponent (digit_count n) k s places)
    ∙ ap (λ b'. record { digits = n.digits; exponent = n.exponent; negative = b' })
        (is_negative-signed n.negative (accumulate 0 (n.digits ++ zeros k))
          (accumulate-pos n.digits (zeros k) b))

-- What a result of `from_number` is.
abbrev Is : Number → ℕ → ScaledNumber → Type 0
Is n s x = IsScaled x × (x.scale ≡ s) × (to_number x ≡ n)

from_number_body :
    (n : Number) (s : ℕ) (x : ScaledNumber) → IsBody n.digits → from_number n s ≡ some x → Is n s x
from_number_body n s x b h =
    let scale = from_number-scale n s x h in
    let (k, places, size, (fits, eq)) =
      shifted-Found n s (n.exponent -ℤ pos (digit_count n) +ℤ pos s) x
        (sym (from_number-shifted n s scale (IsBody-length n.digits b)) ∙ h) in
    subst (Is n s) eq ((fits, scale), refl, to_number-mantissa_of n k s b size fits scale places)

from_number_none :
    (n : Number) (s : ℕ) (x : ScaledNumber) → zero_number ≡ n → from_number n s ≡ some x → Is n s x
from_number_none n s x z h =
    let scale = from_number-scale n s x h in
    let eq =
      some-inj (record { mantissa = pos 0; scale = s }) x
        (sym (from_number_zero s scale) ∙ ap (λ m. from_number m s) z ∙ h) in
    subst (Is n s) eq ((refl, scale), refl, to_number_zero s ∙ z)

-- A number in normal form is found at a scale exactly if a scaled number of that scale, with a
-- mantissa of 64 bits and a scale of at most 18, is that number, and that one is found.
pub from_number_iff :
    (n : Number) (s : ℕ) (x : ScaledNumber)
    → IsNormal n
    → (from_number n s ≡ some x) ↔ (IsScaled x × (x.scale ≡ s) × (to_number x ≡ n))
from_number_iff n s x h = (there n.digits n.exponent n.negative h, back)
  where
    there :
        (c : List ℕ) (e : ℤ) (negative : Bool)
        → IsNormalParts c e negative
        → from_number (record { digits = c; exponent = e; negative = negative }) s ≡ some x
        → Is (record { digits = c; exponent = e; negative = negative }) s x
    there [] e negative (he, hn) =
        from_number_none _ s x
          (ap₂ (λ e' b. record { digits = []; exponent = e'; negative = b }) (sym he) (sym hn))
    there (d ∷ ds) e negative h' =
        from_number_body (record { digits = d ∷ ds; exponent = e; negative = negative }) s x h'.0

    back : Is n s x → from_number n s ≡ some x
    back (is_scaled, scale, value) =
        ap₂ from_number (sym value) (sym scale) ∙ from_number-to_number x is_scaled
