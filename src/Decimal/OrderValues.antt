-- ===== src/Decimal/OrderValues.antt =====
-- `Ord` for `Number`: the order of numbers is the order of their values.
use Prim.Native.Nat.{compare, Ordering}
use reldex.Base.Int.{ℤ, pos, negsuc, ◌-ℤ◌, ◌+ℤ◌}
use reldex.Base.{
  ℕ, zero, suc, ◌+◌, ◌≤◌, ◌<◌, ◌≡◌, refl, sym, ap, ap₂, ◌∙◌, Bool, true, false, List, [], ◌∷◌,
  length, arith, inl, inr, ◌⊎◌, subst,
}
use reldex.Decimal.Number.{Number, digit_count}
use reldex.Decimal.Scaled.{signed}
use reldex.Decimal.Digits.{zeros}
use reldex.Decimal.Zeros.{IsBody}
use reldex.Decimal.Canonical.{IsNormal, IsNormalParts}
use reldex.Decimal.Exact.{mantissa_of, exponent_back, accumulate-pos}
use reldex.Decimal.Order.{
  reversed, then_with, cmp_exponent, cmp_digits, cmp_magnitude, cmp_signed, cmp,
}
use reldex.Decimal.OrderLaws.{compare-same, compare-swap}
use reldex.Decimal.OrderDigits.{compare-lt, digits_at, digits_at-shorter, digits_at-level}

-- The order of integers.
abbrev pub compare_ℤ : ℤ → ℤ → Ordering
compare_ℤ (pos a) (pos b) = compare a b
compare_ℤ (pos a) (negsuc b) = Ordering.gt
compare_ℤ (negsuc a) (pos b) = Ordering.lt
compare_ℤ (negsuc a) (negsuc b) = compare b a

cmp_exponent-places : (a b k : ℕ) → cmp_exponent (pos a -ℤ pos k) (pos b -ℤ pos k) ≡ compare a b
unfolding ◌-ℤ◌
cmp_exponent-places a b k = ground arith

lt_cases : (a b : ℕ) → (a < b) ⊎ ((a ≡ b) ⊎ (b < a))
lt_cases a b = ground arith

no_digits : (p : ℕ) → digits_at [] p ≡ 0
no_digits zero = refl
no_digits (suc p) = no_digits p

-- First the places, then the digits.
bodies-compare :
    (xs ys : List ℕ) (p q : ℕ)
    → IsBody xs
    → IsBody ys
    → then_with (compare (length xs + p) (length ys + q)) (cmp_digits xs ys)
      ≡ compare (digits_at xs p) (digits_at ys q)
bodies-compare xs ys p q b c = elim (lt_cases (length xs + p) (length ys + q)) [
  | inl below ↦
      ap (λ o. then_with o (cmp_digits xs ys)) (compare-lt _ _ below)
      ∙ sym (digits_at-shorter xs ys p q b c below)
  | inr (inl level) ↦
      ap (λ n. then_with (compare n (length ys + q)) (cmp_digits xs ys)) level
      ∙ ap (λ o. then_with o (cmp_digits xs ys)) (compare-same (length ys + q))
      ∙ sym (digits_at-level xs ys p q b c level)
  | inr (inr above) ↦
      ap (λ o. then_with o (cmp_digits xs ys))
        (compare-swap _ _ ∙ ap reversed (compare-lt _ _ above))
      ∙ ap reversed (sym (digits_at-shorter ys xs q p c b above))
      ∙ sym (compare-swap (digits_at ys q) (digits_at xs p))
]

cmp_magnitude-digits_at :
    (xs : List ℕ) (e : ℤ) (a : Bool) (ys : List ℕ) (f : ℤ) (b : Bool) (k p q : ℕ)
    → IsNormalParts xs e a
    → IsNormalParts ys f b
    → e -ℤ pos (length xs) +ℤ pos k ≡ pos p
    → f -ℤ pos (length ys) +ℤ pos k ≡ pos q
    → cmp_magnitude xs e ys f ≡ compare (digits_at xs p) (digits_at ys q)
unfolding cmp_magnitude
cmp_magnitude-digits_at [] e a [] f b k p q h i u v =
    sym (ap₂ compare (no_digits p) (no_digits q) ∙ compare-same 0)
cmp_magnitude-digits_at [] e a (y ∷ ys) f b k p q h i u v = sym (
    ap (λ n. compare n (digits_at (y ∷ ys) q)) (no_digits p)
    ∙ compare-lt 0 (digits_at (y ∷ ys) q) (accumulate-pos (y ∷ ys) (zeros q) i.0))
cmp_magnitude-digits_at (x ∷ xs) e a [] f b k p q h i u v = sym (
    ap (compare (digits_at (x ∷ xs) p)) (no_digits q)
    ∙ compare-swap 0 (digits_at (x ∷ xs) p)
    ∙ ap reversed (compare-lt 0 (digits_at (x ∷ xs) p) (accumulate-pos (x ∷ xs) (zeros p) h.0)))
cmp_magnitude-digits_at (x ∷ xs) e a (y ∷ ys) f b k p q h i u v =
    ap (λ o. then_with o (cmp_digits (x ∷ xs) (y ∷ ys)))
      (sym (
          ap₂ cmp_exponent (exponent_back e (length (x ∷ xs)) p k u)
            (exponent_back f (length (y ∷ ys)) q k v))
        ∙ cmp_exponent-places (length (x ∷ xs) + p) (length (y ∷ ys) + q) k)
    ∙ bodies-compare (x ∷ xs) (y ∷ ys) p q h.0 i.0

-- Only a number that is not zero is negative.
negative-pos : (xs : List ℕ) (e : ℤ) (p : ℕ) → IsNormalParts xs e true → 1 ≤ digits_at xs p
negative-pos [] e p h = absurd (ground (arith, h.1))
negative-pos (x ∷ xs) e p h = accumulate-pos (x ∷ xs) (zeros p) h.0

cmp_signed-signed :
    (a b : Bool) (m n : ℕ)
    → (a ≡ true → 1 ≤ m)
    → (b ≡ true → 1 ≤ n)
    → cmp_signed a b (compare m n) ≡ compare_ℤ (signed a m) (signed b n)
cmp_signed-signed false false m n h k = refl
cmp_signed-signed false true m zero h k = absurd (omega (arith, k refl))
cmp_signed-signed false true m (suc n) h k = refl
cmp_signed-signed true b zero n h k = absurd (omega (arith, h refl))
cmp_signed-signed true false (suc m) n h k = refl
cmp_signed-signed true true (suc m) zero h k = absurd (omega (arith, k refl))
cmp_signed-signed true true (suc m) (suc n) h k = ground arith

-- Two numbers in normal form compare as their values do: at any power of ten that makes both of them
-- whole, the order is that of the integers that they are there, signs included.
pub cmp-mantissa_of :
    (n m : Number) (k p q : ℕ)
    → IsNormal n
    → IsNormal m
    → n.exponent -ℤ pos (digit_count n) +ℤ pos k ≡ pos p
    → m.exponent -ℤ pos (digit_count m) +ℤ pos k ≡ pos q
    → cmp n m ≡ compare_ℤ (mantissa_of n p) (mantissa_of m q)
unfolding cmp
cmp-mantissa_of n m k p q h i u v =
    ap (cmp_signed n.negative m.negative) (
      cmp_magnitude-digits_at n.digits n.exponent n.negative m.digits m.exponent m.negative k p q h
        i u v)
    ∙ cmp_signed-signed n.negative m.negative (digits_at n.digits p) (digits_at m.digits q)
        (λ e. negative-pos n.digits n.exponent p (subst (IsNormalParts n.digits n.exponent) e h))
        (λ e. negative-pos m.digits m.exponent q (subst (IsNormalParts m.digits m.exponent) e i))
