-- ===== src/Decimal/Mantissa.antt =====
-- The digits of a 64-bit mantissa, and the number that a scaled number is.
use reldex.Base.Int.{ℤ, pos, negsuc, ◌-ℤ◌, is_negative, abs}
use native.Mathlib.Nat.{pow-suc}
use reldex.Base.{
  ℕ, zero, suc, ◌+◌, ◌*◌, ◌/◌, ◌%◌, ◌^◌, ◌≤◌, ◌<◌, ◌≡◌, refl, sym, ap, ◌∙◌, subst, true, false,
  List, [], ◌∷◌, ◌++◌, append_assoc, append-nil, length, length-append, arith, ◌==◌, Bool-cases,
  if◌then◌else◌, inl, inr,
}
use reldex.Decimal.Number.{zero_number, count_zeros, from_digits, unwrap_or}
use reldex.Decimal.Scaled.{
  ScaledNumber, max_scale, accumulate, fits_i64, last_is_zero, digits_onto, magnitude_digits,
  to_number,
}
use reldex.Decimal.Digits.{zeros, length-zeros, AllDigits, AllDigits-append, accumulate-append}
use reldex.Decimal.Zeros.{IsBody, split_zeros, count_zeros-head, AllDigits-front}
use reldex.Decimal.Canonical.{InRange, from_digits_body}

-- The digits that the loop finds: they make up the number, and begin with no zero.
abbrev pub Writes : ℕ → ℕ → List ℕ → Type 0
Writes places m ds =
    (accumulate 0 ds ≡ m) × AllDigits ds × (count_zeros ds ≡ 0) × (length ds ≤ places)

count_zeros-snoc :
    (ds : List ℕ) (d : ℕ)
    → count_zeros ds ≡ 0
    → 1 ≤ accumulate 0 ds * 10 + d
    → count_zeros (ds ++ d ∷ []) ≡ 0
count_zeros-snoc [] d h p = ground arith
count_zeros-snoc (x ∷ xs) d h p = ground arith

digits_onto_step :
    (places m : ℕ) (acc : List ℕ)
    → (m == 0) ≡ false
    → digits_onto (suc places) m acc ≡ digits_onto places (m / 10) (m % 10 ∷ acc)
unfolding digits_onto
digits_onto_step places m acc n =
    ap (λ b. if b then acc else digits_onto places (m / 10) (m % 10 ∷ acc)) n

digits_onto_stop : (places : ℕ) (acc : List ℕ) → digits_onto places 0 acc ≡ acc
unfolding digits_onto
digits_onto_stop zero acc = refl
digits_onto_stop (suc places) acc = refl

is_zero : (m : ℕ) → (m == 0) ≡ true → m ≡ 0
is_zero m z = ground arith

no_digits :
    (fuel places m : ℕ) (acc : List ℕ)
    → m ≡ 0
    → (ds : List ℕ) × (digits_onto fuel m acc ≡ ds ++ acc) × Writes places m ds
no_digits fuel places m acc z = (
  [],
  ap (λ k. digits_onto fuel k acc) z ∙ digits_onto_stop fuel acc,
  (sym z, tt, refl, omega arith),
)

pub digits_onto-Writes :
    (fuel places m : ℕ) (acc : List ℕ)
    → places ≤ fuel
    → m < 10 ^ places
    → (ds : List ℕ) × (digits_onto fuel m acc ≡ ds ++ acc) × Writes places m ds
digits_onto-Writes fuel zero m acc le h = no_digits fuel 0 m acc (omega arith)
digits_onto-Writes zero (suc places) m acc le h = absurd (omega arith)
digits_onto-Writes (suc fuel) (suc places) m acc le h = elim (Bool-cases (m == 0)) [
  | inl z ↦ no_digits (suc fuel) (suc places) m acc (is_zero m z)
  | inr n ↦
      let (ds, e, (w, all, head, size)) =
        digits_onto-Writes fuel places (m / 10) (m % 10 ∷ acc) (omega arith)
          (omega (arith, pow-suc 10 places)) in
      (
        ds ++ m % 10 ∷ [],
        digits_onto_step fuel m acc n ∙ e ∙ sym (append_assoc ds (m % 10 ∷ []) acc),
        (
          accumulate-append 0 ds (m % 10 ∷ []) ∙ omega (arith, w),
          AllDigits-append ds (m % 10 ∷ []) all (omega arith, tt),
          count_zeros-snoc ds (m % 10) head (ground (arith, w)),
          omega (arith, length-append ds (m % 10 ∷ []), size),
        ),
      )
]

-- A mantissa that fits in 64 bits and is not zero, at a scale that the store keeps.
abbrev pub IsScaled : ScaledNumber → Type 0
IsScaled x = (fits_i64 x.mantissa ≡ true) × (x.scale ≤ max_scale)

abs-lt : (m : ℤ) → fits_i64 m ≡ true → abs m < 10 ^ 19
abs-lt (pos n) h = ground arith
abs-lt (negsuc n) h = ground arith

-- The digits of a mantissa are a body and the zeros behind it.
abbrev pub Shape : ScaledNumber → List ℕ → ℕ → Type 0
Shape x c k =
    (magnitude_digits x ≡ c ++ zeros k)
    × IsBody c
    × (length c + k ≤ 19)
    × (accumulate 0 (c ++ zeros k) ≡ abs x.mantissa)

pub shape :
    (x : ScaledNumber) → IsScaled x → 1 ≤ abs x.mantissa → (c : List ℕ) × (k : ℕ) × Shape x c k
unfolding magnitude_digits
shape x (fits, scale) p =
    let (ds, e, w) =
      digits_onto-Writes 20 19 (abs x.mantissa) [] (omega arith) (abs-lt x.mantissa fits) in
    let (c, k, eq, l) = split_zeros ds in (c, k, parts ds e w c k eq l)
  where
    parts :
        (ds : List ℕ)
        → digits_onto 20 (abs x.mantissa) [] ≡ ds ++ []
        → Writes 19 (abs x.mantissa) ds
        → (c : List ℕ) (k : ℕ) → ds ≡ c ++ zeros k
        → last_is_zero c ≡ false
        → Shape x c k
    parts ds e (w, all, head, size) c k eq l = (
      e ∙ append-nil ds ∙ eq,
      body c k eq l,
      omega (arith, ap length eq, length-append c (zeros k), length-zeros k, size),
      ap (accumulate 0) (sym eq) ∙ w,
    )
      where
        body : (c : List ℕ) (k : ℕ) → ds ≡ c ++ zeros k → last_is_zero c ≡ false → IsBody c
        body [] zero eq l = absurd (omega (arith, ap (accumulate 0) eq, w, p))
        body [] (suc k) eq l = absurd (omega (arith, ap count_zeros eq, head))
        body (d ∷ cs) k eq l = (
          count_zeros-head d (cs ++ zeros k) (ap count_zeros (sym eq) ∙ head),
          AllDigits-front (d ∷ cs) (zeros k) (subst AllDigits eq all),
          l,
        )

minus_zero : (a : ℤ) → a -ℤ pos 0 ≡ a
unfolding ◌-ℤ◌
minus_zero (pos n) = ground arith
minus_zero (negsuc n) = ground arith

scaled_exponent-InRange : (l s : ℕ) → l ≤ 19 → s ≤ max_scale → InRange (pos l -ℤ pos s)
unfolding ◌-ℤ◌
scaled_exponent-InRange l s h k = (ground arith, ground arith)

-- The number that a scaled number is, by its digits.
pub to_number-Shape :
    (x : ScaledNumber) (c : List ℕ) (k : ℕ)
    → IsScaled x
    → Shape x c k
    → to_number x ≡ record {
      digits = c;
      exponent = pos (length c + k) -ℤ pos x.scale;
      negative = is_negative x.mantissa;
    }
unfolding to_number
to_number-Shape x c k (fits, scale) (e, b, size, value) =
    ap
      (λ ds.
        unwrap_or (from_digits (is_negative x.mantissa) ds (pos (length ds) -ℤ pos x.scale))
          zero_number)
      e
    ∙ ap (λ r. unwrap_or r zero_number)
        (from_digits_body (is_negative x.mantissa) 0 c k
          (pos (length (c ++ zeros k)) -ℤ pos x.scale) b (omega (arith, size))
          (subst InRange (sym (minus_zero (pos (length (c ++ zeros k)) -ℤ pos x.scale))) (
            scaled_exponent-InRange (length (c ++ zeros k)) x.scale (omega (arith, measured, size))
              scale)))
    ∙ ap (λ e'. record { digits = c; exponent = e'; negative = is_negative x.mantissa })
        (minus_zero (pos (length (c ++ zeros k)) -ℤ pos x.scale)
          ∙ ap (λ n. pos n -ℤ pos x.scale) measured)
  where
    measured : length (c ++ zeros k) ≡ length c + k
    measured = omega (arith, length-append c (zeros k), length-zeros k)
