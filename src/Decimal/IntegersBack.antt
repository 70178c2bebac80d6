-- ===== src/Decimal/IntegersBack.antt =====
-- Integers that fit in `i128` come back from `Number`.
use reldex.Base.Int.{ℤ, abs, is_negative, negsuc, pos, ◌-ℤ◌}
use reldex.Base.{
  ℕ, zero, suc, ◌+◌, ◌*◌, ◌^◌, ◌≤◌, ◌<◌, ◌≡◌, refl, sym, ap, ap₂, ◌∙◌, subst, Bool, true, false,
  none, some, List, [], ◌∷◌, ◌++◌, append-nil, length, length-append, arith, ltb, ◌==◌,
  if◌then◌else◌, Bool-cases, inl, inr,
}
use reldex.Decimal.Number.{
  unwrap_or, Number, Result, ok, err, too_many_digits, zero_number, count_zeros, strip_trailing,
  max_significant_digits,
}
use reldex.Decimal.Scaled.{fits_i64, accumulate, times_ten, signed, digits_onto, last_is_zero}
use reldex.Decimal.Digits.{
  zeros, length-zeros, AllDigits, accumulate-append, accumulate-le, times_ten-zeros,
}
use reldex.Decimal.Zeros.{
  IsBody, split_zeros, strip_trailing-append_zeros, count_zeros-head, AllDigits-front,
}
use reldex.Decimal.Canonical.{IsNormal, InRange}
use reldex.Decimal.Display.{if_true, if_false}
use reldex.Decimal.Mantissa.{Writes, digits_onto-Writes}
use reldex.Decimal.Integers.{
  to_i64, from_i64, try_i64, checked, checked_accumulate, checked_times_ten, checked_magnitude,
  put_sign, integer, to_i128, from_magnitude,
}

checked-fits : (n : ℕ) → n < 2 ^ 127 → checked n ≡ some n
checked-fits n h = ap (λ b. if b then some n else none) fits
  where
    fits : ltb n (2 ^ 127) ≡ true
    fits = ground arith

checked_accumulate-fits :
    (m : ℕ) (ds : List ℕ)
    → accumulate m ds < 2 ^ 127
    → checked_accumulate m ds ≡ some (accumulate m ds)
unfolding checked_accumulate
checked_accumulate-fits m [] h = refl
checked_accumulate-fits m (d ∷ ds) h =
    let le = accumulate-le (m * 10 + d) ds in
    rw (checked-fits (m * 10) (omega (arith, le, h))) (
      rw (checked-fits (m * 10 + d) (omega (arith, le, h)))
        (checked_accumulate-fits (m * 10 + d) ds h))

times_ten-le : (k m : ℕ) → m ≤ times_ten k m
times_ten-le zero m = omega arith
times_ten-le (suc k) m = omega (arith, times_ten-le k (m * 10))

checked_times_ten-fits :
    (k m : ℕ) → times_ten k m < 2 ^ 127 → checked_times_ten k m ≡ some (times_ten k m)
unfolding checked_times_ten
checked_times_ten-fits zero m h = refl
checked_times_ten-fits (suc k) m h =
    rw (checked-fits (m * 10) (omega (arith, times_ten-le k (m * 10), h)))
      (checked_times_ten-fits k (m * 10) h)

checked_magnitude-fits :
    (c : List ℕ) (k m : ℕ)
    → accumulate 0 (c ++ zeros k) ≡ m
    → m < 2 ^ 127
    → checked_magnitude c k ≡ some m
unfolding checked_magnitude
checked_magnitude-fits c k m value h =
    rw (checked_accumulate-fits 0 c (omega (arith, times, times_ten-le k (accumulate 0 c), h)))
      (checked_times_ten-fits k (accumulate 0 c) (omega (arith, times, h)) ∙ ap some times)
  where
    times : times_ten k (accumulate 0 c) ≡ m
    times = times_ten-zeros k (accumulate 0 c) ∙ sym (accumulate-append 0 c (zeros k)) ∙ value

places_back : (l k : ℕ) → pos (l + k) -ℤ pos l ≡ pos k
unfolding ◌-ℤ◌
places_back l k = ground arith

to_i128-digits :
    (negative : Bool) (c : List ℕ) (k m : ℕ)
    → 1 ≤ length c
    → accumulate 0 (c ++ zeros k) ≡ m
    → m < 2 ^ 127
    → to_i128 (record { digits = c; exponent = pos (length c + k); negative = negative })
      ≡ some (signed negative m)
unfolding to_i128
to_i128-digits negative c k m p value h =
    if_false (length c == 0) (some (pos 0))
      (integer negative c (pos (length c + k) -ℤ pos (length c))) some_digits
    ∙ ap (integer negative c) (places_back (length c) k)
    ∙ ap (put_sign negative) (checked_magnitude-fits c k m value h)
  where
    some_digits : (length c == 0) ≡ false
    some_digits = ground arith

-- What an integer becomes, and what it is read back as.
abbrev Back : Bool → ℕ → Result Number → Type 0
Back negative m r = (n : Number) × (r ≡ ok n) × IsNormal n × (to_i128 n ≡ some (signed negative m))

integer_exponent-InRange : (l : ℕ) → l ≤ 39 → InRange (pos l)
integer_exponent-InRange l h = (omega arith, omega arith)

from_magnitude-digits :
    (negative : Bool) (m : ℕ)
    → m < 2 ^ 127
    → (m == 0) ≡ false
    → Back negative m (from_magnitude m negative)
unfolding from_magnitude
from_magnitude-digits negative m h n =
    let (ds, e, w) = digits_onto-Writes 39 39 m [] (omega arith) (omega (arith, h)) in
    let (c, k, eq, l) = split_zeros ds in parts ds e w c k eq l
  where
    parts :
        (ds : List ℕ)
        → digits_onto 39 m [] ≡ ds ++ []
        → Writes 39 m ds
        → (c : List ℕ) (k : ℕ) → ds ≡ c ++ zeros k
        → last_is_zero c ≡ false
        → Back negative m (from_magnitude m negative)
    parts ds e (w, all, head, size) [] zero eq l =
        absurd (ground (arith, ap (accumulate 0) eq, w, n))
    parts ds e (w, all, head, size) [] (suc k) eq l =
        absurd (omega (arith, ap count_zeros eq, head))
    parts ds e (w, all, head, size) (d ∷ cs) k eq l = (
      record { digits = c; exponent = pos (length c + k); negative = negative },
      if_false (m == 0) (ok zero_number) (made (digits_onto 39 m [])) n
          ∙ ap made (e ∙ append-nil ds ∙ eq)
          ∙ ap₂ number (strip_trailing-append_zeros c k l) measured
          ∙ if_false (ltb max_significant_digits (length c)) (err too_many_digits)
              (ok (record { digits = c; exponent = pos (length c + k); negative = negative }))
              short,
      (body, omega (arith, small), integer_exponent-InRange (length c + k) small),
      to_i128-digits negative c k m (omega arith) (ap (accumulate 0) (sym eq) ∙ w) h,
    )
      where
        c : List ℕ
        c = d ∷ cs

        number : List ℕ → ℕ → Result Number
        number s l' =
            if ltb max_significant_digits (length s)
            then err too_many_digits
            else ok (record { digits = s; exponent = pos l'; negative = negative })

        made : List ℕ → Result Number
        made ds' = number (strip_trailing ds') (length ds')

        measured : length (c ++ zeros k) ≡ length c + k
        measured = omega (arith, length-append c (zeros k), length-zeros k)

        small : length c + k ≤ 39
        small = omega (arith, ap length eq, measured, size)

        short : ltb max_significant_digits (length c) ≡ false
        short = ground (arith, small)

        body : IsBody c
        body = (
          count_zeros-head d (cs ++ zeros k) (ap count_zeros (sym eq) ∙ head),
          AllDigits-front c (zeros k) (subst AllDigits eq all),
          l,
        )

-- A magnitude below 2^127 becomes a number in normal form, and that number is read back as the
-- magnitude with its sign.
pub to_i128-from_magnitude :
    (negative : Bool) (m : ℕ)
    → m < 2 ^ 127
    → (n : Number) × (from_magnitude m negative ≡ ok n)
      × IsNormal n
      × (to_i128 n ≡ some (signed negative m))
unfolding from_magnitude to_i128
to_i128-from_magnitude negative m h = elim (Bool-cases (m == 0)) [
  | inl z ↦ (
    zero_number,
    if_true (m == 0) (ok zero_number) _ z,
    (refl, refl),
    ap some (no_sign negative) ∙ ap (λ x. some (signed negative x)) (sym (is_zero_magnitude z)),
  )
  | inr n ↦ from_magnitude-digits negative m h n
]
  where
    no_sign : (b : Bool) → pos 0 ≡ signed b 0
    no_sign true = refl
    no_sign false = refl

    is_zero_magnitude : (m == 0) ≡ true → m ≡ 0
    is_zero_magnitude z = ground arith

signed-parts : (v : ℤ) → signed (is_negative v) (abs v) ≡ v
signed-parts (pos n) = refl
signed-parts (negsuc n) = refl

abs-small : (v : ℤ) → fits_i64 v ≡ true → abs v < 2 ^ 127
abs-small (pos n) h = ground arith
abs-small (negsuc n) h = ground arith

-- An integer of 64 bits becomes a number in normal form, which `to_i64` reads back, the least one
-- included.
pub to_i64-from_i64 :
    (v : ℤ) → fits_i64 v ≡ true → IsNormal (from_i64 v) × (to_i64 (from_i64 v) ≡ some v)
unfolding to_i64 from_i64
to_i64-from_i64 v h =
    let (n, e, normal, back) = to_i128-from_magnitude (is_negative v) (abs v) (abs-small v h) in
    let made = ap (λ r. unwrap_or r zero_number) e in
    (
      subst IsNormal (sym made) normal,
      ap (λ m. try_i64 (to_i128 m)) made
          ∙ ap try_i64 (back ∙ ap some (signed-parts v))
          ∙ ap (λ b. if b then some v else none) h,
    )
