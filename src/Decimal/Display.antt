-- ===== src/Decimal/Display.antt =====
-- A scaled number is written as the number that it is.
use reldex.Base.Int.{pos, negsuc, ◌-ℤ◌, is_negative, abs}
use reldex.Base.{
  ℕ, zero, suc, ◌+◌, ◌-◌, ◌≤◌, ◌<◌, ◌≡◌, refl, sym, ap, ap₂, ◌∙◌, Bool, true, false, List, [], ◌∷◌,
  ◌++◌, length, arith, ltb, leb, ◌==◌, Bool-cases, if◌then◌else◌, inl, inr, take, drop, replicate,
}
use reldex.Text.{Text, codes}
use reldex.Decimal.Number
use reldex.Decimal.Scaled
use reldex.Decimal.Number.{Number, zero_number, is_zero, ascii, sign, write_digits}
use reldex.Decimal.Scaled.{
  ScaledNumber, max_scale, magnitude_digits, to_number, trim, Trimmed, write_scaled, last_is_zero,
  init,
}
use reldex.Decimal.Digits.{zeros}
use reldex.Decimal.Zeros.{IsBody}
use reldex.Decimal.Trim.{trim-zeros, no_zeros}
use reldex.Decimal.Mantissa.{IsScaled, Shape, shape, to_number-Shape}
use reldex.Decimal.RoundTrip.{to_number_zero, abs_zero, IsBody-length}

pub ascii-append : (ds es : List ℕ) → ascii (ds ++ es) ≡ ascii ds ++ ascii es
ascii-append [] es = refl
ascii-append (d ∷ ds) es = ap (◌∷◌ (b'0' + d)) (ascii-append ds es)

pub ascii-zeros : (k : ℕ) → ascii (zeros k) ≡ replicate k b'0'
ascii-zeros zero = refl
ascii-zeros (suc k) = ap (◌∷◌ b'0') (ascii-zeros k)

pub if_true : {A : Type 0} (b : Bool) (x y : A) → b ≡ true → (if b then x else y) ≡ x
if_true b x y h = ap (λ b. if b then x else y) h

pub if_false : {A : Type 0} (b : Bool) (x y : A) → b ≡ false → (if b then x else y) ≡ y
if_false b x y h = ap (λ b. if b then x else y) h

write_integer :
    (c : List ℕ) (n : ℕ) → write_digits c (pos (length c + n)) ≡ write_scaled (c ++ zeros n) 0
unfolding write_scaled write_digits
write_integer c n =
    ap
      (λ b.
        if b
        then ascii c ++ replicate (length c + n - length c) b'0'
        else if ltb 0 (length c + n)
        then ascii (take (length c + n) c) ++ (b'.' ∷ ascii (drop (length c + n) c))
        else codes "0." ++ ascii c)
      whole
    ∙ ap₂ ◌++◌ refl (ap (λ m. replicate m b'0') (omega arith) ∙ sym (ascii-zeros n))
    ∙ sym (ascii-append c (zeros n))
  where
    whole : leb (length c) (length c + n) ≡ true
    whole = ground arith

write_point :
    (c : List ℕ) (e : ℕ)
    → 1 ≤ e
    → e < length c
    → write_digits c (pos e) ≡ write_scaled c (length c - e)
unfolding write_scaled write_digits
write_point c e p lt =
    if_false (leb (length c) e) _ _ (ground arith)
    ∙ if_true (ltb 0 e) _ _ (ground arith)
    ∙ sym (
        if_false (length c - e == 0) _ _ (ground arith)
        ∙ if_true (ltb (length c - e) (length c)) _ _ (ground arith)
        ∙ ap (λ n. ascii (take n c) ++ (b'.' ∷ ascii (drop n c))) back)
  where
    back : length c - (length c - e) ≡ e
    back = omega arith

write_fraction :
    (c : List ℕ) (n : ℕ)
    → 1 ≤ length c
    → write_scaled c (length c + n) ≡ codes "0." ++ (replicate n b'0' ++ ascii c)
unfolding write_scaled
write_fraction c n p =
    if_false (length c + n == 0) _ _ (ground arith)
    ∙ if_false (ltb (length c + n) (length c)) _ _ (ground arith)
    ∙ ap (λ m. codes "0." ++ (replicate m b'0' ++ ascii c)) back
  where
    back : length c + n - length c ≡ n
    back = omega arith

fraction_zero : (c : List ℕ) → 1 ≤ length c → write_digits c (pos 0) ≡ write_scaled c (length c + 0)
unfolding write_digits
fraction_zero c p = if_false (leb (length c) 0) _ _ (ground arith) ∙ sym (write_fraction c 0 p)

fraction_below :
    (c : List ℕ) (n : ℕ)
    → 1 ≤ length c
    → write_digits c (negsuc n) ≡ write_scaled c (length c + suc n)
unfolding write_digits
fraction_below c n p = sym (write_fraction c (suc n) p)

minus_le : (a b : ℕ) → b ≤ a → pos a -ℤ pos b ≡ pos (a - b)
unfolding ◌-ℤ◌
minus_le a b h = ground arith

minus_gt : (a b : ℕ) → a < b → pos a -ℤ pos b ≡ negsuc (b - a - 1)
unfolding ◌-ℤ◌
minus_gt a b h = ground arith

-- The digits with their point: behind trimming, and from the exponent.
write_scaled-write_digits :
    (c : List ℕ) (k s : ℕ)
    → 1 ≤ length c
    → write_scaled (c ++ zeros (k - s)) (s - k) ≡ write_digits c (pos (length c + k) -ℤ pos s)
write_scaled-write_digits c k s p = elim (Bool-cases (leb s k)) [
  | inl t ↦ integer (ground arith)
  | inr f ↦
      ap₂ write_scaled (sym (no_zeros c (k - s) (ground arith))) refl
      ∙ elim (Bool-cases (leb s (length c + k))) [
        | inl t ↦ above (ground arith) (ground arith)
        | inr g ↦ below (ground arith)
      ]
]
  where
    integer :
        s ≤ k
        → write_scaled (c ++ zeros (k - s)) (s - k) ≡ write_digits c (pos (length c + k) -ℤ pos s)
    integer h =
        ap (write_scaled (c ++ zeros (k - s))) (omega arith)
        ∙ sym (write_integer c (k - s))
        ∙ ap (λ n. write_digits c (pos n)) (omega arith)
        ∙ ap (write_digits c) (sym (minus_le (length c + k) s (omega arith)))

    above :
        k < s
        → s ≤ length c + k
        → write_scaled c (s - k) ≡ write_digits c (pos (length c + k) -ℤ pos s)
    above lt le = elim (Bool-cases (s == length c + k)) [
      | inl t ↦
          ap (write_scaled c) (ground arith)
          ∙ sym (fraction_zero c p)
          ∙ ap (λ n. write_digits c (pos n)) (ground arith)
          ∙ ap (write_digits c) (sym (minus_le (length c + k) s le))
      | inr f ↦
          ap (write_scaled c) (ground arith)
          ∙ sym (write_point c (length c + k - s) (ground arith) (omega arith))
          ∙ ap (write_digits c) (sym (minus_le (length c + k) s le))
    ]

    below : length c + k < s → write_scaled c (s - k) ≡ write_digits c (pos (length c + k) -ℤ pos s)
    below lt =
        ap (write_scaled c) (omega arith)
        ∙ sym (fraction_below c (s - (length c + k) - 1) p)
        ∙ ap (write_digits c) (sym (minus_gt (length c + k) s lt))

body-last : (c : List ℕ) → IsBody c → last_is_zero c ≡ false
body-last [] b = absurd b
body-last (d ∷ ds) b = b.2

display_digits :
    (x : ScaledNumber) (c : List ℕ) (k : ℕ)
    → IsScaled x
    → 1 ≤ abs x.mantissa
    → Shape x c k
    → Scaled.display x ≡ Number.display (to_number x)
unfolding Scaled.display Number.display
display_digits x c k h p (e, b, size, value) =
    if_false (abs x.mantissa == 0) (codes "0") (shown (trim (magnitude_digits x) x.scale))
      (ground arith)
    ∙ ap shown (ap (λ ds. trim ds x.scale) e ∙ trim-zeros c k x.scale (body-last c b))
    ∙ ap (λ t. sign (is_negative x.mantissa) ++ t)
        (write_scaled-write_digits c k x.scale (IsBody-length c b))
    ∙ sym (if_false (length c == 0) (codes "0") as_number some_digits)
    ∙ ap Number.display (sym (to_number-Shape x c k h (e, b, size, value)))
  where
    shown : Trimmed → Text
    shown t = sign (is_negative x.mantissa) ++ write_scaled t.digits t.scale

    as_number : Text
    as_number = sign (is_negative x.mantissa) ++ write_digits c (pos (length c + k) -ℤ pos x.scale)

    some_digits : (length c == 0) ≡ false
    some_digits = ground (arith, IsBody-length c b)

-- A scaled number with a mantissa of 64 bits and a scale of at most 18 is written as the number
-- that it is, in all three forms and with the zeros at the end taken away.
pub display-to_number :
    (x : ScaledNumber) → IsScaled x → Scaled.display x ≡ Number.display (to_number x)
unfolding Scaled.display Number.display
display-to_number x h = elim (Bool-cases (abs x.mantissa == 0)) [
  | inl z ↦
      if_true (abs x.mantissa == 0) (codes "0") _ z
      ∙ ap Number.display (
          sym (
            ap (λ m. to_number (record { mantissa = m; scale = x.scale })) (abs_zero x.mantissa z)
            ∙ to_number_zero x.scale))
  | inr n ↦ let (c, k, sh) = shape x h (ground arith) in display_digits x c k h (ground arith) sh
]
