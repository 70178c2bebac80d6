-- ===== src/Decimal/ParseDigits.antt =====
-- What `Number::parse` reads of digits that were written.
use reldex.Base.Int.{ℤ, pos, ◌-ℤ◌, ◌+ℤ◌}
use reldex.Base.{
  ℕ, zero, suc, ◌+◌, ◌-◌, ◌≤◌, ◌≡◌, refl, sym, ap, ap₂, ◌∙◌, Bool, true, false, ◌&&◌, List, [], ◌∷◌,
  ◌++◌, append-nil, length, drop, arith, ◌==◌, if◌then◌else◌,
}
use reldex.Text.{Text, is_whitespace, is_ascii_digit, trim_start, trim_end, is_nil, trim}
use reldex.Decimal.Number.{
  Number, Result, ok, err, ◌>>=◌, empty, invalid_syntax, count_zeros, strip_trailing,
  max_significant_digits, ascii, sign,
}
use reldex.Decimal.Parse.{
  Digits, take_digits, Signed, take_sign, take_fraction, take_exponent, keep_digits, from_kept,
  from_parts, parse_unsigned, parse,
}
use reldex.Decimal.Digits.{zeros, AllDigits}
use reldex.Decimal.Zeros.{
  IsBody, count_zeros-append_zeros, drop-append_zeros, strip_trailing-append_zeros,
}
use reldex.Decimal.Canonical.{InRange, check_exponent_ok, count_zeros-IsBody, IsBody-last}

-- Characters that `trim` leaves.
abbrev pub AllPlain : Text → Type 0
AllPlain [] = Unit {0}
AllPlain (c ∷ t) = (is_whitespace c ≡ false) × AllPlain t

pub AllPlain-append : (s t : Text) → AllPlain s → AllPlain t → AllPlain (s ++ t)
AllPlain-append [] t p q = q
AllPlain-append (c ∷ s) t p q = (p.0, AllPlain-append s t p.1 q)

trim_start-AllPlain : (t : Text) → AllPlain t → trim_start t ≡ t
unfolding trim_start
trim_start-AllPlain [] p = refl
trim_start-AllPlain (c ∷ t) p = ap (λ b. if b then trim_start t else c ∷ t) p.0

trim_end-AllPlain : (t : Text) → AllPlain t → trim_end t ≡ t
unfolding trim_end
trim_end-AllPlain [] p = refl
trim_end-AllPlain (c ∷ t) p =
    ap (λ b. if is_nil (trim_end t) && b then [] else c ∷ trim_end t) p.0
    ∙ never (is_nil (trim_end t))
    ∙ ap (◌∷◌ c) (trim_end-AllPlain t p.1)
  where
    never : (b : Bool) → (if b && false then [] else c ∷ trim_end t) ≡ c ∷ trim_end t
    never true = refl
    never false = refl

pub trim-AllPlain : (t : Text) → AllPlain t → trim t ≡ t
trim-AllPlain t p = ap trim_end (trim_start-AllPlain t p) ∙ trim_end-AllPlain t p

digit_is_plain : (d : ℕ) → d ≤ 9 → is_whitespace (b'0' + d) ≡ false
unfolding is_whitespace
digit_is_plain d h = ground arith

pub AllPlain-ascii : (ds : List ℕ) → AllDigits ds → AllPlain (ascii ds)
AllPlain-ascii [] h = tt
AllPlain-ascii (d ∷ ds) h = (digit_is_plain d h.0, AllPlain-ascii ds h.1)

-- A text that does not go on with a digit.
abbrev pub NoDigit : Text → Type 0
NoDigit [] = Unit {0}
NoDigit (c ∷ t) = is_ascii_digit c ≡ false

take_digits-none : (t : Text) → NoDigit t → take_digits t ≡ record { values = []; rest = t }
unfolding take_digits
take_digits-none [] n = refl
take_digits-none (c ∷ t) n =
    ap
      (λ b.
        if b
        then record { values = (c - b'0') ∷ (take_digits t).values; rest = (take_digits t).rest }
        else record { values = []; rest = c ∷ t })
      n

digit_char : (d : ℕ) → d ≤ 9 → is_ascii_digit (b'0' + d) ≡ true
digit_char d h = ground arith

pub take_digits-ascii :
    (ds : List ℕ) (t : Text)
    → AllDigits ds
    → NoDigit t
    → take_digits (ascii ds ++ t) ≡ record { values = ds; rest = t }
unfolding take_digits
take_digits-ascii [] t h n = take_digits-none t n
take_digits-ascii (d ∷ ds) t h n =
    ap
      (λ b.
        if b
        then record {
          values = (b'0' + d - b'0') ∷ (take_digits (ascii ds ++ t)).values;
          rest = (take_digits (ascii ds ++ t)).rest;
        }
        else record { values = []; rest = (b'0' + d) ∷ (ascii ds ++ t) })
      (digit_char d h.0)
    ∙ ap₂ (λ x (l : Digits). record { values = x ∷ l.values; rest = l.rest }) back
        (take_digits-ascii ds t h.1 n)
  where
    back : b'0' + d - b'0' ≡ d
    back = omega arith

-- A sign in front of a digit.
take_sign-sign :
    (negative : Bool) (c : ℕ) (t : Text)
    → b'0' ≤ c
    → take_sign (sign negative ++ c ∷ t) ≡ record { negative = negative; rest = c ∷ t }
take_sign-sign true c t h = refl
take_sign-sign false c t h =
    ap
      (λ b.
        if b
        then record { negative = true; rest = t }
        else if c == b'+'
        then record { negative = false; rest = t }
        else record { negative = false; rest = c ∷ t })
      no_minus
    ∙ ap
        (λ b.
          if b
          then record { negative = false; rest = t }
          else record { negative = false; rest = c ∷ t })
        no_plus
  where
    no_minus : (c == b'-') ≡ false
    no_minus = ground arith

    no_plus : (c == b'+') ≡ false
    no_plus = ground arith

minus_is_plain : is_whitespace b'-' ≡ false
unfolding is_whitespace
minus_is_plain = refl

pub parse-sign :
    (negative : Bool) (c : ℕ) (t : Text)
    → b'0' ≤ c
    → AllPlain (c ∷ t)
    → parse (sign negative ++ c ∷ t) ≡ parse_unsigned negative (c ∷ t)
unfolding parse
parse-sign negative c t h p =
    ap parse_trimmed (trim-AllPlain (sign negative ++ c ∷ t) (plain negative)) ∙ signed negative
  where
    parse_trimmed : Text → Result Number
    parse_trimmed t' =
        if length t' == 0
        then err empty
        else parse_unsigned (take_sign t').negative (take_sign t').rest

    plain : (b : Bool) → AllPlain (sign b ++ c ∷ t)
    plain true = (minus_is_plain, p)
    plain false = p

    not_empty : (b : Bool) → (length (sign b ++ c ∷ t) == 0) ≡ false
    not_empty true = ground arith
    not_empty false = ground arith

    signed : (b : Bool) → parse_trimmed (sign b ++ c ∷ t) ≡ parse_unsigned b (c ∷ t)
    signed b =
        ap
          (λ q.
            if q
            then err empty
            else parse_unsigned (take_sign (sign b ++ c ∷ t)).negative
                (take_sign (sign b ++ c ∷ t)).rest)
          (not_empty b)
        ∙ ap (λ (s : Signed). parse_unsigned s.negative s.rest) (take_sign-sign b c t h)

some_digits : (a b : ℕ) → 1 ≤ a → (a + b == 0) ≡ false
some_digits a b p = ground arith

-- The integer form, and the form with a point.
pub parse_unsigned-integer :
    (negative : Bool) (int : List ℕ)
    → AllDigits int
    → 1 ≤ length int
    → parse_unsigned negative (ascii int) ≡ from_parts negative int [] (pos 0)
unfolding parse_unsigned take_fraction take_exponent
parse_unsigned-integer negative int h p =
    ap (λ (d : Digits). read d (take_fraction d.rest))
      (ap take_digits (sym (append-nil (ascii int))) ∙ take_digits-ascii int [] h tt)
    ∙ ap (λ b. if b then err invalid_syntax else from_parts negative int [] (pos 0))
        (some_digits (length int) 0 p)
  where
    read : Digits → Digits → Result Number
    read int' frac =
        if length int'.values + length frac.values == 0
        then err invalid_syntax
        else take_exponent frac.rest >>= from_parts negative int'.values frac.values

pub parse_unsigned-point :
    (negative : Bool) (int frac : List ℕ)
    → AllDigits int
    → AllDigits frac
    → 1 ≤ length int
    → parse_unsigned negative (ascii int ++ (b'.' ∷ ascii frac))
      ≡ from_parts negative int frac (pos 0)
unfolding parse_unsigned take_fraction take_exponent
parse_unsigned-point negative int frac h k p =
    ap (λ (d : Digits). read d (take_fraction d.rest))
      (take_digits-ascii int (b'.' ∷ ascii frac) h refl)
    ∙ ap (read (record { values = int; rest = b'.' ∷ ascii frac }))
        (ap take_digits (sym (append-nil (ascii frac))) ∙ take_digits-ascii frac [] k tt)
    ∙ ap (λ b. if b then err invalid_syntax else from_parts negative int frac (pos 0))
        (some_digits (length int) (length frac) p)
  where
    read : Digits → Digits → Result Number
    read int' frac' =
        if length int'.values + length frac'.values == 0
        then err invalid_syntax
        else take_exponent frac'.rest >>= from_parts negative int'.values frac'.values

keep_digits-zeros : (room k : ℕ) → (m : ℕ) × (keep_digits room (zeros k) ≡ ok (zeros m))
unfolding keep_digits
keep_digits-zeros room zero = (0, refl)
keep_digits-zeros zero (suc k) = keep_digits-zeros zero k
keep_digits-zeros (suc room) (suc k) =
    let (m, e) = keep_digits-zeros room k in (suc m, ap (λ r. r >>= (λ kept. ok (0 ∷ kept))) e)

keep_digits-body :
    (room : ℕ) (c : List ℕ) (k : ℕ)
    → length c ≤ room
    → (m : ℕ) × (keep_digits room (c ++ zeros k) ≡ ok (c ++ zeros m))
unfolding keep_digits
keep_digits-body room [] k le = keep_digits-zeros room k
keep_digits-body zero (d ∷ ds) k le = absurd (omega arith)
keep_digits-body (suc room) (d ∷ ds) k le =
    let (m, e) = keep_digits-body room ds k (omega arith) in
    (m, ap (λ r. r >>= (λ kept. ok (d ∷ kept))) e)

from_kept-body :
    (negative : Bool) (c : List ℕ) (e : ℤ)
    → IsBody c
    → InRange e
    → from_kept negative c e ≡ ok (record { digits = c; exponent = e; negative = negative })
unfolding from_kept
from_kept-body negative [] e b r = absurd b
from_kept-body negative (d ∷ ds) e b r =
    ap (λ x. x >>= (λ e'. ok (record { digits = d ∷ ds; exponent = e'; negative = negative })))
      (check_exponent_ok e r)

-- Digits between zeros, with the point anywhere.
pub from_parts-body :
    (negative : Bool) (int frac : List ℕ) (j : ℕ) (c : List ℕ) (k : ℕ) (e : ℤ)
    → int ++ frac ≡ zeros j ++ (c ++ zeros k)
    → IsBody c
    → length c ≤ max_significant_digits
    → pos (length int) -ℤ pos j +ℤ pos 0 ≡ e
    → InRange e
    → from_parts negative int frac (pos 0)
      ≡ ok (record { digits = c; exponent = e; negative = negative })
unfolding from_parts
from_parts-body negative int frac j c k e parts b le places r =
    let (m, kept) = keep_digits-body max_significant_digits c k le in
    ap read parts
    ∙ ap (λ l. from_leading l (drop l (zeros j ++ (c ++ zeros k)))) leading
    ∙ ap (from_leading j) (drop-append_zeros j (c ++ zeros k))
    ∙ ap (λ x. x >>= (λ kept'. from_kept negative (strip_trailing kept') (exponent j))) kept
    ∙ ap₂ (from_kept negative) (strip_trailing-append_zeros c m (IsBody-last c b)) places
    ∙ from_kept-body negative c e b r
  where
    exponent : ℕ → ℤ
    exponent l = pos (length int) -ℤ pos l +ℤ pos 0

    from_leading : ℕ → List ℕ → Result Number
    from_leading l ds =
        keep_digits max_significant_digits ds
        >>= (λ kept'. from_kept negative (strip_trailing kept') (exponent l))

    read : List ℕ → Result Number
    read ds = from_leading (count_zeros ds) (drop (count_zeros ds) ds)

    leading : count_zeros (zeros j ++ (c ++ zeros k)) ≡ j
    leading =
        omega (arith, count_zeros-append_zeros j (c ++ zeros k), count_zeros-IsBody c (zeros k) b)
