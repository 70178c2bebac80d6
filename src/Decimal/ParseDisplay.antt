-- ===== src/Decimal/ParseDisplay.antt =====
-- A number that is written is read back.
use reldex.Base.Int.{ℤ, pos, negsuc, ◌-ℤ◌, ◌+ℤ◌}
use reldex.Base.{
  ℕ, zero, suc, ◌+◌, ◌-◌, ◌≤◌, ◌≡◌, refl, sym, ap, ap₂, ◌∙◌, subst, Bool, true, false, List, [],
  ◌∷◌, ◌++◌, append-nil, length, length-append, take, drop, replicate, arith, ltb, leb, ◌==◌,
  if◌then◌else◌, Bool-cases, inl, inr,
}
use reldex.Text.{Text, codes, is_whitespace, trim_start, trim_end}
use reldex.Decimal.Number.{
  Number, ok, max_significant_digits, zero_number, ascii, sign, write_digits, display,
}
use reldex.Decimal.Parse.{
  parse, parse_unsigned, take_digits, take_fraction, take_exponent, from_parts, keep_digits,
  from_kept,
}
use reldex.Decimal.Digits.{zeros, length-zeros, AllDigits, AllDigits-append, AllDigits-zeros}
use reldex.Decimal.Zeros.{IsBody}
use reldex.Decimal.Canonical.{InRange, IsNormal, IsNormalParts, IsBody-AllDigits}
use reldex.Decimal.Display.{ascii-append, ascii-zeros, if_true, if_false}
use reldex.Decimal.ParseDigits.{
  AllPlain, AllPlain-append, AllPlain-ascii, parse-sign, parse_unsigned-integer,
  parse_unsigned-point, from_parts-body,
}

-- The digits in front of a point, if there is one, and behind it.
abbrev written : List ℕ → Bool → List ℕ → Text
written int true frac = ascii int ++ (b'.' ∷ ascii frac)
written int false frac = ascii int

-- The forms that `display` writes.
abbrev Form : List ℕ → ℤ → Text → Type 0
Form c e t =
    (int : List ℕ) × (point : Bool) × (frac : List ℕ) × (j : ℕ) × (k : ℕ) × ((t
        ≡ written int point frac)
      × (point ≡ false → frac ≡ [])
      × AllDigits int
      × AllDigits frac
      × (1 ≤ length int)
      × (int ++ frac ≡ zeros j ++ (c ++ zeros k))
      × (pos (length int) -ℤ pos j +ℤ pos 0 ≡ e))

AllDigits-take : (n : ℕ) (ds : List ℕ) → AllDigits ds → AllDigits (take n ds)
AllDigits-take zero ds h = tt
AllDigits-take (suc n) [] h = tt
AllDigits-take (suc n) (d ∷ ds) h = (h.0, AllDigits-take n ds h.1)

AllDigits-rest : (n : ℕ) (ds : List ℕ) → AllDigits ds → AllDigits (drop n ds)
AllDigits-rest zero ds h = h
AllDigits-rest (suc n) [] h = tt
AllDigits-rest (suc n) (d ∷ ds) h = AllDigits-rest n ds h.1

take-drop : (n : ℕ) (ds : List ℕ) → take n ds ++ drop n ds ≡ ds
take-drop zero ds = refl
take-drop (suc n) [] = refl
take-drop (suc n) (d ∷ ds) = ap (◌∷◌ d) (take-drop n ds)

length-take : (n : ℕ) (ds : List ℕ) → n ≤ length ds → length (take n ds) ≡ n
length-take zero ds le = refl
length-take (suc n) [] le = absurd (omega arith)
length-take (suc n) (d ∷ ds) le = ap suc (length-take n ds (omega arith))

zero_places : (l e : ℕ) → l ≡ e → pos l -ℤ pos 0 +ℤ pos 0 ≡ pos e
unfolding ◌-ℤ◌ ◌+ℤ◌
zero_places l e h = ground arith

below_places : (j : ℕ) → pos 1 -ℤ pos (suc (suc j)) +ℤ pos 0 ≡ negsuc j
unfolding ◌-ℤ◌ ◌+ℤ◌
below_places j = ground arith

integer-Form :
    (c : List ℕ) (e : ℕ)
    → AllDigits c
    → 1 ≤ length c
    → length c ≤ e
    → Form c (pos e) (ascii c ++ replicate (e - length c) b'0')
integer-Form c e h p le = (
  c ++ zeros (e - length c),
  false,
  [],
  0,
  e - length c,
  (
    sym (
        ascii-append c (zeros (e - length c))
        ∙ ap (λ z. ascii c ++ z) (ascii-zeros (e - length c))),
    λ x. refl,
    AllDigits-append c (zeros (e - length c)) h (AllDigits-zeros (e - length c)),
    tt,
    omega (arith, length-append c (zeros (e - length c))),
    append-nil (c ++ zeros (e - length c)),
    zero_places (length (c ++ zeros (e - length c))) e
        (omega (arith, length-append c (zeros (e - length c)), length-zeros (e - length c))),
  ),
)

point-Form :
    (c : List ℕ) (e : ℕ)
    → AllDigits c
    → 1 ≤ e
    → e ≤ length c
    → Form c (pos e) (ascii (take e c) ++ (b'.' ∷ ascii (drop e c)))
point-Form c e h p le = (
  take e c,
  true,
  drop e c,
  0,
  0,
  (
    refl,
    λ x. absurd (ground arith),
    AllDigits-take e c h,
    AllDigits-rest e c h,
    omega (arith, length-take e c le),
    take-drop e c ∙ sym (append-nil c),
    zero_places (length (take e c)) e (length-take e c le),
  ),
)

fraction-Form :
    (c : List ℕ) (j : ℕ) (e : ℤ)
    → AllDigits c
    → pos 1 -ℤ pos (suc j) +ℤ pos 0 ≡ e
    → Form c e (codes "0." ++ (replicate j b'0' ++ ascii c))
fraction-Form c j e h places = (
  0 ∷ [],
  true,
  zeros j ++ c,
  suc j,
  0,
  (
    ap (λ z. codes "0." ++ z)
        (ap (λ z. z ++ ascii c) (sym (ascii-zeros j)) ∙ sym (ascii-append (zeros j) c)),
    λ x. absurd (ground arith),
    (omega arith, tt),
    AllDigits-append (zeros j) c (AllDigits-zeros j) h,
    omega arith,
    ap (λ z. 0 ∷ (zeros j ++ z)) (sym (append-nil c)),
    places,
  ),
)

write_digits-Form : (c : List ℕ) (e : ℤ) → AllDigits c → 1 ≤ length c → Form c e (write_digits c e)
unfolding write_digits ◌-ℤ◌ ◌+ℤ◌
write_digits-Form c (negsuc j) h p = fraction-Form c (suc j) (negsuc j) h (below_places j)
write_digits-Form c (pos e) h p = elim (Bool-cases (leb (length c) e)) [
  | inl t ↦
      subst (Form c (pos e)) (sym (if_true (leb (length c) e) integer (smaller (ltb 0 e)) t))
        (integer-Form c e h p (ground arith))
  | inr f ↦
      subst (Form c (pos e)) (sym (if_false (leb (length c) e) integer (smaller (ltb 0 e)) f))
        (elim (Bool-cases (ltb 0 e)) [
          | inl t ↦
              subst (Form c (pos e)) (sym (ap smaller t))
                (point-Form c e h (ground arith) (ground arith))
          | inr g ↦
              subst (Form c (pos e)) (sym (ap smaller g))
                (fraction-Form c 0 (pos e) h (ap pos (ground arith)))
        ])
]
  where
    integer : Text
    integer = ascii c ++ replicate (e - length c) b'0'

    smaller : Bool → Text
    smaller b = if b then ascii (take e c) ++ (b'.' ∷ ascii (drop e c)) else codes "0." ++ ascii c

point_is_plain : AllPlain (b'.' ∷ [])
unfolding is_whitespace
point_is_plain = (refl, tt)

written-AllPlain :
    (int : List ℕ) (point : Bool) (frac : List ℕ)
    → AllDigits int
    → AllDigits frac
    → AllPlain (written int point frac)
written-AllPlain int true frac h k =
    AllPlain-append (ascii int) (b'.' ∷ ascii frac) (AllPlain-ascii int h)
      (point_is_plain.0, AllPlain-ascii frac k)
written-AllPlain int false frac h k = AllPlain-ascii int h

parse_unsigned-written :
    (negative : Bool) (int : List ℕ) (point : Bool) (frac : List ℕ)
    → (point ≡ false → frac ≡ [])
    → AllDigits int
    → AllDigits frac
    → 1 ≤ length int
    → parse_unsigned negative (written int point frac) ≡ from_parts negative int frac (pos 0)
parse_unsigned-written negative int true frac n h k p = parse_unsigned-point negative int frac h k p
parse_unsigned-written negative int false frac n h k p =
    parse_unsigned-integer negative int h p
    ∙ ap (λ f. from_parts negative int f (pos 0)) (sym (n refl))

parse-written :
    (negative : Bool) (int : List ℕ) (point : Bool) (frac : List ℕ)
    → AllDigits int
    → AllDigits frac
    → 1 ≤ length int
    → parse (sign negative ++ written int point frac)
      ≡ parse_unsigned negative (written int point frac)
parse-written negative [] point frac h k p = absurd (omega arith)
parse-written negative (i ∷ int) true frac h k p =
    parse-sign negative (b'0' + i) (ascii int ++ (b'.' ∷ ascii frac)) (omega arith)
      (written-AllPlain (i ∷ int) true frac h k)
parse-written negative (i ∷ int) false frac h k p =
    parse-sign negative (b'0' + i) (ascii int) (omega arith)
      (written-AllPlain (i ∷ int) false frac h k)

parse-Form :
    (negative : Bool) (c : List ℕ) (e : ℤ) (t : Text)
    → Form c e t
    → IsBody c
    → length c ≤ max_significant_digits
    → InRange e
    → parse (sign negative ++ t) ≡ ok (record { digits = c; exponent = e; negative = negative })
parse-Form negative c e t (int, point, frac, j, k, (eq, n, hi, hf, p, parts, places)) b le r =
    ap (λ x. parse (sign negative ++ x)) eq
    ∙ parse-written negative int point frac hi hf p
    ∙ parse_unsigned-written negative int point frac n hi hf p
    ∙ from_parts-body negative int frac j c k e parts b le places r

parse_zero : parse (codes "0") ≡ ok zero_number
unfolding parse parse_unsigned take_digits take_fraction take_exponent from_parts keep_digits
    from_kept trim_start trim_end is_whitespace
parse_zero = refl

-- A number in normal form, written out, is parsed to itself.
pub parse-display : (n : Number) → IsNormal n → parse (display n) ≡ ok n
unfolding display
parse-display n h = by_parts n.digits n.exponent n.negative h
  where
    by_parts :
        (c : List ℕ) (e : ℤ) (negative : Bool)
        → IsNormalParts c e negative
        → parse (display (record { digits = c; exponent = e; negative = negative }))
          ≡ ok (record { digits = c; exponent = e; negative = negative })
    by_parts [] e negative (he, hn) =
        parse_zero
        ∙ ap₂ (λ e' b. ok (record { digits = []; exponent = e'; negative = b })) (sym he) (sym hn)
    by_parts (d ∷ ds) e negative (b, le, r) =
        ap (λ z. parse (if z then codes "0" else sign negative ++ write_digits (d ∷ ds) e))
          (some_digits ds)
        ∙ parse-Form negative (d ∷ ds) e (write_digits (d ∷ ds) e)
            (write_digits-Form (d ∷ ds) e (IsBody-AllDigits (d ∷ ds) b) (omega arith)) b le r
      where
        some_digits : (ds : List ℕ) → (suc (length ds) == 0) ≡ false
        some_digits ds = ground arith
