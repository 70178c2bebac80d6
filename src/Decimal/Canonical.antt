-- ===== src/Decimal/Canonical.antt =====
-- `Number::from_digits`: what it accepts and the one form that its results have.
use reldex.Base.Int.{ℤ, pos, ◌-ℤ◌, ◌≤ℤ◌, leb_ℤ}
use reldex.Base.{
  ℕ, ◌≤◌, ◌≡◌, refl, sym, ap, ◌∙◌, subst, Bool, true, false, ◌&&◌, List, [], ◌∷◌, ◌++◌, length,
  drop, any, arith, ltb, Bool-cases, if◌then◌else◌, ◌⊎◌, inl, inr,
}
use reldex.Decimal.Number.{
  Number, ok, err, unwrap_or, invalid_digit, exponent_out_of_range, zero_number, count_zeros,
  strip_trailing, max_significant_digits, min_exponent, max_exponent, check_exponent,
  from_significant, from_digits,
}
use reldex.Decimal.Scaled.{last_is_zero}
use reldex.Decimal.Digits.{
  zeros, AllDigits, AllDigits-any, any-AllDigits, AllDigits-append, AllDigits-zeros,
}
use reldex.Decimal.Zeros.{
  IsBody, count_zeros-append_zeros, drop-append_zeros, split_zeros, strip_trailing-append_zeros,
  count_zeros-drop, count_zeros-head, AllDigits-drop, AllDigits-front,
}

-- The exponents that a number can have.
abbrev pub InRange : ℤ → Type 0
InRange e = (min_exponent ≤ℤ e) × (e ≤ℤ max_exponent)

-- Zero in one form only; else at most forty digits with no zero at either end, and an exponent in
-- range.
abbrev pub IsNormalParts : List ℕ → ℤ → Bool → Type 0
IsNormalParts [] exponent negative = (exponent ≡ pos 0) × (negative ≡ false)
IsNormalParts (d ∷ ds) exponent negative =
    IsBody (d ∷ ds) × (length (d ∷ ds) ≤ max_significant_digits) × InRange exponent

abbrev pub IsNormal : Number → Type 0
IsNormal n = IsNormalParts n.digits n.exponent n.negative

pub check_exponent_ok : (e : ℤ) → InRange e → check_exponent e ≡ ok e
unfolding check_exponent
check_exponent_ok e (low, high) = ground arith

check_exponent-cases :
    (e : ℤ)
    → ((check_exponent e ≡ ok e) × InRange e) ⊎ (check_exponent e ≡ err exponent_out_of_range)
unfolding check_exponent
check_exponent-cases e = elim (Bool-cases (leb_ℤ min_exponent e && leb_ℤ e max_exponent)) [
  | inl t ↦ inl (check_exponent_ok e (in_range t), in_range t)
  | inr f ↦ inr (ground arith)
]
  where
    in_range : (leb_ℤ min_exponent e && leb_ℤ e max_exponent) ≡ true → InRange e
    in_range t = (ground arith, ground arith)

ok-inj : {A : Type 0} (a b : A) → ok a ≡ ok b → a ≡ b
ok-inj a b h = ap (λ r. unwrap_or r a) h

pub from_significant_body :
    (negative : Bool) (c : List ℕ) (e : ℤ)
    → IsBody c
    → length c ≤ max_significant_digits
    → InRange e
    → from_significant negative c e ≡ ok (record { digits = c; exponent = e; negative = negative })
unfolding from_significant
from_significant_body negative [] e b le r = absurd b
from_significant_body negative (d ∷ ds) e b le r = rw (check_exponent_ok e r) (ground arith)

from_digits_parts :
    (negative : Bool) (ds : List ℕ) (e : ℤ) (j : ℕ) (c : List ℕ)
    → any (λ d. ltb 9 d) ds ≡ false
    → count_zeros ds ≡ j
    → strip_trailing (drop j ds) ≡ c
    → from_digits negative ds e ≡ from_significant negative c (e -ℤ pos j)
unfolding from_digits
from_digits_parts negative ds e j c a z s =
    ap
      (λ b.
        if b
        then err invalid_digit
        else from_significant negative (strip_trailing (drop (count_zeros ds) ds))
            (e -ℤ pos (count_zeros ds)))
      a
    ∙ ap (λ i. from_significant negative (strip_trailing (drop i ds)) (e -ℤ pos i)) z
    ∙ ap (λ x. from_significant negative x (e -ℤ pos j)) s

IsBody-count_zeros : (c : List ℕ) → IsBody c → count_zeros c ≡ 0
IsBody-count_zeros [] b = absurd b
IsBody-count_zeros (d ∷ ds) b = ground (arith, b.0)

pub IsBody-last : (c : List ℕ) → IsBody c → last_is_zero c ≡ false
IsBody-last [] b = absurd b
IsBody-last (d ∷ ds) b = b.2

pub IsBody-AllDigits : (c : List ℕ) → IsBody c → AllDigits c
IsBody-AllDigits [] b = absurd b
IsBody-AllDigits (d ∷ ds) b = b.1

pub count_zeros-IsBody : (c ds : List ℕ) → IsBody c → count_zeros (c ++ ds) ≡ 0
count_zeros-IsBody [] ds b = absurd b
count_zeros-IsBody (d ∷ c) ds b = ground (arith, b.0)

-- Digits with no zero at either end, at most forty of them, are accepted between any zeros, and kept
-- as they are with the exponent less by the zeros in front, if that exponent is in range.
pub from_digits_body :
    (negative : Bool) (j : ℕ) (c : List ℕ) (k : ℕ) (e : ℤ)
    → IsBody c
    → length c ≤ max_significant_digits
    → InRange (e -ℤ pos j)
    → from_digits negative (zeros j ++ (c ++ zeros k)) e
      ≡ ok (record { digits = c; exponent = e -ℤ pos j; negative = negative })
from_digits_body negative j c k e b le r =
    from_digits_parts negative (zeros j ++ (c ++ zeros k)) e j c
      (AllDigits-any (zeros j ++ (c ++ zeros k)) all)
      (omega (arith, count_zeros-append_zeros j (c ++ zeros k), count_zeros-IsBody c (zeros k) b))
      (ap strip_trailing (drop-append_zeros j (c ++ zeros k))
        ∙ strip_trailing-append_zeros c k (IsBody-last c b))
    ∙ from_significant_body negative c (e -ℤ pos j) b le r
  where
    all : AllDigits (zeros j ++ (c ++ zeros k))
    all =
        AllDigits-append (zeros j) (c ++ zeros k) (AllDigits-zeros j)
          (AllDigits-append c (zeros k) (IsBody-AllDigits c b) (AllDigits-zeros k))

-- What `from_significant` gives is in normal form, for digits that are a body or none.
from_significant-IsNormal :
    (negative : Bool) (c : List ℕ) (e : ℤ) (n : Number)
    → (1 ≤ length c → IsBody c)
    → from_significant negative c e ≡ ok n
    → IsNormal n
unfolding from_significant
from_significant-IsNormal negative [] e n b h = subst IsNormal (ok-inj zero_number n h) (refl, refl)
from_significant-IsNormal negative (d ∷ ds) e n b h =
    elim (Bool-cases (ltb max_significant_digits (length (d ∷ ds)))) [
      | inl t ↦ absurd (ground arith)
      | inr f ↦ elim (check_exponent-cases e) [
        | inl (eq, r) ↦
            subst IsNormal
              (ok-inj (record { digits = d ∷ ds; exponent = e; negative = negative }) n
                (sym (from_significant_body negative (d ∷ ds) e (b (omega arith)) (ground arith) r)
                  ∙ h))
              (b (omega arith), ground arith, r)
        | inr out ↦ absurd (ground (arith, out))
      ]
    ]

-- Every number that `from_digits` makes, of any digits and exponent, is in normal form.
pub from_digits-IsNormal :
    (negative : Bool) (ds : List ℕ) (e : ℤ) (n : Number)
    → from_digits negative ds e ≡ ok n
    → IsNormal n
unfolding from_digits
from_digits-IsNormal negative ds e n h = elim (Bool-cases (any (λ d. ltb 9 d) ds)) [
  | inl t ↦ absurd (ground arith)
  | inr f ↦
      let (c, k, eq, l) = split_zeros (drop (count_zeros ds) ds) in
      from_significant-IsNormal negative c (e -ℤ pos (count_zeros ds)) n (body f c k eq l) (
        sym (
          from_digits_parts negative ds e (count_zeros ds) c f refl
            (ap strip_trailing eq ∙ strip_trailing-append_zeros c k l))
        ∙ h)
]
  where
    body :
        any (λ d. ltb 9 d) ds ≡ false
        → (c : List ℕ) (k : ℕ) → drop (count_zeros ds) ds ≡ c ++ zeros k
        → last_is_zero c ≡ false
        → 1 ≤ length c
        → IsBody c
    body f [] k eq l p = absurd (omega arith)
    body f (d ∷ xs) k eq l p = (
      count_zeros-head d (xs ++ zeros k) (ap count_zeros (sym eq) ∙ count_zeros-drop ds),
      AllDigits-front (d ∷ xs) (zeros k)
          (subst AllDigits eq (AllDigits-drop (count_zeros ds) ds (any-AllDigits ds f))),
      l,
    )
