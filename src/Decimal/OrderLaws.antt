-- ===== src/Decimal/OrderLaws.antt =====
-- The order of numbers: when two are equal.
use Prim.Native.Nat.{compare, Ordering}
use reldex.Base.Int.{ℤ, pos_part, neg_part, eq_of_parts}
use reldex.Base.{ℕ, ◌+◌, ◌≡◌, ◌↔◌, refl, sym, ap, ap₂, ◌∙◌, Bool, true, false, List, [], ◌∷◌, arith}
use reldex.Decimal.Number.{Number}
use reldex.Decimal.Canonical.{IsNormal, IsNormalParts}
use reldex.Decimal.Order.{
  reversed, then_with, cmp_exponent, cmp_digits, cmp_magnitude, cmp_signed, cmp,
}

pub compare-swap : (a b : ℕ) → compare b a ≡ reversed (compare a b)
compare-swap a b = ground arith

compare-eq : (a b : ℕ) → compare a b ≡ Ordering.eq → a ≡ b
compare-eq a b h = ground arith

pub compare-same : (a : ℕ) → compare a a ≡ Ordering.eq
compare-same a = ground arith

then_with-reversed :
    (o p : Ordering) → then_with (reversed o) (reversed p) ≡ reversed (then_with o p)
then_with-reversed Ordering.lt p = refl
then_with-reversed Ordering.eq p = refl
then_with-reversed Ordering.gt p = refl

then_with-eq :
    (o p : Ordering) → then_with o p ≡ Ordering.eq → (o ≡ Ordering.eq) × (p ≡ Ordering.eq)
then_with-eq Ordering.eq p h = (refl, h)
then_with-eq Ordering.lt p h = absurd (ground arith)
then_with-eq Ordering.gt p h = absurd (ground arith)

reversed-eq : (o : Ordering) → reversed o ≡ Ordering.eq → o ≡ Ordering.eq
reversed-eq Ordering.lt h = absurd (ground arith)
reversed-eq Ordering.eq h = refl
reversed-eq Ordering.gt h = absurd (ground arith)

pub cmp_digits-swap : (xs ys : List ℕ) → cmp_digits ys xs ≡ reversed (cmp_digits xs ys)
cmp_digits-swap [] [] = refl
cmp_digits-swap [] (y ∷ ys) = refl
cmp_digits-swap (x ∷ xs) [] = refl
cmp_digits-swap (x ∷ xs) (y ∷ ys) =
    ap₂ then_with (compare-swap x y) (cmp_digits-swap xs ys)
    ∙ then_with-reversed (compare x y) (cmp_digits xs ys)

cmp_digits-eq : (xs ys : List ℕ) → cmp_digits xs ys ≡ Ordering.eq → xs ≡ ys
cmp_digits-eq [] [] h = refl
cmp_digits-eq [] (y ∷ ys) h = absurd (ground arith)
cmp_digits-eq (x ∷ xs) [] h = absurd (ground arith)
cmp_digits-eq (x ∷ xs) (y ∷ ys) h =
    let (hx, hs) = then_with-eq (compare x y) (cmp_digits xs ys) h in
    ap₂ ◌∷◌ (compare-eq x y hx) (cmp_digits-eq xs ys hs)

pub cmp_digits-same : (xs : List ℕ) → cmp_digits xs xs ≡ Ordering.eq
cmp_digits-same [] = refl
cmp_digits-same (x ∷ xs) =
    ap (λ o. then_with o (cmp_digits xs xs)) (compare-same x) ∙ cmp_digits-same xs

cmp_signed-eq :
    (a b : Bool) (o : Ordering) → cmp_signed a b o ≡ Ordering.eq → (a ≡ b) × (o ≡ Ordering.eq)
cmp_signed-eq false false o h = (refl, h)
cmp_signed-eq false true o h = absurd (ground arith)
cmp_signed-eq true false o h = absurd (ground arith)
cmp_signed-eq true true o h = (refl, reversed-eq o h)

cmp_signed-same : (a : Bool) → cmp_signed a a Ordering.eq ≡ Ordering.eq
cmp_signed-same false = refl
cmp_signed-same true = refl

cmp_magnitude-eq :
    (xs : List ℕ) (e : ℤ) (a : Bool) (ys : List ℕ) (f : ℤ) (b : Bool)
    → IsNormalParts xs e a
    → IsNormalParts ys f b
    → cmp_magnitude xs e ys f ≡ Ordering.eq
    → (xs ≡ ys) × (e ≡ f)
unfolding cmp_magnitude
cmp_magnitude-eq [] e a [] f b h k c = (refl, h.0 ∙ sym k.0)
cmp_magnitude-eq [] e a (y ∷ ys) f b h k c = absurd (ground arith)
cmp_magnitude-eq (x ∷ xs) e a [] f b h k c = absurd (ground arith)
cmp_magnitude-eq (x ∷ xs) e a (y ∷ ys) f b h k c =
    let (he, hd) = then_with-eq (cmp_exponent e f) (cmp_digits (x ∷ xs) (y ∷ ys)) c in
    (
      cmp_digits-eq (x ∷ xs) (y ∷ ys) hd,
      eq_of_parts e f (compare-eq (pos_part e + neg_part f) (pos_part f + neg_part e) he),
    )

cmp_magnitude-same : (xs : List ℕ) (e : ℤ) → cmp_magnitude xs e xs e ≡ Ordering.eq
unfolding cmp_magnitude
cmp_magnitude-same [] e = refl
cmp_magnitude-same (x ∷ xs) e =
    ap (λ o. then_with o (cmp_digits (x ∷ xs) (x ∷ xs))) (compare-same (pos_part e + neg_part e))
    ∙ cmp_digits-same (x ∷ xs)

-- Numbers in normal form compare as equal exactly if they are the same.
pub cmp_iff : (n m : Number) → IsNormal n → IsNormal m → (cmp n m ≡ Ordering.eq) ↔ (n ≡ m)
unfolding cmp
cmp_iff n m h k = (there, λ e. ap (cmp n) (sym e) ∙ same)
  where
    there : cmp n m ≡ Ordering.eq → n ≡ m
    there c =
        let (signs, magnitude) =
          cmp_signed-eq n.negative m.negative
            (cmp_magnitude n.digits n.exponent m.digits m.exponent) c in
        let (digits, exponent) =
          cmp_magnitude-eq n.digits n.exponent n.negative m.digits m.exponent m.negative h k
            magnitude in
        ap₂ (λ d e. record { digits = d; exponent = e; negative = n.negative }) digits exponent
        ∙ ap (λ b. record { digits = m.digits; exponent = m.exponent; negative = b }) signs

    same : cmp n n ≡ Ordering.eq
    same =
        ap (cmp_signed n.negative n.negative) (cmp_magnitude-same n.digits n.exponent)
        ∙ cmp_signed-same n.negative
