-- ===== src/Decimal/OrderDigits.antt =====
-- The order of runs of digits is the order of the numbers that they make up.
use Prim.Native.Nat.{compare, Ordering}
use reldex.Base.{
  ℕ, zero, suc, ◌+◌, ◌-◌, ◌*◌, ◌≤◌, ◌<◌, ◌≡◌, refl, sym, ap, ◌∙◌, false, List, [], ◌∷◌, ◌++◌,
  length, length-append, arith,
}
use reldex.Decimal.Scaled.{accumulate, last_is_zero}
use reldex.Decimal.Digits.{zeros, length-zeros, AllDigits, AllDigits-append, AllDigits-zeros}
use reldex.Decimal.Zeros.{IsBody}
use reldex.Decimal.Order.{reversed, then_with, cmp_digits}
use reldex.Decimal.OrderLaws.{cmp_digits-swap, cmp_digits-same}

then_with_assoc : (o p q : Ordering) → then_with (then_with o p) q ≡ then_with o (then_with p q)
then_with_assoc Ordering.lt p q = refl
then_with_assoc Ordering.eq p q = refl
then_with_assoc Ordering.gt p q = refl

then_with_same : (o : Ordering) → then_with o Ordering.eq ≡ o
then_with_same Ordering.lt = refl
then_with_same Ordering.eq = refl
then_with_same Ordering.gt = refl

pub compare-lt : (a b : ℕ) → a < b → compare a b ≡ Ordering.lt
compare-lt a b h = ground arith

compare-digit :
    (a b d e : ℕ)
    → d ≤ 9
    → e ≤ 9
    → compare (a * 10 + d) (b * 10 + e) ≡ then_with (compare a b) (compare d e)
compare-digit a b d e h k = ground arith

-- As many digits behind either number: the numbers decide, then the digits.
compare-accumulate :
    (ds es : List ℕ) (a b : ℕ)
    → length ds ≡ length es
    → AllDigits ds
    → AllDigits es
    → compare (accumulate a ds) (accumulate b es) ≡ then_with (compare a b) (cmp_digits ds es)
compare-accumulate [] [] a b l h k = sym (then_with_same (compare a b))
compare-accumulate [] (e ∷ es) a b l h k = absurd (omega (arith, l))
compare-accumulate (d ∷ ds) [] a b l h k = absurd (omega (arith, l))
compare-accumulate (d ∷ ds) (e ∷ es) a b l h k =
    compare-accumulate ds es (a * 10 + d) (b * 10 + e) (omega (arith, l)) h.1 k.1
    ∙ ap (λ o. then_with o (cmp_digits ds es)) (compare-digit a b d e h.0 k.0)
    ∙ then_with_assoc (compare a b) (compare d e) (cmp_digits ds es)

last_tail : (d : ℕ) (ds : List ℕ) → last_is_zero (d ∷ ds) ≡ false → last_is_zero ds ≡ false
last_tail d [] l = refl
last_tail d (e ∷ ds) l = l

-- A run of zeros is below digits that end in another one.
cmp_digits-zeros :
    (k y q : ℕ) (ys : List ℕ)
    → last_is_zero (y ∷ ys) ≡ false
    → k ≡ length (y ∷ ys) + q
    → cmp_digits (zeros k) (y ∷ ys ++ zeros q) ≡ Ordering.lt
cmp_digits-zeros zero y q ys l e = absurd (omega (arith, e))
cmp_digits-zeros (suc k) zero q [] l e = absurd (ground (arith, l))
cmp_digits-zeros (suc k) zero q (z ∷ zs) l e = cmp_digits-zeros k z q zs l (omega (arith, e))
cmp_digits-zeros (suc k) (suc y) q ys l e =
    ap (λ o. then_with o (cmp_digits (zeros k) (ys ++ zeros q)))
      (compare-lt 0 (suc y) (omega arith))

-- Zeros behind digits that end in another one, up to the same length, do not change the order.
cmp_digits-padded :
    (xs ys : List ℕ) (p q : ℕ)
    → last_is_zero xs ≡ false
    → last_is_zero ys ≡ false
    → length xs + p ≡ length ys + q
    → cmp_digits (xs ++ zeros p) (ys ++ zeros q) ≡ cmp_digits xs ys
cmp_digits-padded [] [] p q l m e =
    ap (λ k. cmp_digits (zeros k) (zeros q)) {x = p} {y = q} (omega (arith, e))
    ∙ cmp_digits-same (zeros q)
cmp_digits-padded [] (y ∷ ys) p q l m e = cmp_digits-zeros p y q ys m (omega (arith, e))
cmp_digits-padded (x ∷ xs) [] p q l m e =
    cmp_digits-swap (zeros q) (x ∷ xs ++ zeros p)
    ∙ ap reversed (cmp_digits-zeros q x p xs l (omega (arith, e)))
cmp_digits-padded (x ∷ xs) (y ∷ ys) p q l m e =
    ap (then_with (compare x y))
      (cmp_digits-padded xs ys p q (last_tail x xs l) (last_tail y ys m) (omega (arith, e)))

accumulate-zeros : (k : ℕ) (ds : List ℕ) → accumulate 0 (zeros k ++ ds) ≡ accumulate 0 ds
accumulate-zeros zero ds = refl
accumulate-zeros (suc k) ds = accumulate-zeros k ds

-- The shorter of two runs of digits that begin with no zero is the smaller number.
compare-shorter :
    (ds es : List ℕ) (e : ℕ)
    → 1 ≤ e
    → AllDigits ds
    → AllDigits (e ∷ es)
    → length ds < length (e ∷ es)
    → compare (accumulate 0 ds) (accumulate 0 (e ∷ es)) ≡ Ordering.lt
compare-shorter ds es e p h k l =
    ap (λ m. compare m (accumulate 0 (e ∷ es)))
      (sym (accumulate-zeros (suc (length es - length ds)) ds))
    ∙ compare-accumulate (zeros (suc (length es - length ds)) ++ ds) (e ∷ es) 0 0
        (omega (
          arith,
          l,
          length-append (zeros (suc (length es - length ds))) ds,
          length-zeros (suc (length es - length ds)),
        ))
        (AllDigits-append (zeros (suc (length es - length ds))) ds
          (AllDigits-zeros (suc (length es - length ds))) h)
        k
    ∙ ap (λ o. then_with o (cmp_digits (zeros (length es - length ds) ++ ds) es))
        (compare-lt 0 e (omega arith))

-- The digits of a number at `p` places.
abbrev pub digits_at : List ℕ → ℕ → ℕ
digits_at ds p = accumulate 0 (ds ++ zeros p)

length-padded : (ds : List ℕ) (p : ℕ) → length (ds ++ zeros p) ≡ length ds + p
length-padded ds p = omega (arith, length-append ds (zeros p), length-zeros p)

-- With fewer places in all, a body is the smaller number.
pub digits_at-shorter :
    (xs ys : List ℕ) (p q : ℕ)
    → IsBody xs
    → IsBody ys
    → length xs + p < length ys + q
    → compare (digits_at xs p) (digits_at ys q) ≡ Ordering.lt
digits_at-shorter xs [] p q b c l = absurd c
digits_at-shorter [] (y ∷ ys) p q b c l = absurd b
digits_at-shorter (x ∷ xs) (y ∷ ys) p q b c l =
    compare-shorter (x ∷ xs ++ zeros p) (ys ++ zeros q) y c.0
      (AllDigits-append (x ∷ xs) (zeros p) b.1 (AllDigits-zeros p))
      (AllDigits-append (y ∷ ys) (zeros q) c.1 (AllDigits-zeros q))
      (omega (arith, l, length-padded xs p, length-padded ys q))

pub digits_at-level :
    (xs ys : List ℕ) (p q : ℕ)
    → IsBody xs
    → IsBody ys
    → length xs + p ≡ length ys + q
    → compare (digits_at xs p) (digits_at ys q) ≡ cmp_digits xs ys
digits_at-level xs [] p q b c l = absurd c
digits_at-level [] (y ∷ ys) p q b c l = absurd b
digits_at-level (x ∷ xs) (y ∷ ys) p q b c l =
    compare-accumulate (x ∷ xs ++ zeros p) (y ∷ ys ++ zeros q) 0 0
      (omega (arith, l, length-padded xs p, length-padded ys q))
      (AllDigits-append (x ∷ xs) (zeros p) b.1 (AllDigits-zeros p))
      (AllDigits-append (y ∷ ys) (zeros q) c.1 (AllDigits-zeros q))
    ∙ cmp_digits-padded (x ∷ xs) (y ∷ ys) p q b.2 c.2 l
