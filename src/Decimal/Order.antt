-- ===== src/Decimal/Order.antt =====
-- crates/db-driver-api/src/value/number.rs: `Ord` for `Number`.
use Prim.Native.Nat.{compare, Ordering}
use reldex.Base.Int.{ℤ, pos_part, neg_part}
use reldex.Base.{ℕ, ◌+◌, Bool, true, false, List, [], ◌∷◌}
use reldex.Decimal.Number.{Number}

-- `Ordering::reverse` and `then_with`.
abbrev pub reversed : Ordering → Ordering
reversed Ordering.lt = Ordering.gt
reversed Ordering.eq = Ordering.eq
reversed Ordering.gt = Ordering.lt

abbrev pub then_with : Ordering → Ordering → Ordering
then_with Ordering.eq o = o
then_with Ordering.lt o = Ordering.lt
then_with Ordering.gt o = Ordering.gt

-- `cmp` of `i16`, and of slices.
abbrev pub cmp_exponent : ℤ → ℤ → Ordering
cmp_exponent a b = compare (pos_part a + neg_part b) (pos_part b + neg_part a)

abbrev pub cmp_digits : List ℕ → List ℕ → Ordering
cmp_digits [] [] = Ordering.eq
cmp_digits [] (y ∷ ys) = Ordering.lt
cmp_digits (x ∷ xs) [] = Ordering.gt
cmp_digits (x ∷ xs) (y ∷ ys) = then_with (compare x y) (cmp_digits xs ys)

-- Without the signs.
unfoldable pub cmp_magnitude : List ℕ → ℤ → List ℕ → ℤ → Ordering
cmp_magnitude [] e [] f = Ordering.eq
cmp_magnitude [] e (y ∷ ys) f = Ordering.lt
cmp_magnitude (x ∷ xs) e [] f = Ordering.gt
cmp_magnitude (x ∷ xs) e (y ∷ ys) f = then_with (cmp_exponent e f) (cmp_digits (x ∷ xs) (y ∷ ys))

abbrev pub cmp_signed : Bool → Bool → Ordering → Ordering
cmp_signed false true magnitude = Ordering.gt
cmp_signed true false magnitude = Ordering.lt
cmp_signed false false magnitude = magnitude
cmp_signed true true magnitude = reversed magnitude

unfoldable pub cmp : Number → Number → Ordering
unfolding cmp_magnitude
cmp n m = cmp_signed n.negative m.negative (cmp_magnitude n.digits n.exponent m.digits m.exponent)
