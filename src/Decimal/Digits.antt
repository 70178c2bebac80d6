-- ===== src/Decimal/Digits.antt =====
-- Runs of decimal digits: their values, their zeros at both ends, and the digits of a number.
use mathlib.Core.List.{reverse, reverse-cons}
use reldex.Base.{
  ℕ, zero, suc, ◌+◌, ◌-◌, ◌*◌, ◌/◌, ◌%◌, ◌≤◌, ◌≡◌, refl, ap, ap₂, ◌∙◌, false, List, [], ◌∷◌, ◌++◌,
  append-nil, length, replicate, any, arith, ltb, ◌==◌, if◌then◌else◌,
}
use reldex.Decimal.Scaled.{accumulate, times_ten, digits_onto}

-- Every element is a decimal digit.
abbrev pub AllDigits : List ℕ → Type 0
AllDigits [] = Unit {0}
AllDigits (d ∷ ds) = (d ≤ 9) × AllDigits ds

pub AllDigits-any : (ds : List ℕ) → AllDigits ds → any (λ d. ltb 9 d) ds ≡ false
AllDigits-any [] h = refl
AllDigits-any (d ∷ ds) h = ground (arith, AllDigits-any ds h.1)

pub any-AllDigits : (ds : List ℕ) → any (λ d. ltb 9 d) ds ≡ false → AllDigits ds
any-AllDigits [] h = tt
any-AllDigits (d ∷ ds) h = (ground arith, any-AllDigits ds (ground arith))

pub AllDigits-append : (ds es : List ℕ) → AllDigits ds → AllDigits es → AllDigits (ds ++ es)
AllDigits-append [] es h k = k
AllDigits-append (d ∷ ds) es h k = (h.0, AllDigits-append ds es h.1 k)

abbrev pub zeros : ℕ → List ℕ
zeros k = replicate k 0

pub AllDigits-zeros : (k : ℕ) → AllDigits (zeros k)
AllDigits-zeros zero = tt
AllDigits-zeros (suc k) = (omega arith, AllDigits-zeros k)

pub length-zeros : (k : ℕ) → length (zeros k) ≡ k
length-zeros zero = refl
length-zeros (suc k) = ap suc (length-zeros k)

pub zeros-snoc : (k : ℕ) (ds : List ℕ) → zeros k ++ 0 ∷ ds ≡ 0 ∷ (zeros k ++ ds)
zeros-snoc zero ds = refl
zeros-snoc (suc k) ds = ap (◌∷◌ 0) (zeros-snoc k ds)

pub reverse-zeros : (k : ℕ) → reverse (zeros k) ≡ zeros k
reverse-zeros zero = refl
reverse-zeros (suc k) =
    reverse-cons 0 (zeros k)
    ∙ ap (λ x. x ++ 0 ∷ []) (reverse-zeros k)
    ∙ zeros-snoc k []
    ∙ ap (◌∷◌ 0) (append-nil (zeros k))

pub accumulate-append :
    (m : ℕ) (ds es : List ℕ) → accumulate m (ds ++ es) ≡ accumulate (accumulate m ds) es
accumulate-append m [] es = refl
accumulate-append m (d ∷ ds) es = accumulate-append (m * 10 + d) ds es

pub times_ten-zeros : (k m : ℕ) → times_ten k m ≡ accumulate m (zeros k)
times_ten-zeros zero m = refl
times_ten-zeros (suc k) m =
    times_ten-zeros k (m * 10) ∙ ap (λ x. accumulate x (zeros k)) (omega arith)

-- More digits make no smaller number, and a number below a power of ten.
pub accumulate-le : (m : ℕ) (ds : List ℕ) → m ≤ accumulate m ds
accumulate-le m [] = omega arith
accumulate-le m (d ∷ ds) = omega (arith, accumulate-le (m * 10 + d) ds)

not_zero : (n : ℕ) → 1 ≤ n → (n == 0) ≡ false
not_zero n p = ground arith

pub digits_onto_push :
    (places m d : ℕ) (acc : List ℕ)
    → d ≤ 9
    → 1 ≤ m * 10 + d
    → digits_onto (suc places) (m * 10 + d) acc ≡ digits_onto places m (d ∷ acc)
unfolding digits_onto
digits_onto_push places m d acc h p =
    ap (λ b. if b then acc else digits_onto places ((m * 10 + d) / 10) ((m * 10 + d) % 10 ∷ acc))
      (not_zero (m * 10 + d) p)
    ∙ ap₂ (λ q r. digits_onto places q (r ∷ acc)) (omega arith) (omega arith)

-- The digits of a number that was accumulated are those digits.
pub digits_onto-accumulate :
    (ds : List ℕ) (places m : ℕ) (acc : List ℕ)
    → 1 ≤ m
    → AllDigits ds
    → digits_onto (places + length ds) (accumulate m ds) acc ≡ digits_onto places m (ds ++ acc)
digits_onto-accumulate [] places m acc p h = ap (λ k. digits_onto k m acc) (omega arith)
digits_onto-accumulate (d ∷ ds) places m acc p h =
    ap (λ k. digits_onto k (accumulate (m * 10 + d) ds) acc) (omega arith)
    ∙ digits_onto-accumulate ds (suc places) (m * 10 + d) acc (omega arith) h.1
    ∙ digits_onto_push places m d (ds ++ acc) h.0 (omega arith)

digits_onto_zero : (places : ℕ) (acc : List ℕ) → digits_onto places 0 acc ≡ acc
unfolding digits_onto
digits_onto_zero zero acc = refl
digits_onto_zero (suc places) acc = refl

pub digits_onto_all :
    (places d : ℕ) (ds : List ℕ)
    → length (d ∷ ds) ≤ places
    → 1 ≤ d
    → AllDigits (d ∷ ds)
    → digits_onto places (accumulate 0 (d ∷ ds)) [] ≡ d ∷ ds
digits_onto_all places d ds le p h =
    ap (λ k. digits_onto k (accumulate (0 * 10 + d) ds) []) (omega (arith, le))
    ∙ digits_onto-accumulate ds (suc (places - length (d ∷ ds))) (0 * 10 + d) [] (omega arith) h.1
    ∙ digits_onto_push (places - length (d ∷ ds)) 0 d (ds ++ []) h.0 (omega arith)
    ∙ digits_onto_zero (places - length (d ∷ ds)) (d ∷ (ds ++ []))
    ∙ ap (◌∷◌ d) (append-nil ds)
