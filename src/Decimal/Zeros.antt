-- ===== src/Decimal/Zeros.antt =====
-- The zeros in front of a run of digits and behind it.
use mathlib.Core.List.{reverse, reverse-append}
use reldex.Base.{
  ℕ, zero, suc, ◌+◌, ◌≤◌, ◌≡◌, refl, ap, ap₂, ◌∙◌, false, List, [], ◌∷◌, ◌++◌, length,
  length-append, take, drop, arith, ◌==◌, Bool-cases, if◌then◌else◌, inl, inr,
}
use reldex.Decimal.Number.{count_zeros, strip_trailing}
use reldex.Decimal.Scaled.{last_is_zero}
use reldex.Decimal.Digits.{zeros, length-zeros, reverse-zeros, AllDigits}

-- Digits that neither begin nor end with a zero.
abbrev pub IsBody : List ℕ → Type 0
IsBody [] = ⊥
IsBody (d ∷ ds) = (1 ≤ d) × AllDigits (d ∷ ds) × (last_is_zero (d ∷ ds) ≡ false)

pub count_zeros-append_zeros :
    (k : ℕ) (ds : List ℕ) → count_zeros (zeros k ++ ds) ≡ k + count_zeros ds
count_zeros-append_zeros zero ds = omega arith
count_zeros-append_zeros (suc k) ds = omega (arith, count_zeros-append_zeros k ds)

pub drop-append_zeros : (k : ℕ) (ds : List ℕ) → drop k (zeros k ++ ds) ≡ ds
drop-append_zeros zero ds = refl
drop-append_zeros (suc k) ds = drop-append_zeros k ds

pub take-append : (ds es : List ℕ) → take (length ds) (ds ++ es) ≡ ds
take-append [] es = refl
take-append (d ∷ ds) es = ap (◌∷◌ d) (take-append ds es)

-- A run of digits ends in as many zeros as it has behind its last other digit.
pub split_zeros :
    (ds : List ℕ) → (c : List ℕ) × (k : ℕ) × (ds ≡ c ++ zeros k) × (last_is_zero c ≡ false)
split_zeros [] = ([], 0, refl, refl)
split_zeros (d ∷ ds) = let (c, k, e, l) = split_zeros ds in behind c k e l
  where
    behind :
        (c : List ℕ) (k : ℕ)
        → ds ≡ c ++ zeros k
        → last_is_zero c ≡ false
        → (c' : List ℕ) × (k' : ℕ) × (d ∷ ds ≡ c' ++ zeros k') × (last_is_zero c' ≡ false)
    behind [] k e l = elim (Bool-cases (d == 0)) [
      | inl z ↦ ([], suc k, ap₂ ◌∷◌ (ground arith) e, refl)
      | inr n ↦ (d ∷ [], k, ap (◌∷◌ d) e, n)
    ]
    behind (x ∷ xs) k e l = (d ∷ x ∷ xs, k, ap (◌∷◌ d) e, l)

last_of :
    (d : ℕ) (ds : List ℕ)
    → (front : List ℕ) × (x : ℕ) × (d ∷ ds ≡ front ++ x ∷ []) × ((x == 0) ≡ last_is_zero (d ∷ ds))
last_of d [] = ([], d, refl, refl)
last_of d (e ∷ ds) = let (front, x, eq, l) = last_of e ds in (d ∷ front, x, ap (◌∷◌ d) eq, l)

count_zeros-reverse : (c : List ℕ) → last_is_zero c ≡ false → count_zeros (reverse c) ≡ 0
count_zeros-reverse [] l = refl
count_zeros-reverse (d ∷ ds) l =
    let (front, x, eq, lx) = last_of d ds in
    ap (λ z. count_zeros (reverse z)) eq
    ∙ ap count_zeros (reverse-append front (x ∷ []))
    ∙ ap (λ b. if b then suc (count_zeros (reverse front)) else 0) (lx ∙ l)

pub strip_trailing-append_zeros :
    (c : List ℕ) (k : ℕ) → last_is_zero c ≡ false → strip_trailing (c ++ zeros k) ≡ c
strip_trailing-append_zeros c k l =
    ap (λ n. take n (c ++ zeros k))
      (omega (arith, counted, length-append c (zeros k), length-zeros k))
    ∙ take-append c (zeros k)
  where
    counted : count_zeros (reverse (c ++ zeros k)) ≡ k
    counted =
        ap count_zeros (reverse-append c (zeros k))
        ∙ ap (λ z. count_zeros (z ++ reverse c)) (reverse-zeros k)
        ∙ count_zeros-append_zeros k (reverse c)
        ∙ omega (arith, count_zeros-reverse c l)

-- Behind the zeros in front no zero comes.
pub count_zeros-drop : (ds : List ℕ) → count_zeros (drop (count_zeros ds) ds) ≡ 0
count_zeros-drop [] = refl
count_zeros-drop (d ∷ ds) = elim (Bool-cases (d == 0)) [
  | inl z ↦
      ap (λ b. count_zeros (drop (if b then suc (count_zeros ds) else 0) (d ∷ ds))) z
      ∙ count_zeros-drop ds
  | inr n ↦
      ap (λ b. count_zeros (drop (if b then suc (count_zeros ds) else 0) (d ∷ ds))) n
      ∙ ap (λ b. if b then suc (count_zeros ds) else 0) n
]

pub count_zeros-head : (d : ℕ) (ds : List ℕ) → count_zeros (d ∷ ds) ≡ 0 → 1 ≤ d
count_zeros-head d ds h = ground arith

pub AllDigits-drop : (k : ℕ) (ds : List ℕ) → AllDigits ds → AllDigits (drop k ds)
AllDigits-drop zero ds h = h
AllDigits-drop (suc k) [] h = tt
AllDigits-drop (suc k) (d ∷ ds) h = AllDigits-drop k ds h.1

pub AllDigits-front : (ds es : List ℕ) → AllDigits (ds ++ es) → AllDigits ds
AllDigits-front [] es h = tt
AllDigits-front (d ∷ ds) es h = (h.0, AllDigits-front ds es h.1)
