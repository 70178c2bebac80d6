-- ===== src/Store/Found.antt =====
-- crates/db-core/src/store/result_store.rs: both ways to find a row find the segment that holds it.
use native.Mathlib.Nat.{div-eq_of_lt, div-eq-sub-div}
use reldex.Base.{
  ℕ, suc, ◌+◌, ◌-◌, ◌/◌, ◌≤◌, ◌<◌, ◌≡◌, refl, sym, ap, ◌∙◌, inl, inr, Bool-cases, true, false,
  Option, none, some, some-inj, Option-cases, ◌⊎◌, List, [], ◌∷◌, arith, min, length, ltb,
  if◌then◌else◌,
}
use reldex.Store.Segment.{ResultSegment}
use reldex.Store.Lookup.{partition_point}
use reldex.Store.Stored.{total, starts_of, AllBut}

-- The segment that holds a row, by walking from the first: the reference.
unfoldable pub locate : List ResultSegment → ℕ → Option ℕ
locate [] row = none
locate (x ∷ xs) row =
    if ltb row x.rows
    then some 0
    else elim (locate xs (row - x.rows)) [ none ↦ none | some i ↦ some (suc i) ]

pub locate-within :
    (x : ResultSegment) (xs : List ResultSegment) (row : ℕ)
    → ltb row x.rows ≡ true
    → locate (x ∷ xs) row ≡ some 0
unfolding locate
locate-within x xs row h = rw h

pub locate-past :
    (x : ResultSegment) (xs : List ResultSegment) (row i : ℕ)
    → ltb row x.rows ≡ false
    → locate xs (row - x.rows) ≡ some i
    → locate (x ∷ xs) row ≡ some (suc i)
unfolding locate
locate-past x xs row i h e = rw (h, e)

one_more :
    (rows row len : ℕ)
    → 1 ≤ rows
    → rows ≤ row
    → suc (min ((row - rows) / rows) len) ≡ min (row / rows) (suc len)
one_more rows row len p h = omega (arith, div-eq-sub-div p h)

no_more : (rows row len : ℕ) → row < rows → ◌≡◌ {A = ℕ} 0 (min (row / rows) len)
no_more rows row len h = omega (arith, div-eq_of_lt h)

-- Where all segments but the last have as many rows, the row is found by a division.
pub locate-AllBut :
    (rows : ℕ) (x : ResultSegment) (xs : List ResultSegment) (row : ℕ)
    → 1 ≤ rows
    → AllBut rows (x ∷ xs)
    → row < total (x ∷ xs)
    → locate (x ∷ xs) row ≡ some (min (row / rows) (length xs))
locate-AllBut rows x [] row p h k = locate-within x [] row (ground arith) ∙ ap some (omega arith)
locate-AllBut rows x (y ∷ xs) row p (e, h) k = elim (Bool-cases (ltb row x.rows)) [
  | inl within ↦
      locate-within x (y ∷ xs) row within ∙ ap some (no_more rows row _ (ground (arith, e, within)))
  | inr past ↦
      locate-past x (y ∷ xs) row _ past
        (locate-AllBut rows y xs (row - x.rows) p h (ground (arith, past)))
      ∙ ap some (
          ap (λ n. suc (min ((row - n) / rows) (length xs))) e
          ∙ one_more rows row (length xs) p (ground (arith, e, past)))
]

pub locate-eq :
    (x : ResultSegment) (xs : List ResultSegment) (row i : ℕ)
    → locate (x ∷ xs) row ≡ some i
    → ((ltb row x.rows ≡ true) × (i ≡ 0))
      ⊎ ((ltb row x.rows ≡ false) × (j : ℕ) × (locate xs (row - x.rows) ≡ some j) × (i ≡ suc j))
unfolding locate
locate-eq x xs row i e = elim (Bool-cases (ltb row x.rows)) [
  | inl within ↦ inl (within, sym (some-inj _ _ (rw within at e)))
  | inr past ↦ elim (Option-cases (locate xs (row - x.rows))) [
    | inl nothing ↦ absurd (cc (rw (past, nothing) at e))
    | inr (j, found) ↦ inr (past, j, found, sym (some-inj _ _ (rw (past, found) at e)))
  ]
]

partition_point-above :
    (start : ℕ) (xs : List ResultSegment) (row : ℕ)
    → row < start
    → partition_point (starts_of start xs) row ≡ 0
partition_point-above start [] row h = refl
partition_point-above start (x ∷ xs) row h = ground arith

partition_point-here :
    (start row : ℕ) (starts : List ℕ)
    → start ≤ row
    → partition_point (start ∷ starts) row ≡ suc (partition_point starts row)
partition_point-here start row starts h = ground arith

-- The starts that are not above a row are as many as the segments up to the one that holds it.
pub partition_point-locate :
    (start : ℕ) (xs : List ResultSegment) (row i : ℕ)
    → locate xs row ≡ some i
    → partition_point (starts_of start xs) (start + row) ≡ suc i
unfolding locate
partition_point-locate start [] row i e = cc
partition_point-locate start (x ∷ xs) row i e =
    partition_point-here start (start + row) (starts_of (start + x.rows) xs) (omega arith)
    ∙ ap suc (
        rest (λ j. partition_point-locate (start + x.rows) xs (row - x.rows) j)
          (locate-eq x xs row i e))
  where
    rest :
        ((j : ℕ)
          → locate xs (row - x.rows) ≡ some j
          → partition_point (starts_of (start + x.rows) xs) (start + x.rows + (row - x.rows))
            ≡ suc j)
        → ((ltb row x.rows ≡ true) × (i ≡ 0))
          ⊎ ((ltb row x.rows ≡ false) × (j : ℕ) × (locate xs (row - x.rows) ≡ some j) × (i ≡ suc j))
        → partition_point (starts_of (start + x.rows) xs) (start + row) ≡ i
    rest ih (inl (within, z)) =
        partition_point-above (start + x.rows) xs (start + row) (ground (arith, within)) ∙ sym z
    rest ih (inr (past, j, found, z)) =
        ap (partition_point (starts_of (start + x.rows) xs)) (ground (arith, past))
        ∙ ih j found
        ∙ sym z
