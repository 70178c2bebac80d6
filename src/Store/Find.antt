-- ===== src/Store/Find.antt =====
-- crates/db-core/src/store/result_store.rs: reading a row is reading the segments one behind the other.
use reldex.Base.{
  ℕ, suc, ◌+◌, ◌-◌, ◌/◌, ◌<◌, ◌≡◌, refl, sym, ap, ◌∙◌, ◌⊎◌, inl, inr, Bool-cases, true, false,
  Option, none, some, some-inj, List, [], ◌∷◌, arith, min, length, get_elem?, ltb, leb,
  if◌then◌else◌,
}
use reldex.Store.Segment.{ResultSegment, CellValue, segment_value}
use reldex.Store.Result.{ResultStore, row_count}
use reldex.Store.Lookup.{
  partition_point, checked_pred, uniform_index, segment_index, segment_and_start, segment_for_row,
  served, value,
}
use reldex.Store.Final.{retained}
use reldex.Store.Stored.{total, starts_of, HaveRows, AreUniform, IsStored}
use reldex.Store.Found.{locate, locate-eq, locate-AllBut, partition_point-locate}

-- The segment that holds a row and its first row, by walking from the first segment: the reference.
unfoldable pub find_row : List ResultSegment → ℕ → ℕ → Option (ResultSegment × ℕ)
find_row [] start row = none
find_row (x ∷ xs) start row =
    if ltb row x.rows then some (x, start) else find_row xs (start + x.rows) (row - x.rows)

pair_at : List ResultSegment → List ℕ → ℕ → Option (ResultSegment × ℕ)
pair_at segments starts index = elim (get_elem? segments index) [
  | none ↦ none
  | some segment ↦ elim (get_elem? starts index) [
    | none ↦ none
    | some start ↦ some (segment, start)
  ]
]

pair_at-locate :
    (start : ℕ) (xs : List ResultSegment) (row i : ℕ)
    → locate xs row ≡ some i
    → pair_at xs (starts_of start xs) i ≡ find_row xs start row
unfolding pair_at find_row locate
pair_at-locate start [] row i e = cc
pair_at-locate start (x ∷ xs) row i e =
    by_case (λ j. pair_at-locate (start + x.rows) xs (row - x.rows) j) (locate-eq x xs row i e)
  where
    by_case :
        ((j : ℕ)
          → locate xs (row - x.rows) ≡ some j
          → pair_at xs (starts_of (start + x.rows) xs) j
            ≡ find_row xs (start + x.rows) (row - x.rows))
        → ((ltb row x.rows ≡ true) × (i ≡ 0))
          ⊎ ((ltb row x.rows ≡ false) × (j : ℕ) × (locate xs (row - x.rows) ≡ some j) × (i ≡ suc j))
        → pair_at (x ∷ xs) (starts_of start (x ∷ xs)) i ≡ find_row (x ∷ xs) start row
    by_case ih (inl (within, z)) = rw (z, within)
    by_case ih (inr (past, j, found, z)) = rw (z, past) (ih j found)

-- A row below the total is in some segment.
locate-total :
    (xs : List ResultSegment) (row : ℕ) → row < total xs → (i : ℕ) × (locate xs row ≡ some i)
unfolding locate
locate-total [] row h = absurd (omega arith)
locate-total (x ∷ xs) row h = elim (Bool-cases (ltb row x.rows)) [
  | inl within ↦ (0, rw within)
  | inr past ↦
      let (i, found) = locate-total xs (row - x.rows) (ground (arith, past)) in
      (suc i, rw (past, found))
]

one_more_index : (q len : ℕ) → min (1 + q) (suc len) ≡ suc (min q len)
one_more_index q len = omega arith

uniform_index-locate :
    (xs : List ResultSegment) (row i last : ℕ)
    → AreUniform xs
    → HaveRows xs
    → row < total xs
    → length xs ≡ suc last
    → locate xs row ≡ some i
    → uniform_index xs last row ≡ some i
uniform_index-locate [] row i last u h k l e = absurd (omega arith)
uniform_index-locate (x ∷ xs) row i last u h k l e = by_case xs u h k l (locate-eq x xs row i e)
  where
    by_case :
        (xs : List ResultSegment)
        → AreUniform (x ∷ xs)
        → HaveRows (x ∷ xs)
        → row < total (x ∷ xs)
        → length (x ∷ xs) ≡ suc last
        → ((ltb row x.rows ≡ true) × (i ≡ 0))
          ⊎ ((ltb row x.rows ≡ false) × (j : ℕ) × (locate xs (row - x.rows) ≡ some j) × (i ≡ suc j))
        → uniform_index (x ∷ xs) last row ≡ some i
    by_case xs u h k l (inl (within, z)) = rw (within, z)
    by_case [] u h k l (inr (past, j, found, z)) = absurd (ground (arith, past))
    by_case (y ∷ ys) u h k l (inr (past, j, found, z)) = rw past (
        ap some (
          ap (λ n. min (1 + (row - x.rows) / y.rows) n) (omega (arith, l))
          ∙ one_more_index ((row - x.rows) / y.rows) (length ys)
          ∙ ap suc (
              some-inj _ _ (
                sym (locate-AllBut y.rows y ys (row - x.rows) h.1.0 u (ground (arith, past)))
                ∙ found))
          ∙ sym z))

some_last :
    (xs : List ResultSegment) (row : ℕ) → row < total xs → (last : ℕ) × (length xs ≡ suc last)
some_last [] row h = absurd (omega arith)
some_last (x ∷ xs) row h = (length xs, refl)

segment_index-locate :
    (s : ResultStore) (row i : ℕ)
    → IsStored (retained s)
    → row < s.retained_rows
    → locate s.segments.items row ≡ some i
    → segment_index s row ≡ some i
unfolding segment_index
segment_index-locate s row i h k e =
    let below : row < total s.segments.items = omega (arith, h.counted) in
    let (last, len) = some_last s.segments.items row below in
    rw (not_past s.retained_rows row k, ap checked_pred len)
      (elim (Bool-cases s.uniform) [
        | inl uniform ↦ rw uniform (
            uniform_index-locate s.segments.items row i last (h.regular uniform) h.rows below len e)
        | inr skewed ↦ rw skewed (
            ap checked_pred (
              ap (λ l. partition_point l row) h.started
              ∙ ap (partition_point (starts_of 0 s.segments.items)) (omega arith)
              ∙ partition_point-locate 0 s.segments.items row i e))
      ])
  where
    not_past : (bound row : ℕ) → row < bound → leb bound row ≡ false
    not_past bound row h = ground arith

segment_and_start-pair_at :
    (s : ResultStore) (i : ℕ) → segment_and_start s i ≡ pair_at s.segments.items s.starts.items i
unfolding pair_at
segment_and_start-pair_at s i = refl

-- Whichever way a store finds a row, by a division or by a search, it is the way of walking through its
-- segments: a row that is shown lies in the segment that is found, which begins at the start that is
-- found, and no other row is found.
pub segment_for_row-find_row :
    (s : ResultStore) (row : ℕ)
    → IsStored (retained s)
    → segment_for_row s row
      ≡ (if leb (row_count s) row then none else find_row s.segments.items 0 row)
unfolding segment_for_row
segment_for_row-find_row s row h = elim (Bool-cases (leb (row_count s) row)) [
  | inl past ↦ rw past
  | inr shown ↦
      let below : row < s.retained_rows = shown_below s row shown in
      let (i, found) = locate-total s.segments.items row (omega (arith, h.counted)) in
      rw (shown, segment_index-locate s row i h below found)
        (segment_and_start-pair_at s i
          ∙ ap (λ l. pair_at s.segments.items l i) h.started
          ∙ pair_at-locate 0 s.segments.items row i found)
]
  where
    shown_below :
        (s : ResultStore) (row : ℕ) → leb (row_count s) row ≡ false → row < s.retained_rows
    shown_below s row shown = ground (arith, shown)

-- A cell of the segments one behind the other.
unfoldable pub cell_at : List ResultSegment → ℕ → ℕ → Option CellValue
cell_at [] row column = none
cell_at (x ∷ xs) row column =
    if ltb row x.rows then segment_value x row column else cell_at xs (row - x.rows) column

found_cell : ℕ → ℕ → Option (ResultSegment × ℕ) → Option CellValue
found_cell row column none = none
found_cell row column (some (segment, first)) = segment_value segment (row - first) column

find_row-cell_at :
    (xs : List ResultSegment) (start row column : ℕ)
    → found_cell (start + row) column (find_row xs start row) ≡ cell_at xs row column
unfolding find_row cell_at found_cell
find_row-cell_at [] start row column = refl
find_row-cell_at (x ∷ xs) start row column = elim (Bool-cases (ltb row x.rows)) [
  | inl within ↦ rw within (ap (λ n. segment_value x n column) (omega arith))
  | inr past ↦ rw past (
      ap (λ n. found_cell n column (find_row xs (start + x.rows) (row - x.rows)))
        (ground (arith, past))
      ∙ find_row-cell_at xs (start + x.rows) (row - x.rows) column)
]

served_found :
    (s : ResultStore) (row column : ℕ) (o : Option (ResultSegment × ℕ))
    → segment_for_row s row ≡ o
    → value s row column ≡ served s.lobs (found_cell row column o)
unfolding value found_cell
served_found s row column none e = rw (e, value)
served_found s row column (some (segment, first)) e = rw (e, value)

-- A store reads, at a row that it shows, as its segments do one behind the other, but for large objects
-- that cannot be read any more; and past the rows that it shows it reads nothing.
pub value-cell_at :
    (s : ResultStore) (row column : ℕ)
    → IsStored (retained s)
    → value s row column ≡ (
        if leb (row_count s) row then none else served s.lobs (cell_at s.segments.items row column))
unfolding found_cell
value-cell_at s row column h =
    served_found s row column _ (segment_for_row-find_row s row h)
    ∙ elim (Bool-cases (leb (row_count s) row)) [
      | inl past ↦ rw past
      | inr shown ↦ rw shown (
          ap (served s.lobs) (
            ap (λ n. found_cell n column (find_row s.segments.items 0 row)) (omega arith)
            ∙ find_row-cell_at s.segments.items 0 row column))
    ]
