-- ===== src/Store/Lookup.antt =====
-- crates/db-core/src/store/result_store.rs: reading a row of a store.
use reldex.Base.{
  ℕ, zero, suc, ◌+◌, ◌-◌, ◌/◌, Bool, true, false, not, ◌||◌, Option, none, some, List, [], ◌∷◌, min,
  length, get_elem?, ltb, leb, if◌then◌else◌,
}
use reldex.Driver.Nulls.{is_null}
use reldex.Store.Segment.{Storage, ResultSegment, CellValue, LobUnavailable, segment_value}
use reldex.Store.Result.{LobCell, ResultStore, row_count}

-- `partition_point(|start| *start <= row)`: how many starts come before the first that is above.
abbrev pub partition_point : List ℕ → ℕ → ℕ
partition_point [] row = 0
partition_point (start ∷ starts) row = if leb start row then suc (partition_point starts row) else 0

abbrev pub checked_pred : ℕ → Option ℕ
checked_pred zero = none
checked_pred (suc n) = some n

abbrev pub rows_at : List ResultSegment → ℕ → Option ℕ
rows_at segments i = elim (get_elem? segments i) [ none ↦ none | some segment ↦ some segment.rows ]

-- A division where every segment between the first and the last has as many rows as the second.
abbrev pub uniform_index : List ResultSegment → ℕ → ℕ → Option ℕ
uniform_index segments last row = elim (rows_at segments 0) [
  | none ↦ none
  | some first ↦ if ltb row first then some 0 else elim (rows_at segments 1) [
    | none ↦ none
    | some rows ↦ some (min (1 + (row - first) / rows) last)
  ]
]

unfoldable pub segment_index : ResultStore → ℕ → Option ℕ
segment_index s row =
    if leb s.retained_rows row then none else elim (checked_pred (length s.segments.items)) [
      | none ↦ none
      | some last ↦
          if s.uniform
          then uniform_index s.segments.items last row
          else checked_pred (partition_point s.starts.items row)
    ]

abbrev pub segment_and_start : ResultStore → ℕ → Option (ResultSegment × ℕ)
segment_and_start s index = elim (get_elem? s.segments.items index) [
  | none ↦ none
  | some segment ↦ elim (get_elem? s.starts.items index) [
    | none ↦ none
    | some start ↦ some (segment, start)
  ]
]

unfoldable pub segment_for_row : ResultStore → ℕ → Option (ResultSegment × ℕ)
unfolding row_count segment_index
segment_for_row s row =
    if leb (row_count s) row
    then none
    else elim (segment_index s row) [ none ↦ none | some index ↦ segment_and_start s index ]

-- A large object reads as unavailable once there is a reason.
abbrev pub as_served : Option LobUnavailable → CellValue → CellValue
as_served (some reason) (CellValue.lob handle) = CellValue.lob_unavailable reason
as_served _ cell = cell

abbrev pub served : Option LobUnavailable → Option CellValue → Option CellValue
served lobs none = none
served lobs (some cell) = some (as_served lobs cell)

-- `ResultStore::value`.
unfoldable pub value : ResultStore → ℕ → ℕ → Option CellValue
unfolding segment_for_row segment_value
value s row column = elim (segment_for_row s row) [
  | none ↦ none
  | some (segment, first) ↦ served s.lobs (segment_value segment (row - first) column)
]

abbrev pub is_lob_storage : Storage → Bool
is_lob_storage (Storage.lob ids) = true
is_lob_storage _ = false

abbrev pub lob_cell : Option LobUnavailable → Option CellValue → Option LobCell
lob_cell (some reason) (some (CellValue.lob handle)) = some (LobCell.unavailable reason)
lob_cell none (some (CellValue.lob handle)) = some (LobCell.readable handle)
lob_cell _ _ = none

-- `ResultStore::lob`.
abbrev pub lob_in : ResultStore → ℕ → ℕ → ResultSegment × ℕ → Option LobCell
lob_in s row column (segment, first) = elim (get_elem? segment.columns column) [
  | none ↦ none
  | some c ↦
      if not (is_lob_storage c.storage) || is_null c.nulls (row - first)
      then none
      else lob_cell s.lobs (segment_value segment (row - first) column)
]

unfoldable pub lob : ResultStore → ℕ → ℕ → Option LobCell
unfolding segment_for_row segment_value is_null
lob s row column = elim (segment_for_row s row) [
  | none ↦ none
  | some found ↦ lob_in s row column found
]
