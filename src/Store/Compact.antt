-- ===== src/Store/Compact.antt =====
-- crates/db-core/src/store/segment.rs: `compact_batch`, which makes a segment of a batch. The buffers
-- of the batch that are kept until every column is copied are a list that is handed on.
use reldex.Base.{
  ℕ, ◌+◌, ◌*◌, Bool, true, false, ◌⊎◌, inl, inr, any, Option, none, some, List, [], ◌∷◌, max, map,
  length, ◌==◌, if◌then◌else◌,
}
use reldex.Base.Int.{ℤ, pos}
use reldex.Text.{byte_len, codes}
use reldex.Decimal.Number.{Number}
use reldex.Decimal.Scaled.{required_scale, from_number}
use reldex.Driver.Error.{DbResult, ok, err, internal}
use reldex.Driver.Vectors.{Vec, exact_vec}
use reldex.Driver.Nulls.{NullMask, is_null}
use reldex.Driver.Texts.{TextColumn, text_heap_bytes, clone_texts}
use reldex.Driver.Bytes.{BytesColumn, bytes_heap_bytes, clone_bytes}
use reldex.Driver.Rows.{ColumnData, Column, RowBatch, empty_batch}
use reldex.Store.Ids.{SessionId, unowned}
use reldex.Store.Segment.{NumberStorage, Storage, SegmentColumn, ResultSegment, heap_bytes}

abbrev pub Spent : Type 0
Spent = List ColumnData

unfoldable pub exact {ℓ} : {A : Type ℓ} → Vec A → Spent → (Vec A → ColumnData) → Vec A × Spent
exact v spent wrap =
    if v.capacity == length v.items then (v, spent) else (exact_vec v.items, wrap v ∷ spent)

unfoldable pub exact_text : TextColumn → Spent → (TextColumn → ColumnData) → TextColumn × Spent
unfolding text_heap_bytes
exact_text c spent wrap =
    if text_heap_bytes c == byte_len c.buffer.text + length c.offsets.items * 8
    then (c, spent)
    else (clone_texts c, wrap c ∷ spent)

unfoldable pub exact_bytes : BytesColumn → Spent → BytesColumn × Spent
unfolding bytes_heap_bytes
exact_bytes c spent =
    if bytes_heap_bytes c == length c.buffer.items + length c.offsets.items * 8
    then (c, spent)
    else (clone_bytes c, ColumnData.bytes c ∷ spent)

-- The first loop of `compact_numbers`: the largest scale that a value which is not NULL requires.
unfoldable pub common_scale : NullMask → ℕ → List Number → ℕ → Option ℕ
unfolding is_null required_scale
common_scale nulls row [] scale = some scale
common_scale nulls row (n ∷ ns) scale = elim (is_null nulls row) [
  | true ↦ common_scale nulls (row + 1) ns scale
  | false ↦ elim (required_scale n) [
    | none ↦ none
    | some needed ↦ common_scale nulls (row + 1) ns (max scale needed)
  ]
]

abbrev pub cons_mantissa : ℤ → Option (List ℤ) → Option (List ℤ)
cons_mantissa m none = none
cons_mantissa m (some ms) = some (m ∷ ms)

-- Its second loop: the mantissas at that scale.
unfoldable pub mantissas : NullMask → ℕ → List Number → ℕ → Option (List ℤ)
unfolding is_null from_number
mantissas nulls row [] scale = some []
mantissas nulls row (n ∷ ns) scale = elim (is_null nulls row) [
  | true ↦ cons_mantissa (pos 0) (mantissas nulls (row + 1) ns scale)
  | false ↦ elim (from_number n scale) [
    | none ↦ none
    | some cell ↦ cons_mantissa cell.mantissa (mantissas nulls (row + 1) ns scale)
  ]
]

abbrev pub keep_decimal : Vec Number → Spent → NumberStorage × Spent
keep_decimal values spent =
    let (kept, spent') = exact values spent ColumnData.number in
    (NumberStorage.decimal kept, spent')

unfoldable pub compact_numbers : Vec Number → NullMask → Spent → NumberStorage × Spent
unfolding common_scale mantissas exact
compact_numbers values nulls spent = elim (common_scale nulls 0 values.items 0) [
  | none ↦ keep_decimal values spent
  | some scale ↦ elim (mantissas nulls 0 values.items scale) [
    | none ↦ keep_decimal values spent
    | some ms ↦ (
      NumberStorage.scaled (record { items = ms; capacity = length values.items }) scale,
      ColumnData.number values ∷ spent,
    )
  ]
]

-- How a locator is parked: a function with a state of its own that gives the id, or an error.
abbrev pub Park : Type 0 → Type 0
Park S = S → ℕ → ℕ → S × DbResult ℕ

-- The sizes that the compiler gives to the structs of a segment.
pub record Layout : Type 0 where
  pub segment_size : ℕ
  pub column_size : ℕ

abbrev pub sum : List ℕ → ℕ
sum [] = 0
sum (n ∷ ns) = n + sum ns

-- With the two counters of the `Arc`.
unfoldable pub accounted : Layout → List SegmentColumn → ℕ
unfolding heap_bytes
accounted l columns =
    l.segment_size + 2 * 8 + length columns * l.column_size + sum (map heap_bytes columns)

module _ {S : Type 0} (park : Park S) where
  abbrev pub cons_id : ℕ → S × DbResult (List ℕ) → S × DbResult (List ℕ)
  cons_id id (s, ok ids) = (s, ok (id ∷ ids))
  cons_id id (s, err e) = (s, err e)

  -- The ids that the locators of a column are parked under, 0 where there is none.
  unfoldable pub park_all : S → ℕ → List (Option ℕ) → S × DbResult (List ℕ)
  park_all s row [] = (s, ok [])
  park_all s row (none ∷ slots) = cons_id 0 (park_all s (row + 1) slots)
  park_all s row (some locator ∷ slots) = elim (park s row locator).1 [
    | err e ↦ ((park s row locator).0, err e)
    | ok id ↦ cons_id id (park_all (park s row locator).0 (row + 1) slots)
  ]

  abbrev pub stored {ℓ} :
      {A : Type ℓ} → S → (A → Storage) → A × Spent → S × DbResult (Storage × Spent)
  stored s wrap (a, spent) = (s, ok (wrap a, spent))

  abbrev pub lob_storage : ℕ → Spent → S × DbResult (List ℕ) → S × DbResult (Storage × Spent)
  lob_storage len spent (s, ok ids) =
      (s, ok (Storage.lob (record { items = ids; capacity = len }), spent))
  lob_storage len spent (s, err e) = (s, err e)

  -- The storage of one column. `ColumnData` has no kind beyond these.
  unfoldable pub compact_column : S → ColumnData → NullMask → Spent → S × DbResult (Storage × Spent)
  unfolding exact exact_text exact_bytes compact_numbers park_all
  compact_column s (ColumnData.boolean v) nulls spent =
      stored s Storage.boolean (exact v spent ColumnData.boolean)
  compact_column s (ColumnData.number v) nulls spent =
      stored s Storage.number (compact_numbers v nulls spent)
  compact_column s (ColumnData.float v) nulls spent =
      stored s Storage.float (exact v spent ColumnData.float)
  compact_column s (ColumnData.double v) nulls spent =
      stored s Storage.double (exact v spent ColumnData.double)
  compact_column s (ColumnData.text c) nulls spent =
      stored s Storage.text (exact_text c spent ColumnData.text)
  compact_column s (ColumnData.bytes c) nulls spent = stored s Storage.bytes (exact_bytes c spent)
  compact_column s (ColumnData.timestamp v) nulls spent =
      stored s Storage.timestamp (exact v spent ColumnData.timestamp)
  compact_column s (ColumnData.json c) nulls spent =
      stored s Storage.json (exact_text c spent ColumnData.json)
  compact_column s (ColumnData.unsupported c) nulls spent =
      stored s Storage.unsupported (exact_text c spent ColumnData.unsupported)
  compact_column s (ColumnData.lob v) nulls spent =
      lob_storage (length v.items) spent (park_all s 0 v.items)

  abbrev pub cons_column :
      NullMask → Storage → S × DbResult (List SegmentColumn) → S × DbResult (List SegmentColumn)
  cons_column nulls storage (s, ok columns) =
      (s, ok (record { nulls = nulls; storage = storage } ∷ columns))
  cons_column nulls storage (s, err e) = (s, err e)

  -- The loop over the columns.
  unfoldable pub compact_columns : S → List Column → Spent → S × DbResult (List SegmentColumn)
  unfolding compact_column
  compact_columns s [] spent = (s, ok [])
  compact_columns s (c ∷ cs) spent =
      let (s', result) = compact_column s c.values c.nulls spent in
      elim result [
        | err e ↦ (s', err e)
        | ok (storage, spent') ↦ cons_column c.nulls storage (compact_columns s' cs spent')
      ]

  abbrev pub segment_of :
      Layout → SessionId → ℕ → S × DbResult (List SegmentColumn) → S × DbResult ResultSegment
  segment_of l session rows (s, err e) = (s, err e)
  segment_of l session rows (s, ok columns) = (
    s,
    ok (record {
      session = session;
      rows = rows;
      columns = columns;
      accounted_bytes = accounted l columns;
    }),
  )

  unfoldable pub compact_batch : Layout → SessionId → S → RowBatch → S × DbResult ResultSegment
  unfolding compact_columns
  compact_batch l session s batch =
      segment_of l session batch.row_count (compact_columns s batch.columns [])

-- `ResultSegment::compact`: a batch with large objects is refused.
abbrev pub is_lob_column : Column → Bool
is_lob_column c = elim c.values [ ColumnData.lob v ↦ true | _ ↦ false ]

abbrev pub never_parks : Park (Unit {0})
never_parks s row locator =
    (s, err (internal (codes "a batch without LOB columns asked to park a locator")))

abbrev pub keep_or_empty : RowBatch → DbResult ResultSegment → ResultSegment ⊎ RowBatch
keep_or_empty batch (ok s) = inl s
keep_or_empty batch (err e) = inr empty_batch

unfoldable pub compact : Layout → RowBatch → ResultSegment ⊎ RowBatch
unfolding compact_batch
compact l batch =
    if any is_lob_column batch.columns
    then inr batch
    else keep_or_empty batch (compact_batch never_parks l unowned tt batch).1
