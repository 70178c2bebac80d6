-- ===== src/Store/Segment.antt =====
-- crates/db-core/src/store/segment.rs: one fetched batch, compacted. The batch's own buffers that are
-- kept until every column is copied are a list that is handed on.
use reldex.Base.{
  ℕ, ◌+◌, ◌-◌, ◌*◌, Bool, Option, none, some, List, [], ◌∷◌, length, get_elem?, leb, ◌==◌,
  if◌then◌else◌,
}
use reldex.Base.Int.{ℤ}
use reldex.Text.{Text}
use reldex.Decimal.Number.{Number}
use reldex.Decimal.Scaled.{ScaledNumber, required_scale, from_number, to_number}
use reldex.Decimal.Scaled
use reldex.Driver.Vectors.{Vec}
use reldex.Driver.Nulls.{NullMask, is_null}
use reldex.Driver.Texts.{TextColumn, get_text, text_heap_bytes}
use reldex.Driver.Bytes.{BytesColumn, get_bytes, bytes_heap_bytes}
use reldex.Driver.Rows.{Timestamp, option_map}
use reldex.Store.Ids.{SessionId, LobHandle, from_serial}

abbrev pub lob_cell_bytes : ℕ
lob_cell_bytes = 320

pub data NumberStorage : Type 0 where
  scaled : (values : Vec ℤ) → (scale : ℕ) → NumberStorage
  decimal : Vec Number → NumberStorage

pub data Storage : Type 0 where
  boolean : Vec Bool → Storage
  number : NumberStorage → Storage
  float : Vec ℕ → Storage
  double : Vec ℕ → Storage
  text : TextColumn → Storage
  bytes : BytesColumn → Storage
  timestamp : Vec Timestamp → Storage
  json : TextColumn → Storage
  unsupported : TextColumn → Storage
  lob : Vec ℕ → Storage

pub record SegmentColumn : Type 0 where
  pub nulls : NullMask
  pub storage : Storage

-- result_store.rs: why a large object cannot be read any more.
pub data LobUnavailable : Type 0 where
  transaction_ended session_ended result_closed : LobUnavailable

-- scaled.rs: a number as a segment holds it.
pub data NumberValue : Type 0 where
  scaled : ScaledNumber → NumberValue
  decimal : Number → NumberValue

-- `NumberValue::to_number`.
unfoldable pub value_number : NumberValue → Number
value_number (NumberValue.scaled x) = to_number x
value_number (NumberValue.decimal n) = n

pub data CellValue : Type 0 where
  null : CellValue
  boolean : Bool → CellValue
  number : NumberValue → CellValue
  float : ℕ → CellValue
  double : ℕ → CellValue
  text : Text → CellValue
  bytes : List ℕ → CellValue
  timestamp : Timestamp → CellValue
  json : Text → CellValue
  unsupported : Text → CellValue
  lob : LobHandle → CellValue
  lob_unavailable : LobUnavailable → CellValue

-- `ScaledNumber::new(*values.get(row)?, *scale)?`.
abbrev pub scaled_cell : ℕ → Option ℤ → Option CellValue
scaled_cell scale none = none
scaled_cell scale (some m) =
    option_map (λ x. CellValue.number (NumberValue.scaled x)) (Scaled.new m scale)

abbrev pub decimal_cell : Number → CellValue
decimal_cell n = CellValue.number (NumberValue.decimal n)

abbrev pub number_cell : NumberStorage → ℕ → Option CellValue
number_cell (NumberStorage.scaled v scale) row = scaled_cell scale (get_elem? v.items row)
number_cell (NumberStorage.decimal v) row = option_map decimal_cell (get_elem? v.items row)

-- The cells of `SegmentColumn::value` that are not NULL.
unfoldable pub stored_value : SessionId → Storage → ℕ → Option CellValue
unfolding Scaled.new get_text get_bytes
stored_value session (Storage.boolean v) row = option_map CellValue.boolean (get_elem? v.items row)
stored_value session (Storage.number numbers) row = number_cell numbers row
stored_value session (Storage.float v) row = option_map CellValue.float (get_elem? v.items row)
stored_value session (Storage.double v) row = option_map CellValue.double (get_elem? v.items row)
stored_value session (Storage.text c) row = option_map CellValue.text (get_text c row)
stored_value session (Storage.bytes c) row = option_map CellValue.bytes (get_bytes c row)
stored_value session (Storage.timestamp v) row =
    option_map CellValue.timestamp (get_elem? v.items row)
stored_value session (Storage.json c) row = option_map CellValue.json (get_text c row)
stored_value session (Storage.unsupported c) row = option_map CellValue.unsupported (get_text c row)
stored_value session (Storage.lob ids) row =
    option_map (λ id. CellValue.lob (from_serial session id)) (get_elem? ids.items row)

-- `SegmentColumn::value`.
unfoldable pub segment_column_value : SessionId → SegmentColumn → ℕ → Option CellValue
unfolding stored_value is_null
segment_column_value session c row =
    if leb c.nulls.len row
    then none
    else if is_null c.nulls row
    then some CellValue.null
    else stored_value session c.storage row

-- How many large objects of a column are not NULL.
abbrev pub present : List ℕ → ℕ
present [] = 0
present (id ∷ ids) = (if id == 0 then 0 else 1) + present ids

-- `SegmentColumn::heap_bytes`, with the sizes of the types: a `Number` takes 44 bytes, a `Timestamp`
-- sixteen.
unfoldable pub values_bytes : Storage → ℕ
unfolding text_heap_bytes bytes_heap_bytes
values_bytes (Storage.boolean v) = v.capacity * 1
values_bytes (Storage.number (NumberStorage.scaled v scale)) = v.capacity * 8
values_bytes (Storage.number (NumberStorage.decimal v)) = v.capacity * 44
values_bytes (Storage.float v) = v.capacity * 4
values_bytes (Storage.double v) = v.capacity * 8
values_bytes (Storage.text c) = text_heap_bytes c
values_bytes (Storage.bytes c) = bytes_heap_bytes c
values_bytes (Storage.timestamp v) = v.capacity * 16
values_bytes (Storage.json c) = text_heap_bytes c
values_bytes (Storage.unsupported c) = text_heap_bytes c
values_bytes (Storage.lob ids) = ids.capacity * 8 + present ids.items * (lob_cell_bytes - 8)

unfoldable pub heap_bytes : SegmentColumn → ℕ
unfolding values_bytes
heap_bytes c = length c.nulls.bits * 8 + values_bytes c.storage

pub record ResultSegment : Type 0 where
  pub session : SessionId
  pub rows : ℕ
  pub columns : List SegmentColumn
  pub accounted_bytes : ℕ

-- `ResultSegment::value`.
abbrev pub cell_in : SessionId → Option SegmentColumn → ℕ → Option CellValue
cell_in session none row = none
cell_in session (some c) row = segment_column_value session c row

unfoldable pub segment_value : ResultSegment → ℕ → ℕ → Option CellValue
unfolding segment_column_value
segment_value s row column = cell_in s.session (get_elem? s.columns column) row
