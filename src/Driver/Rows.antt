-- ===== src/Driver/Rows.antt =====
-- crates/db-driver-api/src/result.rs: `ColumnData`, `Column` and `RowBatch`. A float is its bit
-- pattern, and a `LobLocator`, which only its driver can read, is the number that stands for it.
use reldex.Base.{
  ℕ, zero, suc, Bool, true, false, not, ◌&&◌, Option, none, some, List, [], ◌∷◌, length, get_elem?,
  any, ltb, leb, ◌==◌, if◌then◌else◌,
}
use reldex.Base.Int.{ℤ}
use reldex.Text.{Text, codes}
use reldex.Decimal.Number.{Number}
use reldex.Driver.Error.{DbResult, ok, err, internal}
use reldex.Driver.Vectors.{Vec}
use reldex.Driver.Nulls.{NullMask, new_mask, is_null}
use reldex.Driver.Texts.{TextColumn, text_count, get_text}
use reldex.Driver.Bytes.{BytesColumn, bytes_count, get_bytes}

-- value/temporal.rs: the zone and the fields of a `Timestamp`.
pub data TimeZone : Type 0 where
  unspecified : TimeZone
  offset : (minutes : ℤ) → TimeZone

pub record Timestamp : Type 0 where
  pub year : ℤ
  pub month : ℕ
  pub day : ℕ
  pub hour : ℕ
  pub minute : ℕ
  pub second : ℕ
  pub nanosecond : ℕ
  pub zone : TimeZone

pub data ColumnKind : Type 0 where
  boolean number float double text bytes timestamp json lob unsupported : ColumnKind

pub data ColumnData : Type 0 where
  boolean : Vec Bool → ColumnData
  number : Vec Number → ColumnData
  float : Vec ℕ → ColumnData
  double : Vec ℕ → ColumnData
  text : TextColumn → ColumnData
  bytes : BytesColumn → ColumnData
  timestamp : Vec Timestamp → ColumnData
  json : TextColumn → ColumnData
  lob : Vec (Option ℕ) → ColumnData
  unsupported : TextColumn → ColumnData

-- `ColumnData::len`.
unfoldable pub data_len : ColumnData → ℕ
unfolding text_count bytes_count
data_len (ColumnData.boolean v) = length v.items
data_len (ColumnData.number v) = length v.items
data_len (ColumnData.float v) = length v.items
data_len (ColumnData.double v) = length v.items
data_len (ColumnData.text c) = text_count c
data_len (ColumnData.bytes c) = bytes_count c
data_len (ColumnData.timestamp v) = length v.items
data_len (ColumnData.json c) = text_count c
data_len (ColumnData.lob v) = length v.items
data_len (ColumnData.unsupported c) = text_count c

unfoldable pub kind : ColumnData → ColumnKind
kind (ColumnData.boolean v) = ColumnKind.boolean
kind (ColumnData.number v) = ColumnKind.number
kind (ColumnData.float v) = ColumnKind.float
kind (ColumnData.double v) = ColumnKind.double
kind (ColumnData.text c) = ColumnKind.text
kind (ColumnData.bytes c) = ColumnKind.bytes
kind (ColumnData.timestamp v) = ColumnKind.timestamp
kind (ColumnData.json c) = ColumnKind.json
kind (ColumnData.lob v) = ColumnKind.lob
kind (ColumnData.unsupported c) = ColumnKind.unsupported

pub record Column : Type 0 where
  pub values : ColumnData
  pub nulls : NullMask

-- `Column::new`, which holds the mask to the length of the values, and `Column::not_null`.
unfoldable pub column_of : ColumnData → NullMask → DbResult Column
unfolding data_len
column_of values nulls =
    if data_len values == nulls.len
    then ok (record { values = values; nulls = nulls })
    else err (internal (codes "column and NULL mask differ in length"))

unfoldable pub not_null : ColumnData → Column
unfolding data_len new_mask
not_null values = record { values = values; nulls = new_mask (data_len values) }

-- value/mod.rs: a cell as it is read from a batch.
pub data ValueRef : Type 0 where
  null : ValueRef
  boolean : Bool → ValueRef
  number : Number → ValueRef
  float : ℕ → ValueRef
  double : ℕ → ValueRef
  text : Text → ValueRef
  bytes : List ℕ → ValueRef
  timestamp : Timestamp → ValueRef
  json : Text → ValueRef
  unsupported : Text → ValueRef
  lob : ℕ → ValueRef
  taken : ValueRef

abbrev pub option_map {ℓ κ} : {A : Type ℓ} {B : Type κ} → (A → B) → Option A → Option B
option_map f none = none
option_map f (some a) = some (f a)

-- `Some(locator)` reads as it, and a locator that something took as `Taken`.
abbrev pub locator_value : Option ℕ → ValueRef
locator_value none = ValueRef.taken
locator_value (some locator) = ValueRef.lob locator

-- The cells of `Column::value` that are not NULL.
unfoldable pub present_value : ColumnData → ℕ → Option ValueRef
unfolding get_text get_bytes
present_value (ColumnData.boolean v) row = option_map ValueRef.boolean (get_elem? v.items row)
present_value (ColumnData.number v) row = option_map ValueRef.number (get_elem? v.items row)
present_value (ColumnData.float v) row = option_map ValueRef.float (get_elem? v.items row)
present_value (ColumnData.double v) row = option_map ValueRef.double (get_elem? v.items row)
present_value (ColumnData.text c) row = option_map ValueRef.text (get_text c row)
present_value (ColumnData.bytes c) row = option_map ValueRef.bytes (get_bytes c row)
present_value (ColumnData.timestamp v) row = option_map ValueRef.timestamp (get_elem? v.items row)
present_value (ColumnData.json c) row = option_map ValueRef.json (get_text c row)
present_value (ColumnData.unsupported c) row = option_map ValueRef.unsupported (get_text c row)
present_value (ColumnData.lob v) row = option_map locator_value (get_elem? v.items row)

-- `Column::value`.
unfoldable pub column_value : Column → ℕ → Option ValueRef
unfolding present_value is_null data_len
column_value c row =
    if leb (data_len c.values) row
    then none
    else if is_null c.nulls row
    then some ValueRef.null
    else present_value c.values row

-- `Column::is_taken`.
abbrev pub is_taken_slot : Option (Option ℕ) → Bool
is_taken_slot (some none) = true
is_taken_slot _ = false

unfoldable pub is_taken : Column → ℕ → Bool
unfolding is_null
is_taken c row = elim c.values [
  | ColumnData.lob v ↦
      ltb row (length v.items) && not (is_null c.nulls row) && is_taken_slot (get_elem? v.items row)
  | _ ↦ false
]

-- `values.get_mut(row)?.take()`: what the slot held, and the slots without it.
abbrev pub take_slot : List (Option ℕ) → ℕ → Option ℕ × List (Option ℕ)
take_slot [] row = (none, [])
take_slot (slot ∷ slots) zero = (slot, none ∷ slots)
take_slot (slot ∷ slots) (suc row) = let (found, rest) = take_slot slots row in (found, slot ∷ rest)

abbrev pub take_from : Column → ℕ → ColumnData → Option ℕ × Column
take_from c row (ColumnData.lob v) =
    let (found, slots) = take_slot v.items row in
    (found, record c { values = ColumnData.lob (record v { items = slots }) })
take_from c row _ = (none, c)

-- `Column::take_lob`.
unfoldable pub take_lob : Column → ℕ → Option ℕ × Column
unfolding is_null
take_lob c row = if is_null c.nulls row then (none, c) else take_from c row c.values

pub record RowBatch : Type 0 where
  pub columns : List Column
  pub row_count : ℕ

abbrev pub empty_batch : RowBatch
empty_batch = record { columns = []; row_count = 0 }

unfoldable pub column_len : Column → ℕ
unfolding data_len
column_len c = data_len c.values

abbrev pub first_len : List Column → ℕ
first_len [] = 0
first_len (c ∷ cs) = column_len c

-- `RowBatch::new`: every column has as many rows as the first.
unfoldable pub batch_of : List Column → DbResult RowBatch
unfolding column_len
batch_of columns =
    let row_count = first_len columns in
    if any (λ c. not (column_len c == row_count)) columns
    then err (internal (codes "columns of a batch differ in length"))
    else ok (record { columns = columns; row_count = row_count })

-- `RowBatch::value`.
abbrev pub value_in : Option Column → ℕ → Option ValueRef
value_in none row = none
value_in (some c) row = column_value c row

unfoldable pub batch_value : RowBatch → ℕ → ℕ → Option ValueRef
unfolding column_value
batch_value b row column = value_in (get_elem? b.columns column) row
