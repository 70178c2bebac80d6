-- ===== src/Driver/Types.antt =====
-- crates/db-driver-api/src/types.rs: column types and the description of a column.
use reldex.Base.{ℕ, Bool, true, false, Option, none, some}
use reldex.Base.Int.{ℤ}
use reldex.Text.{Text}

pub data SqlType : Type 0 where
  boolean number binary_float binary_double : SqlType
  text : (national fixed_length : Bool) → SqlType
  date timestamp timestamp_with_time_zone raw : SqlType
  character_lob : (national : Bool) → SqlType
  binary_lob json cursor unsupported : SqlType

-- `SqlType::VARCHAR`.
abbrev pub varchar : SqlType
varchar = SqlType.text false false

unfoldable pub is_lob : SqlType → Bool
is_lob (SqlType.character_lob national) = true
is_lob SqlType.binary_lob = true
is_lob _ = false

unfoldable pub is_text : SqlType → Bool
is_text (SqlType.text national fixed_length) = true
is_text SqlType.json = true
is_text _ = false

pub record ColumnMetadata : Type 0 where
  pub name : Text
  pub sql_type : SqlType
  pub nullable : Option Bool
  pub precision : Option ℕ
  pub scale : Option ℤ
  pub max_size_bytes : Option ℕ
  pub native_type_name : Option Text

-- `ColumnMetadata::new` and `with_max_size_bytes`.
unfoldable pub new_column : Text → SqlType → ColumnMetadata
new_column name sql_type = record {
  name = name;
  sql_type = sql_type;
  nullable = none;
  precision = none;
  scale = none;
  max_size_bytes = none;
  native_type_name = none;
}

unfoldable pub with_max_size_bytes : ColumnMetadata → ℕ → ColumnMetadata
with_max_size_bytes c bytes = record c { max_size_bytes = some bytes }
