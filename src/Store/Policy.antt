-- ===== src/Store/Policy.antt =====
-- crates/db-core/src/store/policy.rs: the caps and the fetch settings of a result. A `NonZeroUsize` is
-- a number, and the invariant of a policy says that it is not zero.
use reldex.Base.{
  ℕ, ◌+◌, ◌-◌, ◌*◌, ◌/◌, ◌^◌, Bool, false, Option, none, some, List, [], ◌∷◌, max, min, length,
}
use reldex.Driver.Types.{SqlType, ColumnMetadata}
use reldex.Store.Segment.{lob_cell_bytes}

-- `usize` has 64 bits.
abbrev pub usize_max : ℕ
usize_max = 2 ^ 64 - 1

unfoldable pub saturating_add : ℕ → ℕ → ℕ
saturating_add a b = min (a + b) usize_max

unfoldable pub saturating_mul : ℕ → ℕ → ℕ
saturating_mul a b = min (a * b) usize_max

abbrev pub grid_row_ceiling : ℕ
grid_row_ceiling = 2147483647

abbrev pub default_fetch_rows : ℕ
default_fetch_rows = 1000

abbrev pub default_round_trip_bytes : ℕ
default_round_trip_bytes = 192 * 1024

abbrev pub default_fetches_in_flight : ℕ
default_fetches_in_flight = 2

abbrev pub unknown_variable_width : ℕ
unknown_variable_width = 4000

abbrev pub unsupported_min_width : ℕ
unsupported_min_width = 64

pub data Cap : Type 0 where
  at : ℕ → Cap
  unlimited : Cap

unfoldable pub limit : Cap → Option ℕ
limit (Cap.at value) = some value
limit Cap.unlimited = none

-- `Cap::raised_by`.
unfoldable pub raised : Cap → Cap → Cap
unfolding saturating_add
raised (Cap.at value) (Cap.at step) = Cap.at (saturating_add value step)
raised _ _ = Cap.unlimited

pub data CapSource : Type 0 where
  built_in application profile worksheet fetch_more : CapSource

pub record Sourced (T : Type 0) : Type 0 where
  pub value : T
  pub source : CapSource

pub record ResultCaps : Type 0 where
  pub max_rows : Sourced Cap
  pub max_bytes : Sourced Cap
  pub close_cursor_at_limit : Sourced Bool

-- `ResultCaps::new` and `with_close_cursor_at_limit`.
unfoldable pub new_caps : Sourced Cap → Sourced Cap → ResultCaps
new_caps max_rows max_bytes = record {
  max_rows = max_rows;
  max_bytes = max_bytes;
  close_cursor_at_limit = record { value = false; source = CapSource.built_in };
}

unfoldable pub with_close_cursor_at_limit : ResultCaps → Sourced Bool → ResultCaps
with_close_cursor_at_limit caps close = record caps { close_cursor_at_limit = close }

-- `ResultCaps::raised_by` and `ResultCaps::lifted`.
unfoldable pub raised_by : ResultCaps → ResultCaps → ResultCaps
unfolding raised
raised_by caps steps = record caps {
  max_rows = record {
    value = raised caps.max_rows.value steps.max_rows.value;
    source = CapSource.fetch_more;
  };
  max_bytes = record {
    value = raised caps.max_bytes.value steps.max_bytes.value;
    source = CapSource.fetch_more;
  };
}

unfoldable pub lifted : ResultCaps → ResultCaps
lifted caps = record caps {
  max_rows = record { value = Cap.unlimited; source = CapSource.fetch_more };
  max_bytes = record { value = Cap.unlimited; source = CapSource.fetch_more };
}

pub record ResultPolicy : Type 0 where
  pub caps : ResultCaps
  pub fetch_rows : ℕ
  pub fetches_in_flight : ℕ
  pub round_trip_bytes : ℕ

-- `ResultPolicy::new` and its `with_` functions.
unfoldable pub new_policy : ResultCaps → ResultPolicy
new_policy caps = record {
  caps = caps;
  fetch_rows = default_fetch_rows;
  fetches_in_flight = default_fetches_in_flight;
  round_trip_bytes = default_round_trip_bytes;
}

unfoldable pub with_fetch_rows : ResultPolicy → ℕ → ResultPolicy
with_fetch_rows p rows = record p { fetch_rows = rows }

unfoldable pub with_fetches_in_flight : ResultPolicy → ℕ → ResultPolicy
with_fetches_in_flight p fetches = record p { fetches_in_flight = fetches }

unfoldable pub with_round_trip_bytes : ResultPolicy → ℕ → ResultPolicy
with_round_trip_bytes p bytes = record p { round_trip_bytes = bytes }

-- The closure `variable` of `declared_row_width`; an offset takes eight bytes.
abbrev pub variable_width : ColumnMetadata → ℕ
variable_width column = saturating_add (or_unknown column.max_size_bytes) 8
  where
    or_unknown : Option ℕ → ℕ
    or_unknown none = unknown_variable_width
    or_unknown (some bytes) = bytes

-- What a cell of a type takes, where `variable` is what a text or bytes would take.
unfoldable pub cell_width : SqlType → ℕ → ℕ
cell_width SqlType.boolean variable = 1
cell_width SqlType.number variable = 44
cell_width SqlType.binary_float variable = 4
cell_width SqlType.binary_double variable = 8
cell_width SqlType.date variable = 16
cell_width SqlType.timestamp variable = 16
cell_width SqlType.timestamp_with_time_zone variable = 16
cell_width (SqlType.character_lob national) variable = lob_cell_bytes
cell_width SqlType.binary_lob variable = lob_cell_bytes
cell_width SqlType.unsupported variable = max variable (unsupported_min_width + 8)
cell_width _ variable = variable

-- `iter().fold(0, …)`.
unfoldable pub cells_width : ℕ → List ColumnMetadata → ℕ
unfolding cell_width saturating_add
cells_width width [] = width
cells_width width (c ∷ cs) =
    cells_width (saturating_add width (cell_width c.sql_type (variable_width c))) cs

unfoldable pub declared_row_width : List ColumnMetadata → ℕ
unfolding cells_width saturating_add
declared_row_width columns =
    max (saturating_add (cells_width 0 columns) ((length columns + 7) / 8)) 1
