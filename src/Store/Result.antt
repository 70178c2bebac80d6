-- ===== src/Store/Result.antt =====
-- crates/db-core/src/store/result_store.rs: the state of one open result.
use reldex.Base.{
  ℕ, ◌+◌, ◌*◌, Bool, true, false, not, ◌&&◌, Option, none, some, List, [], ◌∷◌, min, length,
}
use reldex.Driver.Error.{DbError}
use reldex.Driver.Types.{ColumnMetadata}
use reldex.Driver.Vectors.{Vec, empty_vec}
use reldex.Store.Ids.{ResultId, LobHandle}
use reldex.Store.Segment.{ResultSegment, LobUnavailable}
use reldex.Store.Policy.{limit, ResultCaps, ResultPolicy, grid_row_ceiling, declared_row_width}

pub record FetchTicket : Type 0 where
  pub result : ResultId
  pub sequence : ℕ

pub record FetchRequest : Type 0 where
  pub ticket : FetchTicket
  pub max_rows : ℕ

pub data StoreAction : Type 0 where
  fetch : FetchRequest → StoreAction
  close_result : ResultId → StoreAction

pub record SegmentReply : Type 0 where
  pub segment : ResultSegment
  pub exhausted : Bool

pub data LimitKind : Type 0 where
  rows bytes row_ceiling : LimitKind

pub data MoreRows : Type 0 where
  more unknown : MoreRows

pub data EndCause : Type 0 where
  session_ended transaction_ended discarded : EndCause

pub data LobCell : Type 0 where
  readable : LobHandle → LobCell
  unavailable : LobUnavailable → LobCell

pub data ResultPhase : Type 0 where
  fetching open_ complete : ResultPhase
  at_limit : LimitKind → MoreRows → (cursor_open : Bool) → ResultPhase
  failed : (after : ℕ) → DbError → ResultPhase
  ended : EndCause → ResultPhase

pub data Fetched : Type 0 where
  appended : ℕ → Fetched
  failed stale not_this_result out_of_sequence : Fetched

pub data FetchMore : Type 0 where
  step unlimited : FetchMore

pub record InFlight : Type 0 where
  pub sequence : ℕ
  pub rows : ℕ
  pub bytes : ℕ

pub data Phase : Type 0 where
  active complete : Phase
  at_limit : LimitKind → MoreRows → Phase
  failed : (after : ℕ) → DbError → Phase
  ended : EndCause → Phase

pub record ResultStore : Type 0 where
  pub result : ResultId
  pub columns : List ColumnMetadata
  pub policy : ResultPolicy
  pub caps : ResultCaps
  pub declared_width : ℕ
  pub segments : Vec ResultSegment
  pub starts : Vec ℕ
  pub uniform : Bool
  pub retained_rows : ℕ
  pub segment_bytes : ℕ
  pub next_sequence : ℕ
  pub in_flight : List InFlight
  pub in_flight_rows : ℕ
  pub in_flight_bytes : ℕ
  pub first_submitted : Bool
  pub demand : ℕ
  pub fetch_all : Bool
  pub stopped : Bool
  pub transaction_ends_pending : ℕ
  pub exhausted : Bool
  pub phase : Phase
  pub close_due : Bool
  pub cursor_closed : Bool
  pub lobs : Option LobUnavailable

-- `ResultStore::new`.
unfoldable pub new_store : ResultId → List ColumnMetadata → ResultPolicy → ResultStore
unfolding declared_row_width
new_store result columns policy = record {
  result = result;
  columns = columns;
  policy = policy;
  caps = policy.caps;
  declared_width = declared_row_width columns;
  segments = empty_vec;
  starts = empty_vec;
  uniform = true;
  retained_rows = 0;
  segment_bytes = 0;
  next_sequence = 0;
  in_flight = [];
  in_flight_rows = 0;
  in_flight_bytes = 0;
  first_submitted = false;
  demand = 0;
  fetch_all = false;
  stopped = false;
  transaction_ends_pending = 0;
  exhausted = false;
  phase = Phase.active;
  close_due = false;
  cursor_closed = false;
  lobs = none;
}

-- The row cap in force, bounded by the grid's ceiling.
abbrev pub row_limit_of : Option ℕ → ℕ
row_limit_of none = grid_row_ceiling
row_limit_of (some cap) = min cap grid_row_ceiling

unfoldable pub row_limit : ResultStore → ℕ
unfolding limit
row_limit s = row_limit_of (limit s.caps.max_rows.value)

unfoldable pub row_count : ResultStore → ℕ
unfolding row_limit
row_count s = min s.retained_rows (row_limit s)

-- An `Arc` and a `usize` take eight bytes each.
unfoldable pub retained_bytes : ResultStore → ℕ
retained_bytes s = s.segment_bytes + s.segments.capacity * 8 + s.starts.capacity * 8

abbrev pub is_active : Phase → Bool
is_active Phase.active = true
is_active _ = false

abbrev pub is_at_limit : Phase → Bool
is_at_limit (Phase.at_limit kind beyond) = true
is_at_limit _ = false

abbrev pub is_empty {ℓ} : {A : Type ℓ} → List A → Bool
is_empty [] = true
is_empty (x ∷ xs) = false

-- The phase that `state` reports.
abbrev pub reported : ResultStore → Phase → ResultPhase
reported s Phase.active = elim s.in_flight [ [] ↦ ResultPhase.open_ | _ ↦ ResultPhase.fetching ]
reported s (Phase.at_limit kind beyond) =
    ResultPhase.at_limit kind beyond (not s.cursor_closed && not s.close_due)
reported s Phase.complete = ResultPhase.complete
reported s (Phase.failed after error) = ResultPhase.failed after error
reported s (Phase.ended cause) = ResultPhase.ended cause

pub record ResultState : Type 0 where
  pub phase : ResultPhase
  pub rows : ℕ
  pub retained_rows : ℕ
  pub retained_bytes : ℕ
  pub caps : ResultCaps
  pub fetches_in_flight : ℕ
  pub stopped : Bool
  pub lobs : Option LobUnavailable

-- `ResultStore::state`.
unfoldable pub state : ResultStore → ResultState
unfolding row_count retained_bytes
state s = record {
  phase = reported s s.phase;
  rows = row_count s;
  retained_rows = s.retained_rows;
  retained_bytes = retained_bytes s;
  caps = s.caps;
  fetches_in_flight = length s.in_flight;
  stopped = s.stopped;
  lobs = s.lobs;
}
