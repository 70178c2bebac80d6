-- ===== src/Store/Inputs.antt =====
-- crates/db-core/src/store/result_store.rs: the replies to fetches, and what else changes a store.
use reldex.Base.{
  ℕ, ◌+◌, ◌-◌, Bool, true, false, not, ◌&&◌, ◌||◌, Option, none, some, List, [], ◌∷◌, length, ltb,
  leb, ◌==◌, if◌then◌else◌,
}
use reldex.Text.{codes}
use reldex.Driver.Error.{DbError, SessionState, DbResult, ok, err, internal}
use reldex.Driver.Types.{ColumnMetadata}
use reldex.Driver.Vectors.{push}
use reldex.Store.Ids.{ResultId, result_eq}
use reldex.Store.Segment.{ResultSegment, LobUnavailable}
use reldex.Store.Policy.{limit, ResultCaps, raised_by, lifted, saturating_add, grid_row_ceiling}
use reldex.Store.Result.{
  FetchTicket, SegmentReply, LimitKind, MoreRows, EndCause, Fetched, FetchMore, InFlight, Phase,
  ResultStore, row_limit, row_count, retained_bytes, is_active, is_at_limit, is_empty,
}
use reldex.Store.Fetch.{row_width, or_reason}

unfoldable pub forget : ResultStore → InFlight → ResultStore
forget s entry = record s {
  in_flight_rows = s.in_flight_rows - entry.rows;
  in_flight_bytes = s.in_flight_bytes - entry.bytes;
}

abbrev pub last_rows : List ResultSegment → Option ℕ
last_rows [] = none
last_rows (x ∷ []) = some x.rows
last_rows (x ∷ y ∷ xs) = last_rows (y ∷ xs)

abbrev pub second_rows : List ResultSegment → Option ℕ
second_rows (x ∷ y ∷ xs) = some y.rows
second_rows _ = none

abbrev pub differ : Option ℕ → Option ℕ → Bool
differ (some a) (some b) = not (a == b)
differ _ _ = false

unfoldable pub append : ResultStore → ResultSegment → ResultStore
unfolding push
append s segment = record s {
  uniform =
      if leb 3 (length s.segments.items)
        && differ (second_rows s.segments.items) (last_rows s.segments.items)
      then false
      else s.uniform;
  starts = push s.starts s.retained_rows;
  retained_rows = s.retained_rows + segment.rows;
  segment_bytes = s.segment_bytes + segment.accounted_bytes;
  segments = push s.segments segment;
}

-- `is_none_or(|rows| rows > GRID_ROW_CEILING)` and `is_some_and(|cap| bytes > cap)`.
abbrev pub above_ceiling : Option ℕ → Bool
above_ceiling none = true
above_ceiling (some cap) = ltb grid_row_ceiling cap

abbrev pub exceeds : ℕ → Option ℕ → Bool
exceeds bytes none = false
exceeds bytes (some cap) = ltb cap bytes

-- The phase that an active store with nothing in flight rests in.
unfoldable pub resting_phase : ResultStore → Phase
unfolding row_limit limit saturating_add retained_bytes row_width
resting_phase s =
    if ltb (row_limit s) s.retained_rows
    then Phase.at_limit
        (if above_ceiling (limit s.caps.max_rows.value)
          then LimitKind.row_ceiling
          else LimitKind.rows)
        MoreRows.more
    else if s.exhausted
    then Phase.complete
    else if exceeds (saturating_add (retained_bytes s) (row_width s)) (limit s.caps.max_bytes.value)
    then Phase.at_limit LimitKind.bytes MoreRows.unknown
    else Phase.active

abbrev pub rest_in : ResultStore → Phase → ResultStore
rest_in s phase = record s {
  phase = phase;
  close_due =
      s.close_due
      || (is_at_limit phase && s.caps.close_cursor_at_limit.value && not s.cursor_closed);
}

unfoldable pub settle : ResultStore → ResultStore
unfolding resting_phase
settle s =
    if not (is_active s.phase) || not (is_empty s.in_flight) then s else rest_in s (resting_phase s)

abbrev pub fail : ResultStore → DbError → ResultStore
fail s error = record s { phase = Phase.failed (row_count s) error }

-- `iter().position(…)` and `remove(position)`: the entry with a sequence number, and the others.
abbrev pub find_entry : ℕ → List InFlight → Option InFlight
find_entry n [] = none
find_entry n (e ∷ es) = if e.sequence == n then some e else find_entry n es

abbrev pub without_entry : ℕ → List InFlight → List InFlight
without_entry n [] = []
without_entry n (e ∷ es) = if e.sequence == n then es else e ∷ without_entry n es

abbrev pub drop_entry : ResultStore → ℕ → Option InFlight → ResultStore
drop_entry s n none = s
drop_entry s n (some entry) = forget (record s { in_flight = without_entry n s.in_flight }) entry

-- A reply that is not the one expected next, in a release build.
unfoldable pub out_of_sequence : ResultStore → ℕ → ResultStore
unfolding forget row_count
out_of_sequence s n =
    let s' = drop_entry s n (find_entry n s.in_flight) in
    if is_active s'.phase || is_at_limit s'.phase
    then fail s' (
        internal (
          codes
            "a fetch was received out of sequence; the rows were not appended, and the result is incomplete"))
    else s'

abbrev pub is_lost : SessionState → Bool
is_lost SessionState.lost = true
is_lost _ = false

unfoldable pub fetch_failed : ResultStore → DbError → ResultStore
unfolding row_count
fetch_failed s error = record s {
  lobs = or_reason s.lobs (
      if is_lost error.session_state
      then LobUnavailable.session_ended
      else LobUnavailable.result_closed);
  cursor_closed = true;
  phase = Phase.failed (row_count s) error;
}

abbrev pub note_exhausted : ResultStore → Bool → ResultStore
note_exhausted s exhausted = record s { exhausted = exhausted || s.exhausted }

unfoldable pub accept : ResultStore → SegmentReply → ResultStore × Fetched
unfolding append settle row_count
accept s reply =
    let rows = reply.segment.rows in
    if ltb 0 rows && not (length reply.segment.columns == length s.columns)
    then (
      fail s (internal (codes "a segment has another number of columns than the result")),
      Fetched.failed,
    )
    else let noted = note_exhausted s reply.exhausted in
      (settle (if ltb 0 rows then append noted reply.segment else noted), Fetched.appended rows)

-- The reply that was expected.
abbrev pub answered : ResultStore → DbResult SegmentReply → ResultStore × Fetched
answered s (err error) = (fetch_failed s error, Fetched.failed)
answered s (ok reply) = accept s reply

abbrev pub in_sequence :
    ResultStore → InFlight → List InFlight → DbResult SegmentReply → ResultStore × Fetched
in_sequence s entry rest reply =
    let s' = forget (record s { in_flight = rest }) entry in
    if is_active s'.phase then answered s' reply else (s', Fetched.stale)

-- `front()` is some entry with the number of the ticket.
abbrev pub is_expected : List InFlight → ℕ → Bool
is_expected [] n = false
is_expected (e ∷ es) n = e.sequence == n

abbrev pub take_front : ResultStore → List InFlight → DbResult SegmentReply → ResultStore × Fetched
take_front s [] reply = (s, Fetched.stale)
take_front s (entry ∷ rest) reply = in_sequence s entry rest reply

-- `on_fetched`. In a debug build a reply out of sequence panics, which gives nothing.
unfoldable pub on_fetched :
    Bool → ResultStore → FetchTicket → DbResult SegmentReply → Option (ResultStore × Fetched)
unfolding out_of_sequence fetch_failed accept forget
on_fetched debug_assertions s ticket reply =
    if not (result_eq ticket.result s.result)
    then some (s, Fetched.not_this_result)
    else if is_expected s.in_flight ticket.sequence
    then some (take_front s s.in_flight reply)
    else if debug_assertions
    then none
    else some (out_of_sequence s ticket.sequence, Fetched.out_of_sequence)

unfoldable pub set_demand : ResultStore → ℕ → ResultStore
set_demand s rows = record s { demand = rows }

unfoldable pub fetch_all : ResultStore → ResultStore
fetch_all s = record s { fetch_all = true; stopped = false }

unfoldable pub stop : ResultStore → ResultStore
stop s = record s { stopped = true; fetch_all = false }

unfoldable pub resume : ResultStore → ResultStore
resume s = record s { stopped = false }

-- Stopped at the row cap or the byte cap, which can be raised.
abbrev pub at_raisable_limit : Phase → Bool
at_raisable_limit (Phase.at_limit LimitKind.rows beyond) = true
at_raisable_limit (Phase.at_limit LimitKind.bytes beyond) = true
at_raisable_limit _ = false

abbrev pub more_caps : ResultStore → FetchMore → ResultCaps
more_caps s FetchMore.step = raised_by s.caps s.policy.caps
more_caps s FetchMore.unlimited = lifted s.caps

unfoldable pub fetch_more : ResultStore → FetchMore → ResultStore × Bool
unfolding raised_by lifted settle
fetch_more s more =
    if not (at_raisable_limit s.phase) || s.cursor_closed || s.close_due then (s, false) else (
      settle (record s { caps = more_caps s more; phase = Phase.active; stopped = false }),
      true,
    )

unfoldable pub discard : ResultStore → ResultStore
discard s = record s {
  phase = Phase.ended EndCause.discarded;
  close_due = false;
  cursor_closed = true;
  lobs = or_reason s.lobs LobUnavailable.result_closed;
}

unfoldable pub transaction_end_submitted : ResultStore → ResultStore
transaction_end_submitted s = record s { transaction_ends_pending = s.transaction_ends_pending + 1 }

-- `match self.phase` of `end_transaction`, with `cursor_was_open`.
abbrev pub phase_after_transaction : Phase → Bool → Phase
phase_after_transaction Phase.active cursor_was_open = Phase.ended EndCause.transaction_ended
phase_after_transaction (Phase.at_limit kind beyond) cursor_was_open =
    if cursor_was_open then Phase.ended EndCause.transaction_ended else Phase.at_limit kind beyond
phase_after_transaction phase cursor_was_open = phase

unfoldable pub end_transaction : ResultStore → ResultStore
end_transaction s = record s {
  lobs = or_reason s.lobs LobUnavailable.transaction_ended;
  cursor_closed = true;
  close_due = false;
  phase = phase_after_transaction s.phase (not s.cursor_closed && not s.close_due);
}

unfoldable pub transaction_end_answered : ResultStore → Bool → ResultStore
unfolding end_transaction
transaction_end_answered s succeeded =
    let s' = record s { transaction_ends_pending = s.transaction_ends_pending - 1 } in
    if succeeded then end_transaction s' else s'

-- result.rs of the driver contract.
pub data StatementKind : Type 0 where
  query dml ddl pl_sql_block transaction_control session_control other : StatementKind

abbrev pub is_transaction_control : StatementKind → Bool
is_transaction_control StatementKind.transaction_control = true
is_transaction_control _ = false

-- session.rs: what the stores read of an `ExecuteOutcome`.
pub record ExecuteOutcome : Type 0 where
  pub result : Option ResultId
  pub columns : List ColumnMetadata
  pub statement_kind : StatementKind
  pub committed_implicitly : Bool

unfoldable pub statement_executed : ResultStore → ExecuteOutcome → ResultStore
unfolding end_transaction
statement_executed s outcome =
    if outcome.committed_implicitly || is_transaction_control outcome.statement_kind
    then end_transaction s
    else s

unfoldable pub session_ended : ResultStore → ResultStore
session_ended s = record s {
  lobs = or_reason s.lobs LobUnavailable.session_ended;
  cursor_closed = true;
  close_due = false;
  phase =
      if is_active s.phase || is_at_limit s.phase
      then Phase.ended EndCause.session_ended
      else s.phase;
}
