-- ===== src/Store/Fetch.antt =====
-- crates/db-core/src/store/result_store.rs: what is due, and the loop that submits it. The caller's
-- `submit` is a function with a state of its own. The loop takes fuel.
use reldex.Base.{
  ℕ, zero, suc, ◌+◌, ◌-◌, ◌/◌, Bool, true, false, not, ◌&&◌, ◌||◌, Option, none, some, [], ◌∷◌,
  ◌++◌, min, length, ltb, leb, ◌==◌, if◌then◌else◌,
}
use reldex.Driver.Error.{DbResult, ok, err}
use reldex.Store.Segment.{LobUnavailable}
use reldex.Store.Policy.{limit, saturating_add, saturating_mul, usize_max}
use reldex.Store.Result.{StoreAction, ResultStore, row_limit, retained_bytes, is_active, is_empty}

-- `clamp(lo, hi)`, for a lower bound that is not above the upper.
abbrev pub clamp : ℕ → ℕ → ℕ → ℕ
clamp x lo hi = if ltb x lo then lo else if ltb hi x then hi else x

unfoldable pub row_width : ResultStore → ℕ
row_width s =
    if s.retained_rows == 0
    then s.declared_width
    else clamp (s.segment_bytes / s.retained_rows) 1 s.declared_width

unfoldable pub rows_per_round_trip : ResultStore → ℕ
unfolding row_width
rows_per_round_trip s = clamp (s.policy.round_trip_bytes / row_width s) 1 s.policy.fetch_rows

-- The rows up to which fetches are due.
unfoldable pub target : ResultStore → ℕ
unfolding saturating_add rows_per_round_trip
target s = if s.fetch_all then usize_max else saturating_add s.demand (rows_per_round_trip s)

abbrev pub byte_room_of : ResultStore → Option ℕ → ℕ
byte_room_of s none = usize_max
byte_room_of s (some cap) =
    (cap - saturating_add (retained_bytes s) s.in_flight_bytes) / row_width s

unfoldable pub byte_room : ResultStore → ℕ
unfolding limit saturating_add retained_bytes row_width
byte_room s = byte_room_of s (limit s.caps.max_bytes.value)

-- One row past the cap, less what is retained or requested.
unfoldable pub row_room : ResultStore → ℕ
unfolding saturating_add row_limit
row_room s = saturating_add (row_limit s) 1 - (s.retained_rows + s.in_flight_rows)

-- `NonZeroUsize::new(rows)`, or one for the first request.
abbrev pub non_zero_or_first : ℕ → Bool → Option ℕ
non_zero_or_first rows first = if rows == 0 then (if first then some 1 else none) else some rows

unfoldable pub next_request_rows : ResultStore → Option ℕ
unfolding rows_per_round_trip target row_room byte_room
next_request_rows s =
    if s.first_submitted && leb (target s) (s.retained_rows + s.in_flight_rows)
    then none
    else non_zero_or_first (min (min (rows_per_round_trip s) (row_room s)) (byte_room s))
        (not s.first_submitted)

-- The conditions under which no fetch is due.
unfoldable pub held_back : ResultStore → Bool
held_back s =
    not (is_active s.phase)
    || s.stopped
    || s.exhausted
    || ltb 0 s.transaction_ends_pending
    || leb s.policy.fetches_in_flight (length s.in_flight)
    || (s.retained_rows == 0 && not (is_empty s.in_flight))

abbrev pub fetch_of : ResultStore → Option ℕ → Option StoreAction
fetch_of s none = none
fetch_of s (some max_rows) = some (
    StoreAction.fetch (record {
      ticket = record { result = s.result; sequence = s.next_sequence };
      max_rows = max_rows;
    }))

unfoldable pub due : ResultStore → Option StoreAction
unfolding held_back next_request_rows
due s =
    if s.close_due
    then some (StoreAction.close_result s.result)
    else if held_back s
    then none
    else fetch_of s (next_request_rows s)

-- `Some(self.lobs.unwrap_or(reason))`.
abbrev pub or_reason : Option LobUnavailable → LobUnavailable → Option LobUnavailable
or_reason none reason = some reason
or_reason (some known) reason = some known

unfoldable pub record_action : ResultStore → StoreAction → ResultStore
unfolding saturating_add saturating_mul row_width
record_action s (StoreAction.fetch request) =
    let bytes = saturating_mul request.max_rows (row_width s) in
    record s {
      in_flight =
          s.in_flight
          ++ (record { sequence = request.ticket.sequence; rows = request.max_rows; bytes = bytes }
              ∷ []);
      in_flight_rows = s.in_flight_rows + request.max_rows;
      in_flight_bytes = saturating_add s.in_flight_bytes bytes;
      next_sequence = s.next_sequence + 1;
      first_submitted = true;
    }
record_action s (StoreAction.close_result result) = record s {
  close_due = false;
  cursor_closed = true;
  lobs = or_reason s.lobs LobUnavailable.result_closed;
}

module _ {T : Type 0} (submit : T → StoreAction → T × DbResult (Unit {0})) where
  -- The loop of `pump`: the store, the caller's state, and how many actions were submitted or the
  -- error. It gives nothing if the fuel runs out.
  unfoldable pub pump_loop : ℕ → ResultStore → T → ℕ → Option (ResultStore × T × DbResult ℕ)
  unfolding due record_action
  pump_loop zero s t submitted = none
  pump_loop (suc fuel) s t submitted = elim (due s) [
    | none ↦ some (s, t, ok submitted)
    | some action ↦ elim (submit t action).1 [
      | err e ↦ some (s, (submit t action).0, err e)
      | ok _ ↦ pump_loop fuel (record_action s action) (submit t action).0 (submitted + 1)
    ]
  ]

  unfoldable pub pump : ResultStore → T → Option (ResultStore × T × DbResult ℕ)
  unfolding pump_loop
  pump s t = pump_loop (s.policy.fetches_in_flight + 2) s t 0
