-- ===== src/Samples/Results.antt =====
-- A result that is fetched up to its row cap, and what its store is then.
use reldex.Base.{
  ℕ, ◌+◌, ◌≡◌, refl, true, false, Option, none, some, List, [], ◌∷◌, arith, inr, ◌++◌, ◌≢◌, leb,
  if◌then◌else◌,
}
use reldex.Text.{codes}
use reldex.Driver.Error.{DbResult, ok, err, ErrorKind, DbError, new_error}
use reldex.Store.Failing.{ShowsFailure, failure, on_fetched-ShowsFailure}
use reldex.Driver.Vectors.{exact_vec}
use reldex.Driver.Nulls.{new_mask}
use reldex.Driver.Types.{SqlType, ColumnMetadata, new_column}
use reldex.Store.Ids.{SessionId, ResultId}
use reldex.Store.Policy.{Cap, CapSource, ResultPolicy, new_caps, new_policy, with_fetch_rows}
use reldex.Store.Segment.{ResultSegment, Storage}
use reldex.Store.Result.{
  FetchTicket, FetchRequest, StoreAction, SegmentReply, Fetched, FetchMore, ResultStore, Phase,
  LimitKind, MoreRows, new_store, row_count, retained_bytes,
}
use reldex.Store.Fetch.{row_width, target, due, record_action, pump}
use reldex.Store.Inputs.{
  on_fetched, forget, fetch_failed, fetch_more, transaction_end_answered, set_demand, discard,
}
use reldex.Store.Sound.{IsPolicy, IsSound}
use reldex.Store.Reach.{Reach, Step, here, next, Reach-IsSound}
use reldex.Store.Final.{retained}
use reldex.Store.Over.{is_over, Reach-over, Reach-segments}
use reldex.Store.Stored.{IsStored, Reach-IsStored}
use reldex.Store.Live.{due_when_idle}
use reldex.Store.Pump.{EndsWell, pump-EndsWell}
use reldex.Store.Lookup.{segment_for_row, value, served}
use reldex.Store.Find.{find_row, segment_for_row-find_row, cell_at, value-cell_at}

abbrev pub own : SessionId
own = record { number = 1 }

abbrev pub rows_result : ResultId
rows_result = record { session = own; result = 7 }

abbrev pub flag_column : List ColumnMetadata
unfolding new_column
flag_column = new_column (codes "FLAG") SqlType.boolean ∷ []

-- At most three rows, two at a time.
abbrev pub three_rows : ResultPolicy
unfolding new_caps new_policy with_fetch_rows
three_rows =
    with_fetch_rows
      (new_policy (
        new_caps (record { value = Cap.at 3; source = CapSource.application })
          (record { value = Cap.unlimited; source = CapSource.built_in })))
      2

three_rows-IsPolicy : IsPolicy three_rows
unfolding with_fetch_rows new_policy new_caps
three_rows-IsPolicy = record { rows = omega arith; fetch_rows = omega arith; fetches = omega arith }

abbrev opened : ResultStore
unfolding new_store
opened = new_store rows_result flag_column three_rows

abbrev fetch_two : ℕ → StoreAction
fetch_two n =
    StoreAction.fetch
      (record { ticket = record { result = rows_result; sequence = n }; max_rows = 2 })

abbrev ticket : ℕ → FetchTicket
ticket n = record { result = rows_result; sequence = n }

-- Two rows of a column.
abbrev two_rows : ResultSegment
unfolding new_mask
two_rows = record {
  session = own;
  rows = 2;
  columns =
      record { nulls = new_mask 2; storage = Storage.boolean (exact_vec (true ∷ false ∷ [])) } ∷ [];
  accounted_bytes = 100;
}

abbrev two_more : DbResult SegmentReply
two_more = ok (record { segment = two_rows; exhausted = false })

abbrev asked : ResultStore
unfolding record_action
asked = record_action opened (fetch_two 0)

abbrev store_after : Option (ResultStore × Fetched) → ResultStore → ResultStore
store_after none s = s
store_after (some (t, fetched)) s = t

abbrev two_shown : ResultStore
unfolding on_fetched
two_shown = store_after (on_fetched true asked (ticket 0) two_more) asked

abbrev wanted : ResultStore
unfolding set_demand
wanted = set_demand two_shown 100

abbrev asked_again : ResultStore
unfolding record_action
asked_again = record_action wanted (fetch_two 1)

-- One row past the cap says that there are more.
abbrev limited : ResultStore
unfolding on_fetched
limited = store_after (on_fetched true asked_again (ticket 1) two_more) asked_again

limited_phase :
    (limited.phase ≡ Phase.at_limit LimitKind.rows MoreRows.more) × (row_count limited ≡ 3)
unfolding limited asked_again wanted two_shown asked opened three_rows flag_column two_rows
    row_count
limited_phase = (refl, refl)

shown-Reach : Reach opened two_shown
unfolding two_shown asked opened three_rows flag_column two_rows due
shown-Reach = next (next here (Step.submitted {s = opened} (fetch_two 0) refl)) (
    Step.replied {s = asked} {s' = two_shown} true (ticket 0) two_more (Fetched.appended 2)
      (omega arith) refl)

more-Reach : Reach two_shown limited
unfolding limited asked_again wanted two_shown asked opened three_rows flag_column two_rows due
more-Reach =
    next
      (next (next here (Step.demanded {s = two_shown} 100))
        (Step.submitted {s = wanted} (fetch_two 1) refl))
      (Step.replied {s = asked_again} {s' = limited} true (ticket 1) two_more (Fetched.appended 2)
        (omega arith) refl)

and_then : {s t u : ResultStore} → Reach s t → Reach t u → Reach s u
and_then r here = r
and_then r (next r' st) = next (and_then r r') st

limited-Reach : Reach opened limited
limited-Reach = and_then shown-Reach more-Reach

Reach-IsSound_example : IsSound limited
unfolding opened
Reach-IsSound_example =
    Reach-IsSound rows_result flag_column three_rows limited three_rows-IsPolicy limited-Reach

Reach-IsStored_example : IsStored (retained limited)
unfolding opened
Reach-IsStored_example = Reach-IsStored rows_result flag_column three_rows limited limited-Reach

limited-IsStored : IsStored (retained limited)
unfolding opened
limited-IsStored = Reach-IsStored rows_result flag_column three_rows limited limited-Reach

wanted-IsSound : IsSound wanted
unfolding opened wanted
wanted-IsSound =
    Reach-IsSound rows_result flag_column three_rows wanted three_rows-IsPolicy
      (next shown-Reach (Step.demanded {s = two_shown} 100))

due_when_idle_example : (request : FetchRequest) × (due wanted ≡ some (StoreAction.fetch request))
unfolding wanted two_shown asked opened three_rows flag_column two_rows target retained_bytes
    row_width
due_when_idle_example =
    due_when_idle wanted wanted-IsSound refl refl refl refl (omega arith) (inr (omega arith))

-- A caller that takes every action and counts them.
abbrev taking : ℕ → StoreAction → ℕ × DbResult (Unit {0})
taking n action = (n + 1, ok tt)

pump-EndsWell_example : EndsWell taking (pump taking wanted 0)
pump-EndsWell_example = pump-EndsWell taking wanted 0 wanted-IsSound

Reach-over_example :
    (is_over (set_demand (discard limited) 9).phase ≡ true)
    × (retained (set_demand (discard limited) 9) ≡ retained (discard limited))
    × ((request : FetchRequest)
        → due (set_demand (discard limited) 9) ≢ some (StoreAction.fetch request))
unfolding discard
Reach-over_example =
    Reach-over {s = discard limited} {t = set_demand (discard limited) 9}
      (next here (Step.demanded {s = discard limited} 9)) refl

Reach-segments_example :
    (more : List ResultSegment) × (limited.segments.items ≡ two_shown.segments.items ++ more)
Reach-segments_example = Reach-segments {s = two_shown} {t = limited} more-Reach

segment_for_row-find_row_example :
    segment_for_row limited 2
    ≡ (if leb (row_count limited) 2 then none else find_row limited.segments.items 0 2)
segment_for_row-find_row_example = segment_for_row-find_row limited 2 limited-IsStored

value-cell_at_example : value limited 2 0 ≡ (
    if leb (row_count limited) 2
    then none
    else served limited.lobs (cell_at limited.segments.items 2 0))
value-cell_at_example = value-cell_at limited 2 0 limited-IsStored

asked-IsSound : IsSound asked
unfolding opened asked three_rows flag_column due
asked-IsSound =
    Reach-IsSound rows_result flag_column three_rows asked three_rows-IsPolicy
      (next here (Step.submitted {s = opened} (fetch_two 0) refl))

abbrev network_lost : DbError
unfolding new_error
network_lost = new_error ErrorKind.network_lost (codes "end of file")

abbrev lost : ResultStore
unfolding asked opened three_rows flag_column forget fetch_failed
lost = (failure asked network_lost).0

-- More rows are asked for after the failure, and the end of a transaction is answered.
abbrev lost_later : ResultStore
unfolding lost
lost_later = transaction_end_answered (fetch_more lost FetchMore.unlimited).0 true

on_fetched-ShowsFailure_example :
    (on_fetched true asked (ticket 0) (err network_lost) ≡ some (lost, Fetched.failed))
    × ShowsFailure asked network_lost lost_later
unfolding asked opened three_rows flag_column lost lost_later
on_fetched-ShowsFailure_example =
    on_fetched-ShowsFailure true asked lost_later (ticket 0) network_lost asked-IsSound refl refl
      refl (next (next here (Step.raised FetchMore.unlimited)) (Step.end_answered true))
