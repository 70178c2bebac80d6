-- ===== src/Samples/Sessions.antt =====
-- A session with a result that is open when a commit is announced.
use reldex.Base.{ℕ, ◌<◌, ◌≡◌, refl, true, false, Option, none, some}
use reldex.Driver.Error.{ok}
use reldex.Store.Inputs.{ExecuteOutcome, StatementKind}
use reldex.Events.Event.{SessionEvent, CompletedOperation}
use reldex.Store.Session.{SessionResults, Observed, new_results, open_store, end_submitted, observe}
use reldex.Store.Waiting.{IsWaiting}
use reldex.Store.Held.{SessionStep, SessionReach, start, after, NoneFetch, SessionReach-NoneFetch}
use reldex.Samples.Results.{own, rows_result, flag_column, three_rows}

abbrev queried : ExecuteOutcome
queried = record {
  result = some rows_result;
  columns = flag_column;
  statement_kind = StatementKind.query;
  committed_implicitly = false;
}

-- The commit is announced first, so the store is opened with an answer to wait for.
abbrev committing : SessionResults
unfolding open_store end_submitted
committing = (open_store (end_submitted (new_results own)) queried three_rows).0

committing-SessionReach : SessionReach (new_results own) committing
unfolding committing
committing-SessionReach =
    after (after start (SessionStep.announced {r = new_results own}))
      (SessionStep.opened {r = end_submitted (new_results own)} queried three_rows)

SessionReach-NoneFetch_example :
    IsWaiting committing × (0 < committing.transaction_ends_pending → NoneFetch committing.stores)
SessionReach-NoneFetch_example = SessionReach-NoneFetch own committing committing-SessionReach

abbrev pending_after : Option (SessionResults × Observed) → Option ℕ
pending_after none = none
pending_after (some (r, seen)) = some r.transaction_ends_pending

-- The answer to it lets the store go on.
answered :
    pending_after
      (observe true committing (SessionEvent.completed own CompletedOperation.commit (ok tt)))
    ≡ some 0
unfolding committing observe open_store end_submitted
answered = refl
