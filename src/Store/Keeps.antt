-- ===== src/Store/Keeps.antt =====
-- crates/db-core/src/store/result_store.rs: every operation keeps a store sound.
use reldex.Base.{
  ℕ, ◌+◌, ◌-◌, ◌≤◌, ◌<◌, ◌≡◌, refl, ◌||◌, inl, inr, Bool-cases, Bool, true, false, not, some, List,
  [], ◌∷◌, ◌++◌, arith, length, length-append,
}
use reldex.Driver.Types.{ColumnMetadata}
use reldex.Store.Ids.{ResultId}
use reldex.Store.Policy.{
  Cap, limit, raised, ResultCaps, ResultPolicy, raised_by, lifted, saturating_mul,
  declared_row_width,
}
use reldex.Store.Result.{
  FetchRequest, StoreAction, InFlight, Phase, ResultStore, FetchMore, new_store, row_limit_of,
  row_limit, is_empty,
}
use reldex.Store.Fetch.{row_width, held_back, due, record_action}
use reldex.Store.Inputs.{
  resting_phase, set_demand, fetch_all, stop, resume, at_raisable_limit, more_caps, fetch_more,
  discard, transaction_end_submitted, end_transaction, transaction_end_answered,
  is_transaction_control, ExecuteOutcome, statement_executed, session_ended,
}
use reldex.Store.Settle.{settle-IsSound}
use reldex.Store.Sound.{
  IsSteady, row_limit_of_bounds, IsCap, IsPolicy, IsSound, sum_rows-append,
  next_request_rows_bounds, due-DueFetch, due-close,
}

declared_row_width_pos : (columns : List ColumnMetadata) → 1 ≤ declared_row_width columns
unfolding declared_row_width
declared_row_width_pos columns = omega arith

pub new_store-IsSound :
    (result : ResultId) (columns : List ColumnMetadata) (policy : ResultPolicy)
    → IsPolicy policy
    → IsSound (new_store result columns policy)
unfolding new_store declared_row_width
new_store-IsSound result columns policy h = record {
  steady = record {
    policy = h;
    cap = h.rows;
    width = declared_row_width_pos columns;
    counted = refl;
    weighed = omega arith;
    capped = omega arith;
    outstanding = omega arith;
    untouched = λ e. (refl, refl, refl, refl);
    open_cursor = λ e. (refl, refl);
    released = λ e. cc;
  };
  settled = λ a e. absurd cc;
}

pub set_demand-IsSound : (s : ResultStore) (rows : ℕ) → IsSound s → IsSound (set_demand s rows)
unfolding set_demand row_limit resting_phase
set_demand-IsSound s rows h = ground arith

pub fetch_all-IsSound : (s : ResultStore) → IsSound s → IsSound (fetch_all s)
unfolding fetch_all row_limit resting_phase
fetch_all-IsSound s h = ground arith

pub discard-IsSound : (s : ResultStore) → IsSound s → IsSound (discard s)
unfolding discard row_limit resting_phase
discard-IsSound s h = ground arith

pub end_transaction-IsSound : (s : ResultStore) → IsSound s → IsSound (end_transaction s)
unfolding end_transaction row_limit resting_phase
end_transaction-IsSound s h = ground arith

pub session_ended-IsSound : (s : ResultStore) → IsSound s → IsSound (session_ended s)
unfolding session_ended row_limit resting_phase
session_ended-IsSound s h = ground arith

pub stop-IsSound : (s : ResultStore) → IsSound s → IsSound (stop s)
unfolding stop row_limit resting_phase
stop-IsSound s h = ground arith

pub resume-IsSound : (s : ResultStore) → IsSound s → IsSound (resume s)
unfolding resume row_limit resting_phase
resume-IsSound s h = ground arith

pub transaction_end_submitted-IsSound :
    (s : ResultStore) → IsSound s → IsSound (transaction_end_submitted s)
unfolding transaction_end_submitted row_limit resting_phase
transaction_end_submitted-IsSound s h = ground arith

counted_off-IsSound :
    (s : ResultStore) (pending : ℕ)
    → IsSound s
    → IsSound (record s { transaction_ends_pending = pending })
unfolding row_limit resting_phase
counted_off-IsSound s pending h = ground arith

pub transaction_end_answered-IsSound :
    (s : ResultStore) (succeeded : Bool)
    → IsSound s
    → IsSound (transaction_end_answered s succeeded)
unfolding transaction_end_answered
transaction_end_answered-IsSound s true h =
    end_transaction-IsSound _ (counted_off-IsSound s (s.transaction_ends_pending - 1) h)
transaction_end_answered-IsSound s false h =
    counted_off-IsSound s (s.transaction_ends_pending - 1) h

pub statement_executed-IsSound :
    (s : ResultStore) (outcome : ExecuteOutcome)
    → IsSound s
    → IsSound (statement_executed s outcome)
unfolding statement_executed
statement_executed-IsSound s outcome h =
    elim (Bool-cases
      (outcome.committed_implicitly || is_transaction_control outcome.statement_kind)) [
        | inl ends ↦ rw ends (end_transaction-IsSound s h)
        | inr goes_on ↦ rw goes_on h
      ]

pub held_back-room :
    (s : ResultStore) → held_back s ≡ false → length s.in_flight < s.policy.fetches_in_flight
unfolding held_back
held_back-room s h = ground arith

close-IsSound :
    (s : ResultStore) (result : ResultId)
    → IsSound s
    → s.close_due ≡ true
    → IsSound (record_action s (StoreAction.close_result result))
unfolding record_action row_limit resting_phase
close-IsSound s result h c = ground arith

in_flight-IsSound :
    (s : ResultStore) (request : FetchRequest)
    → IsSound s
    → length s.in_flight < s.policy.fetches_in_flight
    → s.retained_rows + s.in_flight_rows + request.max_rows ≤ row_limit s + 1
    → IsSound (record_action s (StoreAction.fetch request))
unfolding record_action row_limit
in_flight-IsSound s request h room rows = record {
  steady = record {
    policy = h.policy;
    cap = h.cap;
    width = h.width;
    counted = omega (arith, (sum_rows-append s.in_flight entry).0);
    weighed = omega (arith, (sum_rows-append s.in_flight entry).1);
    capped = omega arith;
    outstanding = omega (arith, length-append {0} s.in_flight (entry ∷ []));
    untouched = λ e. absurd cc;
    open_cursor = h.open_cursor;
    released = h.released;
  };
  settled = λ a e empty. absurd (not_empty s.in_flight entry empty);
}
  where
    entry : InFlight
    entry = record {
      sequence = request.ticket.sequence;
      rows = request.max_rows;
      bytes = saturating_mul request.max_rows (row_width s);
    }

    not_empty : (es : List InFlight) (e : InFlight) → is_empty (es ++ (e ∷ [])) ≡ true → ⊥
    not_empty [] e h = cc
    not_empty (x ∷ es) e h = cc

pub record_action-IsSound :
    (s : ResultStore) (action : StoreAction)
    → IsSound s
    → due s ≡ some action
    → IsSound (record_action s action)
record_action-IsSound s (StoreAction.close_result result) h e =
    close-IsSound s result h (due-close s result e)
record_action-IsSound s (StoreAction.fetch request) h e =
    let d = due-DueFetch s request e in
    in_flight-IsSound s request h (held_back-room s d.held)
      (next_request_rows_bounds s h request.max_rows d.sized).1

raised-IsCap : (c step : Cap) → IsCap c → IsCap (raised c step)
unfolding raised
raised-IsCap (Cap.at value) (Cap.at step) h = omega arith
raised-IsCap (Cap.at value) Cap.unlimited h = tt
raised-IsCap Cap.unlimited step h = tt

raised_mono : (c step : Cap) → row_limit_of (limit c) ≤ row_limit_of (limit (raised c step))
unfolding raised limit
raised_mono (Cap.at value) (Cap.at step) = omega arith
raised_mono (Cap.at value) Cap.unlimited = omega arith
raised_mono Cap.unlimited step = omega arith

reopened-IsSteady :
    (s : ResultStore) (caps : ResultCaps)
    → IsSteady s
    → s.cursor_closed ≡ false
    → s.close_due ≡ false
    → IsCap caps.max_rows.value
    → row_limit_of (limit s.caps.max_rows.value) ≤ row_limit_of (limit caps.max_rows.value)
    → IsSteady (record s { caps = caps; phase = Phase.active; stopped = false })
unfolding row_limit
reopened-IsSteady s caps h open_ due_ cap wider = ground arith

more_caps-wider :
    (s : ResultStore) (more : FetchMore)
    → IsCap s.caps.max_rows.value
    → IsCap (more_caps s more).max_rows.value
      × (row_limit_of (limit s.caps.max_rows.value)
          ≤ row_limit_of (limit (more_caps s more).max_rows.value))
unfolding raised_by lifted limit
more_caps-wider s FetchMore.step h = (
  raised-IsCap s.caps.max_rows.value s.policy.caps.max_rows.value h,
  raised_mono s.caps.max_rows.value s.policy.caps.max_rows.value,
)
more_caps-wider s FetchMore.unlimited h = (tt, row_limit_of_bounds (limit s.caps.max_rows.value))

pub fetch_more-IsSound :
    (s : ResultStore) (more : FetchMore) → IsSound s → IsSound (fetch_more s more).0
unfolding fetch_more
fetch_more-IsSound s more h =
    elim (Bool-cases (not (at_raisable_limit s.phase) || s.cursor_closed || s.close_due)) [
      | inl refused ↦ rw refused h
      | inr applies ↦ rw applies (
          settle-IsSound _ (
            reopened-IsSteady s (more_caps s more) h.steady (ground arith) (ground arith)
              (more_caps-wider s more h.cap).0 (more_caps-wider s more h.cap).1))
    ]
