-- ===== src/Store/Session.antt =====
-- crates/db-core/src/store/session_results.rs: the result stores of one session, and the events that
-- end them. Of the events, those that no store takes note of are one constructor.
use reldex.Base.{
  ℕ, zero, suc, ◌+◌, ◌-◌, Bool, true, false, not, Option, none, some, List, [], ◌∷◌, ◌++◌, map,
  find, if◌then◌else◌,
}
use reldex.Driver.Error.{DbResult, ok, err, is_ok}
use reldex.Events.Event.{SessionEvent, ends_transaction, event_session}
use reldex.Store.Ids.{SessionId, session_eq, ResultId, result_eq}
use reldex.Store.Policy.{ResultPolicy}
use reldex.Store.Result.{FetchTicket, SegmentReply, StoreAction, Fetched, ResultStore, new_store}
use reldex.Store.Fetch.{pump}
use reldex.Store.Inputs.{
  on_fetched, transaction_end_submitted, transaction_end_answered, ExecuteOutcome,
  statement_executed, session_ended,
}

pub data Observed : Type 0 where
  segment : ResultId → Option Fetched → Observed
  event : SessionEvent → Observed

pub record SessionResults : Type 0 where
  pub session : SessionId
  pub stores : List ResultStore
  pub transaction_ends_pending : ℕ

-- `SessionResults::new`.
abbrev pub new_results : SessionId → SessionResults
new_results session = record { session = session; stores = []; transaction_ends_pending = 0 }

-- `for _ in 0..pending { store.transaction_end_submitted(); }`
abbrev pub announce : ℕ → ResultStore → ResultStore
announce zero s = s
announce (suc n) s = announce n (transaction_end_submitted s)

-- `stores.retain(|existing| existing.result() != result)`.
abbrev pub without : ResultId → List ResultStore → List ResultStore
without result [] = []
without result (s ∷ stores) =
    if result_eq s.result result then without result stores else s ∷ without result stores

abbrev pub open_result :
    SessionResults → ExecuteOutcome → ResultPolicy → ResultId → SessionResults × Bool
open_result r outcome policy result =
    if not (session_eq result.session r.session) then (r, false) else (
      record r {
        stores =
            without result r.stores
            ++ (announce r.transaction_ends_pending (new_store result outcome.columns policy) ∷ []);
      },
      true,
    )

abbrev pub open_if_any :
    SessionResults → ExecuteOutcome → ResultPolicy → Option ResultId → SessionResults × Bool
open_if_any r outcome policy none = (r, false)
open_if_any r outcome policy (some result) = open_result r outcome policy result

-- `SessionResults::open`: the stores, and whether one was opened, which is then the last.
unfoldable pub open_store : SessionResults → ExecuteOutcome → ResultPolicy → SessionResults × Bool
unfolding transaction_end_submitted new_store
open_store r outcome policy = open_if_any r outcome policy outcome.result

unfoldable pub get : SessionResults → ResultId → Option ResultStore
get r result = find (λ (s : ResultStore). result_eq s.result result) r.stores

-- `position` and `remove`: the first store of a result, and the others.
abbrev pub take_out : ResultId → List ResultStore → Option ResultStore × List ResultStore
take_out result [] = (none, [])
take_out result (s ∷ stores) =
    let (found, rest) = take_out result stores in
    if result_eq s.result result then (some s, stores) else (found, s ∷ rest)

unfoldable pub remove : SessionResults → ResultId → Option ResultStore × SessionResults
remove r result =
    let (found, rest) = take_out result r.stores in (found, record r { stores = rest })

-- A commit, rollback or rollback to a savepoint was submitted.
unfoldable pub end_submitted : SessionResults → SessionResults
unfolding transaction_end_submitted
end_submitted r = record r {
  transaction_ends_pending = r.transaction_ends_pending + 1;
  stores = map transaction_end_submitted r.stores;
}

-- `get_mut(result).map(|store| store.on_fetched(fetch, segment))`. A debug build may panic.
abbrev pub cons_store :
    ResultStore
    → Option (Option Fetched × List ResultStore)
    → Option (Option Fetched × List ResultStore)
cons_store s none = none
cons_store s (some (fetched, stores)) = some (fetched, s ∷ stores)

abbrev pub fetched_first :
    List ResultStore → Option (ResultStore × Fetched) → Option (Option Fetched × List ResultStore)
fetched_first stores none = none
fetched_first stores (some (s, fetched)) = some (some fetched, s ∷ stores)

unfoldable pub fetched_by :
    Bool
    → FetchTicket
    → DbResult SegmentReply
    → List ResultStore
    → Option (Option Fetched × List ResultStore)
unfolding on_fetched
fetched_by debug ticket reply [] = some (none, [])
fetched_by debug ticket reply (s ∷ stores) =
    if result_eq s.result ticket.result
    then fetched_first stores (on_fetched debug s ticket reply)
    else cons_store s (fetched_by debug ticket reply stores)

abbrev pub segment_observed :
    SessionResults
    → ResultId
    → Option (Option Fetched × List ResultStore)
    → Option (SessionResults × Observed)
segment_observed r result none = none
segment_observed r result (some (fetched, stores)) =
    some (record r { stores = stores }, Observed.segment result fetched)

-- What the stores take note of.
abbrev pub noted : SessionResults → SessionEvent → SessionResults
noted r (SessionEvent.executed session (ok outcome)) = record r {
  stores = map (λ s. statement_executed s outcome) r.stores;
}
noted r (SessionEvent.completed session operation result) =
    if ends_transaction operation
    then record r {
      transaction_ends_pending = r.transaction_ends_pending - 1;
      stores = map (λ s. transaction_end_answered s (is_ok result)) r.stores;
    }
    else r
noted r (SessionEvent.terminal session) = record r { stores = map session_ended r.stores }
noted r _ = r

abbrev pub observe_own : Bool → SessionResults → SessionEvent → Option (SessionResults × Observed)
observe_own debug r (SessionEvent.fetched_segment session fetch reply) =
    segment_observed r fetch.result (fetched_by debug fetch reply r.stores)
observe_own debug r e = some (noted r e, Observed.event e)

-- `SessionResults::observe`.
unfoldable pub observe : Bool → SessionResults → SessionEvent → Option (SessionResults × Observed)
unfolding fetched_by statement_executed transaction_end_answered session_ended
observe debug r e =
    if not (session_eq (event_session e) r.session)
    then some (r, Observed.event e)
    else observe_own debug r e

module _ {T : Type 0} (submit : T → StoreAction → T × DbResult (Unit {0})) where
  abbrev pub Pumped : Type 0
  Pumped = Option (List ResultStore × T × DbResult ℕ)

  abbrev pub with_store : ResultStore → Pumped → Pumped
  with_store s none = none
  with_store s (some (stores, t, result)) = some (s ∷ stores, t, result)

  -- `SessionResults::pump`: the stores after the first error are not pumped.
  unfoldable pub pump_all : List ResultStore → T → ℕ → Pumped
  unfolding pump
  pump_all [] t submitted = some ([], t, ok submitted)
  pump_all (s ∷ stores) t submitted = elim (pump submit s t) [
    | none ↦ none
    | some (s', t', err e) ↦ some (s' ∷ stores, t', err e)
    | some (s', t', ok n) ↦ with_store s' (pump_all stores t' (submitted + n))
  ]
