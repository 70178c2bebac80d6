-- ===== src/Store/Reach.antt =====
-- crates/db-core/src/store/result_store.rs: a store's life as a step relation, one constructor for each
-- operation that changes it, and the invariants of what can be reached.
use reldex.Base.{ℕ, ◌≡◌, Bool, some, List}
use reldex.Driver.Error.{DbResult}
use reldex.Driver.Types.{ColumnMetadata}
use reldex.Store.Ids.{ResultId}
use reldex.Store.Policy.{ResultPolicy}
use reldex.Store.Result.{
  FetchTicket, StoreAction, SegmentReply, Fetched, FetchMore, ResultStore, new_store,
}
use reldex.Store.Fetch.{due, record_action}
use reldex.Store.Inputs.{
  on_fetched, set_demand, fetch_all, stop, resume, fetch_more, discard, transaction_end_submitted,
  transaction_end_answered, ExecuteOutcome, statement_executed, session_ended,
}
use reldex.Store.Sound.{IsPolicy, IsSound}
use reldex.Store.Keeps.{
  new_store-IsSound, set_demand-IsSound, fetch_all-IsSound, stop-IsSound, resume-IsSound,
  fetch_more-IsSound, discard-IsSound, transaction_end_submitted-IsSound,
  transaction_end_answered-IsSound, statement_executed-IsSound, session_ended-IsSound,
  record_action-IsSound,
}
use reldex.Store.Replies.{ReplyFits, on_fetched-IsSound}

-- What is due was submitted; a reply came, which holds no more rows than its fetch asked for; or the
-- owner of the store called one of its functions.
pub data Step : ResultStore → ResultStore → Type 0 where
  submitted : {s : ResultStore} (a : StoreAction) → due s ≡ some a → Step s (record_action s a)
  replied :
      {s s' : ResultStore} (debug_assertions : Bool) (ticket : FetchTicket)
      (reply : DbResult SegmentReply) (fetched : Fetched)
      → ReplyFits s.in_flight reply
      → on_fetched debug_assertions s ticket reply ≡ some (s', fetched)
      → Step s s'
  demanded : {s : ResultStore} (rows : ℕ) → Step s (set_demand s rows)
  streamed : {s : ResultStore} → Step s (fetch_all s)
  stopped : {s : ResultStore} → Step s (stop s)
  resumed : {s : ResultStore} → Step s (resume s)
  raised : {s : ResultStore} (more : FetchMore) → Step s (fetch_more s more).0
  discarded : {s : ResultStore} → Step s (discard s)
  end_submitted : {s : ResultStore} → Step s (transaction_end_submitted s)
  end_answered :
      {s : ResultStore} (succeeded : Bool) → Step s (transaction_end_answered s succeeded)
  executed : {s : ResultStore} (outcome : ExecuteOutcome) → Step s (statement_executed s outcome)
  session_over : {s : ResultStore} → Step s (session_ended s)

pub data Reach (s : ResultStore) : ResultStore → Type 0 where
  here : Reach s s
  next : {t u : ResultStore} → Reach s t → Step t u → Reach s u

Step-IsSound : {s t : ResultStore} → Step s t → IsSound s → IsSound t
Step-IsSound (submitted {s = s} a e) h = record_action-IsSound s a h e
Step-IsSound (replied {s = s} {s' = t} debug ticket reply fetched fits e) h =
    on_fetched-IsSound debug s t ticket reply fetched h fits e
Step-IsSound (demanded {s = s} rows) h = set_demand-IsSound s rows h
Step-IsSound (streamed {s = s}) h = fetch_all-IsSound s h
Step-IsSound (stopped {s = s}) h = stop-IsSound s h
Step-IsSound (resumed {s = s}) h = resume-IsSound s h
Step-IsSound (raised {s = s} more) h = fetch_more-IsSound s more h
Step-IsSound (discarded {s = s}) h = discard-IsSound s h
Step-IsSound (end_submitted {s = s}) h = transaction_end_submitted-IsSound s h
Step-IsSound (end_answered {s = s} succeeded) h = transaction_end_answered-IsSound s succeeded h
Step-IsSound (executed {s = s} outcome) h = statement_executed-IsSound s outcome h
Step-IsSound (session_over {s = s}) h = session_ended-IsSound s h

pub Reach-IsSound_from : {s t : ResultStore} → Reach s t → IsSound s → IsSound t
Reach-IsSound_from here h = h
Reach-IsSound_from (next r st) h = Step-IsSound st (Reach-IsSound_from r h)

-- In every state that a new store reaches, the counts are those of the fetches in flight, what is
-- retained and requested is at most one row past the row cap in force, no more fetches are in flight
-- than the policy allows, an active store has its cursor open and no close due, a closed cursor has a
-- reason for its large objects, and an active store with nothing in flight is below its caps and not
-- exhausted. The policy has no zero in it, and a reply holds no more rows than its fetch asked for.
pub Reach-IsSound :
    (result : ResultId) (columns : List ColumnMetadata) (policy : ResultPolicy) (s : ResultStore)
    → IsPolicy policy
    → Reach (new_store result columns policy) s
    → IsSound s
Reach-IsSound result columns policy s h r =
    Reach-IsSound_from r (new_store-IsSound result columns policy h)
