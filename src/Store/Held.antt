-- ===== src/Store/Held.antt =====
-- crates/db-core/src/store/session_results.rs: what may happen to the stores of a session, as a step
-- relation, and what holds in every state that it reaches.
use reldex.Base.{
  ℕ, ◌<◌, ◌≡◌, ◌≢◌, refl, subst, ◌∙◌, inl, inr, Bool-cases, Bool, false, not, ◌||◌, some, List, [],
  ◌∷◌, arith,
}
use reldex.Driver.Error.{DbResult}
use reldex.Store.Ids.{SessionId, ResultId}
use reldex.Store.Policy.{ResultPolicy}
use reldex.Store.Result.{
  FetchTicket, FetchRequest, StoreAction, SegmentReply, Fetched, FetchMore, Phase, ResultStore,
}
use reldex.Store.Fetch.{held_back, due, record_action}
use reldex.Store.Inputs.{
  more_caps, set_demand, fetch_all, stop, resume, at_raisable_limit, fetch_more, discard,
  ExecuteOutcome, on_fetched, statement_executed, session_ended,
}
use reldex.Store.Sound.{due-DueFetch}
use reldex.Store.Pending.{settle-pending, Waits, on_fetched-Waits}
use reldex.Events.Event.{SessionEvent}
use reldex.Store.Session.{
  Observed, SessionResults, new_results, open_store, remove, end_submitted, observe,
}
use reldex.Store.Waiting.{
  AllWait, IsWaiting, open_store-IsWaiting, end_submitted-IsWaiting, observe-IsWaiting,
  remove-IsWaiting, executed-pending,
}

-- What is done to one of the stores by itself, also through `SessionResults::get_mut`. The two calls
-- that count the ends of transactions are not among them: `SessionResults` makes these for every store
-- at once, with its own count.
pub data OwnStep : ResultStore → ResultStore → Type 0 where
  submitted : {s : ResultStore} (a : StoreAction) → due s ≡ some a → OwnStep s (record_action s a)
  demanded : {s : ResultStore} (rows : ℕ) → OwnStep s (set_demand s rows)
  streamed : {s : ResultStore} → OwnStep s (fetch_all s)
  stopped : {s : ResultStore} → OwnStep s (stop s)
  resumed : {s : ResultStore} → OwnStep s (resume s)
  raised : {s : ResultStore} (more : FetchMore) → OwnStep s (fetch_more s more).0
  discarded : {s : ResultStore} → OwnStep s (discard s)
  replied :
      {s s' : ResultStore} (debug_assertions : Bool) (ticket : FetchTicket)
      (reply : DbResult SegmentReply) (fetched : Fetched)
      → on_fetched debug_assertions s ticket reply ≡ some (s', fetched)
      → OwnStep s s'
  executed : {s : ResultStore} (outcome : ExecuteOutcome) → OwnStep s (statement_executed s outcome)
  session_over : {s : ResultStore} → OwnStep s (session_ended s)

-- One store of the list takes a step.
pub data OneSteps : List ResultStore → List ResultStore → Type 0 where
  this :
      {s t : ResultStore} {stores : List ResultStore}
      → OwnStep s t
      → OneSteps (s ∷ stores) (t ∷ stores)
  later :
      {s : ResultStore} {stores others : List ResultStore}
      → OneSteps stores others
      → OneSteps (s ∷ stores) (s ∷ others)

pub data SessionStep : SessionResults → SessionResults → Type 0 where
  opened :
      {r : SessionResults} (outcome : ExecuteOutcome) (policy : ResultPolicy)
      → SessionStep r (open_store r outcome policy).0
  removed : {r : SessionResults} (result : ResultId) → SessionStep r (remove r result).1
  announced : {r : SessionResults} → SessionStep r (end_submitted r)
  observed :
      {r r' : SessionResults} (debug_assertions : Bool) (e : SessionEvent) (seen : Observed)
      → observe debug_assertions r e ≡ some (r', seen)
      → SessionStep r r'
  stepped :
      {r : SessionResults} {stores : List ResultStore}
      → OneSteps r.stores stores
      → SessionStep r (record r { stores = stores })

pub data SessionReach (r : SessionResults) : SessionResults → Type 0 where
  start : SessionReach r r
  after : {t u : SessionResults} → SessionReach r t → SessionStep t u → SessionReach r u

record_action-pending :
    (s : ResultStore) (a : StoreAction)
    → (record_action s a).transaction_ends_pending ≡ s.transaction_ends_pending
unfolding record_action
record_action-pending s (StoreAction.fetch request) = refl
record_action-pending s (StoreAction.close_result result) = refl

fetch_more-pending :
    (s : ResultStore) (more : FetchMore)
    → (fetch_more s more).0.transaction_ends_pending ≡ s.transaction_ends_pending
unfolding fetch_more
fetch_more-pending s more =
    elim (Bool-cases (not (at_raisable_limit s.phase) || s.cursor_closed || s.close_due)) [
      | inl refused ↦ rw refused refl
      | inr applies ↦ rw applies (
          settle-pending
            (record s { caps = more_caps s more; phase = Phase.active; stopped = false }))
    ]

discard-pending :
    (s : ResultStore) → (discard s).transaction_ends_pending ≡ s.transaction_ends_pending
unfolding discard
discard-pending s = ground arith

OwnStep-pending :
    {s t : ResultStore} → OwnStep s t → t.transaction_ends_pending ≡ s.transaction_ends_pending
unfolding set_demand fetch_all stop resume session_ended
OwnStep-pending (OwnStep.submitted {s = s} a e) = record_action-pending s a
OwnStep-pending (OwnStep.demanded rows) = refl
OwnStep-pending OwnStep.streamed = refl
OwnStep-pending OwnStep.stopped = refl
OwnStep-pending OwnStep.resumed = refl
OwnStep-pending (OwnStep.raised {s = s} more) = fetch_more-pending s more
OwnStep-pending (OwnStep.discarded {s = s}) = discard-pending s
OwnStep-pending (OwnStep.replied {s = s} debug ticket reply fetched e) =
    subst (Waits s.transaction_ends_pending) e (on_fetched-Waits debug s ticket reply)
OwnStep-pending (OwnStep.executed {s = s} outcome) = executed-pending s outcome
OwnStep-pending OwnStep.session_over = refl

OneSteps-AllWait :
    (n : ℕ) {stores others : List ResultStore}
    → OneSteps stores others
    → AllWait n stores
    → AllWait n others
OneSteps-AllWait n (OneSteps.this st) (p, h) = (OwnStep-pending st ∙ p, h)
OneSteps-AllWait n (OneSteps.later st) (p, h) = (p, OneSteps-AllWait n st h)

SessionStep-IsWaiting : {r r' : SessionResults} → SessionStep r r' → IsWaiting r → IsWaiting r'
SessionStep-IsWaiting (SessionStep.opened {r = r} outcome policy) h =
    open_store-IsWaiting r outcome policy h
SessionStep-IsWaiting (SessionStep.removed {r = r} result) h = remove-IsWaiting r result h
SessionStep-IsWaiting (SessionStep.announced {r = r}) h = end_submitted-IsWaiting r h
SessionStep-IsWaiting (SessionStep.observed {r = r} {r' = r'} debug e seen q) h =
    observe-IsWaiting debug r r' e seen h q
SessionStep-IsWaiting (SessionStep.stepped st) h = OneSteps-AllWait _ st h

SessionReach-IsWaiting : {r r' : SessionResults} → SessionReach r r' → IsWaiting r → IsWaiting r'
SessionReach-IsWaiting SessionReach.start h = h
SessionReach-IsWaiting (SessionReach.after reach st) h =
    SessionStep-IsWaiting st (SessionReach-IsWaiting reach h)

-- No store of the list has a fetch due.
abbrev pub NoneFetch : List ResultStore → Type 0
NoneFetch [] = Unit {0}
NoneFetch (s ∷ stores) =
    ((request : FetchRequest) → due s ≢ some (StoreAction.fetch request)) × NoneFetch stores

waiting-due :
    (s : ResultStore) (request : FetchRequest)
    → 0 < s.transaction_ends_pending
    → due s ≢ some (StoreAction.fetch request)
unfolding held_back
waiting-due s request p e = ground (arith, (due-DueFetch s request e).held)

AllWait-NoneFetch :
    (n : ℕ) (stores : List ResultStore) → 0 < n → AllWait n stores → NoneFetch stores
AllWait-NoneFetch n [] p h = tt
AllWait-NoneFetch n (s ∷ stores) p (e, h) =
    (λ request. waiting-due s request (omega (arith, e)), AllWait-NoneFetch n stores p h)

-- Whatever is opened, removed, announced, observed or done to a store of a session, each of its stores
-- counts as many unanswered ends of a transaction as the session does, stores opened in between
-- included; and while there is one, no store has a fetch due.
pub SessionReach-NoneFetch :
    (session : SessionId) (r : SessionResults)
    → SessionReach (new_results session) r
    → IsWaiting r × (0 < r.transaction_ends_pending → NoneFetch r.stores)
SessionReach-NoneFetch session r reach =
    let h = SessionReach-IsWaiting reach tt in
    (h, λ p. AllWait-NoneFetch r.transaction_ends_pending r.stores p h)
