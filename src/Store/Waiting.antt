-- ===== src/Store/Waiting.antt =====
-- crates/db-core/src/store/session_results.rs: while the end of a transaction is announced and not
-- answered, no store of the session fetches.
use reldex.Base.{
  ℕ, zero, suc, ◌+◌, ◌-◌, ◌≡◌, refl, ap, subst, ◌∙◌, inl, inr, Bool-cases, Bool, true, false,
  Option, none, some, some-inj, List, [], ◌∷◌, ◌++◌, map, arith, if◌then◌else◌,
}
use reldex.Driver.Error.{DbResult, ok, err, is_ok}
use reldex.Store.Ids.{session_eq, ResultId, result_eq}
use reldex.Store.Policy.{ResultPolicy}
use reldex.Store.Result.{FetchTicket, SegmentReply, Fetched, ResultStore, new_store}
use reldex.Store.Inputs.{
  on_fetched, transaction_end_submitted, transaction_end_answered, ExecuteOutcome,
  statement_executed, session_ended,
}
use reldex.Store.Pending.{Waits, on_fetched-Waits}
use reldex.Events.Event.{SessionEvent, ends_transaction, event_session}
use reldex.Store.Session.{
  Observed, SessionResults, announce, without, open_if_any, open_store, remove, take_out,
  end_submitted, fetched_by, fetched_first, cons_store, segment_observed, noted, observe_own,
  observe,
}

-- Every store waits for as many answers as the session does.
abbrev pub AllWait : ℕ → List ResultStore → Type 0
AllWait n [] = Unit {0}
AllWait n (s ∷ stores) = (s.transaction_ends_pending ≡ n) × AllWait n stores

AllWait-append :
    (n : ℕ) (stores : List ResultStore) (s : ResultStore)
    → AllWait n stores
    → s.transaction_ends_pending ≡ n
    → AllWait n (stores ++ (s ∷ []))
AllWait-append n [] s h e = (e, tt)
AllWait-append n (x ∷ stores) s (p, h) e = (p, AllWait-append n stores s h e)

AllWait-without :
    (n : ℕ) (result : ResultId) (stores : List ResultStore)
    → AllWait n stores
    → AllWait n (without result stores)
AllWait-without n result [] h = tt
AllWait-without n result (s ∷ stores) (p, h) =
    kept (result_eq s.result result) (AllWait-without n result stores h)
  where
    kept :
        (b : Bool)
        → AllWait n (without result stores)
        → AllWait n (if b then without result stores else s ∷ without result stores)
    kept true rest = rest
    kept false rest = (p, rest)

AllWait-map :
    (f : ResultStore → ResultStore) (n m : ℕ) (stores : List ResultStore)
    → ((s : ResultStore) → s.transaction_ends_pending ≡ n → (f s).transaction_ends_pending ≡ m)
    → AllWait n stores
    → AllWait m (map f stores)
AllWait-map f n m [] each h = tt
AllWait-map f n m (s ∷ stores) each (p, h) = (each s p, AllWait-map f n m stores each h)

announce-pending :
    (n : ℕ) (s : ResultStore)
    → (announce n s).transaction_ends_pending ≡ n + s.transaction_ends_pending
unfolding transaction_end_submitted
announce-pending zero s = omega arith
announce-pending (suc n) s = omega (arith, announce-pending n (transaction_end_submitted s))

-- The stores of a session wait as it does.
abbrev pub IsWaiting : SessionResults → Type 0
IsWaiting r = AllWait r.transaction_ends_pending r.stores

pub open_store-IsWaiting :
    (r : SessionResults) (outcome : ExecuteOutcome) (policy : ResultPolicy)
    → IsWaiting r
    → IsWaiting (open_store r outcome policy).0
unfolding open_store
open_store-IsWaiting r outcome policy h = opened outcome.result
  where
    opened : (o : Option ResultId) → IsWaiting (open_if_any r outcome policy o).0
    opened none = h
    opened (some result) = elim (Bool-cases (session_eq result.session r.session)) [
      | inr foreign ↦ rw foreign h
      | inl own ↦ rw own (
          AllWait-append r.transaction_ends_pending (without result r.stores) _
            (AllWait-without _ result r.stores h)
            (omega (
              arith,
              announce-pending r.transaction_ends_pending (new_store result outcome.columns policy),
            )))
    ]

pub end_submitted-IsWaiting : (r : SessionResults) → IsWaiting r → IsWaiting (end_submitted r)
unfolding end_submitted
end_submitted-IsWaiting r h =
    AllWait-map transaction_end_submitted _ _ r.stores (λ s e. omega arith) h

abbrev AllWaitIn : ℕ → Option (Option Fetched × List ResultStore) → Type 0
AllWaitIn n none = Unit {0}
AllWaitIn n (some (fetched, stores)) = AllWait n stores

fetched_by-AllWaitIn :
    (debug : Bool) (ticket : FetchTicket) (reply : DbResult SegmentReply) (n : ℕ)
    (stores : List ResultStore)
    → AllWait n stores
    → AllWaitIn n (fetched_by debug ticket reply stores)
unfolding fetched_by
fetched_by-AllWaitIn debug ticket reply n [] h = tt
fetched_by-AllWaitIn debug ticket reply n (s ∷ stores) (p, h) =
    by_owner (result_eq s.result ticket.result) (fetched_by-AllWaitIn debug ticket reply n stores h)
  where
    first :
        (o : Option (ResultStore × Fetched))
        → Waits s.transaction_ends_pending o
        → AllWaitIn n (fetched_first stores o)
    first none w = tt
    first (some (t, fetched)) w = (w ∙ p, h)

    rest :
        (o : Option (Option Fetched × List ResultStore))
        → AllWaitIn n o
        → AllWaitIn n (cons_store s o)
    rest none w = tt
    rest (some (fetched, ss)) w = (p, w)

    by_owner :
        (b : Bool)
        → AllWaitIn n (fetched_by debug ticket reply stores)
        → AllWaitIn n (
            if b
            then fetched_first stores (on_fetched debug s ticket reply)
            else cons_store s (fetched_by debug ticket reply stores))
    by_owner true w =
        first (on_fetched debug s ticket reply) (on_fetched-Waits debug s ticket reply)
    by_owner false w = rest (fetched_by debug ticket reply stores) w

segment_observed-IsWaiting :
    (r r' : SessionResults) (result : ResultId) (o : Option (Option Fetched × List ResultStore))
    (seen : Observed)
    → AllWaitIn r.transaction_ends_pending o
    → segment_observed r result o ≡ some (r', seen)
    → IsWaiting r'
segment_observed-IsWaiting r r' result none seen w e = cc
segment_observed-IsWaiting r r' result (some (fetched, stores)) seen w e =
    subst IsWaiting (ap (λ p. p.0) (some-inj _ _ e)) w

answered-pending :
    (s : ResultStore) (succeeded : Bool)
    → (transaction_end_answered s succeeded).transaction_ends_pending
      ≡ s.transaction_ends_pending - 1
unfolding transaction_end_answered
answered-pending s true = refl
answered-pending s false = refl

pub executed-pending :
    (s : ResultStore) (outcome : ExecuteOutcome)
    → (statement_executed s outcome).transaction_ends_pending ≡ s.transaction_ends_pending
unfolding statement_executed
executed-pending s outcome = ground arith

noted-IsWaiting : (r : SessionResults) (e : SessionEvent) → IsWaiting r → IsWaiting (noted r e)
unfolding session_ended
noted-IsWaiting r (SessionEvent.executed session (ok outcome)) h =
    AllWait-map _ _ _ r.stores (λ s e. executed-pending s outcome ∙ e) h
noted-IsWaiting r (SessionEvent.executed session (err e)) h = h
noted-IsWaiting r (SessionEvent.completed session operation result) h =
    by_operation (ends_transaction operation)
  where
    by_operation :
        (b : Bool)
        → IsWaiting (
            if b
            then record r {
              transaction_ends_pending = r.transaction_ends_pending - 1;
              stores = map (λ s. transaction_end_answered s (is_ok result)) r.stores;
            }
            else r)
    by_operation true =
        AllWait-map _ _ _ r.stores (λ s e. answered-pending s (is_ok result) ∙ ap (λ n. n - 1) e) h
    by_operation false = h
noted-IsWaiting r (SessionEvent.terminal session) h =
    AllWait-map session_ended _ _ r.stores (λ s e. e) h
noted-IsWaiting r (SessionEvent.fetched_segment session fetch reply) h = h
noted-IsWaiting r (SessionEvent.other_reply session) h = h
noted-IsWaiting r (SessionEvent.executing session) h = h
noted-IsWaiting r (SessionEvent.server_output session lines dropped failure invalid) h = h
noted-IsWaiting r (SessionEvent.transaction_state_changed session active) h = h

noted_as :
    (r r' : SessionResults) (e : SessionEvent) (seen : Observed)
    → IsWaiting r
    → ◌≡◌ {A = Option (SessionResults × Observed)}
        (some (noted r e, Observed.event e))
        (some (r', seen))
    → IsWaiting r'
noted_as r r' e seen h q = subst IsWaiting (ap (λ p. p.0) (some-inj _ _ q)) (noted-IsWaiting r e h)

observe_own-IsWaiting :
    (debug : Bool) (r r' : SessionResults) (e : SessionEvent) (seen : Observed)
    → IsWaiting r
    → observe_own debug r e ≡ some (r', seen)
    → IsWaiting r'
observe_own-IsWaiting debug r r' (SessionEvent.fetched_segment session fetch reply) seen h q =
    segment_observed-IsWaiting r r' fetch.result _ seen
      (fetched_by-AllWaitIn debug fetch reply _ r.stores h) q
observe_own-IsWaiting debug r r' (SessionEvent.executed session outcome) seen h q =
    noted_as r r' (SessionEvent.executed session outcome) seen h q
observe_own-IsWaiting debug r r' (SessionEvent.completed session operation result) seen h q =
    noted_as r r' (SessionEvent.completed session operation result) seen h q
observe_own-IsWaiting debug r r' (SessionEvent.terminal session) seen h q =
    noted_as r r' (SessionEvent.terminal session) seen h q
observe_own-IsWaiting debug r r' (SessionEvent.other_reply session) seen h q =
    noted_as r r' (SessionEvent.other_reply session) seen h q
observe_own-IsWaiting debug r r' (SessionEvent.executing session) seen h q =
    noted_as r r' (SessionEvent.executing session) seen h q
observe_own-IsWaiting debug r r' (SessionEvent.server_output session lines dropped failure invalid)
      seen h q =
    noted_as r r' (SessionEvent.server_output session lines dropped failure invalid) seen h q
observe_own-IsWaiting debug r r' (SessionEvent.transaction_state_changed session active) seen h q =
    noted_as r r' (SessionEvent.transaction_state_changed session active) seen h q

pub observe-IsWaiting :
    (debug : Bool) (r r' : SessionResults) (e : SessionEvent) (seen : Observed)
    → IsWaiting r
    → observe debug r e ≡ some (r', seen)
    → IsWaiting r'
unfolding observe
observe-IsWaiting debug r r' e seen h q =
    elim (Bool-cases (session_eq (event_session e) r.session)) [
      | inr foreign ↦ subst IsWaiting (ap (λ p. p.0) (some-inj _ _ (rw foreign at q))) h
      | inl own ↦ observe_own-IsWaiting debug r r' e seen h (rw own at q)
    ]

take_out-AllWait :
    (n : ℕ) (result : ResultId) (stores : List ResultStore)
    → AllWait n stores
    → AllWait n (take_out result stores).1
take_out-AllWait n result [] h = tt
take_out-AllWait n result (s ∷ stores) (p, h) = elim (Bool-cases (result_eq s.result result)) [
  | inl same ↦ rw same h
  | inr other ↦ rw other (p, take_out-AllWait n result stores h)
]

pub remove-IsWaiting :
    (r : SessionResults) (result : ResultId) → IsWaiting r → IsWaiting (remove r result).1
unfolding remove
remove-IsWaiting r result h = take_out-AllWait r.transaction_ends_pending result r.stores h
