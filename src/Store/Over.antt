-- ===== src/Store/Over.antt =====
-- crates/db-core/src/store/result_store.rs: what has ended stays ended, and what is retained stays.
use reldex.Base.{
  ℕ, ◌≡◌, ◌≢◌, refl, sym, ap, subst, ◌∙◌, inl, inr, Bool-cases, Bool, true, false, ◌||◌, Option,
  none, some, List, [], ◌∷◌, ◌++◌, append-nil, append_assoc, arith, if◌then◌else◌,
}
use reldex.Driver.Error.{DbResult, DbError}
use reldex.Driver.Vectors.{push}
use reldex.Store.Ids.{result_eq}
use reldex.Store.Segment.{ResultSegment}
use reldex.Store.Result.{
  FetchTicket, FetchRequest, StoreAction, SegmentReply, Fetched, FetchMore, InFlight, Phase,
  ResultStore, is_active, is_at_limit,
}
use reldex.Store.Fetch.{held_back, due, record_action}
use reldex.Store.Inputs.{
  append, forget, fail, find_entry, out_of_sequence, is_expected, take_front, on_fetched,
  set_demand, fetch_all, stop, resume, at_raisable_limit, fetch_more, discard,
  transaction_end_submitted, transaction_end_answered, statement_executed, session_ended,
}
use reldex.Store.Sound.{due-DueFetch}
use reldex.Store.Final.{drop_entry-same, Retained, retained, Grows, Step-Grows}
use reldex.Store.Reach.{
  Step, submitted, replied, demanded, streamed, stopped, resumed, raised, discarded, end_submitted,
  end_answered, executed, session_over, Reach, here, next,
}

-- No row is taken any more, and the cursor is of no further use.
abbrev pub is_over : Phase → Bool
is_over Phase.complete = true
is_over (Phase.failed after error) = true
is_over (Phase.ended cause) = true
is_over _ = false

pub over-not_active :
    (p : Phase) → is_over p ≡ true → (is_active p ≡ false) × (is_at_limit p ≡ false)
over-not_active p h = ground arith

take_front-over :
    (s : ResultStore) (es : List InFlight) (reply : DbResult SegmentReply)
    → is_over s.phase ≡ true
    → is_over (take_front s es reply).0.phase ≡ true
unfolding forget
take_front-over s [] reply h = h
take_front-over s (entry ∷ rest) reply h = rw (over-not_active s.phase h).0 h

drop_entry-over :
    (s t : ResultStore) (error : DbError)
    → t.phase ≡ s.phase
    → is_over s.phase ≡ true
    → is_over (if is_active t.phase || is_at_limit t.phase then fail t error else t).phase ≡ true
drop_entry-over s t error e h =
    let over : is_over t.phase ≡ true = ap is_over e ∙ h in
    rw ((over-not_active t.phase over).0, (over-not_active t.phase over).1) over

out_of_sequence-over :
    (s : ResultStore) (n : ℕ) → is_over s.phase ≡ true → is_over (out_of_sequence s n).phase ≡ true
unfolding out_of_sequence
out_of_sequence-over s n h =
    drop_entry-over s _ _ (drop_entry-same s n (find_entry n s.in_flight)).1 h

abbrev StaysOver : Option (ResultStore × Fetched) → Type 0
StaysOver none = Unit {0}
StaysOver (some (t, fetched)) = is_over t.phase ≡ true

on_fetched-StaysOver :
    (debug_assertions : Bool) (s : ResultStore) (ticket : FetchTicket)
    (reply : DbResult SegmentReply)
    → is_over s.phase ≡ true
    → StaysOver (on_fetched debug_assertions s ticket reply)
unfolding on_fetched
on_fetched-StaysOver debug_assertions s ticket reply h =
    elim (Bool-cases (result_eq ticket.result s.result)) [
      | inr other ↦ rw other h
      | inl own ↦ elim (Bool-cases (is_expected s.in_flight ticket.sequence)) [
        | inl expected ↦ rw (own, expected) (take_front-over s s.in_flight reply h)
        | inr wrong ↦ rw (own, wrong) (released debug_assertions)
      ]
    ]
  where
    released :
        (debug : Bool)
        → StaysOver (
            if debug
            then none
            else some (out_of_sequence s ticket.sequence, Fetched.out_of_sequence))
    released true = tt
    released false = out_of_sequence-over s ticket.sequence h

not_raisable : (p : Phase) → is_over p ≡ true → at_raisable_limit p ≡ false
not_raisable p h = ground arith

pub fetch_more-over :
    (s : ResultStore) (more : FetchMore) → is_over s.phase ≡ true → (fetch_more s more).0 ≡ s
unfolding fetch_more
fetch_more-over s more h = rw (not_raisable s.phase h)

Step-over : {s t : ResultStore} → Step s t → is_over s.phase ≡ true → is_over t.phase ≡ true
unfolding record_action set_demand fetch_all stop resume discard transaction_end_submitted
    transaction_end_answered statement_executed session_ended
Step-over (submitted (StoreAction.fetch request) e) h = h
Step-over (submitted (StoreAction.close_result result) e) h = h
Step-over (replied {s = s} debug ticket reply fetched fits e) h =
    subst StaysOver e (on_fetched-StaysOver debug s ticket reply h)
Step-over (demanded rows) h = h
Step-over streamed h = h
Step-over stopped h = h
Step-over resumed h = h
Step-over (raised {s = s} more) h =
    subst (λ (t : ResultStore). is_over t.phase ≡ true) (sym (fetch_more-over s more h)) h
Step-over discarded h = refl
Step-over end_submitted h = h
Step-over (end_answered true) h = ground arith
Step-over (end_answered false) h = h
Step-over (executed outcome) h = ground arith
Step-over session_over h = ground arith

pub over-held_back : (s : ResultStore) → is_over s.phase ≡ true → held_back s ≡ true
unfolding held_back
over-held_back s h = rw (over-not_active s.phase h).0

over-due :
    (s : ResultStore) (request : FetchRequest)
    → is_over s.phase ≡ true
    → due s ≢ some (StoreAction.fetch request)
over-due s request h e = ground (arith, over-held_back s h, (due-DueFetch s request e).held)

Step-same : {s t : ResultStore} → Step s t → is_over s.phase ≡ true → retained t ≡ retained s
Step-same {s = s} {t = t} st h = same (Step-Grows st)
  where
    same : Grows s t → retained t ≡ retained s
    same (inl e) = e
    same (inr (a, segment, rows, e)) = absurd (ground (arith, a, (over-not_active s.phase h).0))

pub Reach-over_from :
    {s t : ResultStore}
    → Reach s t
    → is_over s.phase ≡ true
    → (is_over t.phase ≡ true) × (retained t ≡ retained s)
Reach-over_from here h = (h, refl)
Reach-over_from (next r st) h =
    let (over, same) = Reach-over_from r h in (Step-over st over, Step-same st over ∙ same)

-- A store that is complete, has failed or has ended stays in one of these states whatever happens to
-- it, retains exactly what it does, and has no fetch due.
pub Reach-over :
    {s t : ResultStore}
    → Reach s t
    → is_over s.phase ≡ true
    → (is_over t.phase ≡ true)
      × (retained t ≡ retained s)
      × ((request : FetchRequest) → due t ≢ some (StoreAction.fetch request))
Reach-over {t = t} r h =
    let (over, same) = Reach-over_from r h in (over, same, λ request. over-due t request over)

grown_more :
    (s t u : ResultStore)
    → (more : List ResultSegment) × (t.segments.items ≡ s.segments.items ++ more)
    → Grows t u
    → (more : List ResultSegment) × (u.segments.items ≡ s.segments.items ++ more)
unfolding append push
grown_more s t u (more, e) (inl same) = (more, ap (λ (v : Retained). v.segments.items) same ∙ e)
grown_more s t u (more, e) (inr (a, segment, rows, grown)) = (
  more ++ (segment ∷ []),
  ap (λ (v : Retained). v.segments.items) grown
      ∙ ap (λ l. l ++ (segment ∷ [])) e
      ∙ append_assoc s.segments.items more (segment ∷ []),
)

-- Nothing ever takes a retained row away: what a store holds later is what it holds now and more behind
-- it.
pub Reach-segments :
    {s t : ResultStore}
    → Reach s t
    → (more : List ResultSegment) × (t.segments.items ≡ s.segments.items ++ more)
Reach-segments {s = s} here = ([], sym (append-nil s.segments.items))
Reach-segments {s = s} (next {t = t} {u = u} r st) =
    grown_more s t u (Reach-segments r) (Step-Grows st)
