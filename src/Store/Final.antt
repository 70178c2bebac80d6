-- ===== src/Store/Final.antt =====
-- crates/db-core/src/store/result_store.rs: only an active store takes rows, a segment at a time.
use reldex.Base.{
  ℕ, ◌≤◌, ◌≡◌, refl, sym, subst, ◌⊎◌, inl, inr, Bool-cases, Bool, true, false, not, ◌&&◌, ◌||◌,
  Option, none, some, List, [], ◌∷◌, arith, length, ltb, ◌==◌, if◌then◌else◌,
}
use reldex.Driver.Error.{DbResult, ok, err}
use reldex.Driver.Vectors.{Vec, push}
use reldex.Store.Ids.{result_eq}
use reldex.Store.Segment.{ResultSegment}
use reldex.Store.Result.{
  FetchTicket, StoreAction, SegmentReply, Fetched, FetchMore, InFlight, Phase, ResultStore,
  is_active, is_at_limit,
}
use reldex.Store.Fetch.{record_action}
use reldex.Store.Inputs.{
  append, settle, forget, note_exhausted, find_entry, drop_entry, out_of_sequence, fetch_failed,
  accept, answered, is_expected, take_front, on_fetched, set_demand, fetch_all, stop, resume,
  at_raisable_limit, more_caps, fetch_more, discard, transaction_end_submitted,
  transaction_end_answered, ExecuteOutcome, statement_executed, session_ended,
}
use reldex.Store.Reach.{
  Step, submitted, replied, demanded, streamed, stopped, resumed, raised, discarded, end_submitted,
  end_answered, executed, session_over,
}

-- What a store retains.
pub record Retained : Type 0 where
  pub segments : Vec ResultSegment
  pub starts : Vec ℕ
  pub uniform : Bool
  pub retained_rows : ℕ

abbrev pub retained : ResultStore → Retained
retained s = record {
  segments = s.segments;
  starts = s.starts;
  uniform = s.uniform;
  retained_rows = s.retained_rows;
}

-- A store retains what it did, or it was active and `append` put a segment with rows behind it.
abbrev pub Grows : ResultStore → ResultStore → Type 0
Grows s t =
    (retained t ≡ retained s)
    ⊎ ((is_active s.phase ≡ true)
        × (segment : ResultSegment) × (1 ≤ segment.rows)
        × (retained t ≡ retained (append s segment)))

settle-retained : (s : ResultStore) → retained (settle s) ≡ retained s
unfolding settle
settle-retained s = ground arith

taken-Grows :
    (s : ResultStore) (reply : SegmentReply) (exhausted b : Bool)
    → is_active s.phase ≡ true
    → (b ≡ true → 1 ≤ reply.segment.rows)
    → Grows s (
        if b then append (note_exhausted s exhausted) reply.segment else note_exhausted s exhausted)
unfolding append push
taken-Grows s reply exhausted true a some_rows = inr (a, reply.segment, some_rows refl, refl)
taken-Grows s reply exhausted false a some_rows = inl refl

accept-Grows :
    (s : ResultStore) (reply : SegmentReply) → is_active s.phase ≡ true → Grows s (accept s reply).0
unfolding accept
accept-Grows s reply a =
    elim (Bool-cases
      (ltb 0 reply.segment.rows && not (length reply.segment.columns == length s.columns))) [
        | inl other ↦ rw other (inl refl)
        | inr fits ↦ rw fits (
            subst
              (λ (v : Retained).
                (v ≡ retained s)
                ⊎ ((is_active s.phase ≡ true)
                    × (segment : ResultSegment) × (1 ≤ segment.rows)
                    × (v ≡ retained (append s segment))))
              (sym (settle-retained _))
              (taken-Grows s reply reply.exhausted (ltb 0 reply.segment.rows) a
                (λ h. ground (arith, h))))
      ]

answered-Grows :
    (s : ResultStore) (reply : DbResult SegmentReply)
    → is_active s.phase ≡ true
    → Grows s (answered s reply).0
unfolding fetch_failed
answered-Grows s (err error) a = inl refl
answered-Grows s (ok reply) a = accept-Grows s reply a

take_front-Grows :
    (s : ResultStore) (es : List InFlight) (reply : DbResult SegmentReply)
    → Grows s (take_front s es reply).0
unfolding forget append
take_front-Grows s [] reply = inl refl
take_front-Grows s (entry ∷ rest) reply = by_phase (is_active s.phase) refl
  where
    popped : ResultStore
    popped = forget (record s { in_flight = rest }) entry

    by_phase :
        (b : Bool)
        → is_active s.phase ≡ b
        → Grows s (if b then answered popped reply else (popped, Fetched.stale)).0
    by_phase true a = answered-Grows popped reply a
    by_phase false over = inl refl

pub drop_entry-same :
    (s : ResultStore) (n : ℕ) (o : Option InFlight)
    → (retained (drop_entry s n o) ≡ retained s) × ((drop_entry s n o).phase ≡ s.phase)
unfolding forget
drop_entry-same s n none = (refl, refl)
drop_entry-same s n (some e) = (refl, refl)

out_of_sequence-retained : (s : ResultStore) (n : ℕ) → retained (out_of_sequence s n) ≡ retained s
unfolding out_of_sequence
out_of_sequence-retained s n =
    elim (Bool-cases (
      is_active (drop_entry s n (find_entry n s.in_flight)).phase
      || is_at_limit (drop_entry s n (find_entry n s.in_flight)).phase)) [
        | inl moves ↦ rw moves (drop_entry-same s n (find_entry n s.in_flight)).0
        | inr rests ↦ rw rests (drop_entry-same s n (find_entry n s.in_flight)).0
      ]

fetch_more-retained :
    (s : ResultStore) (more : FetchMore) → retained (fetch_more s more).0 ≡ retained s
unfolding fetch_more
fetch_more-retained s more =
    elim (Bool-cases (not (at_raisable_limit s.phase) || s.cursor_closed || s.close_due)) [
      | inl refused ↦ rw refused
      | inr applies ↦ rw applies (
          settle-retained
            (record s { caps = more_caps s more; phase = Phase.active; stopped = false }))
    ]

statement_executed-retained :
    (s : ResultStore) (outcome : ExecuteOutcome)
    → retained (statement_executed s outcome) ≡ retained s
unfolding statement_executed
statement_executed-retained s outcome = ground arith

abbrev GrowsTo : ResultStore → Option (ResultStore × Fetched) → Type 0
GrowsTo s none = Unit {0}
GrowsTo s (some (t, fetched)) = Grows s t

on_fetched-GrowsTo :
    (debug_assertions : Bool) (s : ResultStore) (ticket : FetchTicket)
    (reply : DbResult SegmentReply)
    → GrowsTo s (on_fetched debug_assertions s ticket reply)
unfolding on_fetched
on_fetched-GrowsTo debug_assertions s ticket reply =
    elim (Bool-cases (result_eq ticket.result s.result)) [
      | inr other ↦ rw other (inl refl)
      | inl own ↦ elim (Bool-cases (is_expected s.in_flight ticket.sequence)) [
        | inl expected ↦ rw (own, expected) (take_front-Grows s s.in_flight reply)
        | inr wrong ↦ rw (own, wrong) (released debug_assertions)
      ]
    ]
  where
    released :
        (debug : Bool)
        → GrowsTo s (
            if debug
            then none
            else some (out_of_sequence s ticket.sequence, Fetched.out_of_sequence))
    released true = tt
    released false = inl (out_of_sequence-retained s ticket.sequence)

pub Step-Grows : {s t : ResultStore} → Step s t → Grows s t
unfolding record_action set_demand fetch_all stop resume discard transaction_end_submitted
    transaction_end_answered session_ended
Step-Grows (submitted (StoreAction.fetch request) e) = inl refl
Step-Grows (submitted (StoreAction.close_result result) e) = inl refl
Step-Grows (replied {s = s} debug ticket reply fetched fits e) =
    subst (GrowsTo s) e (on_fetched-GrowsTo debug s ticket reply)
Step-Grows (demanded rows) = inl refl
Step-Grows streamed = inl refl
Step-Grows stopped = inl refl
Step-Grows resumed = inl refl
Step-Grows (raised {s = s} more) = inl (fetch_more-retained s more)
Step-Grows discarded = inl refl
Step-Grows end_submitted = inl refl
Step-Grows (end_answered true) = inl refl
Step-Grows (end_answered false) = inl refl
Step-Grows (executed {s = s} outcome) = inl (statement_executed-retained s outcome)
Step-Grows session_over = inl refl
