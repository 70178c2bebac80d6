-- ===== src/Events/Run.antt =====
-- crates/db-core/src/events.rs: what is pushed into a queue and what is taken out, and that every event
-- which is no server output and no change of a transaction's state comes out once and in order.
use reldex.Base.{
  ℕ, zero, suc, ◌≡◌, refl, sym, ap, ◌∙◌, Bool-cases, Bool, true, false, Option, none, some,
  some-inj, List, [], ◌∷◌, ◌++◌, append_assoc, append-nil, arith, inl, inr, if◌then◌else◌,
}
use reldex.Events.Event.{SessionEvent, is_unsolicited}
use reldex.Events.Outcome.{Outcome, push-Outcome}
use reldex.Events.Queue.{
  EventCaps, Slots, Queued, Shared, event_channel, with_state, put_event, cons_queued, fold_at,
  fold_in, queued_transaction_slot, stamp_unsolicited, put_last, push, pop, pop_from,
  release_unsolicited,
}

-- A queue as it can be after some events were pushed and some were taken out, with the slots that the
-- replies among them hold.
pub data Run (caps : EventCaps) (slots : Slots)
    : List SessionEvent → List SessionEvent → Shared → Type 0 where
  begin : Run caps slots [] [] (event_channel caps slots)
  pushed :
      {in_events out_events : List SessionEvent} {q : Shared}
      → Run caps slots in_events out_events q
      → (event : SessionEvent) (slot : Option ℕ)
      → Run caps slots (in_events ++ (event ∷ [])) out_events (push q event slot).0
  popped :
      {in_events out_events : List SessionEvent} {q : Shared}
      → Run caps slots in_events out_events q
      → (event : SessionEvent) → (pop q).1 ≡ some event
      → Run caps slots in_events (out_events ++ (event ∷ [])) (pop q).0

abbrev pub events : List Queued → List SessionEvent
events [] = []
events (q ∷ qs) = q.event ∷ events qs

pub events-append : (xs ys : List Queued) → events (xs ++ ys) ≡ events xs ++ events ys
events-append [] ys = refl
events-append (x ∷ xs) ys = ap (λ l. x.event ∷ l) (events-append xs ys)

-- The events that are neither dropped nor folded.
abbrev pub solid : List SessionEvent → List SessionEvent
unfolding is_unsolicited
solid [] = []
solid (e ∷ es) = if is_unsolicited e then solid es else e ∷ solid es

solid-append : (xs ys : List SessionEvent) → solid (xs ++ ys) ≡ solid xs ++ solid ys
unfolding solid
solid-append [] ys = refl
solid-append (x ∷ xs) ys = elim (Bool-cases (is_unsolicited x)) [
  | inl soft ↦ rw soft (solid-append xs ys)
  | inr kept ↦ rw kept (ap (λ l. x ∷ l) (solid-append xs ys))
]

with_state-soft :
    (active : Bool) (event new : SessionEvent)
    → with_state active event ≡ some new
    → (is_unsolicited event ≡ true) × (is_unsolicited new ≡ true)
unfolding is_unsolicited
with_state-soft active (SessionEvent.transaction_state_changed session queued) new e =
    (refl, sym (ap is_unsolicited (some-inj _ _ e)))
with_state-soft active _ new e = cc

fold_at-solid :
    (i : ℕ) (active : Bool) (qs folded : List Queued)
    → fold_at i active qs ≡ some folded
    → solid (events folded) ≡ solid (events qs)
unfolding fold_at solid
fold_at-solid i active [] folded e = cc
fold_at-solid zero active (q ∷ qs) folded e = replaced (with_state active q.event) refl e
  where
    replaced :
        (o : Option SessionEvent)
        → with_state active q.event ≡ o
        → put_event q qs o ≡ some folded
        → solid (events folded) ≡ solid (events (q ∷ qs))
    replaced none f e = cc
    replaced (some new) f e =
        let (soft, soft') = with_state-soft active q.event new f in
        rw (soft, sym (some-inj _ _ e), soft') refl
fold_at-solid (suc i) active (q ∷ qs) folded e =
    later (fold_at-solid i active qs) (fold_at i active qs) refl e
  where
    later :
        ((rest : List Queued)
          → fold_at i active qs ≡ some rest
          → solid (events rest) ≡ solid (events qs))
        → (o : Option (List Queued)) → fold_at i active qs ≡ o
        → cons_queued q o ≡ some folded
        → solid (events folded) ≡ solid (events (q ∷ qs))
    later ih none f e = cc
    later ih (some rest) f e =
        rw (sym (some-inj _ _ e))
          (ap (λ l. if is_unsolicited q.event then l else q.event ∷ l) (ih rest f))

last-solid :
    (qs : List Queued) (q : Queued)
    → solid (events (qs ++ (q ∷ []))) ≡ solid (events qs) ++ solid (q.event ∷ [])
unfolding solid
last-solid qs q = ap solid (events-append qs (q ∷ [])) ∙ solid-append (events qs) (q.event ∷ [])

Outcome-solid :
    {q t : Shared} {slot : Option ℕ} {event : SessionEvent}
    → Outcome q slot event t
    → (solid (events t.inner.queue) ≡ solid (events q.inner.queue) ++ solid (event ∷ []))
      × (t.inner.closed ≡ q.inner.closed)
unfolding solid put_last stamp_unsolicited is_unsolicited fold_at
Outcome-solid {q = q} {slot = slot} (Outcome.kept {event = event} h) =
    (last-solid q.inner.queue _, refl)
Outcome-solid {q = q} (Outcome.folded session active queue e) =
    (by_slot (queued_transaction_slot q.inner session) e ∙ sym (append-nil _), refl)
  where
    by_slot :
        (o : Option ℕ)
        → fold_in active q.inner.queue o ≡ some queue
        → solid (events queue) ≡ solid (events q.inner.queue)
    by_slot none e = cc
    by_slot (some i) e = fold_at-solid i active q.inner.queue queue e
Outcome-solid {q = q} (Outcome.opened session active e) = (last-solid q.inner.queue _, refl)
Outcome-solid {q = q} (Outcome.shown session lines lost failure invalid room) =
    (last-solid q.inner.queue _, refl)
Outcome-solid {q = q} (Outcome.refused session lines lost invalid) = (sym (append-nil _), refl)
Outcome-solid {q = q} (Outcome.reported session lines lost failure invalid) =
    (last-solid q.inner.queue _, refl)

pub Run-open :
    {caps : EventCaps} {slots : Slots} {in_events out_events : List SessionEvent} {q : Shared}
    → Run caps slots in_events out_events q
    → q.inner.closed ≡ false
unfolding pop release_unsolicited
Run-open begin = refl
Run-open (pushed {q = q} run event slot) =
    (Outcome-solid (push-Outcome q slot (Run-open run) event)).1 ∙ Run-open run
Run-open (popped {q = q} run event e) = by_queue q.inner.queue ∙ Run-open run
  where
    by_queue : (qs : List Queued) → (pop_from q qs).0.inner.closed ≡ q.inner.closed
    by_queue [] = refl
    by_queue (first ∷ rest) = ground arith

pop-solid :
    (q : Shared) (event : SessionEvent)
    → (pop q).1 ≡ some event
    → solid (events q.inner.queue) ≡ solid (event ∷ []) ++ solid (events (pop q).0.inner.queue)
unfolding pop release_unsolicited solid
pop-solid q event e = by_queue q.inner.queue e
  where
    by_queue :
        (qs : List Queued)
        → (pop_from q qs).1 ≡ some event
        → solid (events qs) ≡ solid (event ∷ []) ++ solid (events (pop_from q qs).0.inner.queue)
    by_queue [] e = cc
    by_queue (first ∷ rest) e = elim (Bool-cases (is_unsolicited first.event)) [
      | inl soft ↦ rw (sym (some-inj _ _ e), soft) refl
      | inr kept ↦ rw (sym (some-inj _ _ e), kept) refl
    ]

-- Whatever is pushed and however much is taken out in between, the events that are no server output and
-- no change of a transaction's state, which are all replies, progress and ends of sessions, came out or
-- are still queued, each of them once, in the order in which they were pushed.
pub Run-solid :
    {caps : EventCaps} {slots : Slots} {in_events out_events : List SessionEvent} {q : Shared}
    → Run caps slots in_events out_events q
    → solid in_events ≡ solid out_events ++ solid (events q.inner.queue)
unfolding solid
Run-solid begin = refl
Run-solid (pushed {in_events = in_events} {out_events = out_events} {q = q} run event slot) =
    solid-append in_events (event ∷ [])
    ∙ ap (λ l. l ++ solid (event ∷ [])) (Run-solid run)
    ∙ append_assoc (solid out_events) (solid (events q.inner.queue)) (solid (event ∷ []))
    ∙ ap (λ l. solid out_events ++ l)
        (sym (Outcome-solid (push-Outcome q slot (Run-open run) event)).0)
Run-solid (popped {out_events = out_events} {q = q} run event e) =
    Run-solid run
    ∙ ap (λ l. solid out_events ++ l) (pop-solid q event e)
    ∙ sym (append_assoc (solid out_events) (solid (event ∷ [])) _)
    ∙ ap (λ l. l ++ solid (events (pop q).0.inner.queue))
        (sym (solid-append out_events (event ∷ [])))
