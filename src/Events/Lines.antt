-- ===== src/Events/Lines.antt =====
-- crates/db-core/src/events.rs: no line of a server output is lost without being counted.
use reldex.Base.{
  ℕ, zero, suc, ◌+◌, ◌≤◌, ◌≡◌, refl, sym, ap, ◌∙◌, inl, inr, Bool-cases, Bool, true, false, Option,
  none, some, some-inj, List, [], ◌∷◌, arith, length, ◌==◌, if◌then◌else◌,
}
use reldex.Text.{Text}
use reldex.Store.Ids.{SessionId}
use reldex.Events.Event.{SessionEvent, event_session, is_unsolicited}
use reldex.Events.Outcome.{Outcome, push-Outcome, counted}
use reldex.Events.Run.{Run, begin, pushed, popped, events, Run-open}
use reldex.Events.Queue.{
  EventCaps, Slots, SessionQueueState, Queued, Inner, Shared, state_or_default, with_state,
  put_event, cons_queued, fold_at, fold_in, queued_transaction_slot, stamp_unsolicited, put_last,
  pop, pop_from, max_u32, saturating, released, released_state, unless_idle, is_idle,
  release_unsolicited, pending_dropped_lines,
}
use reldex.Events.Counting.{
  lines_of, reported_of, lines_in, reported_in, IsFresh, AllFresh, AllFresh-append, lines_in-append,
  reported_in-append, waiting, reported-last, dropped-with_session, owed, put_last-waiting,
}

with_state-silent :
    (n : ℕ) (active : Bool) (event new : SessionEvent)
    → with_state active event ≡ some new
    → (reported_of n event ≡ 0) × (reported_of n new ≡ 0)
unfolding reported_of
with_state-silent n active (SessionEvent.transaction_state_changed session queued) new e =
    (refl, sym (ap (reported_of n) (some-inj _ _ e)))
with_state-silent n active _ new e = cc

fold_at-reported :
    (n i : ℕ) (active : Bool) (qs folded : List Queued)
    → fold_at i active qs ≡ some folded
    → reported_in n (events folded) ≡ reported_in n (events qs)
unfolding fold_at reported_in
fold_at-reported n i active [] folded e = cc
fold_at-reported n zero active (q ∷ qs) folded e = replaced (with_state active q.event) refl e
  where
    replaced :
        (o : Option SessionEvent)
        → with_state active q.event ≡ o
        → put_event q qs o ≡ some folded
        → reported_in n (events folded) ≡ reported_in n (events (q ∷ qs))
    replaced none f e = cc
    replaced (some new) f e =
        ap (λ l. reported_in n (events l)) (sym (some-inj _ _ e))
        ∙ omega (arith, with_state-silent n active q.event new f)
fold_at-reported n (suc i) active (q ∷ qs) folded e =
    later (fold_at-reported n i active qs) (fold_at i active qs) refl e
  where
    later :
        ((rest : List Queued)
          → fold_at i active qs ≡ some rest
          → reported_in n (events rest) ≡ reported_in n (events qs))
        → (o : Option (List Queued)) → fold_at i active qs ≡ o
        → cons_queued q o ≡ some folded
        → reported_in n (events folded) ≡ reported_in n (events (q ∷ qs))
    later ih none f e = cc
    later ih (some rest) f e =
        ap (λ l. reported_in n (events l)) (sym (some-inj _ _ e)) ∙ omega (arith, ih rest f)

counted-owed :
    (n : ℕ) (inner : Inner) (session : SessionId) (lines : List Text)
    → owed (counted inner session lines).sessions n ≡ (
        if n == session.number
        then saturating (owed inner.sessions n + saturating (length lines))
        else owed inner.sessions n)
counted-owed n inner session lines =
    dropped-with_session n inner.sessions session _ ∙ elim (Bool-cases (n == session.number)) [
      | inl own_one ↦
          let e : session.number ≡ n = ground (arith, own_one) in
          rw own_one (ap (λ k. saturating (owed inner.sessions k + saturating (length lines))) e)
      | inr other ↦ rw other refl
    ]

opened_waiting :
    (n : ℕ) (q : Shared) (slot : Option ℕ) (session : SessionId) (active : Bool)
    → waiting n (put_last q (SessionEvent.transaction_state_changed session active) slot).0
      ≡ waiting n q + 0
unfolding waiting put_last stamp_unsolicited is_unsolicited reported_of
opened_waiting n q slot session active =
    let e : n == session.number ≡ true
        → owed q.inner.sessions n ≡ owed q.inner.sessions session.number =
      λ h. ap (owed q.inner.sessions) (ground (arith, h)) in
    ground (
      arith,
      reported-last n q.inner.queue
          (record { event = SessionEvent.transaction_state_changed session active; slot = slot }),
      dropped-with_session n q.inner.sessions session _,
      e,
    )

soft_lines :
    (n : ℕ) (event : SessionEvent)
    → is_unsolicited event ≡ false
    → (lines_of n event ≡ 0) × (reported_of n event ≡ 0)
unfolding lines_of reported_of is_unsolicited
soft_lines n (SessionEvent.server_output session lines lost failure invalid) h = absurd (cc)
soft_lines n (SessionEvent.transaction_state_changed session active) h = absurd (cc)
soft_lines n _ h = (refl, refl)

Outcome-waiting :
    (n : ℕ) {q : Shared} {slot : Option ℕ} {t : Shared} {event : SessionEvent}
    → Outcome q slot event t
    → IsFresh event
    → waiting n q + lines_of n event ≤ max_u32
    → waiting n t ≡ waiting n q + lines_of n event
unfolding waiting lines_of fold_at
Outcome-waiting n {q = q} {slot = slot} (Outcome.kept {event = event} h) fresh room = omega (
  arith,
  reported-last n q.inner.queue (record { event = event; slot = slot }),
  soft_lines n event h,
)
Outcome-waiting n {q = q} (Outcome.folded session active queue e) fresh room =
    by_slot (queued_transaction_slot q.inner session) e
  where
    by_slot :
        (o : Option ℕ)
        → fold_in active q.inner.queue o ≡ some queue
        → reported_in n (events queue) + owed q.inner.sessions n
          ≡ reported_in n (events q.inner.queue) + owed q.inner.sessions n + 0
    by_slot none e = absurd (cc)
    by_slot (some i) e = omega (arith, fold_at-reported n i active q.inner.queue queue e)
Outcome-waiting n {q = q} {slot = slot} (Outcome.opened session active e) fresh room =
    opened_waiting n q slot session active
Outcome-waiting n {q = q} {slot = slot} (Outcome.shown session lines lost failure invalid room')
      fresh room =
    ground (arith, put_last-waiting n q slot session lines lost failure invalid, fresh, room)
Outcome-waiting n {q = q} (Outcome.refused session lines lost invalid) fresh room =
    ground (arith, counted-owed n q.inner session lines, room)
Outcome-waiting n {q = q} {slot = slot} (Outcome.reported session lines lost failure invalid) fresh
      room =
    ground (
      arith,
      put_last-waiting n (record q { inner = counted q.inner session lines }) slot session [] lost
          (some failure) invalid,
      counted-owed n q.inner session lines,
      fresh,
      room,
    )

idle_owes_nothing :
    (state : SessionQueueState)
    → (state_or_default (unless_idle state)).dropped_lines ≡ state.dropped_lines
unfolding is_idle
idle_owes_nothing state = ground arith

released-owed :
    (n seq : ℕ) (inner : Inner) (session : SessionId)
    → owed (release_unsolicited inner session seq).sessions n ≡ owed inner.sessions n
unfolding release_unsolicited
released-owed n seq inner session = elim (Bool-cases (n == session.number)) [
  | inr other ↦ rw (other, owed) refl
  | inl own_one ↦
      let e : session.number ≡ n = ground (arith, own_one) in
      rw (own_one, owed) (same (inner.sessions session.number) ∙ ap (owed inner.sessions) e)
]
  where
    same :
        (o : Option SessionQueueState)
        → (state_or_default (released seq o)).dropped_lines ≡ (state_or_default o).dropped_lines
    same none = refl
    same (some state) = idle_owes_nothing (released_state seq state)

pop-waiting :
    (n : ℕ) (q : Shared) (event : SessionEvent)
    → (pop q).1 ≡ some event
    → waiting n q ≡ reported_of n event + waiting n (pop q).0
unfolding pop waiting reported_in
pop-waiting n q event e = by_queue q.inner.queue e
  where
    by_queue :
        (qs : List Queued)
        → (pop_from q qs).1 ≡ some event
        → reported_in n (events qs) + owed q.inner.sessions n
          ≡ reported_of n event + waiting n (pop_from q qs).0
    by_queue [] f = cc
    by_queue (first ∷ rest) f =
        let inner = record q.inner { queue = rest; front_seq = q.inner.front_seq + 1 } in
        ground (
          arith,
          ap (reported_of n) (some-inj _ _ f),
          released-owed n q.inner.front_seq inner (event_session first.event),
        )

Run-waiting :
    (n : ℕ) {caps : EventCaps} {slots : Slots} {in_events out_events : List SessionEvent}
    {q : Shared}
    → Run caps slots in_events out_events q
    → AllFresh in_events
    → lines_in n in_events ≤ max_u32
    → lines_in n in_events ≡ reported_in n out_events + waiting n q
unfolding waiting reported_in lines_in
Run-waiting n begin fresh room = refl
Run-waiting n (pushed {in_events = in_events} {q = q} run event slot) fresh room =
    let (before, last) = AllFresh-append in_events event fresh in
    let total = lines_in-append n in_events event in
    let so_far = Run-waiting n run before (omega (arith, total)) in
    omega (
      arith,
      total,
      so_far,
      Outcome-waiting n (push-Outcome q slot (Run-open run) event) last
          (omega (arith, total, so_far)),
    )
Run-waiting n (popped {out_events = out_events} {q = q} run event e) fresh room = omega (
  arith,
  Run-waiting n run fresh room,
  pop-waiting n q event e,
  reported_in-append n out_events event,
)

-- Of the lines that were pushed for a session, each was taken out on an event, or is queued, or is counted:
-- as dropped on an event of the session that was taken out, on one that is queued, or among those that
-- are pending. The workers report no dropped lines themselves, and push no more than 2^32 - 1 lines.
pub Run-lines :
    {caps : EventCaps} {slots : Slots} {in_events out_events : List SessionEvent} {q : Shared}
    (session : SessionId)
    → Run caps slots in_events out_events q
    → AllFresh in_events
    → lines_in session.number in_events ≤ max_u32
    → lines_in session.number in_events
      ≡ reported_in session.number out_events
        + (reported_in session.number (events q.inner.queue) + pending_dropped_lines q session)
unfolding waiting pending_dropped_lines
Run-lines session run fresh room = Run-waiting session.number run fresh room
