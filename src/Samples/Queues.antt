-- ===== src/Samples/Queues.antt =====
-- A queue for one output of a session at a time.
use reldex.Base.{◌+◌, ◌≤◌, ◌≡◌, refl, true, false, none, some, List, [], ◌∷◌, ◌++◌, arith}
use reldex.Text.{codes}
use reldex.Events.Event.{SessionEvent, is_unsolicited}
use reldex.Events.Queue.{
  EventCaps, Slots, Shared, event_channel, push, pop, pending_dropped_lines, admit_unsolicited,
  stamp_unsolicited, put_last, queued_transaction_slot, fold_at, is_idle, release,
  release_unsolicited, drain_into, close, pop_all,
}
use reldex.Events.Run.{Run, begin, pushed, popped, events, solid, Run-solid}
use reldex.Events.Counting.{lines_in, lines_of, reported_in}
use reldex.Events.Lines.{Run-lines}
use reldex.Events.Tally.{plain_outputs, changes}
use reldex.Events.Bounds.{Run-bounded}
use reldex.Samples.Results.{own}

abbrev one_at_a_time : EventCaps
one_at_a_time = record { max_unsolicited_per_session = 1 }

abbrev printed : SessionEvent
printed = SessionEvent.server_output own (codes "a" ∷ codes "b" ∷ []) 0 none 0

abbrev began : SessionEvent
began = SessionEvent.transaction_state_changed own true

abbrev ended : SessionEvent
ended = SessionEvent.transaction_state_changed own false

abbrev done : SessionEvent
done = SessionEvent.other_reply own

abbrev no_slots : Slots
no_slots slot = 1

abbrev empty_queue : Shared
empty_queue = event_channel one_at_a_time no_slots

-- The second output is refused, the second change folded into the first, and one event taken out.
abbrev pushed_in : List SessionEvent
pushed_in = printed ∷ began ∷ printed ∷ done ∷ ended ∷ []

abbrev filled : Shared
unfolding push
filled =
    (push
      (push (push (push (push empty_queue printed none).0 began none).0 printed none).0 done
        (some 0)).0
      ended none).0

abbrev drained : Shared
unfolding pop
drained = (pop filled).0

drained-Run : Run one_at_a_time no_slots pushed_in (printed ∷ []) drained
unfolding drained filled push admit_unsolicited stamp_unsolicited put_last queued_transaction_slot
    fold_at is_unsolicited pop
drained-Run =
    popped
      (pushed
        (pushed (pushed (pushed (pushed begin printed none) began none) printed none) done (some 0))
        ended none)
      printed refl

-- What is left, the two lines that were not shown, and the slot of the reply, which is released with it.
taken_out :
    ((drain_into 8 drained).1 ≡ ended ∷ done ∷ [])
    × (pending_dropped_lines drained own ≡ 2)
    × ((drain_into 8 drained).0.slots 0 ≡ 0)
    × ((close drained).slots 0 ≡ 0)
unfolding drained filled push admit_unsolicited stamp_unsolicited put_last queued_transaction_slot
    fold_at is_unsolicited pop drain_into pending_dropped_lines is_idle release release_unsolicited
    close pop_all
taken_out = (refl, refl, refl, refl)

Run-solid_example : solid pushed_in ≡ solid (printed ∷ []) ++ solid (events drained.inner.queue)
Run-solid_example = Run-solid drained-Run

Run-lines_example :
    lines_in 1 pushed_in
    ≡ reported_in 1 (printed ∷ [])
      + (reported_in 1 (events drained.inner.queue) + pending_dropped_lines drained own)
unfolding lines_in lines_of
Run-lines_example = Run-lines own drained-Run (refl, (tt, (refl, (tt, (tt, tt))))) (omega arith)

Run-bounded_example :
    (plain_outputs own drained.inner.queue ≤ 1) × (changes own drained.inner.queue ≤ 1)
Run-bounded_example = Run-bounded own drained-Run
