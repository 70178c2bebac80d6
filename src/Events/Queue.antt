-- ===== src/Events/Queue.antt =====
-- crates/db-core/src/events.rs: the event queue. Each operation holds the queue's lock, so it is one step.
-- The slots that replies hold are counters with numbers, and the hash map of the sessions is a function.
-- What only parks and wakes threads is left out, and so are debug assertions.
use reldex.Base.{
  ℕ, zero, suc, ◌+◌, ◌-◌, ◌^◌, Bool, true, false, not, ◌&&◌, Option, none, some, List, [], ◌∷◌,
  ◌++◌, min, length, leb, ◌==◌, is_some, if◌then◌else◌,
}
use reldex.Text.{codes}
use reldex.Driver.Error.{DbResult, ok, err, new_error, ErrorKind}
use reldex.Store.Ids.{SessionId}
use reldex.Events.Event.{SessionEvent, event_session, is_unsolicited}

pub record EventCaps : Type 0 where
  pub max_unsolicited_per_session : ℕ

abbrev pub default_caps : EventCaps
default_caps = record { max_unsolicited_per_session = 256 }

-- The counters of outstanding requests, by their number.
abbrev pub Slots : Type 0
Slots = ℕ → ℕ

abbrev pub with_count : Slots → ℕ → ℕ → Slots
with_count slots slot n = λ other. if other == slot then n else slots other

-- `RequestSlots::reserve`.
unfoldable pub reserve : Slots → ℕ → ℕ → DbResult Slots
unfolding new_error
reserve slots slot limit =
    if leb limit (slots slot)
    then err (
        new_error ErrorKind.resource (
          codes
            "this session already has its limit of requests outstanding; drain the event queue before submitting more"))
    else ok (with_count slots slot (slots slot + 1))

-- `RequestSlots::release`.
unfoldable pub release : Slots → ℕ → Slots
release slots slot = with_count slots slot (slots slot - 1)

pub record Pushed : Type 0 where
  pub wake : Bool
  pub kept : Bool

abbrev pub discarded : Pushed
discarded = record { wake = false; kept = false }

pub record SessionQueueState : Type 0 where
  pub unsolicited : ℕ
  pub dropped_lines : ℕ
  pub transaction_seq : Option ℕ

abbrev pub no_state : SessionQueueState
no_state = record { unsolicited = 0; dropped_lines = 0; transaction_seq = none }

abbrev pub state_or_default : Option SessionQueueState → SessionQueueState
state_or_default none = no_state
state_or_default (some state) = state

unfoldable pub is_idle : SessionQueueState → Bool
is_idle state =
    state.unsolicited == 0 && state.dropped_lines == 0 && not (is_some state.transaction_seq)

pub record Queued : Type 0 where
  pub event : SessionEvent
  pub slot : Option ℕ

abbrev pub Sessions : Type 0
Sessions = ℕ → Option SessionQueueState

abbrev pub with_session : Sessions → SessionId → Option SessionQueueState → Sessions
with_session sessions session state =
    λ other. if other == session.number then state else sessions other

pub record Inner : Type 0 where
  pub queue : List Queued
  pub front_seq : ℕ
  pub next_seq : ℕ
  pub sessions : Sessions
  pub closed : Bool

pub record Shared : Type 0 where
  pub inner : Inner
  pub caps : EventCaps
  pub dropped_unsolicited : ℕ
  pub slots : Slots

-- `event_channel`.
abbrev pub event_channel : EventCaps → Slots → Shared
event_channel caps slots = record {
  inner = record {
    queue = [];
    front_seq = 0;
    next_seq = 0;
    sessions = λ session. none;
    closed = false;
  };
  caps = caps;
  dropped_unsolicited = 0;
  slots = slots;
}

pub data Admission : Type 0 where
  enqueue enqueue_without_lines coalesced dropped : Admission

-- `queued_transaction_slot`.
abbrev pub slot_of : ℕ → Option ℕ → Option ℕ
slot_of front none = none
slot_of front (some seq) = if leb front seq then some (seq - front) else none

unfoldable pub queued_transaction_slot : Inner → SessionId → Option ℕ
queued_transaction_slot inner session =
    slot_of inner.front_seq (state_or_default (inner.sessions session.number)).transaction_seq

-- The event in a place of the queue with another state, if it reports one.
abbrev pub with_state : Bool → SessionEvent → Option SessionEvent
with_state active (SessionEvent.transaction_state_changed session queued) =
    some (SessionEvent.transaction_state_changed session active)
with_state active _ = none

abbrev pub put_event : Queued → List Queued → Option SessionEvent → Option (List Queued)
put_event q qs none = none
put_event q qs (some event) = some (record q { event = event } ∷ qs)

abbrev pub cons_queued : Queued → Option (List Queued) → Option (List Queued)
cons_queued q none = none
cons_queued q (some qs) = some (q ∷ qs)

unfoldable pub fold_at : ℕ → Bool → List Queued → Option (List Queued)
fold_at i active [] = none
fold_at zero active (q ∷ qs) = put_event q qs (with_state active q.event)
fold_at (suc i) active (q ∷ qs) = cons_queued q (fold_at i active qs)

abbrev pub fold_in : Bool → List Queued → Option ℕ → Option (List Queued)
unfolding fold_at
fold_in active queue none = none
fold_in active queue (some i) = fold_at i active queue

abbrev pub fold_or_enqueue : Inner → Option (List Queued) → Inner × Admission
fold_or_enqueue inner none = (inner, Admission.enqueue)
fold_or_enqueue inner (some queue) = (record inner { queue = queue }, Admission.coalesced)

abbrev pub max_u32 : ℕ
max_u32 = 2 ^ 32 - 1

abbrev pub saturating : ℕ → ℕ
saturating n = min n max_u32

-- `u32::try_from(lines.len()).unwrap_or(u32::MAX)`, and both additions saturate.
abbrev pub without_room : Inner → SessionEvent → Inner × Admission
without_room inner (SessionEvent.server_output session lines lost failure invalid) =
    let state = state_or_default (inner.sessions session.number) in
    (
      record inner {
        sessions = with_session inner.sessions session (
            some (record state {
              dropped_lines = saturating (state.dropped_lines + saturating (length lines));
            }));
      },
      if is_some failure then Admission.enqueue_without_lines else Admission.dropped,
    )
without_room inner event = (inner, Admission.dropped)

unfoldable pub admit_unsolicited : Inner → SessionEvent → EventCaps → Inner × Admission
unfolding queued_transaction_slot fold_at
admit_unsolicited inner (SessionEvent.transaction_state_changed session active) caps =
    fold_or_enqueue inner (fold_in active inner.queue (queued_transaction_slot inner session))
admit_unsolicited inner event caps =
    if leb caps.max_unsolicited_per_session
      (state_or_default (inner.sessions (event_session event).number)).unsolicited
    then without_room inner event
    else (inner, Admission.enqueue)

-- `stamp_unsolicited` of an unsolicited event.
abbrev pub stamped : SessionQueueState → ℕ → SessionEvent → SessionQueueState × SessionEvent
stamped state seq (SessionEvent.transaction_state_changed session active) = (
  record state { unsolicited = state.unsolicited + 1; transaction_seq = some seq },
  SessionEvent.transaction_state_changed session active,
)
stamped state seq (SessionEvent.server_output session lines lost failure invalid) = (
  record state { unsolicited = state.unsolicited + 1; dropped_lines = 0 },
  SessionEvent.server_output session lines (saturating (lost + state.dropped_lines)) failure
      invalid,
)
stamped state seq event = (record state { unsolicited = state.unsolicited + 1 }, event)

unfoldable pub stamp_unsolicited : Inner → SessionEvent → Inner × SessionEvent
unfolding is_unsolicited
stamp_unsolicited inner event =
    if not (is_unsolicited event)
    then (inner, event)
    else let session = event_session event in
      let (state, event') =
        stamped (state_or_default (inner.sessions session.number)) inner.next_seq event in
      (record inner { sessions = with_session inner.sessions session (some state) }, event')

abbrev pub without_lines : SessionEvent → SessionEvent
without_lines (SessionEvent.server_output session lines lost failure invalid) =
    SessionEvent.server_output session [] lost failure invalid
without_lines event = event

-- The end of `push`, for an event that is kept.
unfoldable pub put_last : Shared → SessionEvent → Option ℕ → Shared × Pushed
unfolding stamp_unsolicited
put_last q event slot =
    let (inner, event') = stamp_unsolicited q.inner event in
    (
      record q {
        inner = record inner {
          queue = inner.queue ++ (record { event = event'; slot = slot } ∷ []);
          next_seq = inner.next_seq + 1;
        };
      },
      record { wake = leb (length q.inner.queue) 0; kept = true },
    )

abbrev pub admitted : Shared → SessionEvent → Option ℕ → Inner × Admission → Shared × Pushed
unfolding put_last
admitted q event slot (inner, Admission.enqueue) = put_last (record q { inner = inner }) event slot
admitted q event slot (inner, Admission.enqueue_without_lines) =
    put_last (record q { inner = inner }) (without_lines event) slot
admitted q event slot (inner, Admission.coalesced) = (record q { inner = inner }, discarded)
admitted q event slot (inner, Admission.dropped) =
    (record q { inner = inner; dropped_unsolicited = q.dropped_unsolicited + 1 }, discarded)

-- `Shared::push`.
unfoldable pub push : Shared → SessionEvent → Option ℕ → Shared × Pushed
unfolding is_unsolicited admit_unsolicited put_last
push q event slot =
    if q.inner.closed
    then (q, discarded)
    else if is_unsolicited event
    then admitted q event slot (admit_unsolicited q.inner event q.caps)
    else put_last q event slot

-- `release_unsolicited`.
abbrev pub released_state : ℕ → SessionQueueState → SessionQueueState
released_state seq state = record state {
  unsolicited = state.unsolicited - 1;
  transaction_seq = forgotten state.transaction_seq;
}
  where
    forgotten : Option ℕ → Option ℕ
    forgotten none = none
    forgotten (some own) = if own == seq then none else some own

abbrev pub unless_idle : SessionQueueState → Option SessionQueueState
unfolding is_idle
unless_idle state = if is_idle state then none else some state

abbrev pub released : ℕ → Option SessionQueueState → Option SessionQueueState
unfolding is_idle
released seq none = none
released seq (some state) = unless_idle (released_state seq state)

unfoldable pub release_unsolicited : Inner → SessionId → ℕ → Inner
unfolding is_idle
release_unsolicited inner session seq = record inner {
  sessions = with_session inner.sessions session (released seq (inner.sessions session.number));
}

abbrev pub release_slot : Slots → Option ℕ → Slots
unfolding release
release_slot slots none = slots
release_slot slots (some slot) = release slots slot

abbrev pub pop_from : Shared → List Queued → Shared × Option SessionEvent
unfolding release is_unsolicited release_unsolicited
pop_from q [] = (q, none)
pop_from q (first ∷ rest) =
    let inner = record q.inner { queue = rest; front_seq = q.inner.front_seq + 1 } in
    (
      record q {
        slots = release_slot q.slots first.slot;
        inner =
            if is_unsolicited first.event
            then release_unsolicited inner (event_session first.event) q.inner.front_seq
            else inner;
      },
      some first.event,
    )

-- `Shared::pop`, which is `EventQueue::next`.
unfoldable pub pop : Shared → Shared × Option SessionEvent
unfolding release is_unsolicited release_unsolicited
pop q = pop_from q q.inner.queue

-- `EventQueue::drain_into`: the events that it appends. It takes at most `max`.
unfoldable pub drain_into : ℕ → Shared → Shared × List SessionEvent
unfolding pop
drain_into zero q = (q, [])
drain_into (suc max) q = elim (pop q).1 [
  | none ↦ ((pop q).0, [])
  | some event ↦ let (last, events) = drain_into max (pop q).0 in (last, event ∷ events)
]

-- `Drop for EventQueue`: as many events are taken as the queue holds.
unfoldable pub pop_all : ℕ → Shared → Shared
unfolding pop
pop_all zero q = q
pop_all (suc n) q = pop_all n (pop q).0

unfoldable pub close : Shared → Shared
unfolding pop_all
close q =
    let q' =
      pop_all (length q.inner.queue) (record q { inner = record q.inner { closed = true } }) in
    record q' { inner = record q'.inner { sessions = λ session. none } }

unfoldable pub pending_dropped_lines : Shared → SessionId → ℕ
pending_dropped_lines q session = (state_or_default (q.inner.sessions session.number)).dropped_lines
