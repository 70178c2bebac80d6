-- ===== src/Events/Bounds.antt =====
-- crates/db-core/src/events.rs: how much a queue holds of what no request bounds.
use reldex.Base.{
  ℕ, ◌+◌, ◌-◌, ◌≤◌, ◌≡◌, refl, sym, ap, ◌∙◌, inl, inr, Bool-cases, Bool, true, false, not, ◌&&◌,
  Option, none, some, List, [], ◌∷◌, arith, length, is_some, ◌==◌, if◌then◌else◌,
}
use reldex.Store.Ids.{SessionId}
use reldex.Events.Event.{SessionEvent, event_session, is_unsolicited}
use reldex.Events.Outcome.{push-Outcome}
use reldex.Events.Run.{Run, begin, pushed, popped, Run-open}
use reldex.Events.Queue.{
  EventCaps, Slots, Sessions, SessionQueueState, Queued, Inner, Shared, state_or_default, pop,
  pop_from, release_slot, released, released_state, unless_idle, is_idle, release_unsolicited,
}
use reldex.Events.Tally.{
  one_if, is_change, is_output, is_plain, tally, changes, plain_outputs, find_change, no_change,
  fold_at-found,
}
use reldex.Events.Known.{state_of, IsBounded}
use reldex.Events.Pushes.{kept-test, Outcome-IsBounded}

unless_idle-same :
    (state : SessionQueueState)
    → ((state_or_default (unless_idle state)).unsolicited ≡ state.unsolicited)
      × ((state_or_default (unless_idle state)).transaction_seq ≡ state.transaction_seq)
unfolding is_idle
unless_idle-same state = elim (Bool-cases (is_idle state)) [
  | inr busy ↦ rw (busy, unless_idle) (refl, refl)
  | inl idle ↦ rw (idle, unless_idle) (ground (arith, idle), none_known state.transaction_seq idle)
]
  where
    none_known :
        (o : Option ℕ)
        → (state.unsolicited == 0 && state.dropped_lines == 0 && not (is_some o)) ≡ true
        → none ≡ o
    none_known none h = refl
    none_known (some seq) h = absurd (ground (arith, h))

-- An unsolicited event of a session is either a change or an output of it.
one_of_both :
    (n : ℕ) (e : SessionEvent)
    → is_unsolicited e ≡ true
    → one_if (is_change n e) + one_if (is_output n e) ≡ one_if (n == (event_session e).number)
unfolding is_unsolicited
one_of_both n (SessionEvent.server_output session lines lost failure invalid) h = omega arith
one_of_both n (SessionEvent.transaction_state_changed session active) h = omega arith
one_of_both n _ h = absurd (ground (arith, h))

abbrev knowing : Option ℕ → SessionQueueState
knowing known = record { unsolicited = 0; dropped_lines = 0; transaction_seq = known }

released-later :
    (n front : ℕ) (rest : List Queued) (known : Option ℕ)
    → find_change n (front + 1) rest ≡ known
    → (released_state front (knowing known)).transaction_seq ≡ known
released-later n front rest none e = refl
released-later n front rest (some seq) e =
    ground (arith, (fold_at-found n (front + 1) seq true rest e).0)

released-transaction :
    (n front : ℕ) (rest : List Queued) (b : Bool) (known : Option ℕ)
    → known ≡ (if b then some front else find_change n (front + 1) rest)
    → (b ≡ true → tally (is_change n) rest ≡ 0)
    → (released_state front (knowing known)).transaction_seq ≡ find_change n (front + 1) rest
released-transaction n front rest true known e first =
    rw e (ground (arith, no_change n (front + 1) rest (first refl)))
released-transaction n front rest false known e first =
    released-later n front rest known (sym e) ∙ e

released-known :
    (seq : ℕ) (o : Option SessionQueueState)
    → ((state_or_default (released seq o)).unsolicited ≡ (state_or_default o).unsolicited - 1)
      × ((state_or_default (released seq o)).transaction_seq
          ≡ (released_state seq (knowing (state_or_default o).transaction_seq)).transaction_seq)
unfolding is_idle
released-known seq none = (omega arith, refl)
released-known seq (some state) = unless_idle-same (released_state seq state)

released-sessions :
    (n front : ℕ) (inner : Inner) (session : SessionId)
    → ((state_of (release_unsolicited inner session front).sessions n).unsolicited
        ≡ (state_of inner.sessions n).unsolicited - one_if (n == session.number))
      × ((state_of (release_unsolicited inner session front).sessions n).transaction_seq ≡ (
          if n == session.number
          then (released_state front
              (knowing (state_of inner.sessions n).transaction_seq)).transaction_seq
          else (state_of inner.sessions n).transaction_seq))
unfolding release_unsolicited
released-sessions n front inner session = elim (Bool-cases (n == session.number)) [
  | inr other ↦ rw (other, state_of) (omega arith, refl)
  | inl own_one ↦
      let e : session.number ≡ n = ground (arith, own_one) in
      let (count, seq) = released-known front (inner.sessions session.number) in
      rw (own_one, state_of)
        (
          count ∙ ap (λ m. (state_of inner.sessions m).unsolicited - 1) e,
          seq
              ∙ ap
                  (λ m.
                    (released_state front
                      (knowing (state_of inner.sessions m).transaction_seq)).transaction_seq)
                  e,
        )
]

-- The queue without its first event.
abbrev popped_off : Shared → Queued → List Queued → Sessions → Slots → Shared
popped_off q first rest sessions slots = record q {
  slots = slots;
  inner = record q.inner { queue = rest; front_seq = q.inner.front_seq + 1; sessions = sessions };
}

popped_off-IsBounded :
    (caps : EventCaps) (n : ℕ) (q : Shared) (first : Queued) (rest : List Queued)
    (sessions : Sessions) (slots : Slots)
    → IsBounded caps n q
    → q.inner.queue ≡ first ∷ rest
    → (state_of sessions n).unsolicited
        + (one_if (is_change n first.event) + one_if (is_output n first.event))
      ≡ (state_of q.inner.sessions n).unsolicited
    → (state_of sessions n).transaction_seq ≡ find_change n (q.inner.front_seq + 1) rest
    → IsBounded caps n (popped_off q first rest sessions slots)
popped_off-IsBounded caps n q first rest sessions slots h e count seq = record {
  limit = h.limit;
  numbered = omega (arith, h.numbered, ap length e);
  counted = omega (arith, count, h.counted, ap (tally (is_change n)) e, ap (tally (is_output n)) e);
  known = seq;
  single = omega (arith, h.single, ap (tally (is_change n)) e);
  plain = omega (arith, h.plain, ap (tally (is_plain n)) e);
}

pop-IsBounded :
    (caps : EventCaps) (n : ℕ) (q : Shared) → IsBounded caps n q → IsBounded caps n (pop q).0
unfolding pop release_unsolicited
pop-IsBounded caps n q h = by_queue q.inner.queue refl
  where
    by_queue : (qs : List Queued) → q.inner.queue ≡ qs → IsBounded caps n (pop_from q qs).0
    by_queue [] e = h
    by_queue (first ∷ rest) e = by_kind (is_unsolicited first.event) refl
      where
        found : (state_of q.inner.sessions n).transaction_seq ≡ (
            if is_change n first.event
            then some q.inner.front_seq
            else find_change n (q.inner.front_seq + 1) rest)
        found = h.known ∙ ap (find_change n q.inner.front_seq) e

        alone : is_change n first.event ≡ true → tally (is_change n) rest ≡ 0
        alone is = ground (arith, is, h.single, ap (tally (is_change n)) e)

        inner : Inner
        inner = record q.inner { queue = rest; front_seq = q.inner.front_seq + 1 }

        by_owner :
            (b : Bool)
            → one_if (is_change n first.event) + one_if (is_output n first.event) ≡ one_if b
            → (if b
                then (released_state q.inner.front_seq
                    (knowing (state_of q.inner.sessions n).transaction_seq)).transaction_seq
                else (state_of q.inner.sessions n).transaction_seq)
              ≡ find_change n (q.inner.front_seq + 1) rest
        by_owner true one =
            released-transaction n q.inner.front_seq rest (is_change n first.event) _ found alone
        by_owner false one =
            let no : is_change n first.event ≡ false = ground (arith, one) in
            found
            ∙ ap
                (λ b.
                  if b then some q.inner.front_seq else find_change n (q.inner.front_seq + 1) rest)
                no

        by_kind :
            (b : Bool)
            → is_unsolicited first.event ≡ b
            → IsBounded caps n (record q {
              slots = release_slot q.slots first.slot;
              inner =
                  if b
                  then release_unsolicited inner (event_session first.event) q.inner.front_seq
                  else inner;
            })
        by_kind false kept =
            let (c, o, p) = kept-test n first.event kept in
            popped_off-IsBounded caps n q first rest q.inner.sessions _ h e
              (rw (c, o) (omega arith)) (found ∙ rw c refl)
        by_kind true soft =
            let session = event_session first.event in
            let (count, seq) = released-sessions n q.inner.front_seq inner session in
            let one = one_of_both n first.event soft in
            popped_off-IsBounded caps n q first rest
              (release_unsolicited inner session q.inner.front_seq).sessions _ h e
              (omega (
                arith,
                count,
                one,
                h.counted,
                ap (tally (is_change n)) e,
                ap (tally (is_output n)) e,
              ))
              (seq ∙ by_owner (n == session.number) one)

Run-IsBounded :
    {caps : EventCaps} {slots : Slots} {in_events out_events : List SessionEvent} {q : Shared}
    → Run caps slots in_events out_events q
    → (n : ℕ) → IsBounded caps n q
Run-IsBounded begin n = record {
  limit = refl;
  numbered = refl;
  counted = refl;
  known = refl;
  single = omega arith;
  plain = omega arith;
}
Run-IsBounded {caps = caps} (pushed {q = q} run event slot) n =
    Outcome-IsBounded caps n (push-Outcome q slot (Run-open run) event) (Run-IsBounded run)
Run-IsBounded {caps = caps} (popped {q = q} run event e) n =
    pop-IsBounded caps n q (Run-IsBounded run n)

-- However fast a session reports and however slowly events are taken out, at most as many of its outputs
-- that report no failure are queued as the caps allow, and at most one change of the state of its
-- transaction, so a newer state has taken the place of an older one that nobody saw.
pub Run-bounded :
    {caps : EventCaps} {slots : Slots} {in_events out_events : List SessionEvent} {q : Shared}
    (session : SessionId)
    → Run caps slots in_events out_events q
    → (plain_outputs session q.inner.queue ≤ caps.max_unsolicited_per_session)
      × (changes session q.inner.queue ≤ 1)
Run-bounded session run = let h = Run-IsBounded run session.number in (h.plain, h.single)
