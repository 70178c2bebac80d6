-- ===== src/Events/Pushes.antt =====
-- crates/db-core/src/events.rs: what the queue knows of a session, and that every push keeps it true.
use reldex.Base.{
  ℕ, ◌+◌, ◌-◌, ◌≤◌, ◌≡◌, refl, sym, ap, ◌∙◌, Bool, true, false, Option, none, some, List, [], arith,
  length, ◌==◌, if◌then◌else◌,
}
use reldex.Text.{Text}
use reldex.Driver.Error.{DbError}
use reldex.Store.Ids.{SessionId}
use reldex.Events.Event.{SessionEvent, is_unsolicited}
use reldex.Events.Outcome.{Outcome, counted}
use reldex.Events.Queue.{
  EventCaps, SessionQueueState, Shared, state_or_default, fold_at, fold_in, slot_of, saturating,
  queued_transaction_slot, stamp_unsolicited, put_last,
}
use reldex.Events.Tally.{
  is_change, is_output, is_plain, tally, find_change, plain_le_outputs, found_none, fold_at-found,
}
use reldex.Events.Known.{
  state_of, IsBounded, last_queued-IsBounded, counted-with_session, known-with_session,
  folded-IsBounded,
}

-- Where no queued change takes another one in, none of the session is queued.
none_queued :
    (caps : EventCaps) (q : Shared) (session : SessionId) (active : Bool)
    → IsBounded caps session.number q
    → fold_in active q.inner.queue (queued_transaction_slot q.inner session) ≡ none
    → tally (is_change session.number) q.inner.queue ≡ 0
unfolding queued_transaction_slot fold_at
none_queued caps q session active h e =
    by_place (find_change session.number q.inner.front_seq q.inner.queue) refl
  where
    by_place :
        (o : Option ℕ)
        → find_change session.number q.inner.front_seq q.inner.queue ≡ o
        → tally (is_change session.number) q.inner.queue ≡ 0
    by_place none f = found_none session.number q.inner.front_seq q.inner.queue f
    by_place (some seq) f =
        let (after_front, folded, found) =
          fold_at-found session.number q.inner.front_seq seq active q.inner.queue f in
        let place : queued_transaction_slot q.inner session ≡ some (seq - q.inner.front_seq) =
          ap (slot_of q.inner.front_seq) (h.known ∙ f) ∙ there seq after_front in
        absurd (ground (arith, sym (ap (fold_in active q.inner.queue) place) ∙ e, found))
      where
        there :
            (seq : ℕ)
            → q.inner.front_seq ≤ seq
            → slot_of q.inner.front_seq (some seq) ≡ some (seq - q.inner.front_seq)
        there seq le = ground (arith, le)

abbrev after_refusal : Shared → SessionId → List Text → SessionQueueState
after_refusal q session lines =
    let state = state_of q.inner.sessions session.number in
    record state { dropped_lines = saturating (state.dropped_lines + saturating (length lines)) }

counted-IsBounded :
    (caps : EventCaps) (n : ℕ) (q : Shared) (session : SessionId) (lines : List Text) (more : ℕ)
    → IsBounded caps n q
    → IsBounded caps n
        (record q { inner = counted q.inner session lines; dropped_unsolicited = more })
counted-IsBounded caps n q session lines more h = record {
  limit = h.limit;
  numbered = h.numbered;
  counted = ground (
    arith,
    counted-with_session n q.inner.sessions session (after_refusal q session lines) 0 (omega arith),
    h.counted,
  );
  known =
      known-with_session n q.inner.sessions session (after_refusal q session lines) refl ∙ h.known;
  single = h.single;
  plain = h.plain;
}

shown-IsBounded :
    (caps : EventCaps) (n : ℕ) (q : Shared) (slot : Option ℕ) (session : SessionId)
    (lines : List Text) (lost : ℕ) (failure : Option DbError) (invalid : ℕ)
    → IsBounded caps n q
    → (is_plain n (SessionEvent.server_output session lines lost failure invalid) ≡ true
        → (state_of q.inner.sessions n).unsolicited + 1 ≤ caps.max_unsolicited_per_session)
    → IsBounded caps n
        (put_last q (SessionEvent.server_output session lines lost failure invalid) slot).0
unfolding put_last stamp_unsolicited is_unsolicited
shown-IsBounded caps n q slot session lines lost failure invalid h room =
    last_queued-IsBounded caps n q _ _ slot h
      (counted-with_session n q.inner.sessions session _ 1 refl ∙ omega arith)
      (known-with_session n q.inner.sessions session _ refl) (λ is. absurd (ground (arith, is)))
      (λ is.
        omega (arith, room (same_plain failure _ is), h.counted, plain_le_outputs n q.inner.queue))
  where
    same_plain :
        (failure : Option DbError)
        → (shown : ℕ)
        → is_plain n (SessionEvent.server_output session lines shown failure invalid) ≡ true
        → is_plain n (SessionEvent.server_output session lines lost failure invalid) ≡ true
    same_plain none shown is = is
    same_plain (some f) shown is = is

pub kept-test :
    (n : ℕ) (e : SessionEvent)
    → is_unsolicited e ≡ false
    → (is_change n e ≡ false) × (is_output n e ≡ false) × (is_plain n e ≡ false)
unfolding is_unsolicited
kept-test n (SessionEvent.server_output session lines lost failure invalid) h =
    absurd (ground (arith, h))
kept-test n (SessionEvent.transaction_state_changed session active) h = absurd (ground (arith, h))
kept-test n _ h = (refl, refl, refl)

opened-IsBounded :
    (caps : EventCaps) (n : ℕ) (q : Shared) (slot : Option ℕ) (session : SessionId) (active : Bool)
    → IsBounded caps n q
    → (n == session.number ≡ true → tally (is_change n) q.inner.queue ≡ 0)
    → IsBounded caps n (put_last q (SessionEvent.transaction_state_changed session active) slot).0
unfolding put_last stamp_unsolicited is_unsolicited
opened-IsBounded caps n q slot session active h first =
    last_queued-IsBounded caps n q _ _ slot h
      (counted-with_session n q.inner.sessions session _ 1 refl ∙ omega arith)
      (own_seq (n == session.number)) first (λ is. absurd (ground (arith, is)))
  where
    own_seq :
        (b : Bool)
        → (state_or_default (
            if b
            then some (record (state_of q.inner.sessions session.number) {
              unsolicited = (state_of q.inner.sessions session.number).unsolicited + 1;
              transaction_seq = some q.inner.next_seq;
            })
            else q.inner.sessions n)).transaction_seq
          ≡ (if b then some q.inner.next_seq else (state_of q.inner.sessions n).transaction_seq)
    own_seq true = refl
    own_seq false = refl

pub Outcome-IsBounded :
    (caps : EventCaps) (n : ℕ) {q : Shared} {slot : Option ℕ} {t : Shared} {event : SessionEvent}
    → Outcome q slot event t
    → ((m : ℕ) → IsBounded caps m q)
    → IsBounded caps n t
unfolding fold_at
Outcome-IsBounded caps n {q = q} {slot = slot} (Outcome.kept {event = event} e) h =
    let (c, o, p) = kept-test n event e in
    last_queued-IsBounded caps n q q.inner.sessions event slot (h n) (rw (c, o) (omega arith))
      (rw c refl) (λ is. absurd (ground (arith, is, c))) (λ is. absurd (ground (arith, is, p)))
Outcome-IsBounded caps n {q = q} (Outcome.folded session active queue e) h =
    by_slot (queued_transaction_slot q.inner session) e
  where
    by_slot :
        (o : Option ℕ)
        → fold_in active q.inner.queue o ≡ some queue
        → IsBounded caps n (record q { inner = record q.inner { queue = queue } })
    by_slot none e = absurd (ground (arith, e))
    by_slot (some i) e = folded-IsBounded caps n i q active queue (h n) e
Outcome-IsBounded caps n {q = q} {slot = slot} (Outcome.opened session active e) h =
    opened-IsBounded caps n q slot session active (h n) (λ own_one.
      let same : session.number ≡ n = ground (arith, own_one) in
      ap (λ m. tally (is_change m) q.inner.queue) (sym same)
      ∙ none_queued caps q session active (h session.number) e)
Outcome-IsBounded caps n {q = q} {slot = slot}
      (Outcome.shown session lines lost failure invalid room) h =
    shown-IsBounded caps n q slot session lines lost failure invalid (h n)
      (λ is. free (n == session.number) refl (own_plain failure is))
  where
    own_plain :
        (failure : Option DbError)
        → is_plain n (SessionEvent.server_output session lines lost failure invalid) ≡ true
        → (n == session.number) ≡ true
    own_plain none is = is
    own_plain (some f) is = absurd (ground (arith, is))

    free :
        (b : Bool)
        → (n == session.number) ≡ b
        → (n == session.number) ≡ true
        → (state_of q.inner.sessions n).unsolicited + 1 ≤ caps.max_unsolicited_per_session
    free b f own_one =
        let same : session.number ≡ n = ground (arith, own_one) in
        ground (
          arith,
          room,
          ap (λ m. (state_of q.inner.sessions m).unsolicited) same,
          ap (λ (c : EventCaps). c.max_unsolicited_per_session) (h n).limit,
        )
Outcome-IsBounded caps n {q = q} (Outcome.refused session lines lost invalid) h =
    counted-IsBounded caps n q session lines _ (h n)
Outcome-IsBounded caps n {q = q} {slot = slot} (Outcome.reported session lines lost failure invalid)
      h =
    shown-IsBounded caps n (record q { inner = counted q.inner session lines }) slot session [] lost
      (some failure) invalid (counted-IsBounded caps n q session lines q.dropped_unsolicited (h n))
      (λ is. absurd (ground (arith, is)))
