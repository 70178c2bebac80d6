-- ===== src/Events/Known.antt =====
-- crates/db-core/src/events.rs: what a queue knows of a session, with an event put behind the others.
use reldex.Base.{
  ℕ, ◌+◌, ◌≤◌, ◌≡◌, refl, sym, ap, ◌∙◌, inl, inr, Bool-cases, Bool, true, false, Option, none, some,
  List, [], ◌∷◌, ◌++◌, arith, length, length-append, ◌==◌, if◌then◌else◌,
}
use reldex.Store.Ids.{SessionId}
use reldex.Events.Event.{SessionEvent}
use reldex.Events.Queue.{
  EventCaps, Sessions, SessionQueueState, Queued, Shared, with_session, state_or_default, fold_at,
}
use reldex.Events.Tally.{
  one_if, is_change, is_output, is_plain, tally, find_change, tally-append, find_change-append,
  find_change-other, fold_at-Alike,
}

abbrev pub state_of : Sessions → ℕ → SessionQueueState
state_of sessions n = state_or_default (sessions n)

-- What the queue knows of a session is what it holds, and that is bounded.
pub record IsBounded (caps : EventCaps) (n : ℕ) (q : Shared) : Type 0 where
  pub limit : q.caps ≡ caps
  pub numbered : q.inner.next_seq ≡ q.inner.front_seq + length q.inner.queue
  pub counted :
      (state_of q.inner.sessions n).unsolicited
      ≡ tally (is_change n) q.inner.queue + tally (is_output n) q.inner.queue
  pub known :
      (state_of q.inner.sessions n).transaction_seq ≡ find_change n q.inner.front_seq q.inner.queue
  pub single : tally (is_change n) q.inner.queue ≤ 1
  pub plain : tally (is_plain n) q.inner.queue ≤ caps.max_unsolicited_per_session

abbrev last_queued : Shared → Sessions → SessionEvent → Option ℕ → Shared
last_queued q sessions event slot = record q {
  inner = record q.inner {
    queue = q.inner.queue ++ (record { event = event; slot = slot } ∷ []);
    next_seq = q.inner.next_seq + 1;
    sessions = sessions;
  };
}

pub last_queued-IsBounded :
    (caps : EventCaps) (n : ℕ) (q : Shared) (sessions : Sessions) (event : SessionEvent)
    (slot : Option ℕ)
    → IsBounded caps n q
    → (state_of sessions n).unsolicited
      ≡ (state_of q.inner.sessions n).unsolicited
        + (one_if (is_change n event) + one_if (is_output n event))
    → (state_of sessions n).transaction_seq ≡ (
        if is_change n event
        then some q.inner.next_seq
        else (state_of q.inner.sessions n).transaction_seq)
    → (is_change n event ≡ true → tally (is_change n) q.inner.queue ≡ 0)
    → (is_plain n event ≡ true
        → tally (is_plain n) q.inner.queue + 1 ≤ caps.max_unsolicited_per_session)
    → IsBounded caps n (last_queued q sessions event slot)
last_queued-IsBounded caps n q sessions event slot h count seq first room =
    let added : Queued = record { event = event; slot = slot } in
    record {
      limit = h.limit;
      numbered = omega (arith, h.numbered, length-append q.inner.queue (added ∷ []));
      counted = omega (
        arith,
        count,
        h.counted,
        tally-append (is_change n) q.inner.queue added,
        tally-append (is_output n) q.inner.queue added,
      );
      known = seq ∙ known (is_change n event) refl;
      single = ground (arith, tally-append (is_change n) q.inner.queue added, h.single, first);
      plain = ground (arith, tally-append (is_plain n) q.inner.queue added, h.plain, room);
    }
  where
    picks :
        (x y : Option ℕ) (b : Bool)
        → is_change n event ≡ b
        → (if is_change n event then x else y) ≡ (if b then x else y)
    picks x y b e = ap (λ b. if b then x else y) e

    known :
        (b : Bool)
        → is_change n event ≡ b
        → (if is_change n event
            then some q.inner.next_seq
            else (state_of q.inner.sessions n).transaction_seq)
          ≡ find_change n q.inner.front_seq
              (q.inner.queue ++ (record { event = event; slot = slot } ∷ []))
    known true is =
        picks _ _ true is
        ∙ ap some h.numbered
        ∙ sym (picks _ none true is)
        ∙ sym (find_change-append n q.inner.front_seq q.inner.queue _ (first is))
    known false other =
        picks _ _ false other
        ∙ h.known
        ∙ sym (find_change-other n q.inner.front_seq q.inner.queue _ other)

-- What another state of one session says of any session.
pub counted-with_session :
    (n : ℕ) (sessions : Sessions) (session : SessionId) (state : SessionQueueState) (k : ℕ)
    → state.unsolicited ≡ (state_of sessions session.number).unsolicited + k
    → (state_of (with_session sessions session (some state)) n).unsolicited
      ≡ (state_of sessions n).unsolicited + (if n == session.number then k else 0)
counted-with_session n sessions session state k h = elim (Bool-cases (n == session.number)) [
  | inl own_one ↦
      let e : session.number ≡ n = ground (arith, own_one) in
      rw own_one (h ∙ ap (λ m. (state_of sessions m).unsolicited + k) e)
  | inr other ↦ rw other (omega arith)
]

pub known-with_session :
    (n : ℕ) (sessions : Sessions) (session : SessionId) (state : SessionQueueState)
    → state.transaction_seq ≡ (state_of sessions session.number).transaction_seq
    → (state_of (with_session sessions session (some state)) n).transaction_seq
      ≡ (state_of sessions n).transaction_seq
known-with_session n sessions session state h = elim (Bool-cases (n == session.number)) [
  | inl own_one ↦
      let e : session.number ≡ n = ground (arith, own_one) in
      rw own_one (h ∙ ap (λ m. (state_of sessions m).transaction_seq) e)
  | inr other ↦ rw other refl
]

pub folded-IsBounded :
    (caps : EventCaps) (n i : ℕ) (q : Shared) (active : Bool) (queue : List Queued)
    → IsBounded caps n q
    → fold_at i active q.inner.queue ≡ some queue
    → IsBounded caps n (record q { inner = record q.inner { queue = queue } })
folded-IsBounded caps n i q active queue h e =
    let a = fold_at-Alike n i active q.inner.queue queue e in
    record {
      limit = h.limit;
      numbered = omega (arith, h.numbered, a.size);
      counted = omega (arith, h.counted, a.changed, a.output);
      known = h.known ∙ sym (a.found q.inner.front_seq);
      single = omega (arith, h.single, a.changed);
      plain = omega (arith, h.plain, a.plain);
    }
