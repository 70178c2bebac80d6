-- ===== src/Events/Outcome.antt =====
-- crates/db-core/src/events.rs: the ways that a push can go, for the proofs about the queue.
use reldex.Base.{
  ℕ, ◌+◌, ◌≡◌, refl, sym, ap, subst, if◌then◌else◌, Bool, true, false, Option, none, some, List, [],
  ◌∷◌, ◌++◌, leb,
}
use reldex.Text.{Text}
use reldex.Driver.Error.{DbError}
use reldex.Store.Ids.{SessionId}
use reldex.Events.Event.{SessionEvent, is_unsolicited}
use reldex.Events.Queue.{
  Queued, Inner, Shared, Pushed, Admission, discarded, fold_or_enqueue, fold_in,
  queued_transaction_slot, without_room, admit_unsolicited, stamp_unsolicited, put_last, admitted,
  push, state_or_default,
}

abbrev pub unsolicited_of : Inner → SessionId → ℕ
unsolicited_of inner session = (state_or_default (inner.sessions session.number)).unsolicited

-- The lines of a refused output are counted.
abbrev pub counted : Inner → SessionId → List Text → Inner
counted inner session lines =
    (without_room inner (SessionEvent.server_output session lines 0 none 0)).0

-- An event behind the others, as it is.
abbrev pub behind : Shared → SessionEvent → Option ℕ → Shared
behind q event slot = record q {
  inner = record q.inner {
    queue = q.inner.queue ++ (record { event = event; slot = slot } ∷ []);
    next_seq = q.inner.next_seq + 1;
  };
}

put_last-behind :
    (q : Shared) (event : SessionEvent) (slot : Option ℕ)
    → is_unsolicited event ≡ false
    → (put_last q event slot).0 ≡ behind q event slot
unfolding put_last stamp_unsolicited
put_last-behind q event slot h = rw h refl

-- Kept as it is, folded into one that is queued, put behind the others, shown, refused with its lines
-- counted, or put behind the others without them.
pub data Outcome (q : Shared) (slot : Option ℕ) : SessionEvent → Shared → Type 0 where
  kept :
      {event : SessionEvent}
      → is_unsolicited event ≡ false
      → Outcome q slot event (behind q event slot)
  folded :
      (session : SessionId) (active : Bool) (queue : List Queued)
      → fold_in active q.inner.queue (queued_transaction_slot q.inner session) ≡ some queue
      → Outcome q slot
          (SessionEvent.transaction_state_changed session active)
          (record q { inner = record q.inner { queue = queue } })
  opened :
      (session : SessionId) (active : Bool)
      → fold_in active q.inner.queue (queued_transaction_slot q.inner session) ≡ none
      → Outcome q slot
          (SessionEvent.transaction_state_changed session active)
          (put_last q (SessionEvent.transaction_state_changed session active) slot).0
  shown :
      (session : SessionId) (lines : List Text) (lost : ℕ) (failure : Option DbError) (invalid : ℕ)
      → leb q.caps.max_unsolicited_per_session (unsolicited_of q.inner session) ≡ false
      → Outcome q slot
          (SessionEvent.server_output session lines lost failure invalid)
          (put_last q (SessionEvent.server_output session lines lost failure invalid) slot).0
  refused :
      (session : SessionId) (lines : List Text) (lost : ℕ) (invalid : ℕ)
      → Outcome q slot (SessionEvent.server_output session lines lost none invalid) (record q {
        inner = counted q.inner session lines;
        dropped_unsolicited = q.dropped_unsolicited + 1;
      })
  reported :
      (session : SessionId) (lines : List Text) (lost : ℕ) (failure : DbError) (invalid : ℕ)
      → Outcome q slot
          (SessionEvent.server_output session lines lost (some failure) invalid)
          (put_last
            (record q { inner = counted q.inner session lines })
            (SessionEvent.server_output session [] lost (some failure) invalid)
            slot).0

module _ (q : Shared) (slot : Option ℕ) (open_ : q.inner.closed ≡ false) where
  abbrev open_push : SessionEvent → Shared × Pushed
  unfolding is_unsolicited admit_unsolicited put_last
  open_push event =
      if is_unsolicited event
      then admitted q event slot (admit_unsolicited q.inner event q.caps)
      else put_last q event slot

  push-Outcome_of :
      (event : SessionEvent)
      → Outcome q slot event (open_push event).0
      → Outcome q slot event (push q event slot).0
  unfolding push open_push
  push-Outcome_of event h =
      subst (Outcome q slot event)
        (sym (ap (λ b. (if b then (q, discarded) else open_push event).0) open_)) h

  solid-Outcome :
      (event : SessionEvent)
      → is_unsolicited event ≡ false
      → Outcome q slot event (push q event slot).0
  unfolding open_push
  solid-Outcome event h = push-Outcome_of event (
      subst (Outcome q slot event)
        (sym (
          ap
            (λ b.
              (if b
                then admitted q event slot (admit_unsolicited q.inner event q.caps)
                else put_last q event slot).0)
            h))
        (subst (Outcome q slot event) (sym (put_last-behind q event slot h)) (Outcome.kept h)))

  pub push-Outcome : (event : SessionEvent) → Outcome q slot event (push q event slot).0
  unfolding open_push admit_unsolicited is_unsolicited
  push-Outcome (SessionEvent.transaction_state_changed session active) =
      push-Outcome_of (SessionEvent.transaction_state_changed session active) (by_fold _ refl)
    where
      by_fold :
          (o : Option (List Queued))
          → fold_in active q.inner.queue (queued_transaction_slot q.inner session) ≡ o
          → Outcome q slot
              (SessionEvent.transaction_state_changed session active)
              (admitted q
                (SessionEvent.transaction_state_changed session active)
                slot
                (fold_or_enqueue q.inner o)).0
      by_fold none alone = Outcome.opened session active alone
      by_fold (some queue) found = Outcome.folded session active queue found
  push-Outcome (SessionEvent.server_output session lines lost failure invalid) =
      push-Outcome_of (SessionEvent.server_output session lines lost failure invalid)
        (by_room failure _ refl)
    where
      by_room :
          (failure : Option DbError) (full : Bool)
          → leb q.caps.max_unsolicited_per_session (unsolicited_of q.inner session) ≡ full
          → Outcome q slot
              (SessionEvent.server_output session lines lost failure invalid)
              (admitted q (SessionEvent.server_output session lines lost failure invalid) slot (
                if full
                then without_room q.inner
                    (SessionEvent.server_output session lines lost failure invalid)
                else (q.inner, Admission.enqueue))).0
      by_room failure false room = Outcome.shown session lines lost failure invalid room
      by_room none true full = Outcome.refused session lines lost invalid
      by_room (some failure) true full = Outcome.reported session lines lost failure invalid
  push-Outcome (SessionEvent.fetched_segment session fetch reply) = solid-Outcome _ refl
  push-Outcome (SessionEvent.executed session outcome) = solid-Outcome _ refl
  push-Outcome (SessionEvent.completed session operation result) = solid-Outcome _ refl
  push-Outcome (SessionEvent.terminal session) = solid-Outcome _ refl
  push-Outcome (SessionEvent.other_reply session) = solid-Outcome _ refl
  push-Outcome (SessionEvent.executing session) = solid-Outcome _ refl
