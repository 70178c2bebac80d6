-- ===== src/Events/Counting.antt =====
-- crates/db-core/src/events.rs: counting the lines of the events of a session.
use reldex.Base.{
  ℕ, ◌+◌, ◌≤◌, ◌≡◌, refl, ap, ◌∙◌, inl, inr, Bool-cases, true, Option, some, List, [], ◌∷◌, ◌++◌,
  arith, length, ◌==◌, if◌then◌else◌,
}
use reldex.Text.{Text}
use reldex.Driver.Error.{DbError}
use reldex.Store.Ids.{SessionId}
use reldex.Events.Event.{SessionEvent, is_unsolicited}
use reldex.Events.Run.{events, events-append}
use reldex.Events.Queue.{
  Sessions, SessionQueueState, Queued, Shared, with_session, state_or_default, stamp_unsolicited,
  put_last, max_u32, saturating,
}

-- What concerns a session, and nothing of the others.
abbrev pub own : ℕ → SessionId → ℕ → ℕ
own n session k = if n == session.number then k else 0

-- The lines that are pushed for a session, and those that are shown or reported as dropped.
unfoldable pub lines_of : ℕ → SessionEvent → ℕ
lines_of n (SessionEvent.server_output session lines lost failure invalid) =
    own n session (length lines)
lines_of n _ = 0

unfoldable pub reported_of : ℕ → SessionEvent → ℕ
reported_of n (SessionEvent.server_output session lines lost failure invalid) =
    own n session (length lines + lost)
reported_of n _ = 0

unfoldable pub lines_in : ℕ → List SessionEvent → ℕ
unfolding lines_of
lines_in n [] = 0
lines_in n (e ∷ es) = lines_of n e + lines_in n es

unfoldable pub reported_in : ℕ → List SessionEvent → ℕ
unfolding reported_of
reported_in n [] = 0
reported_in n (e ∷ es) = reported_of n e + reported_in n es

-- A worker reports no dropped lines itself.
abbrev pub IsFresh : SessionEvent → Type 0
IsFresh (SessionEvent.server_output session lines lost failure invalid) = lost ≡ 0
IsFresh _ = Unit {0}

abbrev pub AllFresh : List SessionEvent → Type 0
AllFresh [] = Unit {0}
AllFresh (e ∷ es) = IsFresh e × AllFresh es

pub AllFresh-append :
    (xs : List SessionEvent) (e : SessionEvent)
    → AllFresh (xs ++ (e ∷ []))
    → AllFresh xs × IsFresh e
AllFresh-append [] e (h, u) = (tt, h)
AllFresh-append (x ∷ xs) e (h, hs) = let (rest, last) = AllFresh-append xs e hs in ((h, rest), last)

pub lines_in-append :
    (n : ℕ) (xs : List SessionEvent) (e : SessionEvent)
    → lines_in n (xs ++ (e ∷ [])) ≡ lines_in n xs + lines_of n e
unfolding lines_in
lines_in-append n [] e = omega arith
lines_in-append n (x ∷ xs) e = omega (arith, lines_in-append n xs e)

pub reported_in-append :
    (n : ℕ) (xs : List SessionEvent) (e : SessionEvent)
    → reported_in n (xs ++ (e ∷ [])) ≡ reported_in n xs + reported_of n e
unfolding reported_in
reported_in-append n [] e = omega arith
reported_in-append n (x ∷ xs) e = omega (arith, reported_in-append n xs e)

-- What is queued for a session and what it is still owed.
unfoldable pub waiting : ℕ → Shared → ℕ
unfolding reported_in
waiting n q =
    reported_in n (events q.inner.queue) + (state_or_default (q.inner.sessions n)).dropped_lines

pub reported-last :
    (n : ℕ) (qs : List Queued) (q : Queued)
    → reported_in n (events (qs ++ (q ∷ []))) ≡ reported_in n (events qs) + reported_of n q.event
unfolding reported_in
reported-last n qs q =
    ap (reported_in n) (events-append qs (q ∷ [])) ∙ reported_in-append n (events qs) q.event

same_number : (n : ℕ) → (n == n) ≡ true
same_number n = ground arith

pub dropped-with_session :
    (n : ℕ) (sessions : Sessions) (session : SessionId) (state : SessionQueueState)
    → (state_or_default (with_session sessions session (some state) n)).dropped_lines ≡ (
        if n == session.number
        then state.dropped_lines
        else (state_or_default (sessions n)).dropped_lines)
dropped-with_session n sessions session state = elim (Bool-cases (n == session.number)) [
  | inl own_one ↦ rw own_one refl
  | inr other ↦ rw other refl
]

abbrev pub owed : Sessions → ℕ → ℕ
owed sessions n = (state_or_default (sessions n)).dropped_lines

pub put_last-waiting :
    (n : ℕ) (q : Shared) (slot : Option ℕ) (session : SessionId) (lines : List Text) (lost : ℕ)
    (failure : Option DbError) (invalid : ℕ)
    → (n ≡ session.number → lost + owed q.inner.sessions n ≤ max_u32)
    → waiting n (put_last q (SessionEvent.server_output session lines lost failure invalid) slot).0
      ≡ waiting n q + own n session (length lines + lost)
unfolding waiting put_last stamp_unsolicited is_unsolicited reported_in reported_of
put_last-waiting n q slot session lines lost failure invalid fits =
    let e : n == session.number ≡ true
        → owed q.inner.sessions n ≡ owed q.inner.sessions session.number =
      λ h. ap (owed q.inner.sessions) (ground (arith, h)) in
    ground (
      arith,
      reported-last n q.inner.queue (record {
        event =
            SessionEvent.server_output session lines
              (saturating (lost + owed q.inner.sessions session.number)) failure invalid;
        slot = slot;
      }),
      dropped-with_session n q.inner.sessions session _,
      fits,
      e,
    )
