-- ===== src/Store/Replies.antt =====
-- crates/db-core/src/store/result_store.rs: a reply keeps a store sound, if it holds no more rows than
-- its fetch asked for.
use reldex.Base.{
  ℕ, ◌+◌, ◌≤◌, ◌≡◌, refl, ap, subst, ◌||◌, inl, inr, Bool-cases, Bool, true, false, not, ◌&&◌,
  Option, none, some, List, [], ◌∷◌, arith, length, ltb, ◌==◌, if◌then◌else◌,
}
use reldex.Driver.Error.{DbResult, ok, err, DbError}
use reldex.Driver.Error.{internal}
use reldex.Text.{codes}
use reldex.Store.Ids.{result_eq}
use reldex.Store.Segment.{ResultSegment}
use reldex.Store.Result.{
  FetchTicket, SegmentReply, Fetched, InFlight, ResultStore, row_limit, is_active, is_at_limit,
  is_empty,
}
use reldex.Store.Inputs.{
  append, forget, fail, find_entry, drop_entry, out_of_sequence, fetch_failed, note_exhausted,
  accept, answered, in_sequence, is_expected, take_front, on_fetched,
}
use reldex.Store.Sound.{sum_rows, sum_bytes, IsSteady, IsSound, sum_rows-without_entry}
use reldex.Store.Settle.{settle-IsSound}

-- A reply holds no more rows than its fetch asked for.
abbrev pub ReplyFits : List InFlight → DbResult SegmentReply → Type 0
ReplyFits (e ∷ es) (ok reply) = reply.segment.rows ≤ e.rows
ReplyFits _ _ = Unit {0}

popped-IsSteady :
    (s : ResultStore) (entry : InFlight) (rest : List InFlight)
    → IsSteady s
    → s.in_flight ≡ entry ∷ rest
    → IsSteady (forget (record s { in_flight = rest }) entry)
unfolding forget row_limit
popped-IsSteady s entry rest h e =
    ground (arith, ap sum_rows e, ap sum_bytes e, ap length e, ap is_empty e)

append-IsSteady :
    (s : ResultStore) (segment : ResultSegment)
    → IsSteady s
    → s.first_submitted ≡ true
    → s.retained_rows + segment.rows + s.in_flight_rows ≤ row_limit s + 1
    → IsSteady (append s segment)
unfolding append row_limit
append-IsSteady s segment h f room = ground arith

fetch_failed-IsSound :
    (s : ResultStore) (error : DbError)
    → IsSteady s
    → is_active s.phase ≡ true
    → IsSound (fetch_failed s error)
unfolding fetch_failed row_limit
fetch_failed-IsSound s error h a = ground arith

fail-IsSound : (s : ResultStore) (error : DbError) → IsSteady s → IsSound (fail s error)
unfolding row_limit
fail-IsSound s error h = ground arith

note_exhausted-IsSteady :
    (s : ResultStore) (exhausted : Bool)
    → IsSteady s
    → s.first_submitted ≡ true
    → IsSteady (note_exhausted s exhausted)
unfolding row_limit
note_exhausted-IsSteady s exhausted h f = ground arith

taken-IsSteady :
    (s : ResultStore) (reply : SegmentReply)
    → IsSteady s
    → s.first_submitted ≡ true
    → s.retained_rows + reply.segment.rows + s.in_flight_rows ≤ row_limit s + 1
    → (b : Bool)
    → IsSteady (
        if b
        then append (note_exhausted s reply.exhausted) reply.segment
        else note_exhausted s reply.exhausted)
unfolding row_limit
taken-IsSteady s reply h f room true =
    append-IsSteady _ reply.segment (note_exhausted-IsSteady s reply.exhausted h f) f room
taken-IsSteady s reply h f room false = note_exhausted-IsSteady s reply.exhausted h f

accept-IsSound :
    (s : ResultStore) (reply : SegmentReply)
    → IsSteady s
    → is_active s.phase ≡ true
    → s.first_submitted ≡ true
    → s.retained_rows + reply.segment.rows + s.in_flight_rows ≤ row_limit s + 1
    → IsSound (accept s reply).0
unfolding accept
accept-IsSound s reply h a f room =
    elim (Bool-cases
      (ltb 0 reply.segment.rows && not (length reply.segment.columns == length s.columns))) [
        | inl other ↦ rw other (fail-IsSound s _ h)
        | inr fits ↦
            rw fits (settle-IsSound _ (taken-IsSteady s reply h f room (ltb 0 reply.segment.rows)))
      ]

submitted :
    (s : ResultStore) (entry : InFlight) (rest : List InFlight)
    → IsSteady s
    → s.in_flight ≡ entry ∷ rest
    → s.first_submitted ≡ true
submitted s entry rest h e = elim (Bool-cases s.first_submitted) [
  | inl f ↦ f
  | inr f ↦ ground (arith, h.untouched f, ap is_empty e)
]

in_sequence-IsSound :
    (s : ResultStore) (entry : InFlight) (rest : List InFlight) (reply : DbResult SegmentReply)
    → IsSound s
    → s.in_flight ≡ entry ∷ rest
    → ReplyFits (entry ∷ rest) reply
    → IsSound (in_sequence s entry rest reply).0
unfolding forget row_limit
in_sequence-IsSound s entry rest reply h e fits = elim (Bool-cases (is_active s.phase)) [
  | inr over ↦
      rw over
        (record { steady = popped-IsSteady s entry rest h.steady e; settled = λ a. absurd cc })
  | inl active ↦ rw active (answered-IsSound reply fits active)
]
  where
    answered-IsSound :
        (reply : DbResult SegmentReply)
        → ReplyFits (entry ∷ rest) reply
        → is_active s.phase ≡ true
        → IsSound (answered (forget (record s { in_flight = rest }) entry) reply).0
    answered-IsSound (err error) fits active =
        fetch_failed-IsSound _ error (popped-IsSteady s entry rest h.steady e) active
    answered-IsSound (ok reply) fits active =
        accept-IsSound _ reply (popped-IsSteady s entry rest h.steady e) active
          (submitted s entry rest h.steady e) (ground (arith, ap sum_rows e, h.counted, h.capped))

dropped-IsSteady :
    (s : ResultStore) (n : ℕ) (found : Option InFlight)
    → IsSteady s
    → find_entry n s.in_flight ≡ found
    → IsSteady (drop_entry s n found)
unfolding forget row_limit
dropped-IsSteady s n none h e = h
dropped-IsSteady s n (some entry) h e =
    ground
      (arith, sum_rows-without_entry n s.in_flight entry e, h.untouched, entry_found s.in_flight e)
  where
    entry_found : (es : List InFlight) → find_entry n es ≡ some entry → is_empty es ≡ false
    entry_found [] f = cc
    entry_found (x ∷ es) f = refl

out_of_sequence-IsSound : (s : ResultStore) (n : ℕ) → IsSteady s → IsSound (out_of_sequence s n)
unfolding out_of_sequence
out_of_sequence-IsSound s n h =
    failed (drop_entry s n (find_entry n s.in_flight)) (dropped-IsSteady s n _ h refl)
  where
    failed :
        (s' : ResultStore)
        → IsSteady s'
        → IsSound (
            if is_active s'.phase || is_at_limit s'.phase
            then fail s' (
                internal (
                  codes
                    "a fetch was received out of sequence; the rows were not appended, and the result is incomplete"))
            else s')
    failed s' h' = elim (Bool-cases (is_active s'.phase || is_at_limit s'.phase)) [
      | inl moves ↦ rw moves (fail-IsSound s' _ h')
      | inr rests ↦ rw rests (record { steady = h'; settled = λ a. absurd (ground arith) })
    ]

take_front-IsSound :
    (s : ResultStore) (es : List InFlight) (reply : DbResult SegmentReply)
    → IsSound s
    → s.in_flight ≡ es
    → ReplyFits es reply
    → IsSound (take_front s es reply).0
take_front-IsSound s [] reply h e fits = h
take_front-IsSound s (entry ∷ rest) reply h e fits = in_sequence-IsSound s entry rest reply h e fits

abbrev KeptBy : Option (ResultStore × Fetched) → Type 0
KeptBy none = Unit {0}
KeptBy (some (s, fetched)) = IsSound s

on_fetched-KeptBy :
    (debug_assertions : Bool) (s : ResultStore) (ticket : FetchTicket)
    (reply : DbResult SegmentReply)
    → IsSound s
    → ReplyFits s.in_flight reply
    → KeptBy (on_fetched debug_assertions s ticket reply)
unfolding on_fetched
on_fetched-KeptBy debug_assertions s ticket reply h fits =
    elim (Bool-cases (result_eq ticket.result s.result)) [
      | inr other ↦ rw other h
      | inl own ↦ elim (Bool-cases (is_expected s.in_flight ticket.sequence)) [
        | inl next ↦ rw (own, next) (take_front-IsSound s s.in_flight reply h refl fits)
        | inr wrong ↦ rw (own, wrong) (released debug_assertions)
      ]
    ]
  where
    released :
        (debug : Bool)
        → KeptBy (
            if debug
            then none
            else some (out_of_sequence s ticket.sequence, Fetched.out_of_sequence))
    released true = tt
    released false = out_of_sequence-IsSound s ticket.sequence h.steady

pub on_fetched-IsSound :
    (debug_assertions : Bool) (s s' : ResultStore) (ticket : FetchTicket)
    (reply : DbResult SegmentReply) (fetched : Fetched)
    → IsSound s
    → ReplyFits s.in_flight reply
    → on_fetched debug_assertions s ticket reply ≡ some (s', fetched)
    → IsSound s'
on_fetched-IsSound debug_assertions s s' ticket reply fetched h fits e =
    subst KeptBy e (on_fetched-KeptBy debug_assertions s ticket reply h fits)
