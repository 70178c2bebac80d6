-- ===== src/Store/Pending.antt =====
-- crates/db-core/src/store/session_results.rs: a reply does not change for how many answers a store
-- waits.
use reldex.Base.{
  ℕ, ◌≡◌, refl, ◌∙◌, inl, inr, Bool-cases, Bool, true, false, not, ◌&&◌, Option, none, some, List,
  [], ◌∷◌, arith, ltb, length, ◌==◌, if◌then◌else◌,
}
use reldex.Driver.Error.{DbResult, ok, err, DbError}
use reldex.Store.Ids.{result_eq}
use reldex.Store.Result.{FetchTicket, SegmentReply, Fetched, InFlight, ResultStore, is_active}
use reldex.Store.Inputs.{
  append, settle, forget, fail, find_entry, drop_entry, out_of_sequence, fetch_failed,
  note_exhausted, accept, answered, is_expected, take_front, on_fetched,
}

pub settle-pending :
    (s : ResultStore) → (settle s).transaction_ends_pending ≡ s.transaction_ends_pending
unfolding settle
settle-pending s = ground arith

taken-pending :
    (s : ResultStore) (reply : SegmentReply) (b : Bool)
    → (if b
        then append (note_exhausted s reply.exhausted) reply.segment
        else note_exhausted s reply.exhausted).transaction_ends_pending
      ≡ s.transaction_ends_pending
unfolding append
taken-pending s reply true = refl
taken-pending s reply false = refl

accept-pending :
    (s : ResultStore) (reply : SegmentReply)
    → (accept s reply).0.transaction_ends_pending ≡ s.transaction_ends_pending
unfolding accept
accept-pending s reply =
    elim (Bool-cases
      (ltb 0 reply.segment.rows && not (length reply.segment.columns == length s.columns))) [
        | inl other ↦ rw other
        | inr fits ↦ rw fits (
            settle-pending (
              if ltb 0 reply.segment.rows
              then append (note_exhausted s reply.exhausted) reply.segment
              else note_exhausted s reply.exhausted)
            ∙ taken-pending s reply (ltb 0 reply.segment.rows))
      ]

answered-pending :
    (s : ResultStore) (reply : DbResult SegmentReply)
    → (answered s reply).0.transaction_ends_pending ≡ s.transaction_ends_pending
unfolding fetch_failed
answered-pending s (err error) = refl
answered-pending s (ok reply) = accept-pending s reply

take_front-pending :
    (s : ResultStore) (es : List InFlight) (reply : DbResult SegmentReply)
    → (take_front s es reply).0.transaction_ends_pending ≡ s.transaction_ends_pending
unfolding forget
take_front-pending s [] reply = refl
take_front-pending s (entry ∷ rest) reply = elim (Bool-cases (is_active s.phase)) [
  | inl a ↦ rw a (answered-pending (forget (record s { in_flight = rest }) entry) reply)
  | inr over ↦ rw over
]

drop_entry-pending :
    (s : ResultStore) (n : ℕ) (o : Option InFlight)
    → (drop_entry s n o).transaction_ends_pending ≡ s.transaction_ends_pending
unfolding forget
drop_entry-pending s n none = refl
drop_entry-pending s n (some e) = refl

failed-pending :
    (b : Bool) (s : ResultStore) (error : DbError)
    → (if b then fail s error else s).transaction_ends_pending ≡ s.transaction_ends_pending
failed-pending true s error = refl
failed-pending false s error = refl

out_of_sequence-pending :
    (s : ResultStore) (n : ℕ)
    → (out_of_sequence s n).transaction_ends_pending ≡ s.transaction_ends_pending
unfolding out_of_sequence
out_of_sequence-pending s n =
    failed-pending _ (drop_entry s n (find_entry n s.in_flight)) _
    ∙ drop_entry-pending s n (find_entry n s.in_flight)

abbrev pub Waits : ℕ → Option (ResultStore × Fetched) → Type 0
Waits n none = Unit {0}
Waits n (some (s, fetched)) = s.transaction_ends_pending ≡ n

pub on_fetched-Waits :
    (debug : Bool) (s : ResultStore) (ticket : FetchTicket) (reply : DbResult SegmentReply)
    → Waits s.transaction_ends_pending (on_fetched debug s ticket reply)
unfolding on_fetched
on_fetched-Waits debug s ticket reply = elim (Bool-cases (result_eq ticket.result s.result)) [
  | inr other ↦ rw other refl
  | inl own ↦ elim (Bool-cases (is_expected s.in_flight ticket.sequence)) [
    | inl expected ↦ rw (own, expected) (take_front-pending s s.in_flight reply)
    | inr wrong ↦ rw (own, wrong) (released debug)
  ]
]
  where
    released :
        (b : Bool)
        → Waits s.transaction_ends_pending
            (if b then none else some (out_of_sequence s ticket.sequence, Fetched.out_of_sequence))
    released true = tt
    released false = out_of_sequence-pending s ticket.sequence
