-- ===== src/Store/Failing.antt =====
-- crates/db-core/src/store/result_store.rs: a fetch that failed, and what becomes of its store.
use reldex.Base.{
  ℕ, ◌≡◌, ◌≢◌, refl, ap, ap₂, ◌∙◌, inl, inr, ◌⊎◌, Bool-cases, Bool, true, false, ◌||◌, not, Option,
  none, some, is_some, arith, List, [], ◌∷◌, min, get_elem?, if◌then◌else◌, ◌-◌,
}
use reldex.Driver.Error.{DbError, err}
use reldex.Driver.Nulls.{is_null}
use reldex.Store.Ids.{LobHandle, result_eq}
use reldex.Store.Policy.{ResultCaps, limit}
use reldex.Store.Segment.{LobUnavailable, SegmentColumn, ResultSegment, CellValue, segment_value}
use reldex.Store.Result.{
  FetchTicket, LobCell, Fetched, InFlight, ResultPhase, EndCause, ResultStore, row_limit_of,
  row_limit, row_count, is_active, reported, state,
}
use reldex.Store.Fetch.{due}
use reldex.Store.Inputs.{on_fetched, is_expected, take_front, fetch_failed, forget}
use reldex.Store.Lookup.{is_lob_storage, lob_cell, lob_in, segment_for_row, lob}
use reldex.Store.Sound.{IsSound}
use reldex.Store.Reach.{Reach}
use reldex.Store.Final.{Retained, retained}
use reldex.Store.Over.{over-held_back, Reach-over_from}
use reldex.Store.Failed.{IsFailed, IsFailed-over, Rests, or_reason-some, Reach-Rests}

-- What a store shows from the time on that a fetch of `s` failed with `error`.
pub record ShowsFailure (s : ResultStore) (error : DbError) (u : ResultStore) : Type 0 where
  pub kept : retained u ≡ retained s
  pub shown : row_count u ≡ row_count s
  pub phase :
      ((state u).phase ≡ ResultPhase.failed (row_count s) error)
      ⊎ ((state u).phase ≡ ResultPhase.ended EndCause.discarded)
  pub quiet : due u ≡ none
  pub unreadable :
      (row column : ℕ) (handle : LobHandle) → lob u row column ≢ some (LobCell.readable handle)

lob_cell-unreadable :
    (lobs : Option LobUnavailable) (cell : Option CellValue) (handle : LobHandle)
    → is_some lobs ≡ true
    → lob_cell lobs cell ≢ some (LobCell.readable handle)
lob_cell-unreadable none cell handle h e = absurd (ground arith)
lob_cell-unreadable (some reason) none handle h e = cc
lob_cell-unreadable (some reason) (some cell) handle h e = absurd (ground (arith, e))

lob_in-unreadable :
    (u : ResultStore) (row column : ℕ) (found : ResultSegment × ℕ) (handle : LobHandle)
    → is_some u.lobs ≡ true
    → lob_in u row column found ≢ some (LobCell.readable handle)
lob_in-unreadable u row column (segment, first) handle h =
    by_column (get_elem? segment.columns column)
  where
    by_column :
        (o : Option SegmentColumn)
        → (elim o [
          | none ↦ none
          | some c ↦
              if not (is_lob_storage c.storage) || is_null c.nulls (row - first)
              then none
              else lob_cell u.lobs (segment_value segment (row - first) column)
        ])
          ≢ some (LobCell.readable handle)
    by_column none e = cc
    by_column (some c) e =
        elim (Bool-cases (not (is_lob_storage c.storage) || is_null c.nulls (row - first))) [
          | inl skipped ↦ absurd (cc (rw skipped at e))
          | inr large ↦
              lob_cell-unreadable u.lobs (segment_value segment (row - first) column) handle h
                (rw large at e)
        ]

lob-unreadable :
    (u : ResultStore) (row column : ℕ) (handle : LobHandle)
    → is_some u.lobs ≡ true
    → lob u row column ≢ some (LobCell.readable handle)
unfolding lob
lob-unreadable u row column handle h = by_segment (segment_for_row u row)
  where
    by_segment :
        (o : Option (ResultSegment × ℕ))
        → (elim o [ none ↦ none | some found ↦ lob_in u row column found ])
          ≢ some (LobCell.readable handle)
    by_segment none e = cc
    by_segment (some found) e = lob_in-unreadable u row column found handle h e

row_count-kept :
    (s u : ResultStore) → retained u ≡ retained s → u.caps ≡ s.caps → row_count u ≡ row_count s
unfolding row_count row_limit
row_count-kept s u kept caps =
    ap₂ min (ap (λ (v : Retained). v.retained_rows) kept)
      (ap (λ (c : ResultCaps). row_limit_of (limit c.max_rows.value)) caps)

Rests-quiet :
    (caps : ResultCaps) (rows : ℕ) (error : DbError) (u : ResultStore)
    → Rests caps rows error u
    → due u ≡ none
unfolding due
Rests-quiet caps rows error u (c, p, d, l) =
    rw (d, over-held_back u (IsFailed-over rows error u.phase p)) refl

reported_failure :
    (s : ResultStore) (error : DbError) (u : ResultStore)
    → IsFailed (row_count s) error u.phase
    → ((state u).phase ≡ ResultPhase.failed (row_count s) error)
      ⊎ ((state u).phase ≡ ResultPhase.ended EndCause.discarded)
unfolding state
reported_failure s error u (inl e) = inl (ap (reported u) e)
reported_failure s error u (inr e) = inr (ap (reported u) e)

Rests-shows :
    (s : ResultStore) (error : DbError) (u : ResultStore)
    → retained u ≡ retained s
    → Rests s.caps (row_count s) error u
    → ShowsFailure s error u
Rests-shows s error u kept h = record {
  kept = kept;
  shown = row_count-kept s u kept h.0;
  phase = reported_failure s error u h.1;
  quiet = Rests-quiet s.caps (row_count s) error u h;
  unreadable = λ row column handle. lob-unreadable u row column handle h.3;
}

failed_at_front :
    (s : ResultStore) (entry : InFlight) (rest : List InFlight) (error : DbError)
    → is_active s.phase ≡ true
    → s.close_due ≡ false
    → (retained (take_front s (entry ∷ rest) (err error)).0 ≡ retained s)
      × Rests s.caps (row_count s) error (take_front s (entry ∷ rest) (err error)).0
      × ((take_front s (entry ∷ rest) (err error)).1 ≡ Fetched.failed)
unfolding forget fetch_failed row_count row_limit
failed_at_front s entry rest error a c =
    rw a (refl, (refl, inl refl, c, or_reason-some s.lobs _), refl)

-- The store that an error leaves, and what `on_fetched` calls the reply.
abbrev pub failure : ResultStore → DbError → ResultStore × Fetched
failure s error = take_front s s.in_flight (err error)

failure-Rests :
    (s : ResultStore) (sequence : ℕ) (error : DbError)
    → is_active s.phase ≡ true
    → s.close_due ≡ false
    → is_expected s.in_flight sequence ≡ true
    → (retained (failure s error).0 ≡ retained s)
      × Rests s.caps (row_count s) error (failure s error).0
      × ((failure s error).1 ≡ Fetched.failed)
failure-Rests s sequence error a c expected = by_front s.in_flight expected
  where
    by_front :
        (es : List InFlight)
        → is_expected es sequence ≡ true
        → (retained (take_front s es (err error)).0 ≡ retained s)
          × Rests s.caps (row_count s) error (take_front s es (err error)).0
          × ((take_front s es (err error)).1 ≡ Fetched.failed)
    by_front [] f = absurd (ground arith)
    by_front (entry ∷ rest) f = failed_at_front s entry rest error a c

-- An error in reply to the expected fetch of an active store is never lost, and nothing takes it back:
-- whatever happens to the store from then on, late replies, raised caps and ends of transactions
-- included, it retains and shows exactly the rows that it did, reports this error behind them or that
-- it was discarded, has nothing due, neither a fetch nor a close, and never gives out a large object
-- to read.
pub on_fetched-ShowsFailure :
    (debug_assertions : Bool) (s u : ResultStore) (ticket : FetchTicket) (error : DbError)
    → IsSound s
    → is_active s.phase ≡ true
    → result_eq ticket.result s.result ≡ true
    → is_expected s.in_flight ticket.sequence ≡ true
    → Reach (failure s error).0 u
    → (on_fetched debug_assertions s ticket (err error)
        ≡ some ((failure s error).0, Fetched.failed))
      × ShowsFailure s error u
unfolding on_fetched
on_fetched-ShowsFailure debug s u ticket error h a own expected reach =
    let (kept, rests, fetched) =
      failure-Rests s ticket.sequence error a (h.open_cursor a).1 expected in
    let (_, same) =
      Reach-over_from reach (IsFailed-over (row_count s) error (failure s error).0.phase rests.1) in
    (
      rw (own, expected) (ap (λ f. some ((failure s error).0, f)) fetched),
      Rests-shows s error u (same ∙ kept) (Reach-Rests s.caps (row_count s) error reach rests),
    )
