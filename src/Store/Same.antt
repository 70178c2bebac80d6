-- ===== src/Store/Same.antt =====
-- crates/db-core/src/store/segment.rs: a whole segment reads like the batch that it was made of.
use reldex.Base.{
  ℕ, zero, suc, ◌≡◌, refl, subst, inl, inr, false, List, [], ◌∷◌, get_elem?, leb, Bool-cases,
}
use reldex.Driver.Error.{DbResult, ok, err}
use reldex.Driver.Nulls.{is_null}
use reldex.Driver.Rows.{
  Column, RowBatch, data_len, present_value, column_value, value_in, batch_value,
}
use reldex.Store.Ids.{SessionId}
use reldex.Store.Segment.{
  Storage, SegmentColumn, ResultSegment, stored_value, segment_column_value, cell_in, segment_value,
}
use reldex.Store.Compact.{
  Spent, Park, Layout, cons_column, compact_column, compact_columns, segment_of, compact_batch,
}
use reldex.Store.Faithful.{AreColumns, SameRead}
use reldex.Store.Reads.{ColumnReads, compact_column-ColumnReads}

module _ {S : Type 0} (park : Park S) (session : SessionId) where
  column-SameRead :
      (c : Column) (storage : Storage) (row : ℕ)
      → data_len c.values ≡ c.nulls.len
      → (is_null c.nulls row ≡ false
          → SameRead park session row
              (present_value c.values row)
              (stored_value session storage row))
      → SameRead park session row
          (column_value c row)
          (segment_column_value session (record { nulls = c.nulls; storage = storage }) row)
  unfolding column_value segment_column_value
  column-SameRead c storage row e h = rw e (elim (Bool-cases (leb c.nulls.len row)) [
    | inl past ↦ rw past tt
    | inr within ↦ elim (Bool-cases (is_null c.nulls row)) [
      | inl null ↦ rw (within, null) tt
      | inr present ↦ rw (within, present) (h present)
    ]
  ])

  abbrev BatchReads : List Column → DbResult (List SegmentColumn) → Type 0
  BatchReads cs (err e) = Unit {0}
  BatchReads cs (ok columns) =
      (column row : ℕ)
      → SameRead park session row (value_in (get_elem? cs column) row)
          (cell_in session (get_elem? columns column) row)

  cons_column-BatchReads :
      (c : Column) (cs : List Column) (storage : Storage)
      → ((row : ℕ)
          → SameRead park session row
              (column_value c row)
              (segment_column_value session (record { nulls = c.nulls; storage = storage }) row))
      → (s : S) (r : DbResult (List SegmentColumn)) → BatchReads cs r
      → BatchReads (c ∷ cs) (cons_column park c.nulls storage (s, r)).1
  cons_column-BatchReads c cs storage first s (err e) h = tt
  cons_column-BatchReads c cs storage first s (ok columns) h = λ column.
      elim column
        as (λ k.
          (row : ℕ)
          → SameRead park session row (value_in (get_elem? (c ∷ cs) k) row) (
              cell_in session
                (get_elem? (record { nulls = c.nulls; storage = storage } ∷ columns) k) row)) [
                  | zero ↦ first
                  | suc k ↦ h k
                ]

  compact_columns-BatchReads :
      (s : S) (cs : List Column) (spent : Spent)
      → AreColumns cs
      → BatchReads cs (compact_columns park s cs spent).1
  unfolding compact_columns
  compact_columns-BatchReads s [] spent h = λ column row. tt
  compact_columns-BatchReads s (c ∷ cs) spent ((e, normal), rest) =
      after (λ s' spent'. compact_columns-BatchReads s' cs spent' rest)
        (compact_column park s c.values c.nulls spent).1 refl
    where
      after :
          ((s' : S) (spent' : Spent) → BatchReads cs (compact_columns park s' cs spent').1)
          → (r : DbResult (Storage × Spent)) → (compact_column park s c.values c.nulls spent).1 ≡ r
          → BatchReads (c ∷ cs) (compact_columns park s (c ∷ cs) spent).1
      after ih (err x) found = rw (found, compact_columns) tt
      after ih (ok (storage, spent')) found =
          rw (found, compact_columns)
            (cons_column-BatchReads c cs storage
              (λ row. column-SameRead c storage row e (
                subst (ColumnReads park session c.values c.nulls) found
                  (compact_column-ColumnReads park session s c.values c.nulls spent normal) row))
              _ _ (ih (compact_column park s c.values c.nulls spent).0 spent'))

  abbrev SegmentReads : RowBatch → DbResult ResultSegment → Type 0
  SegmentReads batch (err e) = Unit {0}
  SegmentReads batch (ok segment) =
      (row column : ℕ)
      → SameRead park session row (batch_value batch row column) (segment_value segment row column)

  segment_of-SegmentReads :
      (l : Layout) (batch : RowBatch) (s : S) (r : DbResult (List SegmentColumn))
      → BatchReads batch.columns r
      → SegmentReads batch (segment_of park l session batch.row_count (s, r)).1
  unfolding batch_value segment_value
  segment_of-SegmentReads l batch s (err e) h = tt
  segment_of-SegmentReads l batch s (ok columns) h = λ row column. h column row

  -- A segment that is made of a batch reads, at every row and every column, as the batch does: NULL as
  -- NULL, out of range as out of range, a number as the same number though it is held as a scaled
  -- one, a large object as a handle of the session under an id that it was parked with, a taken one
  -- as a handle with id 0, and any other value as itself. The columns have masks of their own lengths
  -- and numbers in normal form.
  pub compact_batch-SameRead :
      (l : Layout) (s : S) (batch : RowBatch) (segment : ResultSegment)
      → AreColumns batch.columns
      → (compact_batch park l session s batch).1 ≡ ok segment
      → (row column : ℕ)
      → SameRead park session row (batch_value batch row column) (segment_value segment row column)
  unfolding compact_batch
  compact_batch-SameRead l s batch segment h made =
      subst (SegmentReads batch) made
        (segment_of-SegmentReads l batch _ _ (compact_columns-BatchReads s batch.columns [] h))
