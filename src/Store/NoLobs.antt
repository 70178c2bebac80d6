-- ===== src/Store/NoLobs.antt =====
-- crates/db-core/src/store/segment.rs: a batch without large objects always becomes a segment.
use reldex.Base.{
  ℕ, ◌≡◌, refl, ap, ◌⊎◌, inl, inr, Bool-cases, true, false, any, List, [], ◌∷◌, arith,
}
use reldex.Driver.Error.{DbResult, ok, err}
use reldex.Driver.Nulls.{NullMask}
use reldex.Driver.Rows.{ColumnData, Column, RowBatch, batch_value}
use reldex.Store.Ids.{SessionId, unowned}
use reldex.Store.Segment.{Storage, SegmentColumn, ResultSegment, segment_value}
use reldex.Store.Compact.{
  Spent, Park, Layout, cons_column, compact_column, compact_columns, segment_of, compact_batch,
  is_lob_column, never_parks, keep_or_empty, compact,
}
use reldex.Store.Faithful.{AreColumns}
use reldex.Store.Faithful.{SameRead}
use reldex.Store.Same.{compact_batch-SameRead}

-- An outcome that is not an error.
abbrev Succeeds {ℓ} : {A : Type ℓ} → DbResult A → Type ℓ
Succeeds {A = A} r = (a : A) × (r ≡ ok a)

module _ {S : Type 0} (park : Park S) where
  compact_column-Succeeds :
      (s : S) (c : Column) (spent : Spent)
      → is_lob_column c ≡ false
      → Succeeds (compact_column park s c.values c.nulls spent).1
  unfolding compact_column
  compact_column-Succeeds s c spent h = by_kind c.values h
    where
      by_kind :
          (d : ColumnData)
          → elim d [ ColumnData.lob v ↦ true | _ ↦ false ] ≡ false
          → Succeeds (compact_column park s d c.nulls spent).1
      by_kind (ColumnData.boolean v) e = (_, refl)
      by_kind (ColumnData.number v) e = (_, refl)
      by_kind (ColumnData.float v) e = (_, refl)
      by_kind (ColumnData.double v) e = (_, refl)
      by_kind (ColumnData.text v) e = (_, refl)
      by_kind (ColumnData.bytes v) e = (_, refl)
      by_kind (ColumnData.timestamp v) e = (_, refl)
      by_kind (ColumnData.json v) e = (_, refl)
      by_kind (ColumnData.unsupported v) e = (_, refl)
      by_kind (ColumnData.lob v) e = absurd (cc)

  cons_column-Succeeds :
      (nulls : NullMask) (storage : Storage) (s : S) (r : DbResult (List SegmentColumn))
      → Succeeds r
      → Succeeds (cons_column park nulls storage (s, r)).1
  cons_column-Succeeds nulls storage s (ok columns) h = (_, refl)
  cons_column-Succeeds nulls storage s (err e) (columns, h) = cc

  compact_columns-Succeeds :
      (s : S) (cs : List Column) (spent : Spent)
      → any is_lob_column cs ≡ false
      → Succeeds (compact_columns park s cs spent).1
  unfolding compact_columns
  compact_columns-Succeeds s [] spent h = ([], refl)
  compact_columns-Succeeds s (c ∷ cs) spent h =
      let ((storage, spent'), made) = compact_column-Succeeds s c spent (ground (arith, h)) in
      rw (made, compact_columns)
        (cons_column-Succeeds c.nulls storage _ _ (
          compact_columns-Succeeds (compact_column park s c.values c.nulls spent).0 cs spent'
            (ground (arith, h))))

  segment_of-Succeeds :
      (l : Layout) (session : SessionId) (rows : ℕ) (s : S) (r : DbResult (List SegmentColumn))
      → Succeeds r
      → (segment : ResultSegment) × ((segment_of park l session rows (s, r)).1 ≡ ok segment)
        × (segment.rows ≡ rows)
  segment_of-Succeeds l session rows s (ok columns) h = (_, refl, refl)
  segment_of-Succeeds l session rows s (err e) (columns, h) = cc

-- Nothing of a batch is ever lost. If a column of it holds large objects it is given back as it is; if
-- none does it becomes a segment of as many rows, which reads as the batch does. The columns have masks
-- of their own lengths and numbers in normal form.
pub compact-SameRead :
    (l : Layout) (batch : RowBatch)
    → AreColumns batch.columns
    → ((any is_lob_column batch.columns ≡ true) × (compact l batch ≡ inr batch))
      ⊎ ((any is_lob_column batch.columns ≡ false)
          × (segment : ResultSegment) × (compact l batch ≡ inl segment)
          × (segment.rows ≡ batch.row_count)
          × ((row column : ℕ)
              → SameRead never_parks unowned row
                  (batch_value batch row column)
                  (segment_value segment row column)))
unfolding compact compact_batch
compact-SameRead l batch h = elim (Bool-cases (any is_lob_column batch.columns)) [
  | inl lobs ↦ inl (lobs, rw lobs refl)
  | inr none_of ↦
      let (segment, made, rows) =
        segment_of-Succeeds never_parks l unowned batch.row_count _ _
          (compact_columns-Succeeds never_parks tt batch.columns [] none_of) in
      inr (
        none_of,
        segment,
        rw none_of (ap (keep_or_empty batch) made),
        rows,
        compact_batch-SameRead never_parks unowned l tt batch segment h made,
      )
]
