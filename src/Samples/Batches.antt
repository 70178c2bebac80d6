-- ===== src/Samples/Batches.antt =====
-- A batch of two rows that becomes a segment, and texts that are pushed onto a column.
use reldex.Base.{
  ℕ, zero, suc, ◌+◌, ◌≡◌, ◌⊎◌, refl, true, false, none, some, some-inj, List, [], ◌∷◌, any, inl,
  inr, length, get_elem?, subst,
}
use reldex.Text.{Text, codes}
use reldex.Decimal.Number.{Number}
use reldex.Decimal.Canonical.{IsNormal}
use reldex.Driver.Error.{DbResult, ok, err}
use reldex.Driver.Vectors.{exact_vec}
use reldex.Driver.Texts.{text_count, get_text}
use reldex.Driver.Kept.{push_all, fresh, push_all-get_text}
use reldex.Driver.Rows.{ColumnData, Column, RowBatch, data_len, batch_value}
use reldex.Store.Ids.{unowned}
use reldex.Store.Segment.{ResultSegment, segment_value}
use reldex.Store.Compact.{Park, Layout, compact_batch, compact, never_parks, is_lob_column}
use reldex.Store.Faithful.{AreColumns, SameRead}
use reldex.Store.Same.{compact_batch-SameRead}
use reldex.Store.NoLobs.{compact-SameRead}
use reldex.Samples.Results.{own}
use reldex.Samples.Decimals.{price_number, price_number-IsNormal}

-- A number and a large object in each of two rows.
abbrev prices : Column
prices = record {
  values = ColumnData.number (exact_vec (price_number ∷ price_number ∷ []));
  nulls = record { bits = 0 ∷ []; len = 2 };
}

abbrev pictures : Column
pictures = record {
  values = ColumnData.lob (exact_vec (some 5 ∷ none ∷ []));
  nulls = record { bits = 2 ∷ []; len = 2 };
}

abbrev priced : RowBatch
priced = record { columns = prices ∷ pictures ∷ []; row_count = 2 }

-- Each locator is parked under the next number.
abbrev counting : Park ℕ
counting n row locator = (n + 1, ok (n + 1))

abbrev sizes : Layout
sizes = record { segment_size = 48; column_size = 88 }

prices-IsNormal :
    (i : ℕ) (n : Number) → get_elem? (price_number ∷ price_number ∷ []) i ≡ some n → IsNormal n
prices-IsNormal zero n e = subst IsNormal (some-inj _ _ e) price_number-IsNormal
prices-IsNormal (suc zero) n e = subst IsNormal (some-inj _ _ e) price_number-IsNormal
prices-IsNormal (suc (suc i)) n e = cc

priced-AreColumns : AreColumns priced.columns
unfolding data_len
priced-AreColumns = ((refl, prices-IsNormal), ((refl, tt), tt))

abbrev made : DbResult ResultSegment → ResultSegment
made (ok segment) = segment
made (err e) = record { session = own; rows = 0; columns = []; accounted_bytes = 0 }

abbrev priced_segment : ResultSegment
unfolding compact_batch
priced_segment = made (compact_batch counting sizes own 0 priced).1

compact_batch-SameRead_example :
    SameRead counting own 0 (batch_value priced 0 0) (segment_value priced_segment 0 0)
unfolding priced_segment
compact_batch-SameRead_example =
    compact_batch-SameRead counting own sizes 0 priced priced_segment priced-AreColumns refl 0 0

abbrev only_prices : RowBatch
only_prices = record { columns = prices ∷ []; row_count = 2 }

compact-SameRead_example :
    ((any is_lob_column only_prices.columns ≡ true) × (compact sizes only_prices ≡ inr only_prices))
    ⊎ ((any is_lob_column only_prices.columns ≡ false)
        × (segment : ResultSegment) × (compact sizes only_prices ≡ inl segment)
        × (segment.rows ≡ only_prices.row_count)
        × ((row column : ℕ)
            → SameRead never_parks unowned row
                (batch_value only_prices row column)
                (segment_value segment row column)))
unfolding data_len
compact-SameRead_example = compact-SameRead sizes only_prices ((refl, prices-IsNormal), tt)

abbrev names : List Text
names = codes "Zoë" ∷ [] ∷ codes "Ann" ∷ []

push_all-get_text_example :
    (text_count (push_all (fresh (some (3, 2))) names) ≡ length names)
    × ((row : ℕ) → get_text (push_all (fresh (some (3, 2))) names) row ≡ get_elem? names row)
push_all-get_text_example = push_all-get_text (some (3, 2)) names
