-- ===== src/Store/Reads.antt =====
-- crates/db-core/src/store/segment.rs: `compact_batch` loses no cell of a batch.
use reldex.Base.{
  ℕ, zero, suc, ◌+◌, ◌≡◌, refl, ap, subst, ◌∙◌, inl, inr, false, Option, none, some, List, [], ◌∷◌,
  arith, length, get_elem?, Option-cases,
}
use reldex.Base.Int.{ℤ}
use reldex.Decimal.Number.{Number}
use reldex.Driver.Error.{DbResult, ok, err}
use reldex.Driver.Vectors.{Vec}
use reldex.Driver.Nulls.{NullMask, is_null}
use reldex.Driver.Texts.{get_text}
use reldex.Driver.Bytes.{get_bytes}
use reldex.Driver.Rows.{ColumnData, ValueRef, option_map, present_value}
use reldex.Store.Ids.{SessionId}
use reldex.Store.Segment.{Storage, CellValue, number_cell, scaled_cell, stored_value}
use reldex.Store.Compact.{
  Spent, Park, common_scale, mantissas, compact_numbers, cons_id, park_all, lob_storage,
  compact_column, keep_decimal,
}
use reldex.Store.Faithful.{
  NumbersNormal, exact-items, exact_text-get_text, exact_bytes-get_bytes, Mantissas,
  mantissas-Mantissas, SameRead, SameRead-map, SameRead-decimal, SameRead-scaled, ParkedAt,
  SameRead-lob,
}

module _ {S : Type 0} (park : Park S) (session : SessionId) where
  abbrev Ids : ℕ → List (Option ℕ) → DbResult (List ℕ) → Type 0
  Ids row slots (err e) = Unit {0}
  Ids row slots (ok ids) =
      (i : ℕ) → ParkedAt park session (row + i) (get_elem? slots i) (get_elem? ids i)

  cons_id-Ids :
      (row : ℕ) (slot : Option ℕ) (slots : List (Option ℕ)) (id : ℕ)
      → ParkedAt park session row (some slot) (some id)
      → (s : S) (r : DbResult (List ℕ)) → Ids (row + 1) slots r
      → Ids row (slot ∷ slots) (cons_id park id (s, r)).1
  cons_id-Ids row slot slots id first s (err e) h = tt
  cons_id-Ids row slot slots id first s (ok ids) h = λ i. at i
    where
      at :
          (i : ℕ)
          → ParkedAt park session (row + i) (get_elem? (slot ∷ slots) i) (get_elem? (id ∷ ids) i)
      at zero = subst (λ r. ParkedAt park session r (some slot) (some id)) (omega arith) first
      at (suc i) =
          subst (λ r. ParkedAt park session r (get_elem? slots i) (get_elem? ids i)) (omega arith)
            (h i)

  park_all-Ids :
      (s : S) (row : ℕ) (slots : List (Option ℕ)) → Ids row slots (park_all park s row slots).1
  unfolding park_all
  park_all-Ids s row [] = λ i. tt
  park_all-Ids s row (none ∷ slots) =
      cons_id-Ids row none slots 0 refl _ _ (park_all-Ids s (row + 1) slots)
  park_all-Ids s row (some locator ∷ slots) =
      parked (λ s'. park_all-Ids s' (row + 1) slots) (park s row locator).1 refl
    where
      parked :
          ((s' : S) → Ids (row + 1) slots (park_all park s' (row + 1) slots).1)
          → (r : DbResult ℕ) → (park s row locator).1 ≡ r
          → Ids row (some locator ∷ slots) (park_all park s row (some locator ∷ slots)).1
      parked rest (err e) h = rw (h, park_all) tt
      parked rest (ok id) h =
          rw (h, park_all)
            (cons_id-Ids row (some locator) slots id (s, h) _ _ (rest (park s row locator).0))

  abbrev pub ColumnReads : ColumnData → NullMask → DbResult (Storage × Spent) → Type 0
  ColumnReads values nulls (err e) = Unit {0}
  ColumnReads values nulls (ok (storage, spent)) =
      (row : ℕ)
      → is_null nulls row ≡ false
      → SameRead park session row (present_value values row) (stored_value session storage row)

  lob_storage-ColumnReads :
      (v : Vec (Option ℕ)) (nulls : NullMask) (spent : Spent) (s : S) (r : DbResult (List ℕ))
      → Ids 0 v.items r
      → ColumnReads (ColumnData.lob v) nulls (lob_storage park (length v.items) spent (s, r)).1
  unfolding present_value stored_value
  lob_storage-ColumnReads v nulls spent s (err e) h = tt
  lob_storage-ColumnReads v nulls spent s (ok ids) h = λ row there.
      SameRead-lob park session row _ _ (
        subst (λ r. ParkedAt park session r (get_elem? v.items row) (get_elem? ids row))
          (omega arith) (h row))

  compact_numbers-ColumnReads :
      (v : Vec Number) (nulls : NullMask) (spent : Spent)
      → NumbersNormal (ColumnData.number v)
      → (row : ℕ) → is_null nulls row ≡ false
      → SameRead park session row
          (present_value (ColumnData.number v) row)
          (number_cell (compact_numbers v nulls spent).0 row)
  unfolding present_value compact_numbers
  compact_numbers-ColumnReads v nulls spent normal row there =
      elim (Option-cases (common_scale nulls 0 v.items 0)) [
        | inl gone ↦ rw (gone, compact_numbers) decimal
        | inr (scale, found) ↦ elim (Option-cases (mantissas nulls 0 v.items scale)) [
          | inl gone ↦ rw (found, gone, compact_numbers) decimal
          | inr (ms, made) ↦ rw (found, made, compact_numbers) (scaled scale ms made)
        ]
      ]
    where
      decimal :
          SameRead park session row
            (option_map ValueRef.number (get_elem? v.items row))
            (number_cell (keep_decimal v spent).0 row)
      decimal =
          rw (exact-items v spent ColumnData.number)
            (SameRead-decimal park session row (get_elem? v.items row))

      scaled :
          (scale : ℕ) (ms : List ℤ)
          → mantissas nulls 0 v.items scale ≡ some ms
          → SameRead park session row
              (option_map ValueRef.number (get_elem? v.items row))
              (scaled_cell scale (get_elem? ms row))
      scaled scale ms made =
          SameRead-scaled park session row scale (get_elem? v.items row) (get_elem? ms row)
            (normal row)
            (subst (Mantissas nulls 0 v.items scale) made
              (mantissas-Mantissas nulls 0 v.items scale) row
              (ap (is_null nulls) (omega arith) ∙ there))

  pub compact_column-ColumnReads :
      (s : S) (values : ColumnData) (nulls : NullMask) (spent : Spent)
      → NumbersNormal values
      → ColumnReads values nulls (compact_column park s values nulls spent).1
  unfolding compact_column present_value stored_value
  compact_column-ColumnReads s (ColumnData.boolean v) nulls spent normal = λ row there.
      rw (exact-items v spent ColumnData.boolean) (
        SameRead-map park session row ValueRef.boolean CellValue.boolean (λ a. refl)
          (get_elem? v.items row))
  compact_column-ColumnReads s (ColumnData.number v) nulls spent normal =
      compact_numbers-ColumnReads v nulls spent normal
  compact_column-ColumnReads s (ColumnData.float v) nulls spent normal = λ row there.
      rw (exact-items v spent ColumnData.float) (
        SameRead-map park session row ValueRef.float CellValue.float (λ a. refl)
          (get_elem? v.items row))
  compact_column-ColumnReads s (ColumnData.double v) nulls spent normal = λ row there.
      rw (exact-items v spent ColumnData.double) (
        SameRead-map park session row ValueRef.double CellValue.double (λ a. refl)
          (get_elem? v.items row))
  compact_column-ColumnReads s (ColumnData.text c) nulls spent normal = λ row there.
      rw (exact_text-get_text c spent ColumnData.text row)
        (SameRead-map park session row ValueRef.text CellValue.text (λ a. refl) (get_text c row))
  compact_column-ColumnReads s (ColumnData.bytes c) nulls spent normal = λ row there.
      rw (exact_bytes-get_bytes c spent row)
        (SameRead-map park session row ValueRef.bytes CellValue.bytes (λ a. refl) (get_bytes c row))
  compact_column-ColumnReads s (ColumnData.timestamp v) nulls spent normal = λ row there.
      rw (exact-items v spent ColumnData.timestamp) (
        SameRead-map park session row ValueRef.timestamp CellValue.timestamp (λ a. refl)
          (get_elem? v.items row))
  compact_column-ColumnReads s (ColumnData.json c) nulls spent normal = λ row there.
      rw (exact_text-get_text c spent ColumnData.json row)
        (SameRead-map park session row ValueRef.json CellValue.json (λ a. refl) (get_text c row))
  compact_column-ColumnReads s (ColumnData.unsupported c) nulls spent normal = λ row there.
      rw (exact_text-get_text c spent ColumnData.unsupported row) (
        SameRead-map park session row ValueRef.unsupported CellValue.unsupported (λ a. refl)
          (get_text c row))
  compact_column-ColumnReads s (ColumnData.lob v) nulls spent normal =
      lob_storage-ColumnReads v nulls spent _ _ (park_all-Ids s 0 v.items)
