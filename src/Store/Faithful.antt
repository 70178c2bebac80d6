-- ===== src/Store/Faithful.antt =====
-- crates/db-core/src/store/segment.rs: a segment reads like the batch that it was made of.
use reldex.Base.{
  ℕ, zero, suc, ◌+◌, ◌≡◌, refl, sym, ap, subst, ◌∙◌, inl, inr, true, false, Option, none, some,
  List, [], ◌∷◌, arith, get_elem?, Bool-cases, Option-cases,
}
use reldex.Base.Int.{ℤ, pos}
use reldex.Decimal.Number.{Number}
use reldex.Decimal.Canonical.{IsNormal}
use reldex.Decimal.Scaled.{ScaledNumber, from_number, to_number}
use reldex.Decimal.Scaled
use reldex.Decimal.Mantissa.{IsScaled}
use reldex.Decimal.Exact.{from_number_iff}
use reldex.Driver.Error.{ok}
use reldex.Driver.Vectors.{Vec}
use reldex.Driver.Nulls.{NullMask, is_null}
use reldex.Driver.Texts.{TextColumn, get_text}
use reldex.Driver.Bytes.{BytesColumn, get_bytes}
use reldex.Driver.Rows.{ColumnData, Column, ValueRef, option_map, locator_value, data_len}
use reldex.Store.Ids.{SessionId, from_serial}
use reldex.Store.Segment.{NumberValue, CellValue, value_number, scaled_cell}
use reldex.Store.Compact.{Spent, Park, exact, exact_text, exact_bytes, mantissas, cons_mantissa}

-- The numbers of a column are in normal form.
abbrev pub NumbersNormal : ColumnData → Type 0
NumbersNormal (ColumnData.number v) =
    (i : ℕ) (n : Number) → get_elem? v.items i ≡ some n → IsNormal n
NumbersNormal _ = Unit {0}

-- A column as `Column::new` makes it.
abbrev pub IsColumn : Column → Type 0
IsColumn c = (data_len c.values ≡ c.nulls.len) × NumbersNormal c.values

abbrev pub AreColumns : List Column → Type 0
AreColumns [] = Unit {0}
AreColumns (c ∷ cs) = IsColumn c × AreColumns cs

pub exact-items {ℓ} :
    {A : Type ℓ} (v : Vec A) (spent : Spent) (wrap : Vec A → ColumnData)
    → (exact v spent wrap).0.items ≡ v.items
unfolding exact
exact-items v spent wrap = ground arith

pub exact_text-get_text :
    (c : TextColumn) (spent : Spent) (wrap : TextColumn → ColumnData) (row : ℕ)
    → get_text (exact_text c spent wrap).0 row ≡ get_text c row
unfolding exact_text get_text
exact_text-get_text c spent wrap row = ground arith

pub exact_bytes-get_bytes :
    (c : BytesColumn) (spent : Spent) (row : ℕ)
    → get_bytes (exact_bytes c spent).0 row ≡ get_bytes c row
unfolding exact_bytes get_bytes
exact_bytes-get_bytes c spent row = ground arith

-- A list of mantissas holds, at a row that is not NULL, the mantissa of the number there.
abbrev pub MantissaAt : Option Number → Option ℤ → ℕ → Type 0
MantissaAt none none scale = Unit {0}
MantissaAt (some n) (some m) scale =
    (x : ScaledNumber) × (from_number n scale ≡ some x) × (x.mantissa ≡ m)
MantissaAt _ _ scale = ⊥

abbrev pub Mantissas : NullMask → ℕ → List Number → ℕ → Option (List ℤ) → Type 0
Mantissas nulls row ns scale none = Unit {0}
Mantissas nulls row ns scale (some ms) =
    (i : ℕ) → is_null nulls (row + i) ≡ false → MantissaAt (get_elem? ns i) (get_elem? ms i) scale

zero_row : (nulls : NullMask) (row : ℕ) → is_null nulls (row + 0) ≡ is_null nulls row
zero_row nulls row = ap (is_null nulls) (omega arith)

next_row :
    (nulls : NullMask) (row i : ℕ) → is_null nulls (row + suc i) ≡ is_null nulls (row + 1 + i)
next_row nulls row i = ap (is_null nulls) (omega arith)

cons_null-Mantissas :
    (nulls : NullMask) (row : ℕ) (n : Number) (ns : List Number) (scale : ℕ)
    → is_null nulls row ≡ true
    → (r : Option (List ℤ)) → Mantissas nulls (row + 1) ns scale r
    → Mantissas nulls row (n ∷ ns) scale (cons_mantissa (pos 0) r)
cons_null-Mantissas nulls row n ns scale e none h = tt
cons_null-Mantissas nulls row n ns scale e (some ms) h = λ i. at i
  where
    at :
        (i : ℕ)
        → is_null nulls (row + i) ≡ false
        → MantissaAt (get_elem? (n ∷ ns) i) (get_elem? (pos 0 ∷ ms) i) scale
    at zero there = absurd (ground (arith, sym (zero_row nulls row), e, there))
    at (suc i) there = h i (sym (next_row nulls row i) ∙ there)

cons_cell-Mantissas :
    (nulls : NullMask) (row : ℕ) (n : Number) (ns : List Number) (scale : ℕ) (x : ScaledNumber)
    → from_number n scale ≡ some x
    → (r : Option (List ℤ)) → Mantissas nulls (row + 1) ns scale r
    → Mantissas nulls row (n ∷ ns) scale (cons_mantissa x.mantissa r)
cons_cell-Mantissas nulls row n ns scale x e none h = tt
cons_cell-Mantissas nulls row n ns scale x e (some ms) h = λ i. at i
  where
    at :
        (i : ℕ)
        → is_null nulls (row + i) ≡ false
        → MantissaAt (get_elem? (n ∷ ns) i) (get_elem? (x.mantissa ∷ ms) i) scale
    at zero there = (x, e, refl)
    at (suc i) there = h i (sym (next_row nulls row i) ∙ there)

pub mantissas-Mantissas :
    (nulls : NullMask) (row : ℕ) (ns : List Number) (scale : ℕ)
    → Mantissas nulls row ns scale (mantissas nulls row ns scale)
unfolding mantissas
mantissas-Mantissas nulls row [] scale = λ i present. tt
mantissas-Mantissas nulls row (n ∷ ns) scale = elim (Bool-cases (is_null nulls row)) [
  | inl e ↦
      rw (e, mantissas)
        (cons_null-Mantissas nulls row n ns scale e _
          (mantissas-Mantissas nulls (row + 1) ns scale))
  | inr e ↦ elim (Option-cases (from_number n scale)) [
    | inl gone ↦ rw (e, gone, mantissas) tt
    | inr (x, found) ↦
        rw (e, found, mantissas)
          (cons_cell-Mantissas nulls row n ns scale x found _
            (mantissas-Mantissas nulls (row + 1) ns scale))
  ]
]

new-IsScaled : (x : ScaledNumber) → IsScaled x → Scaled.new x.mantissa x.scale ≡ some x
unfolding Scaled.new
new-IsScaled x h = ground arith

module _ {S : Type 0} (park : Park S) (session : SessionId) (row : ℕ) where
  -- A cell that is read from the batch, and the cell that is read from the segment.
  abbrev pub SameCell : ValueRef → CellValue → Type 0
  SameCell ValueRef.null CellValue.null = Unit {0}
  SameCell (ValueRef.boolean a) (CellValue.boolean b) = a ≡ b
  SameCell (ValueRef.number a) (CellValue.number b) = value_number b ≡ a
  SameCell (ValueRef.float a) (CellValue.float b) = a ≡ b
  SameCell (ValueRef.double a) (CellValue.double b) = a ≡ b
  SameCell (ValueRef.text a) (CellValue.text b) = a ≡ b
  SameCell (ValueRef.bytes a) (CellValue.bytes b) = a ≡ b
  SameCell (ValueRef.timestamp a) (CellValue.timestamp b) = a ≡ b
  SameCell (ValueRef.json a) (CellValue.json b) = a ≡ b
  SameCell (ValueRef.unsupported a) (CellValue.unsupported b) = a ≡ b
  SameCell (ValueRef.lob locator) (CellValue.lob h) =
      (h.session ≡ session) × ((s : S) × ((park s row locator).1 ≡ ok h.serial))
  SameCell ValueRef.taken (CellValue.lob h) = h ≡ from_serial session 0
  SameCell _ _ = ⊥

  abbrev pub SameRead : Option ValueRef → Option CellValue → Type 0
  SameRead none none = Unit {0}
  SameRead (some a) (some b) = SameCell a b
  SameRead _ _ = ⊥

  pub SameRead-map {ℓ} :
      {A : Type ℓ} (f : A → ValueRef) (g : A → CellValue)
      → ((a : A) → SameCell (f a) (g a))
      → (o : Option A) → SameRead (option_map f o) (option_map g o)
  SameRead-map f g same none = tt
  SameRead-map f g same (some a) = same a

  pub SameRead-decimal :
      (o : Option Number)
      → SameRead
          (option_map ValueRef.number o)
          (option_map (λ n. CellValue.number (NumberValue.decimal n)) o)
  unfolding value_number
  SameRead-decimal none = tt
  SameRead-decimal (some n) = refl

  pub SameRead-scaled :
      (scale : ℕ) (o : Option Number) (m : Option ℤ)
      → ((n : Number) → o ≡ some n → IsNormal n)
      → MantissaAt o m scale
      → SameRead (option_map ValueRef.number o) (scaled_cell scale m)
  unfolding value_number Scaled.new
  SameRead-scaled scale none none normal h = tt
  SameRead-scaled scale none (some m) normal h = elim h [ ]
  SameRead-scaled scale (some n) none normal h = elim h [ ]
  SameRead-scaled scale (some n) (some m) normal (x, found, e) =
      let (fits, at_scale, back) = (from_number_iff n scale x (normal n refl)).0 found in
      subst (λ k. SameRead (some (ValueRef.number n)) (scaled_cell scale (some k))) e
        (subst (λ k. SameRead (some (ValueRef.number n)) (scaled_cell k (some x.mantissa))) at_scale
          (rw (new-IsScaled x fits) back))

  -- The ids that the locators of a column are parked under.
  abbrev pub ParkedAt : Option (Option ℕ) → Option ℕ → Type 0
  ParkedAt none none = Unit {0}
  ParkedAt (some none) (some id) = id ≡ 0
  ParkedAt (some (some locator)) (some id) = (s : S) × ((park s row locator).1 ≡ ok id)
  ParkedAt _ _ = ⊥

  pub SameRead-lob :
      (o : Option (Option ℕ)) (id : Option ℕ)
      → ParkedAt o id
      → SameRead
          (option_map locator_value o)
          (option_map (λ i. CellValue.lob (from_serial session i)) id)
  SameRead-lob none none h = tt
  SameRead-lob none (some id) h = elim h [ ]
  SameRead-lob (some none) none h = elim h [ ]
  SameRead-lob (some (some l)) none h = elim h [ ]
  SameRead-lob (some none) (some id) h = ap (from_serial session) h
  SameRead-lob (some (some l)) (some id) h = (refl, h)
