-- ===== src/Driver/Kept.antt =====
-- crates/db-driver-api/src/result.rs: a text column gives back the texts that were pushed onto it.
use reldex.Base.{
  ℕ, zero, suc, ◌+◌, ◌≡◌, refl, sym, ap, subst, ◌∙◌, ◌⊎◌, inl, inr, Option, none, some, List, [],
  ◌∷◌, ◌++◌, append_assoc, append-nil, arith, length, get_elem?, Option-cases,
}
use reldex.Text.{Text, byte_len, byte_len-append, get_slice-append}
use reldex.Driver.Vectors.{push}
use reldex.Driver.Texts.{
  TextColumn, new_texts, texts_with_capacity, with_first_offset, push_str, push_text, get_text,
  text_count,
}

-- A column that nothing was pushed onto yet, with the places that it was made with, if any.
abbrev pub fresh : Option (ℕ × ℕ) → TextColumn
unfolding texts_with_capacity
fresh none = new_texts
fresh (some (rows, bytes)) = texts_with_capacity rows bytes

unfoldable pub push_all : TextColumn → List Text → TextColumn
unfolding push_text
push_all c [] = c
push_all c (t ∷ ts) = push_all (push_text c t) ts

abbrev joined : List Text → Text
joined [] = []
joined (t ∷ ts) = t ++ joined ts

-- Where each text begins, and where the last ends.
abbrev ends : ℕ → List Text → List ℕ
ends start [] = start ∷ []
ends start (t ∷ ts) = start ∷ ends (start + byte_len t) ts

joined-append : (ts : List Text) (t : Text) → joined (ts ++ (t ∷ [])) ≡ joined ts ++ t
joined-append [] t = append-nil t
joined-append (x ∷ ts) t =
    ap (λ y. x ++ y) (joined-append ts t) ∙ sym (append_assoc x (joined ts) t)

ends-append :
    (start : ℕ) (ts : List Text) (t : Text)
    → ends start (ts ++ (t ∷ []))
      ≡ ends start ts ++ ((start + byte_len (joined ts) + byte_len t) ∷ [])
ends-append start [] t = ap (λ n. start ∷ n ∷ []) (omega arith)
ends-append start (x ∷ ts) t =
    ap (λ l. start ∷ l)
      (ends-append (start + byte_len x) ts t
        ∙ ap (λ n. ends (start + byte_len x) ts ++ (n ∷ []))
            (omega (arith, byte_len-append x (joined ts))))

ends-first : (start : ℕ) (ts : List Text) → get_elem? (ends start ts) 0 ≡ some start
ends-first start [] = refl
ends-first start (t ∷ ts) = refl

length-ends : (start : ℕ) (ts : List Text) → length (ends start ts) ≡ length ts + 1
length-ends start [] = refl
length-ends start (t ∷ ts) = omega (arith, length-ends (start + byte_len t) ts)

abbrev column_at : Text → List ℕ → TextColumn
column_at text offsets = record {
  buffer = record { text = text; capacity = 0 };
  offsets = record { items = offsets; capacity = 0 };
}

suc-add_one : (n : ℕ) → suc n + 1 ≡ suc (n + 1)
suc-add_one n = omega arith

get_text-later :
    (text : Text) (start : ℕ) (offsets : List ℕ) (row : ℕ)
    → get_text (column_at text (start ∷ offsets)) (suc row) ≡ get_text (column_at text offsets) row
unfolding get_text
get_text-later text start offsets row = elim (Option-cases (get_elem? offsets row)) [
  | inl past ↦ rw past refl
  | inr (o, found) ↦ rw (found, suc-add_one row) refl
]

get_text-ends :
    (before : Text) (ts : List Text) (row : ℕ)
    → get_text (column_at (before ++ joined ts) (ends (byte_len before) ts)) row ≡ get_elem? ts row
unfolding get_text
get_text-ends before [] zero = refl
get_text-ends before [] (suc row) = refl
get_text-ends before (t ∷ ts) zero =
    rw (ends-first (byte_len before + byte_len t) ts, get_text)
      (get_slice-append before t (joined ts))
get_text-ends before (t ∷ ts) (suc row) =
    get_text-later _ _ _ row
    ∙ ap (λ x. get_text (column_at x (ends (byte_len before + byte_len t) ts)) row)
        (sym (append_assoc before t (joined ts)))
    ∙ ap (λ n. get_text (column_at ((before ++ t) ++ joined ts) (ends n ts)) row)
        (sym (byte_len-append before t))
    ∙ get_text-ends (before ++ t) ts row

-- A column that holds some texts: no offset is written before the first of them unless the column
-- was made with places.
record Holds (c : TextColumn) (ts : List Text) : Type 0 where
  text : c.buffer.text ≡ joined ts
  offsets : (c.offsets.items ≡ ends 0 ts) ⊎ ((c.offsets.items ≡ []) × (ts ≡ []))

fresh-Holds : (places : Option (ℕ × ℕ)) → Holds (fresh places) []
unfolding fresh
fresh-Holds none = record { text = refl; offsets = inr (refl, refl) }
fresh-Holds (some (rows, bytes)) = record { text = refl; offsets = inl refl }

begun :
    (c : TextColumn) (ts : List Text)
    → Holds c ts
    → (with_first_offset c.offsets c.offsets.items).items ≡ ends 0 ts
unfolding push
begun c ts h = elim h.offsets [
  | inl e ↦ kept c.offsets.items refl e
  | inr (none_yet, empty) ↦ rw (none_yet, empty) refl
]
  where
    kept :
        (items : List ℕ)
        → c.offsets.items ≡ items
        → c.offsets.items ≡ ends 0 ts
        → (with_first_offset c.offsets items).items ≡ ends 0 ts
    kept [] e f = ap (λ l. l ++ (0 ∷ [])) e ∙ absurd (no_ends ts (sym f ∙ e))
      where
        no_ends : (ts : List Text) → ends 0 ts ≡ [] → ⊥
        no_ends [] e = cc
        no_ends (t ∷ ts) e = cc
    kept (o ∷ os) e f = f

push_text-Holds :
    (c : TextColumn) (ts : List Text) (t : Text)
    → Holds c ts
    → Holds (push_text c t) (ts ++ (t ∷ []))
unfolding push_text push_str push
push_text-Holds c ts t h = record {
  text = ap (λ x. x ++ t) h.text ∙ sym (joined-append ts t);
  offsets = inl (
      ap (λ l. l ++ (byte_len (c.buffer.text ++ t) ∷ [])) (begun c ts h)
      ∙ ap (λ n. ends 0 ts ++ (n ∷ []))
          (omega (arith, byte_len-append c.buffer.text t, ap byte_len h.text))
      ∙ sym (ends-append 0 ts t));
}

push_all-Holds :
    (c : TextColumn) (before ts : List Text) → Holds c before → Holds (push_all c ts) (before ++ ts)
unfolding push_all
push_all-Holds c before [] h = subst (Holds c) (sym (append-nil before)) h
push_all-Holds c before (t ∷ ts) h =
    subst (Holds (push_all (push_text c t) ts)) (append_assoc before (t ∷ []) ts)
      (push_all-Holds (push_text c t) (before ++ (t ∷ [])) ts (push_text-Holds c before t h))

get_text-column_at :
    (c : TextColumn) (text : Text) (offsets : List ℕ) (row : ℕ)
    → c.buffer.text ≡ text
    → c.offsets.items ≡ offsets
    → get_text c row ≡ get_text (column_at text offsets) row
unfolding get_text
get_text-column_at c text offsets row e f =
    ap (λ x. get_text (column_at x c.offsets.items) row) e
    ∙ ap (λ l. get_text (column_at text l) row) f

get_text-Holds :
    (c : TextColumn) (ts : List Text) (row : ℕ) → Holds c ts → get_text c row ≡ get_elem? ts row
unfolding get_text
get_text-Holds c ts row h = elim h.offsets [
  | inl e ↦ get_text-column_at c (joined ts) (ends 0 ts) row h.text e ∙ get_text-ends [] ts row
  | inr (none_yet, empty) ↦
      get_text-column_at c (joined ts) [] row h.text none_yet
      ∙ ap (λ l. get_elem? l row) (sym empty)
]

text_count-Holds : (c : TextColumn) (ts : List Text) → Holds c ts → text_count c ≡ length ts
unfolding text_count
text_count-Holds c ts h = elim h.offsets [
  | inl e ↦ omega (arith, ap length e, length-ends 0 ts)
  | inr (none_yet, empty) ↦ omega (arith, ap length none_yet, ap length empty)
]

-- Whatever texts are pushed onto a new column, one behind the other, with or without places made
-- before, it has as many rows as there were texts, and reads each of them back at its row: its bytes
-- lie between two character boundaries of the buffer; and past them it reads nothing.
pub push_all-get_text :
    (places : Option (ℕ × ℕ)) (ts : List Text)
    → (text_count (push_all (fresh places) ts) ≡ length ts)
      × ((row : ℕ) → get_text (push_all (fresh places) ts) row ≡ get_elem? ts row)
push_all-get_text places ts =
    let h = push_all-Holds (fresh places) [] ts (fresh-Holds places) in
    (text_count-Holds _ ts h, λ row. get_text-Holds _ ts row h)
