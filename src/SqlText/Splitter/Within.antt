-- ===== src/SqlText/Splitter/Within.antt =====
-- Where the tokens of a text lie, and the texts and indices that the scans look at.
use reldex.Base.{
  ℕ, zero, suc, ◌+◌, ◌-◌, ◌≤◌, ◌<◌, ◌≡◌, refl, sym, ap, ap₂, ◌∙◌, subst, none, some, List, [], ◌∷◌,
  ◌++◌, length, get_elem?, drop, append_assoc, arith, Option-cases, some-inj, inl, inr,
}
use reldex.Text.{
  Text, byte_len, byte_len-append, len_utf8, len_utf8_pos, drop_bytes, take_bytes,
  take_bytes-append, trim_end,
}
use reldex.SqlText.Token.{Token}
use reldex.SqlText.Lexer.Cuts.{Cuts}
use reldex.SqlText.Splitter.Slash.{find_newline, last_end, trailing_line_end}

-- A token that begins at `lo` or later, has a byte, ends in the text, and begins at a character.
abbrev pub IsCut : Text → ℕ → Token → Type 0
IsCut text lo t =
    (lo ≤ t.start)
    × (t.start < t.end)
    × (t.end ≤ byte_len text)
    × (byte_len (take_bytes t.start text) ≡ t.start)

abbrev pub Within : Text → ℕ → List Token → Type 0
Within text lo [] = Unit {0}
Within text lo (t ∷ ts) = IsCut text lo t × Within text lo ts

pub Cuts-Within :
    (whole before rest : Text) (pos lo : ℕ) (ts : List Token)
    → pos ≡ byte_len before
    → lo ≤ pos
    → whole ≡ before ++ rest
    → Cuts rest pos ts
    → Within whole lo ts
Cuts-Within whole before rest pos lo [] p le w c = tt
Cuts-Within whole before rest pos lo (t ∷ ts) p le w (piece, later, e, start, end, more, c) = (
  (
    omega arith,
    omega arith,
    omega (arith, ap byte_len whole_is, byte_len-append (before ++ piece) later, size),
    ap byte_len (ap₂ take_bytes (start ∙ p) w ∙ take_bytes-append before rest) ∙ sym (start ∙ p),
  ),
  Cuts-Within whole (before ++ piece) later t.end lo ts (end ∙ omega (arith, size)) (omega arith)
      whole_is c,
)
  where
    whole_is : whole ≡ (before ++ piece) ++ later
    whole_is = w ∙ ap (λ r. before ++ r) e ∙ sym (append_assoc before piece later)

    size : byte_len (before ++ piece) ≡ byte_len before + byte_len piece
    size = byte_len-append before piece

abbrev FromHead : Text → List Token → Type 0
FromHead text [] = Unit {0}
FromHead text (t ∷ ts) = Within text t.start (t ∷ ts)

-- The tokens from one of them on begin no earlier than it does.
pub Cuts-sorted :
    (whole before rest : Text) (pos : ℕ) (ts : List Token) (i : ℕ) (t : Token) (later : List Token)
    → pos ≡ byte_len before
    → whole ≡ before ++ rest
    → Cuts rest pos ts
    → drop i ts ≡ t ∷ later
    → Within whole t.start (t ∷ later)
Cuts-sorted whole before rest pos [] zero t later p w c e = absurd (ground arith)
Cuts-sorted whole before rest pos [] (suc i) t later p w c e = absurd (ground arith)
Cuts-sorted whole before rest pos (x ∷ ts) zero t later p w c e =
    subst (FromHead whole) e
      (Cuts-Within whole before rest pos x.start (x ∷ ts) p (omega (arith, c.3)) w c)
Cuts-sorted whole before rest pos (x ∷ ts) (suc i) t later p w (piece, r, eq, start, end, more, c)
      e =
    Cuts-sorted whole (before ++ piece) r x.end ts i t later
      (end ∙ omega (arith, byte_len-append before piece))
      (w ∙ ap (λ y. before ++ y) eq ∙ sym (append_assoc before piece r)) c e

Cuts-last :
    (rest : Text) (pos : ℕ) (ts : List Token)
    → Cuts rest pos ts
    → last_end pos ts ≡ pos + byte_len rest
Cuts-last rest pos [] c = omega (arith, ap byte_len c)
Cuts-last rest pos (t ∷ ts) (piece, later, e, start, end, more, c) =
    Cuts-last later t.end ts c ∙ omega (arith, ap byte_len e, byte_len-append piece later)

pub Cuts-last_end :
    (text : Text) (ts : List Token) → Cuts text 0 ts → last_end (byte_len text) ts ≡ byte_len text
Cuts-last_end text [] c = refl
Cuts-last_end text (t ∷ ts) c = Cuts-last text 0 (t ∷ ts) c ∙ omega arith

-- Lists from an index on.
drop-suc :
    {A : Type 0} (i : ℕ) (xs : List A) (y : A) (ys : List A)
    → drop i xs ≡ y ∷ ys
    → drop (suc i) xs ≡ ys
drop-suc zero [] y ys h = absurd (ground arith)
drop-suc zero (x ∷ xs) y ys h = ap (drop 1) h
drop-suc (suc i) [] y ys h = absurd (ground arith)
drop-suc (suc i) (x ∷ xs) y ys h = drop-suc i xs y ys h

pub drop-next :
    {A : Type 0} (i : ℕ) (xs : List A) (y : A) (ys : List A)
    → drop i xs ≡ y ∷ ys
    → drop (i + 1) xs ≡ ys
drop-next i xs y ys h = ap (λ n. drop n xs) next ∙ drop-suc i xs y ys h
  where
    next : i + 1 ≡ suc i
    next = omega arith

pub Within-later :
    (text : Text) (lo i j : ℕ) (ts : List Token)
    → i ≤ j
    → Within text lo (drop i ts)
    → Within text lo (drop j ts)
Within-later text lo zero zero ts le h = h
Within-later text lo (suc i) zero ts le h = absurd (omega arith)
Within-later text lo zero (suc j) [] le h = tt
Within-later text lo zero (suc j) (t ∷ ts) le h = Within-later text lo zero j ts (omega arith) h.1
Within-later text lo (suc i) (suc j) [] le h = tt
Within-later text lo (suc i) (suc j) (t ∷ ts) le h = Within-later text lo i j ts (omega arith) h

pub drop-all : (i : ℕ) (ts : List Token) → length ts ≤ i → drop i ts ≡ []
drop-all zero [] le = refl
drop-all zero (t ∷ ts) le = absurd (omega arith)
drop-all (suc i) [] le = refl
drop-all (suc i) (t ∷ ts) le = drop-all i ts (omega arith)

pub drop-get :
    (i : ℕ) (ts : List Token) (t : Token)
    → get_elem? ts i ≡ some t
    → (later : List Token) × (drop i ts ≡ t ∷ later)
drop-get zero [] t h = absurd (ground arith)
drop-get (suc i) [] t h = absurd (ground arith)
drop-get zero (x ∷ ts) t h = (ts, ap (λ y. y ∷ ts) (some-inj x t h))
drop-get (suc i) (x ∷ ts) t h = drop-get i ts t h

pub get-none : (i : ℕ) (ts : List Token) → get_elem? ts i ≡ none → length ts ≤ i
get-none i [] h = omega arith
get-none zero (x ∷ ts) h = absurd (ground arith)
get-none (suc i) (x ∷ ts) h = omega (arith, get-none i ts h)

pub get-some : (i : ℕ) (ts : List Token) (t : Token) → get_elem? ts i ≡ some t → i < length ts
get-some i [] t h = absurd (ground arith)
get-some zero (x ∷ ts) t h = omega arith
get-some (suc i) (x ∷ ts) t h = omega (arith, get-some i ts t h)

-- The ends of lines.
byte_len-drop_bytes : (n : ℕ) (t : Text) → byte_len (drop_bytes n t) ≤ byte_len t - n
byte_len-drop_bytes n [] = omega arith
byte_len-drop_bytes n (c ∷ t) = ground (arith, byte_len-drop_bytes (n - len_utf8 c) t)

find_newline-lt : (t : Text) (p : ℕ) → find_newline t ≡ some p → p < byte_len t
unfolding find_newline
find_newline-lt [] p h = absurd (ground arith)
find_newline-lt (c ∷ t) p h = elim (Option-cases (find_newline t)) [
  | inl e ↦ ground (arith, len_utf8_pos c)
  | inr found ↦ ground (arith, len_utf8_pos c, find_newline-lt t found.0 found.1, found.1)
]

pub trailing_line_end-bounds :
    (text : Text) (from : ℕ)
    → from ≤ byte_len text
    → (from ≤ trailing_line_end text from) × (trailing_line_end text from ≤ byte_len text)
unfolding trailing_line_end
trailing_line_end-bounds text from le = elim (Option-cases (find_newline (drop_bytes from text))) [
  | inl e ↦ (ground arith, ground arith)
  | inr (p, e) ↦
      let lt = find_newline-lt (drop_bytes from text) p e in
      let size = byte_len-drop_bytes from text in (ground arith, ground arith)
]

pub trim_end-le : (t : Text) → byte_len (trim_end t) ≤ byte_len t
unfolding trim_end
trim_end-le [] = omega arith
trim_end-le (c ∷ t) = ground (arith, trim_end-le t)
