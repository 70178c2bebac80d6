-- ===== src/SqlText/Lexer/Moves.antt =====
-- Every scan of the lexer moves the cursor over whole characters, and counts their bytes.
use reldex.Base.{
  ℕ, ◌+◌, ◌≤◌, ◌<◌, ◌≡◌, refl, sym, ap, ◌∙◌, inl, inr, Bool, true, false, ◌&&◌, ◌||◌, [], ◌∷◌, ◌++◌,
  append_assoc, arith, ◌==◌, Bool-cases, if◌then◌else◌,
}
use reldex.Text.{
  Text, len_utf8, len_utf8_pos, byte_len, byte_len-append, starts_with, is_ascii_digit,
}
use reldex.SqlText.Lexer.Cursor.{
  Cursor, peek, peek2, first, holds, bump, advance, bump_while_in, bump_while, scan_quoted_in,
  scan_simple_quoted, scan_block_comment_in, scan_block_comment, scan_q_string_in, scan_q_string,
  maybe_exponent, whole_number, scan_number,
}
use reldex.SqlText.Lexer.Boundary.{IsBoundary, drop_bytes-IsBoundary, starts_with-IsBoundary}

-- `c'` stands further on in the text of `c`, at the offset that its position says.
pub record Moves (c c' : Cursor) : Type 0 where
  pub taken : Text
  pub rest_eq : c.rest ≡ taken ++ c'.rest
  pub pos_eq : c'.pos ≡ c.pos + byte_len taken

pub Moves-refl : (c : Cursor) → Moves c c
Moves-refl c = record { taken = []; rest_eq = refl; pos_eq = omega arith }

pub Moves-trans : {a b c : Cursor} → Moves a b → Moves b c → Moves a c
Moves-trans {c = c} m n = record {
  taken = m.taken ++ n.taken;
  rest_eq = m.rest_eq ∙ ap (◌++◌ m.taken) n.rest_eq ∙ sym (append_assoc m.taken n.taken c.rest);
  pos_eq = omega (arith, m.pos_eq, n.pos_eq, byte_len-append m.taken n.taken);
}

pub Moves-le : {c c' : Cursor} → Moves c c' → c.pos ≤ c'.pos
Moves-le m = omega (arith, m.pos_eq)

-- Over the first character.
pub Moves-cons :
    (c : ℕ) (t : Text) (pos : ℕ) {c' : Cursor}
    → Moves (record { rest = t; pos = pos + len_utf8 c }) c'
    → Moves (record { rest = c ∷ t; pos = pos }) c'
Moves-cons c t pos m = record {
  taken = c ∷ m.taken;
  rest_eq = ap (◌∷◌ c) m.rest_eq;
  pos_eq = omega (arith, m.pos_eq);
}

pub advance-Moves : {n : ℕ} (c : Cursor) → IsBoundary n c.rest → Moves c (advance n c)
advance-Moves c b = record {
  taken = b.before;
  rest_eq = b.splits ∙ ap (◌++◌ b.before) (sym (drop_bytes-IsBoundary b));
  pos_eq = omega (arith, b.measures);
}

bump-Moves_in :
    (t : Text) (pos : ℕ)
    → Moves (record { rest = t; pos = pos }) (bump (record { rest = t; pos = pos }))
bump-Moves_in [] pos = Moves-refl _
bump-Moves_in (c ∷ t) pos = Moves-cons c t pos (Moves-refl _)

pub bump-Moves : (c : Cursor) → Moves c (bump c)
bump-Moves c = bump-Moves_in c.rest c.pos

pub bump_while_in-Moves :
    (test : ℕ → Bool) (t : Text) (pos : ℕ)
    → Moves (record { rest = t; pos = pos }) (bump_while_in test t pos)
bump_while_in-Moves test [] pos = Moves-refl _
bump_while_in-Moves test (c ∷ t) pos = elim (Bool-cases (test c)) [
  | inl e ↦ rw e (Moves-cons c t pos (bump_while_in-Moves test t (pos + len_utf8 c)))
  | inr e ↦ rw e (Moves-refl _)
]

pub bump_while-Moves : (test : ℕ → Bool) (c : Cursor) → Moves c (bump_while test c)
unfolding bump_while
bump_while-Moves test c = bump_while_in-Moves test c.rest c.pos

pub scan_quoted_in-Moves :
    (quote : ℕ) (t : Text) (pos : ℕ)
    → Moves (record { rest = t; pos = pos }) (scan_quoted_in quote t pos).0
unfolding scan_quoted_in
scan_quoted_in-Moves quote [] pos = Moves-refl _
scan_quoted_in-Moves quote (c ∷ []) pos = Moves-cons c [] pos (Moves-refl _)
scan_quoted_in-Moves quote (c ∷ d ∷ t) pos = elim (Bool-cases (c == quote)) [
  | inr other ↦
      rw (other, scan_quoted_in)
        (Moves-cons c (d ∷ t) pos (scan_quoted_in-Moves quote (d ∷ t) (pos + len_utf8 c)))
  | inl first_one ↦ elim (Bool-cases (d == quote)) [
    | inr closed ↦ rw (first_one, scan_quoted_in, closed) (Moves-cons c (d ∷ t) pos (Moves-refl _))
    | inl twice ↦
        rw (first_one, scan_quoted_in, twice)
          (Moves-cons c (d ∷ t) pos (
            Moves-cons d t (pos + len_utf8 c)
              (scan_quoted_in-Moves quote t (pos + len_utf8 c + len_utf8 d))))
  ]
]

pub scan_simple_quoted-Moves : (c : Cursor) (quote : ℕ) → Moves c (scan_simple_quoted c quote).0
unfolding scan_simple_quoted
scan_simple_quoted-Moves c quote = scan_quoted_in-Moves quote c.rest c.pos

scan_block_comment_in-Moves :
    (close t : Text) (pos : ℕ)
    → Moves (record { rest = t; pos = pos }) (scan_block_comment_in close t pos).0
unfolding scan_block_comment_in
scan_block_comment_in-Moves close [] pos = Moves-refl _
scan_block_comment_in-Moves close (c ∷ t) pos = elim (Bool-cases (starts_with (c ∷ t) close)) [
  | inl e ↦ rw (e, scan_block_comment_in) (advance-Moves _ (starts_with-IsBoundary (c ∷ t) close e))
  | inr e ↦
      rw (e, scan_block_comment_in)
        (Moves-cons c t pos (scan_block_comment_in-Moves close t (pos + len_utf8 c)))
]

pub scan_block_comment-Moves : (c : Cursor) (close : Text) → Moves c (scan_block_comment c close).0
unfolding scan_block_comment
scan_block_comment-Moves c close = scan_block_comment_in-Moves close c.rest c.pos

scan_q_string_in-Moves :
    (closing : ℕ) (t : Text) (pos : ℕ)
    → Moves (record { rest = t; pos = pos }) (scan_q_string_in closing t pos).0
unfolding scan_q_string_in
scan_q_string_in-Moves closing [] pos = Moves-refl _
scan_q_string_in-Moves closing (c ∷ t) pos =
    elim (Bool-cases (c == closing && holds (λ d. d == b'\'') (first t))) [
      | inl e ↦ rw (e, scan_q_string_in) (Moves-cons c t pos (bump-Moves _))
      | inr e ↦
          rw (e, scan_q_string_in)
            (Moves-cons c t pos (scan_q_string_in-Moves closing t (pos + len_utf8 c)))
    ]

pub scan_q_string-Moves : (c : Cursor) (closing : ℕ) → Moves c (scan_q_string c closing).0
unfolding scan_q_string
scan_q_string-Moves c closing = scan_q_string_in-Moves closing c.rest c.pos

-- One of two cursors that can both be reached.
pub if-Moves :
    {c a b : Cursor} (test : Bool) → Moves c a → Moves c b → Moves c (if test then a else b)
if-Moves true m n = m
if-Moves false m n = n

pub maybe_exponent-Moves : (c : Cursor) → Moves c (maybe_exponent c)
unfolding maybe_exponent
maybe_exponent-Moves c =
    if-Moves _
      (Moves-trans (bump-Moves c) (
        Moves-trans (if-Moves _ (bump-Moves _) (Moves-refl _)) (bump_while-Moves is_ascii_digit _)))
      (Moves-refl c)

abbrev at_point : Cursor → Bool
at_point c = holds (λ x. x == b'.') (peek c)

-- Behind the point of a number.
fraction-Moves : (c : Cursor) → Moves c (maybe_exponent (bump_while is_ascii_digit (bump c)))
fraction-Moves c =
    Moves-trans (bump-Moves c)
      (Moves-trans (bump_while-Moves is_ascii_digit (bump c)) (maybe_exponent-Moves _))

whole-Moves : (c : Cursor) → Moves c (whole_number c)
unfolding whole_number
whole-Moves c =
    if-Moves (at_point c && holds is_ascii_digit (peek2 c)) (fraction-Moves c)
      (maybe_exponent-Moves c)

pub scan_number-Moves : (c : Cursor) → Moves c (scan_number c)
unfolding scan_number
scan_number-Moves c =
    if-Moves (at_point c) (fraction-Moves c)
      (Moves-trans (bump_while-Moves is_ascii_digit c) (whole-Moves _))

-- A cursor that is not at its end.
abbrev pub at : ℕ → Text → ℕ → Cursor
at ch t pos = record { rest = ch ∷ t; pos = pos }

-- Over the current character a cursor moves.
pub bump-lt :
    (ch : ℕ) (t : Text) (pos : ℕ) {c : Cursor} → Moves (bump (at ch t pos)) c → pos < c.pos
bump-lt ch t pos m = omega (arith, Moves-le m, len_utf8_pos ch)

pub bump_while-lt :
    (test : ℕ → Bool) (ch : ℕ) (t : Text) (pos : ℕ) {c : Cursor}
    → test ch ≡ true
    → Moves (bump_while test (at ch t pos)) c
    → pos < c.pos
unfolding bump_while
bump_while-lt test ch t pos h m = omega (
  arith,
  Moves-le m,
  Moves-le (bump_while_in-Moves test t (pos + len_utf8 ch)),
  len_utf8_pos ch,
  ap (λ b. (if b then bump_while_in test t (pos + len_utf8 ch) else at ch t pos).pos) h,
)

pub scan_number-lt :
    (ch : ℕ) (t : Text) (pos : ℕ)
    → (is_ascii_digit ch || (ch == b'.' && holds is_ascii_digit (first t))) ≡ true
    → pos < (scan_number (at ch t pos)).pos
unfolding scan_number
scan_number-lt ch t pos h = elim (Bool-cases (ch == b'.')) [
  | inl point ↦
      rw point (
        bump-lt ch t pos (Moves-trans (bump_while-Moves is_ascii_digit _) (maybe_exponent-Moves _)))
  | inr other ↦ rw other (bump_while-lt is_ascii_digit ch t pos (ground arith) (whole-Moves _))
]
