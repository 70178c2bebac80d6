-- ===== src/SqlText/Lexer/Open.antt =====
-- A construct stays open only at the end of the text that was scanned.
use reldex.Base.{
  ℕ, ◌+◌, ◌≡◌, refl, ap, ◌⊎◌, inl, inr, Bool, true, false, ◌&&◌, Option, none, some, [], ◌∷◌, arith,
  ◌==◌, any, Bool-cases, if◌then◌else◌,
}
use reldex.Text.{Text, Unicode, is_alphabetic, len_utf8, starts_with}
use reldex.SqlText.Dialect.{SqlDialect, has_word}
use reldex.SqlText.Token.{TokenKind, comment, string, quoted_identifier}
use reldex.SqlText.Token.State.{Mode, normal, block_comment, single_quoted, double_quoted, q_string}
use reldex.SqlText.Lexer.Cursor.{
  Cursor, Scan, first, holds, advance, scan_quoted_in, scan_simple_quoted, scan_block_comment_in,
  scan_block_comment, scan_q_string_in, scan_q_string,
}
use reldex.SqlText.Lexer.Word.{leading_identifier_len}
use reldex.SqlText.Lexer.Next.{
  Step, or_else, scanned, two_char_operators, whitespace_rule, line_comment_with, line_comment_rule,
  block_comment_with, block_comment_rule, comment_word_rule, directive_with, directive_rule,
  quote_rule, alternative_quoted, word_step, word_rule, range_rule, number_rule, advance_as,
  variable_rule, operator_step, next_token_normal, next_token,
}

-- The scan found its end, or there is no text left.
abbrev Ends : Scan → Type 0
Ends s = (s.1 ≡ true) ⊎ (s.0.rest ≡ [])

scan_quoted_in-Ends : (quote : ℕ) (t : Text) (pos : ℕ) → Ends (scan_quoted_in quote t pos)
unfolding scan_quoted_in
scan_quoted_in-Ends quote [] pos = inr refl
scan_quoted_in-Ends quote (c ∷ []) pos = inr refl
scan_quoted_in-Ends quote (c ∷ d ∷ t) pos = ground (
  arith,
  scan_quoted_in-Ends quote (d ∷ t) (pos + len_utf8 c),
  scan_quoted_in-Ends quote t (pos + len_utf8 c + len_utf8 d),
)

scan_block_comment_in-Ends : (close t : Text) (pos : ℕ) → Ends (scan_block_comment_in close t pos)
unfolding scan_block_comment_in
scan_block_comment_in-Ends close [] pos = inr refl
scan_block_comment_in-Ends close (c ∷ t) pos = elim (Bool-cases (starts_with (c ∷ t) close)) [
  | inl e ↦ rw (e, scan_block_comment_in) (inl refl)
  | inr e ↦ rw (e, scan_block_comment_in) (scan_block_comment_in-Ends close t (pos + len_utf8 c))
]

scan_q_string_in-Ends : (closing : ℕ) (t : Text) (pos : ℕ) → Ends (scan_q_string_in closing t pos)
unfolding scan_q_string_in
scan_q_string_in-Ends closing [] pos = inr refl
scan_q_string_in-Ends closing (c ∷ t) pos =
    elim (Bool-cases (c == closing && holds (λ d. d == b'\'') (first t))) [
      | inl e ↦ rw (e, scan_q_string_in) (inl refl)
      | inr e ↦ rw (e, scan_q_string_in) (scan_q_string_in-Ends closing t (pos + len_utf8 c))
    ]

-- Nothing is open after the step, or there is no text left.
abbrev pub OpenAtEnd : Step → Type 0
OpenAtEnd s = (s.mode ≡ normal) ⊎ (s.cursor.rest ≡ [])

scanned-OpenAtEnd :
    (kind : TokenKind) (mode : Mode) (s : Scan) → Ends s → OpenAtEnd (scanned kind mode s)
scanned-OpenAtEnd kind mode s (inl e) = inl (ap (λ b. if b then normal else mode) e)
scanned-OpenAtEnd kind mode s (inr e) = inr e

-- The step of a rule that passes over a whole construct, or of one of the scans.
abbrev OfRule : Option Step → Type 0
OfRule none = Unit {0}
OfRule (some s) = OpenAtEnd s

or_else-OpenAtEnd : (o : Option Step) (s : Step) → OfRule o → OpenAtEnd s → OpenAtEnd (or_else o s)
or_else-OpenAtEnd none s p q = q
or_else-OpenAtEnd (some r) s p q = p

if-OfRule : (b : Bool) (x y : Option Step) → OfRule x → OfRule y → OfRule (if b then x else y)
if-OfRule true x y p q = p
if-OfRule false x y p q = q

if-OpenAtEnd : (b : Bool) (x y : Step) → OpenAtEnd x → OpenAtEnd y → OpenAtEnd (if b then x else y)
if-OpenAtEnd true x y p q = p
if-OpenAtEnd false x y p q = q

module _ (u : Unicode) (d : SqlDialect) where
  quoted-OpenAtEnd :
      (kind : TokenKind) (mode : Mode) (c : Cursor) (quote : ℕ)
      → OpenAtEnd (scanned kind mode (scan_simple_quoted c quote))
  unfolding scan_simple_quoted
  quoted-OpenAtEnd kind mode c quote =
      scanned-OpenAtEnd kind mode (scan_quoted_in quote c.rest c.pos)
        (scan_quoted_in-Ends quote c.rest c.pos)

  q_string-OpenAtEnd :
      (kind : TokenKind) (c : Cursor) (closing : ℕ)
      → OpenAtEnd (scanned kind (q_string closing) (scan_q_string c closing))
  unfolding scan_q_string
  q_string-OpenAtEnd kind c closing =
      scanned-OpenAtEnd kind (q_string closing) (scan_q_string_in closing c.rest c.pos)
        (scan_q_string_in-Ends closing c.rest c.pos)

  comment-OpenAtEnd :
      (kind : TokenKind) (c : Cursor) (close : Text)
      → OpenAtEnd (scanned kind block_comment (scan_block_comment c close))
  unfolding scan_block_comment
  comment-OpenAtEnd kind c close =
      scanned-OpenAtEnd kind block_comment (scan_block_comment_in close c.rest c.pos)
        (scan_block_comment_in-Ends close c.rest c.pos)

  line_comment_with-OpenAtEnd :
      (prefix : Option Text) (c : Cursor) → OfRule (line_comment_with u d prefix c)
  unfolding line_comment_with
  line_comment_with-OpenAtEnd none c = tt
  line_comment_with-OpenAtEnd (some prefix) c =
      if-OfRule (starts_with c.rest prefix) _ none (inl refl) tt

  block_comment_with-OpenAtEnd :
      (delimiters : Option (Text × Text)) (c : Cursor)
      → OfRule (block_comment_with u d delimiters c)
  unfolding block_comment_with
  block_comment_with-OpenAtEnd none c = tt
  block_comment_with-OpenAtEnd (some (opening, close)) c =
      if-OfRule (starts_with c.rest opening) _ none (comment-OpenAtEnd comment _ close) tt

  directive_with-OpenAtEnd :
      (prefix : Option ℕ) (c : Cursor) (ch : ℕ) → OfRule (directive_with u d prefix c ch)
  unfolding directive_with
  directive_with-OpenAtEnd none c ch = tt
  directive_with-OpenAtEnd (some prefix) c ch = ground arith

  alternative_quoted-OpenAtEnd :
      (delimiter : Option ℕ) (c : Cursor) → OpenAtEnd (alternative_quoted u d delimiter c)
  unfolding alternative_quoted
  alternative_quoted-OpenAtEnd none c = inl refl
  alternative_quoted-OpenAtEnd (some delimiter) c = q_string-OpenAtEnd string _ _

  word_step-OpenAtEnd :
      (quoted : Bool) (word : Text) (c : Cursor) → OpenAtEnd (word_step u d quoted word c)
  unfolding word_step
  word_step-OpenAtEnd quoted word c =
      if-OpenAtEnd (quoted && has_word d.quoting.alternative_quote_prefixes word) _ _
        (unfold word_step in alternative_quoted-OpenAtEnd _ _)
        (if-OpenAtEnd (quoted && has_word d.quoting.national_string_prefixes word) _ _
          (quoted-OpenAtEnd string _ _ _) (inl refl))

  advance_as-OpenAtEnd :
      (kind : TokenKind) (c : Cursor) (len : Option ℕ) → OfRule (advance_as u d kind c len)
  unfolding advance_as
  advance_as-OpenAtEnd kind c none = tt
  advance_as-OpenAtEnd kind c (some n) = inl refl

  operator_step-OpenAtEnd : (c : Cursor) → OpenAtEnd (operator_step u d c)
  unfolding operator_step
  operator_step-OpenAtEnd c =
      if-OpenAtEnd (any (λ op. starts_with c.rest op) two_char_operators) _ _ (inl refl) (inl refl)

  plain-OpenAtEnd :
      (c : Cursor) (ch : ℕ) (at_line_start : Bool)
      → OfRule (whitespace_rule u d c ch at_line_start)
        × OfRule (comment_word_rule u d c ch at_line_start)
        × OfRule (range_rule u d c)
        × OfRule (number_rule u d c ch)
  unfolding whitespace_rule comment_word_rule range_rule number_rule
  plain-OpenAtEnd c ch at_line_start = (ground arith, ground arith, ground arith, ground arith)

  variable_rule-OpenAtEnd : (c : Cursor) (ch : ℕ) → OfRule (variable_rule u d c ch)
  unfolding variable_rule
  variable_rule-OpenAtEnd c ch =
      if-OfRule (ch == b':' && d.bind_variables) _ _
        (unfold variable_rule in advance_as-OpenAtEnd _ _ _)
        (if-OfRule (ch == b'&' && d.substitution_variables) _ none
          (unfold variable_rule in advance_as-OpenAtEnd _ _ _) tt)

  quote_rule-OpenAtEnd : (c : Cursor) (ch : ℕ) → OfRule (quote_rule u d c ch)
  unfolding quote_rule
  quote_rule-OpenAtEnd c ch =
      if-OfRule (ch == b'"') _ _ (quoted-OpenAtEnd quoted_identifier _ _ _)
        (if-OfRule (ch == b'\'') _ none (quoted-OpenAtEnd string _ _ _) tt)

  word_rule-OpenAtEnd : (c : Cursor) (ch : ℕ) → OfRule (word_rule u d c ch)
  unfolding word_rule
  word_rule-OpenAtEnd c ch =
      if-OfRule (is_alphabetic u ch) _ none
        (unfold word_step in word_step-OpenAtEnd _ _ (advance (leading_identifier_len u c.rest) c))
        tt

  next_token_normal-OpenAtEnd :
      (c : Cursor) (ch : ℕ) (at_line_start : Bool)
      → OpenAtEnd (next_token_normal u d c ch at_line_start)
  unfolding next_token_normal line_comment_rule block_comment_rule directive_rule
  next_token_normal-OpenAtEnd c ch at_line_start = or_else-OpenAtEnd _ _ plain.0 (
      or_else-OpenAtEnd _ _ (line_comment_with-OpenAtEnd d.comments.line_comment c) (
        or_else-OpenAtEnd _ _ (block_comment_with-OpenAtEnd d.comments.block_comment c) (
          or_else-OpenAtEnd _ _ plain.1 (
            or_else-OpenAtEnd _ _ (directive_with-OpenAtEnd d.directive_prefix c ch) (
              or_else-OpenAtEnd _ _ (quote_rule-OpenAtEnd c ch) (
                or_else-OpenAtEnd _ _ (word_rule-OpenAtEnd c ch) (
                  or_else-OpenAtEnd _ _ plain.2 (
                    or_else-OpenAtEnd _ _ plain.3 (
                      or_else-OpenAtEnd _ _ (variable_rule-OpenAtEnd c ch)
                        (operator_step-OpenAtEnd c))))))))))
    where
      plain :
          OfRule (whitespace_rule u d c ch at_line_start)
          × OfRule (comment_word_rule u d c ch at_line_start)
          × OfRule (range_rule u d c)
          × OfRule (number_rule u d c ch)
      plain = plain-OpenAtEnd c ch at_line_start

  -- In every mode, a token that leaves a comment or a quoted form open is the last one: it has taken
  -- all the text that was left.
  pub next_token-OpenAtEnd :
      (c : Cursor) (ch : ℕ) (mode : Mode) (at_line_start : Bool)
      → OpenAtEnd (next_token u d c ch mode at_line_start)
  unfolding next_token
  next_token-OpenAtEnd c ch normal at_line_start = next_token_normal-OpenAtEnd c ch at_line_start
  next_token-OpenAtEnd c ch block_comment at_line_start = comment-OpenAtEnd comment c _
  next_token-OpenAtEnd c ch single_quoted at_line_start = quoted-OpenAtEnd string _ c _
  next_token-OpenAtEnd c ch double_quoted at_line_start = quoted-OpenAtEnd quoted_identifier _ c _
  next_token-OpenAtEnd c ch (q_string closing) at_line_start = q_string-OpenAtEnd string c closing
