-- ===== src/SqlText/Lexer/Valid.antt =====
-- What a token leaves open can be saved: the closing delimiter of an alternative-quoted literal is a
-- character, since it comes from the text.
use reldex.Base.{
  ℕ, inl, inr, Bool-cases, ◌-◌, Bool, true, false, ◌&&◌, Option, none, some, [], ◌∷◌, ◌++◌, arith,
  ◌==◌, any, if◌then◌else◌,
}
use reldex.Text.{Text, Unicode, is_alphabetic, starts_with, drop_bytes, len_utf8}
use reldex.SqlText.Dialect.{SqlDialect, has_word}
use reldex.SqlText.Token.{TokenKind, comment, string, quoted_identifier}
use reldex.SqlText.Token.State.{
  Mode, normal, block_comment, single_quoted, double_quoted, q_string, IsChar, IsValid,
}
use reldex.SqlText.Lexer.Cursor.{
  Cursor, Scan, peek, bump, advance, closing_delimiter, scan_q_string,
}
use reldex.SqlText.Lexer.Word.{leading_identifier_len}
use reldex.SqlText.Lexer.Next.{
  Step, or_else, scanned, two_char_operators, whitespace_rule, line_comment_with, line_comment_rule,
  block_comment_with, block_comment_rule, comment_word_rule, directive_with, directive_rule,
  quote_rule, alternative_quoted, word_step, word_rule, range_rule, number_rule, advance_as,
  variable_rule, operator_step, next_token_normal, next_token,
}

-- Every element is a character.
abbrev pub AllChars : Text → Type 0
AllChars [] = Unit {0}
AllChars (c ∷ t) = IsChar c × AllChars t

pub AllChars-suffix : (before rest : Text) → AllChars (before ++ rest) → AllChars rest
AllChars-suffix [] rest h = h
AllChars-suffix (c ∷ before) rest h = AllChars-suffix before rest h.1

drop_bytes-AllChars : (n : ℕ) (t : Text) → AllChars t → AllChars (drop_bytes n t)
drop_bytes-AllChars n [] h = tt
drop_bytes-AllChars n (c ∷ t) h = elim (Bool-cases (n == 0)) [
  | inl e ↦ rw e h
  | inr e ↦ rw e (drop_bytes-AllChars (n - len_utf8 c) t h.1)
]

bump-AllChars : (c : Cursor) → AllChars c.rest → AllChars (bump c).rest
bump-AllChars c h = by_rest c.rest h
  where
    by_rest : (t : Text) → AllChars t → AllChars (bump (record { rest = t; pos = c.pos })).rest
    by_rest [] h = tt
    by_rest (x ∷ t) h = h.1

closing_delimiter-IsChar : (c : ℕ) → IsChar c → IsChar (closing_delimiter c)
unfolding closing_delimiter
closing_delimiter-IsChar c h = ground arith

-- The mode that a step leaves can be saved.
pub record Saves (s : Step) : Type 0 where
  pub valid : IsValid s.mode

if-IsValid : (b : Bool) (mode : Mode) → IsValid mode → IsValid (if b then normal else mode)
if-IsValid true mode v = tt
if-IsValid false mode v = v

scanned-Saves :
    (kind : TokenKind) (mode : Mode) (s : Scan) → IsValid mode → Saves (scanned kind mode s)
scanned-Saves kind mode s v = record { valid = if-IsValid s.1 mode v }

closed :
    (c : Cursor) (kind : TokenKind) (b : Bool)
    → Saves (record { cursor = c; kind = kind; mode = normal; at_line_start = b })
closed c kind b = record { valid = tt }

-- The step of a rule, if it gives one.
abbrev OfRule : Option Step → Type 0
OfRule none = Unit {0}
OfRule (some s) = Saves s

or_else-Saves : (o : Option Step) (s : Step) → OfRule o → Saves s → Saves (or_else o s)
or_else-Saves none s p q = q
or_else-Saves (some r) s p q = p

if-OfRule : (b : Bool) (x y : Option Step) → OfRule x → OfRule y → OfRule (if b then x else y)
if-OfRule true x y p q = p
if-OfRule false x y p q = q

when-OfRule : (b : Bool) (x : Step) → Saves x → OfRule (if b then some x else none)
when-OfRule true x p = p
when-OfRule false x p = tt

if-Saves : (b : Bool) (x y : Step) → Saves x → Saves y → Saves (if b then x else y)
if-Saves true x y p q = p
if-Saves false x y p q = q

module _ (u : Unicode) (d : SqlDialect) where
  line_comment_with-OfRule :
      (prefix : Option Text) (c : Cursor) → OfRule (line_comment_with u d prefix c)
  unfolding line_comment_with
  line_comment_with-OfRule none c = tt
  line_comment_with-OfRule (some prefix) c = when-OfRule _ _ (closed _ _ _)

  block_comment_with-OfRule :
      (delimiters : Option (Text × Text)) (c : Cursor)
      → OfRule (block_comment_with u d delimiters c)
  unfolding block_comment_with
  block_comment_with-OfRule none c = tt
  block_comment_with-OfRule (some (opening, close)) c =
      when-OfRule _ _ (scanned-Saves comment block_comment _ tt)

  directive_with-OfRule :
      (prefix : Option ℕ) (c : Cursor) (ch : ℕ) → OfRule (directive_with u d prefix c ch)
  unfolding directive_with
  directive_with-OfRule none c ch = tt
  directive_with-OfRule (some prefix) c ch = when-OfRule _ _ (closed _ _ _)

  -- The delimiter is the character behind the quote.
  alternative_quoted-Saves :
      (c : Cursor) → AllChars c.rest → Saves (alternative_quoted u d (peek c) c)
  unfolding alternative_quoted
  alternative_quoted-Saves c h = by_rest c.rest h
    where
      by_rest :
          (t : Text)
          → AllChars t
          → Saves (alternative_quoted u d (peek (record { rest = t; pos = c.pos })) c)
      by_rest [] h = closed _ _ _
      by_rest (x ∷ t) h =
          scanned-Saves string (q_string (closing_delimiter x))
            (scan_q_string (bump c) (closing_delimiter x)) (closing_delimiter-IsChar x h.0)

  word_step-Saves :
      (quoted : Bool) (word : Text) (c : Cursor)
      → AllChars c.rest
      → Saves (word_step u d quoted word c)
  unfolding word_step
  word_step-Saves quoted word c h =
      if-Saves (quoted && has_word d.quoting.alternative_quote_prefixes word) _ _
        (unfold word_step in alternative_quoted-Saves (bump c) (bump-AllChars c h))
        (if-Saves (quoted && has_word d.quoting.national_string_prefixes word) _ _
          (scanned-Saves string single_quoted _ tt) (closed _ _ _))

  plain-OfRule :
      (c : Cursor) (ch : ℕ) (at_line_start : Bool)
      → OfRule (whitespace_rule u d c ch at_line_start)
        × OfRule (comment_word_rule u d c ch at_line_start)
        × OfRule (range_rule u d c)
        × OfRule (number_rule u d c ch)
  unfolding whitespace_rule comment_word_rule range_rule number_rule
  plain-OfRule c ch at_line_start = (
    when-OfRule _ _ (closed _ _ _),
    when-OfRule _ _ (closed _ _ _),
    when-OfRule _ _ (closed _ _ _),
    when-OfRule _ _ (closed _ _ _),
  )

  advance_as-OfRule :
      (kind : TokenKind) (c : Cursor) (len : Option ℕ) → OfRule (advance_as u d kind c len)
  unfolding advance_as
  advance_as-OfRule kind c none = tt
  advance_as-OfRule kind c (some n) = closed _ _ _

  variable_rule-OfRule : (c : Cursor) (ch : ℕ) → OfRule (variable_rule u d c ch)
  unfolding variable_rule
  variable_rule-OfRule c ch =
      if-OfRule (ch == b':' && d.bind_variables) _ _
        (unfold variable_rule in advance_as-OfRule _ _ _)
        (if-OfRule (ch == b'&' && d.substitution_variables) _ none
          (unfold variable_rule in advance_as-OfRule _ _ _) tt)

  quote_rule-OfRule : (c : Cursor) (ch : ℕ) → OfRule (quote_rule u d c ch)
  unfolding quote_rule
  quote_rule-OfRule c ch =
      if-OfRule (ch == b'"') _ _ (scanned-Saves quoted_identifier double_quoted _ tt)
        (if-OfRule (ch == b'\'') _ none (scanned-Saves string single_quoted _ tt) tt)

  word_rule-OfRule : (c : Cursor) (ch : ℕ) → AllChars c.rest → OfRule (word_rule u d c ch)
  unfolding word_rule
  word_rule-OfRule c ch h =
      if-OfRule (is_alphabetic u ch) _ none
        (unfold word_step in
          word_step-Saves _ _ (advance (leading_identifier_len u c.rest) c)
            (drop_bytes-AllChars (leading_identifier_len u c.rest) c.rest h))
        tt

  operator_step-Saves : (c : Cursor) → Saves (operator_step u d c)
  unfolding operator_step
  operator_step-Saves c =
      if-Saves (any (λ op. starts_with c.rest op) two_char_operators) _ _ (closed _ _ _)
        (closed _ _ _)

  next_token_normal-Saves :
      (c : Cursor) (ch : ℕ) (at_line_start : Bool)
      → AllChars c.rest
      → Saves (next_token_normal u d c ch at_line_start)
  unfolding next_token_normal line_comment_rule block_comment_rule directive_rule
  next_token_normal-Saves c ch at_line_start h = or_else-Saves _ _ plain.0 (
      or_else-Saves _ _ (line_comment_with-OfRule d.comments.line_comment c) (
        or_else-Saves _ _ (block_comment_with-OfRule d.comments.block_comment c) (
          or_else-Saves _ _ plain.1 (
            or_else-Saves _ _ (directive_with-OfRule d.directive_prefix c ch) (
              or_else-Saves _ _ (quote_rule-OfRule c ch) (
                or_else-Saves _ _ (word_rule-OfRule c ch h) (
                  or_else-Saves _ _ plain.2 (
                    or_else-Saves _ _ plain.3 (
                      or_else-Saves _ _ (variable_rule-OfRule c ch) (operator_step-Saves c))))))))))
    where
      plain :
          OfRule (whitespace_rule u d c ch at_line_start)
          × OfRule (comment_word_rule u d c ch at_line_start)
          × OfRule (range_rule u d c)
          × OfRule (number_rule u d c ch)
      plain = plain-OfRule c ch at_line_start

  pub next_token-Saves :
      (c : Cursor) (ch : ℕ) (mode : Mode) (at_line_start : Bool)
      → AllChars c.rest
      → IsValid mode
      → Saves (next_token u d c ch mode at_line_start)
  unfolding next_token
  next_token-Saves c ch normal at_line_start h v = next_token_normal-Saves c ch at_line_start h
  next_token-Saves c ch block_comment at_line_start h v = scanned-Saves comment block_comment _ v
  next_token-Saves c ch single_quoted at_line_start h v = scanned-Saves string single_quoted _ v
  next_token-Saves c ch double_quoted at_line_start h v =
      scanned-Saves quoted_identifier double_quoted _ v
  next_token-Saves c ch (q_string closing) at_line_start h v =
      scanned-Saves string (q_string closing) _ v
