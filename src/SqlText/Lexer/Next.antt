-- ===== src/SqlText/Lexer/Next.antt =====
-- crates/sql-text/src/lexer.rs: `next_token` and `next_token_normal`. Each early return of the
-- latter is a rule that gives a step or passes; `ch` is the current character, which its caller
-- ensures is there.
use reldex.Base.{
  ℕ, ◌+◌, Bool, false, not, ◌&&◌, ◌||◌, Option, none, some, List, [], ◌∷◌, ◌==◌, any, ltb,
  if◌then◌else◌,
}
use reldex.Text.{
  Text, codes, Unicode, len_utf8, byte_len, drop_bytes, take_bytes, starts_with, is_ascii_digit,
  is_alphabetic,
}
use reldex.SqlText.Dialect.{SqlDialect, has_word, is_keyword}
use reldex.SqlText.Token.{
  TokenKind, whitespace, keyword, identifier, quoted_identifier, string, number, comment, operator,
  bind_variable, substitution_variable, directive, error,
}
use reldex.SqlText.Token.State.{Mode, normal, block_comment, single_quoted, double_quoted, q_string}
use reldex.SqlText.Lexer.Cursor.{
  Cursor, Scan, peek, peek2, first, holds, bump, advance, bump_while, is_lexer_whitespace,
  scan_simple_quoted, scan_block_comment, scan_q_string, closing_delimiter, scan_number,
}
use reldex.SqlText.Lexer.Word.{leading_identifier_len, bind_variable_len, substitution_variable_len}

-- What one call leaves: the cursor, the token's kind, the next mode and `at_line_start`.
pub record Step : Type 0 where
  pub cursor : Cursor
  pub kind : TokenKind
  pub mode : Mode
  pub at_line_start : Bool

-- A return with `*at_line_start = false`.
abbrev pub token : Cursor → TokenKind → Step
token cursor kind = record { cursor = cursor; kind = kind; mode = normal; at_line_start = false }

-- After a scan: the mode is `still` where the construct is open.
abbrev pub scanned : TokenKind → Mode → Scan → Step
scanned kind still (cursor, closed) = record {
  cursor = cursor;
  kind = kind;
  mode = if closed then normal else still;
  at_line_start = false;
}

abbrev not_newline : ℕ → Bool
not_newline c = not (c == b'\n')

abbrev pub or_else : Option Step → Step → Step
or_else none s = s
or_else (some s) _ = s

abbrev pub two_char_operators : List Text
two_char_operators =
    codes ":="
    ∷ codes "<="
    ∷ codes ">="
    ∷ codes "<>"
    ∷ codes "!="
    ∷ codes "^="
    ∷ codes "||"
    ∷ codes "**"
    ∷ codes "=>"
    ∷ codes "<<"
    ∷ codes ">>"
    ∷ []

module _ (u : Unicode) (d : SqlDialect) where
  unfoldable pub whitespace_rule : Cursor → ℕ → Bool → Option Step
  whitespace_rule cursor ch at_line_start =
      if is_lexer_whitespace ch
      then some (record {
        cursor = bump_while is_lexer_whitespace cursor;
        kind = whitespace;
        mode = normal;
        at_line_start = at_line_start;
      })
      else none

  unfoldable pub line_comment_with : Option Text → Cursor → Option Step
  line_comment_with none cursor = none
  line_comment_with (some prefix) cursor =
      if starts_with cursor.rest prefix
      then some (token (bump_while not_newline (advance (byte_len prefix) cursor)) comment)
      else none

  unfoldable pub line_comment_rule : Cursor → Option Step
  unfolding line_comment_with
  line_comment_rule = line_comment_with d.comments.line_comment

  unfoldable pub block_comment_with : Option (Text × Text) → Cursor → Option Step
  block_comment_with none cursor = none
  block_comment_with (some (opening, close)) cursor =
      if starts_with cursor.rest opening
      then some (
          scanned comment block_comment
            (scan_block_comment (advance (byte_len opening) cursor) close))
      else none

  unfoldable pub block_comment_rule : Cursor → Option Step
  unfolding block_comment_with
  block_comment_rule = block_comment_with d.comments.block_comment

  -- The word at the cursor.
  abbrev pub word_at : Cursor → Text
  word_at cursor = take_bytes (leading_identifier_len u cursor.rest) cursor.rest

  unfoldable pub comment_word_rule : Cursor → ℕ → Bool → Option Step
  comment_word_rule cursor ch at_line_start =
      if at_line_start
        && is_alphabetic u ch
        && has_word d.comments.line_comment_words (word_at cursor)
      then some (
          token (bump_while not_newline (advance (leading_identifier_len u cursor.rest) cursor))
            comment)
      else none

  -- The length of the prefix character, once or doubled.
  unfoldable pub directive_prefix_len : ℕ → Text → ℕ
  directive_prefix_len prefix rest =
      if holds (λ c. c == prefix) (first (drop_bytes (len_utf8 prefix) rest))
      then len_utf8 prefix + len_utf8 prefix
      else len_utf8 prefix

  unfoldable pub directive_with : Option ℕ → Cursor → ℕ → Option Step
  unfolding directive_prefix_len
  directive_with none cursor ch = none
  directive_with (some prefix) cursor ch =
      let n = directive_prefix_len prefix cursor.rest in
      let ident_len = leading_identifier_len u (drop_bytes n cursor.rest) in
      if ch == prefix && ltb 0 ident_len
      then some (token (advance (n + ident_len) cursor) directive)
      else none

  unfoldable pub directive_rule : Cursor → ℕ → Option Step
  unfolding directive_with
  directive_rule = directive_with d.directive_prefix

  unfoldable pub quote_rule : Cursor → ℕ → Option Step
  quote_rule cursor ch =
      if ch == b'"'
      then some (scanned quoted_identifier double_quoted (scan_simple_quoted (bump cursor) b'"'))
      else if ch == b'\''
      then some (scanned string single_quoted (scan_simple_quoted (bump cursor) b'\''))
      else none

  -- An alternative-quoted literal, behind its prefix and quote.
  unfoldable pub alternative_quoted : Option ℕ → Cursor → Step
  alternative_quoted none cursor = token cursor error
  alternative_quoted (some delimiter) cursor =
      scanned string (q_string (closing_delimiter delimiter))
        (scan_q_string (bump cursor) (closing_delimiter delimiter))

  -- Behind a word, where a quote may make it the prefix of a literal.
  unfoldable pub word_step : Bool → Text → Cursor → Step
  unfolding alternative_quoted
  word_step quoted word after =
      if quoted && has_word d.quoting.alternative_quote_prefixes word
      then alternative_quoted (peek (bump after)) (bump after)
      else if quoted && has_word d.quoting.national_string_prefixes word
      then scanned string single_quoted (scan_simple_quoted (bump after) b'\'')
      else token after (if is_keyword d word then keyword else identifier)

  unfoldable pub word_rule : Cursor → ℕ → Option Step
  unfolding word_step
  word_rule cursor ch =
      let after = advance (leading_identifier_len u cursor.rest) cursor in
      if is_alphabetic u ch
      then some (word_step (holds (λ c. c == b'\'') (peek after)) (word_at cursor) after)
      else none

  unfoldable pub range_rule : Cursor → Option Step
  range_rule cursor =
      if starts_with cursor.rest (codes "..")
      then some (token (advance 2 cursor) operator)
      else none

  unfoldable pub number_rule : Cursor → ℕ → Option Step
  number_rule cursor ch =
      if is_ascii_digit ch || (ch == b'.' && holds is_ascii_digit (peek2 cursor))
      then some (token (scan_number cursor) number)
      else none

  unfoldable pub advance_as : TokenKind → Cursor → Option ℕ → Option Step
  advance_as kind cursor none = none
  advance_as kind cursor (some len) = some (token (advance len cursor) kind)

  unfoldable pub variable_rule : Cursor → ℕ → Option Step
  unfolding advance_as
  variable_rule cursor ch =
      if ch == b':' && d.bind_variables
      then advance_as bind_variable cursor (bind_variable_len u cursor.rest)
      else if ch == b'&' && d.substitution_variables
      then advance_as substitution_variable cursor (substitution_variable_len u cursor.rest)
      else none

  -- Two characters for an operator of the table, and one for any other.
  unfoldable pub operator_step : Cursor → Step
  operator_step cursor =
      if any (λ op. starts_with cursor.rest op) two_char_operators
      then token (bump (bump cursor)) operator
      else token (bump cursor) operator

  unfoldable pub next_token_normal : Cursor → ℕ → Bool → Step
  unfolding whitespace_rule line_comment_rule block_comment_rule comment_word_rule directive_rule
      quote_rule word_rule range_rule number_rule variable_rule operator_step
  next_token_normal cursor ch at_line_start = or_else (whitespace_rule cursor ch at_line_start) (
      or_else (line_comment_rule cursor) (
        or_else (block_comment_rule cursor) (
          or_else (comment_word_rule cursor ch at_line_start) (
            or_else (directive_rule cursor ch) (
              or_else (quote_rule cursor ch) (
                or_else (word_rule cursor ch) (
                  or_else (range_rule cursor) (
                    or_else (number_rule cursor ch)
                      (or_else (variable_rule cursor ch) (operator_step cursor))))))))))

  -- The closing delimiter of a block comment that is resumed.
  abbrev pub comment_close : Option (Text × Text) → Text
  comment_close none = codes "*/"
  comment_close (some (_, close)) = close

  unfoldable pub next_token : Cursor → ℕ → Mode → Bool → Step
  unfolding next_token_normal
  next_token cursor ch normal at_line_start = next_token_normal cursor ch at_line_start
  next_token cursor ch block_comment at_line_start =
      scanned comment block_comment
        (scan_block_comment cursor (comment_close d.comments.block_comment))
  next_token cursor ch single_quoted at_line_start =
      scanned string single_quoted (scan_simple_quoted cursor b'\'')
  next_token cursor ch double_quoted at_line_start =
      scanned quoted_identifier double_quoted (scan_simple_quoted cursor b'"')
  next_token cursor ch (q_string closing) at_line_start =
      scanned string (q_string closing) (scan_q_string cursor closing)
