-- ===== src/SqlText/Lexer/Progress.antt =====
-- Every call of `next_token` takes at least one character of the text: its loop ends.
use reldex.Base.{
  ℕ, ◌≤◌, ◌<◌, ◌≡◌, ◌≢◌, refl, inl, inr, Bool, true, ◌&&◌, ◌||◌, Option, none, some, [], ◌∷◌, arith,
  ltb, ◌==◌, any, Bool-cases,
}
use reldex.Text.{
  Text, codes, Unicode, len_utf8, len_utf8_pos, drop_bytes, starts_with, is_ascii_digit,
  is_alphabetic,
}
use reldex.SqlText.Dialect.{SqlDialect, has_word}
use reldex.SqlText.Token.{TokenKind, bind_variable, substitution_variable}
use reldex.SqlText.Token.State.{Mode, normal, block_comment, single_quoted, double_quoted, q_string}
use reldex.SqlText.Lexer.Cursor.{
  Cursor, peek, first, holds, bump, advance, is_lexer_whitespace, scan_simple_quoted,
}
use reldex.SqlText.Lexer.Word.{prefix_len, leading_identifier_len}
use reldex.SqlText.Lexer.Boundary.{
  IsBoundary, add-IsBoundary, first-IsBoundary, starts_with-IsBoundary,
  leading_identifier_len-IsBoundary, bind_variable_len-IsBoundary,
  substitution_variable_len-IsBoundary,
}
use reldex.SqlText.Lexer.Moves.{
  Moves, Moves-refl, Moves-trans, advance-Moves, bump-Moves, bump_while-Moves,
  scan_simple_quoted-Moves, scan_block_comment-Moves, scan_q_string-Moves, scan_number-Moves, at,
  bump-lt, bump_while-lt, scan_number-lt,
}
use reldex.SqlText.Lexer.Takes.{
  Takes, OfRule, or_else-Takes, if-OfRule, when-OfRule, advance-Takes, NotEmpty, BothNotEmpty,
  HasDelimiters, prefix-lt, scan_block_comment-lt, scan_q_string-lt, scan_simple_quoted-lt,
}
use reldex.SqlText.Lexer.Next.{
  two_char_operators, whitespace_rule, line_comment_with, line_comment_rule, block_comment_with,
  block_comment_rule, comment_word_rule, directive_prefix_len, directive_with, directive_rule,
  quote_rule, alternative_quoted, word_step, word_rule, word_at, range_rule, number_rule,
  advance_as, variable_rule, operator_step, next_token_normal, comment_close, next_token,
}

module _ (u : Unicode) (d : SqlDialect) (h : HasDelimiters d) (ch : ℕ) (t : Text) (pos : ℕ) where
  abbrev here : Cursor
  here = at ch t pos

  whitespace_rule-Takes :
      (at_line_start : Bool) → OfRule here (whitespace_rule u d here ch at_line_start)
  unfolding whitespace_rule
  whitespace_rule-Takes at_line_start = when-OfRule here (is_lexer_whitespace ch) _ λ e. (
    bump_while-Moves is_lexer_whitespace here,
    bump_while-lt is_lexer_whitespace ch t pos e (Moves-refl _),
  )

  line_comment_with-Takes :
      (prefix : Option Text) → NotEmpty prefix → OfRule here (line_comment_with u d prefix here)
  unfolding line_comment_with
  line_comment_with-Takes none n = tt
  line_comment_with-Takes (some prefix) n = when-OfRule here (starts_with (ch ∷ t) prefix) _ λ e. (
    Moves-trans (advance-Moves here (starts_with-IsBoundary (ch ∷ t) prefix e))
        (bump_while-Moves _ _),
    prefix-lt prefix here n (bump_while-Moves _ _),
  )

  block_comment_with-Takes :
      (delimiters : Option (Text × Text))
      → BothNotEmpty delimiters
      → OfRule here (block_comment_with u d delimiters here)
  unfolding block_comment_with
  block_comment_with-Takes none n = tt
  block_comment_with-Takes (some (opening, close)) n =
      when-OfRule here (starts_with (ch ∷ t) opening) _ λ e. (
        Moves-trans (advance-Moves here (starts_with-IsBoundary (ch ∷ t) opening e))
            (scan_block_comment-Moves _ close),
        prefix-lt opening here n.0 (scan_block_comment-Moves _ close),
      )

  leading_identifier_len_pos : is_alphabetic u ch ≡ true → 1 ≤ leading_identifier_len u (ch ∷ t)
  unfolding leading_identifier_len prefix_len
  leading_identifier_len_pos e = ground (arith, len_utf8_pos ch)

  -- Past the word at the cursor.
  word-Takes :
      {c : Cursor}
      → is_alphabetic u ch ≡ true
      → Moves (advance (leading_identifier_len u (ch ∷ t)) here) c
      → Moves here c × (pos < c.pos)
  word-Takes e m =
      advance-Takes here (leading_identifier_len-IsBoundary u (ch ∷ t))
        (leading_identifier_len_pos e) m

  comment_word_rule-Takes :
      (at_line_start : Bool) → OfRule here (comment_word_rule u d here ch at_line_start)
  unfolding comment_word_rule
  comment_word_rule-Takes at_line_start =
      when-OfRule here
        (at_line_start
          && is_alphabetic u ch
          && has_word d.comments.line_comment_words (word_at u d here))
        _ λ e. word-Takes (ground arith) (bump_while-Moves _ _)

  directive_prefix_len-IsBoundary :
      (prefix : ℕ)
      → (ch == prefix) ≡ true
      → IsBoundary (directive_prefix_len u d prefix (ch ∷ t)) (ch ∷ t)
  unfolding directive_prefix_len
  directive_prefix_len-IsBoundary prefix e =
      elim (Bool-cases (holds (λ c. c == prefix) (first (drop_bytes (len_utf8 prefix) (ch ∷ t))))) [
        | inl twice ↦
            rw twice (
              add-IsBoundary (first-IsBoundary (ch ∷ t) prefix e) (first-IsBoundary _ prefix twice))
        | inr once ↦ rw once (first-IsBoundary (ch ∷ t) prefix e)
      ]

  directive_with-Takes : (prefix : Option ℕ) → OfRule here (directive_with u d prefix here ch)
  unfolding directive_with
  directive_with-Takes none = tt
  directive_with-Takes (some prefix) =
      when-OfRule here (ch == prefix && ltb 0 (leading_identifier_len u (drop_bytes n (ch ∷ t)))) _
        λ e.
          advance-Takes here
            (add-IsBoundary (directive_prefix_len-IsBoundary prefix (ground arith))
              (leading_identifier_len-IsBoundary u _))
            (ground arith) (Moves-refl _)
    where
      n : ℕ
      n = directive_prefix_len u d prefix (ch ∷ t)

  quote_rule-Takes : OfRule here (quote_rule u d here ch)
  unfolding quote_rule
  quote_rule-Takes =
      if-OfRule here (ch == b'"') _ _ (λ _. quoted b'"')
        (λ _. when-OfRule here (ch == b'\'') _ (λ _. quoted b'\''))
    where
      quoted :
          (quote : ℕ)
          → Moves here (scan_simple_quoted (bump here) quote).0
            × (pos < (scan_simple_quoted (bump here) quote).0.pos)
      quoted quote = (
        Moves-trans (bump-Moves here) (scan_simple_quoted-Moves (bump here) quote),
        bump-lt ch t pos (scan_simple_quoted-Moves (bump here) quote),
      )

  alternative_quoted-Moves :
      (delimiter : Option ℕ) (c : Cursor) → Moves c (alternative_quoted u d delimiter c).cursor
  unfolding alternative_quoted
  alternative_quoted-Moves none c = Moves-refl c
  alternative_quoted-Moves (some delimiter) c = Moves-trans (bump-Moves c) (scan_q_string-Moves _ _)

  word_step-Moves :
      (quoted : Bool) (word : Text) (c : Cursor) → Moves c (word_step u d quoted word c).cursor
  unfolding word_step
  word_step-Moves quoted word c =
      elim (Bool-cases (quoted && has_word d.quoting.alternative_quote_prefixes word)) [
        | inl q ↦ rw q (
            Moves-trans (bump-Moves c)
              (unfold word_step in alternative_quoted-Moves (peek (bump c)) (bump c)))
        | inr other ↦
            rw other
              (elim (Bool-cases (quoted && has_word d.quoting.national_string_prefixes word)) [
                | inl n ↦
                    rw n (Moves-trans (bump-Moves c) (scan_simple_quoted-Moves (bump c) b'\''))
                | inr plain ↦ rw plain (Moves-refl c)
              ])
      ]

  word_rule-Takes : OfRule here (word_rule u d here ch)
  unfolding word_rule
  word_rule-Takes =
      when-OfRule here (is_alphabetic u ch) _
        (λ e. word-Takes e (unfold word_step in word_step-Moves _ _ _))

  range_rule-Takes : OfRule here (range_rule u d here)
  unfolding range_rule len_utf8
  range_rule-Takes = when-OfRule here (starts_with (ch ∷ t) (codes "..")) _ λ e.
      advance-Takes {n = 2} here (starts_with-IsBoundary (ch ∷ t) (codes "..") e) (omega arith)
        (Moves-refl _)

  number_rule-Takes : OfRule here (number_rule u d here ch)
  unfolding number_rule
  number_rule-Takes =
      when-OfRule here (is_ascii_digit ch || (ch == b'.' && holds is_ascii_digit (first t))) _
        λ e. (scan_number-Moves here, scan_number-lt ch t pos e)

  variable_rule-Takes : OfRule here (variable_rule u d here ch)
  unfolding variable_rule
  variable_rule-Takes =
      if-OfRule here (ch == b':' && d.bind_variables) _ _
        (λ e.
          advance_as-Takes bind_variable _
            (λ n. bind_variable_len-IsBoundary u (ch ∷ t) (ground arith)))
        λ _.
          if-OfRule here (ch == b'&' && d.substitution_variables) _ _
            (λ e.
              advance_as-Takes substitution_variable _
                (λ n. substitution_variable_len-IsBoundary u (ch ∷ t) (ground arith)))
            (λ _. tt)
    where
      advance_as-Takes :
          (kind : TokenKind) (len : Option ℕ)
          → ((n : ℕ) → len ≡ some n → IsBoundary n (ch ∷ t) × (1 ≤ n))
          → OfRule here (advance_as u d kind here len)
      advance_as-Takes kind none b = tt
      advance_as-Takes kind (some n) b = advance-Takes here (b n refl).0 (b n refl).1 (Moves-refl _)

  operator_step-Takes : Takes here (operator_step u d here)
  unfolding operator_step
  operator_step-Takes = elim (Bool-cases (any (λ op. starts_with (ch ∷ t) op) two_char_operators)) [
    | inl two ↦
        rw two (Moves-trans (bump-Moves here) (bump-Moves _), bump-lt ch t pos (bump-Moves _))
    | inr one ↦ rw one (bump-Moves here, bump-lt ch t pos (Moves-refl _))
  ]

  next_token_normal-Takes :
      (at_line_start : Bool) → Takes here (next_token_normal u d here ch at_line_start)
  unfolding next_token_normal line_comment_rule block_comment_rule directive_rule
  next_token_normal-Takes at_line_start =
      or_else-Takes here _ _ (whitespace_rule-Takes at_line_start) (
        or_else-Takes here _ _ (line_comment_with-Takes d.comments.line_comment h.line) (
          or_else-Takes here _ _ (block_comment_with-Takes d.comments.block_comment h.block) (
            or_else-Takes here _ _ (comment_word_rule-Takes at_line_start) (
              or_else-Takes here _ _ (directive_with-Takes d.directive_prefix) (
                or_else-Takes here _ _ quote_rule-Takes (
                  or_else-Takes here _ _ word_rule-Takes (
                    or_else-Takes here _ _ range_rule-Takes (
                      or_else-Takes here _ _ number_rule-Takes
                        (or_else-Takes here _ _ variable_rule-Takes operator_step-Takes)))))))))

  pub next_token-Takes :
      (mode : Mode) (at_line_start : Bool) → Takes here (next_token u d here ch mode at_line_start)
  unfolding next_token
  next_token-Takes normal at_line_start = next_token_normal-Takes at_line_start
  next_token-Takes block_comment at_line_start = (
    scan_block_comment-Moves here close,
    scan_block_comment-lt close ch t pos (comment_close_ne d.comments.block_comment h.block),
  )
    where
      close : Text
      close = comment_close u d d.comments.block_comment

      comment_close_ne : (o : Option (Text × Text)) → BothNotEmpty o → comment_close u d o ≢ []
      comment_close_ne none n e = cc
      comment_close_ne (some (opening, closing)) n e = n.1 e
  next_token-Takes single_quoted at_line_start =
      (scan_simple_quoted-Moves here b'\'', scan_simple_quoted-lt b'\'' ch t pos)
  next_token-Takes double_quoted at_line_start =
      (scan_simple_quoted-Moves here b'"', scan_simple_quoted-lt b'"' ch t pos)
  next_token-Takes (q_string closing) at_line_start =
      (scan_q_string-Moves here closing, scan_q_string-lt closing ch t pos)
