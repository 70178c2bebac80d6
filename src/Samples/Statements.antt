-- ===== src/Samples/Statements.antt =====
-- Documents that are split.
use reldex.Base.{ℕ, ◌≡◌, refl, Option, none, some, List, [], ◌∷◌, map}
use reldex.Text.{Text, codes, is_char_boundary}
use reldex.SqlText.Splitter.Span.{
  StatementSpan, EndedBy, terminator, slash_line, inferred_block_end, end_of_input,
}
use reldex.Samples.Lexing.{thai}
use reldex.Samples.Splitting.{blocks}
use reldex.SqlText.Dialect.{is_keyword}
use reldex.SqlText.Lexer.Cursor.{
  bump_while, is_lexer_whitespace, scan_quoted_in, scan_simple_quoted, scan_block_comment_in,
  scan_block_comment, scan_q_string_in, scan_q_string, closing_delimiter, maybe_exponent,
  whole_number, scan_number,
}
use reldex.SqlText.Lexer.Next.{
  whitespace_rule, line_comment_with, line_comment_rule, block_comment_with, block_comment_rule,
  comment_word_rule, directive_prefix_len, directive_with, directive_rule, quote_rule,
  alternative_quoted, word_step, word_rule, range_rule, number_rule, advance_as, variable_rule,
  operator_step, next_token_normal, next_token,
}
use reldex.SqlText.Lexer.Tokenize.{
  split_lines, mark_last, scan_tokens, tokenize_block, tokenize_lines, tokenize,
}
use reldex.SqlText.Lexer.Word.{
  prefix_len, find_char, leading_identifier_len, bind_variable_len, substitution_prefix_len,
  substitution_name_len, substitution_variable_len,
}
use reldex.SqlText.Splitter.Phrases.{
  skip_label, skip_labels_loop, skip_labels, collect_leading_words, match_phrase, match_slots,
  matches_block_starter, peek_phrase_matches, ends_with_phrase,
}
use reldex.SqlText.Splitter.Scans.{
  is_slash, paren_depth_after, scan_plain_from, scan_plain, scan_opaque_source_from,
  scan_opaque_source, scan_paren_delimited_from, scan_paren_delimited, scan_to_terminator_from,
  scan_to_terminator, skip_end_qualifier_from, skip_end_qualifier, finish_structured_from,
  finish_structured,
}
use reldex.SqlText.Splitter.Slash.{
  find_newline, rfind_newline, ran_to_eof, is_lone_slash_line, trailing_line_end, end_at_slash_line,
  slash_after, end_after_slash, finish_with_maybe_slash,
}
use reldex.SqlText.Splitter.Span.{content, full, skip_trivial, is_terminator}
use reldex.SqlText.Splitter.Split.{
  advance_to, find_starter, scan_block, scan_statement, is_idle_slash, split_loop, split_statements,
  floor_char_boundary, last_preceding, statement_in, statement_at,
}
use reldex.SqlText.Splitter.Structured.{
  introduces_body, is_call_spec, after_terminator_from, header_body, scan_header_from, scan_header,
  open_block, end_block, header_step, structured_step, structured_loop, scan_structured,
}
use reldex.SqlText.Token.{len, is_empty}
use reldex.SqlText.Token.State.{to_raw, from_raw, is_initial}
use reldex.Text.{len_utf8, is_whitespace, trim_start, trim_end}
use reldex.Base.Int.{◌+ℤ◌, ◌-ℤ◌}

abbrev ends : StatementSpan → ℕ × ℕ × EndedBy
ends s = (s.content_start, s.full_end, s.ended_by)

abbrev statements : Text → Option (List (ℕ × ℕ × EndedBy))
statements text = elim (split_statements thai blocks text) [
  | none ↦ none
  | some spans ↦ some (map ends spans)
]

-- A plain statement; a block without a terminator behind its `END`, and a header without one, both of
-- which go on past a lone `/` line; a block with such a line behind it; and blocks inside a block,
-- behind a lone `/` line that ends nothing.
documents :
    (statements (codes "a;b") ≡ some ((0, 2, terminator) ∷ (2, 3, end_of_input) ∷ []))
    × (statements (codes "BEGIN x; END\n/\nb;") ≡ some ((0, 17, end_of_input) ∷ []))
    × (statements (codes "BEGIN x; END;\n/\nb")
        ≡ some ((0, 16, slash_line) ∷ (16, 17, end_of_input) ∷ []))
    × (statements (codes "CREATE PACKAGE p IS PROCEDURE q\n/\nb;")
        ≡ some ((0, 36, end_of_input) ∷ []))
    × (statements (codes "/\nBEGIN IF x THEN y; END IF; END; 'a;b'")
        ≡ some ((2, 33, inferred_block_end) ∷ (34, 39, end_of_input) ∷ []))
unfolding is_keyword bump_while is_lexer_whitespace scan_quoted_in scan_simple_quoted
    scan_block_comment_in scan_block_comment scan_q_string_in scan_q_string closing_delimiter
    maybe_exponent whole_number scan_number whitespace_rule line_comment_with line_comment_rule
    block_comment_with block_comment_rule comment_word_rule directive_prefix_len directive_with
    directive_rule quote_rule alternative_quoted word_step word_rule range_rule number_rule
    advance_as variable_rule operator_step next_token_normal next_token split_lines mark_last
    scan_tokens tokenize_block tokenize_lines tokenize prefix_len find_char leading_identifier_len
    bind_variable_len substitution_prefix_len substitution_name_len substitution_variable_len
    skip_label skip_labels_loop skip_labels collect_leading_words match_phrase match_slots
    matches_block_starter peek_phrase_matches ends_with_phrase is_slash paren_depth_after
    scan_plain_from scan_plain scan_opaque_source_from scan_opaque_source scan_paren_delimited_from
    scan_paren_delimited scan_to_terminator_from scan_to_terminator skip_end_qualifier_from
    skip_end_qualifier finish_structured_from finish_structured find_newline rfind_newline
    ran_to_eof is_lone_slash_line trailing_line_end end_at_slash_line slash_after end_after_slash
    finish_with_maybe_slash content full skip_trivial is_terminator advance_to find_starter
    scan_block scan_statement is_idle_slash split_loop split_statements is_char_boundary
    floor_char_boundary last_preceding statement_in statement_at introduces_body is_call_spec
    after_terminator_from header_body scan_header_from scan_header open_block end_block header_step
    structured_step structured_loop scan_structured len is_empty to_raw from_raw is_initial len_utf8
    is_whitespace trim_start trim_end ◌+ℤ◌ ◌-ℤ◌
documents = (refl, refl, refl, refl, refl)
