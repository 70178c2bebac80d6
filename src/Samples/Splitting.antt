-- ===== src/Samples/Splitting.antt =====
-- Runs of the statement splitter.
use reldex.Base.{◌+◌, ◌≤◌, min, ◌≡◌, refl, true, false, Option, some, List, [], ◌∷◌, ◌++◌}
use reldex.Text.{Text, codes, len_utf8, is_whitespace}
use reldex.SqlText.Dialect.{SqlDialect, required, optional, structured}
use reldex.SqlText.Token.{Token, operator, whitespace, identifier, keyword}
use reldex.SqlText.Lexer.Takes.{HasDelimiters}
use reldex.SqlText.Splitter.Span.{StatementSpan, is_terminator}
use reldex.SqlText.Splitter.Slash.{is_lone_slash_line, find_newline, rfind_newline}
use reldex.SqlText.Splitter.Scans.{
  is_slash, paren_depth_after, scan_plain, scan_opaque_source, scan_paren_delimited,
}
use reldex.SqlText.Splitter.Structured.{scan_header, introduces_body}
use reldex.SqlText.Splitter.Split.{split_statements, statement_at, floor_char_boundary}
use reldex.SqlText.Splitter.Order.{InOrder, split_statements-InOrder}
use reldex.SqlText.Splitter.At.{Resolves, statement_at-Resolves}
use reldex.SqlText.Splitter.Floor.{IsGreatest, floor_char_boundary-IsGreatest}
use reldex.SqlText.Splitter.Slashes.{scan_plain-slash, block_scans-slash}
use reldex.Samples.Lexing.{thai, dialect}

abbrev pub blocks : SqlDialect
blocks = record dialect {
  block_starters =
      record {
        slots = required ((codes "BEGIN" ∷ []) ∷ []) ∷ [];
        kind = structured;
        opens_body = true;
      }
      ∷ record {
        slots =
            required ((codes "CREATE" ∷ []) ∷ [])
            ∷ optional ((codes "OR" ∷ codes "REPLACE" ∷ []) ∷ [])
            ∷ required ((codes "PACKAGE" ∷ []) ∷ [])
            ∷ [];
        kind = structured;
        opens_body = false;
      }
      ∷ [];
}

blocks-HasDelimiters : HasDelimiters blocks
blocks-HasDelimiters = record { line = λ e. cc; block = (λ e. cc, λ e. cc) }

split_statements-InOrder_example :
    (spans : List StatementSpan) × (split_statements thai blocks
        (codes "a;\n/\nBEGIN IF x THEN y; END IF; END; b")
      ≡ some spans)
    × InOrder (codes "a;\n/\nBEGIN IF x THEN y; END IF; END; b") 0 spans
split_statements-InOrder_example =
    split_statements-InOrder thai blocks (codes "a;\n/\nBEGIN IF x THEN y; END IF; END; b")
      blocks-HasDelimiters

statement_at-Resolves_example :
    (spans : List StatementSpan) × (r : Option StatementSpan) × (split_statements thai blocks
        (codes "a; b;")
      ≡ some spans)
    × (statement_at thai blocks (codes "a; b;") 4 ≡ some r)
    × Resolves (codes "a; b;") spans (floor_char_boundary (codes "a; b;") (min 4 5)) r
unfolding len_utf8
statement_at-Resolves_example =
    statement_at-Resolves thai blocks (codes "a; b;") 4 blocks-HasDelimiters

floor_char_boundary-IsGreatest_example :
    IsGreatest (0xe01 ∷ b'x' ∷ []) 2 (floor_char_boundary (0xe01 ∷ b'x' ∷ []) 2)
floor_char_boundary-IsGreatest_example = floor_char_boundary-IsGreatest (0xe01 ∷ b'x' ∷ []) 2

inside_character : floor_char_boundary (0xe01 ∷ b'x' ∷ []) 2 ≡ 0
unfolding floor_char_boundary len_utf8
inside_character = refl

-- The tokens of `END`, a line break, a lone `/`, a line break and `b`.
abbrev slash_text : Text
slash_text = codes "END\n/\nb"

abbrev slash_token : Token
slash_token = record { kind = operator; start = 4; end = 5 }

abbrev behind_slash : List Token
behind_slash =
    record { kind = whitespace; start = 5; end = 6 }
    ∷ record { kind = identifier; start = 6; end = 7 }
    ∷ []

abbrev before_slash : List Token
before_slash =
    record { kind = keyword; start = 0; end = 3 }
    ∷ record { kind = whitespace; start = 3; end = 4 }
    ∷ []

abbrev slash_tokens : List Token
slash_tokens = before_slash ++ slash_token ∷ behind_slash

slash_token-is_slash : is_slash slash_text slash_token ≡ true
unfolding is_slash is_lone_slash_line find_newline rfind_newline len_utf8 is_whitespace
slash_token-is_slash = refl

scan_plain-slash_example : (scan_plain blocks slash_tokens slash_text 0 0).next_i ≤ 0 + 2 + 1
scan_plain-slash_example =
    scan_plain-slash blocks slash_tokens slash_text slash_token behind_slash slash_token-is_slash 0
      0 before_slash refl refl

block_scans-slash_example :
    ((scan_opaque_source blocks slash_tokens slash_text 0 0).next_i ≤ 0 + 2 + 1)
    × ((scan_paren_delimited blocks slash_tokens slash_text 0 0).next_i ≤ 0 + 2 + 1)
block_scans-slash_example =
    block_scans-slash blocks slash_tokens slash_text slash_token behind_slash slash_token-is_slash 0
      0 before_slash refl refl

-- The header `q` goes on past a lone `/` line, to the terminator behind it.
header_past_slash :
    (scan_header blocks
      (record { kind = identifier; start = 0; end = 1 }
        ∷ record { kind = whitespace; start = 1; end = 2 }
        ∷ record { kind = operator; start = 2; end = 3 }
        ∷ record { kind = whitespace; start = 3; end = 4 }
        ∷ record { kind = identifier; start = 4; end = 5 }
        ∷ record { kind = operator; start = 5; end = 6 }
        ∷ [])
      (codes "q\n/\nb;")
      0).resume
    ≡ 6
unfolding scan_header introduces_body is_terminator len_utf8 paren_depth_after
header_past_slash = refl
