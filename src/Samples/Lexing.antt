-- ===== src/Samples/Lexing.antt =====
-- Runs of the lexer and of its parts.
use reldex.Base.Int.{pos, negsuc}
use reldex.Base.{
  ℕ, ◌^◌, ◌<◌, ◌≡◌, refl, ◌↔◌, inl, true, false, List, [], ◌∷◌, ◌++◌, map, some, arith, ◌==◌,
}
use reldex.Text.{Text, codes, Unicode, slice, byte_len, len_utf8}
use reldex.SqlText.Dialect.{SqlDialect, is_keyword}
use reldex.SqlText.Token.{
  TokenKind, whitespace, identifier, string, number, comment, operator, bind_variable, directive,
  error,
}
use reldex.SqlText.Token.State.{
  initial, normal, q_string, to_raw, from_raw, is_initial, from_raw-to_raw,
}
use reldex.SqlText.Lexer.Cursor.{
  new, bump_while, is_lexer_whitespace, scan_simple_quoted, scan_block_comment, scan_q_string,
  closing_delimiter, maybe_exponent, scan_number,
}
use reldex.SqlText.Lexer.Word.{bind_variable_len, leading_identifier_len}
use reldex.SqlText.Lexer.Next.{next_token}
use reldex.SqlText.Lexer.Tokenize.{tokenize, tokenize_block}
use reldex.SqlText.Lexer.Takes.{HasDelimiters}
use reldex.SqlText.Lexer.Cuts.{Tiles, texts}
use reldex.SqlText.Lexer.Cover.{tokenize_block_covers, tokenize_covers}
use reldex.SqlText.Lexer.Quoted.{escaped, Begins, scan_simple_quoted_iff}
use reldex.SqlText.Lexer.Open.{OpenAtEnd, next_token-OpenAtEnd}
use reldex.SqlText.Lexer.Valid.{AllChars}
use reldex.SqlText.Lexer.Resume.{stored_document, stored_document-tokenize}

abbrev pub thai : Unicode
thai = record { alphabetic = λ c. c == 0xe01; numeric = λ c. false }

abbrev pub dialect : SqlDialect
dialect = record {
  statement_terminators = b';' ∷ [];
  slash_terminates_block = true;
  slash_terminates_plain = true;
  block_may_end_without_slash = true;
  block_starters = [];
  label_delimiters = some (codes "<<", codes ">>");
  block_body_opener = codes "BEGIN";
  block_nesting_openers = codes "CASE" ∷ codes "IF" ∷ codes "LOOP" ∷ [];
  block_end_keyword = codes "END";
  subprogram_header_keywords = codes "PROCEDURE" ∷ codes "FUNCTION" ∷ [];
  body_intro_keywords = codes "IS" ∷ codes "AS" ∷ [];
  body_intro_exceptions = (codes "SELF" ∷ codes "AS" ∷ []) ∷ [];
  call_spec_phrases = (codes "LANGUAGE" ∷ codes "JAVA" ∷ []) ∷ [];
  body_less_markers = codes "CALL" ∷ [];
  sectioned_body_marker = some (codes "COMPOUND" ∷ codes "TRIGGER" ∷ []);
  section_header_starters = codes "BEFORE" ∷ codes "AFTER" ∷ codes "INSTEAD" ∷ [];
  directive_prefix = some b'$';
  quoting = record {
    alternative_quote_prefixes = codes "Q" ∷ codes "NQ" ∷ [];
    national_string_prefixes = codes "N" ∷ [];
  };
  comments = record {
    line_comment = some (codes "--");
    block_comment = some (codes "/*", codes "*/");
    line_comment_words = [];
  };
  bind_variables = true;
  substitution_variables = true;
  keywords = codes "SELECT" ∷ codes "FROM" ∷ codes "WHERE" ∷ codes "BEGIN" ∷ codes "END" ∷ [];
}

abbrev kinds : Text → List (TokenKind × Text)
kinds text = map (λ t. (t.kind, slice text t.start t.end)) (tokenize thai dialect text)

-- What the lexer gives for one line of many forms.
kinds_sample :
    kinds (codes "sel q'[it's]' 1..2 :x /* a\nb*/ 'a''b' $END n'x")
    ≡ (identifier, codes "sel")
      ∷ (whitespace, codes " ")
      ∷ (string, codes "q'[it's]'")
      ∷ (whitespace, codes " ")
      ∷ (number, codes "1")
      ∷ (operator, codes "..")
      ∷ (number, codes "2")
      ∷ (whitespace, codes " ")
      ∷ (bind_variable, codes ":x")
      ∷ (whitespace, codes " ")
      ∷ (comment, codes "/* a")
      ∷ (whitespace, codes "\n")
      ∷ (comment, codes "b*/")
      ∷ (whitespace, codes " ")
      ∷ (string, codes "'a''b'")
      ∷ (whitespace, codes " ")
      ∷ (directive, codes "$END")
      ∷ (whitespace, codes " ")
      ∷ (error, codes "n'x")
      ∷ []
unfolding tokenize tokenize_block len_utf8 is_lexer_whitespace bump_while scan_simple_quoted
    scan_block_comment scan_q_string closing_delimiter scan_number maybe_exponent
    leading_identifier_len bind_variable_len is_keyword is_initial
kinds_sample = refl

-- A line that ends behind the quote of an alternative-quoted literal has a token of kind `error`,
-- and the next line begins with nothing open.
lone_prefix :
    tokenize_block thai dialect (codes "q'") initial
    ≡ record { tokens = record { kind = error; start = 0; end = 2 } ∷ []; state = initial }
unfolding tokenize tokenize_block len_utf8 is_lexer_whitespace bump_while scan_simple_quoted
    scan_block_comment scan_q_string closing_delimiter scan_number maybe_exponent
    leading_identifier_len bind_variable_len is_keyword is_initial
lone_prefix = refl

dialect-HasDelimiters : HasDelimiters dialect
dialect-HasDelimiters = record { line = λ e. cc; block = (λ e. cc, λ e. cc) }

-- Thai letters take three bytes, and the comment goes on over a line break.
abbrev script : Text
script = codes "SELECT 'ก', 1 /* a\nb */ FROM t"

tokenize_block_covers_example :
    Tiles 0 (tokenize_block thai dialect (codes "a 'b") initial).tokens 4
    × (texts (codes "a 'b") (tokenize_block thai dialect (codes "a 'b") initial).tokens
        ≡ codes "a 'b")
unfolding len_utf8
tokenize_block_covers_example =
    tokenize_block_covers thai dialect dialect-HasDelimiters (codes "a 'b") initial

tokenize_covers_example :
    Tiles 0 (tokenize thai dialect script) (byte_len script)
    × (texts script (tokenize thai dialect script) ≡ script)
tokenize_covers_example = tokenize_covers thai dialect dialect-HasDelimiters script

scan_simple_quoted_iff_example :
    ((scan_simple_quoted (new (codes "it''s' x")) b'\'').1 ≡ true)
      × ((scan_simple_quoted (new (codes "it''s' x")) b'\'').0.rest ≡ codes " x")
    ↔ ((body : Text) × (codes "it''s' x" ≡ escaped b'\'' body ++ b'\'' ∷ codes " x")
        × (¬ Begins b'\'' (codes " x")))
scan_simple_quoted_iff_example = scan_simple_quoted_iff b'\'' (codes "it''s' x") (codes " x") 0

next_token-OpenAtEnd_example :
    OpenAtEnd (next_token thai dialect (new (codes "'ab")) b'\'' normal true)
next_token-OpenAtEnd_example =
    next_token-OpenAtEnd thai dialect (new (codes "'ab")) b'\'' normal true

from_raw-to_raw_example :
    (from_raw (to_raw (record { mode = q_string 0xe01 })) ≡ record { mode = q_string 0xe01 })
    × ((n : ℕ) × (to_raw (record { mode = q_string 0xe01 }) ≡ pos n) × (n < 2 ^ 31))
from_raw-to_raw_example = from_raw-to_raw (record { mode = q_string 0xe01 }) (inl (omega arith))

-- What `to_raw` never gives is not always read as the initial state.
unknown_raw :
    (is_initial (from_raw (pos 9)) ≡ false)
    × (is_initial (from_raw (pos 5)) ≡ true)
    × (is_initial (from_raw (negsuc 0)) ≡ true)
unfolding from_raw is_initial
unknown_raw = (refl, refl, refl)

-- The literal goes over the line break.
abbrev two_lines : Text
two_lines = codes "q'[\n]'"

two_lines-AllChars : AllChars two_lines
two_lines-AllChars = (
  inl (omega arith),
  (
    inl (omega arith),
    (inl (omega arith), (inl (omega arith), (inl (omega arith), (inl (omega arith), tt)))),
  ),
)

stored_document-tokenize_example :
    stored_document thai dialect two_lines ≡ tokenize thai dialect two_lines
stored_document-tokenize_example =
    stored_document-tokenize thai dialect dialect-HasDelimiters two_lines two_lines-AllChars
