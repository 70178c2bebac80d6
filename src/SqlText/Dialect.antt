-- ===== src/SqlText/Dialect.antt =====
-- crates/sql-text/src/dialect.rs: what a driver tells the lexer and the splitter about its SQL.
use reldex.Base.{Bool, List, Option, any}
use reldex.Text.{Text, eq_ignore_ascii_case}
use reldex.Base.{ℕ}

-- Words matched in order, whatever their case.
abbrev pub Phrase : Type 0
Phrase = List Text

pub data KeywordSlot : Type 0 where
  required : List Phrase → KeywordSlot
  optional : List Phrase → KeywordSlot

pub data BlockKind : Type 0 where
  structured opaque_source paren_delimited : BlockKind

pub record BlockStarter : Type 0 where
  pub slots : List KeywordSlot
  pub kind : BlockKind
  pub opens_body : Bool

pub record QuotingRules : Type 0 where
  pub alternative_quote_prefixes : List Text
  pub national_string_prefixes : List Text

pub record CommentRules : Type 0 where
  pub line_comment : Option Text
  pub block_comment : Option (Text × Text)
  pub line_comment_words : List Text

pub record SqlDialect : Type 0 where
  pub statement_terminators : List ℕ
  pub slash_terminates_block : Bool
  pub slash_terminates_plain : Bool
  pub block_may_end_without_slash : Bool
  pub block_starters : List BlockStarter
  pub label_delimiters : Option (Text × Text)
  pub block_body_opener : Text
  pub block_nesting_openers : List Text
  pub block_end_keyword : Text
  pub subprogram_header_keywords : List Text
  pub body_intro_keywords : List Text
  pub body_intro_exceptions : List Phrase
  pub call_spec_phrases : List Phrase
  pub body_less_markers : List Text
  pub sectioned_body_marker : Option Phrase
  pub section_header_starters : List Text
  pub directive_prefix : Option ℕ
  pub quoting : QuotingRules
  pub comments : CommentRules
  pub bind_variables : Bool
  pub substitution_variables : Bool
  pub keywords : List Text

-- `iter().any(|w| w.eq_ignore_ascii_case(word))`.
abbrev pub has_word : List Text → Text → Bool
has_word words word = any (λ w. eq_ignore_ascii_case w word) words

unfoldable pub is_keyword : SqlDialect → Text → Bool
is_keyword d word = has_word d.keywords word
