-- ===== src/SqlText/Splitter/Span.antt =====
-- crates/sql-text/src/splitter.rs: statements, the outcome of one scan, and the kinds of tokens.
use reldex.Base.{ℕ, suc, Bool, true, false, ◌&&◌, List, [], ◌∷◌, drop, any, ◌==◌}
use reldex.Text.{Text, len_utf8, slice}
use reldex.SqlText.Dialect.{SqlDialect}
use reldex.SqlText.Token.{
  TokenKind, Token, len, whitespace, keyword, identifier, comment, operator, directive,
}

pub data StatementKind : Type 0 where
  plain block : StatementKind

pub data EndedBy : Type 0 where
  terminator slash_line inferred_block_end end_of_input : EndedBy

pub record StatementSpan : Type 0 where
  pub content_start : ℕ
  pub content_end : ℕ
  pub full_end : ℕ
  pub start_line : ℕ
  pub start_column : ℕ
  pub kind : StatementKind
  pub ended_by : EndedBy
  pub terminated : Bool

unfoldable pub content : StatementSpan → Text → Text
content s text = slice text s.content_start s.content_end

unfoldable pub full : StatementSpan → Text → Text
full s text = slice text s.content_start s.full_end

pub record ScanOutcome : Type 0 where
  pub content_end : ℕ
  pub full_end : ℕ
  pub terminated : Bool
  pub ended_by : EndedBy
  pub next_i : ℕ
  pub kind : StatementKind

abbrev pub is_word : TokenKind → Bool
is_word keyword = true
is_word identifier = true
is_word _ = false

abbrev pub is_trivial : TokenKind → Bool
is_trivial whitespace = true
is_trivial comment = true
is_trivial _ = false

abbrev pub is_trivial_or_directive : TokenKind → Bool
is_trivial_or_directive whitespace = true
is_trivial_or_directive comment = true
is_trivial_or_directive directive = true
is_trivial_or_directive _ = false

-- `token.kind == TokenKind::Operator`.
abbrev pub is_operator : TokenKind → Bool
is_operator operator = true
is_operator _ = false

-- `&text[token.start..token.end]`.
abbrev pub token_text : Text → Token → Text
token_text text t = slice text t.start t.end

-- The tokens from index `i` on are `rest`.
abbrev pub skip_trivial_from : ℕ → List Token → ℕ
skip_trivial_from i [] = i
skip_trivial_from i (t ∷ rest) = elim (is_trivial t.kind) [
  | true ↦ skip_trivial_from (suc i) rest
  | false ↦ i
]

unfoldable pub skip_trivial : List Token → ℕ → ℕ
skip_trivial tokens i = skip_trivial_from i (drop i tokens)

-- The first character is the whole token, and a terminator of the dialect.
abbrev pub is_terminator_text : SqlDialect → ℕ → Text → Bool
is_terminator_text d size [] = false
is_terminator_text d size (c ∷ _) = size == len_utf8 c && any (λ t. t == c) d.statement_terminators

unfoldable pub is_terminator : SqlDialect → Text → Token → Bool
unfolding len
is_terminator d text token =
    is_operator token.kind && is_terminator_text d (len token) (token_text text token)
