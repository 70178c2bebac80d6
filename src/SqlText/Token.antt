-- ===== src/SqlText/Token.antt =====
-- crates/sql-text/src/token.rs: tokens, and the lexer state that an editor keeps for each line.
pub mod State
use reldex.Base.{ℕ, ◌-◌, Bool, true, false, ◌==◌}

pub data TokenKind : Type 0 where
  whitespace keyword identifier quoted_identifier string number comment : TokenKind
  operator bind_variable substitution_variable directive error : TokenKind

pub record Token : Type 0 where
  pub kind : TokenKind
  pub start : ℕ
  pub end : ℕ

unfoldable pub len : Token → ℕ
len t = t.end - t.start

unfoldable pub is_empty : Token → Bool
is_empty t = t.start == t.end
