-- ===== src/SqlText.antt =====
-- crates/sql-text: tokens, dialect data, the lexer and the statement splitter.
pub mod Token
pub mod Dialect
pub mod Lexer
pub mod Splitter
