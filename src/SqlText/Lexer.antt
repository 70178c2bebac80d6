-- ===== src/SqlText/Lexer.antt =====
-- crates/sql-text/src/lexer.rs. `Cursor` has the position and the scans of one construct, `Word`
-- the lengths of words, `Next` one token, `Tokenize` a line and a document.
pub mod Cursor
pub mod Word
pub mod Next
pub mod Boundary
pub mod Moves
pub mod Takes
pub mod Progress
pub mod Cuts
pub mod Cover
pub mod Quoted
pub mod Open
pub mod Valid
pub mod Resume
pub mod Tokenize
