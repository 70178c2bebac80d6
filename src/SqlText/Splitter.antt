-- ===== src/SqlText/Splitter.antt =====
-- crates/sql-text/src/splitter.rs. `Span` has the results, `Phrases` the matching of words, `Slash`
-- the ends of statements, `Scans` the scans that no structure guides, `Structured` the one that
-- block structure guides, and `Split` the statements of a document.
pub mod Span
pub mod Phrases
pub mod Slash
pub mod Scans
pub mod Within
pub mod Ends
pub mod Onward
pub mod Starts
pub mod Total
pub mod Spans
pub mod Order
pub mod Slashes
pub mod At
pub mod Floor
pub mod Structured
pub mod Split
