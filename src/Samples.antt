-- ===== src/Samples.antt =====
-- The tests of the library, and the theorems at concrete inputs.
mod Lexing
mod Decimals
mod Splitting
mod Statements
mod Results
mod Sessions
mod Batches
mod Queues
