-- ===== src/Lib.antt =====
-- Reldex, a database development environment: the parts of its Rust crates that decide what text and
-- which values mean, modelled and verified.
--
-- crates/sql-text reads SQL as text. The lexer (crates/sql-text/src/lexer.rs) cuts a document or one
-- line of an editor into tokens, carrying a small state from line to line (crates/sql-text/src/token.rs),
-- for a dialect that a driver gives as data (crates/sql-text/src/dialect.rs). The splitter
-- (crates/sql-text/src/splitter.rs) cuts the tokens of a document into the statements that are sent to
-- a database, and finds the one at a cursor.
--
-- crates/db-driver-api/src/value/number.rs holds the exact decimal number that drivers deliver, and
-- crates/db-core/src/store/scaled.rs the form with a 64-bit mantissa that result columns keep.
--
-- A driver delivers rows in batches of columns (crates/db-driver-api/src/result.rs), described by
-- types.rs and with the errors of error.rs. crates/db-core/src/store keeps what was fetched: segment.rs
-- makes a compact segment of a batch, result_store.rs holds the segments of one result with the fetches
-- that are in flight and decides what to fetch next within the caps of policy.rs, and
-- session_results.rs passes the events of a session on to its stores. crates/db-core/src/events.rs is the queue that carries
-- the events from the workers of all sessions to the one consumer that drains them. A client submits what a store
-- says is due, and gives it the replies; the store itself calls nothing.
--
-- Which file models what:
--   Base         shared names, Boolean tests, lists over the native numbers, signed integers.
--   Text         `&str` as its code points, with UTF-8 byte offsets, `char` and `str` operations.
--   SqlText.Token, SqlText.Token.State   token.rs: tokens, `Mode`, `LexState::to_raw` and `from_raw`.
--   SqlText.Dialect                      dialect.rs.
--   SqlText.Lexer.Cursor, Word, Next, Tokenize   lexer.rs: the cursor and its scans, the lengths of
--                words, `next_token`, `tokenize_block` and `tokenize`. A `&mut Cursor` is a cursor that
--                is returned; each early return of `next_token_normal` is a rule that gives a step.
--   SqlText.Lexer.Boundary, Moves, Takes, Progress, Cuts, Cover, Quoted, Open, Valid,
--                Resume   proofs about these.
--   SqlText.Splitter.Span, Phrases, Slash, Scans, Structured, Split   splitter.rs. A loop over tokens
--                walks over the list that is left, with its index; `scan_structured`, `skip_labels` and
--                `split_statements`, whose index jumps, are loops on fuel that give no result without
--                it. The body of the loop of `scan_structured` is one step.
--   SqlText.Splitter.Within, Ends, Onward, Starts, Total, Spans, Order, Slashes,
--                At, Floor   proofs about these.
--   Decimal.Number    number.rs: `Number`, `from_digits`, `Display`. The digits are the `len` used ones.
--   Decimal.Parse, Decimal.Integers, Decimal.Order   number.rs: `parse`; `from_magnitude`,
--                `to_i128` and `to_i64`; `Ord`.
--   Decimal.Scaled    scaled.rs: `ScaledNumber` and its operations.
--   Decimal.Digits, Zeros, Canonical, Mantissa, RoundTrip, Exact, Required, Trim, Display,
--                ParseDigits, ParseDisplay, IntegersBack, OrderLaws, OrderDigits,
--                OrderValues   proofs about these.
--   Driver.Error, Types, Vectors, Nulls, Texts, Bytes, Rows   error.rs, types.rs and result.rs of
--                crates/db-driver-api/src. A vector is its items and its capacity, which grows as the
--                standard library grows it. A float is its bits, and a locator of a large object a
--                number, since only its driver can read it. Driver.Kept is a proof about text columns.
--   Store.Ids, Policy    crates/db-core/src/ids.rs without the counters that allocate; policy.rs.
--   Store.Segment, Compact   segment.rs. The callback that parks a locator is a function with a state of
--                its own; the sizes of the structs of a segment are a parameter (`Layout`). The buffers
--                that wait to be freed together are a list that is handed on.
--   Store.Result, Fetch, Inputs, Lookup   result_store.rs: the state; what is due and the loop that
--                submits it; the replies and what else changes a store; reading. A debug build panics on
--                a reply out of sequence, which is `none`, so the flag is an argument of `on_fetched`.
--   Store.Session    session_results.rs.
--   Events.Event, Queue    events.rs: the events, of which the replies that neither the queue nor a store
--                looks into are one constructor; the queue. Its operations hold a lock, so each is one
--                step. The counters of the request slots have numbers, and the map of the sessions is a
--                function.
--   Events.Run   the sequences of pushes and of events taken out, as a relation.
--   Events.Outcome, Counting, Lines, Tally, Known, Pushes, Bounds   proofs about the queue.
--   Store.Reach, Held    the steps of a store and of a session as relations, and what is reached.
--   Store.Faithful, Reads, Same, NoLobs   proofs about segments.
--   Store.Sound, Settle, Keeps, Replies, Live, Pump, Final, Over, Failed, Failing, Stored, Found,
--                Find   proofs about one store.
--   Store.Pending, Waiting   proofs about the stores of a session.
--   Samples      runs at concrete inputs, and the theorems at inputs that meet their hypotheses.
--
-- Bounds and fuel: byte offsets are natural numbers, since a text in memory is shorter than `usize`
-- counts. The loop of `tokenize_block` takes fuel, as much as the line has characters. The fuel of the
-- splitter's loops is one more than the tokens. Counts of parentheses, blocks, lines and columns do not
-- wrap, since a text has fewer tokens than an `i32` counts. The loops of `magnitude_digits` and of
-- `from_magnitude` take as much as their arrays have places, twenty for a magnitude of 64 bits and 39
-- for one of 128. The `i128` of `from_number` is a natural number, since
-- at most nineteen digits come in, and so are the `i32` differences of exponents and lengths.
--
-- The loop of `pump` takes fuel: two more than the fetches that may be in flight, since each action it
-- submits is a fetch or the one close. A `usize` has 64 bits, and its saturating operations are written
-- out; plain additions of rows and bytes that are in memory do not wrap. The texts of internal errors
-- are constants, without the numbers that they name. A closed queue is drained as often as it holds
-- events. Its sequence numbers do not wrap, and its debug assertions are left out.
--
-- Not modelled: the tables of `char::is_alphabetic` and `char::is_alphanumeric` above ASCII are a
-- parameter (`Text.Unicode`). In number.rs, `to_f64_lossy` is not modelled. In result.rs and
-- error.rs, output values, warnings, cursors and the builders and `Display` of errors are not, nor in
-- segment.rs the borrowed views of columns. Database drivers, the session worker, the
-- waker of the event queue and its `wait_timeout`, the settings and the foreign interface are not
-- modelled.
pub mod Base
pub mod Text
pub mod SqlText
pub mod Decimal
pub mod Driver
pub mod Store
pub mod Events
pub mod Samples
