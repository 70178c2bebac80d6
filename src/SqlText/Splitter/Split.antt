-- ===== src/SqlText/Splitter/Split.antt =====
-- crates/sql-text/src/splitter.rs: `split_statements` and `statement_at`. Lines and columns are
-- natural numbers, since a text in memory has fewer than `u32` counts.
use reldex.Base.{
  ℕ, zero, suc, ◌+◌, min, Bool, true, false, not, ◌&&◌, ◌||◌, Option, none, some, List, [], ◌∷◌,
  length, get_elem?, any, find, leb, ◌==◌, if◌then◌else◌,
}
use reldex.Text.{Text, Unicode, byte_len, slice, is_char_boundary}
use reldex.SqlText.Dialect.{SqlDialect, BlockStarter, structured, opaque_source, paren_delimited}
use reldex.SqlText.Token.{Token}
use reldex.SqlText.Lexer.Tokenize.{tokenize}
use reldex.SqlText.Splitter.Span.{StatementSpan, ScanOutcome, skip_trivial}
use reldex.SqlText.Splitter.Phrases.{
  Word, skip_labels, collect_leading_words, matches_block_starter,
}
use reldex.SqlText.Splitter.Scans.{is_slash, scan_plain, scan_opaque_source, scan_paren_delimited}
use reldex.SqlText.Splitter.Structured.{scan_structured}

pub record PositionCursor : Type 0 where
  pub pos : ℕ
  pub line : ℕ
  pub column : ℕ

abbrev pub start_position : PositionCursor
start_position = record { pos = 0; line = 1; column = 1 }

-- The line and column behind the characters of a text.
abbrev pub advance_over : Text → PositionCursor → PositionCursor
advance_over [] p = p
advance_over (c ∷ t) p = advance_over t (
    if c == b'\n'
    then record p { line = p.line + 1; column = 1 }
    else record p { column = p.column + 1 })

unfoldable pub advance_to : Text → PositionCursor → ℕ → PositionCursor
advance_to text p target = record (advance_over (slice text p.pos target) p) { pos = target }

-- A starter that matched, and the index to scan on from.
pub record Matched : Type 0 where
  pub starter : BlockStarter
  pub resume : ℕ

unfoldable pub find_starter : List BlockStarter → List Word → ℕ → Option Matched
find_starter [] words start = none
find_starter (starter ∷ starters) words start = elim (matches_block_starter starter words start) [
  | some resume ↦ some (record { starter = starter; resume = resume })
  | none ↦ find_starter starters words start
]

module _ (d : SqlDialect) (tokens : List Token) (text : Text) where
  unfoldable pub scan_block : Matched → ℕ → Option ScanOutcome
  scan_block m content_start = elim m.starter.kind [
    | structured ↦ scan_structured d tokens text m.starter m.resume content_start
    | opaque_source ↦ some (scan_opaque_source d tokens text m.resume content_start)
    | paren_delimited ↦ some (scan_paren_delimited d tokens text m.resume content_start)
  ]

  -- One statement from its first token, at index `i`.
  unfoldable pub scan_statement : ℕ → ℕ → Option ScanOutcome
  unfolding find_starter scan_block
  scan_statement i content_start = elim (skip_labels d tokens text i) [
    | none ↦ none
    | some label_skipped ↦
        elim (find_starter d.block_starters (collect_leading_words tokens text label_skipped)
          label_skipped) [
            | none ↦ some (scan_plain d tokens text i content_start)
            | some m ↦ scan_block m content_start
          ]
  ]

  -- A lone `/` line with nothing pending.
  unfoldable pub is_idle_slash : Token → Bool
  is_idle_slash t = (d.slash_terminates_block || d.slash_terminates_plain) && is_slash text t

  abbrev pub span_of : ℕ → PositionCursor → ScanOutcome → StatementSpan
  span_of content_start cursor outcome = record {
    content_start = content_start;
    content_end = outcome.content_end;
    full_end = outcome.full_end;
    start_line = cursor.line;
    start_column = cursor.column;
    kind = outcome.kind;
    ended_by = outcome.ended_by;
    terminated = outcome.terminated;
  }

  -- The loop, on fuel.
  unfoldable pub split_loop : ℕ → ℕ → PositionCursor → Option (List StatementSpan)
  unfolding scan_statement is_idle_slash advance_to
  split_loop zero i cursor = none
  split_loop (suc fuel) i cursor =
      let first_i = skip_trivial tokens i in
      elim (get_elem? tokens first_i) [
        | none ↦ some []
        | some first ↦ elim (is_idle_slash first) [
          | true ↦ split_loop fuel (first_i + 1) cursor
          | false ↦
              let at_start = advance_to text cursor first.start in
              elim (scan_statement first_i first.start) [
                | none ↦ none
                | some outcome ↦
                    elim (split_loop fuel outcome.next_i
                      (advance_to text at_start outcome.full_end)) [
                        | none ↦ none
                        | some spans ↦ some (span_of first.start at_start outcome ∷ spans)
                      ]
              ]
        ]
      ]

unfoldable pub split_statements : Unicode → SqlDialect → Text → Option (List StatementSpan)
unfolding split_loop
split_statements u d text =
    let tokens = tokenize u d text in
    split_loop d tokens text (suc (length tokens)) 0 start_position

unfoldable pub floor_char_boundary : Text → ℕ → ℕ
unfolding is_char_boundary
floor_char_boundary text zero = 0
floor_char_boundary text (suc index) =
    let lower = floor_char_boundary text index in
    if is_char_boundary text (suc index) then suc index else lower

-- `max_by_key`: the last of the largest.
unfoldable pub last_preceding : ℕ → List StatementSpan → Option StatementSpan
last_preceding offset [] = none
last_preceding offset (s ∷ spans) = elim (last_preceding offset spans) [
  | none ↦ if leb s.full_end offset then some s else none
  | some best ↦
      if leb s.full_end offset && not (leb s.full_end best.full_end) then some s else some best
]

unfoldable pub statement_in : Text → List StatementSpan → ℕ → Option StatementSpan
unfolding last_preceding
statement_in text spans offset =
    elim (find (λ s. leb s.content_start offset && leb offset s.full_end) spans) [
      | some hit ↦ some hit
      | none ↦ elim (last_preceding offset spans) [
        | none ↦ none
        | some preceding ↦
            if any (λ c. c == b'\n') (slice text preceding.full_end offset)
            then none
            else some preceding
      ]
    ]

-- The outer result is that of `split_statements`.
unfoldable pub statement_at : Unicode → SqlDialect → Text → ℕ → Option (Option StatementSpan)
unfolding split_statements floor_char_boundary statement_in
statement_at u d text offset =
    let at = floor_char_boundary text (min offset (byte_len text)) in
    elim (split_statements u d text) [
      | none ↦ none
      | some spans ↦ some (statement_in text spans at)
    ]
