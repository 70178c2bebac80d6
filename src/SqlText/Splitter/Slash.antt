-- ===== src/SqlText/Splitter/Slash.antt =====
-- crates/sql-text/src/splitter.rs: lone `/` lines and the outcomes of scans.
use reldex.Base.{
  ℕ, suc, ◌+◌, max, Bool, true, false, not, ◌&&◌, Option, none, some, List, [], ◌∷◌, length, drop,
  any, ◌==◌, if◌then◌else◌,
}
use reldex.Text.{
  Text, byte_len, len_utf8, drop_bytes, take_bytes, slice, text_eq, is_whitespace, trim_end, codes,
}
use reldex.SqlText.Dialect.{SqlDialect}
use reldex.SqlText.Token.{Token}
use reldex.SqlText.Splitter.Span.{
  StatementKind, slash_line, inferred_block_end, end_of_input, ScanOutcome, is_trivial_or_directive,
  is_operator, token_text,
}

-- `str::find('\n')` and `str::rfind('\n')`, in bytes.
unfoldable pub find_newline : Text → Option ℕ
find_newline [] = none
find_newline (c ∷ t) =
    if c == b'\n'
    then some 0
    else elim (find_newline t) [ none ↦ none | some p ↦ some (len_utf8 c + p) ]

unfoldable pub rfind_newline : Text → Option ℕ
rfind_newline [] = none
rfind_newline (c ∷ t) = elim (rfind_newline t) [
  | none ↦ if c == b'\n' then some 0 else none
  | some p ↦ some (len_utf8 c + p)
]

-- `trim().is_empty()`.
abbrev pub is_blank : Text → Bool
is_blank t = not (any (λ c. not (is_whitespace c)) t)

abbrev pub last_end : ℕ → List Token → ℕ
last_end default [] = default
last_end default (t ∷ ts) = last_end t.end ts

unfoldable pub ran_to_eof : List Token → Text → StatementKind → ScanOutcome
ran_to_eof tokens text kind =
    let end = last_end (byte_len text) tokens in
    record {
      content_end = end;
      full_end = end;
      terminated = false;
      ended_by = end_of_input;
      next_i = length tokens;
      kind = kind;
    }

-- The offsets of the line that holds a token.
abbrev pub line_start : Text → Token → ℕ
line_start text t = elim (rfind_newline (take_bytes t.start text)) [ none ↦ 0 | some p ↦ p + 1 ]

abbrev pub line_end : Text → Token → ℕ
line_end text t = elim (find_newline (drop_bytes t.end text)) [
  | none ↦ byte_len text
  | some p ↦ t.end + p
]

unfoldable pub is_lone_slash_line : Text → Token → Bool
unfolding find_newline rfind_newline
is_lone_slash_line text t =
    text_eq (token_text text t) (codes "/")
    && is_blank (slice text (line_start text t) t.start)
    && is_blank (slice text t.end (line_end text t))

unfoldable pub trailing_line_end : Text → ℕ → ℕ
unfolding find_newline
trailing_line_end text from = elim (find_newline (drop_bytes from text)) [
  | none ↦ byte_len text
  | some p ↦ from + p + 1
]

unfoldable pub end_at_slash_line : Text → Token → StatementKind → ℕ → ℕ → ScanOutcome
unfolding trim_end trailing_line_end
end_at_slash_line text slash_token kind next_i content_start = record {
  content_end = max (byte_len (trim_end (take_bytes slash_token.start text))) content_start;
  full_end = trailing_line_end text slash_token.end;
  terminated = true;
  ended_by = slash_line;
  next_i = next_i;
  kind = kind;
}

-- A lone `/` line, with its index, behind trivia and directives only.
unfoldable pub slash_after : Text → ℕ → List Token → Option (ℕ × Token)
unfolding is_lone_slash_line
slash_after text k [] = none
slash_after text k (t ∷ rest) =
    let later = slash_after text (suc k) rest in
    if is_trivial_or_directive t.kind
    then later
    else if is_operator t.kind && is_lone_slash_line text t
    then some (k, t)
    else none

-- An inferred end, moved to the lone `/` line behind it.
unfoldable pub end_after_slash : Text → ScanOutcome → Option (ℕ × Token) → ScanOutcome
unfolding trailing_line_end
end_after_slash text inferred none = inferred
end_after_slash text inferred (some (k, t)) = record inferred {
  full_end = trailing_line_end text t.end;
  terminated = true;
  ended_by = slash_line;
  next_i = k + 1;
}

unfoldable pub finish_with_maybe_slash :
    SqlDialect → List Token → Text → ℕ → ℕ → ℕ → StatementKind → ScanOutcome
unfolding slash_after end_after_slash
finish_with_maybe_slash d tokens text content_end semi_end next_i kind =
    let inferred : ScanOutcome = record {
      content_end = content_end;
      full_end = semi_end;
      terminated = d.block_may_end_without_slash;
      ended_by = inferred_block_end;
      next_i = next_i;
      kind = kind;
    } in
    if d.slash_terminates_block
    then end_after_slash text inferred (slash_after text next_i (drop next_i tokens))
    else inferred
