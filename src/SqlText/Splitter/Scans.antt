-- ===== src/SqlText/Splitter/Scans.antt =====
-- crates/sql-text/src/splitter.rs: the scans that no block structure guides. Each walks over the
-- tokens from index `i` on, `rest`.
use reldex.Base.Int.{ℤ, pos, ◌+ℤ◌, ◌-ℤ◌, leb_ℤ}
use reldex.Base.{ℕ, ◌+◌, Bool, true, ◌&&◌, List, [], ◌∷◌, drop, if◌then◌else◌}
use reldex.Text.{Text, text_eq, codes}
use reldex.SqlText.Dialect.{SqlDialect}
use reldex.SqlText.Token.{Token}
use reldex.SqlText.Splitter.Span.{
  plain, block, terminator, ScanOutcome, is_operator, is_word, is_trivial, token_text,
  is_terminator,
}
use reldex.SqlText.Splitter.Slash.{
  ran_to_eof, is_lone_slash_line, end_at_slash_line, finish_with_maybe_slash,
}

-- `token.kind == TokenKind::Operator && is_lone_slash_line(text, token)`.
unfoldable pub is_slash : Text → Token → Bool
is_slash text t = is_operator t.kind && is_lone_slash_line text t

-- The depth behind a token: `(` and `)` change it.
unfoldable pub paren_depth_after : Text → Token → ℤ → ℤ
unfolding ◌+ℤ◌ ◌-ℤ◌
paren_depth_after text t depth =
    if text_eq (token_text text t) (codes "(")
    then depth +ℤ pos 1
    else if text_eq (token_text text t) (codes ")")
    then depth -ℤ pos 1
    else depth

abbrev pub is_paren : Text → Token → Bool
is_paren text t =
    if text_eq (token_text text t) (codes "(")
    then true
    else text_eq (token_text text t) (codes ")")

module _ (d : SqlDialect) (tokens : List Token) (text : Text) where
  unfoldable pub scan_plain_from : ℕ → ℕ → List Token → ScanOutcome
  scan_plain_from content_start i [] = ran_to_eof tokens text plain
  scan_plain_from content_start i (t ∷ rest) =
      if d.slash_terminates_plain && is_slash text t
      then end_at_slash_line text t plain (i + 1) content_start
      else if is_terminator d text t
      then record {
        content_end = t.start;
        full_end = t.end;
        terminated = true;
        ended_by = terminator;
        next_i = i + 1;
        kind = plain;
      }
      else scan_plain_from content_start (i + 1) rest

  unfoldable pub scan_plain : ℕ → ℕ → ScanOutcome
  unfolding scan_plain_from
  scan_plain start content_start = scan_plain_from content_start start (drop start tokens)

  unfoldable pub scan_opaque_source_from : ℕ → ℕ → List Token → ScanOutcome
  scan_opaque_source_from content_start i [] = ran_to_eof tokens text block
  scan_opaque_source_from content_start i (t ∷ rest) =
      if is_slash text t
      then end_at_slash_line text t block (i + 1) content_start
      else scan_opaque_source_from content_start (i + 1) rest

  unfoldable pub scan_opaque_source : ℕ → ℕ → ScanOutcome
  unfolding scan_opaque_source_from
  scan_opaque_source start content_start =
      scan_opaque_source_from content_start start (drop start tokens)

  unfoldable pub scan_paren_delimited_from : ℕ → ℕ → List Token → ℤ → ScanOutcome
  scan_paren_delimited_from content_start i [] depth = ran_to_eof tokens text block
  scan_paren_delimited_from content_start i (t ∷ rest) depth =
      let paren = is_operator t.kind && is_paren text t in
      let later =
        scan_paren_delimited_from content_start (i + 1) rest
          (if paren then paren_depth_after text t depth else depth) in
      if d.slash_terminates_block && is_slash text t
      then end_at_slash_line text t block (i + 1) content_start
      else if paren
      then later
      else if leb_ℤ depth (pos 0) && is_terminator d text t
      then finish_with_maybe_slash d tokens text t.start t.end (i + 1) block
      else later

  unfoldable pub scan_paren_delimited : ℕ → ℕ → ScanOutcome
  unfolding scan_paren_delimited_from
  scan_paren_delimited start content_start =
      scan_paren_delimited_from content_start start (drop start tokens) (pos 0)

  unfoldable pub scan_to_terminator_from : ℕ → ℕ → List Token → ScanOutcome
  scan_to_terminator_from content_start i [] = ran_to_eof tokens text block
  scan_to_terminator_from content_start i (t ∷ rest) =
      if d.slash_terminates_block && is_slash text t
      then end_at_slash_line text t block (i + 1) content_start
      else if is_terminator d text t
      then finish_with_maybe_slash d tokens text t.start t.end (i + 1) block
      else scan_to_terminator_from content_start (i + 1) rest

  unfoldable pub scan_to_terminator : ℕ → ℕ → ScanOutcome
  unfolding scan_to_terminator_from
  scan_to_terminator start content_start =
      scan_to_terminator_from content_start start (drop start tokens)

  -- Words and trivia up to the terminator, and past it; stops in front of anything else.
  unfoldable pub skip_end_qualifier_from : ℕ → List Token → ℕ
  skip_end_qualifier_from i [] = i
  skip_end_qualifier_from i (t ∷ rest) =
      let later = skip_end_qualifier_from (i + 1) rest in
      if is_trivial t.kind
      then later
      else if is_terminator d text t
      then i + 1
      else if is_word t.kind
      then later
      else i

  unfoldable pub skip_end_qualifier : ℕ → ℕ
  unfolding skip_end_qualifier_from
  skip_end_qualifier start = skip_end_qualifier_from start (drop start tokens)

  -- Behind the outermost `END` at `end_index`: words and trivia, then a terminator or nothing known.
  unfoldable pub finish_structured_from : ℕ → List Token → ScanOutcome
  finish_structured_from j [] = ran_to_eof tokens text block
  finish_structured_from j (t ∷ rest) =
      let later = finish_structured_from (j + 1) rest in
      if is_trivial t.kind
      then later
      else if is_word t.kind
      then later
      else if is_terminator d text t
      then finish_with_maybe_slash d tokens text t.start t.end (j + 1) block
      else ran_to_eof tokens text block

  unfoldable pub finish_structured : ℕ → ScanOutcome
  unfolding finish_structured_from
  finish_structured end_index = finish_structured_from (end_index + 1) (drop (end_index + 1) tokens)
