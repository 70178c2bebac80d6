-- ===== src/SqlText/Lexer/Resume.antt =====
-- crates/sql-text/src/lexer.rs and token.rs: an editor lexes a document line by line, and stores the
-- state behind each line as an `int`.
use reldex.Base.Int.{ℤ, negsuc}
use reldex.Base.{
  ℕ, zero, suc, ◌+◌, ◌≡◌, ap, ◌∙◌, subst, Bool, List, [], ◌∷◌, ◌++◌, map, length, ◌==◌, Bool-cases,
  if◌then◌else◌, inl, inr,
}
use reldex.Text.{Text, Unicode, byte_len}
use reldex.SqlText.Dialect.{SqlDialect}
use reldex.SqlText.Token.{Token, whitespace}
use reldex.SqlText.Token.State.{
  Mode, LexState, initial, mode_is_normal, is_initial, to_raw, from_raw, IsValid, from_raw-to_raw,
}
use reldex.SqlText.Lexer.Next.{Step, next_token}
use reldex.SqlText.Lexer.Tokenize.{
  Lexed, split_lines, shift, mark_last, scan_tokens, tokenize_block, tokenize_lines, tokenize,
}
use reldex.SqlText.Lexer.Moves.{at}
use reldex.SqlText.Lexer.Takes.{HasDelimiters}
use reldex.SqlText.Lexer.Progress.{next_token-Takes}
use reldex.SqlText.Lexer.Valid.{AllChars, AllChars-suffix, next_token-Saves}

abbrev AllLines : List Text → Type 0
AllLines [] = Unit {0}
AllLines (line ∷ lines) = AllChars line × AllLines lines

split_lines-AllLines :
    (text : Text)
    → AllChars text
    → AllChars (split_lines text).head × AllLines (split_lines text).tail
unfolding split_lines
split_lines-AllLines [] h = (tt, tt)
split_lines-AllLines (c ∷ t) h = elim (Bool-cases (c == b'\n')) [
  | inl e ↦ rw (e, split_lines) (tt, split_lines-AllLines t h.1)
  | inr e ↦
      rw (e, split_lines) ((h.0, (split_lines-AllLines t h.1).0), (split_lines-AllLines t h.1).1)
]

-- A line behind a line break at `pos`, and the lines behind it.
abbrev behind : ℕ → Lexed → Lexed → Lexed
behind pos block after = record {
  tokens =
      record { kind = whitespace; start = pos; end = pos + 1 } ∷ map (shift (pos + 1)) block.tokens
      ++ after.tokens;
  state = after.state;
}

-- The tokens of a document, from those of its first line and of the others.
abbrev assembled : Lexed → Lexed → List Token
assembled block after =
    let tokens = map (shift 0) block.tokens ++ after.tokens in
    if is_initial after.state then tokens else mark_last tokens

module _ (u : Unicode) (d : SqlDialect) where
  -- The lines behind a line break at `pos`, where `raw` was stored for the line before.
  stored_lines : List Text → ℤ → ℕ → Lexed
  stored_lines [] raw pos = record { tokens = []; state = from_raw raw }
  stored_lines (line ∷ lines) raw pos =
      let block = tokenize_block u d line (from_raw raw) in
      behind pos block (stored_lines lines (to_raw block.state) (pos + 1 + byte_len line))

  -- A document, where -1 stands for no line before, as in Qt.
  pub stored_document : Text → List Token
  unfolding stored_lines
  stored_document text =
      let lines = split_lines text in
      let block = tokenize_block u d lines.head (from_raw (negsuc 0)) in
      assembled block (stored_lines lines.tail (to_raw block.state) (byte_len lines.head))

  module _ (h : HasDelimiters d) where
    scan_tokens-IsValid :
        (fuel : ℕ) (rest : Text) (pos : ℕ) (mode : Mode) (at_line_start : Bool)
        → AllChars rest
        → IsValid mode
        → IsValid
            (scan_tokens u d fuel (record { rest = rest; pos = pos }) mode at_line_start).state.mode
    unfolding scan_tokens
    scan_tokens-IsValid zero rest pos mode at_line_start c v = v
    scan_tokens-IsValid (suc fuel) [] pos mode at_line_start c v = v
    scan_tokens-IsValid (suc fuel) (ch ∷ t) pos mode at_line_start c v =
        let (moves, _) = next_token-Takes u d h ch t pos mode at_line_start in
        scan_tokens-IsValid fuel s.cursor.rest s.cursor.pos s.mode s.at_line_start
          (AllChars-suffix moves.taken s.cursor.rest (subst AllChars moves.rest_eq c))
          (next_token-Saves u d (at ch t pos) ch mode at_line_start c v).valid
      where
        s : Step
        s = next_token u d (at ch t pos) ch mode at_line_start

    tokenize_block-IsValid :
        (text : Text) (state : LexState)
        → AllChars text
        → IsValid state.mode
        → IsValid (tokenize_block u d text state).state.mode
    unfolding tokenize_block
    tokenize_block-IsValid text state c v =
        scan_tokens-IsValid (length text) text 0 state.mode (mode_is_normal state.mode) c v

    stored_lines-tokenize_lines :
        (lines : List Text) (state : LexState) (pos : ℕ)
        → AllLines lines
        → IsValid state.mode
        → stored_lines lines (to_raw state) pos ≡ tokenize_lines u d lines state pos
    unfolding stored_lines tokenize_lines
    stored_lines-tokenize_lines [] state pos c v =
        ap (λ s. record { tokens = []; state = s }) (from_raw-to_raw state v).0
    stored_lines-tokenize_lines (line ∷ lines) state pos c v =
        ap
          (λ s. behind pos (tokenize_block u d line s) (
            stored_lines lines (to_raw (tokenize_block u d line s).state)
              (pos + 1 + byte_len line)))
          (from_raw-to_raw state v).0
        ∙ ap (behind pos (tokenize_block u d line state)) (
            stored_lines-tokenize_lines lines (tokenize_block u d line state).state
              (pos + 1 + byte_len line) c.1 (tokenize_block-IsValid line state c.0 v))

    -- A document that is lexed line by line, where only an `int` is kept between two lines, -1 in front
    -- of the first, has the same tokens as the document lexed as a whole, whatever comments and quoted
    -- forms go over line breaks, for a text of characters and a dialect whose comment delimiters are not
    -- empty.
    pub stored_document-tokenize :
        (text : Text) → AllChars text → stored_document text ≡ tokenize u d text
    unfolding stored_document tokenize from_raw
    stored_document-tokenize text c =
        let (head, tail) = split_lines-AllLines text c in
        ap (assembled block) (
          stored_lines-tokenize_lines (split_lines text).tail block.state
            (byte_len (split_lines text).head) tail
            (tokenize_block-IsValid (split_lines text).head initial head tt))
      where
        block : Lexed
        block = tokenize_block u d (split_lines text).head initial
