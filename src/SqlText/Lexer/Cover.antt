-- ===== src/SqlText/Lexer/Cover.antt =====
-- The tokens of a line and of a document lie end to end over the whole text.
use reldex.Base.{
  ℕ, zero, suc, ◌+◌, ◌≤◌, ◌≡◌, refl, ap, subst, inl, inr, Bool, List, [], ◌∷◌, ◌++◌, map, length,
  length-append, arith, ◌==◌, ==_iff, Bool-cases,
}
use reldex.Text.{Text, Unicode, len_utf8, byte_len}
use reldex.SqlText.Dialect.{SqlDialect}
use reldex.SqlText.Token.{Token}
use reldex.SqlText.Token.State.{Mode, LexState, initial, is_initial}
use reldex.SqlText.Lexer.Next.{Step, next_token}
use reldex.SqlText.Lexer.Moves.{at}
use reldex.SqlText.Lexer.Takes.{HasDelimiters}
use reldex.SqlText.Lexer.Progress.{next_token-Takes}
use reldex.SqlText.Lexer.Cuts.{
  Tiles, texts, Cuts, Cuts-Tiles, Cuts-texts, Cuts-append, Cuts-shift, Cuts-mark_last,
}
use reldex.SqlText.Lexer.Tokenize.{
  Lexed, Lines, split_lines, shift, scan_tokens, tokenize_block, tokenize_lines, tokenize,
}

length_pos : (t : Text) → 1 ≤ byte_len t → 1 ≤ length t
length_pos [] h = omega arith
length_pos (c ∷ t) h = omega arith

-- `text.split('\n')` loses nothing but the line breaks between the lines.
abbrev joined : List Text → Text
joined [] = []
joined (l ∷ ls) = b'\n' ∷ (l ++ joined ls)

split_lines-joined : (t : Text) → (split_lines t).head ++ joined (split_lines t).tail ≡ t
unfolding split_lines
split_lines-joined [] = refl
split_lines-joined (c ∷ t) = elim (Bool-cases (c == b'\n')) [
  | inl e ↦ rw e (cc ((==_iff c b'\n').0 e, split_lines-joined t))
  | inr e ↦ rw e (ap (◌∷◌ c) (split_lines-joined t))
]

module _ (u : Unicode) (d : SqlDialect) (h : HasDelimiters d) where
  scan_tokens-Cuts :
      (fuel : ℕ) (rest : Text) (pos : ℕ) (mode : Mode) (at_line_start : Bool)
      → length rest ≤ fuel
      → Cuts rest pos
          (scan_tokens u d fuel (record { rest = rest; pos = pos }) mode at_line_start).tokens
  unfolding scan_tokens
  scan_tokens-Cuts zero [] pos mode at_line_start le = refl
  scan_tokens-Cuts zero (ch ∷ t) pos mode at_line_start le = absurd (omega arith)
  scan_tokens-Cuts (suc fuel) [] pos mode at_line_start le = refl
  scan_tokens-Cuts (suc fuel) (ch ∷ t) pos mode at_line_start le =
      let (m, more) = next_token-Takes u d h ch t pos mode at_line_start in
      (
        m.taken,
        s.cursor.rest,
        m.rest_eq,
        refl,
        m.pos_eq,
        more,
        scan_tokens-Cuts fuel s.cursor.rest s.cursor.pos s.mode s.at_line_start (
            omega (
              arith,
              ap length m.rest_eq,
              length-append m.taken s.cursor.rest,
              m.pos_eq,
              length_pos m.taken,
            )),
      )
    where
      s : Step
      s = next_token u d (at ch t pos) ch mode at_line_start

  tokenize_block-Cuts :
      (text : Text) (state : LexState) → Cuts text 0 (tokenize_block u d text state).tokens
  unfolding tokenize_block
  tokenize_block-Cuts text state = scan_tokens-Cuts (length text) text 0 state.mode _ (omega arith)

  tokenize_lines-Cuts :
      (lines : List Text) (state : LexState) (pos : ℕ)
      → Cuts (joined lines) pos (tokenize_lines u d lines state pos).tokens
  unfolding tokenize_lines
  tokenize_lines-Cuts [] state pos = refl
  tokenize_lines-Cuts (line ∷ lines) state pos = (
    b'\n' ∷ [],
    line ++ joined lines,
    refl,
    refl,
    unfold len_utf8 in omega arith,
    omega arith,
    Cuts-append line (joined lines) (pos + 1) (pos + 1 + byte_len line) _ _ refl
        (Cuts-shift line 0 (pos + 1) (pos + 1) _ (omega arith) (tokenize_block-Cuts line state))
        (tokenize_lines-Cuts lines _ (pos + 1 + byte_len line)),
  )

  pub tokenize-Cuts : (text : Text) → Cuts text 0 (tokenize u d text)
  unfolding tokenize
  tokenize-Cuts text = elim (Bool-cases (is_initial after.state)) [
    | inl e ↦ rw e cuts
    | inr e ↦ rw e (Cuts-mark_last text 0 tokens cuts)
  ]
    where
      lines : Lines
      lines = split_lines text

      block : Lexed
      block = tokenize_block u d lines.head initial

      after : Lexed
      after = tokenize_lines u d lines.tail block.state (byte_len lines.head)

      tokens : List Token
      tokens = map (shift 0) block.tokens ++ after.tokens

      cuts : Cuts text 0 tokens
      cuts =
          subst (λ t. Cuts t 0 tokens) (split_lines-joined text)
            (Cuts-append lines.head (joined lines.tail) 0 (byte_len lines.head) _ _ (omega arith)
              (Cuts-shift lines.head 0 0 0 _ refl (tokenize_block-Cuts lines.head initial))
              (tokenize_lines-Cuts lines.tail block.state (byte_len lines.head)))

  -- The tokens of one line, from whatever state it begins in, lie end to end from its first byte to
  -- its last, none of them empty, and their texts one behind the other are the line, for a dialect
  -- whose comment delimiters are not empty.
  pub tokenize_block_covers :
      (text : Text) (state : LexState)
      → let ts = (tokenize_block u d text state).tokens in
        Tiles 0 ts (byte_len text) × (texts text ts ≡ text)
  tokenize_block_covers text state = (
    Cuts-Tiles text 0 _ (byte_len text) (omega arith) (tokenize_block-Cuts text state),
    Cuts-texts text [] text _ refl (tokenize_block-Cuts text state),
  )

  -- The tokens of a document lie end to end from its first byte to its last, none of them empty, and
  -- their texts one behind the other are the document, for a dialect whose comment delimiters are
  -- not empty.
  pub tokenize_covers :
      (text : Text)
      → Tiles 0 (tokenize u d text) (byte_len text) × (texts text (tokenize u d text) ≡ text)
  tokenize_covers text = (
    Cuts-Tiles text 0 _ (byte_len text) (omega arith) (tokenize-Cuts text),
    Cuts-texts text [] text _ refl (tokenize-Cuts text),
  )
