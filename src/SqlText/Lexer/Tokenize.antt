-- ===== src/SqlText/Lexer/Tokenize.antt =====
-- crates/sql-text/src/lexer.rs: `tokenize_block`, one line, and `tokenize`, a document. The loop over
-- a line takes fuel, and the length of the line is enough: every token takes a character.
use reldex.Base.{ℕ, zero, suc, ◌+◌, Bool, List, [], ◌∷◌, ◌++◌, map, length, ◌==◌, if◌then◌else◌}
use reldex.Text.{Text, Unicode, byte_len}
use reldex.SqlText.Dialect.{SqlDialect}
use reldex.SqlText.Token.{Token, whitespace, error}
use reldex.SqlText.Token.State.{Mode, LexState, initial, mode_is_normal, is_initial}
use reldex.SqlText.Lexer.Cursor.{Cursor, new}
use reldex.SqlText.Lexer.Next.{next_token}

-- The tokens of a line and the state after it.
pub record Lexed : Type 0 where
  pub tokens : List Token
  pub state : LexState

-- `text.split('\n')`: there is one line more than there are line breaks.
pub record Lines : Type 0 where
  pub head : Text
  pub tail : List Text

unfoldable pub split_lines : Text → Lines
split_lines [] = record { head = []; tail = [] }
split_lines (c ∷ t) =
    let rest = split_lines t in
    if c == b'\n'
    then record { head = []; tail = rest.head ∷ rest.tail }
    else record { head = c ∷ rest.head; tail = rest.tail }

-- `token.start += pos; token.end += pos`.
abbrev pub shift : ℕ → Token → Token
shift pos t = record t { start = t.start + pos; end = t.end + pos }

unfoldable pub mark_last : List Token → List Token
mark_last [] = []
mark_last (t ∷ []) = record t { kind = error } ∷ []
mark_last (t ∷ s ∷ ts) = t ∷ mark_last (s ∷ ts)

module _ (u : Unicode) (d : SqlDialect) where
  unfoldable pub scan_tokens : ℕ → Cursor → Mode → Bool → Lexed
  unfolding next_token
  scan_tokens zero cursor mode at_line_start = record {
    tokens = [];
    state = record { mode = mode };
  }
  scan_tokens (suc fuel) cursor mode at_line_start = elim cursor.rest [
    | [] ↦ record { tokens = []; state = record { mode = mode } }
    | ch ∷ _ ↦
        let s = next_token u d cursor ch mode at_line_start in
        let later = scan_tokens fuel s.cursor s.mode s.at_line_start in
        record {
          tokens = record { kind = s.kind; start = cursor.pos; end = s.cursor.pos } ∷ later.tokens;
          state = later.state;
        }
  ]

  unfoldable pub tokenize_block : Text → LexState → Lexed
  unfolding scan_tokens
  tokenize_block text state =
      scan_tokens (length text) (new text) state.mode (mode_is_normal state.mode)

  -- The lines behind a line break at `pos`.
  unfoldable pub tokenize_lines : List Text → LexState → ℕ → Lexed
  tokenize_lines [] state pos = record { tokens = []; state = state }
  tokenize_lines (line ∷ lines) state pos =
      let block = tokenize_block line state in
      let after = tokenize_lines lines block.state (pos + 1 + byte_len line) in
      record {
        tokens =
            record { kind = whitespace; start = pos; end = pos + 1 }
              ∷ map (shift (pos + 1)) block.tokens
            ++ after.tokens;
        state = after.state;
      }

  unfoldable pub tokenize : Text → List Token
  unfolding split_lines tokenize_lines mark_last
  tokenize text =
      let lines = split_lines text in
      let block = tokenize_block lines.head initial in
      let after = tokenize_lines lines.tail block.state (byte_len lines.head) in
      let tokens = map (shift 0) block.tokens ++ after.tokens in
      if is_initial after.state then tokens else mark_last tokens
