-- ===== src/SqlText/Lexer/Cursor.antt =====
-- crates/sql-text/src/lexer.rs: `Cursor`, and the loops that move it past one construct. A cursor
-- is the text that is left and the byte offset where that begins.
use reldex.Base.{
  ℕ, ◌+◌, Bool, true, false, ◌&&◌, ◌||◌, Option, none, some, [], ◌∷◌, ◌==◌, if◌then◌else◌,
}
use reldex.Text.{Text, len_utf8, byte_len, drop_bytes, starts_with, is_whitespace, is_ascii_digit}

pub record Cursor : Type 0 where
  pub rest : Text
  pub pos : ℕ

-- `Cursor::new`.
abbrev pub new : Text → Cursor
new text = record { rest = text; pos = 0 }

abbrev pub first : Text → Option ℕ
first [] = none
first (c ∷ _) = some c

abbrev pub second : Text → Option ℕ
second (_ ∷ c ∷ _) = some c
second _ = none

abbrev pub peek : Cursor → Option ℕ
peek cursor = first cursor.rest

abbrev pub peek2 : Cursor → Option ℕ
peek2 cursor = second cursor.rest

-- `matches!(…, Some(c) if test(c))`.
abbrev pub holds : (ℕ → Bool) → Option ℕ → Bool
holds test none = false
holds test (some c) = test c

abbrev pub at_end : Cursor → Bool
at_end cursor = elim cursor.rest [ [] ↦ true | _ ↦ false ]

abbrev bump_in : Text → ℕ → Cursor
bump_in [] pos = record { rest = []; pos = pos }
bump_in (c ∷ t) pos = record { rest = t; pos = pos + len_utf8 c }

-- Past the current character.
abbrev pub bump : Cursor → Cursor
bump cursor = bump_in cursor.rest cursor.pos

-- `cursor.pos += n`.
abbrev pub advance : ℕ → Cursor → Cursor
advance n cursor = record { rest = drop_bytes n cursor.rest; pos = cursor.pos + n }

-- `while matches!(cursor.peek(), Some(c) if test(c)) { cursor.bump(); }`
abbrev pub bump_while_in : (ℕ → Bool) → Text → ℕ → Cursor
bump_while_in test [] pos = record { rest = []; pos = pos }
bump_while_in test (c ∷ t) pos =
    if test c then bump_while_in test t (pos + len_utf8 c) else record { rest = c ∷ t; pos = pos }

unfoldable pub bump_while : (ℕ → Bool) → Cursor → Cursor
bump_while test cursor = bump_while_in test cursor.rest cursor.pos

unfoldable pub is_lexer_whitespace : ℕ → Bool
unfolding is_whitespace
is_lexer_whitespace c = is_whitespace c || c == 0xfeff

-- What a scan leaves: the cursor, and whether it found the end of the construct.
abbrev pub Scan : Type 0
Scan = Cursor × Bool

-- After the quote at `pos`: a second one is an escape.
unfoldable pub scan_quoted_in : ℕ → Text → ℕ → Scan
scan_quoted_in quote [] pos = (record { rest = []; pos = pos }, false)
scan_quoted_in quote (c ∷ []) pos = (record { rest = []; pos = pos + len_utf8 c }, c == quote)
scan_quoted_in quote (c ∷ d ∷ t) pos = elim (c == quote) [
  | false ↦ scan_quoted_in quote (d ∷ t) (pos + len_utf8 c)
  | true ↦ elim (d == quote) [
    | true ↦ scan_quoted_in quote t (pos + len_utf8 c + len_utf8 d)
    | false ↦ (record { rest = d ∷ t; pos = pos + len_utf8 c }, true)
  ]
]

unfoldable pub scan_simple_quoted : Cursor → ℕ → Scan
unfolding scan_quoted_in
scan_simple_quoted cursor quote = scan_quoted_in quote cursor.rest cursor.pos

unfoldable pub scan_block_comment_in : Text → Text → ℕ → Scan
scan_block_comment_in close [] pos = (record { rest = []; pos = pos }, starts_with [] close)
scan_block_comment_in close (c ∷ t) pos = elim (starts_with (c ∷ t) close) [
  | true ↦ (advance (byte_len close) (record { rest = c ∷ t; pos = pos }), true)
  | false ↦ scan_block_comment_in close t (pos + len_utf8 c)
]

unfoldable pub scan_block_comment : Cursor → Text → Scan
unfolding scan_block_comment_in
scan_block_comment cursor close = scan_block_comment_in close cursor.rest cursor.pos

-- An alternative-quoted literal ends at its closing delimiter with a quote right behind it.
unfoldable pub scan_q_string_in : ℕ → Text → ℕ → Scan
scan_q_string_in closing [] pos = (record { rest = []; pos = pos }, false)
scan_q_string_in closing (c ∷ t) pos = elim (c == closing && holds (λ d. d == b'\'') (first t)) [
  | true ↦ (bump (record { rest = t; pos = pos + len_utf8 c }), true)
  | false ↦ scan_q_string_in closing t (pos + len_utf8 c)
]

unfoldable pub scan_q_string : Cursor → ℕ → Scan
unfolding scan_q_string_in
scan_q_string cursor closing = scan_q_string_in closing cursor.rest cursor.pos

unfoldable pub closing_delimiter : ℕ → ℕ
closing_delimiter open_with =
    if open_with == b'['
    then b']'
    else if open_with == b'{'
    then b'}'
    else if open_with == b'<'
    then b'>'
    else if open_with == b'('
    then b')'
    else open_with

abbrev is_sign : ℕ → Bool
is_sign c = c == b'+' || c == b'-'

-- The exponent of a number, if digits follow the `e`.
unfoldable pub maybe_exponent : Cursor → Cursor
unfolding bump_while
maybe_exponent cursor =
    let marked = bump cursor in
    let signed = if holds is_sign (peek marked) then bump marked else marked in
    if holds (λ c. c == b'e' || c == b'E') (peek cursor) && holds is_ascii_digit (peek signed)
    then bump_while is_ascii_digit signed
    else cursor

-- Behind the digits of a whole number: a point with a digit behind it goes on with a fraction, and
-- any other point is no part of the number.
unfoldable pub whole_number : Cursor → Cursor
whole_number whole =
    if holds (λ c. c == b'.') (peek whole) && holds is_ascii_digit (peek2 whole)
    then maybe_exponent (bump_while is_ascii_digit (bump whole))
    else maybe_exponent whole

-- A number, at a digit or at a point with a digit behind it.
unfoldable pub scan_number : Cursor → Cursor
unfolding whole_number
scan_number cursor =
    if holds (λ c. c == b'.') (peek cursor)
    then maybe_exponent (bump_while is_ascii_digit (bump cursor))
    else whole_number (bump_while is_ascii_digit cursor)
