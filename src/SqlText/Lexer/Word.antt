-- ===== src/SqlText/Lexer/Word.antt =====
-- crates/sql-text/src/lexer.rs: the byte lengths of identifiers, bind variables and substitution
-- variables at the head of a text.
use reldex.Base.{ℕ, ◌+◌, Bool, ◌||◌, Option, none, some, [], ◌∷◌, ◌==◌, if◌then◌else◌}
use reldex.Text.{
  Text, Unicode, len_utf8, drop_bytes, is_ascii_digit, is_alphabetic, is_alphanumeric,
}
use reldex.SqlText.Lexer.Cursor.{first, holds}

-- `s.find(|c| !test(c)).unwrap_or(s.len())`.
unfoldable pub prefix_len : (ℕ → Bool) → Text → ℕ
prefix_len test [] = 0
prefix_len test (c ∷ t) = if test c then len_utf8 c + prefix_len test t else 0

-- `s.find(c)`.
unfoldable pub find_char : ℕ → Text → Option ℕ
find_char d [] = none
find_char d (c ∷ t) =
    if c == d then some 0 else elim (find_char d t) [ none ↦ none | some n ↦ some (len_utf8 c + n) ]

module _ (u : Unicode) where
  abbrev pub is_identifier_part : ℕ → Bool
  is_identifier_part c = is_alphanumeric u c || c == b'_' || c == b'$' || c == b'#'

  unfoldable pub leading_identifier_len : Text → ℕ
  unfolding prefix_len
  leading_identifier_len s =
      if holds (is_alphabetic u) (first s) then prefix_len is_identifier_part s else 0

  abbrev quoted_bind_len : Option ℕ → Option ℕ
  quoted_bind_len none = none
  quoted_bind_len (some end) = some (1 + 1 + end + 1)

  -- `s` begins with `:`.
  unfoldable pub bind_variable_len : Text → Option ℕ
  unfolding find_char prefix_len leading_identifier_len
  bind_variable_len s =
      let rest = drop_bytes 1 s in
      if holds (λ c. c == b'"') (first rest)
      then quoted_bind_len (find_char b'"' (drop_bytes 1 rest))
      else if holds is_ascii_digit (first rest)
      then some (1 + prefix_len is_ascii_digit rest)
      else if holds (is_alphabetic u) (first rest)
      then (if leading_identifier_len rest == 0
          then none
          else some (1 + leading_identifier_len rest))
      else none

  -- `s` begins with `&`.
  unfoldable pub substitution_prefix_len : Text → ℕ
  substitution_prefix_len s = if holds (λ c. c == b'&') (first (drop_bytes 1 s)) then 2 else 1

  unfoldable pub substitution_name_len : Text → ℕ
  unfolding prefix_len leading_identifier_len
  substitution_name_len rest =
      if holds is_ascii_digit (first rest)
      then prefix_len is_ascii_digit rest
      else if holds (is_alphabetic u) (first rest)
      then leading_identifier_len rest
      else 0

  unfoldable pub substitution_variable_len : Text → Option ℕ
  unfolding substitution_prefix_len substitution_name_len
  substitution_variable_len s =
      let prefix = substitution_prefix_len s in
      let name = substitution_name_len (drop_bytes prefix s) in
      let dotted = holds (λ c. c == b'.') (first (drop_bytes (prefix + name) s)) in
      if name == 0 then none else some (prefix + name + (if dotted then 1 else 0))
