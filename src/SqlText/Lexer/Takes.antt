-- ===== src/SqlText/Lexer/Takes.antt =====
-- What one step of the lexer takes from the text, and the scans that take at least a character.
use reldex.Base.{
  ℕ, ◌≤◌, ◌<◌, ◌≡◌, ◌≢◌, refl, inl, inr, Bool, true, false, ◌&&◌, Option, none, some, [], ◌∷◌,
  arith, ◌==◌, Bool-cases, if◌then◌else◌,
}
use reldex.Text.{Text, len_utf8_pos, byte_len, starts_with}
use reldex.SqlText.Dialect.{SqlDialect}
use reldex.SqlText.Lexer.Cursor.{
  Cursor, first, holds, advance, scan_simple_quoted, scan_block_comment, scan_block_comment_in,
  scan_quoted_in, scan_q_string_in, scan_q_string,
}
use reldex.SqlText.Lexer.Boundary.{IsBoundary}
use reldex.SqlText.Lexer.Moves.{
  Moves, Moves-refl, Moves-trans, Moves-le, Moves-cons, advance-Moves, bump-Moves,
  scan_quoted_in-Moves, scan_block_comment-Moves, scan_q_string-Moves, at, bump-lt,
}
use reldex.SqlText.Lexer.Next.{Step, or_else}

-- The step moves the cursor, and over one character at least.
abbrev pub Takes : Cursor → Step → Type 0
Takes c s = Moves c s.cursor × (c.pos < s.cursor.pos)

-- The step that a rule gives, if it gives one, takes a character.
abbrev pub OfRule : Cursor → Option Step → Type 0
OfRule c none = Unit {0}
OfRule c (some s) = Takes c s

pub or_else-Takes :
    (c : Cursor) (o : Option Step) (s : Step) → OfRule c o → Takes c s → Takes c (or_else o s)
or_else-Takes c none s p q = q
or_else-Takes c (some r) s p q = p

pub if-OfRule :
    (c : Cursor) (b : Bool) (x y : Option Step)
    → (b ≡ true → OfRule c x)
    → (b ≡ false → OfRule c y)
    → OfRule c (if b then x else y)
if-OfRule c true x y p q = p refl
if-OfRule c false x y p q = q refl

pub when-OfRule :
    (c : Cursor) (b : Bool) (s : Step)
    → (b ≡ true → Takes c s)
    → OfRule c (if b then some s else none)
when-OfRule c b s p = if-OfRule c b (some s) none p (λ _. tt)

pub advance-Takes :
    {n : ℕ} (c : Cursor) {c' : Cursor}
    → IsBoundary n c.rest
    → 1 ≤ n
    → Moves (advance n c) c'
    → Moves c c' × (c.pos < c'.pos)
advance-Takes c b h m = (Moves-trans (advance-Moves c b) m, omega (arith, Moves-le m))

-- Every comment delimiter of the dialect has a character.
abbrev pub NotEmpty : Option Text → Type 0
NotEmpty none = Unit {0}
NotEmpty (some t) = t ≢ []

abbrev pub BothNotEmpty : Option (Text × Text) → Type 0
BothNotEmpty none = Unit {0}
BothNotEmpty (some (opening, close)) = (opening ≢ []) × (close ≢ [])

pub record HasDelimiters (d : SqlDialect) : Type 0 where
  pub line : NotEmpty d.comments.line_comment
  pub block : BothNotEmpty d.comments.block_comment

byte_len_pos : (t : Text) → t ≢ [] → 1 ≤ byte_len t
byte_len_pos [] h = absurd (h refl)
byte_len_pos (c ∷ t) h = omega (arith, len_utf8_pos c)

-- A prefix that is there is passed over.
pub prefix-lt :
    (p : Text) (c : Cursor) {c' : Cursor}
    → p ≢ []
    → Moves (advance (byte_len p) c) c'
    → c.pos < c'.pos
prefix-lt p c h m = omega (arith, byte_len_pos p h, Moves-le m)

pub scan_block_comment-lt :
    (close : Text) (ch : ℕ) (t : Text) (pos : ℕ)
    → close ≢ []
    → pos < (scan_block_comment (at ch t pos) close).0.pos
unfolding scan_block_comment scan_block_comment_in
scan_block_comment-lt close ch t pos h = elim (Bool-cases (starts_with (ch ∷ t) close)) [
  | inl e ↦ rw (e, scan_block_comment_in) (prefix-lt close (at ch t pos) h (Moves-refl _))
  | inr e ↦
      rw (e, scan_block_comment_in)
        (bump-lt ch t pos (unfold scan_block_comment in scan_block_comment-Moves _ close))
]

pub scan_q_string-lt :
    (closing ch : ℕ) (t : Text) (pos : ℕ) → pos < (scan_q_string (at ch t pos) closing).0.pos
unfolding scan_q_string scan_q_string_in
scan_q_string-lt closing ch t pos =
    elim (Bool-cases (ch == closing && holds (λ d. d == b'\'') (first t))) [
      | inl e ↦ rw (e, scan_q_string_in) (bump-lt ch t pos (bump-Moves _))
      | inr e ↦
          rw (e, scan_q_string_in)
            (bump-lt ch t pos (unfold scan_q_string in scan_q_string-Moves _ closing))
    ]

scan_quoted_in-lt :
    (quote ch : ℕ) (t : Text) (pos : ℕ) → pos < (scan_quoted_in quote (ch ∷ t) pos).0.pos
unfolding scan_quoted_in
scan_quoted_in-lt quote ch [] pos = bump-lt ch [] pos (Moves-refl _)
scan_quoted_in-lt quote ch (d ∷ t) pos = elim (Bool-cases (ch == quote)) [
  | inr other ↦
      rw (other, scan_quoted_in) (bump-lt ch (d ∷ t) pos (scan_quoted_in-Moves quote (d ∷ t) _))
  | inl once ↦ elim (Bool-cases (d == quote)) [
    | inr closed ↦ rw (once, scan_quoted_in, closed) (bump-lt ch (d ∷ t) pos (Moves-refl _))
    | inl twice ↦
        rw (once, scan_quoted_in, twice)
          (bump-lt ch (d ∷ t) pos (Moves-cons d t _ (scan_quoted_in-Moves quote t _)))
  ]
]

pub scan_simple_quoted-lt :
    (quote ch : ℕ) (t : Text) (pos : ℕ) → pos < (scan_simple_quoted (at ch t pos) quote).0.pos
unfolding scan_simple_quoted
scan_simple_quoted-lt quote ch t pos = scan_quoted_in-lt quote ch t pos
