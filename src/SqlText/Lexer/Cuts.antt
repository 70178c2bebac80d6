-- ===== src/SqlText/Lexer/Cuts.antt =====
-- Tokens that cut a text into pieces, and what that says of their ranges and texts.
use reldex.Base.{
  ℕ, ◌+◌, ◌-◌, ◌<◌, ◌≡◌, refl, sym, ap, ap₂, ◌∙◌, subst, List, [], ◌∷◌, ◌++◌, map, append_assoc,
  arith,
}
use reldex.Text.{Text, byte_len, byte_len-append, drop_bytes-append, take_bytes-append, slice}
use reldex.SqlText.Token.{Token}
use reldex.SqlText.Lexer.Tokenize.{shift, mark_last}

-- Each token begins where the one before it ended, and has at least a byte; the first begins at `a`
-- and the last ends at `b`.
abbrev pub Tiles : ℕ → List Token → ℕ → Type 0
Tiles a [] b = a ≡ b
Tiles a (t ∷ ts) b = (t.start ≡ a) × (a < t.end) × Tiles t.end ts b

-- The texts of the tokens, one behind the other.
abbrev pub texts : Text → List Token → Text
texts text [] = []
texts text (t ∷ ts) = slice text t.start t.end ++ texts text ts

-- The tokens cut `rest`, which begins at `pos`, into pieces that are not empty.
abbrev pub Cuts : Text → ℕ → List Token → Type 0
Cuts rest pos [] = rest ≡ []
Cuts rest pos (t ∷ ts) =
    (piece : Text) × (later : Text) × (rest ≡ piece ++ later)
    × (t.start ≡ pos)
    × (t.end ≡ pos + byte_len piece)
    × (pos < t.end)
    × Cuts later t.end ts

pub Cuts-Tiles :
    (rest : Text) (pos : ℕ) (ts : List Token) (last : ℕ)
    → pos + byte_len rest ≡ last
    → Cuts rest pos ts
    → Tiles pos ts last
Cuts-Tiles rest pos [] last h c = omega (arith, ap byte_len c)
Cuts-Tiles rest pos (t ∷ ts) last h (piece, later, e, start, end, more, c) = (
  start,
  more,
  Cuts-Tiles later t.end ts last (omega (arith, ap byte_len e, byte_len-append piece later)) c,
)

-- A piece is read back at its offsets.
slice-append :
    (before piece later : Text) (start end : ℕ)
    → start ≡ byte_len before
    → end ≡ byte_len before + byte_len piece
    → slice (before ++ (piece ++ later)) start end ≡ piece
slice-append before piece later start end s e =
    rw s (rw drop_bytes-append (rw size (take_bytes-append piece later)))
  where
    size : end - byte_len before ≡ byte_len piece
    size = omega arith

pub Cuts-texts :
    (whole before rest : Text) (ts : List Token)
    → whole ≡ before ++ rest
    → Cuts rest (byte_len before) ts
    → texts whole ts ≡ rest
Cuts-texts whole before rest [] w c = sym c
Cuts-texts whole before rest (t ∷ ts) w (piece, later, e, start, end, more, c) =
    ap₂ ◌++◌ first_one (
      Cuts-texts whole (before ++ piece) later ts (split ∙ sym (append_assoc before piece later))
        (subst (λ p. Cuts later p ts) (omega (arith, byte_len-append before piece)) c))
    ∙ sym e
  where
    split : whole ≡ before ++ (piece ++ later)
    split = w ∙ ap (◌++◌ before) e

    first_one : slice whole t.start t.end ≡ piece
    first_one =
        ap (λ x. slice x t.start t.end) split
        ∙ slice-append before piece later t.start t.end start end

pub Cuts-append :
    (r s : Text) (pos mid : ℕ) (ts us : List Token)
    → pos + byte_len r ≡ mid
    → Cuts r pos ts
    → Cuts s mid us
    → Cuts (r ++ s) pos (ts ++ us)
Cuts-append r s pos mid [] us h c d =
    subst (λ x. Cuts x pos us) (sym (ap (λ x. x ++ s) c))
      (subst (λ p. Cuts s p us) (omega (arith, ap byte_len c)) d)
Cuts-append r s pos mid (t ∷ ts) us h (piece, later, e, start, end, more, c) d = (
  piece,
  later ++ s,
  ap (λ x. x ++ s) e ∙ append_assoc piece later s,
  start,
  end,
  more,
  Cuts-append later s t.end mid ts us (omega (arith, ap byte_len e, byte_len-append piece later)) c
      d,
)

pub Cuts-shift :
    (r : Text) (pos k moved : ℕ) (ts : List Token)
    → pos + k ≡ moved
    → Cuts r pos ts
    → Cuts r moved (map (shift k) ts)
Cuts-shift r pos k moved [] h c = c
Cuts-shift r pos k moved (t ∷ ts) h (piece, later, e, start, end, more, c) = (
  piece,
  later,
  e,
  omega arith,
  omega arith,
  omega arith,
  Cuts-shift later t.end k (t.end + k) ts refl c,
)

pub Cuts-mark_last :
    (r : Text) (pos : ℕ) (ts : List Token) → Cuts r pos ts → Cuts r pos (mark_last ts)
unfolding mark_last
Cuts-mark_last r pos [] c = c
Cuts-mark_last r pos (t ∷ []) c = c
Cuts-mark_last r pos (t ∷ u ∷ ts) (piece, later, e, start, end, more, c) =
    (piece, later, e, start, end, more, Cuts-mark_last later t.end (u ∷ ts) c)
