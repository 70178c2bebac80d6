-- ===== src/SqlText/Lexer/Quoted.antt =====
-- Where the scans of quoted text and of comments end, against descriptions of their own.
use reldex.Base.{
  ℕ, ◌+◌, ◌≡◌, sym, ap, ◌∙◌, subst, ◌↔◌, inl, inr, true, false, [], ◌∷◌, ◌++◌, arith, ◌==◌, ==_iff,
  ==_refl, Bool-cases, if◌then◌else◌,
}
use reldex.Text.{Text, len_utf8, byte_len}
use reldex.SqlText.Lexer.Cursor.{Scan, first, holds, scan_quoted_in, scan_simple_quoted}

-- A body as it is written between two quotes: each quote in it is doubled.
abbrev pub escaped : ℕ → Text → Text
escaped quote [] = []
escaped quote (c ∷ t) = if c == quote then c ∷ c ∷ escaped quote t else c ∷ escaped quote t

abbrev pub Begins : ℕ → Text → Type 0
Begins c t = holds (λ x. x == c) (first t) ≡ true

-- The scan stops closed, in front of `after`, having passed `body` and its closing quote.
pub record ClosesAfter (quote : ℕ) (t : Text) (s : Scan) : Type 0 where
  pub body : Text
  pub splits : t ≡ escaped quote body ++ quote ∷ s.0.rest
  pub ends : ¬ Begins quote s.0.rest

module _ (quote : ℕ) where
  -- The three ways of a step: over a character, over a doubled quote, and to the end.
  scan_quoted_in-other :
      (c : ℕ) (t : Text) (pos : ℕ)
      → (c == quote) ≡ false
      → scan_quoted_in quote (c ∷ t) pos ≡ scan_quoted_in quote t (pos + len_utf8 c)
  unfolding scan_quoted_in
  scan_quoted_in-other c [] pos e = rw e
  scan_quoted_in-other c (d ∷ t) pos e = rw (e, scan_quoted_in)

  scan_quoted_in-twice :
      (c d : ℕ) (t : Text) (pos : ℕ)
      → (c == quote) ≡ true
      → (d == quote) ≡ true
      → scan_quoted_in quote (c ∷ d ∷ t) pos
        ≡ scan_quoted_in quote t (pos + len_utf8 c + len_utf8 d)
  unfolding scan_quoted_in
  scan_quoted_in-twice c d t pos e f = rw (e, scan_quoted_in, f)

  scan_quoted_in-closed :
      (c : ℕ) (t : Text) (pos : ℕ)
      → (c == quote) ≡ true
      → ¬ Begins quote t
      → scan_quoted_in quote (c ∷ t) pos ≡ (record { rest = t; pos = pos + len_utf8 c }, true)
  unfolding scan_quoted_in
  scan_quoted_in-closed c [] pos e n = rw e
  scan_quoted_in-closed c (d ∷ t) pos e n = elim (Bool-cases (d == quote)) [
    | inl f ↦ absurd (n f)
    | inr f ↦ rw (e, scan_quoted_in, f)
  ]

  other-ClosesAfter :
      (c : ℕ) {t : Text} {s : Scan}
      → (c == quote) ≡ false
      → ClosesAfter quote t s
      → ClosesAfter quote (c ∷ t) s
  other-ClosesAfter c e k = record {
    body = c ∷ k.body;
    splits = rw e (ap (◌∷◌ c) k.splits);
    ends = k.ends;
  }

  twice-ClosesAfter :
      (c d : ℕ) {t : Text} {s : Scan}
      → (c == quote) ≡ true
      → (d == quote) ≡ true
      → ClosesAfter quote t s
      → ClosesAfter quote (c ∷ d ∷ t) s
  twice-ClosesAfter c d e f k = record {
    body = c ∷ k.body;
    splits = rw e (cc ((==_iff c quote).0 e, (==_iff d quote).0 f, k.splits));
    ends = k.ends;
  }

  scan_quoted_in-ClosesAfter :
      (t : Text) (pos : ℕ)
      → (scan_quoted_in quote t pos).1 ≡ true
      → ClosesAfter quote t (scan_quoted_in quote t pos)
  unfolding scan_quoted_in
  scan_quoted_in-ClosesAfter [] pos h = absurd (ground arith)
  scan_quoted_in-ClosesAfter (c ∷ []) pos h = record {
    body = [];
    splits = ap (λ x. x ∷ []) ((==_iff c quote).0 h);
    ends = λ b. cc;
  }
  scan_quoted_in-ClosesAfter (c ∷ d ∷ t) pos h = elim (Bool-cases (c == quote)) [
    | inr other ↦
        subst (ClosesAfter quote (c ∷ d ∷ t)) (sym (scan_quoted_in-other c (d ∷ t) pos other)) (
          other-ClosesAfter c other (
            scan_quoted_in-ClosesAfter (d ∷ t) (pos + len_utf8 c)
              (rw (scan_quoted_in-other c (d ∷ t) pos other) at h)))
    | inl once ↦ elim (Bool-cases (d == quote)) [
      | inl twice ↦
          subst (ClosesAfter quote (c ∷ d ∷ t)) (sym (scan_quoted_in-twice c d t pos once twice)) (
            twice-ClosesAfter c d once twice (
              scan_quoted_in-ClosesAfter t (pos + len_utf8 c + len_utf8 d)
                (rw (scan_quoted_in-twice c d t pos once twice) at h)))
      | inr alone ↦
          subst (ClosesAfter quote (c ∷ d ∷ t))
            (sym (scan_quoted_in-closed c (d ∷ t) pos once (λ b. cc)))
            (record {
              body = [];
              splits = ap (λ x. x ∷ d ∷ t) ((==_iff c quote).0 once);
              ends = λ b. cc;
            })
    ]
  ]

  scan_quoted_in-escaped :
      (body after : Text) (pos : ℕ)
      → ¬ Begins quote after
      → scan_quoted_in quote (escaped quote body ++ quote ∷ after) pos ≡ (
        record { rest = after; pos = pos + byte_len (escaped quote body) + len_utf8 quote },
        true,
      )
  scan_quoted_in-escaped [] after pos h =
      scan_quoted_in-closed quote after pos (==_refl quote) h
      ∙ ap (λ (p : ℕ). (record { rest = after; pos = p }, true)) (omega arith)
  scan_quoted_in-escaped (c ∷ body) after pos h = elim (Bool-cases (c == quote)) [
    | inr other ↦ rw other (
        scan_quoted_in-other c _ pos other
        ∙ scan_quoted_in-escaped body after (pos + len_utf8 c) h
        ∙ ap (λ (p : ℕ). (record { rest = after; pos = p }, true)) (omega arith))
    | inl twice ↦ rw twice (
        scan_quoted_in-twice c c _ pos twice twice
        ∙ scan_quoted_in-escaped body after (pos + len_utf8 c + len_utf8 c) h
        ∙ ap (λ (p : ℕ). (record { rest = after; pos = p }, true)) (omega arith))
  ]

-- Behind an opening quote the scan stops closed in front of a text exactly if what it passed is some
-- body with its quotes doubled, then a quote, and no second quote follows.
pub scan_simple_quoted_iff :
    (quote : ℕ) (t after : Text) (pos : ℕ)
    → ((scan_simple_quoted (record { rest = t; pos = pos }) quote).1 ≡ true)
        × ((scan_simple_quoted (record { rest = t; pos = pos }) quote).0.rest ≡ after)
      ↔ ((body : Text) × (t ≡ escaped quote body ++ quote ∷ after) × (¬ Begins quote after))
unfolding scan_simple_quoted
scan_simple_quoted_iff quote t after pos = (found, given)
  where
    found :
        ((scan_quoted_in quote t pos).1 ≡ true) × ((scan_quoted_in quote t pos).0.rest ≡ after)
        → (body : Text) × (t ≡ escaped quote body ++ quote ∷ after) × (¬ Begins quote after)
    found (h, e) =
        let k = scan_quoted_in-ClosesAfter quote t pos h in
        (k.body, k.splits ∙ ap (λ a. escaped quote k.body ++ quote ∷ a) e, λ b. k.ends (rw e b))

    given :
        (body : Text) × (t ≡ escaped quote body ++ quote ∷ after) × (¬ Begins quote after)
        → ((scan_quoted_in quote t pos).1 ≡ true) × ((scan_quoted_in quote t pos).0.rest ≡ after)
    given (body, e, n) =
        let run =
          ap (λ x. scan_quoted_in quote x pos) e ∙ scan_quoted_in-escaped quote body after pos n in
        (ap (λ s. s.1) run, ap (λ s. s.0.rest) run)
