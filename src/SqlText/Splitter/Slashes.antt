-- ===== src/SqlText/Splitter/Slashes.antt =====
-- How far the scans go when a lone `/` line is ahead.
use reldex.Base.Int.{ℤ, pos, leb_ℤ}
use reldex.Base.{
  ℕ, suc, ◌+◌, ◌≤◌, ◌≡◌, refl, sym, ap, ◌∙◌, subst, Bool, true, false, ◌&&◌, Option, none, some,
  List, [], ◌∷◌, ◌++◌, length, drop, arith, if◌then◌else◌, some-inj,
}
use reldex.Text.{Text}
use reldex.SqlText.Dialect.{SqlDialect}
use reldex.SqlText.Token.{
  TokenKind, whitespace, keyword, identifier, quoted_identifier, string, number, comment, operator,
  bind_variable, substitution_variable, directive, error, Token,
}
use reldex.SqlText.Splitter.Span.{
  block, plain, inferred_block_end, ScanOutcome, is_operator, is_trivial_or_directive,
  is_terminator,
}
use reldex.SqlText.Splitter.Slash.{
  is_lone_slash_line, end_at_slash_line, slash_after, end_after_slash, finish_with_maybe_slash,
}
use reldex.SqlText.Splitter.Scans.{
  is_slash, is_paren, paren_depth_after, scan_plain_from, scan_plain, scan_opaque_source_from,
  scan_opaque_source, scan_paren_delimited_from, scan_paren_delimited,
}
use reldex.SqlText.Splitter.Within.{drop-next}

if-next :
    (b : Bool) (x y : ScanOutcome) (k : ℕ)
    → (b ≡ true → x.next_i ≤ k)
    → (b ≡ false → y.next_i ≤ k)
    → (if b then x else y).next_i ≤ k
if-next true x y k p q = p refl
if-next false x y k p q = q refl

not_trivial : (k : TokenKind) → is_operator k ≡ true → is_trivial_or_directive k ≡ false
not_trivial operator h = refl
not_trivial whitespace h = absurd (ground arith)
not_trivial comment h = absurd (ground arith)
not_trivial directive h = absurd (ground arith)
not_trivial keyword h = refl
not_trivial identifier h = refl
not_trivial quoted_identifier h = refl
not_trivial string h = refl
not_trivial number h = refl
not_trivial bind_variable h = refl
not_trivial substitution_variable h = refl
not_trivial error h = refl

module _ (d : SqlDialect) (tokens : List Token) (text : Text) (t : Token) (later : List Token)
    (slash : is_slash text t ≡ true) where
  slash_operator : is_operator t.kind ≡ true
  unfolding is_slash
  slash_operator = ground arith

  scan_plain_from-slash :
      (cs i : ℕ) (before : List Token)
      → d.slash_terminates_plain ≡ true
      → (scan_plain_from d tokens text cs i (before ++ t ∷ later)).next_i ≤ i + length before + 1
  unfolding scan_plain_from end_at_slash_line
  scan_plain_from-slash cs i [] flag =
      if-next (d.slash_terminates_plain && is_slash text t)
        (end_at_slash_line text t plain (i + 1) cs) _ (i + 0 + 1) (λ e. omega arith)
        (λ e. absurd (ground (arith, flag, slash)))
  scan_plain_from-slash cs i (x ∷ before) flag =
      let rest = scan_plain_from-slash cs (i + 1) before flag in
      if-next (d.slash_terminates_plain && is_slash text x)
        (end_at_slash_line text x plain (i + 1) cs) _ (i + suc (length before) + 1)
        (λ e. omega arith)
        (λ e.
          if-next (is_terminator d text x) _
            (scan_plain_from d tokens text cs (i + 1) (before ++ t ∷ later))
            (i + suc (length before) + 1) (λ e'. omega arith) (λ e'. omega (arith, rest)))

  scan_opaque_source_from-slash :
      (cs i : ℕ) (before : List Token)
      → (scan_opaque_source_from d tokens text cs i (before ++ t ∷ later)).next_i
        ≤ i + length before + 1
  unfolding scan_opaque_source_from end_at_slash_line
  scan_opaque_source_from-slash cs i [] =
      if-next (is_slash text t) (end_at_slash_line text t block (i + 1) cs) _ (i + 0 + 1)
        (λ e. omega arith) (λ e. absurd (ground (arith, slash)))
  scan_opaque_source_from-slash cs i (x ∷ before) =
      let rest = scan_opaque_source_from-slash cs (i + 1) before in
      if-next (is_slash text x) (end_at_slash_line text x block (i + 1) cs)
        (scan_opaque_source_from d tokens text cs (i + 1) (before ++ t ∷ later))
        (i + suc (length before) + 1) (λ e. omega arith) (λ e. omega (arith, rest))

  -- The search behind a terminator goes no further than that line either.
  slash_after-slash :
      (k : ℕ) (before : List Token) (k' : ℕ) (t' : Token)
      → slash_after text k (before ++ t ∷ later) ≡ some (k', t')
      → k' ≤ k + length before
  unfolding slash_after
  slash_after-slash k [] k' t' h =
      at (is_trivial_or_directive t.kind) (is_operator t.kind && is_lone_slash_line text t)
        (not_trivial t.kind slash_operator) h
    where
      at :
          (a b : Bool)
          → a ≡ false
          → (if a then slash_after text (suc k) later else if b then some (k, t) else none)
            ≡ some (k', t')
          → k' ≤ k + 0
      at true b n h = absurd (ground arith)
      at false true n h = omega (arith, ap (λ p. p.0) (some-inj (k, t) (k', t') h))
      at false false n h = absurd (ground arith)
  slash_after-slash k (x ∷ before) k' t' h =
      at (is_trivial_or_directive x.kind) (is_operator x.kind && is_lone_slash_line text x)
        (slash_after-slash (suc k) before k' t') h
    where
      at :
          (a b : Bool)
          → (slash_after text (suc k) (before ++ t ∷ later) ≡ some (k', t')
              → k' ≤ suc k + length before)
          → (if a
              then slash_after text (suc k) (before ++ t ∷ later)
              else if b
              then some (k, x)
              else none)
            ≡ some (k', t')
          → k' ≤ k + suc (length before)
      at true b ih h = omega (arith, ih h)
      at false true ih h = omega (arith, ap (λ p. p.0) (some-inj (k, x) (k', t') h))
      at false false ih h = absurd (ground arith)

  finish-slash :
      (i a b : ℕ) (before : List Token)
      → drop (i + 1) tokens ≡ before ++ t ∷ later
      → (finish_with_maybe_slash d tokens text a b (i + 1) block).next_i ≤ i + length before + 2
  unfolding finish_with_maybe_slash end_after_slash
  finish-slash i a b before e =
      if-next d.slash_terminates_block
        (end_after_slash text inferred (slash_after text (i + 1) (drop (i + 1) tokens))) inferred
        (i + length before + 2) (λ x. behind (slash_after text (i + 1) (drop (i + 1) tokens)) refl)
        (λ x. omega arith)
    where
      inferred : ScanOutcome
      inferred = record {
        content_end = a;
        full_end = b;
        terminated = d.block_may_end_without_slash;
        ended_by = inferred_block_end;
        next_i = i + 1;
        kind = block;
      }

      behind :
          (found : Option (ℕ × Token))
          → slash_after text (i + 1) (drop (i + 1) tokens) ≡ found
          → (end_after_slash text inferred found).next_i ≤ i + length before + 2
      behind none h = omega arith
      behind (some (k, t')) h =
          let le =
            slash_after-slash (i + 1) before k t' (sym (ap (slash_after text (i + 1)) e) ∙ h) in
          omega (arith, le)

  scan_paren_delimited_from-slash :
      (cs i : ℕ) (depth : ℤ) (before : List Token)
      → d.slash_terminates_block ≡ true
      → drop i tokens ≡ before ++ t ∷ later
      → (scan_paren_delimited_from d tokens text cs i (before ++ t ∷ later) depth).next_i
        ≤ i + length before + 1
  unfolding scan_paren_delimited_from end_at_slash_line
  scan_paren_delimited_from-slash cs i depth [] flag e =
      if-next (d.slash_terminates_block && is_slash text t)
        (end_at_slash_line text t block (i + 1) cs) _ (i + 0 + 1) (λ x. omega arith)
        (λ x. absurd (ground (arith, flag, slash)))
  scan_paren_delimited_from-slash cs i depth (x ∷ before) flag e =
      let here = drop-next i tokens x (before ++ t ∷ later) e in
      let rest = scan_paren_delimited_from-slash cs (i + 1) depth_after before flag here in
      if-next (d.slash_terminates_block && is_slash text x)
        (end_at_slash_line text x block (i + 1) cs) _ (i + suc (length before) + 1)
        (λ y. omega arith)
        (λ y.
          if-next (is_operator x.kind && is_paren text x) further _ (i + suc (length before) + 1)
            (λ z. omega (arith, rest))
            (λ z.
              if-next (leb_ℤ depth (pos 0) && is_terminator d text x)
                (finish_with_maybe_slash d tokens text x.start x.end (i + 1) block) further
                (i + suc (length before) + 1)
                (λ v. omega (arith, finish-slash i x.start x.end before here))
                (λ v. omega (arith, rest))))
    where
      depth_after : ℤ
      depth_after =
          if is_operator x.kind && is_paren text x then paren_depth_after text x depth else depth

      further : ScanOutcome
      further = scan_paren_delimited_from d tokens text cs (i + 1) (before ++ t ∷ later) depth_after

  -- With a lone `/` line among the tokens from `start` on, where the dialect lets such a line end a
  -- plain statement, the scan of a plain statement goes no further than that line.
  pub scan_plain-slash :
      (start cs : ℕ) (before : List Token)
      → d.slash_terminates_plain ≡ true
      → drop start tokens ≡ before ++ t ∷ later
      → (scan_plain d tokens text start cs).next_i ≤ start + length before + 1
  unfolding scan_plain
  scan_plain-slash start cs before flag e =
      subst
        (λ rest. (scan_plain_from d tokens text cs start rest).next_i ≤ start + length before + 1)
        (sym e) (scan_plain_from-slash cs start before flag)

  -- The scan of opaque source goes no further than a lone `/` line, whatever the dialect; that of a
  -- statement in parentheses goes no further, at any depth, where the dialect lets such a line end a
  -- block.
  pub block_scans-slash :
      (start cs : ℕ) (before : List Token)
      → d.slash_terminates_block ≡ true
      → drop start tokens ≡ before ++ t ∷ later
      → ((scan_opaque_source d tokens text start cs).next_i ≤ start + length before + 1)
        × ((scan_paren_delimited d tokens text start cs).next_i ≤ start + length before + 1)
  unfolding scan_opaque_source scan_paren_delimited
  block_scans-slash start cs before flag e = (
    subst
        (λ rest.
          (scan_opaque_source_from d tokens text cs start rest).next_i ≤ start + length before + 1)
        (sym e) (scan_opaque_source_from-slash cs start before),
    subst
        (λ rest.
          (scan_paren_delimited_from d tokens text cs start rest (pos 0)).next_i
          ≤ start + length before + 1)
        (sym e) (scan_paren_delimited_from-slash cs start (pos 0) before flag e),
  )
