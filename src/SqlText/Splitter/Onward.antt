-- ===== src/SqlText/Splitter/Onward.antt =====
-- The indices that the scans resume at lie behind the ones that they began at.
use reldex.Base.Int.{ℤ, pos, leb_ℤ}
use reldex.Base.{
  ℕ, suc, ◌+◌, ◌≤◌, Bool, true, false, ◌&&◌, not, List, [], ◌∷◌, length, drop, arith, if◌then◌else◌,
  ◌⊎◌, inl, inr,
}
use reldex.Text.{Text}
use reldex.SqlText.Dialect.{SqlDialect}
use reldex.SqlText.Token.{Token}
use reldex.SqlText.Splitter.Span.{
  is_trivial, is_word, skip_trivial_from, skip_trivial, is_operator, token_text, is_terminator,
}
use reldex.SqlText.Splitter.Scans.{
  is_paren, paren_depth_after, skip_end_qualifier_from, skip_end_qualifier,
}
use reldex.SqlText.Splitter.Structured.{
  Header, after_terminator_from, header_body, scan_header_from, scan_header, is_call_spec,
  introduces_body,
}

pub skip_trivial_from-le : (i : ℕ) (rest : List Token) → i ≤ skip_trivial_from i rest
skip_trivial_from-le i [] = omega arith
skip_trivial_from-le i (t ∷ rest) =
    elim (is_trivial t.kind)
      as (λ b. i ≤ elim b [ true ↦ skip_trivial_from (suc i) rest | false ↦ i ]) [
        | true ↦ omega (arith, skip_trivial_from-le (suc i) rest)
        | false ↦ omega arith
      ]

pub skip_trivial-le : (tokens : List Token) (i : ℕ) → i ≤ skip_trivial tokens i
unfolding skip_trivial
skip_trivial-le tokens i = skip_trivial_from-le i (drop i tokens)

pub if-le : (b : Bool) (k x y : ℕ) → k ≤ x → k ≤ y → k ≤ (if b then x else y)
if-le true k x y p q = p
if-le false k x y p q = q

module _ (d : SqlDialect) (tokens : List Token) (text : Text) where
  skip_end_qualifier_from-le :
      (i : ℕ) (rest : List Token) → i ≤ skip_end_qualifier_from d tokens text i rest
  unfolding skip_end_qualifier_from
  skip_end_qualifier_from-le i [] = omega arith
  skip_end_qualifier_from-le i (t ∷ rest) =
      let later : i ≤ skip_end_qualifier_from d tokens text (i + 1) rest =
        omega (arith, skip_end_qualifier_from-le (i + 1) rest) in
      if-le (is_trivial t.kind) i _ _ later (
        if-le (is_terminator d text t) i _ _ (omega arith)
          (if-le (is_word t.kind) i _ _ later (omega arith)))

  pub skip_end_qualifier-le : (i : ℕ) → i ≤ skip_end_qualifier d tokens text i
  unfolding skip_end_qualifier
  skip_end_qualifier-le i = skip_end_qualifier_from-le i (drop i tokens)

  -- An index further on, or the end of the tokens.
  abbrev pub Onward : ℕ → ℕ → Type 0
  Onward i j = (i ≤ j) ⊎ (length tokens ≤ j)

  Onward-earlier : (i k j : ℕ) → i ≤ k → Onward k j → Onward i j
  Onward-earlier i k j le (inl p) = inl (omega arith)
  Onward-earlier i k j le (inr p) = inr p

  after_terminator_from-Onward :
      (j : ℕ) (rest : List Token) → Onward j (after_terminator_from d tokens text j rest)
  unfolding after_terminator_from
  after_terminator_from-Onward j [] = inr (omega arith)
  after_terminator_from-Onward j (t ∷ rest) =
      elim (is_terminator d text t)
        as (λ b. Onward j (if b then j + 1 else after_terminator_from d tokens text (j + 1) rest)) [
          | true ↦ inl (omega arith)
          | false ↦
              Onward-earlier j (j + 1) _ (omega arith) (after_terminator_from-Onward (j + 1) rest)
        ]

  if-Onward :
      (b : Bool) (i : ℕ) (x y : Header)
      → Onward i x.resume
      → Onward i y.resume
      → Onward i (if b then x else y).resume
  if-Onward true i x y p q = p
  if-Onward false i x y p q = q

  header_body-Onward : (i : ℕ) → Onward i (header_body d tokens text i).resume
  unfolding header_body
  header_body-Onward i =
      if-Onward (is_call_spec d tokens text (skip_trivial tokens (i + 1))) i
        (record {
          resume =
              after_terminator_from d tokens text (skip_trivial tokens (i + 1))
                (drop (skip_trivial tokens (i + 1)) tokens);
          owes_body = false;
        })
        (record { resume = i + 1; owes_body = true })
        (Onward-earlier i (skip_trivial tokens (i + 1)) _
          (omega (arith, skip_trivial-le tokens (i + 1)))
          (after_terminator_from-Onward (skip_trivial tokens (i + 1))
            (drop (skip_trivial tokens (i + 1)) tokens)))
        (inl (omega arith))

  scan_header_from-Onward :
      (i : ℕ) (rest : List Token) (depth : ℤ)
      → Onward i (scan_header_from d tokens text i rest depth).resume
  unfolding scan_header_from
  scan_header_from-Onward i [] depth = inr (omega arith)
  scan_header_from-Onward i (t ∷ rest) depth =
      let depth_after = if is_operator t.kind then paren_depth_after text t depth else depth in
      let later_Onward =
        Onward-earlier i (i + 1) (later depth_after).resume (omega arith)
          (scan_header_from-Onward (i + 1) rest depth_after) in
      if-Onward (is_operator t.kind) i (at_operator depth_after) (at_other depth_after)
        (if-Onward (not (is_paren text t) && (leb_ℤ depth (pos 0) && is_terminator d text t)) i
          (record { resume = i + 1; owes_body = false }) (later depth_after) (inl (omega arith))
          later_Onward)
        (if-Onward
          (leb_ℤ depth (pos 0)
            && is_word t.kind
            && introduces_body d tokens text i (token_text text t))
          i (header_body d tokens text i) (later depth_after) (header_body-Onward i) later_Onward)
    where
      later : ℤ → Header
      later z = scan_header_from d tokens text (i + 1) rest z

      at_operator : ℤ → Header
      at_operator z =
          if not (is_paren text t) && (leb_ℤ depth (pos 0) && is_terminator d text t)
          then record { resume = i + 1; owes_body = false }
          else later z

      at_other : ℤ → Header
      at_other z =
          if leb_ℤ depth (pos 0)
            && is_word t.kind
            && introduces_body d tokens text i (token_text text t)
          then header_body d tokens text i
          else later z

  pub scan_header-Onward : (i : ℕ) → Onward i (scan_header d tokens text i).resume
  unfolding scan_header
  scan_header-Onward i = scan_header_from-Onward i (drop i tokens) (pos 0)
