-- ===== src/SqlText/Splitter/Spans.antt =====
-- The scan of one statement returns, with an outcome in the text.
use reldex.Base.Int.{pos}
use reldex.Base.{
  ℕ, ◌≤◌, ◌≡◌, refl, sym, ap, ◌∙◌, subst, Option, none, some, List, [], ◌∷◌, drop, arith,
  Option-cases, some-inj, inl, inr,
}
use reldex.Text.{Text, byte_len}
use reldex.SqlText.Dialect.{
  SqlDialect, BlockStarter, BlockKind, structured, opaque_source, paren_delimited,
}
use reldex.SqlText.Token.{Token}
use reldex.SqlText.Splitter.Span.{ScanOutcome}
use reldex.SqlText.Splitter.Phrases.{collect_leading_words, matches_block_starter}
use reldex.SqlText.Splitter.Slash.{last_end}
use reldex.SqlText.Splitter.Scans.{scan_plain, scan_opaque_source, scan_paren_delimited}
use reldex.SqlText.Splitter.Structured.{scan_structured}
use reldex.SqlText.Splitter.Split.{Matched, find_starter, scan_block, scan_statement}
use reldex.SqlText.Splitter.Within.{Within, Within-later}
use reldex.SqlText.Splitter.Ends.{
  Fits, Sorted, Fits-earlier, scan_plain_from-Fits, scan_opaque_source_from-Fits,
  scan_paren_delimited_from-Fits,
}
use reldex.SqlText.Splitter.Starts.{skip_labels-total, matches_block_starter-le}
use reldex.SqlText.Splitter.Total.{scan_structured-Returns}

module _ (d : SqlDialect) (tokens : List Token) (text : Text)
    (last : last_end (byte_len text) tokens ≡ byte_len text) (sorted : Sorted d tokens text) where
  abbrev pub Returns : ℕ → ℕ → Option ScanOutcome → Type 0
  Returns cs i r = (o : ScanOutcome) × (r ≡ some o) × Fits d tokens text cs i o

  find_starter-le :
      (starters : List BlockStarter) (start : ℕ) (m : Matched)
      → find_starter starters (collect_leading_words tokens text start) start ≡ some m
      → start ≤ m.resume
  unfolding find_starter
  find_starter-le [] start m h = absurd (ground arith)
  find_starter-le (starter ∷ starters) start m h =
      elim (Option-cases
        (matches_block_starter starter (collect_leading_words tokens text start) start)) [
          | inl e ↦ find_starter-le starters start m (sym (ap next e) ∙ h)
          | inr (resume, e) ↦
              subst (λ (x : Matched). start ≤ x.resume)
                (some-inj (record { starter = starter; resume = resume }) m (sym (ap next e) ∙ h))
                (matches_block_starter-le d tokens text starter start resume e)
        ]
    where
      next : Option ℕ → Option Matched
      next o = elim o [
        | some resume ↦ some (record { starter = starter; resume = resume })
        | none ↦ find_starter starters (collect_leading_words tokens text start) start
      ]

  module _ (cs : ℕ) (le : cs ≤ byte_len text) where
    scan_block-Returns :
        (m : Matched)
        → Within text cs (drop m.resume tokens)
        → Returns cs m.resume (scan_block d tokens text m cs)
    unfolding scan_block scan_opaque_source scan_paren_delimited
    scan_block-Returns m w = elim m.starter.kind as (λ k. Returns cs m.resume (by_kind k)) [
      | structured ↦ scan_structured-Returns d tokens text last sorted cs le m.starter m.resume w
      | opaque_source ↦ (
        scan_opaque_source d tokens text m.resume cs,
        refl,
        scan_opaque_source_from-Fits d tokens text last sorted cs le m.resume (drop m.resume tokens)
            (w, refl),
      )
      | paren_delimited ↦ (
        scan_paren_delimited d tokens text m.resume cs,
        refl,
        scan_paren_delimited_from-Fits d tokens text last sorted cs le m.resume
            (drop m.resume tokens) (pos 0) (w, refl),
      )
    ]
      where
        by_kind : BlockKind → Option ScanOutcome
        by_kind k = elim k [
          | structured ↦ scan_structured d tokens text m.starter m.resume cs
          | opaque_source ↦ some (scan_opaque_source d tokens text m.resume cs)
          | paren_delimited ↦ some (scan_paren_delimited d tokens text m.resume cs)
        ]

    pub scan_statement-Returns :
        (i : ℕ) → Within text cs (drop i tokens) → Returns cs i (scan_statement d tokens text i cs)
    unfolding scan_statement scan_plain
    scan_statement-Returns i w =
        let (skipped, e, on) = skip_labels-total d tokens text i in
        elim (Option-cases
          (find_starter d.block_starters (collect_leading_words tokens text skipped) skipped)) [
            | inl no_starter ↦ (
              scan_plain d tokens text i cs,
              ap labelled e ∙ ap (matched skipped) no_starter,
              scan_plain_from-Fits d tokens text last sorted cs le i (drop i tokens) (w, refl),
            )
            | inr (m, found) ↦
                let further = find_starter-le d.block_starters skipped m found in
                let (o, eq, f) =
                  scan_block-Returns m (Within-later text cs i m.resume tokens (omega arith) w) in
                (
                  o,
                  ap labelled e ∙ ap (matched skipped) found ∙ eq,
                  Fits-earlier d tokens text cs i m.resume o (omega arith) f,
                )
          ]
      where
        matched : ℕ → Option Matched → Option ScanOutcome
        matched skipped r = elim r [
          | none ↦ some (scan_plain d tokens text i cs)
          | some m ↦ scan_block d tokens text m cs
        ]

        labelled : Option ℕ → Option ScanOutcome
        labelled r = elim r [
          | none ↦ none
          | some skipped ↦
              matched skipped
                (find_starter d.block_starters (collect_leading_words tokens text skipped) skipped)
        ]
