-- ===== src/SqlText/Splitter/Starts.antt =====
-- The labels and leading words of a statement lie behind its start, and the loop over the labels ends.
use reldex.Base.{
  ℕ, zero, suc, ◌+◌, ◌-◌, ◌≤◌, ◌<◌, ◌≡◌, refl, sym, ap, ◌∙◌, subst, Bool, true, false, ◌&&◌, Option,
  none, some, List, [], ◌∷◌, length, get_elem?, drop, arith, if◌then◌else◌, Option-cases, some-inj,
  inl, inr,
}
use reldex.Text.{Text}
use reldex.SqlText.Dialect.{SqlDialect, BlockStarter}
use reldex.SqlText.Token.{Token}
use reldex.SqlText.Splitter.Span.{is_trivial_or_directive, is_word, skip_trivial, token_text}
use reldex.SqlText.Splitter.Phrases.{
  Word, is_word_at, is_delimiter_at, skip_label, skip_labels_loop, skip_labels, collect_words_from,
  collect_leading_words, resume_after, max_leading_words, matches_block_starter, match_slots,
}
use reldex.SqlText.Splitter.Within.{get-some}
use reldex.SqlText.Splitter.Onward.{skip_trivial-le, if-le}

module _ (d : SqlDialect) (tokens : List Token) (text : Text) where
  is_delimiter_at-lt :
      (delimiter : Text) (p : ℕ)
      → is_delimiter_at tokens text delimiter p ≡ true
      → p < length tokens
  is_delimiter_at-lt delimiter p h = elim (Option-cases (get_elem? tokens p)) [
    | inl e ↦ absurd (ground arith)
    | inr (t, e) ↦ get-some p tokens t e
  ]

  -- A label lies in the tokens, and ends further on.
  skip_label-some :
      (opening closing : Text) (i j : ℕ)
      → skip_label tokens text opening closing i ≡ some j
      → (i < j) × (i < length tokens)
  unfolding skip_label
  skip_label-some opening closing i j h =
      by_tests (is_delimiter_at tokens text opening probe) (is_delimiter_at tokens text closing k)
        (is_delimiter_at-lt opening probe) h
    where
      probe : ℕ
      probe = skip_trivial tokens i

      after : ℕ
      after = skip_trivial tokens (probe + 1)

      k : ℕ
      k = if is_word_at tokens after then skip_trivial tokens (after + 1) else after

      onward : after ≤ k
      onward =
          if-le (is_word_at tokens after) after (skip_trivial tokens (after + 1)) after
            (omega (arith, skip_trivial-le tokens (after + 1))) (omega arith)

      by_tests :
          (a b : Bool)
          → (a ≡ true → probe < length tokens)
          → (if a && b then some (k + 1) else none) ≡ some j
          → (i < j) × (i < length tokens)
      by_tests true true lt h = (
        omega (
          arith,
          some-inj (k + 1) j h,
          onward,
          skip_trivial-le tokens i,
          skip_trivial-le tokens (probe + 1),
        ),
        omega (arith, lt refl, skip_trivial-le tokens i),
      )
      by_tests true false lt h = absurd (ground arith)
      by_tests false b lt h = absurd (ground arith)

  skip_labels_loop-total :
      (fuel : ℕ) (opening closing : Text) (i : ℕ)
      → length tokens - i < fuel
      → (j : ℕ) × (skip_labels_loop fuel tokens text opening closing i ≡ some j) × (i ≤ j)
  unfolding skip_labels_loop
  skip_labels_loop-total zero opening closing i lt = absurd (omega arith)
  skip_labels_loop-total (suc fuel) opening closing i lt =
      elim (Option-cases (skip_label tokens text opening closing i)) [
        | inl e ↦ (i, ap next e, omega arith)
        | inr (j, e) ↦
            let (on, inside) = skip_label-some opening closing i j e in
            let (k, eq, le) = skip_labels_loop-total fuel opening closing j (omega arith) in
            (k, ap next e ∙ eq, omega arith)
      ]
    where
      next : Option ℕ → Option ℕ
      next o = elim o [
        | none ↦ some i
        | some j ↦ skip_labels_loop fuel tokens text opening closing j
      ]

  pub skip_labels-total : (i : ℕ) → (j : ℕ) × (skip_labels d tokens text i ≡ some j) × (i ≤ j)
  unfolding skip_labels
  skip_labels-total i = elim (Option-cases d.label_delimiters) [
    | inl e ↦ (i, ap labels e, omega arith)
    | inr (p, e) ↦
        let (k, eq, le) = skip_labels_loop-total (suc (length tokens)) p.0 p.1 i (omega arith) in
        (k, ap labels e ∙ eq, le)
  ]
    where
      labels : Option (Text × Text) → Option ℕ
      labels o = elim o [
        | none ↦ some i
        | some p ↦ skip_labels_loop (suc (length tokens)) tokens text p.0 p.1 i
      ]

  -- The words that a statement begins with lie behind its start.
  abbrev AllAfter : ℕ → List Word → Type 0
  AllAfter i [] = Unit {0}
  AllAfter i (w ∷ words) = (i ≤ w.after) × AllAfter i words

  AllAfter-earlier : (i j : ℕ) (words : List Word) → i ≤ j → AllAfter j words → AllAfter i words
  AllAfter-earlier i j [] le a = tt
  AllAfter-earlier i j (w ∷ words) le a = (omega (arith, a.0), AllAfter-earlier i j words le a.1)

  collect_words_from-AllAfter :
      (left i : ℕ) (rest : List Token) → AllAfter i (collect_words_from text left i rest)
  collect_words_from-AllAfter zero i rest = tt
  collect_words_from-AllAfter (suc left) i [] = tt
  collect_words_from-AllAfter (suc left) i (t ∷ rest) =
      let taken =
        AllAfter-earlier i (i + 1) (collect_words_from text left (i + 1) rest) (omega arith)
          (collect_words_from-AllAfter left (i + 1) rest) in
      let passed =
        AllAfter-earlier i (i + 1) (collect_words_from text (suc left) (i + 1) rest) (omega arith)
          (collect_words_from-AllAfter (suc left) (i + 1) rest) in
      elim (is_word t.kind) as (λ b. AllAfter i (words_here b)) [
        | true ↦ (omega arith, taken)
        | false ↦ elim (is_trivial_or_directive t.kind) as (λ b. AllAfter i (words_later b)) [
          | true ↦ passed
          | false ↦ tt
        ]
      ]
    where
      words_later : Bool → List Word
      words_later b = elim b [ true ↦ collect_words_from text (suc left) (i + 1) rest | false ↦ [] ]

      words_here : Bool → List Word
      words_here b = elim b [
        | true ↦
            record { text = token_text text t; after = i + 1 }
            ∷ collect_words_from text left (i + 1) rest
        | false ↦ words_later (is_trivial_or_directive t.kind)
      ]

  resume_after-le :
      (words : List Word) (start idx : ℕ)
      → AllAfter start words
      → start ≤ resume_after words start idx
  resume_after-le words start zero a = omega arith
  resume_after-le [] start (suc idx) a = omega arith
  resume_after-le (w ∷ words) start (suc zero) a = a.0
  resume_after-le (w ∷ words) start (suc (suc idx)) a = resume_after-le words start (suc idx) a.1

  pub matches_block_starter-le :
      (starter : BlockStarter) (start resume : ℕ)
      → matches_block_starter starter (collect_leading_words tokens text start) start ≡ some resume
      → start ≤ resume
  unfolding matches_block_starter collect_leading_words
  matches_block_starter-le starter start resume h =
      elim (Option-cases (match_slots starter.slots (collect_leading_words tokens text start) 0)) [
        | inl e ↦ absurd (ground arith)
        | inr (idx, e) ↦
            subst (λ r. start ≤ r)
              (some-inj (resume_after (collect_leading_words tokens text start) start idx) resume
                (sym (ap resumed e) ∙ h))
              (resume_after-le (collect_leading_words tokens text start) start idx
                (collect_words_from-AllAfter max_leading_words start (drop start tokens)))
      ]
    where
      resumed : Option ℕ → Option ℕ
      resumed o = elim o [
        | none ↦ none
        | some idx ↦ some (resume_after (collect_leading_words tokens text start) start idx)
      ]
