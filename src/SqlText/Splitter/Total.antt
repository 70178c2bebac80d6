-- ===== src/SqlText/Splitter/Total.antt =====
-- `scan_structured` returns on the fuel that it has, and its outcome lies in the text.
use reldex.Base.{
  ℕ, zero, suc, ◌+◌, ◌-◌, ◌≤◌, ◌<◌, ◌≡◌, refl, sym, ap, ◌∙◌, subst, Bool, true, false, ◌&&◌, not,
  ◌||◌, Option, none, some, List, ◌∷◌, length, get_elem?, drop, arith, ◌==◌, if◌then◌else◌,
  Option-cases, inl, inr,
}
use reldex.Base.Int.{pos, leb_ℤ}
use reldex.Text.{Text, byte_len, eq_ignore_ascii_case}
use reldex.SqlText.Dialect.{SqlDialect, BlockStarter, has_word}
use reldex.SqlText.Token.{Token}
use reldex.SqlText.Splitter.Span.{
  block, ScanOutcome, is_operator, is_word, token_text, skip_trivial,
}
use reldex.SqlText.Splitter.Slash.{last_end, ran_to_eof, end_at_slash_line}
use reldex.SqlText.Splitter.Scans.{
  is_slash, paren_depth_after, scan_to_terminator, finish_structured, skip_end_qualifier,
}
use reldex.SqlText.Splitter.Structured.{
  Structure, Step, go, done, initial_structure, introduces_body, is_call_spec, compound_at,
  awaits_body, is_header_word, open_block, end_block, header_step, word_step, structured_step,
  structured_loop, scan_structured,
}
use reldex.SqlText.Splitter.Within.{Within, Within-later, drop-all, drop-get, get-some}
use reldex.SqlText.Splitter.Ends.{
  Fits, Sorted, Fits-earlier, ran_to_eof-Fits, end_at_slash_line-Fits, scan_to_terminator_from-Fits,
  finish_structured_from-Fits,
}
use reldex.SqlText.Splitter.Onward.{
  Onward, skip_trivial-le, skip_end_qualifier-le, scan_header-Onward,
}

module _ (d : SqlDialect) (tokens : List Token) (text : Text)
    (last : last_end (byte_len text) tokens ≡ byte_len text) (sorted : Sorted d tokens text)
    (cs : ℕ) (le : cs ≤ byte_len text) where
  -- The loop goes further on, or returns an outcome that fits.
  abbrev StepFits : ℕ → Step → Type 0
  StepFits i (go j st) = Onward d tokens text (i + 1) j
  StepFits i (done o) = Fits d tokens text cs i o

  if-StepFits :
      (b : Bool) (i : ℕ) (x y : Step)
      → StepFits i x
      → StepFits i y
      → StepFits i (if b then x else y)
  if-StepFits true i x y p q = p
  if-StepFits false i x y p q = q

  -- The tokens from an index on begin no earlier than the statement.
  abbrev From : ℕ → Type 0
  From i = Within text cs (drop i tokens)

  scan_to_terminator-Fits :
      (i j : ℕ) → i ≤ j → From i → Fits d tokens text cs i (scan_to_terminator d tokens text j cs)
  unfolding scan_to_terminator
  scan_to_terminator-Fits i j on w =
      Fits-earlier d tokens text cs i j (scan_to_terminator d tokens text j cs) on (
        scan_to_terminator_from-Fits d tokens text last sorted cs le j (drop j tokens)
          (Within-later text cs i j tokens on w, refl))

  finish_structured-Fits :
      (i : ℕ) → From i → Fits d tokens text cs i (finish_structured d tokens text i)
  unfolding finish_structured
  finish_structured-Fits i w =
      Fits-earlier d tokens text cs i (i + 1) (finish_structured d tokens text i) (omega arith) (
        finish_structured_from-Fits d tokens text last sorted cs le (i + 1) (drop (i + 1) tokens)
          (Within-later text cs i (i + 1) tokens (omega arith) w, refl))

  end_block-StepFits : (i : ℕ) (st : Structure) → From i → StepFits i (end_block d tokens text i st)
  unfolding end_block
  end_block-StepFits i st w =
      if-StepFits (st.depth == 0) i (done (finish_structured d tokens text i))
        (go (skip_end_qualifier d tokens text (i + 1)) (record st { depth = st.depth - 1 }))
        (finish_structured-Fits i w) (inl (skip_end_qualifier-le d tokens text (i + 1)))

  word_step-StepFits :
      (i : ℕ) (st : Structure) (word : Text)
      → From i
      → StepFits i (word_step d tokens text cs i st word)
  unfolding word_step header_step
  word_step-StepFits i st word w =
      if-StepFits (awaits_body d tokens text st && has_word d.body_less_markers word) i
        (done (scan_to_terminator d tokens text (i + 1) cs)) behind_marker
        (scan_to_terminator-Fits i (i + 1) (omega arith) w)
        (if-StepFits
          (awaits_body d tokens text st
            && introduces_body d tokens text i word
            && is_call_spec d tokens text after)
          i (done (scan_to_terminator d tokens text after cs)) behind_intro
          (scan_to_terminator-Fits i after (omega (arith, skip_trivial-le tokens (i + 1))) w)
          (if-StepFits (is_header_word d tokens text st word) i (header_step d tokens text i st)
            behind_header (scan_header-Onward d tokens text (i + 1))
            (if-StepFits (eq_ignore_ascii_case word d.block_end_keyword) i
              (end_block d tokens text i st) (go (i + 1) (open_block d tokens text st word))
              (end_block-StepFits i st w) (inl (omega arith)))))
    where
      after : ℕ
      after = skip_trivial tokens (i + 1)

      behind_header : Step
      behind_header =
          if eq_ignore_ascii_case word d.block_end_keyword
          then end_block d tokens text i st
          else go (i + 1) (open_block d tokens text st word)

      behind_intro : Step
      behind_intro =
          if is_header_word d tokens text st word
          then header_step d tokens text i st
          else behind_header

      behind_marker : Step
      behind_marker =
          if awaits_body d tokens text st
            && introduces_body d tokens text i word
            && is_call_spec d tokens text after
          then done (scan_to_terminator d tokens text after cs)
          else behind_intro

  structured_step-StepFits :
      (i : ℕ) (st : Structure) (t : Token) (later : List Token)
      → drop i tokens ≡ t ∷ later
      → From i
      → StepFits i (structured_step d tokens text cs i st t)
  unfolding structured_step
  structured_step-StepFits i st t later e w =
      if-StepFits (d.slash_terminates_block && is_slash text t) i
        (done (end_at_slash_line text t block (i + 1) cs)) behind_slash
        (end_at_slash_line-Fits d tokens text last sorted cs i t block later
          (subst (Within text cs) e w).0 e)
        (if-StepFits (is_operator t.kind) i
          (go (i + 1) (record st { paren_depth = paren_depth_after text t st.paren_depth }))
          behind_operator (inl (omega arith))
          (if-StepFits (not (is_word t.kind) || not (leb_ℤ st.paren_depth (pos 0))) i
            (go (i + 1) st) at_word (inl (omega arith))
            (word_step-StepFits i (record st { is_compound = compound_at d tokens text i st })
              (token_text text t) w)))
    where
      at_word : Step
      at_word =
          word_step d tokens text cs i (record st { is_compound = compound_at d tokens text i st })
            (token_text text t)

      behind_operator : Step
      behind_operator =
          if not (is_word t.kind) || not (leb_ℤ st.paren_depth (pos 0))
          then go (i + 1) st
          else at_word

      behind_slash : Step
      behind_slash =
          if is_operator t.kind
          then go (i + 1) (record st { paren_depth = paren_depth_after text t st.paren_depth })
          else behind_operator

  -- The loop returns, with an outcome that fits.
  abbrev Returns : ℕ → Option ScanOutcome → Type 0
  Returns i r = (o : ScanOutcome) × (r ≡ some o) × Fits d tokens text cs i o

  Returns-earlier :
      (i j : ℕ) (r : Option ScanOutcome)
      → Onward d tokens text (i + 1) j
      → Returns j r
      → Returns i r
  Returns-earlier i j r (inl p) (o, e, f) =
      (o, e, Fits-earlier d tokens text cs i j o (omega arith) f)
  Returns-earlier i j r (inr p) (o, e, (a, b, c, inl lt, z)) =
      (o, e, (a, b, c, inr (omega arith), z))
  Returns-earlier i j r (inr p) (o, e, (a, b, c, inr all, z)) = (o, e, (a, b, c, inr all, z))

  Onward-lt :
      (i j fuel : ℕ)
      → Onward d tokens text (i + 1) j
      → i < length tokens
      → length tokens - i < suc fuel
      → length tokens - j < fuel
  Onward-lt i j fuel (inl p) inside lt = omega arith
  Onward-lt i j fuel (inr p) inside lt = omega arith

  From-later : (i j : ℕ) → Onward d tokens text (i + 1) j → From i → From j
  From-later i j (inl p) w = Within-later text cs i j tokens (omega arith) w
  From-later i j (inr p) w = subst (Within text cs) (sym (drop-all j tokens p)) tt

  structured_loop-Returns :
      (fuel i : ℕ) (st : Structure)
      → length tokens - i < fuel
      → From i
      → Returns i (structured_loop d tokens text fuel cs i st)
  unfolding structured_loop
  structured_loop-Returns zero i st lt w = absurd (omega arith)
  structured_loop-Returns (suc fuel) i st lt w = elim (Option-cases (get_elem? tokens i)) [
    | inl e ↦ (
      ran_to_eof tokens text block,
      ap at e,
      ran_to_eof-Fits d tokens text last sorted cs i block le,
    )
    | inr (t, e) ↦
        let (later, e') = drop-get i tokens t e in
        let (o, eq, f) =
          after_step t (get-some i tokens t e) (structured_step d tokens text cs i st t)
            (structured_step-StepFits i st t later e' w)
            (λ j st' lt' w'. structured_loop-Returns fuel j st' lt' w') in
        (o, ap at e ∙ eq, f)
  ]
    where
      next : Step → Option ScanOutcome
      next s = elim s [
        | done outcome ↦ some outcome
        | go next_i st' ↦ structured_loop d tokens text fuel cs next_i st'
      ]

      at : Option Token → Option ScanOutcome
      at r = elim r [
        | none ↦ some (ran_to_eof tokens text block)
        | some t ↦ next (structured_step d tokens text cs i st t)
      ]

      after_step :
          (t : Token)
          → i < length tokens
          → (s : Step) → StepFits i s
          → ((j : ℕ) (st' : Structure)
              → length tokens - j < fuel
              → From j
              → Returns j (structured_loop d tokens text fuel cs j st'))
          → Returns i (next s)
      after_step t inside (done o) f ih = (o, refl, f)
      after_step t inside (go j st') on ih =
          Returns-earlier i j (structured_loop d tokens text fuel cs j st') on
            (ih j st' (Onward-lt i j fuel on inside lt) (From-later i j on w))

  -- The scan of a block from a token of its own on returns an outcome in the text.
  pub scan_structured-Returns :
      (starter : BlockStarter) (i : ℕ)
      → From i
      → (o : ScanOutcome) × (scan_structured d tokens text starter i cs ≡ some o)
        × Fits d tokens text cs i o
  unfolding scan_structured
  scan_structured-Returns starter i w =
      structured_loop-Returns (suc (length tokens)) i (initial_structure starter) (omega arith) w
