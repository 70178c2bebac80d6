-- ===== src/SqlText/Splitter/Structured.antt =====
-- crates/sql-text/src/splitter.rs: `scan_header` and `scan_structured`, whose loop body is one step.
-- `depth` is only lessened where it is not 0, so it is a natural number.
use reldex.Base.Int.{ℤ, pos, leb_ℤ}
use reldex.Base.{
  ℕ, zero, suc, ◌+◌, ◌-◌, Bool, true, false, not, ◌&&◌, ◌||◌, Option, none, some, List, [], ◌∷◌,
  length, drop, get_elem?, any, ltb, ◌==◌, if◌then◌else◌,
}
use reldex.Text.{Text, eq_ignore_ascii_case}
use reldex.SqlText.Dialect.{SqlDialect, BlockStarter, has_word}
use reldex.SqlText.Token.{Token}
use reldex.SqlText.Splitter.Span.{
  block, ScanOutcome, is_operator, is_word, token_text, is_terminator, skip_trivial,
}
use reldex.SqlText.Splitter.Phrases.{peek_phrase_matches, ends_with_phrase}
use reldex.SqlText.Splitter.Slash.{ran_to_eof, end_at_slash_line}
use reldex.SqlText.Splitter.Scans.{
  is_slash, is_paren, paren_depth_after, scan_to_terminator, skip_end_qualifier, finish_structured,
}

-- Where a header's scan resumes, and whether it owes a body.
pub record Header : Type 0 where
  pub resume : ℕ
  pub owes_body : Bool

-- What `scan_structured` keeps from token to token.
pub record Structure : Type 0 where
  pub depth : ℕ
  pub pending_bodies : ℕ
  pub absorbed_body : Bool
  pub is_compound : Bool
  pub paren_depth : ℤ

-- The loop goes on at an index, or returns.
pub data Step : Type 0 where
  go : ℕ → Structure → Step
  done : ScanOutcome → Step

abbrev pub initial_structure : BlockStarter → Structure
initial_structure starter = record {
  depth = 0;
  pending_bodies = 0;
  absorbed_body = starter.opens_body;
  is_compound = false;
  paren_depth = pos 0;
}

module _ (d : SqlDialect) (tokens : List Token) (text : Text) where
  -- A word at index `i` that introduces a body, and completes no excepted phrase.
  unfoldable pub introduces_body : ℕ → Text → Bool
  introduces_body i word =
      has_word d.body_intro_keywords word
      && not (any (λ phrase. ends_with_phrase tokens text i phrase) d.body_intro_exceptions)

  unfoldable pub is_call_spec : ℕ → Bool
  is_call_spec after =
      any (λ phrase. peek_phrase_matches tokens text after phrase) d.call_spec_phrases

  -- The index behind the next terminator.
  unfoldable pub after_terminator_from : ℕ → List Token → ℕ
  after_terminator_from j [] = length tokens
  after_terminator_from j (t ∷ rest) =
      if is_terminator d text t then j + 1 else after_terminator_from (j + 1) rest

  -- Behind the word that introduces a header's body.
  unfoldable pub header_body : ℕ → Header
  unfolding is_call_spec after_terminator_from
  header_body i =
      let after = skip_trivial tokens (i + 1) in
      if is_call_spec after
      then record { resume = after_terminator_from after (drop after tokens); owes_body = false }
      else record { resume = i + 1; owes_body = true }

  unfoldable pub scan_header_from : ℕ → List Token → ℤ → Header
  unfolding introduces_body header_body
  scan_header_from i [] depth = record { resume = length tokens; owes_body = false }
  scan_header_from i (t ∷ rest) depth =
      let depth_after = if is_operator t.kind then paren_depth_after text t depth else depth in
      let later = scan_header_from (i + 1) rest depth_after in
      if is_operator t.kind
      then if not (is_paren text t) && (leb_ℤ depth (pos 0) && is_terminator d text t)
        then record { resume = i + 1; owes_body = false }
        else later
      else if leb_ℤ depth (pos 0) && is_word t.kind && introduces_body i (token_text text t)
      then header_body i
      else later

  unfoldable pub scan_header : ℕ → Header
  unfolding scan_header_from
  scan_header start = scan_header_from start (drop start tokens) (pos 0)

  abbrev pub compound_at : ℕ → Structure → Bool
  compound_at i st = st.is_compound || elim d.sectioned_body_marker [
    | none ↦ false
    | some marker ↦ peek_phrase_matches tokens text i marker
  ]

  -- No body was opened, and none is owed.
  abbrev pub awaits_body : Structure → Bool
  awaits_body st = st.depth == 0 && st.pending_bodies == 0 && not st.absorbed_body

  abbrev pub is_header_word : Structure → Text → Bool
  is_header_word st word =
      has_word d.subprogram_header_keywords word
      || (st.is_compound && has_word d.section_header_starters word)

  -- `block_body_opener` and `block_nesting_openers`.
  unfoldable pub open_block : Structure → Text → Structure
  open_block st word =
      if eq_ignore_ascii_case word d.block_body_opener
      then if ltb 0 st.pending_bodies && st.depth == 0
        then record st { pending_bodies = st.pending_bodies - 1; depth = st.depth + 1 }
        else if st.depth == 0 && not st.absorbed_body
        then record st { absorbed_body = true }
        else record st { depth = st.depth + 1 }
      else if has_word d.block_nesting_openers word
      then record st { depth = st.depth + 1 }
      else st

  unfoldable pub end_block : ℕ → Structure → Step
  end_block i st =
      if st.depth == 0
      then done (finish_structured d tokens text i)
      else go (skip_end_qualifier d tokens text (i + 1)) (record st { depth = st.depth - 1 })

  unfoldable pub header_step : ℕ → Structure → Step
  unfolding scan_header
  header_step i st =
      let header = scan_header (i + 1) in
      go header.resume
        (if header.owes_body then record st { pending_bodies = st.pending_bodies + 1 } else st)

  -- A word outside parentheses.
  unfoldable pub word_step : ℕ → ℕ → Structure → Text → Step
  unfolding introduces_body is_call_spec open_block end_block header_step
  word_step content_start i st word =
      let after = skip_trivial tokens (i + 1) in
      if awaits_body st && has_word d.body_less_markers word
      then done (scan_to_terminator d tokens text (i + 1) content_start)
      else if awaits_body st && introduces_body i word && is_call_spec after
      then done (scan_to_terminator d tokens text after content_start)
      else if is_header_word st word
      then header_step i st
      else if eq_ignore_ascii_case word d.block_end_keyword
      then end_block i st
      else go (i + 1) (open_block st word)

  -- The body of the loop.
  unfoldable pub structured_step : ℕ → ℕ → Structure → Token → Step
  unfolding word_step
  structured_step content_start i st t =
      if d.slash_terminates_block && is_slash text t
      then done (end_at_slash_line text t block (i + 1) content_start)
      else if is_operator t.kind
      then go (i + 1) (record st { paren_depth = paren_depth_after text t st.paren_depth })
      else if not (is_word t.kind) || not (leb_ℤ st.paren_depth (pos 0))
      then go (i + 1) st
      else word_step content_start i (record st { is_compound = compound_at i st })
          (token_text text t)

  -- The loop, on fuel.
  unfoldable pub structured_loop : ℕ → ℕ → ℕ → Structure → Option ScanOutcome
  unfolding structured_step
  structured_loop zero content_start i st = none
  structured_loop (suc fuel) content_start i st = elim (get_elem? tokens i) [
    | none ↦ some (ran_to_eof tokens text block)
    | some t ↦ elim (structured_step content_start i st t) [
      | done outcome ↦ some outcome
      | go next_i st' ↦ structured_loop fuel content_start next_i st'
    ]
  ]

  unfoldable pub scan_structured : BlockStarter → ℕ → ℕ → Option ScanOutcome
  unfolding structured_loop
  scan_structured starter start content_start =
      structured_loop (suc (length tokens)) content_start start (initial_structure starter)
