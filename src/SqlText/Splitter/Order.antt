-- ===== src/SqlText/Splitter/Order.antt =====
-- `split_statements` returns, and its statements lie in order in the text.
use reldex.Base.{
  ℕ, zero, suc, ◌+◌, ◌-◌, ◌≤◌, ◌<◌, ◌≡◌, refl, sym, ap, ◌∙◌, subst, Bool, true, false, Option, none,
  some, List, [], ◌∷◌, length, get_elem?, drop, arith, Bool-cases, Option-cases, inl, inr,
}
use reldex.Text.{Text, Unicode, byte_len}
use reldex.SqlText.Dialect.{SqlDialect}
use reldex.SqlText.Token.{Token}
use reldex.SqlText.Lexer.Tokenize.{tokenize}
use reldex.SqlText.Lexer.Takes.{HasDelimiters}
use reldex.SqlText.Lexer.Cuts.{Cuts}
use reldex.SqlText.Lexer.Cover.{tokenize-Cuts}
use reldex.SqlText.Splitter.Span.{StatementSpan, ScanOutcome, skip_trivial}
use reldex.SqlText.Splitter.Slash.{last_end}
use reldex.SqlText.Splitter.Split.{
  PositionCursor, start_position, advance_to, scan_statement, is_idle_slash, span_of, split_loop,
  split_statements,
}
use reldex.SqlText.Splitter.Within.{
  Within, Within-later, Cuts-Within, Cuts-sorted, Cuts-last_end, drop-get, get-some,
}
use reldex.SqlText.Splitter.Ends.{Fits, Sorted, Behind}
use reldex.SqlText.Splitter.Onward.{skip_trivial-le}
use reldex.SqlText.Splitter.Spans.{scan_statement-Returns}

-- Statements whose texts lie in the text one behind the other, from `lo` on, each with its
-- terminator behind its own text.
abbrev pub InOrder : Text → ℕ → List StatementSpan → Type 0
InOrder text lo [] = Unit {0}
InOrder text lo (s ∷ spans) =
    (lo ≤ s.content_start)
    × (s.content_start ≤ s.content_end)
    × (s.content_end ≤ s.full_end)
    × (s.full_end ≤ byte_len text)
    × InOrder text s.content_end spans

Within-lower :
    (text : Text) (lo lo' : ℕ) (ts : List Token) → lo' ≤ lo → Within text lo ts → Within text lo' ts
Within-lower text lo lo' [] le w = tt
Within-lower text lo lo' (t ∷ ts) le ((a, b, c, e), w) =
    ((omega arith, b, c, e), Within-lower text lo lo' ts le w)

module _ (d : SqlDialect) (tokens : List Token) (text : Text)
    (last : last_end (byte_len text) tokens ≡ byte_len text) (sorted : Sorted d tokens text) where
  -- The loop returns, with statements from `lo` on.
  abbrev Splits : ℕ → Option (List StatementSpan) → Type 0
  Splits lo r = (spans : List StatementSpan) × (r ≡ some spans) × InOrder text lo spans

  -- The tokens that are left begin behind the statement's text.
  remaining :
      (o : ScanOutcome) → Behind d tokens text o → Within text o.content_end (drop o.next_i tokens)
  remaining o behind = at (drop o.next_i tokens) refl
    where
      at : (ts : List Token) → drop o.next_i tokens ≡ ts → Within text o.content_end ts
      at [] e = tt
      at (t ∷ later) e =
          Within-lower text t.start o.content_end (t ∷ later) (behind t later e)
            (sorted o.next_i t later e)

  advances :
      (cs i fuel : ℕ) (o : ScanOutcome)
      → Fits d tokens text cs i o
      → i < length tokens
      → length tokens - i < suc fuel
      → length tokens - o.next_i < fuel
  advances cs i fuel o (a, b, c, inl lt, z) inside small = omega arith
  advances cs i fuel o (a, b, c, inr all, z) inside small = omega arith

  split_loop-Splits :
      (fuel i lo : ℕ) (cursor : PositionCursor)
      → length tokens - i < fuel
      → Within text lo (drop i tokens)
      → Splits lo (split_loop d tokens text fuel i cursor)
  unfolding split_loop
  split_loop-Splits zero i lo cursor small w = absurd (omega arith)
  split_loop-Splits (suc fuel) i lo cursor small w =
      let on = skip_trivial-le tokens i in
      elim (Option-cases (get_elem? tokens first_i)) [
        | inl e ↦ ([], ap at e, tt)
        | inr (first, e) ↦
            let inside = get-some first_i tokens first e in
            let (later, e') = drop-get first_i tokens first e in
            let here = Within-later text lo i first_i tokens on w in
            let cut = (subst (Within text lo) e' here).0 in
            elim (Bool-cases (is_idle_slash d tokens text first)) [
              | inl idle ↦
                  let (spans, eq, order) =
                    split_loop-Splits fuel (first_i + 1) lo cursor (omega arith)
                      (Within-later text lo first_i (first_i + 1) tokens (omega arith) here) in
                  (spans, ap at e ∙ ap (from first) idle ∙ eq, order)
              | inr busy ↦
                  let (o, found, f) =
                    scan_statement-Returns d tokens text last sorted first.start
                      (omega (arith, cut.1, cut.2)) first_i
                      (subst (Within text first.start) (sym e') (sorted first_i first later e')) in
                  let (spans, eq, order) =
                    split_loop-Splits fuel o.next_i o.content_end
                      (advance_to text (advance_to text cursor first.start) o.full_end)
                      (advances first.start first_i fuel o f inside (omega arith))
                      (remaining o f.4) in
                  (
                    span_of d tokens text first.start (advance_to text cursor first.start) o
                        ∷ spans,
                    ap at e
                        ∙ ap (from first) busy
                        ∙ ap (scanned first) found
                        ∙ ap (more first o) eq,
                    (cut.0, f.0, f.1, f.2, order),
                  )
            ]
      ]
    where
      first_i : ℕ
      first_i = skip_trivial tokens i

      more : Token → ScanOutcome → Option (List StatementSpan) → Option (List StatementSpan)
      more first o r = elim r [
        | none ↦ none
        | some spans ↦
            some (span_of d tokens text first.start (advance_to text cursor first.start) o ∷ spans)
      ]

      scanned : Token → Option ScanOutcome → Option (List StatementSpan)
      scanned first r = elim r [
        | none ↦ none
        | some o ↦ more first o (
            split_loop d tokens text fuel o.next_i
              (advance_to text (advance_to text cursor first.start) o.full_end))
      ]

      from : Token → Bool → Option (List StatementSpan)
      from first b = elim b [
        | true ↦ split_loop d tokens text fuel (first_i + 1) cursor
        | false ↦ scanned first (scan_statement d tokens text first_i first.start)
      ]

      at : Option Token → Option (List StatementSpan)
      at r = elim r [ none ↦ some [] | some first ↦ from first (is_idle_slash d tokens text first) ]

-- For a dialect whose comment delimiters are not empty, `split_statements` returns on the fuel that
-- its loops have, and the statements lie in the text: each begins where the text of the one before
-- it ended or later, its own text ends no earlier than it begins, its terminator no earlier than
-- its text, and nothing behind the end of the document.
pub split_statements-InOrder :
    (u : Unicode) (d : SqlDialect) (text : Text)
    → HasDelimiters d
    → (spans : List StatementSpan) × (split_statements u d text ≡ some spans) × InOrder text 0 spans
unfolding split_statements
split_statements-InOrder u d text h =
    split_loop-Splits d tokens text (Cuts-last_end text tokens cuts)
      (λ i t later e. Cuts-sorted text [] text 0 tokens i t later refl refl cuts e)
      (suc (length tokens)) 0 0 start_position (omega arith)
      (Cuts-Within text [] text 0 0 tokens refl (omega arith) refl cuts)
  where
    tokens : List Token
    tokens = tokenize u d text

    cuts : Cuts text 0 tokens
    cuts = tokenize-Cuts u d h text
