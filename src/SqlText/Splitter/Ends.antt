-- ===== src/SqlText/Splitter/Ends.antt =====
-- Where the scans without structure end: inside the text, behind their statement's start, and
-- further on in the tokens.
use reldex.Base.Int.{ℤ}
use reldex.Base.{
  ℕ, suc, ◌+◌, ◌≤◌, ◌<◌, ◌≡◌, refl, sym, ap, subst, Bool, true, false, ◌&&◌, Option, none, some,
  List, [], ◌∷◌, length, drop, arith, if◌then◌else◌, some-inj, ◌⊎◌, inl, inr,
}
use reldex.Text.{Text, byte_len, take_bytes}
use reldex.SqlText.Dialect.{SqlDialect}
use reldex.SqlText.Token.{Token}
use reldex.SqlText.Splitter.Span.{
  StatementKind, plain, block, ScanOutcome, is_operator, is_word, is_trivial,
  is_trivial_or_directive, is_terminator, inferred_block_end,
}
use reldex.SqlText.Splitter.Slash.{
  last_end, ran_to_eof, is_lone_slash_line, end_at_slash_line, slash_after, finish_with_maybe_slash,
  end_after_slash,
}
use reldex.SqlText.Splitter.Scans.{
  is_paren, paren_depth_after, scan_plain_from, scan_opaque_source_from, scan_paren_delimited_from,
  scan_to_terminator_from, finish_structured_from,
}
use reldex.SqlText.Splitter.Within.{
  IsCut, Within, Within-later, drop-all, drop-next, trailing_line_end-bounds, trim_end-le,
}

module _ (d : SqlDialect) (tokens : List Token) (text : Text) where
  -- The statement's text ends before the token that the next statement's search begins at.
  abbrev pub Behind : ScanOutcome → Type 0
  Behind o =
      (t : Token) (later : List Token) → drop o.next_i tokens ≡ t ∷ later → o.content_end ≤ t.start

  -- What holds of an outcome, for a statement that begins at `cs` and a scan from index `i`.
  abbrev pub Fits : ℕ → ℕ → ScanOutcome → Type 0
  Fits cs i o =
      (cs ≤ o.content_end)
      × (o.content_end ≤ o.full_end)
      × (o.full_end ≤ byte_len text)
      × ((i < o.next_i) ⊎ (length tokens ≤ o.next_i))
      × Behind o

  abbrev pub Sorted : Type 0
  Sorted =
      (i : ℕ) (t : Token) (later : List Token)
      → drop i tokens ≡ t ∷ later
      → Within text t.start (t ∷ later)

  pub Fits-earlier : (cs i j : ℕ) (o : ScanOutcome) → i ≤ j → Fits cs j o → Fits cs i o
  Fits-earlier cs i j o le (a, b, c, inl lt, z) = (a, b, c, inl (omega arith), z)
  Fits-earlier cs i j o le (a, b, c, inr all, z) = (a, b, c, inr all, z)

  if_Fits :
      (b : Bool) (cs i : ℕ) (x y : ScanOutcome)
      → Fits cs i x
      → Fits cs i y
      → Fits cs i (if b then x else y)
  if_Fits true cs i x y p q = p
  if_Fits false cs i x y p q = q

  module _ (last : last_end (byte_len text) tokens ≡ byte_len text) (sorted : Sorted) where
    -- A token further on begins no earlier.
    starts-later :
        (i j : ℕ) (t t' : Token) (rest later : List Token)
        → i ≤ j
        → drop i tokens ≡ t ∷ rest
        → drop j tokens ≡ t' ∷ later
        → t.start ≤ t'.start
    starts-later i j t t' rest later le e e' =
        (subst (Within text t.start) e' (
          Within-later text t.start i j tokens le
            (subst (Within text t.start) (sym e) (sorted i t rest e)))).0.0

    pub ran_to_eof-Fits :
        (cs i : ℕ) (kind : StatementKind)
        → cs ≤ byte_len text
        → Fits cs i (ran_to_eof tokens text kind)
    unfolding ran_to_eof
    ran_to_eof-Fits cs i kind le =
        (omega (arith, last), omega arith, omega (arith, last), inr (omega arith), nothing)
      where
        nothing : Behind (ran_to_eof tokens text kind)
        nothing t later e =
            absurd (ground (arith, drop-all (length tokens) tokens (omega arith), e))

    pub end_at_slash_line-Fits :
        (cs i : ℕ) (t : Token) (kind : StatementKind) (rest : List Token)
        → IsCut text cs t
        → drop i tokens ≡ t ∷ rest
        → Fits cs i (end_at_slash_line text t kind (i + 1) cs)
    unfolding end_at_slash_line
    end_at_slash_line-Fits cs i t kind rest (lo, more, hi, cut) e =
        let ends = trailing_line_end-bounds text t.end hi in
        let trimmed = trim_end-le (take_bytes t.start text) in
        (
          omega arith,
          omega (arith, ends.0, trimmed, cut),
          ends.1,
          inl (omega arith),
          λ t' later e'.
              omega (
                arith,
                trimmed,
                cut,
                lo,
                starts-later i (i + 1) t t' rest later (omega arith) e e',
              ),
        )

    slash_after-IsCut :
        (lo k : ℕ) (rest : List Token) (k' : ℕ) (t' : Token)
        → Within text lo rest
        → slash_after text k rest ≡ some (k', t')
        → (k ≤ k') × IsCut text lo t'
    unfolding slash_after
    slash_after-IsCut lo k [] k' t' w h = absurd (ground arith)
    slash_after-IsCut lo k (t ∷ rest) k' t' w h =
        passed (is_trivial_or_directive t.kind) (is_operator t.kind && is_lone_slash_line text t)
          (slash_after-IsCut lo (suc k) rest k' t' w.1) h
      where
        passed :
            (trivial slash : Bool)
            → (slash_after text (suc k) rest ≡ some (k', t') → (suc k ≤ k') × IsCut text lo t')
            → (if trivial
                then slash_after text (suc k) rest
                else if slash
                then some (k, t)
                else none)
              ≡ some (k', t')
            → (k ≤ k') × IsCut text lo t'
        passed true slash ih h = let (le, cut) = ih h in (omega arith, cut)
        passed false true ih h =
            let same = some-inj (k, t) (k', t') h in
            (omega (arith, ap (λ p. p.0) same), subst (λ p. IsCut text lo p.1) same w.0)
        passed false false ih h = absurd (ground arith)

    pub finish-Fits :
        (cs i : ℕ) (t : Token) (rest : List Token)
        → IsCut text cs t
        → drop i tokens ≡ t ∷ rest
        → Fits cs i (finish_with_maybe_slash d tokens text t.start t.end (i + 1) block)
    unfolding finish_with_maybe_slash end_after_slash
    finish-Fits cs i t rest (lo, more, hi, cut) e =
        if_Fits d.slash_terminates_block cs i
          (end_after_slash text inferred (slash_after text (i + 1) (drop (i + 1) tokens))) inferred
          (behind (slash_after text (i + 1) (drop (i + 1) tokens)) refl) inferred_Fits
      where
        inferred : ScanOutcome
        inferred = record {
          content_end = t.start;
          full_end = t.end;
          terminated = d.block_may_end_without_slash;
          ended_by = inferred_block_end;
          next_i = i + 1;
          kind = block;
        }

        inferred_Fits : Fits cs i inferred
        inferred_Fits = (
          lo,
          omega arith,
          hi,
          inl (omega arith),
          λ t' later e'. starts-later i (i + 1) t t' rest later (omega arith) e e',
        )

        behind :
            (found : Option (ℕ × Token))
            → slash_after text (i + 1) (drop (i + 1) tokens) ≡ found
            → Fits cs i (end_after_slash text inferred found)
        behind none h = inferred_Fits
        behind (some (k, t')) h =
            let (le, cut') =
              slash_after-IsCut t.start (i + 1) (drop (i + 1) tokens) k t'
                (subst (Within text t.start) (sym (drop-next i tokens t rest e))
                  (sorted i t rest e).1)
                h in
            let ends = trailing_line_end-bounds text t'.end cut'.2 in
            (
              lo,
              omega (arith, cut'.0, cut'.1, ends.0),
              ends.1,
              inl (omega arith),
              λ t'' later e'. starts-later i (k + 1) t t'' rest later (omega arith) e e',
            )

    -- The scans walk over `rest`, the tokens from index `i` on.
    module _ (cs : ℕ) (le : cs ≤ byte_len text) where
      abbrev pub At : ℕ → List Token → Type 0
      At i rest = Within text cs rest × (drop i tokens ≡ rest)

      At-next : (i : ℕ) (t : Token) (rest : List Token) → At i (t ∷ rest) → At (i + 1) rest
      At-next i t rest (w, e) = (w.1, drop-next i tokens t rest e)

      later-Fits : (i : ℕ) (o : ScanOutcome) → Fits cs (i + 1) o → Fits cs i o
      later-Fits i o f = Fits-earlier cs i (i + 1) o (omega arith) f

      pub scan_plain_from-Fits :
          (i : ℕ) (rest : List Token)
          → At i rest
          → Fits cs i (scan_plain_from d tokens text cs i rest)
      unfolding scan_plain_from
      scan_plain_from-Fits i [] a = ran_to_eof-Fits cs i plain le
      scan_plain_from-Fits i (t ∷ rest) a =
          if_Fits _ cs i _ _ (end_at_slash_line-Fits cs i t plain rest a.0.0 a.1) (
            if_Fits _ cs i _ (scan_plain_from d tokens text cs (i + 1) rest)
              (
                a.0.0.0,
                omega (arith, a.0.0.1),
                a.0.0.2,
                inl (omega arith),
                λ t' later e'. starts-later i (i + 1) t t' rest later (omega arith) a.1 e',
              )
              (later-Fits i (scan_plain_from d tokens text cs (i + 1) rest)
                (scan_plain_from-Fits (i + 1) rest (At-next i t rest a))))

      pub scan_opaque_source_from-Fits :
          (i : ℕ) (rest : List Token)
          → At i rest
          → Fits cs i (scan_opaque_source_from d tokens text cs i rest)
      unfolding scan_opaque_source_from
      scan_opaque_source_from-Fits i [] a = ran_to_eof-Fits cs i block le
      scan_opaque_source_from-Fits i (t ∷ rest) a =
          if_Fits _ cs i _ (scan_opaque_source_from d tokens text cs (i + 1) rest)
            (end_at_slash_line-Fits cs i t block rest a.0.0 a.1)
            (later-Fits i (scan_opaque_source_from d tokens text cs (i + 1) rest)
              (scan_opaque_source_from-Fits (i + 1) rest (At-next i t rest a)))

      pub scan_to_terminator_from-Fits :
          (i : ℕ) (rest : List Token)
          → At i rest
          → Fits cs i (scan_to_terminator_from d tokens text cs i rest)
      unfolding scan_to_terminator_from
      scan_to_terminator_from-Fits i [] a = ran_to_eof-Fits cs i block le
      scan_to_terminator_from-Fits i (t ∷ rest) a =
          if_Fits _ cs i _ _ (end_at_slash_line-Fits cs i t block rest a.0.0 a.1) (
            if_Fits _ cs i _ (scan_to_terminator_from d tokens text cs (i + 1) rest)
              (finish-Fits cs i t rest a.0.0 a.1)
              (later-Fits i (scan_to_terminator_from d tokens text cs (i + 1) rest)
                (scan_to_terminator_from-Fits (i + 1) rest (At-next i t rest a))))

      pub scan_paren_delimited_from-Fits :
          (i : ℕ) (rest : List Token) (depth : ℤ)
          → At i rest
          → Fits cs i (scan_paren_delimited_from d tokens text cs i rest depth)
      unfolding scan_paren_delimited_from
      scan_paren_delimited_from-Fits i [] depth a = ran_to_eof-Fits cs i block le
      scan_paren_delimited_from-Fits i (t ∷ rest) depth a =
          let depth_after =
            if is_operator t.kind && is_paren text t
            then paren_depth_after text t depth
            else depth in
          let later_Fits =
            later-Fits i (later depth_after)
              (scan_paren_delimited_from-Fits (i + 1) rest depth_after (At-next i t rest a)) in
          if_Fits _ cs i _ _ (end_at_slash_line-Fits cs i t block rest a.0.0 a.1) (
            if_Fits _ cs i (later depth_after) _ later_Fits
              (if_Fits _ cs i _ (later depth_after) (finish-Fits cs i t rest a.0.0 a.1) later_Fits))
        where
          later : ℤ → ScanOutcome
          later z = scan_paren_delimited_from d tokens text cs (i + 1) rest z

      pub finish_structured_from-Fits :
          (i : ℕ) (rest : List Token)
          → At i rest
          → Fits cs i (finish_structured_from d tokens text i rest)
      unfolding finish_structured_from
      finish_structured_from-Fits i [] a = ran_to_eof-Fits cs i block le
      finish_structured_from-Fits i (t ∷ rest) a =
          let later_Fits =
            later-Fits i later (finish_structured_from-Fits (i + 1) rest (At-next i t rest a)) in
          if_Fits (is_trivial t.kind) cs i later behind_trivia later_Fits (
            if_Fits (is_word t.kind) cs i later ended later_Fits (
              if_Fits (is_terminator d text t) cs i
                (finish_with_maybe_slash d tokens text t.start t.end (i + 1) block)
                (ran_to_eof tokens text block) (finish-Fits cs i t rest a.0.0 a.1)
                (ran_to_eof-Fits cs i block le)))
        where
          later : ScanOutcome
          later = finish_structured_from d tokens text (i + 1) rest

          ended : ScanOutcome
          ended =
              if is_terminator d text t
              then finish_with_maybe_slash d tokens text t.start t.end (i + 1) block
              else ran_to_eof tokens text block

          behind_trivia : ScanOutcome
          behind_trivia = if is_word t.kind then later else ended
