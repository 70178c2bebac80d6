-- ===== src/SqlText/Splitter/At.antt =====
-- `statement_at`: the statement that a cursor is in or behind, and the cursor's place.
use reldex.Base.{
  min, ℕ, ◌≤◌, ◌<◌, ◌≡◌, refl, sym, ap, ◌∙◌, subst, Bool, true, false, not, ◌&&◌, ◌||◌, Option,
  none, some, List, [], ◌∷◌, find, any, arith, leb, ◌==◌, if◌then◌else◌, Bool-cases, Option-cases,
  some-inj, ◌⊎◌, inl, inr,
}
use reldex.Text.{Text, Unicode, byte_len, slice}
use reldex.SqlText.Dialect.{SqlDialect}
use reldex.SqlText.Lexer.Takes.{HasDelimiters}
use reldex.SqlText.Splitter.Span.{StatementSpan}
use reldex.SqlText.Splitter.Order.{split_statements-InOrder}
use reldex.SqlText.Splitter.Split.{
  floor_char_boundary, last_preceding, statement_in, statement_at, split_statements,
}

-- One of the statements.
abbrev pub IsIn : StatementSpan → List StatementSpan → Type 0
IsIn s [] = ⊥
IsIn s (x ∷ spans) = (s ≡ x) ⊎ IsIn s spans

abbrev pub holds : ℕ → StatementSpan → Bool
holds offset s = leb s.content_start offset && leb offset s.full_end

find-some :
    (p : StatementSpan → Bool) (spans : List StatementSpan) (s : StatementSpan)
    → find p spans ≡ some s
    → IsIn s spans × (p s ≡ true)
find-some p [] s h = absurd (ground arith)
find-some p (x ∷ spans) s h = elim (Bool-cases (p x)) [
  | inl e ↦
      let same = some-inj x s (sym (ap next e) ∙ h) in
      (inl (sym same), subst (λ y. p y ≡ true) same e)
  | inr e ↦ let (member, holds) = find-some p spans s (sym (ap next e) ∙ h) in (inr member, holds)
]
  where
    next : Bool → Option StatementSpan
    next b = elim b [ true ↦ some x | false ↦ find p spans ]

find-none :
    (p : StatementSpan → Bool) (spans : List StatementSpan)
    → find p spans ≡ none
    → any p spans ≡ false
find-none p [] h = refl
find-none p (x ∷ spans) h = elim (Bool-cases (p x)) [
  | inl e ↦ absurd (ground (arith, sym (ap next e) ∙ h))
  | inr e ↦ ap (λ b. b || any p spans) e ∙ find-none p spans (sym (ap next e) ∙ h)
]
  where
    next : Bool → Option StatementSpan
    next b = elim b [ true ↦ some x | false ↦ find p spans ]

-- The last statement that ends at the offset or before it, if there is one.
abbrev pub IsLatest : ℕ → List StatementSpan → Option StatementSpan → Type 0
IsLatest offset spans none = (x : StatementSpan) → IsIn x spans → offset < x.full_end
IsLatest offset spans (some s) =
    IsIn s spans
    × (s.full_end ≤ offset)
    × ((x : StatementSpan) → IsIn x spans → x.full_end ≤ offset → x.full_end ≤ s.full_end)

last_preceding-IsLatest :
    (offset : ℕ) (spans : List StatementSpan) → IsLatest offset spans (last_preceding offset spans)
unfolding last_preceding
last_preceding-IsLatest offset [] = λ x member. absurd member
last_preceding-IsLatest offset (s ∷ spans) =
    step (last_preceding offset spans) (last_preceding-IsLatest offset spans)
  where
    next : Option StatementSpan → Option StatementSpan
    next r = elim r [
      | none ↦ if leb s.full_end offset then some s else none
      | some best ↦
          if leb s.full_end offset && not (leb s.full_end best.full_end) then some s else some best
    ]

    step :
        (r : Option StatementSpan) → IsLatest offset spans r → IsLatest offset (s ∷ spans) (next r)
    step none later = elim (Bool-cases (leb s.full_end offset)) [
      | inl e ↦
          subst (IsLatest offset (s ∷ spans)) (sym (ap (λ b. if b then some s else none) e))
            (inl refl, ground arith, only)
      | inr e ↦
          subst (IsLatest offset (s ∷ spans)) (sym (ap (λ b. if b then some s else none) e))
            (none_of (ground arith))
    ]
      where
        only :
            (x : StatementSpan) → IsIn x (s ∷ spans) → x.full_end ≤ offset → x.full_end ≤ s.full_end
        only x (inl same) le = omega (arith, ap (λ (y : StatementSpan). y.full_end) same)
        only x (inr member) le = absurd (omega (arith, later x member))

        none_of :
            offset < s.full_end → (x : StatementSpan) → IsIn x (s ∷ spans) → offset < x.full_end
        none_of lt x (inl same) = omega (arith, ap (λ (y : StatementSpan). y.full_end) same)
        none_of lt x (inr member) = later x member
    step (some best) (member, le, latest) =
        elim (Bool-cases (leb s.full_end offset && not (leb s.full_end best.full_end))) [
          | inl e ↦
              subst (IsLatest offset (s ∷ spans))
                (sym (ap (λ b. if b then some s else some best) e))
                (inl refl, ground arith, beats (ground arith))
          | inr e ↦
              subst (IsLatest offset (s ∷ spans))
                (sym (ap (λ b. if b then some s else some best) e))
                (inr member, le, stays (λ h. ground arith))
        ]
      where
        beats :
            best.full_end ≤ s.full_end
            → (x : StatementSpan) → IsIn x (s ∷ spans)
            → x.full_end ≤ offset
            → x.full_end ≤ s.full_end
        beats h x (inl same) le' = omega (arith, ap (λ (y : StatementSpan). y.full_end) same)
        beats h x (inr m) le' = omega (arith, latest x m le')

        stays :
            (s.full_end ≤ offset → s.full_end ≤ best.full_end)
            → (x : StatementSpan) → IsIn x (s ∷ spans)
            → x.full_end ≤ offset
            → x.full_end ≤ best.full_end
        stays h x (inl same) le' = omega (
          arith,
          ap (λ (y : StatementSpan). y.full_end) same,
          h (omega (arith, ap (λ (y : StatementSpan). y.full_end) same)),
        )
        stays h x (inr m) le' = latest x m le'

abbrev pub has_newline : Text → ℕ → StatementSpan → Bool
has_newline text offset s = any (λ c. c == b'\n') (slice text s.full_end offset)

-- What `statement_at` promises of its result: a statement that holds the offset, else the latest
-- one before it on the same line, else none.
abbrev pub Resolves : Text → List StatementSpan → ℕ → Option StatementSpan → Type 0
Resolves text spans offset none =
    (any (holds offset) spans ≡ false)
    × (IsLatest offset spans none
        ⊎ ((s : StatementSpan) × IsLatest offset spans (some s)
            × (has_newline text offset s ≡ true)))
Resolves text spans offset (some s) =
    (IsIn s spans × (holds offset s ≡ true))
    ⊎ ((any (holds offset) spans ≡ false)
        × IsLatest offset spans (some s)
        × (has_newline text offset s ≡ false))

-- Among statements that were split, the choice resolves the offset.
statement_in-Resolves :
    (text : Text) (spans : List StatementSpan) (offset : ℕ)
    → Resolves text spans offset (statement_in text spans offset)
unfolding statement_in
statement_in-Resolves text spans offset = elim (Option-cases (find (holds offset) spans)) [
  | inr (s, e) ↦
      subst (Resolves text spans offset) (sym (ap found e))
        (inl (find-some (holds offset) spans s e))
  | inl e ↦ subst (Resolves text spans offset) (sym (ap found e)) (
      before (last_preceding offset spans) (last_preceding-IsLatest offset spans)
        (find-none (holds offset) spans e))
]
  where
    preceding : Option StatementSpan → Option StatementSpan
    preceding r = elim r [
      | none ↦ none
      | some s ↦ if has_newline text offset s then none else some s
    ]

    found : Option StatementSpan → Option StatementSpan
    found r = elim r [ some hit ↦ some hit | none ↦ preceding (last_preceding offset spans) ]

    before :
        (r : Option StatementSpan)
        → IsLatest offset spans r
        → any (holds offset) spans ≡ false
        → Resolves text spans offset (preceding r)
    before none latest no_hit = (no_hit, inl latest)
    before (some s) latest no_hit = elim (Bool-cases (has_newline text offset s)) [
      | inl e ↦
          subst (Resolves text spans offset) (sym (ap (λ b. if b then none else some s) e))
            (no_hit, inr (s, latest, e))
      | inr e ↦
          subst (Resolves text spans offset) (sym (ap (λ b. if b then none else some s) e))
            (inr (no_hit, latest, e))
    ]

-- For a dialect whose comment delimiters are not empty, `statement_at` returns at any offset, and
-- resolves the largest character boundary up to it and the end of the text among the statements of
-- the text: to a statement that holds it, from its first character through the end of its
-- terminator; else to the one that ends last before it, if no line break separates them; else to
-- none.
pub statement_at-Resolves :
    (u : Unicode) (d : SqlDialect) (text : Text) (offset : ℕ)
    → HasDelimiters d
    → (spans : List StatementSpan) × (r : Option StatementSpan) × (split_statements u d text
        ≡ some spans)
      × (statement_at u d text offset ≡ some r)
      × Resolves text spans (floor_char_boundary text (min offset (byte_len text))) r
unfolding statement_at
statement_at-Resolves u d text offset h =
    let (spans, e, order) = split_statements-InOrder u d text h in
    (spans, statement_in text spans at, e, ap split e, statement_in-Resolves text spans at)
  where
    at : ℕ
    at = floor_char_boundary text (min offset (byte_len text))

    split : Option (List StatementSpan) → Option (Option StatementSpan)
    split r = elim r [ none ↦ none | some spans ↦ some (statement_in text spans at) ]
