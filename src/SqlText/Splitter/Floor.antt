-- ===== src/SqlText/Splitter/Floor.antt =====
-- `floor_char_boundary`.
use reldex.Base.{
  ℕ, zero, suc, ◌≤◌, ◌≡◌, refl, sym, ap, subst, Bool, true, false, [], ◌∷◌, arith, ◌==◌,
  if◌then◌else◌, Bool-cases, inl, inr,
}
use reldex.Text.{Text, is_char_boundary}
use reldex.SqlText.Splitter.Split.{floor_char_boundary}

char_boundary_zero : (text : Text) → is_char_boundary text 0 ≡ true
unfolding is_char_boundary
char_boundary_zero [] = refl
char_boundary_zero (c ∷ t) = refl

-- A character boundary up to the index, and the largest.
abbrev pub IsGreatest : Text → ℕ → ℕ → Type 0
IsGreatest text index r =
    (r ≤ index)
    × (is_char_boundary text r ≡ true)
    × ((b : ℕ) → b ≤ index → is_char_boundary text b ≡ true → b ≤ r)

-- The place is the largest character boundary that is not behind the index.
pub floor_char_boundary-IsGreatest :
    (text : Text) (index : ℕ) → IsGreatest text index (floor_char_boundary text index)
unfolding floor_char_boundary
floor_char_boundary-IsGreatest text zero =
    (omega arith, char_boundary_zero text, λ b le h. omega arith)
floor_char_boundary-IsGreatest text (suc index) =
    let (le, boundary, greatest) = floor_char_boundary-IsGreatest text index in
    elim (Bool-cases (is_char_boundary text (suc index))) [
      | inl e ↦
          subst (IsGreatest text (suc index)) (sym (ap pick e)) (omega arith, e, λ b le' h. le')
      | inr e ↦
          subst (IsGreatest text (suc index)) (sym (ap pick e))
            (omega arith, boundary, λ b le' h. greatest b (below e b le' h) h)
    ]
  where
    pick : Bool → ℕ
    pick b = if b then suc index else floor_char_boundary text index

    below :
        is_char_boundary text (suc index) ≡ false
        → (b : ℕ) → b ≤ suc index
        → is_char_boundary text b ≡ true
        → b ≤ index
    below e b le h = elim (Bool-cases (b == suc index)) [
      | inl same ↦ absurd (ground (arith, ap (is_char_boundary text) (equal same), e, h))
      | inr other ↦ ground arith
    ]
      where
        equal : (b == suc index) ≡ true → b ≡ suc index
        equal same = ground arith
