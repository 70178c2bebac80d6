-- ===== src/SqlText/Lexer/Boundary.antt =====
-- The byte lengths that the lexer advances by end at character boundaries.
use reldex.Base.{
  ℕ, ◌+◌, ◌≤◌, ◌≡◌, refl, sym, ap, ◌∙◌, inl, inr, Bool, true, some, [], ◌∷◌, ◌++◌, append_assoc,
  arith, ltb, ◌==◌, ==_iff, Bool-cases, Option-cases,
}
use reldex.Text.{
  Text, Unicode, is_alphabetic, len_utf8, byte_len, byte_len-append, drop_bytes, drop_bytes-append,
  starts_with, is_ascii_digit,
}
use reldex.SqlText.Lexer.Cursor.{first, holds}
use reldex.SqlText.Lexer.Word.{
  prefix_len, find_char, leading_identifier_len, is_identifier_part, bind_variable_len,
  substitution_prefix_len, substitution_name_len, substitution_variable_len,
}

-- The first `n` bytes of `t` are whole characters.
pub record IsBoundary (n : ℕ) (t : Text) : Type 0 where
  pub before : Text
  pub after : Text
  pub splits : t ≡ before ++ after
  pub measures : byte_len before ≡ n

pub IsBoundary-eq : {n m : ℕ} {t : Text} → n ≡ m → IsBoundary n t → IsBoundary m t
IsBoundary-eq e b = record {
  before = b.before;
  after = b.after;
  splits = b.splits;
  measures = b.measures ∙ e;
}

pub zero-IsBoundary : (t : Text) → IsBoundary 0 t
zero-IsBoundary t = record { before = []; after = t; splits = refl; measures = refl }

-- What is left behind a boundary.
pub drop_bytes-IsBoundary : {n : ℕ} {t : Text} (b : IsBoundary n t) → drop_bytes n t ≡ b.after
drop_bytes-IsBoundary b = rw (← b.measures) (rw b.splits (drop_bytes-append b.before b.after))

pub add-IsBoundary :
    {n m : ℕ} {t : Text} → IsBoundary n t → IsBoundary m (drop_bytes n t) → IsBoundary (n + m) t
add-IsBoundary {n} {m} {t} b c = record {
  before = b.before ++ c.before;
  after = c.after;
  splits =
      b.splits
      ∙ ap (◌++◌ b.before) (sym (drop_bytes-IsBoundary b) ∙ c.splits)
      ∙ sym (append_assoc b.before c.before c.after);
  measures = omega (arith, byte_len-append b.before c.before, b.measures, c.measures);
}

pub cons-IsBoundary :
    (c : ℕ) {n : ℕ} {t : Text} → IsBoundary n t → IsBoundary (len_utf8 c + n) (c ∷ t)
cons-IsBoundary c b = record {
  before = c ∷ b.before;
  after = b.after;
  splits = ap (◌∷◌ c) b.splits;
  measures = omega (arith, b.measures);
}

pub starts_with-IsBoundary : (t p : Text) → starts_with t p ≡ true → IsBoundary (byte_len p) t
starts_with-IsBoundary t [] h = zero-IsBoundary t
starts_with-IsBoundary [] (x ∷ p) h = cc
starts_with-IsBoundary (c ∷ t) (x ∷ p) h = elim (Bool-cases (c == x)) [
  | inl e ↦ rw (← (==_iff c x).0 e) (cons-IsBoundary c (starts_with-IsBoundary t p (rw e at h)))
  | inr e ↦ absurd (ground arith)
]

head-IsBoundary : (c : ℕ) (t : Text) → IsBoundary (len_utf8 c) (c ∷ t)
head-IsBoundary c t = record { before = c ∷ []; after = t; splits = refl; measures = omega arith }

pub first-IsBoundary :
    (t : Text) (x : ℕ) → holds (λ c. c == x) (first t) ≡ true → IsBoundary (len_utf8 x) t
first-IsBoundary [] x h = cc
first-IsBoundary (c ∷ t) x h = rw (← (==_iff c x).0 h) (head-IsBoundary c t)

-- An ASCII character is one byte.
pub ascii-IsBoundary :
    (t : Text) (x : ℕ) → ltb x 0x80 ≡ true → holds (λ c. c == x) (first t) ≡ true → IsBoundary 1 t
unfolding len_utf8
ascii-IsBoundary t x small h = IsBoundary-eq (rw small) (first-IsBoundary t x h)

pub prefix_len-IsBoundary : (test : ℕ → Bool) (t : Text) → IsBoundary (prefix_len test t) t
unfolding prefix_len
prefix_len-IsBoundary test [] = zero-IsBoundary []
prefix_len-IsBoundary test (c ∷ t) = elim (Bool-cases (test c)) [
  | inl e ↦ rw e (cons-IsBoundary c (prefix_len-IsBoundary test t))
  | inr e ↦ rw e (zero-IsBoundary (c ∷ t))
]

-- The position that is found, and the one behind the character found there.
pub find_char-IsBoundary :
    (x : ℕ) (t : Text) {n : ℕ} → find_char x t ≡ some n → IsBoundary (n + len_utf8 x) t
unfolding find_char
find_char-IsBoundary x [] h = cc
find_char-IsBoundary x (c ∷ t) {n} h = elim (Bool-cases (c == x)) [
  | inl e ↦ IsBoundary-eq (ground arith) (head-IsBoundary c t)
  | inr e ↦ elim (Option-cases (find_char x t)) [
    | inl missing ↦ cc
    | inr (m, found) ↦
        IsBoundary-eq (ground arith) (cons-IsBoundary c (find_char-IsBoundary x t found))
  ]
]

module _ (u : Unicode) where
  pub leading_identifier_len-IsBoundary : (t : Text) → IsBoundary (leading_identifier_len u t) t
  unfolding leading_identifier_len
  leading_identifier_len-IsBoundary t = elim (Bool-cases (holds (is_alphabetic u) (first t))) [
    | inl e ↦ rw e (prefix_len-IsBoundary (is_identifier_part u) t)
    | inr e ↦ rw e (zero-IsBoundary t)
  ]

  pub bind_variable_len-IsBoundary :
      (t : Text) {n : ℕ}
      → holds (λ c. c == b':') (first t) ≡ true
      → bind_variable_len u t ≡ some n
      → IsBoundary n t × (1 ≤ n)
  unfolding bind_variable_len len_utf8
  bind_variable_len-IsBoundary t {n} h e = elim (Bool-cases (holds (λ c. c == b'"') (first rest))) [
    | inl quoted ↦ elim (Option-cases (find_char b'"' (drop_bytes 1 rest))) [
      | inl missing ↦ absurd (ground arith)
      | inr (k, found) ↦ (
        IsBoundary-eq (ground arith) (
            add-IsBoundary colon (
              add-IsBoundary (ascii-IsBoundary rest b'"' refl quoted)
                (find_char-IsBoundary b'"' (drop_bytes 1 rest) found))),
        ground arith,
      )
    ]
    | inr bare ↦ elim (Bool-cases (holds is_ascii_digit (first rest))) [
      | inl digits ↦ (
        IsBoundary-eq (ground arith)
            (add-IsBoundary colon (prefix_len-IsBoundary is_ascii_digit rest)),
        ground arith,
      )
      | inr name ↦ (
        IsBoundary-eq (ground arith)
            (add-IsBoundary colon (leading_identifier_len-IsBoundary rest)),
        ground arith,
      )
    ]
  ]
    where
      rest : Text
      rest = drop_bytes 1 t

      colon : IsBoundary 1 t
      colon = ascii-IsBoundary t b':' refl h

  substitution_prefix_len-IsBoundary :
      (t : Text)
      → holds (λ c. c == b'&') (first t) ≡ true
      → IsBoundary (substitution_prefix_len u t) t
  unfolding substitution_prefix_len
  substitution_prefix_len-IsBoundary t h =
      elim (Bool-cases (holds (λ c. c == b'&') (first (drop_bytes 1 t)))) [
        | inl twice ↦ rw twice (
            add-IsBoundary {n = 1} {m = 1} (ascii-IsBoundary t b'&' refl h)
              (ascii-IsBoundary _ b'&' refl twice))
        | inr once ↦ rw once (ascii-IsBoundary t b'&' refl h)
      ]

  substitution_name_len-IsBoundary : (t : Text) → IsBoundary (substitution_name_len u t) t
  unfolding substitution_name_len
  substitution_name_len-IsBoundary t = elim (Bool-cases (holds is_ascii_digit (first t))) [
    | inl digits ↦ rw digits (prefix_len-IsBoundary is_ascii_digit t)
    | inr other ↦ rw other (elim (Bool-cases (holds (is_alphabetic u) (first t))) [
      | inl name ↦ rw name (prefix_len-IsBoundary (is_identifier_part u) t)
      | inr none_there ↦ rw none_there (zero-IsBoundary t)
    ])
  ]

  pub substitution_variable_len-IsBoundary :
      (t : Text) {n : ℕ}
      → holds (λ c. c == b'&') (first t) ≡ true
      → substitution_variable_len u t ≡ some n
      → IsBoundary n t × (1 ≤ n)
  unfolding substitution_variable_len
  substitution_variable_len-IsBoundary t {n} h e =
      elim (Bool-cases (holds (λ c. c == b'.') (first (drop_bytes (prefix + name) t)))) [
        | inl dotted ↦ (
          IsBoundary-eq (ground arith) (add-IsBoundary named (ascii-IsBoundary _ b'.' refl dotted)),
          ground arith,
        )
        | inr plain ↦ (IsBoundary-eq (ground arith) named, ground arith)
      ]
    where
      prefix : ℕ
      prefix = substitution_prefix_len u t

      name : ℕ
      name = substitution_name_len u (drop_bytes prefix t)

      named : IsBoundary (prefix + name) t
      named =
          add-IsBoundary (substitution_prefix_len-IsBoundary t h)
            (substitution_name_len-IsBoundary (drop_bytes prefix t))
