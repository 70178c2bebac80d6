-- ===== src/SqlText/Splitter/Phrases.antt =====
-- crates/sql-text/src/splitter.rs: labels, the leading words of a statement, and phrases.
use mathlib.Core.List.{reverse}
use reldex.Base.{
  ℕ, zero, suc, ◌+◌, Bool, true, false, ◌&&◌, Option, none, some, List, [], ◌∷◌, length, get_elem?,
  take, drop, if◌then◌else◌,
}
use reldex.Text.{Text, eq_ignore_ascii_case, text_eq}
use reldex.SqlText.Dialect.{SqlDialect, Phrase, KeywordSlot, required, optional, BlockStarter}
use reldex.SqlText.Token.{Token}
use reldex.SqlText.Splitter.Span.{
  is_word, is_trivial, is_trivial_or_directive, is_operator, token_text, skip_trivial,
}

-- A word and the index behind it.
pub record Word : Type 0 where
  pub text : Text
  pub after : ℕ

abbrev pub max_leading_words : ℕ
max_leading_words = 12

abbrev pub is_delimiter : Text → Text → Token → Bool
is_delimiter text delimiter t = is_operator t.kind && text_eq (token_text text t) delimiter

-- `tokens.get(j).is_some_and(|t| is_word(t.kind))`.
abbrev pub is_word_at : List Token → ℕ → Bool
is_word_at tokens j = elim (get_elem? tokens j) [ none ↦ false | some t ↦ is_word t.kind ]

abbrev pub is_delimiter_at : List Token → Text → Text → ℕ → Bool
is_delimiter_at tokens text delimiter j = elim (get_elem? tokens j) [
  | none ↦ false
  | some t ↦ is_delimiter text delimiter t
]

-- One label at `i`, and the index behind it.
unfoldable pub skip_label : List Token → Text → Text → Text → ℕ → Option ℕ
skip_label tokens text opening closing i =
    let probe = skip_trivial tokens i in
    let j = skip_trivial tokens (probe + 1) in
    let k = if is_word_at tokens j then skip_trivial tokens (j + 1) else j in
    if is_delimiter_at tokens text opening probe && is_delimiter_at tokens text closing k
    then some (k + 1)
    else none

-- The loop, on fuel.
unfoldable pub skip_labels_loop : ℕ → List Token → Text → Text → Text → ℕ → Option ℕ
skip_labels_loop zero tokens text opening closing i = none
skip_labels_loop (suc fuel) tokens text opening closing i =
    elim (skip_label tokens text opening closing i) [
      | none ↦ some i
      | some j ↦ skip_labels_loop fuel tokens text opening closing j
    ]

unfoldable pub skip_labels : SqlDialect → List Token → Text → ℕ → Option ℕ
unfolding skip_labels_loop
skip_labels d tokens text start = elim d.label_delimiters [
  | none ↦ some start
  | some delimiters ↦
      skip_labels_loop (suc (length tokens)) tokens text delimiters.0 delimiters.1 start
]

abbrev pub collect_words_from : Text → ℕ → ℕ → List Token → List Word
collect_words_from text zero i rest = []
collect_words_from text (suc left) i [] = []
collect_words_from text (suc left) i (t ∷ rest) = elim (is_word t.kind) [
  | true ↦
      record { text = token_text text t; after = i + 1 } ∷ collect_words_from text left (i + 1) rest
  | false ↦ elim (is_trivial_or_directive t.kind) [
    | true ↦ collect_words_from text (suc left) (i + 1) rest
    | false ↦ []
  ]
]

unfoldable pub collect_leading_words : List Token → Text → ℕ → List Word
collect_leading_words tokens text i = collect_words_from text max_leading_words i (drop i tokens)

-- A phrase is no longer than the words, and agrees with them.
abbrev pub phrase_matches : Phrase → List Word → Bool
phrase_matches [] words = true
phrase_matches (p ∷ ps) [] = false
phrase_matches (p ∷ ps) (w ∷ words) = eq_ignore_ascii_case p w.text && phrase_matches ps words

unfoldable pub match_phrase : List Phrase → List Word → Option ℕ
match_phrase [] words = none
match_phrase (phrase ∷ options) words = elim (phrase_matches phrase words) [
  | true ↦ some (length phrase)
  | false ↦ match_phrase options words
]

-- The slots from the word at `idx` on; the index behind the last word that they take.
unfoldable pub match_slots : List KeywordSlot → List Word → ℕ → Option ℕ
unfolding match_phrase
match_slots [] words idx = some idx
match_slots (required options ∷ slots) words idx = elim (match_phrase options (drop idx words)) [
  | none ↦ none
  | some n ↦ match_slots slots words (idx + n)
]
match_slots (optional options ∷ slots) words idx = elim (match_phrase options (drop idx words)) [
  | none ↦ match_slots slots words idx
  | some n ↦ match_slots slots words (idx + n)
]

-- `words[idx - 1].1`, or the start where no word was taken.
abbrev pub resume_after : List Word → ℕ → ℕ → ℕ
resume_after words start_index zero = start_index
resume_after words start_index (suc idx) = elim (get_elem? words idx) [
  | none ↦ start_index
  | some w ↦ w.after
]

unfoldable pub matches_block_starter : BlockStarter → List Word → ℕ → Option ℕ
unfolding match_slots
matches_block_starter starter words start_index = elim (match_slots starter.slots words 0) [
  | none ↦ none
  | some idx ↦ some (resume_after words start_index idx)
]

abbrev pub is_word_like : Text → Text → Token → Bool
is_word_like text expected t = is_word t.kind && eq_ignore_ascii_case expected (token_text text t)

-- The later words of a phrase, with trivia before each.
abbrev pub peek_words : Text → List Token → Phrase → Bool
peek_words text rest [] = true
peek_words text [] (p ∷ ps) = false
peek_words text (t ∷ rest) (p ∷ ps) = elim (is_trivial t.kind) [
  | true ↦ peek_words text rest (p ∷ ps)
  | false ↦ is_word_like text p t && peek_words text rest ps
]

abbrev pub peek_phrase : Text → List Token → Phrase → Bool
peek_phrase text rest [] = true
peek_phrase text [] (p ∷ ps) = false
peek_phrase text (t ∷ rest) (p ∷ ps) = is_word_like text p t && peek_words text rest ps

unfoldable pub peek_phrase_matches : List Token → Text → ℕ → Phrase → Bool
peek_phrase_matches tokens text start phrase = peek_phrase text (drop start tokens) phrase

-- Backwards from the token at index `end`: the phrase's words from the last to the first. Before
-- every one of them, the last included, trivia is passed over.
unfoldable pub ends_with_phrase : List Token → Text → ℕ → Phrase → Bool
ends_with_phrase tokens text end phrase =
    peek_words text (reverse (take (suc end) tokens)) (reverse phrase)
