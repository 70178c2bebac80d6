-- ===== src/Driver/Texts.antt =====
-- crates/db-driver-api/src/result.rs: `TextColumn`, all texts of a column in one buffer with the
-- offset at which each ends.
use reldex.Base.{
  ℕ, ◌+◌, ◌-◌, ◌*◌, Option, none, some, List, [], ◌∷◌, ◌++◌, max, length, get_elem?, leb,
  if◌then◌else◌,
}
use reldex.Text.{Text, byte_len, get_slice}
use reldex.Driver.Vectors.{Vec, empty_vec, push, exact_vec}

-- `String`: a text and the bytes that it has places for.
pub record Buffer : Type 0 where
  pub text : Text
  pub capacity : ℕ

-- `push_str`: the buffer grows like a vector, and has at least eight places.
unfoldable pub push_str : Buffer → Text → Buffer
push_str b t =
    let needed = byte_len b.text + byte_len t in
    record {
      text = b.text ++ t;
      capacity = if leb needed b.capacity then b.capacity else max (b.capacity * 2) (max needed 8);
    }

pub record TextColumn : Type 0 where
  pub buffer : Buffer
  pub offsets : Vec ℕ

-- `TextColumn::new` and `TextColumn::with_capacity`.
abbrev pub new_texts : TextColumn
new_texts = record { buffer = record { text = []; capacity = 0 }; offsets = empty_vec }

unfoldable pub texts_with_capacity : ℕ → ℕ → TextColumn
texts_with_capacity rows bytes = record {
  buffer = record { text = []; capacity = bytes };
  offsets = record { items = 0 ∷ []; capacity = rows + 1 };
}

-- `if self.offsets.is_empty() { self.offsets.push(0); }`
abbrev pub with_first_offset : Vec ℕ → List ℕ → Vec ℕ
with_first_offset offsets [] = push offsets 0
with_first_offset offsets (o ∷ os) = offsets

unfoldable pub push_text : TextColumn → Text → TextColumn
unfolding push push_str
push_text c t =
    let buffer = push_str c.buffer t in
    record {
      buffer = buffer;
      offsets = push (with_first_offset c.offsets c.offsets.items) (byte_len buffer.text);
    }

unfoldable pub get_text : TextColumn → ℕ → Option Text
unfolding get_slice
get_text c row = elim (get_elem? c.offsets.items row) [
  | none ↦ none
  | some start ↦ elim (get_elem? c.offsets.items (row + 1)) [
    | none ↦ none
    | some end ↦ get_slice c.buffer.text start end
  ]
]

unfoldable pub text_count : TextColumn → ℕ
text_count c = length c.offsets.items - 1

unfoldable pub text_heap_bytes : TextColumn → ℕ
text_heap_bytes c = c.buffer.capacity + c.offsets.capacity * 8

-- The derived `Clone`, which allocates each vector at exactly its length.
abbrev pub clone_texts : TextColumn → TextColumn
clone_texts c = record {
  buffer = record { text = c.buffer.text; capacity = byte_len c.buffer.text };
  offsets = exact_vec c.offsets.items;
}
