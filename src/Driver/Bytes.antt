-- ===== src/Driver/Bytes.antt =====
-- crates/db-driver-api/src/result.rs: `BytesColumn`, all byte strings of a column in one buffer with
-- the offset at which each ends.
use reldex.Base.{
  ℕ, ◌+◌, ◌-◌, ◌*◌, ◌&&◌, Option, none, some, List, [], ◌∷◌, ◌++◌, max, length, get_elem?, take,
  drop, leb, if◌then◌else◌,
}
use reldex.Driver.Vectors.{Vec, empty_vec, push, exact_vec}

-- `extend_from_slice`: the buffer grows like a vector, and has at least eight places.
unfoldable pub extend : Vec ℕ → List ℕ → Vec ℕ
extend b bytes =
    let needed = length b.items + length bytes in
    record {
      items = b.items ++ bytes;
      capacity = if leb needed b.capacity then b.capacity else max (b.capacity * 2) (max needed 8);
    }

pub record BytesColumn : Type 0 where
  pub buffer : Vec ℕ
  pub offsets : Vec ℕ

-- `BytesColumn::new` and `BytesColumn::with_capacity`.
abbrev pub new_bytes : BytesColumn
new_bytes = record { buffer = empty_vec; offsets = empty_vec }

unfoldable pub bytes_with_capacity : ℕ → ℕ → BytesColumn
bytes_with_capacity rows bytes = record {
  buffer = record { items = []; capacity = bytes };
  offsets = record { items = 0 ∷ []; capacity = rows + 1 };
}

abbrev pub with_first_offset : Vec ℕ → List ℕ → Vec ℕ
with_first_offset offsets [] = push offsets 0
with_first_offset offsets (o ∷ os) = offsets

unfoldable pub push_bytes : BytesColumn → List ℕ → BytesColumn
unfolding push extend
push_bytes c bytes =
    let buffer = extend c.buffer bytes in
    record {
      buffer = buffer;
      offsets = push (with_first_offset c.offsets c.offsets.items) (length buffer.items);
    }

-- `buffer.get(start..end)`.
abbrev pub get_range : List ℕ → ℕ → ℕ → Option (List ℕ)
get_range b start end =
    if leb start end && leb end (length b) then some (take (end - start) (drop start b)) else none

unfoldable pub get_bytes : BytesColumn → ℕ → Option (List ℕ)
get_bytes c row = elim (get_elem? c.offsets.items row) [
  | none ↦ none
  | some start ↦ elim (get_elem? c.offsets.items (row + 1)) [
    | none ↦ none
    | some end ↦ get_range c.buffer.items start end
  ]
]

unfoldable pub bytes_count : BytesColumn → ℕ
bytes_count c = length c.offsets.items - 1

unfoldable pub bytes_heap_bytes : BytesColumn → ℕ
bytes_heap_bytes c = c.buffer.capacity + c.offsets.capacity * 8

-- The derived `Clone`.
abbrev pub clone_bytes : BytesColumn → BytesColumn
clone_bytes c = record { buffer = exact_vec c.buffer.items; offsets = exact_vec c.offsets.items }
