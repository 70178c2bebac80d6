-- ===== src/SqlText/Token/State.antt =====
-- crates/sql-text/src/token.rs: `Mode` and `LexState`, carried from one line of an editor to the
-- next as an `i32`.
use Prim.Native.Nat.{bit_or}
use reldex.Base.Int.{ℤ, pos, negsuc}
use reldex.Base.{
  ℕ, ◌+◌, ◌-◌, ◌*◌, ◌/◌, ◌%◌, ◌^◌, ◌≤◌, ◌<◌, ◌≡◌, refl, ap, ◌⊎◌, Bool, true, false, ◌&&◌, ◌||◌,
  Option, none, some, arith, ltb, leb, ◌==◌, if◌then◌else◌,
}

-- What is open. `q_string c` is an alternative-quoted literal that closes with `c`.
pub data Mode : Type 0 where
  normal block_comment single_quoted double_quoted : Mode
  q_string : ℕ → Mode

pub record LexState : Type 0 where
  pub mode : Mode

abbrev pub initial : LexState
initial = record { mode = normal }

abbrev tag_block_comment : ℕ
tag_block_comment = 1

abbrev tag_single_quoted : ℕ
tag_single_quoted = 2

abbrev tag_double_quoted : ℕ
tag_double_quoted = 3

abbrev tag_qstring : ℕ
tag_qstring = 4

-- `tag | x`, for a tag of three bits: only the low digit of `x` in base 8 can change.
or_tag : ℕ → ℕ → ℕ
or_tag tag x = x - x % 8 + bit_or tag (x % 8)

-- `x << 8` on 32 bits.
shl_8 : ℕ → ℕ
shl_8 x = (x * 256) % 2 ^ 32

-- The bits of an `i32` as its value.
of_bits : ℕ → ℤ
of_bits x = if ltb x (2 ^ 31) then pos x else negsuc (2 ^ 32 - 1 - x)

encode : Mode → ℤ
unfolding or_tag shl_8 of_bits
encode normal = pos 0
encode block_comment = pos tag_block_comment
encode single_quoted = pos tag_single_quoted
encode double_quoted = pos tag_double_quoted
encode (q_string closing) = of_bits (or_tag tag_qstring (shl_8 closing))

-- `char::from_u32`: the surrogates and what lies beyond the last code point are no characters.
char_from_u32 : ℕ → Option ℕ
char_from_u32 c = if ltb c 0xd800 || (leb 0xe000 c && ltb c 0x110000) then some c else none

abbrev q_string_or_normal : Option ℕ → Mode
q_string_or_normal none = normal
q_string_or_normal (some c) = q_string c

-- On a number that is not negative `&` with the mask 7 is the remainder by 8, `>> 8` the quotient
-- by 256.
decode : ℤ → Mode
unfolding char_from_u32
decode (negsuc _) = normal
decode (pos raw) =
    if raw % 8 == tag_block_comment
    then block_comment
    else if raw % 8 == tag_single_quoted
    then single_quoted
    else if raw % 8 == tag_double_quoted
    then double_quoted
    else if raw % 8 == tag_qstring
    then q_string_or_normal (char_from_u32 (raw / 256))
    else normal

unfoldable pub to_raw : LexState → ℤ
unfolding encode
to_raw s = encode s.mode

unfoldable pub from_raw : ℤ → LexState
unfolding decode
from_raw raw = record { mode = decode raw }

abbrev pub mode_is_normal : Mode → Bool
mode_is_normal normal = true
mode_is_normal _ = false

unfoldable pub is_initial : LexState → Bool
is_initial s = mode_is_normal s.mode

-- A Unicode scalar value.
abbrev pub IsChar : ℕ → Type 0
IsChar c = (c < 0xd800) ⊎ ((0xe000 ≤ c) × (c < 0x110000))

-- A closing delimiter is a character.
abbrev pub IsValid : Mode → Type 0
IsValid (q_string c) = IsChar c
IsValid _ = Unit {0}

bit_or_qstring : (c : ℕ) → or_tag tag_qstring (shl_8 c) ≡ shl_8 c + 4
unfolding or_tag shl_8
bit_or_qstring c = rw low (omega arith)
  where
    low : c * 256 % 2 ^ 32 % 8 ≡ 0
    low = omega arith

abbrev EncodesTo : Mode → Type 0
EncodesTo m = (n : ℕ) × (encode m ≡ pos n) × (n < 2 ^ 31) × (decode (pos n) ≡ m)

encode-EncodesTo : (m : Mode) → IsValid m → EncodesTo m
unfolding encode decode
encode-EncodesTo normal v = (0, refl, omega arith, refl)
encode-EncodesTo block_comment v = (1, refl, omega arith, refl)
encode-EncodesTo single_quoted v = (2, refl, omega arith, refl)
encode-EncodesTo double_quoted v = (3, refl, omega arith, refl)
encode-EncodesTo (q_string c) v =
    (c * 256 + 4, ground (arith, bit_or_qstring c), omega arith, ground arith)

-- A saved state is an `int` that is not negative, and reads back as the same state.
pub from_raw-to_raw :
    (s : LexState)
    → IsValid s.mode
    → (from_raw (to_raw s) ≡ s) × ((n : ℕ) × (to_raw s ≡ pos n) × (n < 2 ^ 31))
unfolding from_raw to_raw
from_raw-to_raw s v =
    let (n, e, bound, back) = encode-EncodesTo s.mode v in
    (rw e (ap (λ m. record { mode = m }) back), (n, e, bound))
