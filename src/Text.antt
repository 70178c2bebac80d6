-- ===== src/Text.antt =====
-- Rust's `&str` as the list of its code points, with the byte lengths of UTF-8, and the parts of
-- `char` and `str` of the standard library that the crates use.
use Prim.Native.Char.{code}
use Prim.Native.String.{String}
use reldex.Base.{
  ℕ, ◌+◌, ◌-◌, ◌≤◌, ◌≡◌, refl, subst, Option, none, some, append_assoc, Bool, true, false, ◌&&◌,
  ◌||◌, List, [], ◌∷◌, ◌++◌, arith, ltb, leb, ◌==◌, if◌then◌else◌,
}

abbrev pub Text : Type 0
Text = List ℕ

-- A text literal as its code points.
abbrev pub codes : String → Text
codes String.[] = []
codes (String.◌∷◌ c s) = code c ∷ codes s

-- `char::len_utf8`.
unfoldable pub len_utf8 : ℕ → ℕ
len_utf8 c = if ltb c 0x80 then 1 else if ltb c 0x800 then 2 else if ltb c 0x10000 then 3 else 4

-- `str::len`, in bytes.
abbrev pub byte_len : Text → ℕ
byte_len [] = 0
byte_len (c ∷ t) = len_utf8 c + byte_len t

-- `&text[n..]` and `&text[..n]`, at an offset `n` that is a character boundary.
abbrev pub drop_bytes : ℕ → Text → Text
drop_bytes n [] = []
drop_bytes n (c ∷ t) = if n == 0 then c ∷ t else drop_bytes (n - len_utf8 c) t

abbrev pub take_bytes : ℕ → Text → Text
take_bytes n [] = []
take_bytes n (c ∷ t) = if n == 0 then [] else c ∷ take_bytes (n - len_utf8 c) t

-- `str::is_char_boundary`.
unfoldable pub is_char_boundary : Text → ℕ → Bool
is_char_boundary [] index = index == 0
is_char_boundary (c ∷ t) index =
    index == 0 || (leb (len_utf8 c) index && is_char_boundary t (index - len_utf8 c))

-- `&text[start..end]`.
abbrev pub slice : Text → ℕ → ℕ → Text
slice t start end = take_bytes (end - start) (drop_bytes start t)

pub len_utf8_pos : (c : ℕ) → 1 ≤ len_utf8 c
unfolding len_utf8
len_utf8_pos c = ground arith

pub byte_len-append : (s t : Text) → byte_len (s ++ t) ≡ byte_len s + byte_len t
byte_len-append [] t = omega arith
byte_len-append (c ∷ s) t = omega (arith, byte_len-append s t)

pub drop_bytes_zero : (t : Text) → drop_bytes 0 t ≡ t
drop_bytes_zero [] = refl
drop_bytes_zero (c ∷ t) = refl

pub take_bytes_zero : (t : Text) → take_bytes 0 t ≡ []
take_bytes_zero [] = refl
take_bytes_zero (c ∷ t) = refl

-- An offset at the end of a prefix cuts the text there.
pub drop_bytes-append : (s t : Text) → drop_bytes (byte_len s) (s ++ t) ≡ t
drop_bytes-append [] t = drop_bytes_zero t
drop_bytes-append (c ∷ s) t = ground (arith, len_utf8_pos c, drop_bytes-append s t)

pub take_bytes-append : (s t : Text) → take_bytes (byte_len s) (s ++ t) ≡ s
take_bytes-append [] t = take_bytes_zero t
take_bytes-append (c ∷ s) t = ground (arith, len_utf8_pos c, take_bytes-append s t)

-- `text.get(start..end)`.
unfoldable pub get_slice : Text → ℕ → ℕ → Option Text
unfolding is_char_boundary
get_slice t start end =
    if leb start end && is_char_boundary t start && is_char_boundary t end
    then some (slice t start end)
    else none

pub is_char_boundary-append : (s t : Text) → is_char_boundary (s ++ t) (byte_len s) ≡ true
unfolding is_char_boundary
is_char_boundary-append [] [] = refl
is_char_boundary-append [] (c ∷ t) = refl
is_char_boundary-append (c ∷ s) t = ground (arith, len_utf8_pos c, is_char_boundary-append s t)

-- What stands between two texts is the slice between its ends.
pub get_slice-append :
    (s t r : Text) → get_slice (s ++ (t ++ r)) (byte_len s) (byte_len s + byte_len t) ≡ some t
unfolding get_slice
get_slice-append s t r = ground (
  arith,
  is_char_boundary-append s (t ++ r),
  subst (λ x. is_char_boundary x (byte_len s + byte_len t) ≡ true) (append_assoc s t r)
      (subst (λ n. is_char_boundary ((s ++ t) ++ r) n ≡ true) (byte_len-append s t)
        (is_char_boundary-append (s ++ t) r)),
  drop_bytes-append s (t ++ r),
  take_bytes-append t r,
)

-- `eq_ignore_ascii_case`.
abbrev pub to_ascii_lowercase : ℕ → ℕ
to_ascii_lowercase c = if leb b'A' c && leb c b'Z' then c + 32 else c

abbrev pub eq_ignore_ascii_case : Text → Text → Bool
eq_ignore_ascii_case [] [] = true
eq_ignore_ascii_case (x ∷ s) (y ∷ t) =
    to_ascii_lowercase x == to_ascii_lowercase y && eq_ignore_ascii_case s t
eq_ignore_ascii_case _ _ = false

-- `str::starts_with`, and `==` on texts.
abbrev pub starts_with : Text → Text → Bool
starts_with t [] = true
starts_with [] (p ∷ ps) = false
starts_with (c ∷ t) (p ∷ ps) = c == p && starts_with t ps

abbrev pub text_eq : Text → Text → Bool
text_eq [] [] = true
text_eq (x ∷ s) (y ∷ t) = x == y && text_eq s t
text_eq _ _ = false

-- `char::is_ascii_digit` and `char::is_whitespace`, whose table is short.
abbrev pub is_ascii_digit : ℕ → Bool
is_ascii_digit c = leb b'0' c && leb c b'9'

unfoldable pub is_whitespace : ℕ → Bool
is_whitespace c =
    (leb 0x9 c && leb c 0xd)
    || c == 0x20
    || c == 0x85
    || c == 0xa0
    || c == 0x1680
    || (leb 0x2000 c && leb c 0x200a)
    || c == 0x2028
    || c == 0x2029
    || c == 0x202f
    || c == 0x205f
    || c == 0x3000

-- `str::trim_start`, `str::trim_end` and `str::trim`.
unfoldable pub trim_start : Text → Text
trim_start [] = []
trim_start (c ∷ t) = let rest = trim_start t in if is_whitespace c then rest else c ∷ t

abbrev pub is_nil : Text → Bool
is_nil [] = true
is_nil (c ∷ t) = false

unfoldable pub trim_end : Text → Text
trim_end [] = []
trim_end (c ∷ t) = let rest = trim_end t in if is_nil rest && is_whitespace c then [] else c ∷ rest

abbrev pub trim : Text → Text
trim t = trim_end (trim_start t)

-- The tables behind `char::is_alphabetic` and `char::is_alphanumeric` above ASCII.
pub record Unicode : Type 0 where
  pub alphabetic : ℕ → Bool
  pub numeric : ℕ → Bool

abbrev pub is_ascii_letter : ℕ → Bool
is_ascii_letter c = (leb b'a' c && leb c b'z') || (leb b'A' c && leb c b'Z')

abbrev pub is_alphabetic : Unicode → ℕ → Bool
is_alphabetic u c = if ltb c 0x80 then is_ascii_letter c else u.alphabetic c

abbrev pub is_alphanumeric : Unicode → ℕ → Bool
is_alphanumeric u c = is_alphabetic u c || (if ltb c 0x80 then is_ascii_digit c else u.numeric c)
