-- ===== src/Driver/Nulls.antt =====
-- crates/db-driver-api/src/result.rs: `NullMask`, a bit for each row in words of 64 bits.
use reldex.Base.{
  ℕ, zero, suc, ◌+◌, ◌/◌, ◌%◌, ◌^◌, Bool, ◌&&◌, List, [], ◌∷◌, replicate, ltb, ◌==◌, if◌then◌else◌,
}
use reldex.Text.{codes}
use reldex.Driver.Error.{DbResult, ok, err, internal}

pub record NullMask : Type 0 where
  pub bits : List ℕ
  pub len : ℕ

-- `NullMask::new`: all rows present.
unfoldable pub new_mask : ℕ → NullMask
new_mask len = record { bits = replicate ((len + 63) / 64) 0; len = len }

-- `(word >> k) & 1` and `word | 1 << k`.
abbrev pub bit : ℕ → ℕ → ℕ
bit word k = word / 2 ^ k % 2

abbrev pub with_bit : ℕ → ℕ → ℕ
with_bit word k = if bit word k == 1 then word else word + 2 ^ k

abbrev pub update_at : ℕ → (ℕ → ℕ) → List ℕ → List ℕ
update_at i f [] = []
update_at zero f (w ∷ ws) = f w ∷ ws
update_at (suc i) f (w ∷ ws) = w ∷ update_at i f ws

abbrev pub word_at : List ℕ → ℕ → ℕ
word_at [] i = 0
word_at (w ∷ ws) zero = w
word_at (w ∷ ws) (suc i) = word_at ws i

unfoldable pub set_null : NullMask → ℕ → DbResult NullMask
set_null m row =
    if ltb row m.len
    then ok (record m { bits = update_at (row / 64) (λ w. with_bit w (row % 64)) m.bits })
    else err (internal (codes "row marked NULL outside the mask"))

unfoldable pub is_null : NullMask → ℕ → Bool
is_null m row = ltb row m.len && (bit (word_at m.bits (row / 64)) (row % 64) == 1)
