-- ===== src/Driver/Vectors.antt =====
-- Rust's `Vec`: its items and the places that it has, which grow as the standard library grows them.
use reldex.Base.{ℕ, ◌+◌, ◌*◌, ◌≤◌, List, [], ◌∷◌, ◌++◌, arith, max, length, ltb, if◌then◌else◌}

pub record Vec {ℓ} (A : Type ℓ) : Type ℓ where
  pub items : List A
  pub capacity : ℕ

-- `Vec::new`, and a vector that holds exactly its contents, as `to_vec` and `clone` make it.
abbrev pub empty_vec {ℓ} : {A : Type ℓ} → Vec A
empty_vec = record { items = []; capacity = 0 }

abbrev pub exact_vec {ℓ} : {A : Type ℓ} → List A → Vec A
exact_vec xs = record { items = xs; capacity = length xs }

-- The places of a vector of `len` items and `capacity` places after one more item: twice as many, and
-- at least four, if there was none left.
unfoldable pub grown : ℕ → ℕ → ℕ
grown len capacity = if ltb len capacity then capacity else max (capacity * 2) (max (len + 1) 4)

unfoldable pub push {ℓ} : {A : Type ℓ} → Vec A → A → Vec A
unfolding grown
push v a = record { items = v.items ++ (a ∷ []); capacity = grown (length v.items) v.capacity }

pub grown-fits : (len capacity : ℕ) → len ≤ capacity → len + 1 ≤ grown len capacity
unfolding grown
grown-fits len capacity h = ground arith
