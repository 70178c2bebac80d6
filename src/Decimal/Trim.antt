-- ===== src/Decimal/Trim.antt =====
-- The loop of `ScaledNumber`'s `Display` that takes zeros away.
use reldex.Base.{
  ℕ, zero, suc, ◌-◌, ◌≡◌, refl, sym, ap, ap₂, ◌∙◌, true, false, List, [], ◌∷◌, ◌++◌, append_assoc,
  append-nil, arith, if◌then◌else◌,
}
use reldex.Decimal.Scaled.{trim, last_is_zero, init}
use reldex.Decimal.Digits.{zeros, zeros-snoc}

last_is_zero-snoc : (c : List ℕ) → last_is_zero (c ++ 0 ∷ []) ≡ true
last_is_zero-snoc [] = refl
last_is_zero-snoc (d ∷ []) = refl
last_is_zero-snoc (d ∷ e ∷ ds) = last_is_zero-snoc (e ∷ ds)

init-snoc : (c : List ℕ) (x : ℕ) → init (c ++ x ∷ []) ≡ c
init-snoc [] x = refl
init-snoc (d ∷ []) x = refl
init-snoc (d ∷ e ∷ ds) x = ap (◌∷◌ d) (init-snoc (e ∷ ds) x)

zeros_last : (c : List ℕ) (k : ℕ) → c ++ zeros (suc k) ≡ (c ++ zeros k) ++ 0 ∷ []
zeros_last c k =
    ap (λ z. c ++ z) (sym (zeros-snoc k [] ∙ ap (◌∷◌ 0) (append-nil (zeros k))))
    ∙ sym (append_assoc c (zeros k) (0 ∷ []))

trim_step : (c : List ℕ) (k s : ℕ) → trim (c ++ zeros (suc k)) (suc s) ≡ trim (c ++ zeros k) s
unfolding trim
trim_step c k s =
    ap (λ ds. trim ds (suc s)) (zeros_last c k)
    ∙ ap
        (λ b.
          if b
          then trim (init ((c ++ zeros k) ++ 0 ∷ [])) s
          else record { digits = (c ++ zeros k) ++ 0 ∷ []; scale = suc s })
        (last_is_zero-snoc (c ++ zeros k))
    ∙ ap (λ ds. trim ds s) (init-snoc (c ++ zeros k) 0)

trim_stop :
    (c : List ℕ) (s : ℕ)
    → last_is_zero c ≡ false
    → trim (c ++ zeros 0) s ≡ record { digits = c; scale = s }
unfolding trim
trim_stop c zero l = ap (λ ds. record { digits = ds; scale = 0 }) (append-nil c)
trim_stop c (suc s) l =
    ap (λ ds. trim ds (suc s)) (append-nil c)
    ∙ ap (λ b. if b then trim (init c) s else record { digits = c; scale = suc s }) l

pub no_zeros : (c : List ℕ) (n : ℕ) → n ≡ 0 → c ≡ c ++ zeros n
no_zeros c n h = sym (append-nil c) ∙ ap (λ m. c ++ zeros m) (sym h)

-- The zeros that the scale covers are taken away.
pub trim-zeros :
    (c : List ℕ) (k s : ℕ)
    → last_is_zero c ≡ false
    → trim (c ++ zeros k) s ≡ record { digits = c ++ zeros (k - s); scale = s - k }
unfolding trim
trim-zeros c zero s l =
    trim_stop c s l
    ∙ ap₂ (λ ds n. record { digits = ds; scale = n }) (no_zeros c (0 - s) (omega arith))
        (omega arith)
trim-zeros c (suc k) zero l =
    ap₂ (λ n m. record { digits = c ++ zeros n; scale = m }) none_taken no_scale
  where
    none_taken : suc k ≡ suc k - 0
    none_taken = omega arith

    no_scale : 0 ≡ 0 - suc k
    no_scale = omega arith
trim-zeros c (suc k) (suc s) l =
    trim_step c k s
    ∙ trim-zeros c k s l
    ∙ ap₂ (λ n m. record { digits = c ++ zeros n; scale = m }) (omega arith) (omega arith)
