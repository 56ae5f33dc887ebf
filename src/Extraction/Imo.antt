-- ===== src/Extraction/Imo.antt =====
-- `normalize_imo` of src/services/extraction/normalize.py, and what its check digit catches.
use rfq_workflow_agent.Base.{
  ℕ, zero, suc, ◌+◌, ◌-◌, ◌*◌, ◌%◌, ◌==◌, ◌<◌, Bool-cases, inl, inr, ◌≡◌, ◌≢◌, refl, Bool, true,
  false, ◌&&◌, Option, none, some, [], ◌∷◌, if◌then◌else◌, length, take, get_or, filter, all, arith,
}
use rfq_workflow_agent.Base.Text.{Text}
use rfq_workflow_agent.Base.Digits.{is_digit}

-- The digits weighted down from a weight.
unfoldable pub weighted : ℕ → Text → ℕ
weighted w [] = 0
weighted w (c ∷ s) = (c - 48) * w + weighted (w - 1) s

-- Whether the last of seven digits is the check digit of the others.
unfoldable pub checks : Text → Bool
unfolding weighted
checks digits = length digits == 7 && weighted 7 (take 6 digits) % 10 == get_or digits 6 0 - 48

-- `normalize_imo`
unfoldable pub normalize_imo : Option Text → Option Text
normalize_imo none = none
normalize_imo (some value) =
    let digits = filter is_digit value in if checks digits then some digits else none

-- Two neighbours exchanged.
unfoldable pub swap_at : ℕ → Text → Text
swap_at i [] = []
swap_at i (a ∷ []) = a ∷ []
swap_at zero (a ∷ b ∷ s) = b ∷ a ∷ s
swap_at (suc i) (a ∷ b ∷ s) = a ∷ swap_at i (b ∷ s)

sum_apart :
    (s t v p q : ℕ)
    → p < 10
    → q < 10
    → p ≢ q
    → s + q ≡ t + p
    → (s % 10 == v) ≡ true
    → (t % 10 == v) ≡ false
sum_apart s t v p q lp lq ne e ok = elim (Bool-cases (t % 10 == v)) [
  | inr off ↦ off
  | inl again ↦
      let a : s % 10 ≡ v = ground (arith, ok) in
      let b : t % 10 ≡ v = ground (arith, again) in absurd (ne (omega (arith, a, b, lp, lq, e)))
]

last_apart :
    (s t p q : ℕ)
    → p < 10
    → q < 10
    → p ≢ q
    → s + 2 * q ≡ t + 2 * p
    → (s % 10 == q) ≡ true
    → (t % 10 == p) ≡ false
last_apart s t p q lp lq ne e ok = elim (Bool-cases (t % 10 == p)) [
  | inr off ↦ off
  | inl again ↦
      let a : s % 10 ≡ q = ground (arith, ok) in
      let b : t % 10 ≡ p = ground (arith, again) in absurd (ne (omega (arith, a, b, lp, lq, e)))
]

-- Digits as numbers: they are below ten, and differ where the digits do.
digit_below : (x : ℕ) → is_digit x ≡ true → x - 48 < 10
digit_below x h = ground (arith, h)

digits_apart : (x y : ℕ) → is_digit x ≡ true → is_digit y ≡ true → x ≢ y → x - 48 ≢ y - 48
digits_apart x y h k ne e = ne (ground (arith, h, k, e))

-- Seven digits that pass the check do not pass it any more once two neighbours that differ are exchanged,
-- the check digit included.
pub checks-swap_at :
    (a b c d e f g i : ℕ)
    → all is_digit (a ∷ b ∷ c ∷ d ∷ e ∷ f ∷ g ∷ []) ≡ true
    → checks (a ∷ b ∷ c ∷ d ∷ e ∷ f ∷ g ∷ []) ≡ true
    → swap_at i (a ∷ b ∷ c ∷ d ∷ e ∷ f ∷ g ∷ []) ≢ a ∷ b ∷ c ∷ d ∷ e ∷ f ∷ g ∷ []
    → checks (swap_at i (a ∷ b ∷ c ∷ d ∷ e ∷ f ∷ g ∷ [])) ≡ false
unfolding checks swap_at weighted
checks-swap_at a b c d e f g zero ds ok differ =
    let h : is_digit a ≡ true = ground (arith, ds) in
    let k : is_digit b ≡ true = ground (arith, ds) in
    sum_apart _ _ _ (a - 48) (b - 48) (digit_below a h) (digit_below b k)
      (digits_apart a b h k (λ m. differ (rw m refl))) (omega arith) ok
checks-swap_at a b c d e f g (suc zero) ds ok differ =
    let h : is_digit b ≡ true = ground (arith, ds) in
    let k : is_digit c ≡ true = ground (arith, ds) in
    sum_apart _ _ _ (b - 48) (c - 48) (digit_below b h) (digit_below c k)
      (digits_apart b c h k (λ m. differ (rw m refl))) (omega arith) ok
checks-swap_at a b c d e f g (suc (suc zero)) ds ok differ =
    let h : is_digit c ≡ true = ground (arith, ds) in
    let k : is_digit d ≡ true = ground (arith, ds) in
    sum_apart _ _ _ (c - 48) (d - 48) (digit_below c h) (digit_below d k)
      (digits_apart c d h k (λ m. differ (rw m refl))) (omega arith) ok
checks-swap_at a b c d e f g (suc (suc (suc zero))) ds ok differ =
    let h : is_digit d ≡ true = ground (arith, ds) in
    let k : is_digit e ≡ true = ground (arith, ds) in
    sum_apart _ _ _ (d - 48) (e - 48) (digit_below d h) (digit_below e k)
      (digits_apart d e h k (λ m. differ (rw m refl))) (omega arith) ok
checks-swap_at a b c d e f g (suc (suc (suc (suc zero)))) ds ok differ =
    let h : is_digit e ≡ true = ground (arith, ds) in
    let k : is_digit f ≡ true = ground (arith, ds) in
    sum_apart _ _ _ (e - 48) (f - 48) (digit_below e h) (digit_below f k)
      (digits_apart e f h k (λ m. differ (rw m refl))) (omega arith) ok
checks-swap_at a b c d e f g (suc (suc (suc (suc (suc zero))))) ds ok differ =
    let h : is_digit f ≡ true = ground (arith, ds) in
    let k : is_digit g ≡ true = ground (arith, ds) in
    last_apart _ _ (f - 48) (g - 48) (digit_below f h) (digit_below g k)
      (digits_apart f g h k (λ m. differ (rw m refl))) (omega arith) ok
checks-swap_at a b c d e f g (suc (suc (suc (suc (suc (suc i)))))) ds ok differ =
    absurd (differ refl)
