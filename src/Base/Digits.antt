-- ===== src/Base/Digits.antt =====
-- A number as text, Python's `str(n)`, with a bound on its digits.
use rfq_workflow_agent.Base.{
  ℕ, zero, suc, ◌+◌, ◌-◌, ◌*◌, ◌/◌, ◌%◌, ◌^◌, ◌≤◌, ◌<◌, ◌≡◌, refl, ap, ◌∙◌, Bool, true, ◌&&◌, [],
  ◌∷◌, ◌++◌, if◌then◌else◌, ltb, leb, length, arith, Bool-cases, inl, inr,
}
use rfq_workflow_agent.Base.Text.{Text, lower, lower_code-small}

-- `str(n)`; `show_fuel` puts the digits before what is there, and one digit is written per round.
show_fuel : ℕ → ℕ → Text → Text
show_fuel zero n out = out
show_fuel (suc f) n out =
    let digits = (n % 10 + 48) ∷ out in
    let rest = show_fuel f (n / 10) digits in if ltb n 10 then digits else rest

unfoldable pub show : ℕ → Text
unfolding show_fuel
show n = show_fuel (suc n) n []

show_fuel_bound :
    (f n k : ℕ) (out : Text) → n < 10 ^ suc k → length (show_fuel f n out) ≤ length out + suc k
unfolding show_fuel
show_fuel_bound zero n k out h = omega arith
show_fuel_bound (suc f) n zero out h = ground (arith, h)
show_fuel_bound (suc f) n (suc k) out h = elim (Bool-cases (ltb n 10)) [
  | inl small ↦ ground (arith, small)
  | inr large ↦
      let tenth : n / 10 < 10 ^ suc k = omega (arith, h) in
      ground (arith, large, show_fuel_bound f (n / 10) k ((n % 10 + 48) ∷ out) tenth)
]

-- A number below a power of ten has at most that many digits.
pub length-show : (n k : ℕ) → n < 10 ^ suc k → length (show n) ≤ suc k
unfolding show
length-show n k h = omega (arith, show_fuel_bound (suc n) n k [] h)

abbrev pub is_digit : ℕ → Bool
is_digit c = leb 48 c && leb c 57

-- The number that the digits at the start of a text write, after what was read already.
unfoldable pub number_from : ℕ → Text → ℕ
number_from a [] = a
number_from a (c ∷ s) =
    let rest = number_from (a * 10 + (c - 48)) s in if is_digit c then rest else a

show_fuel_number :
    (f n : ℕ) (out : Text) → n < f → number_from 0 (show_fuel f n out) ≡ number_from n out
unfolding show_fuel number_from
show_fuel_number zero n out h = absurd (omega (arith, h))
show_fuel_number (suc f) n out h = elim (Bool-cases (ltb n 10)) [
  | inl small ↦ ground (arith, small)
  | inr large ↦
      let below : n / 10 < f = ground (arith, h, large) in
      let sum : n / 10 * 10 + (n % 10 + 48 - 48) ≡ n = omega arith in
      let digit : is_digit (n % 10 + 48) ≡ true = ground arith in
      rw large (show_fuel_number f (n / 10) ((n % 10 + 48) ∷ out) below ∙ rw (digit, sum) refl)
]

show_fuel-append :
    (f n : ℕ) (out rest : Text) → show_fuel f n out ++ rest ≡ show_fuel f n (out ++ rest)
unfolding show_fuel
show_fuel-append zero n out rest = refl
show_fuel-append (suc f) n out rest = elim (Bool-cases (ltb n 10)) [
  | inl small ↦ rw small refl
  | inr large ↦ rw large (show_fuel-append f (n / 10) ((n % 10 + 48) ∷ out) rest)
]

-- A number is read back from its digits, whatever follows them, if that is no digit.
pub number_from-show :
    (n : ℕ) (rest : Text) → number_from n rest ≡ n → number_from 0 (show n ++ rest) ≡ n
unfolding show
number_from-show n rest ends =
    ap (number_from 0) (show_fuel-append (suc n) n [] rest)
    ∙ (show_fuel_number (suc n) n rest (omega arith) ∙ ends)

-- The same where nothing follows.
pub number_from-show_end : (n : ℕ) → number_from 0 (show n) ≡ n
unfolding show number_from
number_from-show_end n = show_fuel_number (suc n) n [] (omega arith)

lower-show_fuel : (f n : ℕ) (out : Text) → lower (show_fuel f n out) ≡ show_fuel f n (lower out)
unfolding show_fuel lower
lower-show_fuel zero n out = refl
lower-show_fuel (suc f) n out = elim (Bool-cases (ltb n 10)) [
  | inl small ↦ rw (small, lower_code-small (n % 10 + 48) (omega arith)) refl
  | inr large ↦ rw large (
      lower-show_fuel f (n / 10) ((n % 10 + 48) ∷ out)
      ∙ rw (lower_code-small (n % 10 + 48) (omega arith)) refl)
]

-- Digits have no case.
pub lower-show : (n : ℕ) → lower (show n) ≡ show n
unfolding show lower
lower-show n = lower-show_fuel (suc n) n []
