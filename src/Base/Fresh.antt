-- ===== src/Base/Fresh.antt =====
-- The search for a name that is not taken: among more candidates than there are names, one is free.
use rfq_workflow_agent.Base.{
  ℕ, zero, suc, ◌+◌, ◌≤◌, ◌<◌, ◌≡◌, ◌≢◌, refl, sym, ◌∙◌, true, false, Option, none, some, List, [],
  ◌∷◌, if◌then◌else◌, length, arith, Bool-cases, inl, inr,
}
use rfq_workflow_agent.Base.Text.{Text, text_eq, text_eq_iff, member}

-- `while f(i) in taken: i += 1`, with fuel for the rounds.
unfoldable pub first_free : ℕ → (ℕ → Text) → List Text → ℕ → Option ℕ
first_free zero f taken i = none
first_free (suc fuel) f taken i =
    let later = first_free fuel f taken (i + 1) in if member (f i) taken then later else some i

remove : Text → List Text → List Text
remove x [] = []
remove x (y ∷ ys) = let rest = remove x ys in if text_eq x y then rest else y ∷ rest

length-remove : (x : Text) (ys : List Text) → length (remove x ys) ≤ length ys
unfolding remove
length-remove x [] = omega arith
length-remove x (y ∷ ys) = ground (arith, length-remove x ys)

length-remove_at :
    (x : Text) (ys : List Text) → member x ys ≡ true → length (remove x ys) < length ys
unfolding remove
length-remove_at x [] h = cc
length-remove_at x (y ∷ ys) h = elim (Bool-cases (text_eq x y)) [
  | inl same ↦ rw same (omega (arith, length-remove x ys))
  | inr other ↦
      let m : member x ys ≡ true = ground (arith, h, other) in
      rw other (omega (arith, length-remove_at x ys m))
]

member-remove : (x z : Text) (ys : List Text) → z ≢ x → member z (remove x ys) ≡ member z ys
unfolding remove
member-remove x z [] h = refl
member-remove x z (y ∷ ys) h = elim (Bool-cases (text_eq x y)) [
  | inl same ↦
      let e : x ≡ y = (text_eq_iff x y).0 same in
      let off : text_eq z y ≡ false = elim (Bool-cases (text_eq z y)) [
        | inl z_is ↦ absurd (h ((text_eq_iff z y).0 z_is ∙ sym e))
        | inr z_not ↦ z_not
      ] in
      rw (same, off) (member-remove x z ys h)
  | inr other ↦ rw (other, member-remove x z ys h) refl
]

-- Different numbers give different candidates.
pub record IsDistinct (f : ℕ → Text) : Type 0 where
  pub apart : (i j : ℕ) → f i ≡ f j → i ≡ j

module _ (f : ℕ → Text) (d : IsDistinct f) where
  first_free-remove :
      (fuel i k : ℕ) (taken : List Text)
      → k < i
      → first_free fuel f (remove (f k) taken) i ≡ first_free fuel f taken i
  unfolding first_free
  first_free-remove zero i k taken h = refl
  first_free-remove (suc fuel) i k taken h =
      let differ : f i ≢ f k = λ e. ground (arith, h, d.apart i k e) in
      rw
        (
          member-remove (f k) (f i) taken differ,
          first_free-remove fuel (i + 1) k taken (omega (arith, h)),
        )
        refl

  -- The number that is found is free.
  pub first_free_sound :
      (fuel i k : ℕ) (taken : List Text)
      → first_free fuel f taken i ≡ some k
      → member (f k) taken ≡ false
  unfolding first_free
  first_free_sound zero i k taken h = cc
  first_free_sound (suc fuel) i k taken h = elim (Bool-cases (member (f i) taken)) [
    | inl used ↦ first_free_sound fuel (i + 1) k taken (rw used at h)
    | inr free ↦ let e : some i ≡ some k = rw free at h in let same : i ≡ k = cc in rw⁻¹ same free
  ]

  -- With more fuel than there are names, the search ends.
  pub first_free_found :
      (fuel i : ℕ) (taken : List Text)
      → length taken < fuel
      → (k : ℕ) × (first_free fuel f taken i ≡ some k)
  unfolding first_free
  first_free_found zero i taken h = absurd (omega (arith, h))
  first_free_found (suc fuel) i taken h = elim (Bool-cases (member (f i) taken)) [
    | inl used ↦
        let fewer : length (remove (f i) taken) < fuel =
          omega (arith, h, length-remove_at (f i) taken used) in
        let (k, e) = first_free_found fuel (i + 1) (remove (f i) taken) fewer in
        (k, rw used (sym (first_free-remove fuel (i + 1) i taken (omega arith)) ∙ e))
    | inr free ↦ (i, rw free refl)
  ]
