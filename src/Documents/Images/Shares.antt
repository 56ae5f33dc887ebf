-- ===== src/Documents/Images/Shares.antt =====
-- The allocation of the images spends the whole budget and gives no file more than it asked for.
use rfq_workflow_agent.Base.{
  ℕ, zero, suc, ◌+◌, ◌-◌, ◌*◌, ◌/◌, ◌≤◌, ◌<◌, ◌≡◌, refl, ap, ◌≢◌, List, [], ◌∷◌, map, min, ltb, leb,
  ◌==◌, length, take, All, arith, length-take, ==_iff, Bool-cases, inl, inr,
}
use rfq_workflow_agent.Base.Text.{Text, txt, member}
use native.Mathlib.Nat.{mul-div-le, lt-div-mul-add}
use rfq_workflow_agent.Documents.Models.{Document, warn}
use rfq_workflow_agent.Documents.Images.{
  total_of, one_each, hand_out, allocate, image_count, wanted_of, cut_images, spread, fit_images,
}

-- Each number of the first list is at most the one at its place in the second, and both end together.
abbrev pub Fits : List ℕ → List ℕ → Type 0
Fits [] [] = Unit
Fits [] (n ∷ ns) = ⊥
Fits (a ∷ rest) [] = ⊥
Fits (a ∷ rest) (n ∷ ns) = (a ≤ n) × Fits rest ns

abbrev pub IsPositive : List ℕ → Type 0
IsPositive ns = All (λ n. 1 ≤ n) ns

IsPositive-wanted_of : (ds : List Document) → IsPositive (wanted_of ds)
unfolding wanted_of
IsPositive-wanted_of [] = tt
IsPositive-wanted_of (d ∷ ds) = ground (arith, IsPositive-wanted_of ds)

one_each-Fits : (t : ℕ) (ns : List ℕ) → IsPositive ns → Fits (one_each t ns) ns
unfolding one_each
one_each-Fits t [] p = tt
one_each-Fits zero (n ∷ ns) p = (omega arith, one_each-Fits zero ns p.1)
one_each-Fits (suc t) (n ∷ ns) p = (p.0, one_each-Fits t ns p.1)

one_each_sum : (t : ℕ) (ns : List ℕ) → total_of (one_each t ns) ≡ min t (length ns)
unfolding one_each
one_each_sum t [] = omega arith
one_each_sum zero (n ∷ ns) = omega (arith, one_each_sum zero ns)
one_each_sum (suc t) (n ∷ ns) = omega (arith, one_each_sum t ns)

IsPositive-sum : (ns : List ℕ) → IsPositive ns → length ns ≤ total_of ns
IsPositive-sum [] p = omega arith
IsPositive-sum (n ∷ ns) p = omega (arith, p.0, IsPositive-sum ns p.1)

hand_out-Fits : (share spare : ℕ) (ns : List ℕ) → Fits (hand_out share spare ns) ns
unfolding hand_out
hand_out-Fits share spare [] = tt
hand_out-Fits share spare (n ∷ ns) =
    (omega arith, hand_out-Fits share (spare - min spare (n - min n share)) ns)

abbrev base_of : ℕ → List ℕ → ℕ
base_of share ns = total_of (map (λ n. min n share) ns)

hand_out_sum :
    (share spare : ℕ) (ns : List ℕ)
    → (base_of share ns ≤ total_of ns)
      × (base_of share ns ≤ length ns * share)
      × (total_of (hand_out share spare ns)
          ≡ base_of share ns + min spare (total_of ns - base_of share ns))
unfolding hand_out
hand_out_sum share spare [] = (omega arith, omega arith, omega arith)
hand_out_sum share spare (n ∷ ns) =
    let (a, b, c) = hand_out_sum share (spare - min spare (n - min n share)) ns in
    (omega (arith, a), omega (arith, b), omega (arith, a, c))

-- Every file that asks for images gets no more than it asked for, and together they get the whole
-- budget, or all that they asked for where that is less.
pub allocate_sum :
    (wanted : List ℕ) (total : ℕ)
    → IsPositive wanted
    → wanted ≢ []
    → Fits (allocate wanted total) wanted
      × (total_of (allocate wanted total) ≡ min total (total_of wanted))
unfolding allocate
allocate_sum [] total p some' = absurd (some' refl)
allocate_sum (n ∷ ns) total p some' = elim (Bool-cases (total / length (n ∷ ns) == 0)) [
  | inl few ↦
      let none_each : total / suc (length ns) ≡ 0 = (==_iff _ 0).0 few in
      let near : total < total / suc (length ns) * suc (length ns) + suc (length ns) =
        lt-div-mul-add (omega arith) in
      let below : total < 0 * suc (length ns) + suc (length ns) = rw none_each at near in
      rw few (
        (
          one_each-Fits total (n ∷ ns) p,
          omega (arith, below, one_each_sum total (n ∷ ns), IsPositive-sum (n ∷ ns) p),
        ))
  | inr enough ↦ rw enough (
      (
        hand_out-Fits _ _ (n ∷ ns),
        omega (
          arith,
          hand_out_sum (total / length (n ∷ ns))
              (total - base_of (total / length (n ∷ ns)) (n ∷ ns)) (n ∷ ns),
          mul-div-le total (suc (length ns)),
        ),
      ))
]

images-warn : (code : Text) (d : Document) → (warn code d).images ≡ d.images
unfolding warn
images-warn code d = elim (Bool-cases (member code d.warnings)) [
  | inl old ↦ rw old refl
  | inr new ↦ rw new refl
]

-- The images a document keeps after its share.
image_count-cut_images :
    (a : ℕ) (d : Document) → image_count (cut_images a d) ≡ min a (image_count d)
unfolding cut_images
image_count-cut_images a d = elim (Bool-cases (ltb a (image_count d))) [
  | inl over ↦
      rw (over, images-warn (txt "images_truncated") (record d { images = take a d.images }))
        (omega (arith, length-take a d.images))
  | inr under ↦ rw under (ground (arith, under))
]

Fits-nil : (ns : List ℕ) → Fits [] ns → total_of ns ≡ 0
Fits-nil [] h = refl
Fits-nil (n ∷ ns) h = absurd h

abbrev pub images_of : List Document → ℕ
images_of ds = total_of (map image_count ds)

images_of-wanted_of : (ds : List Document) → total_of (wanted_of ds) ≡ images_of ds
unfolding wanted_of
images_of-wanted_of [] = refl
images_of-wanted_of (d ∷ ds) = ground (arith, images_of-wanted_of ds)

images_of-spread :
    (allowed : List ℕ) (ds : List Document)
    → Fits allowed (wanted_of ds)
    → images_of (spread allowed ds) ≡ total_of allowed
unfolding spread wanted_of
images_of-spread [] [] h = refl
images_of-spread [] (d ∷ ds) h = omega (arith, images_of-wanted_of (d ∷ ds), Fits-nil _ h)
images_of-spread (a ∷ allowed) [] h = absurd h
images_of-spread (a ∷ allowed) (d ∷ ds) h = elim (Bool-cases (image_count d == 0)) [
  | inl none' ↦ ground (arith, none', h, images_of-spread (a ∷ allowed) ds)
  | inr some' ↦ ground (arith, some', h, images_of-spread allowed ds, image_count-cut_images a d)
]

-- All the documents of one email carry no more images than its budget allows, and no fewer than that
-- where they had more.
pub fit_images_sum :
    (max_images : ℕ) (ds : List Document)
    → images_of (fit_images max_images ds) ≡ min max_images (images_of ds)
unfolding fit_images
fit_images_sum limit ds = elim (Bool-cases (leb (total_of (wanted_of ds)) limit)) [
  | inl room ↦ rw room (ground (arith, room, images_of-wanted_of ds))
  | inr over ↦
      let some' : wanted_of ds ≢ [] = λ e. ground (arith, over, ap total_of e) in
      let (fits, sum) = allocate_sum (wanted_of ds) limit (IsPositive-wanted_of ds) some' in
      rw
        (
          over,
          images_of-spread (allocate (wanted_of ds) limit) ds fits,
          sum,
          images_of-wanted_of ds,
        )
        refl
]
