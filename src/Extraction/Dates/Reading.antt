-- ===== src/Extraction/Dates/Reading.antt =====
-- What a date is read as.
use rfq_workflow_agent.Base.{
  ℕ, ◌+◌, ◌-◌, ◌==◌, ◌≤◌, ◌<◌, leb, ltb, ◌≡◌, ◌⊎◌, refl, sym, ap, ◌∙◌, true, ◌&&◌, Option, none,
  some, [], ◌∷◌, if_cases, Bool-cases, Option-cases, inl, inr, arith,
}
use rfq_workflow_agent.Base.Text.{Text, lower, strip, member}
use rfq_workflow_agent.Extraction.Dates.{
  Date, is_day, build, day_of_year, date_ambiguous, date_unreadable, date_impossible,
  backdating_tolerance_days, year_of, DateReading, real, in_front, with_year, iso, numeric,
  day_and_month, day_month, month_day, months, month_of, from_iso, from_numeric, from_day_and_month,
  from_named, without_tail, parse_date,
}

-- A day of the calendar and no reason, or no day and one of the three reasons.
abbrev pub IsAnswer : DateReading → Type 0
IsAnswer (none, why) = member why (date_ambiguous ∷ date_unreadable ∷ date_impossible ∷ []) ≡ true
IsAnswer (some d, why) = (is_day d ≡ true) × (why ≡ [])

build-is_day : (y m d : ℕ) (it : Date) → build y m d ≡ some it → is_day it ≡ true
unfolding build
build-is_day y m d it h =
    let made : Date = record { year = y; month = m; day = d } in
    elim (Bool-cases (is_day made)) [
      | inl real_day ↦
          let e : some made ≡ some it = rw real_day at h in
          let same : made ≡ it = cc in rw⁻¹ same real_day
      | inr no_day ↦ absurd (let n : none ≡ some it = rw no_day at h in cc)
    ]

abbrev IsDay : Option Date → Type 0
IsDay none = Unit
IsDay (some d) = is_day d ≡ true

build-IsDay : (y m d : ℕ) → IsDay (build y m d)
build-IsDay y m d = elim (Option-cases (build y m d)) [
  | inl no_day ↦ rw no_day tt
  | inr (it, e) ↦ rw e (build-is_day y m d it e)
]

in_front-IsDay : (today : Date) (o : Option Date) → IsDay o → IsDay (in_front today o)
unfolding in_front
in_front-IsDay today none h = tt
in_front-IsDay today (some g) h =
    if_cases IsDay (ltb backdating_tolerance_days (day_of_year today - day_of_year g))
      (λ _. build-IsDay (today.year + 1) g.month g.day) (λ _. h)

with_year-IsDay : (d m : ℕ) (y : Option ℕ) (today : Date) → IsDay (with_year d m y today)
unfolding with_year
with_year-IsDay d m (some y) today = build-IsDay (year_of y) m d
with_year-IsDay d m none today =
    in_front-IsDay today (build today.year m d) (build-IsDay today.year m d)

real-IsAnswer : (o : Option Date) → IsDay o → IsAnswer (real o)
unfolding real
real-IsAnswer none h = refl
real-IsAnswer (some d) h = (h, refl)

from_iso-IsAnswer :
    (o : Option (ℕ × ℕ × ℕ)) (next : DateReading) → IsAnswer next → IsAnswer (from_iso o next)
unfolding from_iso
from_iso-IsAnswer none next h = h
from_iso-IsAnswer (some (y, m, d)) next h = real-IsAnswer (build y m d) (build-IsDay y m d)

from_numeric-IsAnswer :
    (o : Option (ℕ × ℕ × ℕ)) (next : DateReading) → IsAnswer next → IsAnswer (from_numeric o next)
unfolding from_numeric
from_numeric-IsAnswer none next h = h
from_numeric-IsAnswer (some (a, b, y)) next h =
    let built = λ (m d : ℕ). real-IsAnswer (build (year_of y) m d) (build-IsDay (year_of y) m d) in
    if_cases IsAnswer (ltb 12 a && leb b 12) (λ _. built b a)
      (λ _.
        if_cases IsAnswer (ltb 12 b && leb a 12) (λ _. built a b)
          (λ _. if_cases IsAnswer (a == b) (λ _. built a b) (λ _. refl)))

from_day_and_month-IsAnswer :
    (today : Date) (o : Option (ℕ × ℕ)) (next : DateReading)
    → IsAnswer next
    → IsAnswer (from_day_and_month today o next)
unfolding from_day_and_month
from_day_and_month-IsAnswer today none next h = h
from_day_and_month-IsAnswer today (some (a, b)) next h =
    let put =
      λ (d m : ℕ). real-IsAnswer (with_year d m none today) (with_year-IsDay d m none today) in
    if_cases IsAnswer (ltb 12 a && leb b 12) (λ _. put a b)
      (λ _. if_cases IsAnswer (ltb 12 b && leb a 12) (λ _. put b a) (λ _. refl))

from_named-IsAnswer :
    (today : Date) (o : Option (ℕ × Text × Option ℕ)) (next : DateReading)
    → IsAnswer next
    → IsAnswer (from_named today o next)
unfolding from_named
from_named-IsAnswer today none next h = h
from_named-IsAnswer today (some (d, name, y)) next h =
    elim (Option-cases (month_of (lower name) months)) [
      | inl unknown ↦ rw (from_named, unknown) h
      | inr (m, e) ↦
          rw (from_named, e) (real-IsAnswer (with_year d m y today) (with_year-IsDay d m y today))
    ]

-- Whatever a customer wrote, it is read as a day of the calendar, or left blank with one of the three
-- reasons.
pub parse_date-IsAnswer : (today : Date) (value : Text) → IsAnswer (parse_date today value)
unfolding parse_date
parse_date-IsAnswer today value =
    let t = without_tail (strip value) in
    from_iso-IsAnswer (iso t) _ (
      from_numeric-IsAnswer (numeric t) _ (
        from_day_and_month-IsAnswer today (day_and_month t) _ (
          from_named-IsAnswer today (day_month t) _
            (from_named-IsAnswer today (month_day t) (none, date_unreadable) refl))))

build-fields :
    (y m d : ℕ) (it : Date) → build y m d ≡ some it → (it.year ≡ y) × (it.month ≡ m) × (it.day ≡ d)
unfolding build
build-fields y m d it h =
    let made : Date = record { year = y; month = m; day = d } in
    elim (Bool-cases (is_day made)) [
      | inl real_day ↦
          let e : some made ≡ some it = rw real_day at h in
          let same : made ≡ it = cc in
          (ap (λ x. x.year) (sym same), ap (λ x. x.month) (sym same), ap (λ x. x.day) (sym same))
      | inr no_day ↦ absurd (let n : none ≡ some it = rw no_day at h in cc)
    ]

-- A day and a month without a year: the day is as it was written, in this year where that is at most 60
-- days back, else in the next one.
pub with_year-dated :
    (day month : ℕ) (today it : Date)
    → with_year day month none today ≡ some it
    → (it.day ≡ day)
      × (it.month ≡ month)
      × (((it.year ≡ today.year) × (day_of_year today ≤ day_of_year it + 60))
          ⊎ ((it.year ≡ today.year + 1)
              × (guess : Date) × (build today.year month day ≡ some guess)
              × (day_of_year guess + 60 < day_of_year today)))
unfolding with_year in_front
with_year-dated day month today it h = elim (Option-cases (build today.year month day)) [
  | inl no_day ↦ absurd (let n : none ≡ some it = rw no_day at h in cc)
  | inr (g, e) ↦
      let (gy, gm, gd) = build-fields today.year month day g e in
      elim (Bool-cases (ltb backdating_tolerance_days (day_of_year today - day_of_year g))) [
        | inl past ↦
            let later : build (today.year + 1) g.month g.day ≡ some it = rw (e, past) at h in
            let (iy, im, id) = build-fields (today.year + 1) g.month g.day it later in
            (id ∙ gd, im ∙ gm, inr ((iy, g, e, ground (arith, past))))
        | inr near ↦
            let is : some g ≡ some it = rw (e, near) at h in
            let same : g ≡ it = cc in rw⁻¹ same ((gd, gm, inl ((gy, ground (arith, near)))))
      ]
]
