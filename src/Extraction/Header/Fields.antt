-- ===== src/Extraction/Header/Fields.antt =====
-- What each step of the header does with its own fields.
use rfq_workflow_agent.Base.{
  ◌≡◌, refl, ◌∙◌, Bool, true, ◌&&◌, Option, none, some, List, [], ◌∷◌, ◌++◌, if_cases, any-append,
  all, All, Bool-cases, inl, inr, arith,
}
use rfq_workflow_agent.Base.Text.{Text, member, strip, non_empty, contains}
use rfq_workflow_agent.Extraction.Dates.{
  Date, DateReading, parse_date, date_ambiguous, date_unreadable, date_impossible,
}
use rfq_workflow_agent.Extraction.Dates.Reading.{IsAnswer, parse_date-IsAnswer}
use rfq_workflow_agent.Extraction.Header.{
  HeaderField, same_field, rfq_types, currency_codes, upper, first_with, normalize_currency,
  type_or, others, normalize_rfq_type, NormalizedHeader, drop_field, keep, stripped, keep_texts,
  imo_invalid, rfq_type_fell_back, keep_imo, or_text, keep_currency, keep_rfq_type, keep_date,
  keep_written, keep_dates,
}
use rfq_workflow_agent.Extraction.Header.Later.{
  in_text, in_dates, warn_once-IsLater, flag-IsLater, keep-in_text, keep_texts-IsLater,
  keep_dates-IsLater,
}

-- Something is written in a field, not only spaces.
abbrev pub IsWritten : Option Text → Type 0
IsWritten o = (t : Text) × (o ≡ some t) × (non_empty (strip t) ≡ true)

pub keep_texts-All :
    (written : HeaderField → Option Text) (names : List HeaderField) (h : NormalizedHeader)
    → All (λ n. IsWritten (written n) → in_text n (keep_texts written names h) ≡ true) names
unfolding keep_texts
keep_texts-All written [] h = tt
keep_texts-All written (n ∷ names) h =
    let next = keep n (written n) (stripped (written n)) h in
    (
      (λ (t, e, full).
          (keep_texts-IsLater written names next).text_stays n
            (rw e (keep-in_text n t (strip t) h full))),
      keep_texts-All written names next,
    )

non_empty-upper : (s : Text) → non_empty (upper s) ≡ non_empty s
unfolding upper
non_empty-upper [] = refl
non_empty-upper (c ∷ s) = refl

non_empty-or_text :
    (o : Option Text) (d : Text) → non_empty d ≡ true → non_empty (or_text o d) ≡ true
non_empty-or_text none d h = h
non_empty-or_text (some []) d h = h
non_empty-or_text (some (c ∷ s)) d h = refl

pub keep_imo-in_text :
    (t : Text) (number : Option Text) (h : NormalizedHeader)
    → non_empty (strip t) ≡ true
    → in_text HeaderField.imo (keep_imo (some t) number h) ≡ true
unfolding keep_imo strip
keep_imo-in_text t (some (d ∷ u)) h e = keep-in_text HeaderField.imo t (d ∷ u) h refl
keep_imo-in_text [] none h e = cc
keep_imo-in_text [] (some []) h e = cc
keep_imo-in_text (c ∷ s) none h e =
    (flag-IsLater HeaderField.imo imo_invalid
        (keep HeaderField.imo (some (c ∷ s)) (some (strip (c ∷ s))) h)).text_stays
      HeaderField.imo (keep-in_text HeaderField.imo (c ∷ s) (strip (c ∷ s)) h e)
keep_imo-in_text (c ∷ s) (some []) h e =
    (flag-IsLater HeaderField.imo imo_invalid
        (keep HeaderField.imo (some (c ∷ s)) (some (strip (c ∷ s))) h)).text_stays
      HeaderField.imo (keep-in_text HeaderField.imo (c ∷ s) (strip (c ∷ s)) h e)

pub keep_currency-in_text :
    (t : Text) (h : NormalizedHeader)
    → non_empty (strip t) ≡ true
    → in_text HeaderField.currency (keep_currency (some t) h) ≡ true
unfolding keep_currency strip
keep_currency-in_text [] h e = cc
keep_currency-in_text (c ∷ s) h e =
    keep-in_text HeaderField.currency (c ∷ s)
      (or_text (normalize_currency (c ∷ s) currency_codes) (upper (strip (c ∷ s)))) h
      (non_empty-or_text (normalize_currency (c ∷ s) currency_codes) (upper (strip (c ∷ s)))
        (non_empty-upper (strip (c ∷ s)) ∙ e))

first_with-all :
    (p q : Text → Bool) (xs : List Text) (x : Text)
    → first_with p xs ≡ some x
    → all q xs ≡ true
    → q x ≡ true
unfolding first_with
first_with-all p q [] x h a = cc
first_with-all p q (y ∷ ys) x h a = elim (Bool-cases (p y)) [
  | inl here ↦
      let e : some y ≡ some x = rw here at h in
      let same : y ≡ x = cc in rw⁻¹ same (ground (arith, a))
  | inr later ↦ first_with-all p q ys x (rw later at h) (ground (arith, a))
]

type_or-non_empty :
    (o : Option Text)
    → ((x : Text) → o ≡ some x → non_empty x ≡ true)
    → (v : Text) × ((type_or rfq_types o).0 ≡ some v) × (non_empty v ≡ true)
type_or-non_empty none h = (others, refl, refl)
type_or-non_empty (some x) h = (x, refl, h x refl)

normalize_rfq_type-non_empty :
    (t : Text)
    → non_empty (strip t) ≡ true
    → (v : Text) × ((normalize_rfq_type (some t) rfq_types).0 ≡ some v) × (non_empty v ≡ true)
unfolding normalize_rfq_type strip
normalize_rfq_type-non_empty [] e = cc
normalize_rfq_type-non_empty (c ∷ s) e =
    let cleaned = upper (strip (c ∷ s)) in
    if_cases (λ (r : Option Text × Bool). (v : Text) × (r.0 ≡ some v) × (non_empty v ≡ true))
      (member cleaned rfq_types) (λ _. (cleaned, refl, non_empty-upper (strip (c ∷ s)) ∙ e))
      (λ _.
        type_or-non_empty (first_with (λ code. contains code cleaned) rfq_types)
          (λ x h. first_with-all (λ code. contains code cleaned) non_empty rfq_types x h refl))

pub keep_rfq_type-in_text :
    (t : Text) (h : NormalizedHeader)
    → non_empty (strip t) ≡ true
    → in_text HeaderField.rfq_type (keep_rfq_type (some t) h) ≡ true
unfolding keep_rfq_type
keep_rfq_type-in_text t h e =
    let (v, is, full) = normalize_rfq_type-non_empty t e in
    let kept = keep HeaderField.rfq_type (some t) (normalize_rfq_type (some t) rfq_types).0 h in
    let there : in_text HeaderField.rfq_type kept ≡ true =
      rw is (keep-in_text HeaderField.rfq_type t v h full) in
    if_cases (λ k. in_text HeaderField.rfq_type k ≡ true) (normalize_rfq_type (some t) rfq_types).1
      (λ _. (warn_once-IsLater rfq_type_fell_back kept).text_stays HeaderField.rfq_type there)
      (λ _. there)

keep_date-in_dates :
    (name : HeaderField) (r : DateReading) (h : NormalizedHeader)
    → IsAnswer r
    → in_dates name (keep_date name r h) ≡ true
unfolding keep_date drop_field
keep_date-in_dates name (none, why) h a =
    let dropped = record h { dropped = h.dropped ++ (name, why) ∷ [] } in
    let there : in_dates name dropped ≡ true = ground (
      arith,
      a,
      any-append
          (λ (x : HeaderField × Text).
            same_field name x.0
            && member x.1 (date_ambiguous ∷ date_unreadable ∷ date_impossible ∷ []))
          h.dropped ((name, why) ∷ []),
    ) in
    (warn_once-IsLater why dropped).dates_stay name there
keep_date-in_dates name (some d, why) h a =
    ground
      (arith, any-append (λ (x : HeaderField × Date). same_field name x.0) h.dates ((name, d) ∷ []))

pub keep_dates-All :
    (today : Date) (written : HeaderField → Option Text) (names : List HeaderField)
    (h : NormalizedHeader)
    → All (λ n. IsWritten (written n) → in_dates n (keep_dates today written names h) ≡ true) names
unfolding keep_dates keep_written
keep_dates-All today written [] h = tt
keep_dates-All today written (n ∷ names) h =
    let next = keep_written today n (written n) h in
    (
      (λ (t, e, full). (keep_dates-IsLater today written names next).dates_stay n (
          rw (keep_written, e)
            (keep_date-in_dates n (parse_date today t) h (parse_date-IsAnswer today t)))),
      keep_dates-All today written names next,
    )
