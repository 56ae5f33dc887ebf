-- ===== src/Extraction/Header/Later.antt =====
-- Each step of the header only adds to it.
use rfq_workflow_agent.Base.{
  ◌≡◌, Bool, true, not, ◌&&◌, ◌||◌, Option, none, some, List, [], ◌∷◌, ◌++◌, if_cases, any,
  any-append, arith,
}
use rfq_workflow_agent.Base.Text.{Text, member, strip, non_empty}
use rfq_workflow_agent.Extraction.Dates.{
  Date, DateReading, parse_date, date_ambiguous, date_unreadable, date_impossible,
}
use rfq_workflow_agent.Extraction.Header.{
  HeaderField, same_field, rfq_types, currency_codes, upper, normalize_currency, normalize_rfq_type,
  NormalizedHeader, warn_once, drop_field, flag, keep, stripped, keep_texts, imo_invalid,
  rfq_type_fell_back, keep_imo, or_text, keep_currency, keep_rfq_type, keep_date, keep_written,
  keep_dates,
}

-- The field has a text.
abbrev pub in_text : HeaderField → NormalizedHeader → Bool
in_text name h = any (λ (e : HeaderField × Text). same_field name e.0) h.text

-- The field has a date, or it is left blank with one of the three reasons.
abbrev pub in_dates : HeaderField → NormalizedHeader → Bool
in_dates name h =
    any (λ (e : HeaderField × Date). same_field name e.0) h.dates
    || any
        (λ (e : HeaderField × Text).
          same_field name e.0
          && member e.1 (date_ambiguous ∷ date_unreadable ∷ date_impossible ∷ []))
        h.dropped

-- What is there stays there.
pub record IsLater (h k : NormalizedHeader) : Type 0 where
  pub text_stays : (name : HeaderField) → in_text name h ≡ true → in_text name k ≡ true
  pub dates_stay : (name : HeaderField) → in_dates name h ≡ true → in_dates name k ≡ true

pub IsLater-refl : (h : NormalizedHeader) → IsLater h h
IsLater-refl h = record { text_stays = λ n e. e; dates_stay = λ n e. e }

pub IsLater-trans : (h k l : NormalizedHeader) → IsLater h k → IsLater k l → IsLater h l
IsLater-trans h k l a b = record {
  text_stays = λ n e. b.text_stays n (a.text_stays n e);
  dates_stay = λ n e. b.dates_stay n (a.dates_stay n e);
}

any-append_left :
    {A : Type 0} (p : A → Bool) (xs ys : List A) → any p xs ≡ true → any p (xs ++ ys) ≡ true
any-append_left p xs ys h = ground (arith, any-append p xs ys, h)

pub warn_once-IsLater : (reason : Text) (h : NormalizedHeader) → IsLater h (warn_once reason h)
unfolding warn_once
warn_once-IsLater reason h =
    if_cases (IsLater h) (non_empty reason && not (member reason h.warnings))
      (λ _. record { text_stays = λ n e. e; dates_stay = λ n e. e }) (λ _. IsLater-refl h)

drop_field-IsLater :
    (name : HeaderField) (reason : Text) (h : NormalizedHeader)
    → IsLater h (drop_field name reason h)
unfolding drop_field
drop_field-IsLater name reason h =
    let dropped = record h { dropped = h.dropped ++ (name, reason) ∷ [] } in
    IsLater-trans h dropped (warn_once reason dropped)
      (record {
        text_stays = λ n e. e;
        dates_stay = λ n e. ground (
          arith,
          e,
          any-append
              (λ (x : HeaderField × Text).
                same_field n x.0
                && member x.1 (date_ambiguous ∷ date_unreadable ∷ date_impossible ∷ []))
              h.dropped ((name, reason) ∷ []),
        );
      })
      (warn_once-IsLater reason dropped)

pub flag-IsLater :
    (name : HeaderField) (reason : Text) (h : NormalizedHeader) → IsLater h (flag name reason h)
unfolding flag
flag-IsLater name reason h =
    let checked = record h { checked = h.checked ++ (name, reason) ∷ [] } in
    if_cases (IsLater h) (non_empty reason)
      (λ _.
        IsLater-trans h checked (warn_once reason checked)
          (record { text_stays = λ n e. e; dates_stay = λ n e. e })
          (warn_once-IsLater reason checked))
      (λ _. IsLater-refl h)

kept-IsLater :
    (name : HeaderField) (t : Text) (h : NormalizedHeader)
    → IsLater h (record h { text = h.text ++ (name, t) ∷ [] })
kept-IsLater name t h = record {
  text_stays = λ n e. any-append_left _ h.text ((name, t) ∷ []) e;
  dates_stay = λ n e. e;
}

pub keep-IsLater :
    (name : HeaderField) (written value : Option Text) (h : NormalizedHeader)
    → IsLater h (keep name written value h)
unfolding keep
keep-IsLater name none none h = IsLater-refl h
keep-IsLater name (some w) none h = drop_field-IsLater name [] h
keep-IsLater name none (some []) h = IsLater-refl h
keep-IsLater name (some w) (some []) h = drop_field-IsLater name [] h
keep-IsLater name none (some (c ∷ s)) h = kept-IsLater name (c ∷ s) h
keep-IsLater name (some w) (some (c ∷ s)) h = kept-IsLater name (c ∷ s) h

pub keep-in_text :
    (name : HeaderField) (w v : Text) (h : NormalizedHeader)
    → non_empty v ≡ true
    → in_text name (keep name (some w) (some v) h) ≡ true
unfolding keep
keep-in_text name w [] h e = cc
keep-in_text name w (c ∷ s) h e = ground (
  arith,
  any-append (λ (x : HeaderField × Text). same_field name x.0) h.text ((name, c ∷ s) ∷ []),
)

pub keep_texts-IsLater :
    (written : HeaderField → Option Text) (names : List HeaderField) (h : NormalizedHeader)
    → IsLater h (keep_texts written names h)
unfolding keep_texts
keep_texts-IsLater written [] h = IsLater-refl h
keep_texts-IsLater written (n ∷ names) h =
    let next = keep n (written n) (stripped (written n)) h in
    IsLater-trans h next (keep_texts written names next)
      (keep-IsLater n (written n) (stripped (written n)) h) (keep_texts-IsLater written names next)

pub keep_imo-IsLater :
    (written number : Option Text) (h : NormalizedHeader) → IsLater h (keep_imo written number h)
unfolding keep_imo
keep_imo-IsLater none none h = IsLater-refl h
keep_imo-IsLater none (some []) h = IsLater-refl h
keep_imo-IsLater none (some (d ∷ u)) h = keep-IsLater HeaderField.imo none (some (d ∷ u)) h
keep_imo-IsLater (some w) (some (d ∷ u)) h = keep-IsLater HeaderField.imo (some w) (some (d ∷ u)) h
keep_imo-IsLater (some []) none h = IsLater-refl h
keep_imo-IsLater (some []) (some []) h = IsLater-refl h
keep_imo-IsLater (some (c ∷ s)) none h =
    let kept = keep HeaderField.imo (some (c ∷ s)) (some (strip (c ∷ s))) h in
    IsLater-trans h kept _ (keep-IsLater HeaderField.imo (some (c ∷ s)) (some (strip (c ∷ s))) h)
      (flag-IsLater HeaderField.imo imo_invalid kept)
keep_imo-IsLater (some (c ∷ s)) (some []) h =
    let kept = keep HeaderField.imo (some (c ∷ s)) (some (strip (c ∷ s))) h in
    IsLater-trans h kept _ (keep-IsLater HeaderField.imo (some (c ∷ s)) (some (strip (c ∷ s))) h)
      (flag-IsLater HeaderField.imo imo_invalid kept)

pub keep_currency-IsLater :
    (written : Option Text) (h : NormalizedHeader) → IsLater h (keep_currency written h)
unfolding keep_currency
keep_currency-IsLater none h = IsLater-refl h
keep_currency-IsLater (some []) h = IsLater-refl h
keep_currency-IsLater (some (c ∷ s)) h =
    keep-IsLater HeaderField.currency (some (c ∷ s))
      (some (or_text (normalize_currency (c ∷ s) currency_codes) (upper (strip (c ∷ s))))) h

pub keep_rfq_type-IsLater :
    (written : Option Text) (h : NormalizedHeader) → IsLater h (keep_rfq_type written h)
unfolding keep_rfq_type
keep_rfq_type-IsLater written h =
    let kept = keep HeaderField.rfq_type written (normalize_rfq_type written rfq_types).0 h in
    let first =
      keep-IsLater HeaderField.rfq_type written (normalize_rfq_type written rfq_types).0 h in
    if_cases (IsLater h) (normalize_rfq_type written rfq_types).1
      (λ _. IsLater-trans h kept _ first (warn_once-IsLater rfq_type_fell_back kept)) (λ _. first)

pub keep_date-IsLater :
    (name : HeaderField) (r : DateReading) (h : NormalizedHeader) → IsLater h (keep_date name r h)
unfolding keep_date
keep_date-IsLater name (none, problem) h = drop_field-IsLater name problem h
keep_date-IsLater name (some d, problem) h = record {
  text_stays = λ n e. e;
  dates_stay = λ n e. ground (
    arith,
    e,
    any-append (λ (x : HeaderField × Date). same_field n x.0) h.dates ((name, d) ∷ []),
  );
}

pub keep_written-IsLater :
    (today : Date) (name : HeaderField) (o : Option Text) (h : NormalizedHeader)
    → IsLater h (keep_written today name o h)
unfolding keep_written
keep_written-IsLater today name none h = IsLater-refl h
keep_written-IsLater today name (some raw) h = keep_date-IsLater name (parse_date today raw) h

pub keep_dates-IsLater :
    (today : Date) (written : HeaderField → Option Text) (names : List HeaderField)
    (h : NormalizedHeader)
    → IsLater h (keep_dates today written names h)
unfolding keep_dates
keep_dates-IsLater today written [] h = IsLater-refl h
keep_dates-IsLater today written (n ∷ names) h =
    let next = keep_written today n (written n) h in
    IsLater-trans h next (keep_dates today written names next)
      (keep_written-IsLater today n (written n) h) (keep_dates-IsLater today written names next)
