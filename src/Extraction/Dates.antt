-- ===== src/Extraction/Dates.antt =====
-- The dates of src/services/extraction/normalize.py. Its regular expressions are written out as scans:
-- a run of digits or letters is as long as it can be, and where the expression would go back, as in
-- `month_day`, the cases are written out. `\d` and `[A-Za-z]` are those of ASCII.
pub mod Reading
use rfq_workflow_agent.Base.{
  ℕ, zero, suc, ◌+◌, ◌-◌, ◌*◌, ◌%◌, ◌==◌, leb, ltb, Bool, true, false, not, ◌&&◌, ◌||◌, Option,
  none, some, List, [], ◌∷◌, ◌++◌, if◌then◌else◌, length, take, drop,
}
use rfq_workflow_agent.Base.Text.{Text, txt, text_eq, lower, strip, is_space, member}
use rfq_workflow_agent.Base.Digits.{is_digit, number_from}

pub record Date : Type 0 where
  pub year : ℕ
  pub month : ℕ
  pub day : ℕ

-- `datetime.date`: the proleptic Gregorian calendar of the years 1 to 9999.
abbrev pub is_leap : ℕ → Bool
is_leap y = y % 4 == 0 && (not (y % 100 == 0) || y % 400 == 0)

abbrev pub days_in_month : ℕ → ℕ → ℕ
days_in_month y m =
    if m == 2
    then (if is_leap y then 29 else 28)
    else if m == 4 || m == 6 || m == 9 || m == 11
    then 30
    else 31

abbrev pub is_day : Date → Bool
is_day d =
    leb 1 d.year
    && leb d.year 9999
    && leb 1 d.month
    && leb d.month 12
    && leb 1 d.day
    && leb d.day (days_in_month d.year d.month)

-- `_build`
unfoldable pub build : ℕ → ℕ → ℕ → Option Date
build y m d =
    let it : Date = record { year = y; month = m; day = d } in if is_day it then some it else none

-- The days of a year before a month.
unfoldable pub days_before : ℕ → ℕ → ℕ
days_before y zero = 0
days_before y (suc zero) = 0
days_before y (suc (suc m)) = days_before y (suc m) + days_in_month y (suc m)

abbrev pub day_of_year : Date → ℕ
day_of_year d = days_before d.year d.month + d.day

abbrev pub date_ambiguous : Text
date_ambiguous = txt "date_could_be_read_two_ways"

abbrev pub date_unreadable : Text
date_unreadable = txt "date_not_understood"

abbrev pub date_impossible : Text
date_impossible = txt "date_is_not_a_real_day"

abbrev pub backdating_tolerance_days : ℕ
backdating_tolerance_days = 60

-- `_year`
abbrev pub year_of : ℕ → ℕ
year_of y = if ltb y 100 then y + 2000 else y

-- A date, or the reason there is none.
abbrev pub DateReading : Type 0
DateReading = Option Date × Text

-- `_real`
unfoldable pub real : Option Date → DateReading
real none = (none, date_impossible)
real (some d) = (some d, [])

-- `guess`, or the day a year later: both dates are of one year, so `today - guess` is that of their
-- days in the year.
unfoldable pub in_front : Date → Option Date → Option Date
in_front today none = none
in_front today (some guess) =
    if ltb backdating_tolerance_days (day_of_year today - day_of_year guess)
    then build (today.year + 1) guess.month guess.day
    else some guess

-- `_with_year`
unfoldable pub with_year : (day month : ℕ) → Option ℕ → (today : Date) → Option Date
with_year day month (some year) today = build (year_of year) month day
with_year day month none today = in_front today (build today.year month day)

-- A run at the start of a text, and the rest.
unfoldable pub run_of : (ℕ → Bool) → Text → Text
run_of p [] = []
run_of p (c ∷ s) = let rest = run_of p s in if p c then c ∷ rest else []

unfoldable pub after : (ℕ → Bool) → Text → Text
after p [] = []
after p (c ∷ s) = let rest = after p s in if p c then rest else c ∷ s

abbrev pub then_read {ℓ κ} : {A : Type ℓ} {B : Type κ} → Option A → (A → Option B) → Option B
then_read none f = none
then_read (some a) f = f a

-- `(\d{low,high})` where no digit follows: the number and the rest.
unfoldable pub number_in : (low high : ℕ) → Text → Option (ℕ × Text)
number_in low high t =
    let digits = run_of is_digit t in
    if leb low (length digits) && leb (length digits) high
    then some (number_from 0 digits, after is_digit t)
    else none

abbrev pub is_letter : ℕ → Bool
is_letter c = (leb b'A' c && leb c b'Z') || (leb b'a' c && leb c b'z')

-- `([A-Za-z]{3,9})` where no letter follows.
unfoldable pub word_in : Text → Option (Text × Text)
word_in t =
    let letters = run_of is_letter t in
    if leb 3 (length letters) && leb (length letters) 9
    then some (letters, after is_letter t)
    else none

abbrev pub is_mark : ℕ → Bool
is_mark c = c == b'.' || c == b'/' || c == b'-'

abbrev pub is_gap : ℕ → Bool
is_gap c = is_mark c || is_space c

-- `\.?[\s,./-]*`
abbrev pub is_wide_gap : ℕ → Bool
is_wide_gap c = is_gap c || c == b','

-- One character of a class.
unfoldable pub one_of : (ℕ → Bool) → Text → Option Text
one_of p [] = none
one_of p (c ∷ s) = if p c then some s else none

-- `$`: the end, or a line feed at the end.
abbrev pub is_end : Text → Bool
is_end [] = true
is_end (c ∷ []) = c == 10
is_end (c ∷ d ∷ s) = false

-- `_ISO`
unfoldable pub iso : Text → Option (ℕ × ℕ × ℕ)
iso t = then_read (number_in 4 4 t) (λ (y : ℕ × Text).
    then_read (one_of (λ c. c == b'-') y.1) (λ t1. then_read (number_in 1 2 t1) (λ (m : ℕ × Text).
      then_read (one_of (λ c. c == b'-') m.1) (λ t2. elim (take 2 (run_of is_digit t2)) [
        | [] ↦ none
        | c ∷ s ↦ some (y.0, m.0, number_from 0 (c ∷ s))
      ]))))

-- `_NUMERIC_DATE`
unfoldable pub numeric : Text → Option (ℕ × ℕ × ℕ)
numeric t = then_read (number_in 1 2 t) (λ (a : ℕ × Text). then_read (one_of is_mark a.1) (λ t1.
    then_read (number_in 1 2 t1) (λ (b : ℕ × Text). then_read (one_of is_mark b.1) (λ t2.
      then_read (number_in 2 4 t2)
        (λ (y : ℕ × Text). if is_end y.1 then some (a.0, b.0, y.0) else none)))))

-- `_DAY_AND_MONTH`
unfoldable pub day_and_month : Text → Option (ℕ × ℕ)
day_and_month t = then_read (number_in 1 2 t) (λ (a : ℕ × Text).
    then_read (one_of is_mark a.1) (λ t1.
      then_read (number_in 1 2 t1)
        (λ (b : ℕ × Text). if is_end b.1 then some (a.0, b.0) else none)))

-- `(\d{2,4})?$`
unfoldable pub year_at_end : Text → Option (Option ℕ)
year_at_end t =
    if is_end t
    then some none
    else then_read (number_in 2 4 t)
        (λ (y : ℕ × Text). if is_end y.1 then some (some y.0) else none)

-- `_DAY_MONTH`: the day, the name and the year.
unfoldable pub day_month : Text → Option (ℕ × Text × Option ℕ)
day_month t = then_read (number_in 1 2 t) (λ (d : ℕ × Text).
    then_read (word_in (after is_gap d.1)) (λ (w : Text × Text).
      then_read (year_at_end (after is_wide_gap w.1)) (λ y. some (d.0, w.0, y))))

-- `(\d{1,2})[\s,./-]*(\d{2,4})?$`: three digits are one and two, four to six are two and the others.
unfoldable pub day_year : Text → Option (ℕ × Option ℕ)
day_year t =
    let digits = run_of is_digit t in
    let rest = after is_digit t in
    let n = length digits in
    if n == 1 || n == 2
    then then_read (year_at_end (after is_wide_gap rest)) (λ y. some (number_from 0 digits, y))
    else if not (is_end rest)
    then none
    else if n == 3
    then some (number_from 0 (take 1 digits), some (number_from 0 (drop 1 digits)))
    else if leb 4 n && leb n 6
    then some (number_from 0 (take 2 digits), some (number_from 0 (drop 2 digits)))
    else none

-- `_MONTH_DAY`
unfoldable pub month_day : Text → Option (ℕ × Text × Option ℕ)
month_day t = then_read (word_in t) (λ (w : Text × Text).
    then_read (day_year (after is_wide_gap w.1)) (λ (d : ℕ × Option ℕ). some (d.0, w.0, d.1)))

-- `_MONTHS`
abbrev pub months : List (ℕ × List Text)
months =
    (1, txt "jan" ∷ txt "january" ∷ [])
    ∷ (2, txt "feb" ∷ txt "february" ∷ [])
    ∷ (3, txt "mar" ∷ txt "march" ∷ [])
    ∷ (4, txt "apr" ∷ txt "april" ∷ [])
    ∷ (5, txt "may" ∷ [])
    ∷ (6, txt "jun" ∷ txt "june" ∷ [])
    ∷ (7, txt "jul" ∷ txt "july" ∷ [])
    ∷ (8, txt "aug" ∷ txt "august" ∷ [])
    ∷ (9, txt "sep" ∷ txt "sept" ∷ txt "september" ∷ [])
    ∷ (10, txt "oct" ∷ txt "october" ∷ [])
    ∷ (11, txt "nov" ∷ txt "november" ∷ [])
    ∷ (12, txt "dec" ∷ txt "december" ∷ [])
    ∷ []

unfoldable pub month_of : Text → List (ℕ × List Text) → Option ℕ
month_of name [] = none
month_of name ((m, names) ∷ rest) =
    let later = month_of name rest in if member name names then some m else later

-- The branches of `parse_date`; `next` is what the code does where the expression does not match.
unfoldable pub from_iso : Option (ℕ × ℕ × ℕ) → DateReading → DateReading
from_iso none next = next
from_iso (some (y, m, d)) next = real (build y m d)

unfoldable pub from_numeric : Option (ℕ × ℕ × ℕ) → DateReading → DateReading
from_numeric none next = next
from_numeric (some (first, second, year)) next =
    if ltb 12 first && leb second 12
    then real (build (year_of year) second first)
    else if ltb 12 second && leb first 12
    then real (build (year_of year) first second)
    else if first == second
    then real (build (year_of year) first second)
    else (none, date_ambiguous)

unfoldable pub from_day_and_month : Date → Option (ℕ × ℕ) → DateReading → DateReading
from_day_and_month today none next = next
from_day_and_month today (some (first, second)) next =
    if ltb 12 first && leb second 12
    then real (with_year first second none today)
    else if ltb 12 second && leb first 12
    then real (with_year second first none today)
    else (none, date_ambiguous)

unfoldable pub from_named : Date → Option (ℕ × Text × Option ℕ) → DateReading → DateReading
from_named today none next = next
from_named today (some (day, name, year)) next = elim (month_of (lower name) months) [
  | none ↦ next
  | some m ↦ real (with_year day m year today)
]

-- `value.strip().rstrip(" ./-")`
unfoldable pub without_tail : Text → Text
without_tail [] = []
without_tail (c ∷ s) =
    let rest = without_tail s in
    elim rest [ [] ↦ (if c == b' ' || is_mark c then [] else c ∷ []) | d ∷ more ↦ c ∷ d ∷ more ]

-- `parse_date`
unfoldable pub parse_date : Date → Text → DateReading
parse_date today value =
    let t = without_tail (strip value) in
    from_iso (iso t) (
      from_numeric (numeric t) (
        from_day_and_month today (day_and_month t) (
          from_named today (day_month t) (from_named today (month_day t) (none, date_unreadable)))))
