-- ===== src/Extraction/Header/Examples.antt =====
-- The header of one email, and some dates.
use rfq_workflow_agent.Base.{
  ℕ, ◌+◌, ◌≤◌, ◌<◌, ◌≡◌, ◌⊎◌, refl, true, false, Option, none, some, [], ◌∷◌, map,
}
use rfq_workflow_agent.Base.Text.{Text, txt, strip, lstrip, rstrip, lower}
use rfq_workflow_agent.Base.Digits.{number_from}
use rfq_workflow_agent.Extraction.Dates.{
  Date, DateReading, parse_date, build, with_year, in_front, day_of_year, days_before, real, run_of,
  after, number_in, word_in, one_of, iso, numeric, day_and_month, year_at_end, day_month, day_year,
  month_day, month_of, from_iso, from_numeric, from_day_and_month, from_named, without_tail,
  date_ambiguous, date_impossible,
}
use rfq_workflow_agent.Extraction.Dates.Reading.{IsAnswer, parse_date-IsAnswer, with_year-dated}
use rfq_workflow_agent.Extraction.Imo.{checks, swap_at, weighted, checks-swap_at}
use rfq_workflow_agent.Extraction.Header.{HeaderField, normalize_header}
use rfq_workflow_agent.Extraction.Header.Complete.{is_settled, normalize_header-is_settled}

abbrev on : ℕ → ℕ → ℕ → Date
on y m d = record { year = y; month = m; day = d }

-- The tenth of November 2027, a year without a 29th of February.
abbrev today : Date
today = on 2027 11 10

abbrev read_as : Text → DateReading
read_as t = parse_date today t

dates_read :
    map read_as (
      txt "2026-09-10T08:00"
      ∷ txt "28/07."
      ∷ txt "3/4/2026"
      ∷ txt "12 Oct"
      ∷ txt "31/02"
      ∷ txt "soon"
      ∷ [])
    ≡ (some (on 2026 9 10), [])
      ∷ (some (on 2028 7 28), [])
      ∷ (none, txt "date_could_be_read_two_ways")
      ∷ (some (on 2027 10 12), [])
      ∷ (none, txt "date_is_not_a_real_day")
      ∷ (none, txt "date_not_understood")
      ∷ []
unfolding parse_date from_iso iso number_in run_of after without_tail strip lstrip rstrip lower
    one_of from_numeric numeric real from_day_and_month number_from build day_and_month with_year
    from_named in_front day_month days_before word_in month_day year_at_end day_year month_of
dates_read = refl

-- A month and a year are read as a day of the month.
month_and_year : read_as (txt "October 2026") ≡ (some (on 2026 10 20), [])
unfolding parse_date from_iso iso number_in run_of after without_tail strip lstrip rstrip lower
    one_of from_numeric numeric real from_day_and_month number_from build day_and_month with_year
    from_named in_front day_month days_before word_in month_day year_at_end day_year month_of
month_and_year = refl

-- The 29th of February that comes next is no day of this year.
leap_day : read_as (txt "29 Feb") ≡ (none, date_impossible)
unfolding parse_date from_iso iso number_in run_of after without_tail strip lstrip rstrip lower
    one_of from_numeric numeric real from_day_and_month number_from build day_and_month with_year
    from_named in_front day_month days_before word_in month_day year_at_end day_year month_of
leap_day = refl

-- A date that reads the same both ways, with its year and without.
fifth_of_may :
    map read_as (txt "05/05/2028" ∷ txt "05/05" ∷ [])
    ≡ (some (on 2028 5 5), []) ∷ (none, date_ambiguous) ∷ []
unfolding parse_date from_iso iso number_in run_of after without_tail strip lstrip rstrip lower
    one_of from_numeric numeric real from_day_and_month number_from build day_and_month with_year
    from_named in_front day_month days_before word_in month_day year_at_end day_year month_of
fifth_of_may = refl

parse_date-IsAnswer_example : IsAnswer (parse_date today (txt "28/07"))
parse_date-IsAnswer_example = parse_date-IsAnswer today (txt "28/07")

abbrev july : Date
july = on 2028 7 28

with_year-dated_example :
    (july.day ≡ 28)
    × (july.month ≡ 7)
    × (((july.year ≡ today.year) × (day_of_year today ≤ day_of_year july + 60))
        ⊎ ((july.year ≡ today.year + 1)
            × (guess : Date) × (build 2027 7 28 ≡ some guess)
            × (day_of_year guess + 60 < day_of_year today)))
unfolding with_year in_front build days_before
with_year-dated_example = with_year-dated 28 7 today july refl

-- 9074729 is an IMO number, and 9704729 is none.
checks-swap_at_example : checks (swap_at 1 (txt "9074729")) ≡ false
unfolding checks weighted swap_at
checks-swap_at_example = checks-swap_at b'9' b'0' b'7' b'4' b'7' b'2' b'9' 1 refl refl (λ e. cc)

abbrev written : HeaderField → Option Text
written HeaderField.imo = some (txt "IMO 9074792")
written HeaderField.currency = some (txt "dhs")
written HeaderField.eta = some (txt "03/04")
written HeaderField.rfq_type = some (txt "galley")
written _ = none

normalize_header-is_settled_example :
    is_settled HeaderField.eta (normalize_header today written) ≡ true
unfolding strip
normalize_header-is_settled_example =
    normalize_header-is_settled today written HeaderField.eta (λ e. cc) (txt "03/04", refl, refl)
