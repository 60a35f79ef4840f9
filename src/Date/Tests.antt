-- ===== src/Date/Tests.antt =====
-- The theorems on dates at the end of a century's February, and the anchor 1970-01-01.
use cobra.Base.{◌+◌, ◌≡◌, refl, arith}
use cobra.Date.{
  YearMonthDay, IsShort, ymd, get_julian_day_number, get_year_month_day, week_day, of_ymd,
}
use cobra.Date.Calendar.{IsCivil, following, days_in_month, is_leap}
use cobra.Date.RoundTrip.{
  number_of, get_year_month_day-get_julian_day_number, get_julian_day_number-following,
  get_julian_day_number-get_year_month_day,
}

anchor : get_julian_day_number 1970 1 1 ≡ 2440588
unfolding get_julian_day_number
anchor = refl

-- It was a Thursday.
anchor_week_day : week_day (of_ymd 1970 1 1) ≡ 4
unfolding get_julian_day_number
anchor_week_day = refl

abbrev leap_day : YearMonthDay
leap_day = ymd 2000 2 29

leap_day-IsCivil : IsCivil leap_day
unfolding days_in_month is_leap
leap_day-IsCivil = omega arith

leap_day-IsShort : IsShort (get_julian_day_number 2000 2 29)
unfolding get_julian_day_number
leap_day-IsShort = omega arith

get_year_month_day-get_julian_day_number_example :
    get_year_month_day (get_julian_day_number 2000 2 29) ≡ leap_day
get_year_month_day-get_julian_day_number_example =
    get_year_month_day-get_julian_day_number leap_day leap_day-IsCivil leap_day-IsShort

get_julian_day_number-following_example : number_of (following leap_day) ≡ number_of leap_day + 1
get_julian_day_number-following_example = get_julian_day_number-following leap_day leap_day-IsCivil

get_julian_day_number-get_year_month_day_example :
    IsCivil (get_year_month_day 2440588) × (number_of (get_year_month_day 2440588) ≡ 2440588)
get_julian_day_number-get_year_month_day_example =
    get_julian_day_number-get_year_month_day 2440588 (omega arith) (omega arith)
