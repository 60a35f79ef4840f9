-- ===== src/Date.antt =====
-- base/Date.h and base/Date.cc: a day of the Gregorian calendar as a Julian day number. Numbers are
-- natural: for a month up to 14 and a year from 0 on, and for the day numbers of such years, no
-- difference in the source is negative. getJulianDayNumber stays within an int up to the year 5,000,000,
-- getYearMonthDay for the day numbers that IsShort describes, which end in the year 1465500 or so; beyond
-- these the source overflows, which is undefined, and the definitions say nothing of it.
pub mod Calendar
pub mod Blocks
pub mod RoundTrip
mod Tests
use cobra.Base.{ℕ, ◌+◌, ◌-◌, ◌*◌, ◌/◌, ◌%◌, ◌^◌, ◌<◌, Bool, ltb}

-- Date::YearMonthDay
pub record YearMonthDay : Type 0 where
  pub year : ℕ
  pub month : ℕ
  pub day : ℕ

abbrev pub ymd : ℕ → ℕ → ℕ → YearMonthDay
ymd y m d = record { year = y; month = m; day = d }

-- detail::getJulianDayNumber
unfoldable pub get_julian_day_number : ℕ → ℕ → ℕ → ℕ
get_julian_day_number year month day =
    let a = (14 - month) / 12 in
    let y = year + 4800 - a in
    let m = month + 12 * a - 3 in
    day + (153 * m + 2) / 5 + y * 365 + y / 4 - y / 100 + y / 400 - 32045

-- The day numbers for which no product in getYearMonthDay leaves an int: 4 * a + 3 is the largest.
abbrev pub IsShort : ℕ → Type 0
IsShort n = 4 * (n + 32044) + 3 < 2 ^ 31

-- detail::getYearMonthDay, of a day number for which IsShort holds.
unfoldable pub get_year_month_day : ℕ → YearMonthDay
get_year_month_day julian_day_number =
    let a = julian_day_number + 32044 in
    let b = (4 * a + 3) / 146097 in
    let c = a - b * 146097 / 4 in
    let d = (4 * c + 3) / 1461 in
    let e = c - 1461 * d / 4 in
    let m = (5 * e + 2) / 153 in
    record {
      day = e - (153 * m + 2) / 5 + 1;
      month = m + 3 - 12 * (m / 10);
      year = b * 100 + d + m / 10 - 4800;
    }

pub record Date : Type 0 where
  pub julian_day_number : ℕ

-- Date::Date
abbrev pub new : Date
new = record { julian_day_number = 0 }

abbrev pub of_ymd : ℕ → ℕ → ℕ → Date
of_ymd y m d = record { julian_day_number = get_julian_day_number y m d }

abbrev pub of_number : ℕ → Date
of_number n = record { julian_day_number = n }

-- Date::kJulianDayOf1970_01_01
abbrev pub julian_day_of_1970_01_01 : ℕ
julian_day_of_1970_01_01 = get_julian_day_number 1970 1 1

-- Date::valid
abbrev pub is_valid : Date → Bool
is_valid d = ltb 0 d.julian_day_number

-- Date::yearMonthDay
abbrev pub year_month_day : Date → YearMonthDay
year_month_day d = get_year_month_day d.julian_day_number

-- Date::weekDay
abbrev pub week_day : Date → ℕ
week_day d = (d.julian_day_number + 1) % 7
