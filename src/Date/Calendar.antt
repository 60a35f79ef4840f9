-- ===== src/Date/Calendar.antt =====
-- The Gregorian calendar, independently of base/Date.cc: the days that exist and the day that follows.
use cobra.Base.{ℕ, ◌+◌, ◌%◌, ◌≤◌, Bool, not, ◌||◌, ◌&&◌, ltb, ◌==◌, if◌then◌else◌}
use cobra.Date.{YearMonthDay, ymd}

unfoldable pub is_leap : ℕ → Bool
is_leap y = (y % 4 == 0) && (not (y % 100 == 0) || (y % 400 == 0))

unfoldable pub days_in_month : ℕ → ℕ → ℕ
days_in_month y m =
    if m == 2
    then (if is_leap y then 29 else 28)
    else if (m == 4) || ((m == 6) || ((m == 9) || (m == 11)))
    then 30
    else 31

pub record IsCivil (t : YearMonthDay) : Type 0 where
  pub month_from : 1 ≤ t.month
  pub month_to : t.month ≤ 12
  pub day_from : 1 ≤ t.day
  pub day_to : t.day ≤ days_in_month t.year t.month

unfoldable pub following : YearMonthDay → YearMonthDay
following t =
    if ltb t.day (days_in_month t.year t.month)
    then ymd t.year t.month (t.day + 1)
    else if ltb t.month 12
    then ymd t.year (t.month + 1) 1
    else ymd (t.year + 1) 1 1
