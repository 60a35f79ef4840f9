-- ===== src/Date/RoundTrip.antt =====
-- base/Date.cc getYearMonthDay undoes getJulianDayNumber, and day numbers follow the calendar.
use cobra.Base.{
  ℕ, zero, suc, ◌+◌, ◌-◌, ◌*◌, ◌/◌, ◌%◌, ◌≤◌, ◌<◌, ◌≡◌, ◌≢◌, refl, ap, ap₂, sym, subst, ◌∙◌, arith,
  ◌⊎◌, inl, inr, true, false, ltb, Bool-cases, ℕ_discrete,
}
use cobra.Date.{YearMonthDay, IsShort, ymd, get_julian_day_number, get_year_month_day}
use cobra.Date.Calendar.{is_leap, days_in_month, IsCivil, following}
use cobra.Date.Blocks.{century, century_rest, year, year_rest}

-- The day of a year that starts in March, from 0, for month `mm` of it.
abbrev march_day : ℕ → ℕ → ℕ
march_day mm d = (153 * mm + 2) / 5 + d - 1

abbrev shift : ℕ → ℕ
shift m = (14 - m) / 12

leap_cases : (y : ℕ) → is_leap y ≡ true → (y % 4 ≡ 0) × ((y % 100 ≡ 0) → y % 400 ≡ 0)
unfolding is_leap
leap_cases y e = (ground arith, λ h. ground arith)

-- The month of the year that starts in March.
abbrev march_month : ℕ → ℕ
march_month m = m + 12 * shift m - 3

days_in_month-le : (y m : ℕ) → days_in_month y m ≤ 31
unfolding days_in_month
days_in_month-le y m = ground arith

days_in_february :
    (y m : ℕ) → m ≡ 2 → (days_in_month y m ≡ 28) ⊎ ((days_in_month y m ≡ 29) × (is_leap y ≡ true))
unfolding days_in_month
days_in_february y m e = elim (Bool-cases (is_leap y)) [
  | inl leap ↦ inr (ground arith, leap)
  | inr common ↦ inl (ground arith)
]

days_in_short : (y m : ℕ) → (m ≡ 4) ⊎ ((m ≡ 6) ⊎ ((m ≡ 9) ⊎ (m ≡ 11))) → days_in_month y m ≡ 30
unfolding days_in_month
days_in_short y m (inl e) = ground arith
days_in_short y m (inr (inl e)) = ground arith
days_in_short y m (inr (inr (inl e))) = ground arith
days_in_short y m (inr (inr (inr e))) = ground arith

-- Only the 29th of February is day 365.
march_day_range :
    (y m d : ℕ)
    → 1 ≤ m
    → m ≤ 12
    → d ≤ days_in_month y m
    → (march_day (march_month m) d ≤ 364)
      ⊎ ((march_day (march_month m) d ≡ 365) × (m ≡ 2) × (is_leap y ≡ true))
march_day_range y m d from to fits = elim (ℕ_discrete m 2) [
  | yes feb ↦ elim (days_in_february y m feb) [
    | inl e ↦ inl (omega arith)
    | inr (e, leap) ↦ elim (ℕ_discrete d 29) [
      | yes last ↦ inr (omega arith, feb, leap)
      | no ne ↦ inl (omega arith)
    ]
  ]
  | no ne ↦ inl (omega (arith, days_in_month-le y m))
]

month_of_march_day :
    (y m d : ℕ)
    → 1 ≤ m
    → m ≤ 12
    → 1 ≤ d
    → d ≤ days_in_month y m
    → (5 * march_day (march_month m) d + 2) / 153 ≡ march_month m
unfolding days_in_month
month_of_march_day y m d from to pos_d fits = ground arith

-- getYearMonthDay of a day number that is taken apart into century, year and day.
parts :
    (n q r e mm : ℕ)
    → n + 32044 ≡ 36524 * q + q / 4 + (365 * r + r / 4 + e)
    → (365 * r + r / 4 + e ≤ 36523) ⊎ ((365 * r + r / 4 + e ≡ 36524) × (q % 4 ≡ 3))
    → (e ≤ 364) ⊎ ((e ≡ 365) × (r % 4 ≡ 3))
    → (5 * e + 2) / 153 ≡ mm
    → get_year_month_day n
      ≡ ymd (q * 100 + r + mm / 10 - 4800) (mm + 3 - 12 * (mm / 10)) (e - (153 * mm + 2) / 5 + 1)
unfolding get_year_month_day
parts n q r e mm whole fits_q fits_r month =
    rw
      (
        whole,
        century q (365 * r + r / 4 + e) fits_q,
        century_rest q (365 * r + r / 4 + e),
        year r e fits_r,
        year_rest r e,
        month,
      )
      refl

ymd_eq : {y y' m m' d d' : ℕ} → y ≡ y' → m ≡ m' → d ≡ d' → ymd y m d ≡ ymd y' m' d'
ymd_eq a b c = λ i. ymd (a i) (b i) (c i)

-- In natural numbers, whatever the size.
restored :
    (t : YearMonthDay)
    → IsCivil t
    → get_year_month_day (get_julian_day_number t.year t.month t.day) ≡ t
restored t v =
    parts (get_julian_day_number t.year t.month t.day) (y / 100) (y % 100) e (march_month t.month)
      whole fits_q fits_r
      (month_of_march_day t.year t.month t.day v.month_from v.month_to v.day_from v.day_to)
    ∙ ymd_eq (omega (arith, v.month_from, v.month_to)) (omega (arith, v.month_from, v.month_to))
        (omega (arith, v.day_from))
  where
    y : ℕ
    y = t.year + 4800 - shift t.month

    e : ℕ
    e = march_day (march_month t.month) t.day

    whole :
        get_julian_day_number t.year t.month t.day + 32044
        ≡ 36524 * (y / 100) + y / 100 / 4 + (365 * (y % 100) + y % 100 / 4 + e)
    whole = unfold get_julian_day_number in omega (arith, v.month_from, v.month_to, v.day_from)

    fits_r : (e ≤ 364) ⊎ ((e ≡ 365) × (y % 100 % 4 ≡ 3))
    fits_r = elim (march_day_range t.year t.month t.day v.month_from v.month_to v.day_to) [
      | inl h ↦ inl h
      | inr (h, feb, leap) ↦ inr (h, omega (arith, (leap_cases t.year leap).0))
    ]

    fits_q :
        (365 * (y % 100) + y % 100 / 4 + e ≤ 36523)
        ⊎ ((365 * (y % 100) + y % 100 / 4 + e ≡ 36524) × (y / 100 % 4 ≡ 3))
    fits_q = elim (march_day_range t.year t.month t.day v.month_from v.month_to v.day_to) [
      | inl h ↦ inl (omega (arith))
      | inr (h, feb, leap) ↦ elim (ℕ_discrete (y % 100) 99) [
        | yes last ↦ inr (omega arith, omega (arith, (leap_cases t.year leap).1 (omega arith)))
        | no ne ↦ inl (omega (arith, (leap_cases t.year leap).0))
      ]
    ]

-- A valid date whose Julian day number is short enough for the int that getYearMonthDay computes with, as
-- all are to about the year 1465500, comes back as it was from its number, leap days and the exceptions of
-- the centuries included.
pub get_year_month_day-get_julian_day_number :
    (t : YearMonthDay)
    → IsCivil t
    → IsShort (get_julian_day_number t.year t.month t.day)
    → get_year_month_day (get_julian_day_number t.year t.month t.day) ≡ t
get_year_month_day-get_julian_day_number t v short = restored t v

common_cases : (y : ℕ) → is_leap y ≡ false → ((y % 4 ≡ 0) → (y % 100 ≡ 0) × (y % 400 ≢ 0))
unfolding is_leap
common_cases y e h = (ground arith, ground arith)

leap_february :
    (y : ℕ)
    → (y % 4 ≡ 0) × ((y % 100 ≡ 0) → y % 400 ≡ 0)
    → get_julian_day_number y 3 1 ≡ get_julian_day_number y 2 29 + 1
unfolding get_julian_day_number
leap_february y c = elim (ℕ_discrete (y % 100) 0) [
  | yes h ↦ omega (arith, c.0, c.1 h)
  | no h ↦ omega (arith, c.0)
]

common_february :
    (y : ℕ)
    → ((y % 4 ≡ 0) → (y % 100 ≡ 0) × (y % 400 ≢ 0))
    → get_julian_day_number y 3 1 ≡ get_julian_day_number y 2 28 + 1
unfolding get_julian_day_number
common_february y c = elim (ℕ_discrete (y % 4) 0) [
  | yes h ↦ omega (arith, (c h).0, (c h).1)
  | no h ↦ omega arith
]

february : (y : ℕ) → get_julian_day_number y 3 1 ≡ get_julian_day_number y 2 (days_in_month y 2) + 1
unfolding days_in_month
february y = elim (Bool-cases (is_leap y)) [
  | inl leap ↦ rw leap (leap_february y (leap_cases y leap))
  | inr common ↦ rw common (common_february y (common_cases y common))
]

-- The first day of a month follows the last day of the month before.
next_month :
    (y m : ℕ)
    → 1 ≤ m
    → m < 12
    → get_julian_day_number y (m + 1) 1 ≡ get_julian_day_number y m (days_in_month y m) + 1
unfolding get_julian_day_number days_in_month
next_month y zero from to = absurd (omega arith)
next_month y (suc zero) from to = omega arith
next_month y (suc (suc zero)) from to = february y
next_month y (suc (suc (suc zero))) from to = omega arith
next_month y (suc (suc (suc (suc zero)))) from to = omega arith
next_month y (suc (suc (suc (suc (suc zero))))) from to = omega arith
next_month y (suc (suc (suc (suc (suc (suc zero)))))) from to = omega arith
next_month y (suc (suc (suc (suc (suc (suc (suc zero))))))) from to = omega arith
next_month y (suc (suc (suc (suc (suc (suc (suc (suc zero)))))))) from to = omega arith
next_month y (suc (suc (suc (suc (suc (suc (suc (suc (suc zero))))))))) from to = omega arith
next_month y (suc (suc (suc (suc (suc (suc (suc (suc (suc (suc zero)))))))))) from to = omega arith
next_month y (suc (suc (suc (suc (suc (suc (suc (suc (suc (suc (suc zero))))))))))) from to =
    omega arith
next_month y (suc (suc (suc (suc (suc (suc (suc (suc (suc (suc (suc (suc m)))))))))))) from to =
    absurd (omega arith)

next_year : (y : ℕ) → get_julian_day_number (y + 1) 1 1 ≡ get_julian_day_number y 12 31 + 1
unfolding get_julian_day_number
next_year y = omega arith

next_day :
    (y m d : ℕ)
    → 1 ≤ m
    → m ≤ 12
    → get_julian_day_number y m (d + 1) ≡ get_julian_day_number y m d + 1
unfolding get_julian_day_number
next_day y m d from to = omega arith

abbrev pub number_of : YearMonthDay → ℕ
number_of t = get_julian_day_number t.year t.month t.day

december : (y m : ℕ) → m ≡ 12 → days_in_month y m ≡ 31
unfolding days_in_month
december y m e = ground arith

-- The Julian day number of the day that follows a valid date in the calendar is the next number: at
-- the end of a month, of February in each kind of year, and of a year.
pub get_julian_day_number-following :
    (t : YearMonthDay) → IsCivil t → number_of (following t) ≡ number_of t + 1
unfolding following
get_julian_day_number-following t v = elim (Bool-cases (ltb t.day (days_in_month t.year t.month))) [
  | inl inside ↦ rw inside (next_day t.year t.month t.day v.month_from v.month_to)
  | inr last ↦
      let at_end : t.day ≡ days_in_month t.year t.month = ground arith in
      elim (Bool-cases (ltb t.month 12)) [
        | inl more ↦
            rw (last, more)
              (next_month t.year t.month v.month_from (ground arith)
                ∙ ap (λ d. get_julian_day_number t.year t.month d + 1) (sym at_end))
        | inr over ↦
            let twelve : t.month ≡ 12 = ground arith in
            rw (last, over)
              (next_year t.year
                ∙ ap₂ (λ m d. get_julian_day_number t.year m d + 1) (sym twelve)
                    (sym (at_end ∙ december t.year t.month twelve)))
      ]
]

days_in_month_pos : (y m : ℕ) → 1 ≤ days_in_month y m
unfolding days_in_month
days_in_month_pos y m = ground arith

following-IsCivil : (t : YearMonthDay) → IsCivil t → IsCivil (following t)
unfolding following
following-IsCivil t v = elim (Bool-cases (ltb t.day (days_in_month t.year t.month))) [
  | inl inside ↦ rw inside (record {
    month_from = v.month_from;
    month_to = v.month_to;
    day_from = omega arith;
    day_to = ground arith;
  })
  | inr last ↦ elim (Bool-cases (ltb t.month 12)) [
    | inl more ↦
        rw (last, more)
          (record {
            month_from = omega arith;
            month_to = ground arith;
            day_from = omega arith;
            day_to = days_in_month_pos t.year (t.month + 1);
          })
    | inr over ↦
        rw (last, over)
          (record {
            month_from = omega arith;
            month_to = omega arith;
            day_from = omega arith;
            day_to = days_in_month_pos (t.year + 1) 1;
          })
  ]
]

-- The day number of 0001-01-01.
abbrev pub first_number : ℕ
first_number = 1721426

first-number_of : number_of (ymd 1 1 1) ≡ first_number
unfolding get_julian_day_number
first-number_of = refl

dated : (k : ℕ) → (t : YearMonthDay) × IsCivil t × (number_of t ≡ first_number + k)
dated zero = (
  ymd 1 1 1,
  record {
    month_from = omega arith;
    month_to = omega arith;
    day_from = omega arith;
    day_to = days_in_month_pos 1 1;
  },
  first-number_of,
)
dated (suc k) =
    let (t, v, e) = dated k in
    (following t, following-IsCivil t v, omega (arith, get_julian_day_number-following t v, e))

-- Each day number from the year 1 on that is short enough is turned into a valid date of which it is the
-- day number.
pub get_julian_day_number-get_year_month_day :
    (n : ℕ)
    → first_number ≤ n
    → IsShort n
    → IsCivil (get_year_month_day n) × (number_of (get_year_month_day n) ≡ n)
get_julian_day_number-get_year_month_day n from short =
    let (t, v, e) = dated (n - first_number) in
    let back : get_year_month_day n ≡ t = ap get_year_month_day (omega (arith, e)) ∙ restored t v in
    (subst IsCivil (sym back) v, ap number_of back ∙ omega (arith, e))
