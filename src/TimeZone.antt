-- ===== src/TimeZone.antt =====
-- base/TimeZone.h and base/TimeZone.cc: the offsets of a time zone, and civil time in UTC. A time_t is an
-- integer that does not overflow. An index out of range, which is undefined in C++, is `none`.
pub mod Order
pub mod Find
pub mod Utc
pub mod File
pub mod Image
mod Tests
use cobra.Base.{
  ℕ, zero, suc, ◌+◌, ◌-◌, ◌*◌, ◌/◌, ◌%◌, ◌^◌, Bool, true, false, not, ◌&&◌, List, [], ◌∷◌, Option,
  none, some, if◌then◌else◌, check, ◌>>=◌, ◌>>◌, get_elem?, ◌==◌, ℤ, pos, negsuc, negated, minus,
  ◌+ℤ◌, ◌-ℤ◌, ltb, ltb_ℤ, eqb_ℤ,
}
use cobra.Date.{
  Date, YearMonthDay, of_ymd, of_number, year_month_day, week_day, julian_day_of_1970_01_01,
}

pub record Transition : Type 0 where
  pub gmttime : ℤ
  pub localtime : ℤ
  pub localtime_idx : ℕ

pub record Localtime : Type 0 where
  pub gmt_offset : ℤ
  pub is_dst : Bool
  pub arrb_idx : ℕ

-- Comp, by its flag `compareGmt`.
abbrev pub key : Bool → Transition → ℤ
key compare_gmt t = if compare_gmt then t.gmttime else t.localtime

abbrev pub comp : Bool → Transition → Transition → Bool
comp compare_gmt lhs rhs = ltb_ℤ (key compare_gmt lhs) (key compare_gmt rhs)

abbrev pub equal : Bool → Transition → Transition → Bool
equal compare_gmt lhs rhs = eqb_ℤ (key compare_gmt lhs) (key compare_gmt rhs)

-- TimeZone::Data
pub record Data : Type 0 where
  pub transitions : List Transition
  pub localtimes : List Localtime
  pub abbreviation : List ℕ

-- std::lower_bound, the index of the first element that is not before the sentry, and vector::back.
abbrev pub lower_bound : Bool → Transition → List Transition → ℕ
lower_bound gmt sentry [] = 0
lower_bound gmt sentry (t ∷ ts) = if comp gmt t sentry then suc (lower_bound gmt sentry ts) else 0

abbrev pub back : List Transition → Option Transition
back [] = none
back (t ∷ []) = some t
back (t ∷ u ∷ ts) = back (u ∷ ts)

-- The transition that findLocaltime takes the offset of: at the lower bound, the one before it, or the
-- last.
abbrev pub step_back : List Transition → ℕ → Option Transition
step_back ts zero = none
step_back ts (suc i) = get_elem? ts i

abbrev pub chosen_at : Bool → Transition → List Transition → ℕ → Option Transition
chosen_at gmt sentry ts i = elim (get_elem? ts i) [
  | some t ↦ if equal gmt sentry t then some t else step_back ts i
  | none ↦ back ts
]

abbrev pub chosen : Bool → Transition → List Transition → Option Transition
chosen gmt sentry ts = chosen_at gmt sentry ts (lower_bound gmt sentry ts)

-- findLocaltime
unfoldable pub find_localtime : Data → Transition → Bool → Option Localtime
find_localtime zone sentry gmt = elim (zone.transitions) [
  | [] ↦ get_elem? zone.localtimes 0
  | t ∷ ts ↦
      let rest : Option Localtime = (do
        u ← chosen gmt sentry (t ∷ ts)
        get_elem? zone.localtimes u.localtime_idx) in
      if comp gmt sentry t then get_elem? zone.localtimes 0 else rest
]

-- The fields of struct tm; the zone's name is left out but for its place among the abbreviations.
pub record Tm : Type 0 where
  pub year : ℤ
  pub mon : ℕ
  pub mday : ℕ
  pub hour : ℕ
  pub min : ℕ
  pub sec : ℕ
  pub wday : ℕ
  pub yday : ℕ
  pub isdst : Bool
  pub gmtoff : ℤ

abbrev pub no_tm : Tm
no_tm = record {
  year = pos 0;
  mon = 0;
  mday = 0;
  hour = 0;
  min = 0;
  sec = 0;
  wday = 0;
  yday = 0;
  isdst = false;
  gmtoff = pos 0;
}

-- fillHMS
abbrev pub fill_hms : ℕ → Tm → Tm
fill_hms seconds utc = record utc {
  sec = seconds % 60;
  min = seconds / 60 % 60;
  hour = seconds / 60 / 60;
}

-- kSecondsPerDay
abbrev pub seconds_per_day : ℕ
seconds_per_day = 24 * 60 * 60

-- TimeZone::toLocalTime, with gmtime_r as a parameter.
unfoldable pub to_local_time : (ℤ → Tm) → Data → ℤ → Option Tm
to_local_time gmtime_r zone seconds = do
  local ←
      find_localtime zone (record { gmttime = seconds; localtime = pos 0; localtime_idx = 0 }) true
  some (record (gmtime_r (seconds +ℤ local.gmt_offset)) {
    isdst = local.is_dst;
    gmtoff = local.gmt_offset;
  })

-- The hour that fromLocalTime goes back when the daylight saving time that it is given is not in force.
abbrev pub is_ambiguous : Tm → Tm → Bool
is_ambiguous local_tm try_tm =
    not try_tm.isdst && ((try_tm.hour == local_tm.hour) && (try_tm.min == local_tm.min))

-- TimeZone::fromLocalTime, with timegm as a parameter.
unfoldable pub from_local_time : (ℤ → Tm) → (Tm → ℤ) → Data → Tm → Option ℤ
from_local_time gmtime_r timegm zone local_tm = do
  let seconds : ℤ = timegm local_tm
  local ←
      find_localtime zone (record { gmttime = pos 0; localtime = seconds; localtime_idx = 0 }) false
  let retried : Option ℤ = (do
    try_tm ← to_local_time gmtime_r zone (seconds -ℤ local.gmt_offset)
    some (if is_ambiguous local_tm try_tm then seconds -ℤ pos 3600 else seconds))
  seconds' ← if local_tm.isdst then retried else some seconds
  some (seconds' -ℤ local.gmt_offset)

-- static_cast<int>, which keeps the lowest 32 bits.
abbrev pub to_int : ℤ → ℤ
to_int (pos n) = if ltb (n % 2 ^ 32) (2 ^ 31) then pos (n % 2 ^ 32) else minus (n % 2 ^ 32) (2 ^ 32)
to_int (negsuc n) =
    if ltb (n % 2 ^ 32) (2 ^ 31) then negsuc (n % 2 ^ 32) else pos (2 ^ 32 - 1 - n % 2 ^ 32)

-- secondsSinceEpoch divided by a day, rounded towards zero as in C and cast to int, and the remainder
-- with its sign, then made positive.
abbrev pub day_of : ℤ → ℤ
day_of (pos n) = to_int (pos (n / seconds_per_day))
day_of (negsuc n) =
    if suc n % seconds_per_day == 0
    then to_int (negated (suc n / seconds_per_day))
    else to_int (negated (suc n / seconds_per_day)) -ℤ pos 1

abbrev pub second_of_day : ℤ → ℕ
second_of_day (pos n) = n % seconds_per_day
second_of_day (negsuc n) =
    if suc n % seconds_per_day == 0 then 0 else seconds_per_day - suc n % seconds_per_day

abbrev pub natural : ℤ → Option ℕ
natural (pos n) = some n
natural (negsuc n) = none

-- TimeZone::toUtcTime, from the first day of the Julian day count on to the last for which
-- Date::yearMonthDay is modelled.
unfoldable pub to_utc_time : ℤ → Bool → Option Tm
to_utc_time seconds_since_epoch yday = do
  number ← natural (day_of seconds_since_epoch +ℤ pos julian_day_of_1970_01_01)
  let date : Date = of_number number
  let ymd : YearMonthDay = year_month_day date
  let start_of_year : Date = of_ymd ymd.year 1 1
  some (record (fill_hms (second_of_day seconds_since_epoch) no_tm) {
    year = minus ymd.year 1900;
    mon = ymd.month - 1;
    mday = ymd.day;
    wday = week_day date;
    yday = if yday then date.julian_day_number - start_of_year.julian_day_number else 0;
  })

abbrev pub times : ℕ → ℤ → ℤ
times k (pos n) = pos (k * n)
times k (negsuc n) = negated (k * suc n)

-- TimeZone::fromUtcTime of six numbers
unfoldable pub from_fields : ℕ → ℕ → ℕ → ℕ → ℕ → ℕ → ℤ
from_fields year month day hour minute seconds =
    let date : Date = of_ymd year month day in
    times seconds_per_day (minus date.julian_day_number julian_day_of_1970_01_01)
    +ℤ pos (hour * 3600 + minute * 60 + seconds)

-- TimeZone::fromUtcTime of a struct tm
unfoldable pub from_utc_time : Tm → Option ℤ
from_utc_time utc = do
  year ← natural (utc.year +ℤ pos 1900)
  some (from_fields year (utc.mon + 1) utc.mday utc.hour utc.min utc.sec)
