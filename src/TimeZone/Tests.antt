-- ===== src/TimeZone/Tests.antt =====
-- A zone with one hour of daylight saving time from 1000 to 2000, and times in UTC: base/TimeZone.cc.
use cobra.Base.{
  ◌≡◌, refl, true, false, [], ◌∷◌, none, some, ◌>>=◌, ℤ, pos, negsuc, replicate, arith,
}
use cobra.Date.{get_julian_day_number, get_year_month_day}
use cobra.TimeZone.{Transition, Localtime, Data, find_localtime, to_utc_time, from_utc_time}
use cobra.TimeZone.Find.{in_force, find_localtime-in_force}
use cobra.TimeZone.Utc.{from_utc_time-to_utc_time}
use cobra.TimeZone.File.{new, read_time_zone_file}
use cobra.TimeZone.Image.{IsFile, image, new-image}

abbrev standard : Localtime
standard = record { gmt_offset = pos 3600; is_dst = false; arrb_idx = 0 }

abbrev summer : Localtime
summer = record { gmt_offset = pos 7200; is_dst = true; arrb_idx = 4 }

abbrev zone : Data
zone = record {
  transitions =
      record { gmttime = negsuc 499; localtime = pos 3100; localtime_idx = 0 }
      ∷ record { gmttime = pos 1000; localtime = pos 8200; localtime_idx = 1 }
      ∷ record { gmttime = pos 20000; localtime = pos 23600; localtime_idx = 0 }
      ∷ [];
  localtimes = standard ∷ summer ∷ [];
  abbreviation = 67 ∷ 69 ∷ 84 ∷ 0 ∷ 67 ∷ 69 ∷ 83 ∷ 84 ∷ 0 ∷ [];
}

abbrev sentry : ℤ → Transition
sentry t = record { gmttime = t; localtime = pos 0; localtime_idx = 0 }

find_test : find_localtime zone (sentry (pos 1500)) true ≡ some summer
unfolding find_localtime
find_test = refl

find_late_test : find_localtime zone (sentry (pos 30000)) true ≡ some standard
unfolding find_localtime
find_late_test = refl

find_localtime-in_force_example :
    find_localtime zone (sentry (pos 1500)) true ≡ in_force true (pos 1500) zone
find_localtime-in_force_example =
    find_localtime-in_force zone (sentry (pos 1500)) true
      ((refl, (refl, tt)), ((refl, tt), (tt, tt)))

-- 1969-12-31 23:59:59
utc_test :
    to_utc_time (negsuc 0) false
    ≡ some (record {
      year = pos 69;
      mon = 11;
      mday = 31;
      hour = 23;
      min = 59;
      sec = 59;
      wday = 3;
      yday = 0;
      isdst = false;
      gmtoff = pos 0;
    })
unfolding to_utc_time get_julian_day_number get_year_month_day
utc_test = refl

from_utc_time-to_utc_time_example :
    (to_utc_time (negsuc 86400) true >>= from_utc_time) ≡ some (negsuc 86400)
from_utc_time-to_utc_time_example = from_utc_time-to_utc_time (negsuc 86400) true (omega arith)

zone-IsFile : IsFile zone
zone-IsFile = record {
  transitions = (
    omega arith,
    (standard, refl, refl),
    (omega arith, (summer, refl, refl), (omega arith, (standard, refl, refl), tt)),
  );
  localtimes = (omega arith, (omega arith, tt));
  timecnt = omega arith;
  typecnt = omega arith;
  charcnt = omega arith;
}

new-image_example : new (some (image 50 (replicate 15 0) zone (84 ∷ []))) ≡ some zone
new-image_example = new-image 50 (replicate 15 0) zone (84 ∷ []) refl zone-IsFile

-- A file that cannot be opened leaves a zone without types, of which no time has an offset.
missing_test : (new none >>= (λ z. find_localtime z (sentry (pos 0)) true)) ≡ none
unfolding new read_time_zone_file find_localtime
missing_test = refl
