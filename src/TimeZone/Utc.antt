-- ===== src/TimeZone/Utc.antt =====
-- toUtcTime and fromUtcTime of base/TimeZone.cc are inverse.
use cobra.Base.{
  ℕ, zero, suc, ◌+◌, ◌-◌, ◌*◌, ◌/◌, ◌%◌, ◌^◌, ◌≤◌, ◌<◌, ◌≡◌, refl, ap, ap₂, ◌∙◌, Bool, true, false,
  some, ◌>>=◌, leb, ◌==◌, ℤ, pos, negsuc, negated, minus, ◌+ℤ◌, ◌-ℤ◌, arith, Bool-cases, inl, inr,
}
use cobra.Date.{IsShort, get_julian_day_number, get_year_month_day, julian_day_of_1970_01_01}
use cobra.Date.RoundTrip.{first_number, get_julian_day_number-get_year_month_day}
use cobra.TimeZone.{
  to_int, day_of, second_of_day, seconds_per_day, natural, to_utc_time, times, from_fields,
  from_utc_time,
}

-- The day of 1970-01-01.
abbrev epoch : ℕ
epoch = 2440588

-- No earlier than the first second of the year 1, and no later than the last day that toUtcTime can turn
-- into a date without an overflow, about the year 1465500.
abbrev pub InRange : ℤ → Type 0
InRange (pos n) = n / 86400 + 2472632 < 2 ^ 29
InRange (negsuc n) = suc n ≤ 62135596800

to_int-pos : (n : ℕ) → n < 2 ^ 31 → to_int (pos n) ≡ pos n
to_int-pos n h = ground arith

to_int-negated : (n : ℕ) → n < 2 ^ 31 → to_int (negated n) ≡ negated n
to_int-negated zero h = refl
to_int-negated (suc n) h = ground arith

minus_pos : (a b d : ℕ) → a ≡ b + d → minus a b ≡ pos d
minus_pos a b d e = ground arith

minus-negated : (a b d : ℕ) → a + d ≡ b → minus a b ≡ negated d
minus-negated a b zero e = ground arith
minus-negated a b (suc d) e = ground arith

negated_plus : (d e : ℕ) → d ≤ e → negated d +ℤ pos e ≡ pos (e - d)
negated_plus zero e h = ap pos (omega arith)
negated_plus (suc d) e h = minus_pos e (suc d) (e - suc d) (omega arith)

negated_less : (d e : ℕ) → e ≤ d → negated d +ℤ pos e ≡ negated (d - e)
negated_less zero zero h = refl
negated_less zero (suc e) h = absurd (omega arith)
negated_less (suc d) e h = minus-negated e (suc d) (suc d - e) (omega arith)

negated_before : (d : ℕ) → negated d -ℤ pos 1 ≡ negated (suc d)
negated_before zero = refl
negated_before (suc d) = ap negsuc (omega arith)

times-negated : (k d : ℕ) → times k (negated d) ≡ negated (k * d)
times-negated k zero = rw (zero_product k) refl
  where
    zero_product : (k : ℕ) → k * 0 ≡ 0
    zero_product k = omega arith
times-negated k (suc d) = refl

-- A time apart: the number of its day, and its second of the day.
record Parts (t : ℤ) (n : ℕ) : Type 0 where
  day : day_of t +ℤ pos epoch ≡ pos n
  later : first_number ≤ n
  short : IsShort n
  whole : times seconds_per_day (minus n epoch) +ℤ pos (second_of_day t) ≡ t
  inside : second_of_day t < 86400

-- A time before 1970 of which the day, rounded down, is `d` days before.
Parts-before :
    (n d s : ℕ)
    → day_of (negsuc n) ≡ negated d
    → second_of_day (negsuc n) ≡ s
    → suc n + s ≡ 86400 * d
    → s < 86400
    → suc n ≤ 62135596800
    → Parts (negsuc n) (epoch - d)
Parts-before n d s e f w l from = record {
  day = ap (λ z. z +ℤ pos epoch) e ∙ negated_plus d epoch (omega arith);
  later = omega arith;
  short = omega arith;
  whole =
      ap (λ z. times seconds_per_day z +ℤ pos (second_of_day (negsuc n)))
        (minus-negated (epoch - d) epoch d (omega arith))
      ∙ ap (λ z. z +ℤ pos (second_of_day (negsuc n))) (times-negated seconds_per_day d)
      ∙ ap (λ r. negated (86400 * d) +ℤ pos r) f
      ∙ negated_less (86400 * d) s (omega arith)
      ∙ ap negated whole_days;
  inside = omega (arith, f, l);
}
  where
    whole_days : 86400 * d - s ≡ suc n
    whole_days = omega arith

parts : (t : ℤ) → InRange t → (n : ℕ) × Parts t n
parts (pos n) from = (
  n / 86400 + epoch,
  record {
    day = ap (λ z. z +ℤ pos epoch) (to_int-pos (n / 86400) (omega (arith, from)));
    later = omega arith;
    short = omega (arith, from);
    whole =
        ap (λ z. times seconds_per_day z +ℤ pos (n % 86400))
          (minus_pos (n / 86400 + epoch) epoch (n / 86400) (omega arith))
        ∙ ap pos (omega arith);
    inside = omega arith;
  },
)
parts (negsuc n) from = elim (Bool-cases (suc n % 86400 == 0)) [
  | inl e ↦ (
    epoch - suc n / 86400,
    Parts-before n (suc n / 86400) 0 (rw e (to_int-negated (suc n / 86400) (omega (arith, from))))
        (rw e refl) (even e) (omega arith) from,
  )
  | inr e ↦ (
    epoch - suc (suc n / 86400),
    Parts-before n (suc (suc n / 86400)) (86400 - suc n % 86400)
        (rw e (
          ap (λ z. z -ℤ pos 1) (to_int-negated (suc n / 86400) (omega (arith, from)))
          ∙ negated_before (suc n / 86400)))
        (rw e refl) (odd e) (small e) from,
  )
]
  where
    even : (suc n % 86400 == 0) ≡ true → suc n + 0 ≡ 86400 * (suc n / 86400)
    even e = ground arith

    odd :
        (suc n % 86400 == 0) ≡ false → suc n + (86400 - suc n % 86400) ≡ 86400 * suc (suc n / 86400)
    odd e = omega arith

    small : (suc n % 86400 == 0) ≡ false → 86400 - suc n % 86400 < 86400
    small e = ground arith

year_back : (y : ℕ) → natural (minus y 1900 +ℤ pos 1900) ≡ some y
year_back y = elim (Bool-cases (leb 1900 y)) [
  | inl e ↦
      ap (λ z. natural (z +ℤ pos 1900)) (minus_pos y 1900 (y - 1900) (late e))
      ∙ ap some (omega (arith, late e))
  | inr e ↦
      ap (λ z. natural (z +ℤ pos 1900)) (minus-negated y 1900 (1900 - y) (early e))
      ∙ ap natural (negated_plus (1900 - y) 1900 (omega arith))
      ∙ ap some (omega (arith, early e))
]
  where
    late : leb 1900 y ≡ true → y ≡ 1900 + (y - 1900)
    late e = ground arith

    early : leb 1900 y ≡ false → y + (1900 - y) ≡ 1900
    early e = ground arith

epoch_lem : julian_day_of_1970_01_01 ≡ epoch
unfolding get_julian_day_number
epoch_lem = refl

from_fields_lem :
    (y m d hour minute s n r : ℕ) (t : ℤ)
    → get_julian_day_number y m d ≡ n
    → hour * 3600 + minute * 60 + s ≡ r
    → times seconds_per_day (minus n epoch) +ℤ pos r ≡ t
    → from_fields y m d hour minute s ≡ t
unfolding from_fields
from_fields_lem y m d hour minute s n r t e f w =
    ap₂ (λ a b. times seconds_per_day (minus a b) +ℤ pos (hour * 3600 + minute * 60 + s)) e
      epoch_lem
    ∙ ap (λ a. times seconds_per_day (minus n epoch) +ℤ pos a) f
    ∙ w

day_natural :
    (t : ℤ) (n : ℕ) → Parts t n → natural (day_of t +ℤ pos julian_day_of_1970_01_01) ≡ some n
day_natural t n p = ap (λ a. natural (day_of t +ℤ pos a)) epoch_lem ∙ ap natural p.day

clock : (s : ℕ) → s / 60 / 60 * 3600 + s / 60 % 60 * 60 + s % 60 ≡ s
clock s = omega arith

-- A time from the year 1 to about the year 1465500, where no computation leaves an int, that toUtcTime
-- turns into a date and a time of the day, with or without the day of the year, is what fromUtcTime
-- makes of these.
pub from_utc_time-to_utc_time :
    (t : ℤ) (yday : Bool) → InRange t → (to_utc_time t yday >>= from_utc_time) ≡ some t
unfolding to_utc_time from_utc_time
from_utc_time-to_utc_time t yday from =
    let (n, p) = parts t from in
    let (v, e) = get_julian_day_number-get_year_month_day n p.later p.short in
    rw (day_natural t n p, year_back (get_year_month_day n).year)
      (ap some (
        from_fields_lem (get_year_month_day n).year ((get_year_month_day n).month - 1 + 1)
          (get_year_month_day n).day (second_of_day t / 60 / 60) (second_of_day t / 60 % 60)
          (second_of_day t % 60) n (second_of_day t) t
          (ap (λ m. get_julian_day_number (get_year_month_day n).year m (get_year_month_day n).day)
              (month_back _ v.month_from)
            ∙ e)
          (clock (second_of_day t)) p.whole))
  where
    month_back : (m : ℕ) → 1 ≤ m → m - 1 + 1 ≡ m
    month_back m h = omega arith
