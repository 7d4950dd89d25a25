-- ===== src/Calendar/Seconds.antt =====
-- The day that mktime of kernel/lib/time.c counts.
use sgos.Prelude.{
  ℕ, ◌+◌, ◌-◌, ◌*◌, ◌/◌, ◌%◌, ◌^◌, ◌≡◌, ◌≤◌, ◌<◌, Bool, true, false, leb, arith, inl, inr,
  Bool-cases, refl, ◌∙◌, if◌then◌else◌,
}
use sgos.Calendar.{Tm, is_leap, mon_yday, leaps_thru, common_yday, leap_yday, mktime, full_year}
use sgos.Calendar.Year.{days_before, days_before_lem, leaps_thru-pred}
use sgos.Calendar.Days.{Date, Dated}

common_early : (leap : Bool) (m : ℕ) → m ≤ 1 → mon_yday leap m ≡ common_yday m
unfolding common_yday leap_yday
common_early true m p = ground arith
common_early false m p = refl

common_late :
    (leap : Bool) (m : ℕ) → 2 ≤ m → mon_yday leap m ≡ common_yday m + (if leap then 1 else 0)
unfolding common_yday leap_yday
common_late true m p = ground arith
common_late false m p = ground arith

-- The leap years since 1970, as mktime counts them.
leaps_1970 :
    (y : ℕ) → 1969 ≤ y → (y - 1968) / 4 - (y - 1900) / 100 + (y - 1600) / 400 + 477 ≡ leaps_thru y
unfolding leaps_thru
leaps_1970 y p = omega arith

-- The sum of mktime, for a year `z` up to whose end the leap years count.
sum_lem :
    (y z c d : ℕ)
    → 1970 ≤ y
    → 1969 ≤ z
    → 1 ≤ d
    → y ≤ z + 1
    → (y - 1970) * 365 + c + (z - 1968) / 4 - (z - 1900) / 100 + (z - 1600) / 400 + d - 1 + 719528
      ≡ y * 365 + c + leaps_thru z + d
sum_lem y z c d p q o b = omega (arith, leaps_1970 z q)

pub day_count :
    (y m d : ℕ)
    → 1970 ≤ y
    → m ≤ 11
    → 1 ≤ d
    → let z = if leb m 1 then y - 1 else y in
      (y - 1970) * 365
        + common_yday m
        + (z - 1968) / 4
        - (z - 1900) / 100
        + (z - 1600) / 400
        + d
        - 1
        + 719528
      ≡ days_before y + mon_yday (is_leap y) m + d
day_count y m d p b o = elim (Bool-cases (leb m 1)) [
  | inl e ↦ rw e (
      sum_lem y (y - 1) (common_yday m) d p (omega arith) o (omega arith)
      ∙ omega (arith, days_before_lem y, common_early (is_leap y) m (ground arith)))
  | inr e ↦ rw e (
      sum_lem y y (common_yday m) d p (omega arith) o (omega arith)
      ∙ omega (
        arith,
        days_before_lem y,
        leaps_thru-pred y (omega arith),
        common_late (is_leap y) m (ground arith),
      ))
]

-- The date of the fields, where they are those of a year from 1970 on.
abbrev pub date : Tm → Date
date t = record { year = t.year + 1900; month = t.mon; day = t.mday }

-- Fields that name a day from 1970 on, by the century of `tm_year`, and a time of day.
pub record IsTm (n : ℕ) (t : Tm) : Type 0 where
  pub from_1970 : 70 ≤ t.year
  pub dated : Dated (719527 + n) (date t)
  pub clock : t.hour * 3600 + t.min * 60 + t.sec < 86400
  pub fits : n * 86400 + (t.hour * 3600 + t.min * 60 + t.sec) < 2 ^ 32

full_year_lem : (t : Tm) → 70 ≤ t.year → t.mon ≤ 11 → full_year t ≡ t.year + 1900
full_year_lem t p q = ground arith

-- mktime of a date `n` days after the first of January 1970, with a time of day, is the number of
-- seconds between them, as long as that is below 2 ^ 32.
pub mktime_lem :
    (n : ℕ) (t : Tm) → IsTm n t → mktime t ≡ n * 86400 + (t.hour * 3600 + t.min * 60 + t.sec)
unfolding mktime
mktime_lem n t h =
    let y = t.year + 1900 in
    let mon : t.mon % 12 ≡ t.mon = omega (arith, h.dated.month_ok) in
    rw (full_year_lem t h.from_1970 h.dated.month_ok, mon)
      (omega (
        arith,
        day_count y t.mon t.mday (omega (arith, h.from_1970)) h.dated.month_ok h.dated.day_low,
        h.dated.sum,
        h.fits,
      ))
