-- ===== src/Calendar/Tests.antt =====
-- Tests of the calendar: the 29th of February 2000, and the last second of 32 bits.
use sgos.Prelude.{ℕ, ◌+◌, ◌*◌, ◌≡◌, refl, arith}
use sgos.Calendar.{Tm, filled, gettime, mktime, leap_yday, leaps_thru}
use sgos.Calendar.Year.{days_before}
use sgos.Calendar.Seconds.{IsTm, mktime_lem}
use sgos.Calendar.Time.{Civil, gettime-Civil, mktime-gettime}

abbrev leap_day : Tm
leap_day = record {
  sec = 1;
  min = 2;
  hour = 3;
  mday = 29;
  mon = 1;
  year = 100;
  wday = 2;
  yday = 59;
  isdst = 1;
}

abbrev leap_second : ℕ
leap_second = 951793321

gettime_runs : gettime leap_second ≡ filled leap_day
unfolding gettime
gettime_runs = refl

-- A Sunday in 2106.
gettime_last :
    gettime 4294967295
    ≡ filled (record {
      sec = 15;
      min = 28;
      hour = 6;
      mday = 7;
      mon = 1;
      year = 206;
      wday = 0;
      yday = 37;
      isdst = 0;
    })
unfolding gettime
gettime_last = refl

gettime-Civil_example : (tm : Tm) × (gettime leap_second ≡ filled tm) × Civil leap_second tm
gettime-Civil_example = gettime-Civil leap_second (omega arith)

mktime-gettime_example : mktime leap_day ≡ leap_second
mktime-gettime_example = mktime-gettime leap_second leap_day (omega arith) gettime_runs

leap_day-IsTm : IsTm 11016 leap_day
unfolding days_before leaps_thru leap_yday
leap_day-IsTm = record {
  from_1970 = omega arith;
  dated = record {
    month_ok = omega arith;
    day_low = omega arith;
    day_high = omega arith;
    sum = refl;
  };
  clock = omega arith;
  fits = omega arith;
}

mktime_lem_example : mktime leap_day ≡ 11016 * 86400 + (3 * 3600 + 2 * 60 + 1)
mktime_lem_example = mktime_lem 11016 leap_day leap_day-IsTm
