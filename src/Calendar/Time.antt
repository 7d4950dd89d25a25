-- ===== src/Calendar/Time.antt =====
-- gettime of kernel/lib/time.c against the calendar counted day by day, and mktime as its inverse.
use sgos.Prelude.{
  ℕ, suc, ◌+◌, ◌-◌, ◌*◌, ◌/◌, ◌%◌, ◌^◌, ◌≡◌, ◌≤◌, ◌<◌, arith, refl, ap, sym, ◌∙◌, subst,
  if◌then◌else◌, some,
}
use sgos.Prelude.Int.{ℤ, pos, pos_part, ◌+ℤ◌}
use sgos.Calendar.{
  Tm, filled, is_leap, mon_yday, gettime, offtime, with_days, with_rem, with_year, fill, raise_loop,
  lower_loop, year_loop, month_loop, weekday, mktime,
}
use sgos.Calendar.Year.{year_bounds, epoch, InYear, Found, year_of_days}
use sgos.Calendar.Months.{month_loop-InMonth, mon_yday_last}
use sgos.Calendar.Days.{Dated, date_of, date_of-Dated}
use sgos.Calendar.Unique.{Dated-unique}
use sgos.Calendar.Seconds.{date, IsTm, mktime_lem}

-- The fields for the second `t`: the date is that many days after the first one, a Thursday.
pub record Civil (t : ℕ) (tm : Tm) : Type 0 where
  pub from_1970 : 70 ≤ tm.year
  pub at_date : date_of (t / 86400) ≡ date tm
  pub at_time : tm.hour * 3600 + tm.min * 60 + tm.sec ≡ t % 86400
  pub min_ok : tm.min < 60
  pub sec_ok : tm.sec < 60
  pub at_weekday : tm.wday ≡ (4 + t / 86400) % 7
  pub at_yday : InYear (719527 + t / 86400) (tm.year + 1900) tm.yday
  pub at_leap : tm.isdst ≡ (if is_leap (tm.year + 1900) then 1 else 0)

raise_run : (fuel : ℕ) (d : ℤ) (r : ℕ) → raise_loop (suc fuel) d (pos r) ≡ some (d, pos r)
unfolding raise_loop
raise_run fuel d r = ground arith

lower_run :
    (fuel : ℕ) (d : ℤ) (r : ℕ) → r < 86400 → lower_loop (suc fuel) d (pos r) ≡ some (d, pos r)
unfolding lower_loop
lower_run fuel d r p = ground arith

no_offset : (r : ℕ) → pos r +ℤ pos 0 ≡ pos r
unfolding ◌+ℤ◌
no_offset r = ground arith

offtime_run :
    (fuel t : ℕ) (offset d r days rem : ℤ) (y : ℕ × ℕ)
    → raise_loop fuel (pos (t / 86400)) (pos (t % 86400) +ℤ offset) ≡ some (d, r)
    → lower_loop fuel d r ≡ some (days, rem)
    → year_loop fuel 1970 days ≡ some y
    → offtime fuel t offset ≡ fill (pos_part rem) days y
unfolding offtime with_days with_rem with_year
offtime_run fuel t offset d r days rem y e f g =
    ap (with_days fuel) e ∙ ap (with_rem fuel) f ∙ ap (with_year days rem) g

loops_run :
    (t : ℕ) (y : ℕ × ℕ)
    → year_loop 3 1970 (pos (t / 86400)) ≡ some y
    → gettime t ≡ fill (t % 86400) (pos (t / 86400)) y
unfolding gettime
loops_run t y e =
    let d = pos (t / 86400) in
    let r = pos (t % 86400) in
    offtime_run 3 t (pos 0) d r d r y
      (ap (raise_loop 3 d) (no_offset (t % 86400)) ∙ raise_run 2 d (t % 86400))
      (lower_run 2 d (t % 86400) (omega arith)) e

fill_run :
    (r d y yd : ℕ)
    → y ≤ 2106
    → let m = month_loop 11 (is_leap y) yd in
      fill r (pos d) (y, yd)
      ≡ filled (record {
        sec = r % 3600 % 60;
        min = r % 3600 / 60;
        hour = r / 3600;
        mday = yd - mon_yday (is_leap y) m + 1;
        mon = m;
        year = y - 1900;
        wday = (4 + d) % 7;
        yday = yd;
        isdst = if is_leap y then 1 else 0;
      })
unfolding fill weekday
fill_run r d y yd p = ground arith

-- The fields that `fill` gives.
abbrev fields : ℕ → ℕ → ℕ → ℕ → Tm
fields r d y yd =
    let m = month_loop 11 (is_leap y) yd in
    record {
      sec = r % 3600 % 60;
      min = r % 3600 / 60;
      hour = r / 3600;
      mday = yd - mon_yday (is_leap y) m + 1;
      mon = m;
      year = y - 1900;
      wday = (4 + d) % 7;
      yday = yd;
      isdst = if is_leap y then 1 else 0;
    }

day_small : (t : ℕ) → t < 2 ^ 32 → t / 86400 < 49711
day_small t lt = omega arith

-- The date that was found is the one that counting gives.
date_found :
    (n y yd : ℕ)
    → n < 49711
    → InYear (719527 + n) y yd
    → date_of n ≡ record {
      year = y;
      month = month_loop 11 (is_leap y) yd;
      day = yd - mon_yday (is_leap y) (month_loop 11 (is_leap y) yd) + 1;
    }
date_found n y yd lt h =
    let (dated, positive) = date_of-Dated n in
    Dated-unique (719527 + n) y yd (month_loop 11 (is_leap y) yd) (date_of n)
      (omega (arith, year_bounds n y yd h lt)) positive h
      (month_loop-InMonth 11 (is_leap y) yd (omega (arith, h.below, mon_yday_last (is_leap y))))
      dated

fields-Civil :
    (t y yd : ℕ)
    → t < 2 ^ 32
    → InYear (719527 + t / 86400) y yd
    → Civil t (fields (t % 86400) (t / 86400) y yd)
fields-Civil t y yd lt h =
    let b = year_bounds (t / 86400) y yd h (day_small t lt) in
    let back : y - 1900 + 1900 ≡ y = omega (arith, b) in
    record {
      from_1970 = omega (arith, b);
      at_date = rw back (date_found (t / 86400) y yd (day_small t lt) h);
      at_time = omega arith;
      min_ok = omega arith;
      sec_ok = omega arith;
      at_weekday = refl;
      at_yday = rw back h;
      at_leap = rw back refl;
    }

-- gettime for each `time_t`: the three rounds of its loops are enough, it returns 1, and the fields
-- are those of the calendar counted day by day from Thursday, the first of January 1970, with the
-- time of day, the day of the year and whether the year is a leap year.
pub gettime-Civil : (t : ℕ) → t < 2 ^ 32 → (tm : Tm) × (gettime t ≡ filled tm) × Civil t tm
unfolding Found
gettime-Civil t lt =
    let ((y, yd), run, h) = year_of_days (t / 86400) (day_small t lt) in
    let h' : InYear (719527 + t / 86400) y yd = rw epoch at h in
    let b = year_bounds (t / 86400) y yd h' (day_small t lt) in
    (
      fields (t % 86400) (t / 86400) y yd,
      loops_run t (y, yd) run ∙ fill_run (t % 86400) (t / 86400) y yd b.1,
      fields-Civil t y yd lt h',
    )

Civil-IsTm : (t : ℕ) (tm : Tm) → t < 2 ^ 32 → Civil t tm → IsTm (t / 86400) tm
Civil-IsTm t tm lt c = record {
  from_1970 = c.from_1970;
  dated = subst (Dated (719527 + t / 86400)) c.at_date (date_of-Dated (t / 86400)).0;
  clock = omega (arith, c.at_time);
  fits = omega (arith, c.at_time);
}

-- mktime takes the fields that gettime gives for a `time_t` back to it.
pub mktime-gettime : (t : ℕ) (tm : Tm) → t < 2 ^ 32 → gettime t ≡ filled tm → mktime tm ≡ t
mktime-gettime t tm lt e =
    let (u, run, c) = gettime-Civil t lt in
    let same : u ≡ tm = filled_injective (sym run ∙ e) in
    let c' = subst (Civil t) same c in
    mktime_lem (t / 86400) tm (Civil-IsTm t tm lt c') ∙ omega (arith, c'.at_time)
  where
    filled_injective : {a b : Tm} → filled a ≡ filled b → a ≡ b
    filled_injective h = ground arith
