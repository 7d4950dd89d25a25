-- ===== src/Calendar.antt =====
-- kernel/lib/time.c: seconds since 1970 as a date, and back. `long int` is an integer without
-- bounds, `time_t` a number below 2 ^ 32. The loops take fuel. Of `struct tm` no field is negative,
-- and the fields that mktime reads into `short` fit in it, so that it never sees a negative month.
pub mod Year
pub mod Months
pub mod Days
pub mod Unique
pub mod Seconds
pub mod Time
mod Tests
use sgos.Prelude.{
  ℕ, zero, suc, ◌+◌, ◌-◌, ◌*◌, ◌/◌, ◌%◌, ◌^◌, Bool, true, false, not, ◌&&◌, ◌||◌, Option, none,
  some, ◌==◌, if◌then◌else◌, ltb, leb,
}
use sgos.Prelude.Int.{ℤ, pos, negsuc, pos_part, neg_part, sub_ℕ, ◌+ℤ◌, ◌-ℤ◌, ltb_ℤ}

-- The date fields and the time fields of `struct tm`.
pub record Tm : Type 0 where
  pub sec : ℕ
  pub min : ℕ
  pub hour : ℕ
  pub mday : ℕ
  pub mon : ℕ
  pub year : ℕ
  pub wday : ℕ
  pub yday : ℕ
  pub isdst : ℕ

abbrev pub is_leap : ℕ → Bool
is_leap y = (y % 4 == 0) && (not (y % 100 == 0) || (y % 400 == 0))

abbrev pub year_length : ℕ → ℕ
year_length y = if is_leap y then 366 else 365

-- LEAPS_THRU_END_OF
unfoldable pub leaps_thru : ℕ → ℕ
leaps_thru y = y / 4 - y / 100 + y / 400

-- The rows of `_mon_yday`.
unfoldable pub common_yday : ℕ → ℕ
common_yday m =
    if m == 0
    then 0
    else if m == 1
    then 31
    else if m == 2
    then 59
    else if m == 3
    then 90
    else if m == 4
    then 120
    else if m == 5
    then 151
    else if m == 6
    then 181
    else if m == 7
    then 212
    else if m == 8
    then 243
    else if m == 9
    then 273
    else if m == 10
    then 304
    else if m == 11
    then 334
    else 365

unfoldable pub leap_yday : ℕ → ℕ
leap_yday m =
    if m == 0
    then 0
    else if m == 1
    then 31
    else if m == 2
    then 60
    else if m == 3
    then 91
    else if m == 4
    then 121
    else if m == 5
    then 152
    else if m == 6
    then 182
    else if m == 7
    then 213
    else if m == 8
    then 244
    else if m == 9
    then 274
    else if m == 10
    then 305
    else if m == 11
    then 335
    else 366

abbrev pub mon_yday : Bool → ℕ → ℕ
mon_yday leap m = if leap then leap_yday m else common_yday m

-- `yg = y + days / 365 - (days % 365 < 0)`; the division of C rounds to 0.
unfoldable pub guess : ℕ → ℤ → ℕ
guess y (pos d) = y + d / 365
guess y (negsuc k) = y - suc k / 365 - (if suc k % 365 == 0 then 0 else 1)

-- `days -= (yg - y) * 365 + LEAPS_THRU_END_OF( yg - 1 ) - LEAPS_THRU_END_OF( y - 1 )`
unfoldable pub adjust : ℕ → ℕ → ℤ → ℤ
unfolding leaps_thru
adjust y yg days =
    sub_ℕ (pos_part days + y * 365 + leaps_thru (y - 1))
      (neg_part days + yg * 365 + leaps_thru (yg - 1))

-- The test of the loop, turned round.
abbrev pub within : ℕ → ℤ → Bool
within y (pos d) = ltb d (year_length y)
within y (negsuc k) = false

unfoldable pub year_loop : ℕ → ℕ → ℤ → Option (ℕ × ℕ)
unfolding guess adjust
year_loop zero y days = none
year_loop (suc fuel) y days =
    let rest = year_loop fuel (guess y days) (adjust y (guess y days) days) in
    if within y days then some (y, pos_part days) else rest

-- `for( y = 11; days < ip[y]; --y )`
unfoldable pub month_loop : ℕ → Bool → ℕ → ℕ
unfolding common_yday leap_yday
month_loop zero leap days = zero
month_loop (suc m) leap days =
    let rest = month_loop m leap days in if ltb days (mon_yday leap (suc m)) then rest else suc m

-- What a call gives: the fields, a return value of 0, or a loop cut short.
pub data Filled : Type 0 where
  filled : Tm → Filled
  failed : Filled
  out_of_fuel : Filled

-- `while( rem < 0 )` and `while( rem >= SECS_PER_DAY )`
unfoldable pub raise_loop : ℕ → ℤ → ℤ → Option (ℤ × ℤ)
unfolding ◌+ℤ◌ ◌-ℤ◌
raise_loop zero days rem = none
raise_loop (suc fuel) days rem =
    let rest = raise_loop fuel (days -ℤ pos 1) (rem +ℤ pos 86400) in
    if ltb_ℤ rem (pos 0) then rest else some (days, rem)

unfoldable pub lower_loop : ℕ → ℤ → ℤ → Option (ℤ × ℤ)
unfolding ◌+ℤ◌ ◌-ℤ◌
lower_loop zero days rem = none
lower_loop (suc fuel) days rem =
    let rest = lower_loop fuel (days +ℤ pos 1) (rem -ℤ pos 86400) in
    if ltb_ℤ rem (pos 86400) then some (days, rem) else rest

-- `(4 + days) % 7`, 7 more where that is negative.
unfoldable pub weekday : ℤ → ℕ
weekday (pos d) = (4 + d) % 7
weekday (negsuc k) = if leb k 3 then 3 - k else (let r = (k - 3) % 7 in if r == 0 then 0 else 7 - r)

-- The rest of `__offtime`, once year and day of the year are known; `int` has 32 bits.
unfoldable pub fill : ℕ → ℤ → ℕ × ℕ → Filled
unfolding month_loop weekday
fill rem days (y, yday) =
    let mon = month_loop 11 (is_leap y) yday in
    if (y - 1900) % 2 ^ 32 == y - 1900
    then filled (record {
      sec = rem % 3600 % 60;
      min = rem % 3600 / 60;
      hour = rem / 3600;
      mday = yday - mon_yday (is_leap y) mon + 1;
      mon = mon;
      year = y - 1900;
      wday = weekday days;
      yday = yday;
      isdst = if is_leap y then 1 else 0;
    })
    else failed

-- `__offtime` from the search for the year on, from the second loop on, and whole.
unfoldable pub with_year : ℤ → ℤ → Option (ℕ × ℕ) → Filled
unfolding fill
with_year days rem none = Filled.out_of_fuel
with_year days rem (some y) = fill (pos_part rem) days y

unfoldable pub with_rem : ℕ → Option (ℤ × ℤ) → Filled
unfolding with_year year_loop
with_rem fuel none = Filled.out_of_fuel
with_rem fuel (some (days, rem)) = with_year days rem (year_loop fuel 1970 days)

unfoldable pub with_days : ℕ → Option (ℤ × ℤ) → Filled
unfolding with_rem lower_loop
with_days fuel none = Filled.out_of_fuel
with_days fuel (some (days, rem)) = with_rem fuel (lower_loop fuel days rem)

unfoldable pub offtime : ℕ → ℕ → ℤ → Filled
unfolding with_days raise_loop ◌+ℤ◌
offtime fuel t offset =
    with_days fuel (raise_loop fuel (pos (t / 86400)) (pos (t % 86400) +ℤ offset))

-- With the fuel that is enough for every `time_t`.
unfoldable pub gettime : ℕ → Filled
unfolding offtime
gettime t = offtime 3 t (pos 0)

-- The year that mktime takes the fields for; `month` is at most 11 after it.
abbrev pub full_year : Tm → ℕ
full_year t = if ltb t.year 70 then t.year + t.mon / 12 + 2000 else t.year + t.mon / 12 + 1900

unfoldable pub mktime : Tm → ℕ
unfolding common_yday
mktime t =
    let year = full_year t in
    let month = t.mon % 12 in
    let y = if leb month 1 then year - 1 else year in
    let days =
      (year - 1970) * 365
      + common_yday month
      + (y - 1968) / 4
      - (y - 1900) / 100
      + (y - 1600) / 400
      + t.mday
      - 1 in
    (((days * 24 + t.hour) * 60 + t.min) * 60 + t.sec) % 2 ^ 32
