-- ===== src/Calendar/Days.antt =====
-- The calendar counted day by day, as a reference for gettime of kernel/lib/time.c.
use sgos.Prelude.{
  ℕ, zero, suc, ◌+◌, ◌≡◌, ◌≤◌, Bool, true, false, ◌==◌, if◌then◌else◌, ltb, arith, inl, inr,
  Bool-cases, sym, subst,
}
use sgos.Calendar.{is_leap, mon_yday}
use sgos.Calendar.Year.{days_before, days_before-year_length, epoch}
use sgos.Calendar.Months.{month_length, mon_yday-suc, mon_yday_first, mon_yday_last}

-- A date: the year, the month from 0 on and the day from 1 on.
pub record Date : Type 0 where
  pub year : ℕ
  pub month : ℕ
  pub day : ℕ

abbrev pub next_day : Date → Date
next_day x =
    if ltb x.day (month_length (is_leap x.year) x.month)
    then record x { day = x.day + 1 }
    else if x.month == 11
    then record { year = x.year + 1; month = 0; day = 1 }
    else record { year = x.year; month = x.month + 1; day = 1 }

-- The date `n` days after the first of January 1970.
unfoldable pub date_of : ℕ → Date
date_of zero = record { year = 1970; month = 0; day = 1 }
date_of (suc n) = next_day (date_of n)

-- The date of day `n` on the scale of `days_before`.
pub record Dated (n : ℕ) (x : Date) : Type 0 where
  pub month_ok : x.month ≤ 11
  pub day_low : 1 ≤ x.day
  pub day_high : x.day ≤ month_length (is_leap x.year) x.month
  pub sum : days_before x.year + mon_yday (is_leap x.year) x.month + x.day ≡ n + 1

same_month :
    (x : Date)
    → ltb x.day (month_length (is_leap x.year) x.month) ≡ true
    → next_day x ≡ record { year = x.year; month = x.month; day = x.day + 1 }
same_month x e = ground arith

next_month :
    (x : Date)
    → ltb x.day (month_length (is_leap x.year) x.month) ≡ false
    → (x.month == 11) ≡ false
    → next_day x ≡ record { year = x.year; month = x.month + 1; day = 1 }
next_month x e m = ground arith

next_year :
    (x : Date)
    → ltb x.day (month_length (is_leap x.year) x.month) ≡ false
    → (x.month == 11) ≡ true
    → next_day x ≡ record { year = x.year + 1; month = 0; day = 1 }
next_year x e m = ground arith

-- The 31st of December is the last day of the year.
year_ends :
    (leap : Bool) (m : ℕ) → m ≡ 11 → mon_yday leap m + month_length leap m ≡ mon_yday leap 12
year_ends leap m e =
    subst (λ k. mon_yday leap k + month_length leap k ≡ mon_yday leap 12) (sym e)
      (sym (mon_yday-suc leap 11 (omega arith)))

next_day-Dated :
    (n : ℕ) (x : Date)
    → 1 ≤ x.year
    → Dated n x
    → Dated (n + 1) (next_day x) × (1 ≤ (next_day x).year)
next_day-Dated n x p h = elim (Bool-cases (ltb x.day (month_length (is_leap x.year) x.month))) [
  | inl e ↦ rw (same_month x e) (
    record {
      month_ok = h.month_ok;
      day_low = omega arith;
      day_high = ground arith;
      sum = omega (arith, h.sum);
    },
    p,
  )
  | inr e ↦
      let full : x.day ≡ month_length (is_leap x.year) x.month = ground (arith, h.day_high) in
      elim (Bool-cases (x.month == 11)) [
        | inl m ↦ rw (next_year x e m) (
          record {
            month_ok = omega arith;
            day_low = omega arith;
            day_high = month_length_low (is_leap (x.year + 1)) 0;
            sum = omega (
              arith,
              h.sum,
              full,
              days_before-year_length x.year p,
              mon_yday_first (is_leap (x.year + 1)),
              year_ends (is_leap x.year) x.month (ground arith),
              mon_yday_last (is_leap x.year),
            );
          },
          omega arith,
        )
        | inr m ↦ rw (next_month x e m) (
          record {
            month_ok = ground (arith, h.month_ok);
            day_low = omega arith;
            day_high = month_length_low (is_leap x.year) (x.month + 1);
            sum = omega (arith, h.sum, full, mon_yday-suc (is_leap x.year) x.month h.month_ok);
          },
          p,
        )
      ]
]
  where
    month_length_low : (leap : Bool) (m : ℕ) → 1 ≤ month_length leap m
    month_length_low leap m = ground arith

pub date_of-Dated : (n : ℕ) → Dated (719527 + n) (date_of n) × (1 ≤ (date_of n).year)
unfolding date_of
date_of-Dated zero = (
  record {
    month_ok = omega arith;
    day_low = omega arith;
    day_high = omega arith;
    sum = omega (arith, epoch, mon_yday_first false);
  },
  omega arith,
)
date_of-Dated (suc n) =
    let (h, p) = date_of-Dated n in
    subst (λ k. Dated k (next_day (date_of n)) × (1 ≤ (next_day (date_of n)).year)) (shift n)
      (next_day-Dated (719527 + n) (date_of n) p h)
  where
    shift : (n : ℕ) → 719527 + n + 1 ≡ 719527 + suc n
    shift n = omega arith
