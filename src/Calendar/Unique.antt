-- ===== src/Calendar/Unique.antt =====
-- A day is in one year only, and has one date only (kernel/lib/time.c).
use sgos.Prelude.{
  ℕ, zero, suc, ◌+◌, ◌-◌, ◌≡◌, ◌≤◌, ltb, arith, inl, inr, Bool-cases, ap, ◌∙◌, subst,
}
use sgos.Calendar.{is_leap, mon_yday}
use sgos.Calendar.Year.{days_before, days_before-year_length, InYear}
use sgos.Calendar.Months.{mon_yday-suc, mon_yday_last, mon_yday_mono, month_unique, InMonth}
use sgos.Calendar.Days.{Date, Dated}

days_before_add : (y k : ℕ) → 1 ≤ y → days_before y ≤ days_before (y + k)
days_before_add y zero p = rw (same y) (omega arith)
  where
    same : (y : ℕ) → y + zero ≡ y
    same y = omega arith
days_before_add y (suc k) p =
    rw (next y k)
      (omega (arith, days_before_add y k p, days_before-year_length (y + k) (omega arith)))
  where
    next : (y k : ℕ) → y + suc k ≡ y + k + 1
    next y k = omega arith

days_before_mono : (y z : ℕ) → 1 ≤ y → y ≤ z → days_before y ≤ days_before z
days_before_mono y z o p = rw (sum y z p) at (days_before_add y (z - y) o)
  where
    sum : (y z : ℕ) → y ≤ z → y + (z - y) ≡ z
    sum y z p = omega arith

year_unique : (n y d z e : ℕ) → 1 ≤ y → 1 ≤ z → InYear n y d → InYear n z e → (y ≡ z) × (d ≡ e)
year_unique n y d z e o p h g = elim (Bool-cases (ltb y z)) [
  | inl lt ↦ absurd (
      omega (
        arith,
        days_before_mono (y + 1) z (omega arith) (ground arith),
        days_before-year_length y o,
        h.sum,
        h.below,
        g.sum,
      ))
  | inr ge ↦ elim (Bool-cases (ltb z y)) [
    | inl gt ↦ absurd (
        omega (
          arith,
          days_before_mono (z + 1) y (omega arith) (ground arith),
          days_before-year_length z p,
          h.sum,
          g.below,
          g.sum,
        ))
    | inr le ↦
        let same : y ≡ z = ground arith in (same, omega (arith, h.sum, g.sum, ap days_before same))
  ]
]

-- The day of the year that a date stands for.
day_of_year :
    (n : ℕ) (x : Date)
    → Dated n x
    → InYear n x.year (mon_yday (is_leap x.year) x.month + x.day - 1)
      × InMonth (is_leap x.year) 11 (mon_yday (is_leap x.year) x.month + x.day - 1) x.month
day_of_year n x h =
    let l = is_leap x.year in
    let next = mon_yday-suc l x.month h.month_ok in
    (
      record {
        sum = omega (arith, h.sum, h.day_low);
        below = omega (
          arith,
          h.day_low,
          h.day_high,
          next,
          mon_yday_last l,
          mon_yday_mono l (x.month + 1) 12 (omega (arith, h.month_ok)),
        );
      },
      record {
        at_most = h.month_ok;
        from = omega (arith, h.day_low);
        below = omega (arith, h.day_low, h.day_high, next);
      },
    )

date_ext :
    (x : Date) (y m d : ℕ)
    → x.year ≡ y
    → x.month ≡ m
    → x.day ≡ d
    → x ≡ record { year = y; month = m; day = d }
date_ext x y m d e f g = ground arith

pub Dated-unique :
    (n y d m : ℕ) (x : Date)
    → 1 ≤ y
    → 1 ≤ x.year
    → InYear n y d
    → InMonth (is_leap y) 11 d m
    → Dated n x
    → x ≡ record { year = y; month = m; day = d - mon_yday (is_leap y) m + 1 }
Dated-unique n y d m x o p h g k =
    let (iy, im) = day_of_year n x k in
    let (ey, ed) = year_unique n x.year _ y d p o iy h in
    let im' = subst (λ j. InMonth (is_leap x.year) 11 j x.month) ed im in
    let i = subst (λ z. InMonth (is_leap z) 11 d x.month) ey im' in
    let em = month_unique (is_leap y) d x.month m i.from i.below g.from g.below in
    let start : mon_yday (is_leap x.year) x.month ≡ mon_yday (is_leap y) m =
      ap (λ z. mon_yday (is_leap z) x.month) ey ∙ ap (mon_yday (is_leap y)) em in
    date_ext x y m _ ey em (omega (arith, start, ed, k.day_low))
