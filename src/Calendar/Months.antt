-- ===== src/Calendar/Months.antt =====
-- The months of a year, and the month that `__offtime` of kernel/lib/time.c finds.
use sgos.Prelude.{
  ℕ, zero, suc, ◌+◌, ◌-◌, ◌≡◌, ◌≤◌, ◌<◌, Bool, true, false, ◌||◌, ◌==◌, if◌then◌else◌, ltb, arith,
  inl, inr, Bool-cases, refl,
}
use sgos.Calendar.{mon_yday, month_loop, common_yday, leap_yday}

-- January is 0.
abbrev pub month_length : Bool → ℕ → ℕ
month_length leap m =
    if m == 1
    then if leap then 29 else 28
    else if (m == 3) || (m == 5) || (m == 8) || (m == 10)
    then 30
    else 31

pub mon_yday-suc :
    (leap : Bool) (m : ℕ) → m ≤ 11 → mon_yday leap (m + 1) ≡ mon_yday leap m + month_length leap m
unfolding common_yday leap_yday
mon_yday-suc true m p = ground arith
mon_yday-suc false m p = ground arith

pub mon_yday_first : (leap : Bool) → mon_yday leap 0 ≡ 0
unfolding common_yday leap_yday
mon_yday_first true = refl
mon_yday_first false = refl

pub mon_yday_last : (leap : Bool) → mon_yday leap 12 ≡ (if leap then 366 else 365)
unfolding common_yday leap_yday
mon_yday_last true = refl
mon_yday_last false = refl

mon_yday_step : (leap : Bool) (m : ℕ) → mon_yday leap m ≤ mon_yday leap (m + 1)
unfolding common_yday leap_yday
mon_yday_step true m = ground arith
mon_yday_step false m = ground arith

mon_yday_add : (leap : Bool) (m k : ℕ) → mon_yday leap m ≤ mon_yday leap (m + k)
mon_yday_add leap m zero = rw (same m) (omega arith)
  where
    same : (m : ℕ) → m + zero ≡ m
    same m = omega arith
mon_yday_add leap m (suc k) =
    rw (next m k) (omega (arith, mon_yday_add leap m k, mon_yday_step leap (m + k)))
  where
    next : (m k : ℕ) → m + suc k ≡ m + k + 1
    next m k = omega arith

pub mon_yday_mono : (leap : Bool) (m n : ℕ) → m ≤ n → mon_yday leap m ≤ mon_yday leap n
mon_yday_mono leap m n p = rw (sum m n p) at (mon_yday_add leap m (n - m))
  where
    sum : (m n : ℕ) → m ≤ n → m + (n - m) ≡ n
    sum m n p = omega arith

-- A day of the year is in one month only.
pub month_unique :
    (leap : Bool) (d m n : ℕ)
    → mon_yday leap m ≤ d
    → d < mon_yday leap (m + 1)
    → mon_yday leap n ≤ d
    → d < mon_yday leap (n + 1)
    → m ≡ n
month_unique leap d m n a b c e = elim (Bool-cases (ltb m n)) [
  | inl lt ↦ absurd (omega (arith, mon_yday_mono leap (m + 1) n (ground arith)))
  | inr ge ↦ elim (Bool-cases (ltb n m)) [
    | inl gt ↦ absurd (omega (arith, mon_yday_mono leap (n + 1) m (ground arith)))
    | inr le ↦ ground arith
  ]
]

-- Month `r`, which is not after month `m`, is that of the day `d`.
pub record InMonth (leap : Bool) (m d r : ℕ) : Type 0 where
  pub at_most : r ≤ m
  pub from : mon_yday leap r ≤ d
  pub below : d < mon_yday leap (r + 1)

month_loop_before :
    (m : ℕ) (leap : Bool) (d : ℕ)
    → ltb d (mon_yday leap (suc m)) ≡ true
    → month_loop (suc m) leap d ≡ month_loop m leap d
unfolding month_loop
month_loop_before m leap d e = ground arith

month_loop_here :
    (m : ℕ) (leap : Bool) (d : ℕ)
    → ltb d (mon_yday leap (suc m)) ≡ false
    → month_loop (suc m) leap d ≡ suc m
unfolding month_loop
month_loop_here m leap d e = ground arith

pub month_loop-InMonth :
    (m : ℕ) (leap : Bool) (d : ℕ)
    → d < mon_yday leap (m + 1)
    → InMonth leap m d (month_loop m leap d)
unfolding month_loop
month_loop-InMonth zero leap d p = record {
  at_most = omega arith;
  from = omega (arith, mon_yday_first leap);
  below = p;
}
month_loop-InMonth (suc m) leap d p = elim (Bool-cases (ltb d (mon_yday leap (suc m)))) [
  | inl e ↦
      let h = month_loop-InMonth m leap d (rw (next m) (ground arith)) in
      rw (month_loop_before m leap d e)
        (record { at_most = omega (arith, h.at_most); from = h.from; below = h.below })
  | inr e ↦
      rw (month_loop_here m leap d e)
        (record { at_most = omega arith; from = ground arith; below = p })
]
  where
    next : (m : ℕ) → m + 1 ≡ suc m
    next m = omega arith
