-- ===== src/Calendar/Year.antt =====
-- The year that `__offtime` of kernel/lib/time.c finds, and the month.
use sgos.Prelude.{
  ℕ, suc, ◌+◌, ◌-◌, ◌*◌, ◌/◌, ◌≡◌, ◌≤◌, ◌<◌, false, some, if◌then◌else◌, ltb, leb, Bool-cases,
  arith, refl, ◌⊎◌, inl, inr, ◌∙◌,
}
use sgos.Prelude.Int.{ℤ, pos, negsuc, sub_ℕ}
use sgos.Calendar.{is_leap, year_length, leaps_thru, guess, adjust, within, year_loop}

-- The days before a year, on a scale that begins long before 1970.
unfoldable pub days_before : ℕ → ℕ
unfolding leaps_thru
days_before y = y * 365 + leaps_thru (y - 1)

pub days_before-year_length : (y : ℕ) → 1 ≤ y → days_before (y + 1) ≡ days_before y + year_length y
unfolding days_before leaps_thru
days_before-year_length y p = ground arith

days_before-pred : (y : ℕ) → 2 ≤ y → days_before y ≡ days_before (y - 1) + year_length (y - 1)
unfolding days_before leaps_thru
days_before-pred y p = ground arith

-- A leap year counts from its end on.
pub leaps_thru-pred :
    (y : ℕ) → 1 ≤ y → leaps_thru y ≡ leaps_thru (y - 1) + (if is_leap y then 1 else 0)
unfolding leaps_thru
leaps_thru-pred y p = ground arith

pub days_before_lem : (y : ℕ) → days_before y ≡ y * 365 + leaps_thru (y - 1)
unfolding days_before
days_before_lem y = refl

year_length_high : (y : ℕ) → year_length y ≤ 366
year_length_high y = ground arith

pub year_length_low : (y : ℕ) → 365 ≤ year_length y
year_length_low y = ground arith

-- Day `n` of that scale is day `d` of the year `y`.
pub record InYear (n y d : ℕ) : Type 0 where
  pub sum : days_before y + d ≡ n
  pub below : d < year_length y

adjust_back :
    (y k : ℕ)
    → 2 ≤ y
    → k < 300
    → adjust y (guess y (negsuc k)) (negsuc k) ≡ pos (year_length (y - 1) - suc k)
unfolding adjust guess leaps_thru
adjust_back y k p q = ground arith

guess_back : (y k : ℕ) → k < 300 → guess y (negsuc k) ≡ y - 1
unfolding guess
guess_back y k q = ground arith

loop_done : (fuel y d : ℕ) → d < year_length y → year_loop (suc fuel) y (pos d) ≡ some (y, d)
unfolding year_loop
loop_done fuel y d p = ground arith

loop_step :
    (fuel y : ℕ) (days : ℤ)
    → within y days ≡ false
    → year_loop (suc fuel) y days ≡ year_loop fuel (guess y days) (adjust y (guess y days) days)
unfolding year_loop
loop_step fuel y days p = ground arith

loop_back :
    (y k : ℕ)
    → 2 ≤ y
    → k < 300
    → year_loop 2 y (negsuc k) ≡ some (y - 1, year_length (y - 1) - suc k)
loop_back y k p q =
    let last = loop_done 0 (y - 1) (year_length (y - 1) - suc k) (ground arith) in
    loop_step 1 y (negsuc k) refl ∙ rw (adjust_back y k p q, guess_back y k q) last

leaps_bound : (q : ℕ) → q ≤ 136 → (477 ≤ leaps_thru (1969 + q)) × (leaps_thru (1969 + q) ≤ 520)
unfolding leaps_thru
leaps_bound q p = omega arith

-- The difference of two numbers, by which is larger.
Difference : ℕ → ℕ → ℤ → Type 0
Difference a b i =
    ((d : ℕ) × (i ≡ pos d) × (b + d ≡ a)) ⊎ ((k : ℕ) × (i ≡ negsuc k) × (a + suc k ≡ b))

difference : (a b : ℕ) → Difference a b (sub_ℕ a b)
unfolding Difference
difference a b = elim (Bool-cases (leb b a)) [
  | inl e ↦ inl (a - b, ground arith, ground arith)
  | inr e ↦ inr (b - a - 1, ground arith, ground arith)
]

pub epoch : days_before 1970 ≡ 719527
unfolding days_before leaps_thru
epoch = refl

adjust_first :
    (n q : ℕ) → adjust 1970 (1970 + q) (pos n) ≡ sub_ℕ (n + 719527) (days_before (1970 + q))
unfolding adjust days_before leaps_thru
adjust_first n q = ground arith

before_first :
    (q : ℕ)
    → q ≤ 136
    → (days_before (1970 + q) ≤ 719527 + 43 + 365 * q) × (719527 + 365 * q ≤ days_before (1970 + q))
unfolding days_before leaps_thru
before_first q p = omega arith

guess_first : (n : ℕ) → guess 1970 (pos n) ≡ 1970 + n / 365
unfolding guess
guess_first n = refl

-- The day that the loop finds is the day `n` after the first one of 1970.
unfoldable pub Found : ℕ → ℕ × ℕ → Type 0
Found n r = InYear (days_before 1970 + n) r.0 r.1

loop_first :
    (n y : ℕ) (i : ℤ)
    → Difference (n + 719527) (days_before y) i
    → days_before y ≤ n + 719527 + 300
    → n + 719527 < days_before y + 365
    → 1970 ≤ y
    → (r : ℕ × ℕ) × (year_loop 2 y i ≡ some r) × Found n r
unfolding Difference Found
loop_first n y i (inl (d, e, s)) lo hi p = (
  (y, d),
  rw e (loop_done 1 y d (ground arith)),
  record { sum = omega (arith, epoch, s); below = ground arith },
)
loop_first n y i (inr (k, e, s)) lo hi p = (
  (y - 1, year_length (y - 1) - suc k),
  rw e (loop_back y k (omega arith) (omega arith)),
  record {
    sum = omega (arith, epoch, s, days_before-pred y (omega arith), year_length_low (y - 1));
    below = ground arith;
  },
)

pub year_of_days :
    (n : ℕ) → n < 49711 → (r : ℕ × ℕ) × (year_loop 3 1970 (pos n) ≡ some r) × Found n r
unfolding Found
year_of_days n lt = elim (Bool-cases (ltb n 365)) [
  | inl e ↦
      ((1970, n), loop_done 2 1970 n (ground arith), record { sum = refl; below = ground arith })
  | inr e ↦
      let b = before_first (n / 365) (omega arith) in
      let (r, run, f) =
        loop_first n (1970 + n / 365) _ (difference (n + 719527) (days_before (1970 + n / 365)))
          (omega (arith, b)) (omega (arith, b)) (omega arith) in
      (
        r,
        loop_step 2 1970 (pos n) (ground arith)
            ∙ (rw (guess_first n, adjust_first n (n / 365)) run),
        f,
      )
]

pub year_bounds : (n y d : ℕ) → InYear (719527 + n) y d → n < 49711 → (1970 ≤ y) × (y ≤ 2106)
unfolding days_before leaps_thru
year_bounds n y d h lt =
    let positive : 1 ≤ y = omega (arith, h.sum, h.below, year_length_high y) in
    omega (arith, h.sum, h.below, days_before-year_length y positive)
