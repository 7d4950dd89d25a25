-- ===== src/Allocator/Index.antt =====
-- calc_hash_index of kernel/mm/allocator.c: the chain of the free table for a size.
use mathlib.Core.WellFounded.{Acc}
use native.Mathlib.Bridge.{le_prop}
use native.Mathlib.Nat.{pow-succ'}
use mathlib.Core.Logic.{dif_pos, dif_neg}
use native.Mathlib.Decide.{dec_lt}
use sgos.Prelude.{ℕ, zero, suc, ◌%◌, ◌+◌, ◌*◌, ◌/◌, ◌^◌, ◌≤◌, ◌<◌, ◌≡◌, refl, arith}
use sgos.Prelude.Order.{lt_wf}
use sgos.Allocator.{calc_hash_index, half-lt, index_loop, max_hash_entry}

index_loop-ge : (k i : ℕ) (w : Acc ◌<◌ k) → i ≤ index_loop k i w
unfolding index_loop
index_loop-ge k i (Acc.intro _ s) = elim (dec_lt 1 k) [
  | yes p ↦
      rw (dif_pos _ le_prop p _)
        (omega (arith, index_loop-ge (k / 2) (suc i) (s (k / 2) (half-lt k p))))
  | no n ↦ rw (dif_neg _ n _ _) (omega arith)
]

index_loop_mono :
    (k l i : ℕ) (w : Acc ◌<◌ k) (w' : Acc ◌<◌ l) → k ≤ l → index_loop k i w ≤ index_loop l i w'
unfolding index_loop
index_loop_mono k l i (Acc.intro _ s) (Acc.intro _ s') h = elim (dec_lt 1 k) [
  | yes p ↦ elim (dec_lt 1 l) [
    | yes p' ↦
        rw (dif_pos _ le_prop p _, dif_pos _ le_prop p' _)
          (index_loop_mono (k / 2) (l / 2) (suc i) (s (k / 2) (half-lt k p))
            (s' (l / 2) (half-lt l p')) (omega arith))
    | no n' ↦ absurd (omega arith)
  ]
  | no n ↦ rw (dif_neg _ n _ _) (index_loop-ge l i (Acc.intro _ s'))
]

halved_twice : (q r P : ℕ) → q * (2 * P) ≤ (2 * q + r) * P
halved_twice q r P = omega arith

odd_le : (r P : ℕ) → r < 2 → r * P ≤ P
odd_le zero P h = omega arith
odd_le (suc zero) P h = omega arith
odd_le (suc (suc r)) P h = absurd (omega arith)

halved_up : (q r P : ℕ) → r < 2 → (2 * q + r + 1) * P ≤ (q + 1) * (2 * P)
halved_up q r P h = omega (arith, odd_le r P h)

halving_bounds :
    (k q r P A B : ℕ)
    → k ≡ 2 * q + r
    → r < 2
    → A ≤ q * (2 * P)
    → (q + 1) * (2 * P) ≤ B
    → (A ≤ k * P) × ((k + 1) * P ≤ B)
halving_bounds k q r P A B e h lo hi =
    rw e (omega (arith, halved_twice q r P), omega (arith, halved_up q r P h))

-- What the loop counts is the position of the highest bit.
index_loop_bounds :
    (k i : ℕ) (w : Acc ◌<◌ k)
    → 1 ≤ k
    → (2 ^ index_loop k i w ≤ k * 2 ^ i) × ((k + 1) * 2 ^ i ≤ 2 ^ suc (index_loop k i w))
unfolding index_loop
index_loop_bounds k i (Acc.intro _ s) h = elim (dec_lt 1 k) [
  | yes p ↦ rw (dif_pos _ le_prop p _) (
      let (lo, hi) = index_loop_bounds (k / 2) (suc i) (s (k / 2) (half-lt k p)) (omega arith) in
      halving_bounds k (k / 2) (k % 2) (2 ^ i) _ _ (omega arith) (omega arith)
        (rw (← pow-succ' 2 i) lo) (rw (← pow-succ' 2 i) hi))
  | no n ↦
      rw (dif_neg _ n _ _)
        (let k1 : k ≡ 1 = omega arith in rw (k1, pow-succ' 2 i) (omega arith, omega arith))
]

pub calc_hash_index_mono : (k l : ℕ) → k ≤ l → calc_hash_index k ≤ calc_hash_index l
unfolding calc_hash_index
calc_hash_index_mono k l h =
    ground
      (arith, index_loop_mono (k / 32) (l / 32) 0 (lt_wf.apply (k / 32)) (lt_wf.apply (l / 32)))

pub calc_hash_index-lt : (k : ℕ) → calc_hash_index k < max_hash_entry
unfolding calc_hash_index
calc_hash_index-lt k = ground arith

top_index : calc_hash_index (2 ^ 19) ≡ 14
unfolding calc_hash_index
top_index = refl

-- All that is 512 KB or more is in the last chain.
pub calc_hash_index_top : (k : ℕ) → 2 ^ 19 ≤ k → calc_hash_index k ≡ 14
calc_hash_index_top k h =
    omega (arith, top_index, calc_hash_index-lt k, calc_hash_index_mono (2 ^ 19) k h)

-- A size of 32 bytes or more that is not in the last chain is between two powers of 2: chain `i`
-- is of the sizes from 32 * 2 ^ i on, below twice that.
pub calc_hash_index_bounds :
    (k : ℕ)
    → 32 ≤ k
    → calc_hash_index k < 14
    → (32 * 2 ^ calc_hash_index k ≤ k) × (k < 64 * 2 ^ calc_hash_index k)
unfolding calc_hash_index
calc_hash_index_bounds k h below =
    let w = lt_wf.apply (k / 32) in
    let (lo, hi) = index_loop_bounds (k / 32) 0 w (omega arith) in
    let e : calc_hash_index k ≡ index_loop (k / 32) 0 w = ground arith in
    rw e (let two = pow-succ' 2 (index_loop (k / 32) 0 w) in (omega arith, omega arith))
