-- ===== src/Queue/Shape.antt =====
-- What a queue of kernel/lib/kqueue.c stands for: its nodes from the back to the front.
use sgos.Prelude.{
  ℕ, suc, ◌+◌, ◌≡◌, ◌≢◌, ◌⊎◌, refl, true, false, [], ◌∷◌, ◌++◌, arith, length, length-append,
  if◌then◌else◌,
}
use sgos.Prelude.Int.{ℤ, pos, negsuc, sub_ℕ, ◌+ℤ◌}
use sgos.Prelude.Run.{ok}
use sgos.Dll.{Ptr, null}
use sgos.Dll.Links.{Cells, has, first, last, Links, Apart}
use sgos.Queue.{Queue, enter, leave, is_zero}

-- The links, without the count and the lock.
pub record IsLinked (q : Queue) (xs : Cells ℕ) : Type 0 where
  pub links : Links q.cells null xs null
  pub back_first : q.back ≡ first xs null
  pub front_last : q.front ≡ last xs null

-- All but the links is as it was.
pub record SameHeader (q s : Queue) : Type 0 where
  pub cur_num : q.cur_num ≡ s.cur_num
  pub max_num : q.max_num ≡ s.max_num
  pub use_sem : q.use_sem ≡ s.use_sem
  pub semaphore : q.semaphore ≡ s.semaphore
  pub has_del : q.has_del ≡ s.has_del
  pub erased : q.erased ≡ s.erased

-- `drift` is the number of calls of RtlPopBackQueue so far that met an empty queue: each of them
-- lowers `cur_num` all the same.
pub record IsQueue (drift : ℕ) (q : Queue) (xs : Cells ℕ) : Type 0 where
  pub linked : IsLinked q xs
  pub count : q.cur_num ≡ sub_ℕ (length xs) drift
  pub unlocked : (q.use_sem ≡ false) ⊎ (q.semaphore ≡ 1)

-- Inside the critical section the semaphore's value is 0.
abbrev pub held : Queue → ℕ
held q = if q.use_sem then 0 else q.semaphore

pub enter_free :
    (q : Queue)
    → (q.use_sem ≡ false) ⊎ (q.semaphore ≡ 1)
    → enter q ≡ ok tt (record q { semaphore = held q })
enter_free q h = ground arith

pub leave-held :
    (q : Queue)
    → (q.use_sem ≡ false) ⊎ (q.semaphore ≡ 1)
    → leave (record q { semaphore = held q }) ≡ ok tt q
leave-held q h = ground arith

-- The links do not depend on the count and on the semaphore.
pub IsLinked-header :
    (q : Queue) (xs : Cells ℕ) (c : ℤ) (v : ℕ)
    → IsLinked q xs
    → IsLinked (record q { cur_num = c; semaphore = v }) xs
IsLinked-header q xs c v l = record {
  links = l.links;
  back_first = l.back_first;
  front_last = l.front_last;
}

pub count_up : (c : ℤ) (n d : ℕ) → c ≡ sub_ℕ n d → c +ℤ pos 1 ≡ sub_ℕ (suc n) d
unfolding ◌+ℤ◌
count_up c n d e = ground arith

pub count_down : (c : ℤ) (n d : ℕ) → c ≡ sub_ℕ (suc n) d → c +ℤ negsuc 0 ≡ sub_ℕ n d
unfolding ◌+ℤ◌
count_down c n d e = ground arith

pub count_drift : (c : ℤ) (n d : ℕ) → c ≡ sub_ℕ n d → c +ℤ negsuc 0 ≡ sub_ℕ n (suc d)
unfolding ◌+ℤ◌
count_drift c n d e = ground arith

pub length-snoc : (xs : Cells ℕ) (x : Ptr × ℕ) → length (xs ++ x ∷ []) ≡ suc (length xs)
length-snoc xs x = omega (arith, length-append xs (x ∷ []))

pub Apart-single : (xs : Cells ℕ) (p v : ℕ) → has p xs ≡ false → Apart xs ((p, v) ∷ [])
Apart-single [] p v h = tt
Apart-single ((r, w) ∷ xs) p v h = (ground arith, Apart-single xs p v (ground arith))

pub has_of_Apart : (xs : Cells ℕ) (p v : ℕ) → Apart xs ((p, v) ∷ []) → has p xs ≡ false
has_of_Apart [] p v h = refl
has_of_Apart ((r, w) ∷ xs) p v h = ground (arith, has_of_Apart xs p v h.1)

pub is_zero_drained : (n d : ℕ) → n + 1 ≡ d → is_zero (sub_ℕ (suc n) d) ≡ true
is_zero_drained n d h = ground arith

pub is_zero_undrained : (n d : ℕ) → n + 1 ≢ d → is_zero (sub_ℕ (suc n) d) ≡ false
is_zero_undrained n d h = ground arith
