-- ===== src/Memory/Find.antt =====
-- The allocation that a space has for an address (kernel/mm/physical.c).
use sgos.Prelude.{ℕ, ◌≡◌, ◌≢◌, some, arith}
use sgos.Prelude.Run.{ok}
use sgos.Dll.{Ptr, null, node}
use sgos.Virtual.{Vma, get_vma_by_address}
use sgos.Memory.{Memory, Range, user_range, kernel_range, global_range, range, find_vma}

-- The node that MmGetVmaByAddress finds is read.
pub find_vma_run :
    (r : Range) (fuel addr : ℕ) (s : Memory) (p b n : Ptr) (v : Vma)
    → get_vma_by_address fuel addr (range r s) ≡ ok p (range r s)
    → p ≢ null
    → (range r s).cells p ≡ some (node b v n)
    → find_vma r fuel addr s ≡ ok (some v) s
unfolding find_vma
find_vma_run user_range fuel addr s p b n v g nn c = ground arith
find_vma_run kernel_range fuel addr s p b n v g nn c = ground arith
find_vma_run global_range fuel addr s p b n v g nn c = ground arith
