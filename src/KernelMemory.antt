-- ===== src/KernelMemory.antt =====
-- kernel/mm/kernelmemory.c: the kernel's heap, with the share of it that the current space may take.
-- `heap` is km_block; `allocated` and `capacity` are KernelMemoryAllocated and KernelMemoryCapacity
-- of the space that MmGetCurrentSpace gives (`space` is false where that is NULL). Both are of type
-- int: they are kept as the 32 bits, which `int_lt` compares with their sign.
pub mod Budget
mod Tests
use sgos.Prelude.{ℕ, ◌+◌, ◌-◌, ◌*◌, ◌/◌, ◌%◌, ◌^◌, Bool, ◌==◌, ltb, leb, if◌then◌else◌}
use sgos.Prelude.Run.{
  Run, ok, fault, blocked, out_of_fuel, Cmd, pure, and_then, ◌>>=◌, ◌>>◌, modify, when,
}
use sgos.Dll.{Ptr, null}
use sgos.Allocator.{Allocator, mm_alloc, mm_free, mm_check_allocated, word}

pub record KernelMemory : Type 0 where
  pub heap : Allocator
  pub allocated : ℕ
  pub capacity : ℕ
  pub space : Bool

abbrev pub on_heap : {A : Type 0} → Cmd Allocator A → Cmd KernelMemory A
on_heap m s = elim (m s.heap) [
  | ok a t ↦ ok a (record s { heap = t })
  | fault ↦ fault
  | blocked t ↦ blocked (record s { heap = t })
  | out_of_fuel ↦ out_of_fuel
]

abbrev pub int_lt : ℕ → ℕ → Bool
int_lt a b = ltb (word (a + 2 ^ 31)) (word (b + 2 ^ 31))

-- `siz & 3 ? (siz & ~3) + 4 : siz`
abbrev pub align : ℕ → ℕ
align siz = if siz % 4 == 0 then siz else word (siz / 4 * 4 + 4)

abbrev pub set_allocated : ℕ → Cmd KernelMemory (Unit {0})
set_allocated n = modify λ s. record s { allocated = n }

-- MmAllocateKernelMemory
pub allocate_kernel_memory : ℕ → ℕ → ℕ → Cmd KernelMemory Ptr
allocate_kernel_memory siz stale fuel s =
    let n = align siz in
    let total = word (s.allocated + n) in
    if s.space
    then (if int_lt s.capacity total
        then (do set_allocated (word (total + 2 ^ 32 - n)); pure null) s
        else (do set_allocated total; on_heap (mm_alloc n stale fuel)) s)
    else on_heap (mm_alloc n stale fuel) s

-- MmFreeKernelMemory
pub free_kernel_memory : Ptr → Cmd KernelMemory (Unit {0})
free_kernel_memory p s =
    (do
      siz ← on_heap (mm_free p)
      let left = word (s.allocated + 2 ^ 32 - siz)
      when s.space (set_allocated (if int_lt left 0 then 0 else left)))
      s

-- MmIsKernelMemoryAllocated
pub is_kernel_memory_allocated : ℕ → ℕ → Cmd KernelMemory ℕ
is_kernel_memory_allocated addr fuel = on_heap (mm_check_allocated addr fuel)
