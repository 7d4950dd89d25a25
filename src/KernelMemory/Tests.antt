-- ===== src/KernelMemory/Tests.antt =====
-- The theorems on kernel/mm/kernelmemory.c at concrete inputs.
use sgos.Prelude.{◌+◌, ◌≤◌, ◌<◌, ◌≡◌, refl, true, arith}
use sgos.Prelude.Run.{ok}
use sgos.Dll.{Ptr, null}
use sgos.Allocator.Shape.{IsHeap}
use sgos.Allocator.Demo.{demo, blocks, high_block, demo-IsHeap, demo-Coalesced}
use sgos.KernelMemory.{KernelMemory, align, allocate_kernel_memory, free_kernel_memory}
use sgos.KernelMemory.Budget.{
  allocate_kernel_memory_charges, free_kernel_memory-allocate_kernel_memory,
}

abbrev pool : KernelMemory
pool = record { heap = demo; allocated = 100; capacity = 200; space = true }

allocate_kernel_memory_charges_example :
    (t : KernelMemory) × (allocate_kernel_memory 90 9 4 pool ≡ ok null t)
    × (t.allocated ≡ 100 + align 90)
    × IsHeap 4096 4384 t.heap blocks
allocate_kernel_memory_charges_example =
    allocate_kernel_memory_charges 4096 4384 90 9 4 pool blocks demo-IsHeap (omega arith)
      (omega arith) (λ q c e f. ground arith) refl (omega arith) (omega arith)

free_kernel_memory-allocate_kernel_memory_example :
    (p : Ptr) × (t : KernelMemory) × (allocate_kernel_memory 70 9 4 pool ≡ ok p t)
    × (u : KernelMemory) × (free_kernel_memory p t ≡ ok tt u)
    × IsHeap 4096 4384 u.heap blocks
    × (u.allocated ≤ 100)
    × (100 < u.allocated + 32)
free_kernel_memory-allocate_kernel_memory_example =
    free_kernel_memory-allocate_kernel_memory 4096 4384 70 9 4 pool blocks 4284 high_block
      demo-IsHeap demo-Coalesced (omega arith) (omega arith) refl refl (omega arith) refl
      (omega arith) (omega arith)
