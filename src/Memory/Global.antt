-- ===== src/Memory/Global.antt =====
-- kernel/mm/globalmemory.c: the range of the global memory, mapped in the current space.
use sgos.Prelude.{ℕ, ◌%◌, not, ◌&&◌, ◌==◌, if◌then◌else◌, bit_or}
use sgos.Prelude.Run.{fault, Cmd, pure, ◌>>=◌, ◌>>◌, modify, when}
use sgos.Dll.{Ptr, null, Node}
use sgos.Virtual.{Vma, flagged, allocate, free_virtual_memory, alloc_random, initialize}
use sgos.Paging.{map_attribute}
use sgos.Pages.{acquire_multiple, release_multiple}
use sgos.Memory.{Memory, Range, on_paging, on_range, alloc_virtual, alloc_lazy}

pub initialize_global_memory_pool : Cmd Memory (Unit {0})
initialize_global_memory_pool =
    modify λ s. record s { global = initialize 0xE0000000 0xE0400000 s.global }

-- `buf` and `stale` are the memory for the allocation's node.
pub allocate_global_memory : ℕ → Ptr → Node Vma → ℕ → ℕ → ℕ → Cmd Memory ℕ
allocate_global_memory fuel buf stale siz attr flag =
    if not (siz % 4096 == 0) then (λ s. fault) else do
      ptr ←
          on_range Range.global_range
            (allocate fuel buf stale 0 siz (bit_or attr 5) (bit_or flag alloc_random))
      if ptr == null then pure 0 else do
        when (not (flagged flag alloc_virtual) && not (flagged flag alloc_lazy)) (
            (on_paging λ dir. acquire_multiple dir ptr siz (bit_or attr 5) map_attribute)
            >> pure tt)
        pure ptr

pub free_global_memory : ℕ → ℕ → Cmd Memory (Unit {0})
free_global_memory fuel p = if p == 0 then pure tt else do
  siz ← on_range Range.global_range (free_virtual_memory fuel p)
  on_paging λ dir. release_multiple dir p siz
