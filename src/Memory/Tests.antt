-- ===== src/Memory/Tests.antt =====
-- Tests of the page faults and of the user memory: a space with a lazy allocation and one that is
-- copied on write.
use sgos.Prelude.{ℕ, ◌+◌, ◌*◌, ◌≡◌, refl, none, some, [], ◌∷◌, ◌==◌, if◌then◌else◌, arith}
use sgos.Prelude.Run.{ok}
use sgos.Dll.{node, Heap}
use sgos.Dll.Links.{Cells}
use sgos.Frames.{get_page, index}
use sgos.Frames.Demo.{machine, next_free_ne, twice}
use sgos.Virtual.{Vma, VirtualMemory, vma_at}
use sgos.Virtual.Shape.{IsVirtual, Ordered}
use sgos.Virtual.Lookup.{get_vma_by_address_held}
use sgos.Paging.{Paging, find_page}
use sgos.Paging.Translate.{IsDirectory, Mapped, find_page_at}
use sgos.Paging.Demo.{memory_unit, memory_unit-IsDirectory, has_table, words}
use sgos.Memory.{Memory, user_range, find_vma, handle_non_present, handle_read_only}
use sgos.Memory.Fault.{handle_non_present-Mapped, handle_read_only_frees}
use sgos.Memory.Find.{find_vma_run}

-- The first page of 4 MB is shared, those after it are lazy.
abbrev shared_vma : Vma
shared_vma = vma_at 0x00400000 0x1000 7 2048

abbrev lazy_vma : Vma
lazy_vma = vma_at 0x00401000 0x4000 7 64

abbrev vmas : Heap Vma
vmas p =
    if p == 100
    then some (node 0 shared_vma 101)
    else if p == 101
    then some (node 100 lazy_vma 0)
    else none

abbrev user_part : VirtualMemory
user_part = record {
  first_allocation = 100;
  last_allocation = 101;
  lower_limit = 0x00100000;
  upper_limit = 0xC0000000;
  access_lock = 1;
  cells = vmas;
}

abbrev vma_list : Cells Vma
vma_list = (100, shared_vma) ∷ (101, lazy_vma) ∷ []

user-IsVirtual : IsVirtual user_part vma_list
user-IsVirtual = record { links = ground arith; first_is = refl; last_is = refl; lock_free = refl }

user-Ordered : Ordered 0x00100000 vma_list 0xC0000000
user-Ordered = omega arith

abbrev space : Memory
space = record {
  paging = memory_unit;
  directory = 1024;
  user = user_part;
  kernel = user_part;
  global = user_part;
  user_allocated = 0x5000;
  user_capacity = 0x00100000;
}

finds_lazy : find_vma user_range 3 0x00402abc space ≡ ok (some lazy_vma) space
finds_lazy =
    find_vma_run user_range 3 0x00402abc space 101 100 0 lazy_vma
      (get_vma_by_address_held 3 0x00402abc user_part ((100, shared_vma) ∷ []) 101 lazy_vma []
        0x00100000 0xC0000000 user-IsVirtual user-Ordered (omega arith) (omega arith) refl)
      (omega arith) refl

finds_shared : find_vma user_range 3 0x00400010 space ≡ ok (some shared_vma) space
finds_shared =
    find_vma_run user_range 3 0x00400010 space 100 0 101 shared_vma
      (get_vma_by_address_held 3 0x00400010 user_part [] 100 shared_vma ((101, lazy_vma) ∷ [])
        0x00100000 0xC0000000 user-IsVirtual user-Ordered (omega arith) (omega arith) refl)
      (omega arith) refl

handle_non_present-Mapped_example :
    (t : Paging) × (handle_non_present 3 0x00402abc space ≡ ok 1 (record space { paging = t }))
    × Mapped 1024 0x00402000 (get_page machine).0 7 memory_unit t
    × IsDirectory 1024 t
handle_non_present-Mapped_example =
    handle_non_present-Mapped space 3 0x00402abc lazy_vma (omega arith) memory_unit-IsDirectory
      has_table next_free_ne finds_lazy refl refl

shared_page : find_page words 1024 0x00400000 ≡ some (1029 * 4096, 7)
shared_page =
    find_page_at words 1024 0x00400000 (1025 * 4096 + 7) (1029 * 4096 + 7) refl (omega arith) refl

handle_read_only_frees_example :
    (t : Paging) × (handle_read_only 3 0x00400010 space ≡ ok 1 (record space { paging = t }))
    × (find_page t.memory 1024 0x00400000 ≡ some ((get_page machine).0, 7))
    × (t.frames.page_ref (index (get_page machine).0) ≡ 0)
    × ((j : ℕ) → t.frames.page_ref j ≡ machine.page_ref j)
handle_read_only_frees_example =
    handle_read_only_frees space 3 0x00400010 shared_vma (omega arith) memory_unit-IsDirectory
      has_table next_free_ne (1029 * 4096) 7 finds_shared refl shared_page (omega (arith, twice))
