-- ===== src/Spaces.antt =====
-- kernel/mm/physical.c: the pages of a range exchanged between two spaces, or shared by them
-- (MmSwapMultiplePhysicalPages, MmDuplicateMultiplePhysicalPages). The spaces are two different
-- ones, `dest` and `src`, each with its directory and the list of its allocations.
pub mod Range
mod Tests
use sgos.Prelude.{
  ℕ, zero, suc, ◌+◌, ◌-◌, ◌*◌, ◌/◌, ◌%◌, ◌^◌, Bool, true, false, not, ◌&&◌, ◌||◌, none, some, ◌==◌,
  if◌then◌else◌, ltb, leb,
}
use sgos.Prelude.Int.{ℤ, pos, negsuc}
use sgos.Prelude.Run.{
  Run, ok, fault, blocked, out_of_fuel, Cmd, pure, and_then, ◌>>=◌, ◌>>◌, get, modify, when,
}
use sgos.Dll.{Ptr, Node, load, write}
use sgos.Virtual.{Vma, VirtualMemory, flagged, read, get_vma_by_address, add32}
use sgos.Paging.{Paging}
use sgos.Pages.{swap_page, duplicate_page, with_flag, without_flag}

pub data Side : Type 0 where
  dest src : Side

pub record Spaces : Type 0 where
  pub paging : Paging
  pub dest_directory : ℕ
  pub src_directory : ℕ
  pub dest_memory : VirtualMemory
  pub src_memory : VirtualMemory

abbrev pub on_paging : {A : Type 0} → Cmd Paging A → Cmd Spaces A
on_paging m s = elim (m s.paging) [
  | ok a t ↦ ok a (record s { paging = t })
  | fault ↦ fault
  | blocked t ↦ blocked (record s { paging = t })
  | out_of_fuel ↦ out_of_fuel
]

abbrev pub memory_of : Side → Spaces → VirtualMemory
memory_of Side.dest s = s.dest_memory
memory_of Side.src s = s.src_memory

abbrev pub set_memory : Side → Spaces → VirtualMemory → Spaces
set_memory Side.dest s vm = record s { dest_memory = vm }
set_memory Side.src s vm = record s { src_memory = vm }

abbrev pub on_memory : {A : Type 0} → Side → Cmd VirtualMemory A → Cmd Spaces A
on_memory side m s = elim (m (memory_of side s)) [
  | ok a t ↦ ok a (set_memory side s t)
  | fault ↦ fault
  | blocked t ↦ blocked (set_memory side s t)
  | out_of_fuel ↦ out_of_fuel
]

-- ALLOC_SWAP, ALLOC_VIRTUAL, PAGE_ATTR_WRITE and PAGE_ATTR_COPYONWRITE
abbrev pub alloc_swap : ℕ
alloc_swap = 4

abbrev pub alloc_virtual : ℕ
alloc_virtual = 1

abbrev pub attr_write : ℕ
attr_write = 2

abbrev pub attr_copy_on_write : ℕ
attr_copy_on_write = 2 ^ 11

abbrev pub aligned : ℕ → Bool
aligned n = n % 4096 == 0

-- `addr + siz > vma->VirtualAddress + vma->VirtualSize`
abbrev pub beyond : ℕ → ℕ → Vma → Bool
beyond addr siz v = ltb (add32 v.address v.size) (add32 addr siz)

abbrev is_negative : ℤ → Bool
is_negative (pos n) = false
is_negative (negsuc n) = true

-- `vma->AllocationFlag = f(vma->AllocationFlag)`
abbrev set_flag : Ptr → (ℕ → ℕ) → Cmd VirtualMemory (Unit {0})
set_flag p f vm = elim (load vm.cells p) [
  | none ↦ fault
  | some n ↦ ok tt (record vm {
    cells = write vm.cells p (some (record n { v = record n.v { flag = f n.v.flag } }));
  })
]

-- The allocation of an address, read with no test for NULL.
pub find_vma : ℕ → ℕ → Cmd VirtualMemory (Ptr × Vma)
find_vma fuel addr = do vma ← get_vma_by_address fuel addr; n ← read vma; pure (vma, n.v)

-- The loops, with `count` pages to go.
pub swap_pages : ℕ → ℕ → ℕ → ℕ → ℕ → ℕ → ℕ → Cmd Paging ℕ
swap_pages zero dd dest_addr sd src_addr siz flag = pure siz
swap_pages (suc count) dd dest_addr sd src_addr siz flag = do
  result ← swap_page dd dest_addr sd src_addr flag
  if is_negative result
      then pure (siz - suc count * 4096)
      else swap_pages count dd (add32 dest_addr 4096) sd (add32 src_addr 4096) siz flag

duplicate_pages : ℕ → ℕ → ℕ → ℕ → ℕ → ℕ → Cmd Paging ℕ
duplicate_pages zero dd dest_addr sd src_addr siz = pure siz
duplicate_pages (suc count) dd dest_addr sd src_addr siz = do
  result ← duplicate_page dd dest_addr sd src_addr
  if is_negative result
      then pure (siz - suc count * 4096)
      else duplicate_pages count dd (add32 dest_addr 4096) sd (add32 src_addr 4096) siz

-- Past the test of the arguments.
pub swap_range : ℕ → ℕ → ℕ → ℕ → ℕ → Cmd Spaces ℕ
swap_range fuel dest_addr src_addr siz flag = do
  s ← on_memory Side.src (find_vma fuel src_addr)
  if not (flagged s.1.flag alloc_swap) || beyond src_addr siz s.1 then pure 0 else do
    d ← on_memory Side.dest (find_vma fuel dest_addr)
    if not (flagged d.1.flag alloc_swap) || beyond dest_addr siz d.1 then pure 0 else do
      dd ← get λ t. t.dest_directory
      sd ← get λ t. t.src_directory
      on_paging (swap_pages (siz / 4096) dd dest_addr sd src_addr siz flag)

pub swap_multiple : ℕ → ℕ → ℕ → ℕ → ℕ → Cmd Spaces ℕ
swap_multiple fuel dest_addr src_addr siz flag =
    if aligned dest_addr && aligned src_addr && aligned siz
    then swap_range fuel dest_addr src_addr siz flag
    else pure 0

-- Once both allocations are marked: the pages, and the flag of the destination if all are shared.
duplicate_marked : ℕ → ℕ → ℕ → Ptr → Cmd Spaces ℕ
duplicate_marked dest_addr src_addr siz vma = do
  dd ← get λ t. t.dest_directory
  sd ← get λ t. t.src_directory
  done ← on_paging (duplicate_pages (siz / 4096) dd dest_addr sd src_addr siz)
  when (done == siz) (on_memory Side.dest (set_flag vma (without_flag alloc_virtual)))
  pure done

duplicate_range : ℕ → ℕ → ℕ → ℕ → Cmd Spaces ℕ
duplicate_range fuel dest_addr src_addr siz = do
  s ← on_memory Side.src (find_vma fuel src_addr)
  if not (flagged s.1.attribute attr_write) || beyond src_addr siz s.1 then pure 0 else do
    on_memory Side.src (set_flag s.0 (with_flag attr_copy_on_write))
    d ← on_memory Side.dest (find_vma fuel dest_addr)
    if not (flagged d.1.attribute attr_write)
          || beyond dest_addr siz d.1
          || not (flagged d.1.flag alloc_virtual)
        then pure 0
        else do
          on_memory Side.dest (set_flag d.0 (with_flag attr_copy_on_write))
          duplicate_marked dest_addr src_addr siz d.0

pub duplicate_multiple : ℕ → ℕ → ℕ → ℕ → Cmd Spaces ℕ
duplicate_multiple fuel dest_addr src_addr siz =
    if aligned dest_addr && aligned src_addr && aligned siz
    then duplicate_range fuel dest_addr src_addr siz
    else pure 0
