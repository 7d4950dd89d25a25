-- ===== src/Memory.antt =====
-- kernel/mm/physical.c with the allocations of a space (page faults, MmMapMemory), and
-- kernel/mm/usermemory.c: one address space, which is the current one, with the ranges of the kernel
-- and of the global memory. Taking a new page in a fault fails as KERROR does, with a stop.
pub mod Fault
pub mod User
pub mod Global
pub mod Find
mod Tests
use sgos.Prelude.{
  ℕ, zero, suc, ◌+◌, ◌-◌, ◌*◌, ◌/◌, ◌%◌, ◌^◌, Bool, true, false, not, ◌&&◌, ◌||◌, Option, none,
  some, ◌==◌, if◌then◌else◌, ltb, leb, bit_or,
}
use sgos.Prelude.Int.{ℤ, pos, negsuc}
use sgos.Prelude.Run.{
  Run, ok, fault, blocked, out_of_fuel, Cmd, pure, and_then, ◌>>=◌, ◌>>◌, get, modify, when,
}
use sgos.Dll.{Ptr, null, Node}
use sgos.Frames.{get_reference}
use sgos.Virtual.{
  Vma, VirtualMemory, flagged, read, get_vma_by_address, allocate, free_virtual_memory, add32,
  sub32, alloc_random,
}
use sgos.Paging.{
  Paging, query, map_one, map_multiple, present, map_address, map_attribute, map_zero,
}
use sgos.Pages.{
  err_invalid, take_page, give_page, acquire_page, acquire_multiple, release_multiple, outputs,
}

pub record Memory : Type 0 where
  pub paging : Paging
  pub directory : ℕ
  pub user : VirtualMemory
  pub kernel : VirtualMemory
  pub global : VirtualMemory
  pub user_allocated : ℕ
  pub user_capacity : ℕ

pub data Range : Type 0 where
  user_range kernel_range global_range : Range

-- IS_KERNEL_MEMORY, then IS_USER_MEMORY; all other addresses are global.
abbrev pub is_kernel : ℕ → Bool
is_kernel addr = leb 0xC0000000 addr && ltb addr 0xE0000000

abbrev pub range_of : ℕ → Range
range_of addr =
    if is_kernel addr
    then Range.kernel_range
    else if ltb addr 0xC0000000
    then Range.user_range
    else Range.global_range

abbrev pub on_paging : {A : Type 0} → (ℕ → Cmd Paging A) → Cmd Memory A
on_paging m s = elim (m s.directory s.paging) [
  | ok a t ↦ ok a (record s { paging = t })
  | fault ↦ fault
  | blocked t ↦ blocked (record s { paging = t })
  | out_of_fuel ↦ out_of_fuel
]

abbrev pub range : Range → Memory → VirtualMemory
range Range.user_range s = s.user
range Range.kernel_range s = s.kernel
range Range.global_range s = s.global

abbrev pub set_range : Range → Memory → VirtualMemory → Memory
set_range Range.user_range s vm = record s { user = vm }
set_range Range.kernel_range s vm = record s { kernel = vm }
set_range Range.global_range s vm = record s { global = vm }

abbrev pub on_range : {A : Type 0} → Range → Cmd VirtualMemory A → Cmd Memory A
on_range r m s = elim (m (range r s)) [
  | ok a t ↦ ok a (set_range r s t)
  | fault ↦ fault
  | blocked t ↦ blocked (set_range r s t)
  | out_of_fuel ↦ out_of_fuel
]

-- The allocation that holds an address.
pub find_vma : Range → ℕ → ℕ → Cmd Memory (Option Vma)
find_vma r fuel addr = do
  p ← on_range r (get_vma_by_address fuel addr)
  if p == null then pure none else do n ← on_range r (read p); pure (some n.v)

abbrev pub page_of : ℕ → ℕ
page_of addr = addr / 4096 * 4096

abbrev pub alloc_virtual : ℕ
alloc_virtual = 1

abbrev pub alloc_zero : ℕ
alloc_zero = 2

abbrev pub alloc_lazy : ℕ
alloc_lazy = 64

abbrev pub attr_copy_on_write : ℕ
attr_copy_on_write = 2048

-- RtlCopyMemory32 of the 1024 words of a page.
abbrev pub copy_page : ℕ → ℕ → Paging → Paging
copy_page src dest s = record s {
  memory = λ q j. if (q == dest) && ltb j 1024 then s.memory src j else s.memory q j;
}

-- Of MmHandleReadOnlyPageFault: the page `old` is shared, so the space gets a copy.
copy_on_write : ℕ → ℕ → ℕ → Cmd Memory ℕ
copy_on_write addr old attr = do
  phys ← on_paging λ dir. take_page
  if phys == 0 then (λ s. fault) else do
    modify λ s. record s { paging = copy_page (old / 4096) (phys / 4096) s.paging }
    on_paging λ dir. map_one dir addr phys attr (map_address + map_attribute)
    on_paging λ dir. give_page phys
    pure 1

write_to : ℕ → Vma → Cmd Memory ℕ
unfolding copy_on_write
write_to addr vma = do
  r ← on_paging λ dir. query dir addr
  elim r [
    | none ↦ pure 0
    | some (phys, attr) ↦ do
      n ← get λ s. get_reference phys s.paging.frames
      if ltb 1 n
          then copy_on_write addr phys vma.attribute
          else (on_paging λ dir. map_one dir addr 0 vma.attribute map_attribute) >> pure 1
  ]

-- MmHandleReadOnlyPageFault, in the allocation that was found, and whole.
read_only_in : ℕ → Option Vma → Cmd Memory ℕ
unfolding write_to
read_only_in addr none = pure 0
read_only_in addr (some v) =
    if flagged v.flag attr_copy_on_write then write_to (page_of addr) v else pure 0

pub handle_read_only : ℕ → ℕ → Cmd Memory ℕ
unfolding find_vma read_only_in
handle_read_only fuel addr =
    find_vma (if is_kernel addr then Range.kernel_range else Range.user_range) fuel addr
    >>= read_only_in addr

abbrev is_zero : ℤ → Bool
is_zero (pos n) = n == 0
is_zero (negsuc n) = false

-- MmHandleNonPresentPageFault in a lazy allocation.
touch : ℕ → Vma → Cmd Memory ℕ
touch addr v = do
  ret ← on_paging λ dir.
      acquire_page dir addr v.attribute
        (if flagged v.flag alloc_zero then map_attribute + map_zero else map_attribute)
  if is_zero ret then pure 1 else (λ s. fault)

non_present_in : ℕ → Option Vma → Cmd Memory ℕ
unfolding touch
non_present_in addr none = pure 0
non_present_in addr (some v) =
    if flagged v.flag alloc_lazy then touch (page_of addr) v else (λ s. fault)

pub handle_non_present : ℕ → ℕ → Cmd Memory ℕ
unfolding find_vma non_present_in
handle_non_present fuel addr = find_vma (range_of addr) fuel addr >>= non_present_in addr

-- MmMapMemory: of a reserved allocation, once it is found.
map_reserved : ℕ → ℕ → ℕ → ℕ → ℕ → Vma → Cmd Memory ℤ
map_reserved virt phys size attr flag v = do
  q ← on_paging λ dir. query dir virt
  if not (present (outputs q).1 == 0) then pure err_invalid else do
    on_paging
        λ dir. map_multiple dir virt phys size (bit_or attr v.attribute) (bit_or flag map_attribute)
    pure (pos 0)

pub map_memory : ℕ → ℕ → ℕ → ℕ → ℕ → ℕ → Cmd Memory ℤ
unfolding find_vma map_reserved
map_memory fuel virt phys size attr flag = do
  r ← find_vma (range_of virt) fuel virt
  elim r [
    | none ↦ pure err_invalid
    | some v ↦
        if not (flagged v.flag alloc_virtual) || ltb (add32 v.address v.size) (add32 virt size)
        then pure err_invalid
        else map_reserved virt phys size attr flag v
  ]

-- The amounts of memory are of type int: `a < b` for them, as numbers below 2 ^ 32.
abbrev pub ltb_int : ℕ → ℕ → Bool
ltb_int a b = ltb (add32 a (2 ^ 31)) (add32 b (2 ^ 31))

abbrev pub not_negative : ℕ → ℕ
not_negative a = if ltb_int a 0 then 0 else a

-- MmFreeUserMemory
pub free_user_memory : ℕ → ℕ → Cmd Memory (Unit {0})
free_user_memory fuel p = do
  siz ← on_range Range.user_range (free_virtual_memory fuel p)
  on_paging λ dir. release_multiple dir p siz
  modify λ s. record s { user_allocated = not_negative (sub32 s.user_allocated siz) }

-- MmAllocateUserMemoryAddress, once there is a range at `ptr`. The result of
-- MmAcquireMultiplePhysicalPages is never below 0, so that it is not looked at.
fill_memory : ℕ → ℕ → ℕ → ℕ → Cmd Memory ℕ
fill_memory ptr siz attr flag = do
  when (not (flagged flag alloc_virtual) && not (flagged flag alloc_lazy)) (
      (on_paging λ dir.
        acquire_multiple dir ptr siz attr
          (if flagged flag alloc_zero then map_attribute + map_zero else map_attribute))
      >> pure tt)
  pure ptr

-- `buf` and `stale` are the memory for the allocation's node.
pub allocate_user_memory_address : ℕ → Ptr → Node Vma → ℕ → ℕ → ℕ → ℕ → Cmd Memory ℕ
unfolding fill_memory
allocate_user_memory_address fuel buf stale addr siz attr flag =
    if not (addr % 4096 == 0) || not (siz % 4096 == 0) then (λ s. fault) else do
      modify λ s. record s { user_allocated = add32 s.user_allocated siz }
      allocated ← get λ s. s.user_allocated
      capacity ← get λ s. s.user_capacity
      if ltb_int capacity allocated
          then (modify λ s. record s { user_allocated = sub32 s.user_allocated siz }) >> pure 0
          else do
            ptr ← on_range Range.user_range (allocate fuel buf stale addr siz (bit_or attr 5) flag)
            if ptr == null
                then (modify λ s. record s { user_allocated = sub32 s.user_allocated siz })
                  >> pure 0
                else fill_memory ptr siz (bit_or attr 5) flag

pub allocate_user_memory : ℕ → Ptr → Node Vma → ℕ → ℕ → ℕ → Cmd Memory ℕ
unfolding allocate_user_memory_address
allocate_user_memory fuel buf stale siz attr flag =
    allocate_user_memory_address fuel buf stale 0 siz attr (bit_or flag alloc_random)
