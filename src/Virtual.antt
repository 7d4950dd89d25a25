-- ===== src/Virtual.antt =====
-- kernel/mm/virtual.c: the allocations of a virtual address range, a doubly linked list.
-- `KVirtualMemory` is the record `VirtualMemory` with the memory that its nodes live in; a node's
-- data is a `Vma`. Addresses and sizes are numbers below 2 ^ 32 and wrap as `size_t` does.
-- Of the lock `AccessLock` only the value is kept: one that is not free ends the run as `blocked`.
-- What MmAllocateKernelMemory returns is the argument `buf`, with what that memory held, `stale`.
pub mod Shape
pub mod Lookup
pub mod Release
mod Tests
pub mod Gaps
pub mod FirstFit
pub mod Insert
pub mod Allocate
use sgos.Prelude.{
  ℕ, zero, suc, ◌+◌, ◌-◌, ◌%◌, ◌^◌, Bool, true, false, not, ◌&&◌, ◌||◌, Option, none, some, ◌==◌,
  if◌then◌else◌, ltb, leb, bit_and,
}
use sgos.Prelude.Run.{
  Run, ok, fault, blocked, out_of_fuel, Cmd, pure, and_then, ◌>>=◌, ◌>>◌, get, modify,
}
use sgos.Dll.{Ptr, null, Node, node, Heap, write, load, set_prev, set_next, link_next, link_prev}

pub record Vma : Type 0 where
  pub address : ℕ
  pub size : ℕ
  pub attribute : ℕ
  pub flag : ℕ

pub record VirtualMemory : Type 0 where
  pub first_allocation : Ptr
  pub last_allocation : Ptr
  pub lower_limit : ℕ
  pub upper_limit : ℕ
  pub access_lock : ℕ
  pub cells : Heap Vma

abbrev pub page_size : ℕ
page_size = 4096

abbrev pub add32 : ℕ → ℕ → ℕ
add32 a b = (a + b) % 2 ^ 32

abbrev pub sub32 : ℕ → ℕ → ℕ
sub32 a b = (a + 2 ^ 32 - b) % 2 ^ 32

abbrev pub alloc_random : ℕ
alloc_random = 8

abbrev pub alloc_highmem : ℕ
alloc_highmem = 16

-- `flag & mask`, as a condition.
abbrev pub flagged : ℕ → ℕ → Bool
flagged flag mask = not (bit_and flag mask == 0)

abbrev pub is_null : Ptr → Bool
is_null p = p == null

abbrev pub down : Cmd VirtualMemory (Unit {0})
down vm =
    let v = sub32 vm.access_lock 1 in
    let vm' : VirtualMemory = record vm { access_lock = v } in
    if v == 0 then ok tt vm' else blocked vm'

abbrev pub up : Cmd VirtualMemory (Unit {0})
up vm = ok tt (record vm { access_lock = add32 vm.access_lock 1 })

abbrev pub store : (Heap Vma → Option (Heap Vma)) → Cmd VirtualMemory (Unit {0})
store op vm = elim (op vm.cells) [ none ↦ fault | some g ↦ ok tt (record vm { cells = g }) ]

abbrev pub read : Ptr → Cmd VirtualMemory (Node Vma)
read p vm = elim (load vm.cells p) [ none ↦ fault | some n ↦ ok n vm ]

abbrev pub free : Ptr → Cmd VirtualMemory (Unit {0})
free p = modify λ vm. record vm { cells = write vm.cells p none }

-- MmInitializeVirtualMemory
pub initialize : ℕ → ℕ → VirtualMemory → VirtualMemory
initialize beg end vm = record vm {
  lower_limit = beg;
  upper_limit = end;
  first_allocation = null;
  last_allocation = null;
  access_lock = 1;
}

-- InsertPreviousVma, for a `next` that is not NULL and for NULL.
pub insert_before : Ptr → Ptr → Cmd VirtualMemory (Unit {0})
insert_before vma next = do
  n ← read next
  if is_null n.prev
      then modify (λ vm. record vm { first_allocation = vma })
      else store (set_next n.prev vma)
  n' ← read next
  store (set_prev vma n'.prev)
  store (set_prev next vma)

pub insert_last : Ptr → Cmd VirtualMemory (Unit {0})
insert_last vma = do
  last ← get λ vm. vm.last_allocation
  store (set_prev vma last)
  if is_null last
      then modify (λ vm. record vm { first_allocation = vma })
      else store (set_next last vma)
  modify λ vm. record vm { last_allocation = vma }

pub insert_previous : Ptr → Ptr → Cmd VirtualMemory (Unit {0})
unfolding insert_before insert_last
insert_previous vma next = do
  store (set_next vma next)
  if is_null next then insert_last vma else insert_before vma next

-- The labels GOOD and BAD of MmAllocateVirtualMemory.
pub good : Ptr → Vma → Cmd VirtualMemory ℕ
good vma v = do
  n ← read vma
  modify λ vm. record vm { cells = write vm.cells vma (some (record n { v = v })) }
  up
  pure v.address

pub bad : Ptr → Cmd VirtualMemory ℕ
bad buf = do up; free buf; pure 0

-- The search from the low end: the allocation to insert before, or NULL, and the address.
pub low_loop : ℕ → ℕ → Ptr → ℕ → Cmd VirtualMemory (Ptr × ℕ)
low_loop zero size vma addr = λ vm. out_of_fuel
low_loop (suc k) size vma addr = if is_null vma then pure (null, addr) else do
  n ← read vma
  if leb (add32 addr size) n.v.address
      then pure (vma, addr)
      else low_loop k size n.next (add32 n.v.address n.v.size)

-- The search from the high end: the allocation to insert behind, or NULL, and the address.
pub high_loop : ℕ → ℕ → Ptr → ℕ → Cmd VirtualMemory (Ptr × ℕ)
high_loop zero size vma addr = λ vm. out_of_fuel
high_loop (suc k) size vma addr = if is_null vma then pure (null, addr) else do
  n ← read vma
  if leb (add32 n.v.address n.v.size) addr
      then pure (vma, addr)
      else high_loop k size n.prev (sub32 n.v.address size)

-- The search for the first allocation that does not begin below a given address.
pub fixed_loop : ℕ → ℕ → Ptr → Cmd VirtualMemory Ptr
fixed_loop zero addr vma = λ vm. out_of_fuel
fixed_loop (suc k) addr vma =
    if is_null vma
    then pure null
    else do n ← read vma; if ltb n.v.address addr then fixed_loop k addr n.next else pure vma

abbrev pub vma_at : ℕ → ℕ → ℕ → ℕ → Vma
vma_at addr size attr flag = record { address = addr; size = size; attribute = attr; flag = flag }

-- ALLOC_RANDOM with ALLOC_HIGHMEM.
pub allocate_high : ℕ → Ptr → ℕ → ℕ → ℕ → Cmd VirtualMemory ℕ
unfolding insert_previous good bad high_loop
allocate_high fuel buf size attr flag = do
  upper ← get λ vm. vm.upper_limit
  last ← get λ vm. vm.last_allocation
  r ← high_loop fuel size last (sub32 upper size)
  lower ← get λ vm. vm.lower_limit
  first ← get λ vm. vm.first_allocation
  if not (is_null r.0)
      then (do n ← read r.0; insert_previous buf n.next; good buf (vma_at r.1 size attr flag))
      else if ltb r.1 lower
      then bad buf
      else (do
        store (set_next buf first)
        store (link_prev first buf)
        modify λ vm. record vm { first_allocation = buf }
        good buf (vma_at r.1 size attr flag))

-- ALLOC_RANDOM without ALLOC_HIGHMEM.
pub allocate_low : ℕ → Ptr → ℕ → ℕ → ℕ → Cmd VirtualMemory ℕ
unfolding insert_previous good bad low_loop
allocate_low fuel buf size attr flag = do
  lower ← get λ vm. vm.lower_limit
  first ← get λ vm. vm.first_allocation
  r ← low_loop fuel size first lower
  upper ← get λ vm. vm.upper_limit
  if is_null r.0 && ltb upper (add32 r.1 size)
      then bad buf
      else (do insert_previous buf r.0; good buf (vma_at r.1 size attr flag))

-- At an address that the caller gives.
pub allocate_fixed : ℕ → Ptr → ℕ → ℕ → ℕ → ℕ → Cmd VirtualMemory ℕ
unfolding insert_previous good bad fixed_loop
allocate_fixed fuel buf addr size attr flag = do
  lower ← get λ vm. vm.lower_limit
  upper ← get λ vm. vm.upper_limit
  if ltb addr lower || ltb upper (add32 addr size) then bad buf else (do
    first ← get λ vm. vm.first_allocation
    vma ← fixed_loop fuel addr first
    overlap ←
        if is_null vma
        then pure false
        else (do n ← read vma; pure (ltb n.v.address (add32 addr size)))
    if overlap
        then bad buf
        else (do insert_previous buf vma; good buf (vma_at addr size attr flag)))

-- MmAllocateVirtualMemory
pub allocate : ℕ → Ptr → Node Vma → ℕ → ℕ → ℕ → ℕ → Cmd VirtualMemory ℕ
unfolding allocate_high allocate_low allocate_fixed
allocate fuel buf stale addr size attr flag vm =
    if ltb size page_size || not (size % page_size == 0)
    then ok 0 vm
    else if is_null buf
    then ok 0 vm
    else (do
      modify λ vm. record vm { cells = write vm.cells buf (some stale) }
      down
      if flagged flag alloc_random
          then (if flagged flag alloc_highmem
              then allocate_high fuel buf size attr flag
              else allocate_low fuel buf size attr flag)
          else allocate_fixed fuel buf addr size attr flag)
        vm

-- The search of MmGetVmaByAddress, from the last allocation on.
vma_loop : ℕ → ℕ → Ptr → Cmd VirtualMemory Ptr
vma_loop zero addr vma = λ vm. out_of_fuel
vma_loop (suc k) addr vma = if is_null vma then pure null else do
  n ← read vma
  if leb n.v.address addr && ltb addr (add32 n.v.address n.v.size)
      then pure vma
      else vma_loop k addr n.prev

-- MmGetVmaByAddress
pub get_vma_by_address : ℕ → ℕ → Cmd VirtualMemory Ptr
unfolding vma_loop
get_vma_by_address fuel addr = do
  down
  last ← get λ vm. vm.last_allocation
  vma ← vma_loop fuel addr last
  up
  pure vma

-- MmQueryVirtualAddressInformation: begin, end, attribute and flag, or nothing for -ERR_NONE.
pub query : ℕ → ℕ → Cmd VirtualMemory (Option (ℕ × ℕ × ℕ × ℕ))
unfolding get_vma_by_address
query fuel addr = do
  vma ← get_vma_by_address fuel addr
  if is_null vma then pure none else (do
    n ← read vma
    pure (some (n.v.address, add32 n.v.address n.v.size, n.v.attribute, n.v.flag)))

unlink_vma : Ptr → Cmd VirtualMemory (Unit {0})
unlink_vma vma = do
  n ← read vma
  if is_null n.prev
      then modify (λ vm. record vm { first_allocation = n.next })
      else store (set_next n.prev n.next)
  n' ← read vma
  if is_null n'.next
      then modify (λ vm. record vm { last_allocation = n'.prev })
      else store (set_prev n'.next n'.prev)

-- MmFreeVirtualMemory: the size that was freed, 0 if no allocation holds the address.
pub free_virtual_memory : ℕ → ℕ → Cmd VirtualMemory ℕ
unfolding get_vma_by_address unlink_vma
free_virtual_memory fuel p = do
  vma ← get_vma_by_address fuel p
  if is_null vma
      then pure 0
      else (do down; unlink_vma vma; up; n ← read vma; free vma; pure n.v.size)
