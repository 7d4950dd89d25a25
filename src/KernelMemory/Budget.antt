-- ===== src/KernelMemory/Budget.antt =====
-- The share of the kernel's heap that a space has taken, in kernel/mm/kernelmemory.c.
use sgos.Prelude.{
  ℕ, ◌+◌, ◌-◌, ◌^◌, ◌%◌, ◌≤◌, ◌<◌, ◌≡◌, ◌≢◌, refl, ◌∙◌, ap, true, false, Bool-cases, inl, inr, some,
  if◌then◌else◌, ltb, arith, length,
}
use sgos.Prelude.Run.{ok, step, Cmd}
use sgos.Dll.{Ptr, null}
use sgos.Dll.Links.{Cells}
use sgos.Allocator.{Allocator, Block, is_free, mm_alloc, mm_free, node_size, word}
use sgos.Allocator.Tiles.{block_at}
use sgos.Allocator.Shape.{IsHeap, Coalesced}
use sgos.Allocator.Allocate.{Allocated, mm_alloc_success, mm_alloc_failure}
use sgos.Allocator.Occupy.{IsHeap-flag}
use sgos.Allocator.Roundtrip.{mm_free-mm_alloc}
use sgos.KernelMemory.{
  KernelMemory, on_heap, int_lt, align, allocate_kernel_memory, free_kernel_memory,
}

-- The 32 bits of a number that is not negative.
abbrev pub Positive : ℕ → Type 0
Positive n = n < 2 ^ 31

on_heap_lem :
    {A : Type 0} (m : Cmd Allocator A) (s : KernelMemory) (x : A) (t : Allocator)
    → m s.heap ≡ ok x t
    → on_heap m s ≡ ok x (record s { heap = t })
on_heap_lem m s x t e = rw (e, on_heap)

abbrev charged : KernelMemory → ℕ → Allocator → KernelMemory
charged s n t = record s { heap = t; allocated = s.allocated + n }

within_run :
    (siz stale fuel : ℕ) (s : KernelMemory) (p : Ptr) (t : Allocator)
    → s.space ≡ true
    → Positive s.capacity
    → s.allocated + align siz ≤ s.capacity
    → mm_alloc (align siz) stale fuel s.heap ≡ ok p t
    → allocate_kernel_memory siz stale fuel s ≡ ok p (charged s (align siz) t)
unfolding allocate_kernel_memory
within_run siz stale fuel s p t sp cap le run =
    let w : word (s.allocated + align siz) ≡ s.allocated + align siz = omega arith in
    let u : int_lt s.capacity (s.allocated + align siz) ≡ false = ground arith in
    rw sp (
      rw w (
        rw u (
          on_heap_lem (mm_alloc (align siz) stale fuel)
            (record s { allocated = s.allocated + align siz; space = true }) p t run)))

-- A size is rounded up to a multiple of 4.
pub align_bounds :
    (siz : ℕ) → siz + 4 ≤ 2 ^ 32 → (siz ≤ align siz) × (align siz < siz + 4) × (align siz % 4 ≡ 0)
align_bounds siz h = ground arith

-- Over the budget of its space MmAllocateKernelMemory gives NULL, and changes nothing.
pub allocate_kernel_memory_refuses :
    (siz stale fuel : ℕ) (s : KernelMemory)
    → s.space ≡ true
    → Positive s.capacity
    → Positive (s.allocated + align siz)
    → s.capacity < s.allocated + align siz
    → allocate_kernel_memory siz stale fuel s ≡ ok null s
unfolding allocate_kernel_memory
allocate_kernel_memory_refuses siz stale fuel s sp cap small over =
    let w : word (s.allocated + align siz) ≡ s.allocated + align siz = omega arith in
    let u : int_lt s.capacity (s.allocated + align siz) ≡ true = ground arith in
    let back : word (s.allocated + align siz + 2 ^ 32 - align siz) ≡ s.allocated = omega arith in
    rw sp (rw w (rw u (ap (λ (n : ℕ). ok null (record s { allocated = n; space = true })) back)))

-- Within the budget, and with a free block that has room for the rounded size, the heap allocates
-- such a block, and the space is charged the rounded size.
pub allocate_kernel_memory_success :
    (start end siz stale fuel : ℕ) (s : KernelMemory) (bs : Cells Block) (q : Ptr) (c : Block)
    → IsHeap start end s.heap bs
    → Coalesced bs
    → length bs < fuel
    → align siz ≢ 0
    → block_at q bs ≡ some c
    → is_free c ≡ true
    → align siz ≤ c.size
    → s.space ≡ true
    → Positive s.capacity
    → s.allocated + align siz ≤ s.capacity
    → (x : Allocated start end (align siz) stale fuel s.heap bs) × (allocate_kernel_memory siz stale
          fuel s
        ≡ ok
            (x.address + node_size)
            (record s { heap = x.after; allocated = s.allocated + align siz }))
allocate_kernel_memory_success start end siz stale fuel s bs q c h co enough nz e f room sp cap le =
    let x =
      mm_alloc_success start end (align siz) stale fuel s.heap bs q c h co enough nz e f room in
    (x, within_run siz stale fuel s (x.address + node_size) x.after sp cap le x.run)

-- Within the budget, but with no free block that has room, MmAllocateKernelMemory gives NULL, and
-- the space is charged all the same.
pub allocate_kernel_memory_charges :
    (start end siz stale fuel : ℕ) (s : KernelMemory) (bs : Cells Block)
    → IsHeap start end s.heap bs
    → length bs < fuel
    → align siz ≢ 0
    → ((q : Ptr) (c : Block) → block_at q bs ≡ some c → is_free c ≡ true → c.size < align siz)
    → s.space ≡ true
    → Positive s.capacity
    → s.allocated + align siz ≤ s.capacity
    → (t : KernelMemory) × (allocate_kernel_memory siz stale fuel s ≡ ok null t)
      × (t.allocated ≡ s.allocated + align siz)
      × IsHeap start end t.heap bs
allocate_kernel_memory_charges start end siz stale fuel s bs h enough nz small sp cap le =
    let idle : Allocator = record s.heap { in_allocator = 0 } in
    (
      charged s (align siz) idle,
      within_run siz stale fuel s null idle sp cap le
          (mm_alloc_failure start end (align siz) stale fuel s.heap bs h enough nz small),
      refl,
      IsHeap-flag start end 0 s.heap bs h,
    )

floor_lem :
    (x n : ℕ)
    → Positive x
    → Positive n
    → (if int_lt (word (x + 2 ^ 32 - n)) 0 then 0 else word (x + 2 ^ 32 - n)) ≡ x - n
floor_lem x n a b = elim (Bool-cases (ltb x n)) [
  | inl low ↦
      let w : word (word (x + 2 ^ 32 - n) + 2 ^ 31) ≡ x + 2 ^ 31 - n = ground arith in ground arith
  | inr high ↦ let w : word (x + 2 ^ 32 - n) ≡ x - n = ground arith in ground arith
]

free_run :
    (p n : ℕ) (s : KernelMemory) (t : Allocator)
    → s.space ≡ true
    → Positive s.allocated
    → Positive n
    → mm_free p s.heap ≡ ok n t
    → free_kernel_memory p s ≡ ok tt (record s { heap = t; allocated = s.allocated - n })
unfolding free_kernel_memory
free_run p n s t sp a b run =
    step _ (on_heap_lem (mm_free p) s n t run)
    ∙ rw sp (
        ap (λ (k : ℕ). ok tt (record s { heap = t; allocated = k; space = true }))
          (floor_lem s.allocated n a b))

-- MmFreeKernelMemory of what MmAllocateKernelMemory gave leaves the blocks as they were. The space
-- may then be charged less than before, by up to 31 bytes, but not more.
pub free_kernel_memory-allocate_kernel_memory :
    (start end siz stale fuel : ℕ) (s : KernelMemory) (bs : Cells Block) (q : Ptr) (c : Block)
    → IsHeap start end s.heap bs
    → Coalesced bs
    → length bs < fuel
    → align siz ≢ 0
    → block_at q bs ≡ some c
    → is_free c ≡ true
    → align siz ≤ c.size
    → s.space ≡ true
    → Positive (s.capacity + 32)
    → s.allocated + align siz ≤ s.capacity
    → (p : Ptr) × (t : KernelMemory) × (allocate_kernel_memory siz stale fuel s ≡ ok p t)
      × (u : KernelMemory) × (free_kernel_memory p t ≡ ok tt u)
      × IsHeap start end u.heap bs
      × (u.allocated ≤ s.allocated)
      × (s.allocated < u.allocated + 32)
free_kernel_memory-allocate_kernel_memory start end siz stale fuel s bs q c h co enough nz e f room
      sp cap le =
    let (p, t, run, n, t', run', h', lo, hi) =
      mm_free-mm_alloc start end (align siz) stale fuel s.heap bs q c h co enough nz e f room in
    let u = charged s (align siz) t in
    (
      p,
      u,
      within_run siz stale fuel s p t sp (omega arith) le run,
      record u { heap = t'; allocated = u.allocated - n },
      free_run p n u t' sp (omega arith) (omega arith) run',
      h',
      omega arith,
      omega arith,
    )
