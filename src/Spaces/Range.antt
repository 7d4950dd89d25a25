-- ===== src/Spaces/Range.antt =====
-- MmSwapMultiplePhysicalPages of kernel/mm/physical.c, on every path.
use sgos.Prelude.{
  ℕ, ◌/◌, ◌^◌, ◌<◌, ◌≡◌, ◌≢◌, ◌∙◌, ◌⊎◌, inl, inr, true, false, not, ◌&&◌, ◌||◌, Bool-cases, some,
  ◌∷◌, ◌++◌, arith, length,
}
use sgos.Prelude.Int.{pos}
use sgos.Prelude.Run.{ok, fault, step, step_fault, Cmd}
use sgos.Dll.{Ptr, null, Node, node}
use sgos.Dll.Links.{Cells, first, last, Links-split}
use sgos.Virtual.{Vma, VirtualMemory, flagged, read}
use sgos.Virtual.Shape.{IsVirtual, Ordered, holds}
use sgos.Virtual.Lookup.{get_vma_by_address_held, get_vma_by_address-Unheld, Unheld}
use sgos.Paging.{Paging, find_page}
use sgos.Pages.{swap_page}
use sgos.Pages.Exchange.{Entries, Exchanged, swap_page_exchanges}
use sgos.Spaces.{
  Side, Spaces, on_memory, on_paging, aligned, beyond, alloc_swap, find_vma, swap_pages, swap_range,
  swap_multiple,
}

-- The list of a space's allocations, with one that holds `addr`.
pub record Holds (vm : VirtualMemory) (fuel addr : ℕ) (p : Ptr) (v : Vma) : Type 0 where
  pub before : Cells Vma
  pub behind : Cells Vma
  pub lo : ℕ
  pub hi : ℕ
  pub list : IsVirtual vm (before ++ (p, v) ∷ behind)
  pub ordered : Ordered lo (before ++ (p, v) ∷ behind) hi
  pub small : hi < 2 ^ 32
  pub fuel_left : length (before ++ (p, v) ∷ behind) < fuel
  pub held : holds addr v ≡ true

read_held :
    (vm : VirtualMemory) (p : Ptr) (n : Node Vma)
    → p ≢ null
    → vm.cells p ≡ some n
    → read p vm ≡ ok n vm
read_held vm p n nn e = ground arith

find_vma_held :
    (fuel addr : ℕ) (vm : VirtualMemory) (p : Ptr) (v : Vma)
    → Holds vm fuel addr p v
    → find_vma fuel addr vm ≡ ok (p, v) vm
unfolding find_vma
find_vma_held fuel addr vm p v h =
    let (left, right, apart) =
      Links-split vm.cells null h.before ((p, v) ∷ h.behind) null h.list.links in
    step _ (
      get_vma_by_address_held fuel addr vm h.before p v h.behind h.lo h.hi h.list h.ordered h.small
        h.fuel_left h.held)
    ∙ step _ (read_held vm p (node (last h.before null) v (first h.behind null)) right.0 right.1)

find_vma-Unheld :
    (fuel addr : ℕ) (vm : VirtualMemory) (xs : Cells Vma) (lo hi : ℕ)
    → IsVirtual vm xs
    → Ordered lo xs hi
    → hi < 2 ^ 32
    → length xs < fuel
    → Unheld addr xs
    → find_vma fuel addr vm ≡ fault
unfolding find_vma
find_vma-Unheld fuel addr vm xs lo hi is o small f u =
    step _ (get_vma_by_address-Unheld fuel addr vm xs lo hi is o small f u)

on_src :
    {A : Type 0} (m : Cmd VirtualMemory A) (s : Spaces) (x : A)
    → m s.src_memory ≡ ok x s.src_memory
    → on_memory Side.src m s ≡ ok x s
on_src m s x e = rw (e, on_memory)

on_src_fault :
    {A : Type 0} (m : Cmd VirtualMemory A) (s : Spaces)
    → m s.src_memory ≡ fault
    → on_memory Side.src m s ≡ fault
on_src_fault m s e = rw (e, on_memory)

on_dest :
    {A : Type 0} (m : Cmd VirtualMemory A) (s : Spaces) (x : A)
    → m s.dest_memory ≡ ok x s.dest_memory
    → on_memory Side.dest m s ≡ ok x s
on_dest m s x e = rw (e, on_memory)

aligned_run :
    (fuel da sa siz flag : ℕ) (s : Spaces)
    → (aligned da && aligned sa && aligned siz) ≡ true
    → swap_multiple fuel da sa siz flag s ≡ swap_range fuel da sa siz flag s
unfolding swap_multiple
aligned_run fuel da sa siz flag s e = rw e

-- With aligned arguments, a source address that no allocation of the source space holds makes
-- MmSwapMultiplePhysicalPages fault: it uses the result of MmGetVmaByAddress with no test for NULL.
pub swap_multiple-Unheld :
    (fuel da sa siz flag : ℕ) (s : Spaces) (xs : Cells Vma) (lo hi : ℕ)
    → (aligned da && aligned sa && aligned siz) ≡ true
    → IsVirtual s.src_memory xs
    → Ordered lo xs hi
    → hi < 2 ^ 32
    → length xs < fuel
    → Unheld sa xs
    → swap_multiple fuel da sa siz flag s ≡ fault
unfolding swap_range
swap_multiple-Unheld fuel da sa siz flag s xs lo hi al is o small f u =
    aligned_run fuel da sa siz flag s al
    ∙ step_fault _ (
        on_src_fault (find_vma fuel sa) s
          (find_vma-Unheld fuel sa s.src_memory xs lo hi is o small f u))

-- Not aligned to pages, or outside an allocation of the source that may be swapped: the result is
-- 0, and nothing changes.
pub swap_multiple_refuses :
    (fuel da sa siz flag : ℕ) (s : Spaces) (p : Ptr) (v : Vma)
    → Holds s.src_memory fuel sa p v
    → ((aligned da && aligned sa && aligned siz) ≡ false)
      ⊎ ((not (flagged v.flag alloc_swap) || beyond sa siz v) ≡ true)
    → swap_multiple fuel da sa siz flag s ≡ ok 0 s
unfolding swap_multiple swap_range
swap_multiple_refuses fuel da sa siz flag s p v h (inl e) = rw e
swap_multiple_refuses fuel da sa siz flag s p v h (inr e) =
    elim (Bool-cases (aligned da && aligned sa && aligned siz)) [
      | inl al ↦
          aligned_run fuel da sa siz flag s al
          ∙ step _ (on_src (find_vma fuel sa) s (p, v) (find_vma_held fuel sa s.src_memory p v h))
          ∙ rw e
      | inr al ↦ rw al
    ]

swap_run :
    (fuel da sa siz flag : ℕ) (s : Spaces) (p : Ptr) (v : Vma) (q : Ptr) (w : Vma) (n : ℕ)
    (t : Paging)
    → (aligned da && aligned sa && aligned siz) ≡ true
    → Holds s.src_memory fuel sa p v
    → Holds s.dest_memory fuel da q w
    → (not (flagged v.flag alloc_swap) || beyond sa siz v) ≡ false
    → (not (flagged w.flag alloc_swap) || beyond da siz w) ≡ false
    → swap_pages (siz / 4096) s.dest_directory da s.src_directory sa siz flag s.paging ≡ ok n t
    → swap_multiple fuel da sa siz flag s ≡ ok n (record s { paging = t })
unfolding swap_range
swap_run fuel da sa siz flag s p v q w n t al hs hd vs wd run =
    aligned_run fuel da sa siz flag s al
    ∙ step _ (on_src (find_vma fuel sa) s (p, v) (find_vma_held fuel sa s.src_memory p v hs))
    ∙ rw vs (
        step _ (on_dest (find_vma fuel da) s (q, w) (find_vma_held fuel da s.dest_memory q w hd))
        ∙ rw wd (rw (run, on_paging)))

one_page :
    (dd da sd sa : ℕ) (s t : Paging)
    → swap_page dd da sd sa 6 s ≡ ok (pos 0) t
    → swap_pages 1 dd da sd sa 4096 6 s ≡ ok 4096 t
unfolding swap_pages
one_page dd da sd sa s t e = step _ e

-- One page, with both addresses aligned, each in an allocation of its space that may be swapped and
-- has room for the page, and with a page table for each (Entries): with MAP_ADDRESS and
-- MAP_ATTRIBUTE as the flags the run returns 4096, the two addresses exchange what they map, and no
-- other word of the memory is written.
pub swap_multiple_exchanges :
    (fuel da sa : ℕ) (s : Spaces) (p : Ptr) (v : Vma) (q : Ptr) (w : Vma)
    → (aligned da && aligned sa) ≡ true
    → Holds s.src_memory fuel sa p v
    → Holds s.dest_memory fuel da q w
    → (not (flagged v.flag alloc_swap) || beyond sa 4096 v) ≡ false
    → (not (flagged w.flag alloc_swap) || beyond da 4096 w) ≡ false
    → Entries s.dest_directory da s.src_directory sa s.paging
    → (t : Spaces) × (swap_multiple fuel da sa 4096 6 s ≡ ok 4096 t)
      × Exchanged s.dest_directory da s.src_directory sa s.paging t.paging
          (find_page s.paging.memory s.src_directory sa)
          (find_page s.paging.memory s.dest_directory da)
swap_multiple_exchanges fuel da sa s p v q w al hs hd vs wd e =
    let (t, run, same, ex) =
      swap_page_exchanges s.dest_directory da s.src_directory sa s.paging e in
    (
      record s { paging = t },
      swap_run fuel da sa 4096 6 s p v q w 4096 t (ground arith) hs hd vs wd
          (one_page s.dest_directory da s.src_directory sa s.paging t run),
      ex,
    )
