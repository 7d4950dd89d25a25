-- ===== src/Virtual/Release.antt =====
-- MmFreeVirtualMemory of kernel/mm/virtual.c.
use sgos.Prelude.{
  ℕ, ◌+◌, ◌^◌, ◌<◌, ◌≡◌, ◌≢◌, inl, inr, ◌∙◌, true, none, some, [], ◌∷◌, ◌++◌, arith, length, ◌==◌,
  if◌then◌else◌, Bool-cases,
}
use sgos.Prelude.Run.{ok}
use sgos.Dll.{Ptr, null, node, Heap, write, link_next, link_prev}
use sgos.Dll.Links.{Cells, first, last, Links-write}
use sgos.Dll.Splice.{unlink_lem}
use sgos.Virtual.{Vma, VirtualMemory, get_vma_by_address, unlink_vma, free_virtual_memory}
use sgos.Virtual.Shape.{IsVirtual, Ordered, holds}
use sgos.Virtual.Lookup.{get_vma_by_address_held, get_vma_by_address-Unheld, Unheld}

unlink_vma_run :
    (vm : VirtualMemory) (p b : Ptr) (v : Vma) (a : Ptr) (mid after : Heap Vma)
    → p ≢ null
    → vm.cells p ≡ some (node b v a)
    → mid p ≡ vm.cells p
    → link_next b a vm.cells ≡ some mid
    → link_prev a b mid ≡ some after
    → unlink_vma p vm
      ≡ ok tt (record vm {
        first_allocation = if b == null then a else vm.first_allocation;
        last_allocation = if a == null then b else vm.last_allocation;
        cells = after;
      })
unfolding unlink_vma
unlink_vma_run vm p b v a mid after nn old same e1 e2 = elim (Bool-cases (b == null)) [
  | inl z ↦ ground arith
  | inr z ↦ ground arith
]

-- The list without the allocation at `p`.
abbrev unlinked : VirtualMemory → Ptr → Ptr → Heap Vma → VirtualMemory
unlinked vm b a after = record vm {
  first_allocation = if b == null then a else vm.first_allocation;
  last_allocation = if a == null then b else vm.last_allocation;
  cells = after;
}

free_run :
    (fuel addr : ℕ) (vm : VirtualMemory) (p b : Ptr) (v : Vma) (a : Ptr) (after : Heap Vma)
    → vm.access_lock ≡ 1
    → p ≢ null
    → get_vma_by_address fuel addr vm ≡ ok p vm
    → unlink_vma p (record vm { access_lock = 0 })
      ≡ ok tt (record (unlinked vm b a after) { access_lock = 0 })
    → after p ≡ some (node b v a)
    → free_virtual_memory fuel addr vm
      ≡ ok v.size (record (unlinked vm b a after) { cells = write after p none })
unfolding free_virtual_memory
free_run fuel addr vm p b v a after lock nn e u k = ground arith

Ordered-remove :
    (lo : ℕ) (ys : Cells Vma) (p : Ptr) (v : Vma) (zs : Cells Vma) (hi : ℕ)
    → Ordered lo (ys ++ (p, v) ∷ zs) hi
    → Ordered lo (ys ++ zs) hi
Ordered-remove lo [] p v [] hi o = omega arith
Ordered-remove lo [] p v ((r, w) ∷ zs) hi o = (omega arith, o.2.1, o.2.2)
Ordered-remove lo ((r, w) ∷ ys) p v zs hi o =
    (o.0, o.1, Ordered-remove (w.address + w.size) ys p v zs hi o.2)

-- MmFreeVirtualMemory at any address inside an allocation returns its size, takes it out of the
-- list and frees its node; the others stay in order.
pub free_virtual_memory_held :
    (fuel addr : ℕ) (vm : VirtualMemory) (ys : Cells Vma) (p : Ptr) (v : Vma) (zs : Cells Vma)
    (lo hi : ℕ)
    → IsVirtual vm (ys ++ (p, v) ∷ zs)
    → Ordered lo (ys ++ (p, v) ∷ zs) hi
    → hi < 2 ^ 32
    → length (ys ++ (p, v) ∷ zs) < fuel
    → holds addr v ≡ true
    → (s : VirtualMemory) × (free_virtual_memory fuel addr vm ≡ ok v.size s)
      × IsVirtual s (ys ++ zs)
      × Ordered lo (ys ++ zs) hi
      × (s.cells p ≡ none)
free_virtual_memory_held fuel addr vm ys p v zs lo hi is o small f h =
    let u = unlink_lem vm.cells ys p v zs is.links in
    let e = get_vma_by_address_held fuel addr vm ys p v zs lo hi is o small f h in
    let run =
      unlink_vma_run (record vm { access_lock = 0 }) p (last ys null) v (first zs null) u.mid
        u.after u.not_null u.old u.kept_mid u.next_set u.prev_set in
    (
      record (unlinked vm (last ys null) (first zs null) u.after) { cells = write u.after p none },
      free_run fuel addr vm p (last ys null) v (first zs null) u.after is.lock_free u.not_null e run
          (u.kept ∙ u.old),
      record {
        links = Links-write u.after null (ys ++ zs) null p none u.out u.links;
        first_is = rw is.first_is u.first_out;
        last_is = rw is.last_is u.last_out;
        lock_free = is.lock_free;
      },
      Ordered-remove lo ys p v zs hi o,
      ground arith,
    )

-- At an address that no allocation holds it returns 0 and changes nothing.
pub free_virtual_memory-Unheld :
    (fuel addr : ℕ) (vm : VirtualMemory) (xs : Cells Vma) (lo hi : ℕ)
    → IsVirtual vm xs
    → Ordered lo xs hi
    → hi < 2 ^ 32
    → length xs < fuel
    → Unheld addr xs
    → free_virtual_memory fuel addr vm ≡ ok 0 vm
unfolding free_virtual_memory
free_virtual_memory-Unheld fuel addr vm xs lo hi is o small f u =
    rw (get_vma_by_address-Unheld fuel addr vm xs lo hi is o small f u)
