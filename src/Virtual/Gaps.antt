-- ===== src/Virtual/Gaps.antt =====
-- Two ways in which MmAllocateVirtualMemory of kernel/mm/virtual.c gives out a range twice.
use sgos.Prelude.{
  ℕ, zero, suc, ◌+◌, ◌-◌, ◌%◌, ◌^◌, ◌≤◌, ◌<◌, ◌≡◌, ◌≢◌, refl, sym, ap, ◌∙◌, subst, true, false,
  ◌||◌, some, [], ◌∷◌, ◌++◌, arith, length, ◌==◌, ltb,
}
use mathlib.Core.List.{append-nil}
use sgos.Prelude.Run.{ok}
use sgos.Dll.{Ptr, null, Node, Heap, write, set_prev, set_next, link_prev}
use sgos.Dll.Links.{Cells, has, first, last, Links, Links-write}
use sgos.Virtual.{
  Vma, VirtualMemory, vma_at, add32, sub32, is_null, high_loop, allocate_high, fixed_loop,
  allocate_fixed, insert_previous, good, allocate, flagged, alloc_random, alloc_highmem, page_size,
  vma_loop, get_vma_by_address,
}
use sgos.Virtual.Shape.{IsVirtual, holds}
use sgos.Virtual.Insert.{insert_previous_lem}

-- A call with ALLOC_RANDOM and ALLOC_HIGHMEM on a range of whole pages that fits the limits, with
-- memory for its node.
pub record IsHigh (buf : Ptr) (size flag : ℕ) (vm : VirtualMemory) : Type 0 where
  pub not_null : buf ≢ null
  pub page : page_size ≤ size
  pub aligned : size % page_size ≡ 0
  pub small : vm.upper_limit < 2 ^ 32
  pub fits : vm.lower_limit + size ≤ vm.upper_limit
  pub random : flagged flag alloc_random ≡ true
  pub highmem : flagged flag alloc_highmem ≡ true

high_mode :
    (fuel : ℕ) (buf : Ptr) (stale : Node Vma) (a size attr flag : ℕ) (vm : VirtualMemory)
    → IsHigh buf size flag vm
    → vm.access_lock ≡ 1
    → allocate fuel buf stale a size attr flag vm
      ≡ allocate_high fuel buf size attr flag
          (record vm { cells = write vm.cells buf (some stale); access_lock = 0 })
unfolding allocate
high_mode fuel buf stale a size attr flag vm is lock =
    let e1 : ltb size page_size ≡ false = ground (arith, is.page) in
    let e2 : (size % page_size == 0) ≡ true = ground (arith, is.aligned) in
    let e3 : is_null buf ≡ false = ground (arith, is.not_null) in
    rw (e1, e2, e3, is.random, is.highmem, lock)

sub_exact : (a b : ℕ) → a < 2 ^ 32 → b ≤ a → sub32 a b ≡ a - b
sub_exact a b h le = omega arith

low_enough : (lo hi size : ℕ) → lo + size ≤ hi → ltb (hi - size) lo ≡ false
low_enough lo hi size h = ground arith

null-false : (p : Ptr) → p ≢ null → (p == null) ≡ false
null-false p h = ground arith

null-true : (p : Ptr) → p ≡ null → (p == null) ≡ true
null-true p h = ground arith

high_loop_end :
    (k size : ℕ) (vm : VirtualMemory) {a : ℕ}
    → vm.last_allocation ≡ null
    → sub32 vm.upper_limit size ≡ a
    → high_loop (suc k) size vm.last_allocation (sub32 vm.upper_limit size) vm ≡ ok (null, a) vm
unfolding high_loop
high_loop_end k size vm e e' = rw (null-true vm.last_allocation e, e')

-- The state after such a call on a list whose `LastAllocation` is NULL: that stays NULL.
abbrev highest : VirtualMemory → Ptr → Node Vma → Vma → Heap Vma → VirtualMemory
highest vm buf n v g = record vm {
  first_allocation = buf;
  cells = write g buf (some (record n { v = v }));
  access_lock = 1;
}

high_run :
    (k : ℕ) (buf : Ptr) (stale n : Node Vma) (size attr flag : ℕ) (vm : VirtualMemory)
    (g : Heap Vma)
    → IsHigh buf size flag vm
    → vm.last_allocation ≡ null
    → vm.access_lock ≡ 0
    → vm.cells buf ≡ some stale
    → link_prev vm.first_allocation buf
        (write vm.cells buf (some (record stale { next = vm.first_allocation })))
      ≡ some g
    → g buf ≡ some n
    → allocate_high (suc k) buf size attr flag vm
      ≡ ok
          (vm.upper_limit - size)
          (highest vm buf n (vma_at (vm.upper_limit - size) size attr flag) g)
unfolding allocate_high good set_next
high_run k buf stale n size attr flag vm g is e lock at link cell =
    let loop =
      high_loop_end k size vm e (sub_exact vm.upper_limit size is.small (omega (arith, is.fits))) in
    let room : ltb (vm.upper_limit - size) vm.lower_limit ≡ false =
      low_enough vm.lower_limit vm.upper_limit size is.fits in
    let nn : (buf == null) ≡ false = null-false buf is.not_null in
    rw loop (rw room (ground (arith, link, cell, nn)))

high_call :
    (k : ℕ) (buf : Ptr) (stale n : Node Vma) (a size attr flag : ℕ) (vm : VirtualMemory)
    (g : Heap Vma)
    → IsHigh buf size flag vm
    → vm.last_allocation ≡ null
    → vm.access_lock ≡ 1
    → link_prev vm.first_allocation buf (
        write
          (write vm.cells buf (some stale))
          buf
          (some (record stale { next = vm.first_allocation })))
      ≡ some g
    → g buf ≡ some n
    → allocate (suc k) buf stale a size attr flag vm
      ≡ ok
          (vm.upper_limit - size)
          (highest vm buf n (vma_at (vm.upper_limit - size) size attr flag) g)
high_call k buf stale n a size attr flag vm g is e lock link cell =
    let vm1 : VirtualMemory = record vm {
      cells = write vm.cells buf (some stale);
      access_lock = 0;
    } in
    let is1 : IsHigh buf size flag vm1 = record {
      not_null = is.not_null;
      page = is.page;
      aligned = is.aligned;
      small = is.small;
      fits = is.fits;
      random = is.random;
      highmem = is.highmem;
    } in
    high_mode (suc k) buf stale a size attr flag vm is lock
    ∙ high_run k buf stale n size attr flag vm1 g is1 e refl (ground arith) link cell

lost_lookup :
    (k addr : ℕ) (vm : VirtualMemory)
    → vm.last_allocation ≡ null
    → vm.access_lock ≡ 1
    → get_vma_by_address (suc k) addr vm ≡ ok null vm
unfolding get_vma_by_address vma_loop
lost_lookup k addr vm e lock = rw (lock, null-true vm.last_allocation e) (ground arith)

relink :
    (h : Heap Vma) (buf buf' : Ptr) (stale' n1 n2 : Node Vma)
    → buf ≢ null
    → buf' ≢ buf
    → h buf ≡ some n1
    → link_prev buf buf' (write (write h buf' (some stale')) buf' (some n2))
      ≡ some (
          write
            (write (write h buf' (some stale')) buf' (some n2))
            buf
            (some (record n1 { prev = buf' })))
unfolding set_prev
relink h buf buf' stale' n1 n2 nb ne at = ground arith

-- From the high end of an empty range: the call returns the highest address, but `LastAllocation`
-- stays NULL. No address is found in the list after it, and the next such call returns the same
-- range once more.
pub allocate_high_twice :
    (k : ℕ) (buf buf' : Ptr) (stale stale' : Node Vma) (a addr size attr flag : ℕ)
    (vm : VirtualMemory)
    → IsVirtual vm []
    → IsHigh buf size flag vm
    → buf' ≢ null
    → buf' ≢ buf
    → (s t : VirtualMemory) × (allocate (suc k) buf stale a size attr flag vm
        ≡ ok (vm.upper_limit - size) s)
      × (get_vma_by_address (suc k) addr s ≡ ok null s)
      × (allocate (suc k) buf' stale' a size attr flag s ≡ ok (vm.upper_limit - size) t)
allocate_high_twice k buf buf' stale stale' a addr size attr flag vm v is nb ne =
    let h1 : Heap Vma =
      write (write vm.cells buf (some stale)) buf (some (record stale { next = null })) in
    let n1 : Node Vma = record stale { next = null } in
    let w = vma_at (vm.upper_limit - size) size attr flag in
    let s = highest vm buf n1 w h1 in
    let n2 : Node Vma = record stale' { next = buf } in
    let h2 : Heap Vma =
      write (write (write s.cells buf' (some stale')) buf' (some n2)) buf
        (some (record n1 { prev = buf'; v = w })) in
    let is' : IsHigh buf' size flag s = record {
      not_null = nb;
      page = is.page;
      aligned = is.aligned;
      small = is.small;
      fits = is.fits;
      random = is.random;
      highmem = is.highmem;
    } in
    (
      s,
      highest s buf' n2 w h2,
      high_call k buf stale n1 a size attr flag vm h1 is v.last_is v.lock_free
          (subst
            (λ t.
              link_prev t buf
                (write (write vm.cells buf (some stale)) buf (some (record stale { next = t })))
              ≡ some h1)
            (sym v.first_is) refl)
          (ground arith),
      lost_lookup k addr s v.last_is refl,
      high_call k buf' stale' n2 a size attr flag s h2 is' v.last_is refl
          (relink s.cells buf buf' stale' (record n1 { v = w }) n2 is.not_null ne (ground arith))
          (ground arith),
    )

-- All allocations begin below the address.
abbrev pub AllBelow : ℕ → Cells Vma → Type 0
AllBelow addr [] = Unit {0}
AllBelow addr ((p, v) ∷ xs) = (v.address < addr) × AllBelow addr xs

fixed_loop_below :
    (k addr : ℕ) (vm : VirtualMemory) (b : Ptr) (xs : Cells Vma)
    → Links vm.cells b xs null
    → AllBelow addr xs
    → length xs < k
    → fixed_loop k addr (first xs null) vm ≡ ok null vm
unfolding fixed_loop
fixed_loop_below zero addr vm b xs l h f = absurd (omega arith)
fixed_loop_below (suc k) addr vm b [] l h f = refl
fixed_loop_below (suc k) addr vm b ((p, v) ∷ xs) l h f =
    ground (arith, fixed_loop_below k addr vm p xs l.3 h.1)

fixed_run :
    (fuel : ℕ) (buf : Ptr) (addr size attr flag : ℕ) (vm s : VirtualMemory) (n : Node Vma)
    → buf ≢ null
    → (ltb addr vm.lower_limit || ltb vm.upper_limit (add32 addr size)) ≡ false
    → fixed_loop fuel addr vm.first_allocation vm ≡ ok null vm
    → insert_previous buf null vm ≡ ok tt s
    → s.access_lock ≡ 0
    → s.cells buf ≡ some n
    → (t : VirtualMemory) × (allocate_fixed fuel buf addr size attr flag vm ≡ ok addr t)
unfolding allocate_fixed good
fixed_run fuel buf addr size attr flag vm s n nb room loop ins lock at = (
  record s {
    cells = write s.cells buf (some (record n { v = vma_at addr size attr flag }));
    access_lock = 1;
  },
  rw (room, loop, ins) (ground (arith, at, lock, null-false buf nb)),
)

-- A call with neither ALLOC_RANDOM nor a wrap, of whole pages inside the limits.
pub record IsFixed (buf : Ptr) (addr size flag : ℕ) (vm : VirtualMemory) : Type 0 where
  pub not_null : buf ≢ null
  pub page : page_size ≤ size
  pub aligned : size % page_size ≡ 0
  pub low : vm.lower_limit ≤ addr
  pub high : addr + size ≤ vm.upper_limit
  pub small : vm.upper_limit < 2 ^ 32
  pub fixed : flagged flag alloc_random ≡ false

fixed_mode :
    (fuel : ℕ) (buf : Ptr) (stale : Node Vma) (addr size attr flag : ℕ) (vm : VirtualMemory)
    → IsFixed buf addr size flag vm
    → vm.access_lock ≡ 1
    → allocate fuel buf stale addr size attr flag vm
      ≡ allocate_fixed fuel buf addr size attr flag
          (record vm { cells = write vm.cells buf (some stale); access_lock = 0 })
unfolding allocate
fixed_mode fuel buf stale addr size attr flag vm is lock =
    let e1 : ltb size page_size ≡ false = ground (arith, is.page) in
    let e2 : (size % page_size == 0) ≡ true = ground (arith, is.aligned) in
    let e3 : is_null buf ≡ false = ground (arith, is.not_null) in rw (e1, e2, e3, is.fixed, lock)

fixed_room :
    (buf addr size flag : ℕ) (vm : VirtualMemory)
    → IsFixed buf addr size flag vm
    → (ltb addr vm.lower_limit || ltb vm.upper_limit (add32 addr size)) ≡ false
fixed_room buf addr size flag vm is = ground (arith, is.low, is.high, is.small)

-- At a given address the call looks only at allocations that begin there or above: it succeeds at
-- an address that lies inside the last allocation of the list.
pub allocate_fixed_overlaps :
    (fuel : ℕ) (buf : Ptr) (stale : Node Vma) (addr size attr flag : ℕ) (vm : VirtualMemory)
    (ys : Cells Vma) (p : Ptr) (v : Vma)
    → IsVirtual vm (ys ++ (p, v) ∷ [])
    → AllBelow addr (ys ++ (p, v) ∷ [])
    → holds addr v ≡ true
    → length (ys ++ (p, v) ∷ []) < fuel
    → has buf (ys ++ (p, v) ∷ []) ≡ false
    → IsFixed buf addr size flag vm
    → (t : VirtualMemory) × (allocate fuel buf stale addr size attr flag vm ≡ ok addr t)
allocate_fixed_overlaps fuel buf stale addr size attr flag vm ys p v w below held f out is =
    let xs = ys ++ (p, v) ∷ [] in
    let vm1 : VirtualMemory = record vm {
      cells = write vm.cells buf (some stale);
      access_lock = 0;
    } in
    let l1 = Links-write vm.cells null xs null buf (some stale) out w.links in
    let loop =
      subst (λ t. fixed_loop fuel addr t vm1 ≡ ok null vm1) (sym w.first_is)
        (fixed_loop_below fuel addr vm1 null xs l1 below f) in
    let nil = append-nil xs in
    let (s, e, i) =
      insert_previous_lem vm1 xs buf stale.prev stale.next stale.v []
        (subst (λ t. Links vm1.cells null t null) (sym nil) l1)
        (w.first_is ∙ ap (λ t. first t null) (sym nil))
        (w.last_is ∙ ap (λ t. last t null) (sym nil)) is.not_null (ap (has buf) nil ∙ out)
        (ground arith) in
    let (t, r) =
      fixed_run fuel buf addr size attr flag vm1 s _ is.not_null
        (fixed_room buf addr size flag vm is) loop e i.lock i.cell in
    (t, fixed_mode fuel buf stale addr size attr flag vm is w.lock_free ∙ r)
