-- ===== src/Virtual/Allocate.antt =====
-- MmAllocateVirtualMemory of kernel/mm/virtual.c from the low end is first fit.
use sgos.Prelude.{
  ℕ, zero, suc, ◌+◌, ◌%◌, ◌^◌, ◌≤◌, ◌<◌, ◌≡◌, ◌≢◌, ◌⊎◌, inl, inr, refl, sym, ap, ◌∙◌, subst, true,
  false, ◌&&◌, Option, none, some, [], ◌∷◌, ◌++◌, arith, length, ◌==◌, if◌then◌else◌, ltb, leb,
  Bool-cases,
}
use sgos.Prelude.Run.{Run, ok}
use sgos.Dll.{Ptr, null, Node, node, write}
use sgos.Dll.Links.{Cells, has, first, last, Links, Links-write}
use sgos.Dll.Splice.{Links-value, first-value, last-value}
use sgos.Virtual.{
  Vma, VirtualMemory, vma_at, add32, is_null, low_loop, allocate_low, insert_previous, allocate,
  flagged, alloc_random, alloc_highmem, page_size,
}
use sgos.Virtual.Shape.{IsVirtual, Ordered, Ordered-le}
use sgos.Virtual.FirstFit.{Fit, under, first_fit, first_fit-IsFit, IsFit}
use sgos.Virtual.Insert.{IsInserted, insert_previous_lem}

-- The loop at the head of a list: it stops before the fit, or at the end with too little room.
abbrev Stops : ℕ → ℕ → Option Fit → Run VirtualMemory (Ptr × ℕ) → VirtualMemory → Type 0
Stops size hi none r vm = (a : ℕ) × (r ≡ ok (null, a) vm) × (hi < a + size) × (a ≤ hi)
Stops size hi (some (ys, addr, zs)) r vm =
    (r ≡ ok (first zs null, addr) vm) × ((first zs null == null) ≡ false ⊎ (addr + size ≤ hi))

Stops-under :
    (size hi : ℕ) (x : Ptr × Vma) (o : Option Fit) (r : Run VirtualMemory (Ptr × ℕ))
    (vm : VirtualMemory)
    → Stops size hi o r vm
    → Stops size hi (under x o) r vm
Stops-under size hi x none r vm h = h
Stops-under size hi x (some (ys, addr, zs)) r vm h = h

low_loop_step :
    (k size lo : ℕ) (vm : VirtualMemory) (b p : Ptr) (v : Vma) (a : Ptr)
    → p ≢ null
    → vm.cells p ≡ some (node b v a)
    → lo + size < 2 ^ 32
    → v.address + v.size < 2 ^ 32
    → low_loop (suc k) size p lo vm ≡ (
        if leb (lo + size) v.address
        then ok (p, lo) vm
        else low_loop k size a (v.address + v.size) vm)
unfolding low_loop
low_loop_step k size lo vm b p v a nn at s1 s2 = elim (Bool-cases (leb (lo + size) v.address)) [
  | inl e ↦ ground arith
  | inr e ↦ ground arith
]

low_loop_end :
    (k size lo : ℕ) (vm : VirtualMemory) → low_loop (suc k) size null lo vm ≡ ok (null, lo) vm
unfolding low_loop
low_loop_end k size lo vm = refl

low_loop-Stops :
    (k size lo hi : ℕ) (vm : VirtualMemory) (b : Ptr) (xs : Cells Vma)
    → Links vm.cells b xs null
    → Ordered lo xs hi
    → hi + size < 2 ^ 32
    → length xs < k
    → Stops size hi (first_fit size lo hi xs) (low_loop k size (first xs null) lo vm) vm
unfolding first_fit
low_loop-Stops zero size lo hi vm b xs l o small f = absurd (omega arith)
low_loop-Stops (suc k) size lo hi vm b [] l o small f = elim (Bool-cases (ltb hi (lo + size))) [
  | inl e ↦ rw e (lo, low_loop_end k size lo vm, ground arith, o)
  | inr e ↦ rw e (low_loop_end k size lo vm, inr (ground arith))
]
low_loop-Stops (suc k) size lo hi vm b ((p, v) ∷ xs) l o small f =
    let top = Ordered-le (v.address + v.size) xs hi o.2 in
    let bound = Ordered-le lo ((p, v) ∷ xs) hi o in
    rw (low_loop_step k size lo vm b p v (first xs null) l.0 l.1 (omega arith) (omega arith))
      (elim (Bool-cases (leb (lo + size) v.address)) [
        | inl e ↦ rw e (refl, inl (ground arith))
        | inr e ↦ rw e (
            Stops-under size hi (p, v) (first_fit size (v.address + v.size) hi xs) _ vm
              (low_loop-Stops k size (v.address + v.size) hi vm p xs l.3 o.2 small (omega arith)))
      ])

-- The state in which the search begins: the new node with what its memory held, the lock taken.
abbrev searching : VirtualMemory → Ptr → Node Vma → VirtualMemory
searching vm buf stale = record vm { cells = write vm.cells buf (some stale); access_lock = 0 }

-- The new node with its data, and the lock released.
abbrev finished : VirtualMemory → Ptr → Ptr → Vma → Ptr → VirtualMemory
finished s buf b v a = record s { cells = write s.cells buf (some (node b v a)); access_lock = 1 }

low_run :
    (fuel : ℕ) (buf : Ptr) (size addr attr flag : ℕ) (vm s : VirtualMemory) (p b a : Ptr) (w : Vma)
    → buf ≢ null
    → low_loop fuel size vm.first_allocation vm.lower_limit vm ≡ ok (p, addr) vm
    → (is_null p && ltb vm.upper_limit (add32 addr size)) ≡ false
    → insert_previous buf p vm ≡ ok tt s
    → s.access_lock ≡ 0
    → s.cells buf ≡ some (node b w a)
    → allocate_low fuel buf size attr flag vm
      ≡ ok addr (finished s buf b (vma_at addr size attr flag) a)
unfolding allocate_low
low_run fuel buf size addr attr flag vm s p b a w nb e room ins lock at =
    rw (e, room, ins) (ground arith)

low_fail :
    (fuel : ℕ) (buf : Ptr) (size addr attr flag : ℕ) (vm : VirtualMemory)
    → low_loop fuel size vm.first_allocation vm.lower_limit vm ≡ ok (null, addr) vm
    → ltb vm.upper_limit (add32 addr size) ≡ true
    → allocate_low fuel buf size attr flag vm
      ≡ ok 0 (record vm { cells = write vm.cells buf none; access_lock = add32 vm.access_lock 1 })
unfolding allocate_low
low_fail fuel buf size addr attr flag vm e room = rw e (ground arith)

-- A call on a list in order: whole pages, memory for the node, and no wrap past the upper limit.
pub record IsRequest (fuel : ℕ) (buf : Ptr) (size : ℕ) (vm : VirtualMemory) (xs : Cells Vma)
    : Type 0 where
  pub is_virtual : IsVirtual vm xs
  pub ordered : Ordered vm.lower_limit xs vm.upper_limit
  pub small : vm.upper_limit + size < 2 ^ 32
  pub enough : length xs < fuel
  pub page : page_size ≤ size
  pub aligned : size % page_size ≡ 0
  pub not_null : buf ≢ null
  pub fresh : has buf xs ≡ false

allocate_low_mode :
    (fuel : ℕ) (buf : Ptr) (stale : Node Vma) (a size attr flag : ℕ) (vm : VirtualMemory)
    → buf ≢ null
    → page_size ≤ size
    → size % page_size ≡ 0
    → vm.access_lock ≡ 1
    → flagged flag alloc_random ≡ true
    → flagged flag alloc_highmem ≡ false
    → allocate fuel buf stale a size attr flag vm
      ≡ allocate_low fuel buf size attr flag (searching vm buf stale)
unfolding allocate
allocate_low_mode fuel buf stale a size attr flag vm nb page aligned lock r h =
    let e1 : ltb size page_size ≡ false = ground arith in
    let e2 : (size % page_size == 0) ≡ true = ground arith in
    let e3 : is_null buf ≡ false = ground arith in rw (e1, e2, e3, r, h, lock)

finished-IsVirtual :
    (vm s : VirtualMemory) (ys : Cells Vma) (buf : Ptr) (v w : Vma) (zs : Cells Vma)
    → IsInserted vm s ys buf v zs
    → IsVirtual (finished s buf (last ys null) w (first zs null)) (ys ++ (buf, w) ∷ zs)
finished-IsVirtual vm s ys buf v w zs i = record {
  links = Links-value s.cells ys buf v w zs i.links;
  first_is = i.first_is ∙ first-value ys buf v w zs null;
  last_is = i.last_is ∙ last-value ys buf v w zs null;
  lock_free = refl;
}

room :
    (vm : VirtualMemory) (p addr size : ℕ)
    → vm.upper_limit + size < 2 ^ 32
    → ((p == null) ≡ false) ⊎ (addr + size ≤ vm.upper_limit)
    → (is_null p && ltb vm.upper_limit (add32 addr size)) ≡ false
room vm p addr size small (inl h) = rw h
room vm p addr size small (inr h) = ground arith

-- From the low end the call takes the first gap that is wide enough: it returns the gap's address,
-- and the list holds the new allocation there, in order with the others.
pub allocate_fits :
    (fuel : ℕ) (buf : Ptr) (stale : Node Vma) (a size attr flag : ℕ) (vm : VirtualMemory)
    (xs ys : Cells Vma) (addr : ℕ) (zs : Cells Vma)
    → IsRequest fuel buf size vm xs
    → flagged flag alloc_random ≡ true
    → flagged flag alloc_highmem ≡ false
    → first_fit size vm.lower_limit vm.upper_limit xs ≡ some (ys, addr, zs)
    → (s : VirtualMemory) × (allocate fuel buf stale a size attr flag vm ≡ ok addr s)
      × IsVirtual s (ys ++ (buf, vma_at addr size attr flag) ∷ zs)
      × Ordered vm.lower_limit (ys ++ (buf, vma_at addr size attr flag) ∷ zs) vm.upper_limit
allocate_fits fuel buf stale a size attr flag vm xs ys addr zs is r h fit =
    let vm1 = searching vm buf stale in
    let l1 = Links-write vm.cells null xs null buf (some stale) is.fresh is.is_virtual.links in
    let stops =
      low_loop-Stops fuel size vm.lower_limit vm.upper_limit vm1 null xs l1 is.ordered is.small
        is.enough in
    let known =
      first_fit-IsFit size vm.lower_limit vm.upper_limit xs (omega (arith, is.page)) is.ordered in
    let stops' =
      subst
        (λ o.
          Stops size vm.upper_limit o (low_loop fuel size (first xs null) vm.lower_limit vm1) vm1)
        fit stops in
    let known' = subst (IsFit size vm.lower_limit vm.upper_limit xs) fit known in
    let cut = known'.0 in
    let ordered = known'.1 buf attr flag in
    let (s, e, i) =
      insert_previous_lem vm1 ys buf stale.prev stale.next stale.v zs
        (subst (λ t. Links vm1.cells null t null) cut l1)
        (is.is_virtual.first_is ∙ ap (λ t. first t null) cut)
        (is.is_virtual.last_is ∙ ap (λ t. last t null) cut) is.not_null
        (ap (has buf) (sym cut) ∙ is.fresh) (ground arith) in
    let loop =
      subst (λ t. low_loop fuel size t vm.lower_limit vm1 ≡ ok (first zs null, addr) vm1)
        (sym is.is_virtual.first_is) stops'.0 in
    (
      finished s buf (last ys null) (vma_at addr size attr flag) (first zs null),
      allocate_low_mode fuel buf stale a size attr flag vm is.not_null is.page is.aligned
            is.is_virtual.lock_free r h
          ∙ low_run fuel buf size addr attr flag vm1 s (first zs null) (last ys null)
              (first zs null) stale.v is.not_null loop
              (room vm (first zs null) addr size is.small stops'.1) e i.lock i.cell,
      finished-IsVirtual vm1 s ys buf stale.v (vma_at addr size attr flag) zs i,
      ordered,
    )

fail_room :
    (hi a size : ℕ) → hi + size < 2 ^ 32 → hi < a + size → a ≤ hi → ltb hi (add32 a size) ≡ true
fail_room hi a size small h le = ground arith

-- Where first fit fails the call returns NULL, and the list is as it was, with its limits.
pub allocate_refuses :
    (fuel : ℕ) (buf : Ptr) (stale : Node Vma) (a size attr flag : ℕ) (vm : VirtualMemory)
    (xs : Cells Vma)
    → IsRequest fuel buf size vm xs
    → flagged flag alloc_random ≡ true
    → flagged flag alloc_highmem ≡ false
    → first_fit size vm.lower_limit vm.upper_limit xs ≡ none
    → (s : VirtualMemory) × (allocate fuel buf stale a size attr flag vm ≡ ok 0 s)
      × IsVirtual s xs
      × (s.lower_limit ≡ vm.lower_limit)
      × (s.upper_limit ≡ vm.upper_limit)
allocate_refuses fuel buf stale a size attr flag vm xs is r h fit =
    let vm1 = searching vm buf stale in
    let l1 = Links-write vm.cells null xs null buf (some stale) is.fresh is.is_virtual.links in
    let stops =
      low_loop-Stops fuel size vm.lower_limit vm.upper_limit vm1 null xs l1 is.ordered is.small
        is.enough in
    let (e, le, lt, top) =
      subst
        (λ o.
          Stops size vm.upper_limit o (low_loop fuel size (first xs null) vm.lower_limit vm1) vm1)
        fit stops in
    let loop =
      subst (λ t. low_loop fuel size t vm.lower_limit vm1 ≡ ok (null, e) vm1)
        (sym is.is_virtual.first_is) le in
    (
      record vm { cells = write vm1.cells buf none },
      allocate_low_mode fuel buf stale a size attr flag vm is.not_null is.page is.aligned
            is.is_virtual.lock_free r h
          ∙ low_fail fuel buf size e attr flag vm1 loop
              (fail_room vm.upper_limit e size is.small lt top)
          ∙ (ground (arith, is.is_virtual.lock_free)),
      record {
        links = Links-write vm1.cells null xs null buf none is.fresh l1;
        first_is = is.is_virtual.first_is;
        last_is = is.is_virtual.last_is;
        lock_free = is.is_virtual.lock_free;
      },
      refl,
      refl,
    )
