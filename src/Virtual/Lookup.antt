-- ===== src/Virtual/Lookup.antt =====
-- MmGetVmaByAddress of kernel/mm/virtual.c: which allocation it finds.
use sgos.Prelude.{
  ℕ, zero, suc, ◌+◌, ◌^◌, ◌<◌, ◌≡◌, ◌≢◌, inl, inr, refl, sym, ap, ◌∙◌, subst, true, false, some, [],
  ◌∷◌, ◌++◌, arith, length, length-append, if◌then◌else◌,
}
use sgos.Prelude.Run.{ok}
use sgos.Dll.{Ptr, null, node}
use sgos.Dll.Links.{Cells, last, Links, Links-split, last-append, snoc-cases}
use sgos.Virtual.{Vma, VirtualMemory, vma_loop, get_vma_by_address}
use sgos.Virtual.Shape.{IsVirtual, down_free, Ordered, Ordered-le, Ordered-split, holds}

-- The last allocation of the list that holds the address, or `d`.
locate : ℕ → Cells Vma → Ptr → Ptr
locate addr [] d = d
locate addr ((p, v) ∷ xs) d = locate addr xs (if holds addr v then p else d)

locate-snoc :
    (addr : ℕ) (xs : Cells Vma) (p : Ptr) (v : Vma) (d : Ptr)
    → locate addr (xs ++ (p, v) ∷ []) d ≡ (if holds addr v then p else locate addr xs d)
unfolding locate
locate-snoc addr [] p v d = refl
locate-snoc addr ((r, w) ∷ xs) p v d = locate-snoc addr xs p v (if holds addr w then r else d)

vma_loop_base :
    (k addr : ℕ) (vm : VirtualMemory) → vma_loop (suc k) addr null vm ≡ ok (locate addr [] null) vm
unfolding vma_loop locate
vma_loop_base k addr vm = refl

vma_loop_step :
    (k addr : ℕ) (vm : VirtualMemory) (b p : Ptr) (v : Vma) (a : Ptr) (r : Ptr)
    → p ≢ null
    → vm.cells p ≡ some (node b v a)
    → v.address + v.size < 2 ^ 32
    → vma_loop k addr b vm ≡ ok r vm
    → vma_loop (suc k) addr p vm ≡ ok (if holds addr v then p else r) vm
unfolding vma_loop
vma_loop_step k addr vm b p v a r nn at small ih = ground arith

vma_loop_lem :
    (k addr : ℕ) (vm : VirtualMemory) (xs : Cells Vma) (a : Ptr) (lo hi : ℕ)
    → Links vm.cells null xs a
    → Ordered lo xs hi
    → hi < 2 ^ 32
    → length xs < k
    → vma_loop k addr (last xs null) vm ≡ ok (locate addr xs null) vm
vma_loop_lem zero addr vm xs a lo hi l o small f = absurd (omega arith)
vma_loop_lem (suc k) addr vm xs a lo hi l o small f = elim (snoc-cases xs) [
  | inl e ↦
      subst (λ t. vma_loop (suc k) addr (last t null) vm ≡ ok (locate addr t null) vm) (sym e)
        (vma_loop_base k addr vm)
  | inr (ys, p, v, e) ↦
      subst
        (λ t.
          Links vm.cells null t a
          → Ordered lo t hi
          → length t < suc k
          → vma_loop (suc k) addr (last t null) vm ≡ ok (locate addr t null) vm)
        (sym e)
        (λ l' o' f'.
          let (left, one, apart) = Links-split vm.cells null ys ((p, v) ∷ []) a l' in
          let (o1, o2) = Ordered-split lo ys p v [] hi o' in
          let n : length ys < k = omega (arith, length-append ys ((p, v) ∷ [])) in
          let le = Ordered-le (v.address + v.size) [] hi o2.2 in
          rw (last-append ys ((p, v) ∷ []) null, locate-snoc addr ys p v null)
            (vma_loop_step k addr vm (last ys null) p v a (locate addr ys null) one.0 one.1
              (omega arith) (vma_loop_lem k addr vm ys p lo v.address left o1 (omega arith) n)))
        l o f
]

locate_above :
    (addr lo : ℕ) (xs : Cells Vma) (d : Ptr) (hi : ℕ)
    → addr < lo
    → Ordered lo xs hi
    → locate addr xs d ≡ d
unfolding locate
locate_above addr lo [] d hi h o = refl
locate_above addr lo ((p, v) ∷ xs) d hi h o =
    let out : holds addr v ≡ false = ground arith in
    rw out (locate_above addr (v.address + v.size) xs d hi (omega arith) o.2)

locate_held :
    (addr lo : ℕ) (ys : Cells Vma) (p : Ptr) (v : Vma) (zs : Cells Vma) (d : Ptr) (hi : ℕ)
    → Ordered lo (ys ++ (p, v) ∷ zs) hi
    → holds addr v ≡ true
    → locate addr (ys ++ (p, v) ∷ zs) d ≡ p
unfolding locate
locate_held addr lo [] p v zs d hi o h =
    ap (λ b. locate addr zs (if b then p else d)) h
    ∙ locate_above addr (v.address + v.size) zs p hi (ground arith) o.2
locate_held addr lo ((r, w) ∷ ys) p v zs d hi o h =
    locate_held addr (w.address + w.size) ys p v zs (if holds addr w then r else d) hi o.2 h

-- No allocation of the list holds the address.
abbrev pub Unheld : ℕ → Cells Vma → Type 0
Unheld addr [] = Unit {0}
Unheld addr ((p, v) ∷ xs) = (holds addr v ≡ false) × Unheld addr xs

locate-Unheld : (addr : ℕ) (xs : Cells Vma) (d : Ptr) → Unheld addr xs → locate addr xs d ≡ d
unfolding locate
locate-Unheld addr [] d u = refl
locate-Unheld addr ((p, v) ∷ xs) d u = rw u.0 (locate-Unheld addr xs d u.1)

get_vma_lem :
    (fuel addr : ℕ) (vm : VirtualMemory) (xs : Cells Vma) (lo hi : ℕ)
    → IsVirtual vm xs
    → Ordered lo xs hi
    → hi < 2 ^ 32
    → length xs < fuel
    → get_vma_by_address fuel addr vm ≡ ok (locate addr xs null) vm
unfolding get_vma_by_address
get_vma_lem fuel addr vm xs lo hi is o small f =
    let vm' : VirtualMemory = record vm { access_lock = 0 } in
    let loop = vma_loop_lem fuel addr vm' xs null lo hi is.links o small f in
    let loop' =
      subst (λ t. vma_loop fuel addr t vm' ≡ ok (locate addr xs null) vm') (sym is.last_is) loop in
    rw (down_free vm is.lock_free, loop') (ground arith)

-- MmGetVmaByAddress finds the allocation that holds the address, wherever it stands in the list,
-- and leaves the list as it was.
pub get_vma_by_address_held :
    (fuel addr : ℕ) (vm : VirtualMemory) (ys : Cells Vma) (p : Ptr) (v : Vma) (zs : Cells Vma)
    (lo hi : ℕ)
    → IsVirtual vm (ys ++ (p, v) ∷ zs)
    → Ordered lo (ys ++ (p, v) ∷ zs) hi
    → hi < 2 ^ 32
    → length (ys ++ (p, v) ∷ zs) < fuel
    → holds addr v ≡ true
    → get_vma_by_address fuel addr vm ≡ ok p vm
get_vma_by_address_held fuel addr vm ys p v zs lo hi is o small f h =
    get_vma_lem fuel addr vm (ys ++ (p, v) ∷ zs) lo hi is o small f
    ∙ ap (λ t. ok t vm) (locate_held addr lo ys p v zs null hi o h)

-- It returns NULL for an address that no allocation holds.
pub get_vma_by_address-Unheld :
    (fuel addr : ℕ) (vm : VirtualMemory) (xs : Cells Vma) (lo hi : ℕ)
    → IsVirtual vm xs
    → Ordered lo xs hi
    → hi < 2 ^ 32
    → length xs < fuel
    → Unheld addr xs
    → get_vma_by_address fuel addr vm ≡ ok null vm
get_vma_by_address-Unheld fuel addr vm xs lo hi is o small f u =
    get_vma_lem fuel addr vm xs lo hi is o small f
    ∙ ap (λ t. ok t vm) (locate-Unheld addr xs null u)
