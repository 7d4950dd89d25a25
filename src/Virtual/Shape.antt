-- ===== src/Virtual/Shape.antt =====
-- What a `KVirtualMemory` of kernel/mm/virtual.c stands for: its allocations, lowest first.
use sgos.Prelude.{ℕ, ◌+◌, ◌≤◌, ◌<◌, ◌≡◌, Bool, ◌&&◌, [], ◌∷◌, ◌++◌, arith, ltb, leb}
use sgos.Prelude.Run.{ok}
use sgos.Dll.{Ptr, null}
use sgos.Dll.Links.{Cells, first, last, Links}
use sgos.Virtual.{Vma, VirtualMemory, down, up}

-- The list is linked, its ends are recorded, and nobody is in it.
pub record IsVirtual (vm : VirtualMemory) (xs : Cells Vma) : Type 0 where
  pub links : Links vm.cells null xs null
  pub first_is : vm.first_allocation ≡ first xs null
  pub last_is : vm.last_allocation ≡ last xs null
  pub lock_free : vm.access_lock ≡ 1

-- The allocations are in order, apart, not empty, and in the range from `lo` to `hi`.
abbrev pub Ordered : ℕ → Cells Vma → ℕ → Type 0
Ordered lo [] hi = lo ≤ hi
Ordered lo ((p, v) ∷ xs) hi = (lo ≤ v.address) × (0 < v.size) × Ordered (v.address + v.size) xs hi

-- The allocation holds the address.
abbrev pub holds : ℕ → Vma → Bool
holds addr v = leb v.address addr && ltb addr (v.address + v.size)

pub Ordered-le : (lo : ℕ) (xs : Cells Vma) (hi : ℕ) → Ordered lo xs hi → lo ≤ hi
Ordered-le lo [] hi o = o
Ordered-le lo ((p, v) ∷ xs) hi o = omega (arith, Ordered-le (v.address + v.size) xs hi o.2)

pub Ordered-split :
    (lo : ℕ) (ys : Cells Vma) (p : Ptr) (v : Vma) (zs : Cells Vma) (hi : ℕ)
    → Ordered lo (ys ++ (p, v) ∷ zs) hi
    → Ordered lo ys v.address × Ordered v.address ((p, v) ∷ zs) hi
Ordered-split lo [] p v zs hi o = (o.0, (omega arith, o.1, o.2))
Ordered-split lo ((r, w) ∷ ys) p v zs hi o =
    let (a, b) = Ordered-split (w.address + w.size) ys p v zs hi o.2 in ((o.0, o.1, a), b)

pub down_free :
    (vm : VirtualMemory) → vm.access_lock ≡ 1 → down vm ≡ ok tt (record vm { access_lock = 0 })
down_free vm h = ground arith

pub up_held :
    (vm : VirtualMemory) → vm.access_lock ≡ 1 → up (record vm { access_lock = 0 }) ≡ ok tt vm
up_held vm h = ground arith
