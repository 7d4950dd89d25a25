-- ===== src/Virtual/FirstFit.antt =====
-- First fit, the reference for the search from the low end in MmAllocateVirtualMemory of
-- kernel/mm/virtual.c.
use sgos.Prelude.{
  ℕ, ◌+◌, ◌≤◌, ◌<◌, ◌≡◌, ◌⊎◌, inl, inr, refl, ap, Option, none, some, [], ◌∷◌, ◌++◌, arith,
  if◌then◌else◌, ltb, leb, Bool-cases, Option-cases,
}
use sgos.Dll.{Ptr}
use sgos.Dll.Links.{Cells}
use sgos.Virtual.{Vma, vma_at}
use sgos.Virtual.Shape.{Ordered}

abbrev pub Fit : Type 0
Fit = Cells Vma × ℕ × Cells Vma

abbrev pub under : Ptr × Vma → Option Fit → Option Fit
under x none = none
under x (some (ys, addr, zs)) = some (x ∷ ys, addr, zs)

-- The first gap of `size` above `lo`: the allocations below it, its address, and those above it.
unfoldable pub first_fit : ℕ → ℕ → ℕ → Cells Vma → Option Fit
first_fit size lo hi [] = if ltb hi (lo + size) then none else some ([], lo, [])
first_fit size lo hi ((p, v) ∷ xs) =
    if leb (lo + size) v.address
    then some ([], lo, (p, v) ∷ xs)
    else under (p, v) (first_fit size (v.address + v.size) hi xs)

-- What is known of a fit: `xs` is cut in two, and the new allocation keeps the order.
abbrev pub IsFit : ℕ → ℕ → ℕ → Cells Vma → Option Fit → Type 0
IsFit size lo hi xs none = Unit {0}
IsFit size lo hi xs (some (ys, addr, zs)) =
    (xs ≡ ys ++ zs)
    × ((buf : Ptr) (attr flag : ℕ) → Ordered lo (ys ++ (buf, vma_at addr size attr flag) ∷ zs) hi)

IsFit-under :
    (size lo hi : ℕ) (p : Ptr) (v : Vma) (xs : Cells Vma) (o : Option Fit)
    → lo ≤ v.address
    → 0 < v.size
    → IsFit size (v.address + v.size) hi xs o
    → IsFit size lo hi ((p, v) ∷ xs) (under (p, v) o)
IsFit-under size lo hi p v xs none a b f = tt
IsFit-under size lo hi p v xs (some (ys, addr, zs)) a b f =
    (ap (λ t. (p, v) ∷ t) f.0, λ buf attr flag. (a, b, f.1 buf attr flag))

pub first_fit-IsFit :
    (size lo hi : ℕ) (xs : Cells Vma)
    → 0 < size
    → Ordered lo xs hi
    → IsFit size lo hi xs (first_fit size lo hi xs)
unfolding first_fit
first_fit-IsFit size lo hi [] pos o = elim (Bool-cases (ltb hi (lo + size))) [
  | inl e ↦ rw e tt
  | inr e ↦ rw e (refl, λ buf attr flag. ground arith)
]
first_fit-IsFit size lo hi ((p, v) ∷ xs) pos o = elim (Bool-cases (leb (lo + size) v.address)) [
  | inl e ↦ rw e (refl, λ buf attr flag. (ground arith, pos, (ground arith, o.1, o.2)))
  | inr e ↦ rw e (
      IsFit-under size lo hi p v xs _ o.0 o.1
        (first_fit-IsFit size (v.address + v.size) hi xs pos o.2))
]

-- The range of `size` from `a` on meets no allocation.
abbrev pub Vacant : ℕ → ℕ → Cells Vma → Type 0
Vacant a size [] = Unit {0}
Vacant a size ((p, v) ∷ xs) = ((a + size ≤ v.address) ⊎ (v.address + v.size ≤ a)) × Vacant a size xs

-- Where first fit fails there is no vacant range of that size between the limits.
pub first_fit-none :
    (size lo hi a : ℕ) (xs : Cells Vma)
    → Ordered lo xs hi
    → first_fit size lo hi xs ≡ none
    → lo ≤ a
    → a + size ≤ hi
    → ¬ Vacant a size xs
unfolding first_fit
first_fit-none size lo hi a [] o e la ha f = ground arith
first_fit-none size lo hi a ((p, v) ∷ xs) o e la ha (inl below, f) = ground arith
first_fit-none size lo hi a ((p, v) ∷ xs) o e la ha (inr above, f) =
    elim (Option-cases (first_fit size (v.address + v.size) hi xs)) [
      | inl e' ↦ first_fit-none size (v.address + v.size) hi a xs o.2 e' above ha f
      | inr (t, e') ↦ ground arith
    ]
