-- ===== src/Virtual/Tests.antt =====
-- A range with two allocations: tests of kernel/mm/virtual.c's model, and the theorems applied.
use sgos.Prelude.{◌≡◌, refl, none, some, [], ◌∷◌, ◌==◌, if◌then◌else◌, arith}
use sgos.Prelude.Run.{ok}
use sgos.Dll.{Node, node, Heap}
use sgos.Dll.Links.{Cells}
use sgos.Virtual.{Vma, VirtualMemory, vma_at, allocate, get_vma_by_address, free_virtual_memory}
use sgos.Virtual.Shape.{IsVirtual, Ordered}
use sgos.Virtual.Lookup.{get_vma_by_address-Unheld}
use sgos.Virtual.Release.{free_virtual_memory_held, free_virtual_memory-Unheld}
use sgos.Virtual.FirstFit.{first_fit}
use sgos.Virtual.Allocate.{IsRequest, allocate_fits}
use sgos.Virtual.Gaps.{IsHigh, IsFixed, allocate_high_twice, allocate_fixed_overlaps}

abbrev v1 : Vma
v1 = vma_at 0x1000 0x1000 2 8

abbrev v2 : Vma
v2 = vma_at 0x4000 0x2000 2 8

abbrev two_nodes : Heap Vma
two_nodes p =
    if p == 100 then some (node 0 v1 101) else if p == 101 then some (node 100 v2 0) else none

abbrev two : VirtualMemory
two = record {
  first_allocation = 100;
  last_allocation = 101;
  lower_limit = 0x1000;
  upper_limit = 0x8000;
  access_lock = 1;
  cells = two_nodes;
}

abbrev two_list : Cells Vma
two_list = (100, v1) ∷ (101, v2) ∷ []

two-IsVirtual : IsVirtual two two_list
two-IsVirtual = record { links = ground arith; first_is = refl; last_is = refl; lock_free = refl }

two-Ordered : Ordered 0x1000 two_list 0x8000
two-Ordered = omega arith

get_vma_by_address-Unheld_example : get_vma_by_address 3 0x2000 two ≡ ok 0 two
get_vma_by_address-Unheld_example =
    get_vma_by_address-Unheld 3 0x2000 two two_list 0x1000 0x8000 two-IsVirtual two-Ordered
      (omega arith) (omega arith) (refl, (refl, tt))

free_virtual_memory_held_example :
    (s : VirtualMemory) × (free_virtual_memory 3 0x1000 two ≡ ok 0x1000 s)
    × IsVirtual s ((101, v2) ∷ [])
    × Ordered 0x1000 ((101, v2) ∷ []) 0x8000
    × (s.cells 100 ≡ none)
free_virtual_memory_held_example =
    free_virtual_memory_held 3 0x1000 two [] 100 v1 ((101, v2) ∷ []) 0x1000 0x8000 two-IsVirtual
      two-Ordered (omega arith) (omega arith) refl

free_virtual_memory-Unheld_example : free_virtual_memory 3 0x2000 two ≡ ok 0 two
free_virtual_memory-Unheld_example =
    free_virtual_memory-Unheld 3 0x2000 two two_list 0x1000 0x8000 two-IsVirtual two-Ordered
      (omega arith) (omega arith) (refl, (refl, tt))

abbrev stale : Node Vma
stale = node 77 (vma_at 5 6 7 8) 78

two-IsRequest : IsRequest 3 102 0x2000 two two_list
two-IsRequest = record {
  is_virtual = two-IsVirtual;
  ordered = two-Ordered;
  small = omega arith;
  enough = omega arith;
  page = omega arith;
  aligned = refl;
  not_null = omega arith;
  fresh = refl;
}

fit_between :
    first_fit 0x2000 0x1000 0x8000 two_list ≡ some ((100, v1) ∷ [], 0x2000, (101, v2) ∷ [])
unfolding first_fit
fit_between = refl

allocate_fits_example :
    (s : VirtualMemory) × (allocate 3 102 stale 0 0x2000 2 8 two ≡ ok 0x2000 s)
    × IsVirtual s ((100, v1) ∷ (102, vma_at 0x2000 0x2000 2 8) ∷ (101, v2) ∷ [])
    × Ordered 0x1000 ((100, v1) ∷ (102, vma_at 0x2000 0x2000 2 8) ∷ (101, v2) ∷ []) 0x8000
allocate_fits_example =
    allocate_fits 3 102 stale 0 0x2000 2 8 two two_list ((100, v1) ∷ []) 0x2000 ((101, v2) ∷ [])
      two-IsRequest refl refl fit_between

wide-IsRequest : IsRequest 3 102 0x3000 two two_list
wide-IsRequest = record {
  is_virtual = two-IsVirtual;
  ordered = two-Ordered;
  small = omega arith;
  enough = omega arith;
  page = omega arith;
  aligned = refl;
  not_null = omega arith;
  fresh = refl;
}

no_fit : first_fit 0x3000 0x1000 0x8000 two_list ≡ none
unfolding first_fit
no_fit = refl

abbrev empty : VirtualMemory
empty = record two { first_allocation = 0; last_allocation = 0 }

empty-IsVirtual : IsVirtual empty []
empty-IsVirtual = record { links = tt; first_is = refl; last_is = refl; lock_free = refl }

empty-IsHigh : IsHigh 102 0x2000 24 empty
empty-IsHigh = record {
  not_null = omega arith;
  page = omega arith;
  aligned = refl;
  small = omega arith;
  fits = omega arith;
  random = refl;
  highmem = refl;
}

allocate_high_twice_example :
    (s t : VirtualMemory) × (allocate 3 102 stale 0 0x2000 2 24 empty ≡ ok 0x6000 s)
    × (get_vma_by_address 3 0x6000 s ≡ ok 0 s)
    × (allocate 3 103 stale 0 0x2000 2 24 s ≡ ok 0x6000 t)
allocate_high_twice_example =
    allocate_high_twice 2 102 103 stale stale 0 0x6000 0x2000 2 24 empty empty-IsVirtual
      empty-IsHigh (omega arith) (omega arith)

inside-IsFixed : IsFixed 102 0x5000 0x1000 0 two
inside-IsFixed = record {
  not_null = omega arith;
  page = omega arith;
  aligned = refl;
  low = omega arith;
  high = omega arith;
  small = omega arith;
  fixed = refl;
}

allocate_fixed_overlaps_example :
    (t : VirtualMemory) × (allocate 3 102 stale 0x5000 0x1000 2 0 two ≡ ok 0x5000 t)
allocate_fixed_overlaps_example =
    allocate_fixed_overlaps 3 102 stale 0x5000 0x1000 2 0 two ((100, v1) ∷ []) 101 v2 two-IsVirtual
      (omega arith) refl (omega arith) refl inside-IsFixed
