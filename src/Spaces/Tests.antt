-- ===== src/Spaces/Tests.antt =====
-- Two spaces, each with one allocation that may be swapped, and the exchange of a page applied.
use sgos.Prelude.{ℕ, ◌+◌, ◌*◌, ◌≡◌, refl, none, some, [], ◌∷◌, ◌==◌, if◌then◌else◌, arith}
use sgos.Prelude.Run.{ok, fault}
use sgos.Dll.{node, Heap}
use sgos.Dll.Links.{Cells}
use sgos.Virtual.{Vma, VirtualMemory, vma_at}
use sgos.Virtual.Shape.{IsVirtual, Ordered}
use sgos.Frames.Demo.{machine}
use sgos.Paging.{Paging, find_page}
use sgos.Pages.Exchange.{Entries, Exchanged}
use sgos.Spaces.{Spaces, swap_multiple}
use sgos.Spaces.Range.{Holds, swap_multiple_exchanges, swap_multiple-Unheld}

abbrev buffer : Vma
buffer = vma_at 0x00400000 0x00002000 2 4

abbrev one_node : Heap Vma
one_node p = if p == 100 then some (node 0 buffer 0) else none

abbrev ranges : VirtualMemory
ranges = record {
  first_allocation = 100;
  last_allocation = 100;
  lower_limit = 0x1000;
  upper_limit = 0x00800000;
  access_lock = 1;
  cells = one_node;
}

abbrev one_list : Cells Vma
one_list = (100, buffer) ∷ []

ranges-IsVirtual : IsVirtual ranges one_list
ranges-IsVirtual = record {
  links = ground arith;
  first_is = refl;
  last_is = refl;
  lock_free = refl;
}

ranges-Ordered : Ordered 0x1000 one_list 0x00800000
ranges-Ordered = omega arith

first_held : Holds ranges 2 0x00400000 100 buffer
first_held = record {
  before = [];
  behind = [];
  lo = 0x1000;
  hi = 0x00800000;
  list = ranges-IsVirtual;
  ordered = ranges-Ordered;
  small = omega arith;
  fuel_left = omega arith;
  held = refl;
}

-- The destination's directory is in page 1024, the source's in 1026, each with a table in the page
-- behind it, whose first entry names page 1029 or 1030.
abbrev two_directories : ℕ → ℕ → ℕ
two_directories q j =
    if q == 1024
    then if j == 1 then 1025 * 4096 + 7 else 0
    else if q == 1026
    then if j == 1 then 1027 * 4096 + 7 else 0
    else if q == 1025
    then if j == 0 then 1029 * 4096 + 7 else 0
    else if q == 1027
    then if j == 0 then 1030 * 4096 + 7 else 0
    else 0

abbrev shared_memory : Paging
shared_memory = record { frames = machine; memory = two_directories; overrun = 0 }

abbrev pair_of_spaces : Spaces
pair_of_spaces = record {
  paging = shared_memory;
  dest_directory = 1024;
  src_directory = 1026;
  dest_memory = ranges;
  src_memory = ranges;
}

pages_of_spaces : Entries 1024 0x00400000 1026 0x00400000 shared_memory
pages_of_spaces = record {
  dest_page = ground arith;
  src_page = ground arith;
  dest_table = ground arith;
  src_table = ground arith;
  dest_dest = ground arith;
  dest_src = ground arith;
  src_dest = ground arith;
  src_src = ground arith;
  differ = ground arith;
  dest_fits = ground arith;
  src_fits = ground arith;
}

swap_multiple_exchanges_example :
    (t : Spaces) × (swap_multiple 2 0x00400000 0x00400000 4096 6 pair_of_spaces ≡ ok 4096 t)
    × Exchanged 1024 0x00400000 1026 0x00400000 shared_memory t.paging
        (find_page two_directories 1026 0x00400000)
        (find_page two_directories 1024 0x00400000)
swap_multiple_exchanges_example =
    swap_multiple_exchanges 2 0x00400000 0x00400000 pair_of_spaces 100 buffer 100 buffer refl
      first_held first_held refl refl pages_of_spaces

swap_multiple-Unheld_example : swap_multiple 2 0x00400000 0x00600000 4096 6 pair_of_spaces ≡ fault
swap_multiple-Unheld_example =
    swap_multiple-Unheld 2 0x00400000 0x00600000 4096 6 pair_of_spaces one_list 0x1000 0x00800000
      refl ranges-IsVirtual ranges-Ordered (omega arith) (omega arith) (refl, tt)
