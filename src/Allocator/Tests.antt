-- ===== src/Allocator/Tests.antt =====
-- The theorems on kernel/mm/allocator.c at concrete heaps.
use sgos.Prelude.{
  ℕ, ◌+◌, ◌-◌, ◌^◌, ◌≤◌, ◌<◌, ◌≡◌, ◌⊎◌, refl, Option, true, false, none, some, [], ◌∷◌, arith,
}
use sgos.Prelude.Run.{Run, ok}
use sgos.Dll.{Ptr, null, set_next, set_prev}
use sgos.Dll.Links.{Cells}
use sgos.Allocator.Tiles.{block_at}
use sgos.Allocator.{
  Allocator, Block, calc_hash_index, is_free, alloc_from, find_fit, occupy, hash_delete, split,
  hash_append, read, read_hash, store, store_hash, make_free, mm_alloc, mm_free, mm_check_allocated,
  node_size,
}
use sgos.Allocator.Shape.{IsHeap, Coalesced}
use sgos.Allocator.Coalesce.{coalesce}
use sgos.Allocator.Allocate.{Allocated, mm_alloc_success, mm_alloc_failure}
use sgos.Allocator.Release.{mm_free_lem}
use sgos.Allocator.Roundtrip.{mm_free-mm_alloc, mm_alloc_apart}
use sgos.Allocator.Client.{
  owns, Calls, none_yet, then_call, refused, gave, Serves, Calls-Serves, Calls-return, Returned,
}
use sgos.Allocator.Query.{mm_check_allocated_inside}
use sgos.Allocator.Demo.{
  demo, blocks, low_block, used_block, high_block, demo-IsHeap, demo-Coalesced,
}

hundred_below : calc_hash_index 100 < 14
unfolding calc_hash_index
hundred_below = omega arith

mm_alloc_success_example : Allocated 4096 4384 70 9 4 demo blocks
mm_alloc_success_example =
    mm_alloc_success 4096 4384 70 9 4 demo blocks 4284 high_block demo-IsHeap demo-Coalesced
      (omega arith) (ground arith) refl refl (omega arith)

mm_alloc_failure_example : mm_alloc 90 9 4 demo ≡ ok null (record demo { in_allocator = 0 })
mm_alloc_failure_example =
    mm_alloc_failure 4096 4384 90 9 4 demo blocks demo-IsHeap (omega arith) (ground arith)
      (λ q c e f. ground arith)

mm_free_lem_example :
    (s : Allocator) × (mm_free 4184 demo ≡ ok 100 s)
    × IsHeap 4096 4384 s
        (coalesce ((4096, low_block) ∷ (4160, make_free used_block) ∷ (4284, high_block) ∷ []))
    × Coalesced
        (coalesce ((4096, low_block) ∷ (4160, make_free used_block) ∷ (4284, high_block) ∷ []))
mm_free_lem_example =
    mm_free_lem 4096 4384 demo ((4096, low_block) ∷ []) 4160 used_block ((4284, high_block) ∷ [])
      demo-IsHeap demo-Coalesced refl

mm_check_allocated_inside_example : mm_check_allocated 4200 4 demo ≡ ok 1 demo
mm_check_allocated_inside_example =
    mm_check_allocated_inside 4096 4384 4200 4 demo ((4096, low_block) ∷ []) 4160 used_block
      ((4284, high_block) ∷ []) demo-IsHeap refl (omega arith) (omega arith) (omega arith)

mm_free-mm_alloc_example :
    (p : Ptr) × (s : Allocator) × (mm_alloc 70 9 4 demo ≡ ok p s)
    × (n : ℕ) × (s' : Allocator) × (mm_free p s ≡ ok n s')
    × IsHeap 4096 4384 s' blocks
    × (70 ≤ n)
    × (n < 70 + 32)
mm_free-mm_alloc_example =
    mm_free-mm_alloc 4096 4384 70 9 4 demo blocks 4284 high_block demo-IsHeap demo-Coalesced
      (omega arith) (ground arith) refl refl (omega arith)

mm_alloc_apart_example :
    (p : Ptr) × (s : Allocator) × (mm_alloc 70 9 4 demo ≡ ok p s)
    × (4096 + node_size ≤ p)
    × (p + 70 ≤ 4384)
    × ((p + 70 ≤ 4160) ⊎ (4160 + node_size + 100 ≤ p - node_size))
mm_alloc_apart_example =
    mm_alloc_apart 4096 4384 70 9 4 demo blocks 4284 high_block 4160 used_block demo-IsHeap
      demo-Coalesced (omega arith) (ground arith) refl refl (omega arith) refl refl

abbrev one_block : Block
one_block = record { attribute = 1; size = 264 }

abbrev reached : Cells Block
reached = coalesce ((4096, low_block) ∷ (4160, make_free used_block) ∷ (4284, high_block) ∷ [])

-- With the block in the middle free the heap is one block.
all_free : reached ≡ (4096, one_block) ∷ []
unfolding coalesce
all_free = refl

-- A run on the small heap: the first block of the chain with room is taken, and split.
run_alloc : Run Allocator Ptr → Option Ptr
run_alloc (ok p s) = some p
run_alloc r = none

alloc_low : run_alloc (mm_alloc 8 9 4 demo) ≡ some 4308
unfolding run_alloc mm_alloc alloc_from find_fit occupy hash_delete split hash_append read read_hash
    store store_hash calc_hash_index set_next set_prev
alloc_low = refl

abbrev middle_freed : Allocator
middle_freed =
    (mm_free_lem 4096 4384 demo ((4096, low_block) ∷ []) 4160 used_block ((4284, high_block) ∷ [])
      demo-IsHeap demo-Coalesced refl).0

demo_owned :
    (p : Ptr)
    → owns p (4184 ∷ []) ≡ true
    → (q : Ptr) × (b : Block) × (p ≡ q + node_size)
      × (block_at q blocks ≡ some b)
      × (is_free b ≡ false)
demo_owned p i = (4160, used_block, ground arith, refl, refl)

demo-Serves : Serves 4096 4384 demo (4184 ∷ [])
demo-Serves = record {
  blocks = blocks;
  heap = demo-IsHeap;
  coalesced = demo-Coalesced;
  distinct = (refl, tt);
  owned = demo_owned;
}

-- A request that is too large, and mm_free of the one address.
demo-Calls : Calls demo (4184 ∷ []) middle_freed []
demo-Calls =
    then_call
      (then_call none_yet (
        refused 300 9 (2 ^ 27 + 1) (omega arith) (
          mm_alloc_failure 4096 4384 300 9 (2 ^ 27 + 1) demo blocks demo-IsHeap (omega arith)
            (ground arith) (λ q c e f. ground arith))))
      (gave [] [] 4184 100 refl refl (
        (mm_free_lem 4096 4384 demo ((4096, low_block) ∷ []) 4160 used_block
          ((4284, high_block) ∷ []) demo-IsHeap demo-Coalesced refl).1))

Calls-Serves_example : Serves 4096 4384 middle_freed []
Calls-Serves_example =
    Calls-Serves 4096 4384 demo (4184 ∷ []) middle_freed [] demo-Serves demo-Calls

Calls-return_example :
    ((q : Ptr) × (t : Allocator) × (mm_alloc 50 9 (2 ^ 27 + 1) demo ≡ ok q t)) × Returned demo 4184
Calls-return_example =
    Calls-return 4096 4384 50 9 (2 ^ 27 + 1) demo demo (4184 ∷ []) (4184 ∷ []) 4184 demo-Serves
      none_yet (omega arith) refl
