-- ===== src/Allocator/Query.antt =====
-- mm_init_block and mm_check_allocated of kernel/mm/allocator.c.
use sgos.Prelude.{
  ℕ, zero, suc, ◌+◌, ◌-◌, ◌^◌, ◌≤◌, ◌<◌, ◌≡◌, ◌≢◌, refl, ◌∙◌, ap, subst, ◌⊎◌, inl, inr, Bool, true,
  false, ◌&&◌, Bool-cases, none, some, [], ◌∷◌, ◌++◌, ◌==◌, if◌then◌else◌, leb, ltb, arith, length,
}
use sgos.Prelude.Run.{ok, step}
use sgos.Dll.{Ptr, null, Node, node, Heap, write}
use sgos.Dll.Links.{Cells, first, Links}
use sgos.Dll.Heads.{write_self}
use sgos.Allocator.{
  Allocator, Block, is_free, is_null, make_free, word, node_size, change, calc_hash_index,
  check_loop, mm_check_allocated, mm_init_block,
}
use sgos.Allocator.Steps.{retabled, read_lem, store_lem, change_lem}
use sgos.Allocator.Index.{calc_hash_index_top}
use sgos.Allocator.Chains.{Filed, Filed-slot, file, hash_append_lem}
use sgos.Allocator.Tiles.{slot_of, Tiled, Tiled-le}
use sgos.Allocator.Shape.{IsHeap}

-- The value for an address: 1 in an occupied block or its descriptor, 0 in a free one and outside.
pub status : ℕ → Cells Block → ℕ
status addr [] = 0
status addr ((p, b) ∷ xs) =
    if leb p addr && ltb addr (p + node_size + b.size)
    then (if is_free b then 0 else 1)
    else status addr xs

abbrev covers : ℕ → Ptr → ℕ → Bool
covers addr p e = leb p addr && ltb addr e

check_hit :
    (addr k : ℕ) (a : Allocator) (p : Ptr) (n : Node Block)
    → p ≢ null
    → a.nodes p ≡ some n
    → covers addr p (word (p + node_size + n.v.size)) ≡ true
    → check_loop addr (suc k) p a ≡ ok (if is_free n.v then 0 else 1) a
unfolding check_loop
check_hit addr k a p n nn e h =
    let z : is_null p ≡ false = ground arith in rw z (step _ (read_lem a p nn e) ∙ rw h)

check_miss :
    (addr k : ℕ) (a : Allocator) (p : Ptr) (n : Node Block)
    → p ≢ null
    → a.nodes p ≡ some n
    → covers addr p (word (p + node_size + n.v.size)) ≡ false
    → check_loop addr (suc k) p a ≡ check_loop addr k n.next a
unfolding check_loop
check_miss addr k a p n nn e h =
    let z : is_null p ≡ false = ground arith in rw z (step _ (read_lem a p nn e) ∙ rw h)

check_loop_lem :
    (addr k m end : ℕ) (a : Allocator) (b : Ptr) (xs : Cells Block)
    → Links a.nodes b xs null
    → Tiled m xs end
    → end < 2 ^ 32
    → length xs < k
    → check_loop addr k (first xs null) a ≡ ok (status addr xs) a
unfolding check_loop status
check_loop_lem addr zero m end a b xs l t hi fuel = absurd (omega arith)
check_loop_lem addr (suc k) m end a b [] l t hi fuel = refl
check_loop_lem addr (suc k) m end a b ((p, c) ∷ xs) l t hi fuel =
    let rest = Tiled-le (m + node_size + c.size) end xs t.1 in
    let w : word (p + node_size + c.size) ≡ p + node_size + c.size = omega (arith, t.0) in
    let ih = check_loop_lem addr k (m + node_size + c.size) end a p xs l.3 t.1 hi (omega arith) in
    let same = ap (λ n. covers addr p n) w in
    let n = node b c (first xs null) in
    elim (Bool-cases (covers addr p (p + node_size + c.size))) [
      | inl h ↦ check_hit addr k a p n l.0 l.1 (same ∙ h) ∙ rw h
      | inr h ↦ check_miss addr k a p n l.0 l.1 (same ∙ h) ∙ ih ∙ rw h
    ]

block_after :
    (m end : ℕ) (ys : Cells Block) (p : Ptr) (b : Block) (zs : Cells Block)
    → Tiled m (ys ++ (p, b) ∷ zs) end
    → m ≤ p
block_after m end [] p b zs t = omega (arith, t.0)
block_after m end ((r, c) ∷ ys) p b zs t =
    omega (arith, block_after (m + node_size + c.size) end ys p b zs t.1)

status_here :
    (addr m end : ℕ) (ys : Cells Block) (p : Ptr) (b : Block) (zs : Cells Block)
    → Tiled m (ys ++ (p, b) ∷ zs) end
    → p ≤ addr
    → addr < p + node_size + b.size
    → status addr (ys ++ (p, b) ∷ zs) ≡ (if is_free b then 0 else 1)
unfolding status
status_here addr m end [] p b zs t lo hi =
    let h : covers addr p (p + node_size + b.size) ≡ true = ground arith in rw h
status_here addr m end ((r, c) ∷ ys) p b zs t lo hi =
    let before = block_after (m + node_size + c.size) end ys p b zs t.1 in
    let h : covers addr r (r + node_size + c.size) ≡ false = ground arith in
    rw h (status_here addr (m + node_size + c.size) end ys p b zs t.1 lo hi)

status_outside :
    (addr m end : ℕ) (xs : Cells Block)
    → Tiled m xs end
    → (addr < m) ⊎ (end ≤ addr)
    → status addr xs ≡ 0
unfolding status
status_outside addr m end [] t h = refl
status_outside addr m end ((p, b) ∷ xs) t h =
    let rest = Tiled-le (m + node_size + b.size) end xs t.1 in
    let h' : covers addr p (p + node_size + b.size) ≡ false = ground arith in
    rw h' (status_outside addr (m + node_size + b.size) end xs t.1 (ground arith))

check_run :
    (addr fuel : ℕ) (a : Allocator)
    → a.in_allocator ≡ 0
    → mm_check_allocated addr fuel a ≡ check_loop addr fuel a.first_node a
unfolding mm_check_allocated
check_run addr fuel a idle = let z : (a.in_allocator == 0) ≡ true = ground arith in rw z

check_busy :
    (addr fuel : ℕ) (a : Allocator)
    → (a.in_allocator == 0) ≡ false
    → mm_check_allocated addr fuel a ≡ ok 1 a
unfolding mm_check_allocated
check_busy addr fuel a z = rw z

-- While no allocation is under way, mm_check_allocated gives 1 for the addresses of an occupied
-- block and its descriptor, and 0 for those of a free one.
pub mm_check_allocated_inside :
    (start end addr fuel : ℕ) (a : Allocator) (ys : Cells Block) (p : Ptr) (b : Block)
    (zs : Cells Block)
    → IsHeap start end a (ys ++ (p, b) ∷ zs)
    → a.in_allocator ≡ 0
    → length (ys ++ (p, b) ∷ zs) < fuel
    → p ≤ addr
    → addr < p + node_size + b.size
    → mm_check_allocated addr fuel a ≡ ok (if is_free b then 0 else 1) a
mm_check_allocated_inside start end addr fuel a ys p b zs h idle enough lo hi =
    let bs = ys ++ (p, b) ∷ zs in
    check_run addr fuel a idle
    ∙ ap (λ f. check_loop addr fuel f a) h.laid.first_is
    ∙ check_loop_lem addr fuel start end a null bs h.laid.links h.laid.tiled h.laid.high enough
    ∙ ap (λ r. ok r a) (status_here addr start end ys p b zs h.laid.tiled lo hi)

-- Outside the heap it gives 0; during an allocation it gives 1 for every address.
pub mm_check_allocated_outside :
    (start end addr fuel : ℕ) (a : Allocator) (bs : Cells Block)
    → IsHeap start end a bs
    → length bs < fuel
    → (addr < start) ⊎ (end ≤ addr)
    → mm_check_allocated addr fuel a ≡ ok (if a.in_allocator == 0 then 0 else 1) a
mm_check_allocated_outside start end addr fuel a bs h enough out =
    elim (Bool-cases (a.in_allocator == 0)) [
      | inl z ↦
          check_run addr fuel a (ground arith)
          ∙ ap (λ f. check_loop addr fuel f a) h.laid.first_is
          ∙ check_loop_lem addr fuel start end a null bs h.laid.links h.laid.tiled h.laid.high
              enough
          ∙ ap (λ r. ok r a) (status_outside addr start end bs h.laid.tiled out)
          ∙ rw z
      | inr z ↦ check_busy addr fuel a z ∙ rw z
    ]

-- The table of a new heap is empty.
empty_table : (hashes : Heap (Unit {0})) → Filed (λ i. null) hashes (λ q. none)
empty_table hashes = record {
  chain = λ i. [];
  heads = λ i. refl;
  links = λ i. tt;
  members = λ i q. refl;
}

new_slot :
    (r p : Ptr) (b : Block)
    → is_free b ≡ true
    → calc_hash_index (b.size + node_size) ≡ 14
    → slot_of ((p, b) ∷ []) r ≡ file p 14 (λ q. none) r
new_slot r p b f e = elim (Bool-cases (r == p)) [ inl k ↦ rw (k, f) (ap some e) | inr k ↦ rw k ]

-- A new heap of 512 KB or more is one free block, and well-formed. (A smaller one is not: its block
-- is in the last chain all the same.)
pub mm_init_block-IsHeap :
    (addr size stale : ℕ) (a : Allocator)
    → addr ≢ 0
    → 2 ^ 19 ≤ size
    → size ≤ 2 ^ 31
    → addr + size < 2 ^ 32
    → (s : Allocator) × (mm_init_block addr size stale a ≡ ok tt s)
      × IsHeap addr
          (addr + size)
          s
          ((addr, make_free (record { attribute = stale; size = size - node_size })) ∷ [])
unfolding mm_init_block
mm_init_block-IsHeap addr size stale a nn lo hi fits =
    let w : word (size + 2 ^ 32 - node_size) ≡ size - node_size = omega arith in
    let b : Block = record { attribute = stale; size = word (size + 2 ^ 32 - node_size) } in
    let b' : Block = record { attribute = stale; size = size - node_size } in
    let bb : b ≡ b' = ap (λ (n : ℕ). record { attribute = stale; size = n }) w in
    let g : Heap Block = write a.nodes addr (some (node null b null)) in
    let a1 : Allocator = record a { first_node = null; free_table = λ i. null; nodes = g } in
    let (t, hh, run, filed) =
      hash_append_lem a1 (λ q. none) addr 14 (empty_table a.hashes) refl nn in
    let g' : Heap Block = write g addr (some (node null (make_free b) null)) in
    let s : Allocator = record (retabled a1 t hh) { first_node = addr; nodes = g' } in
    (
      s,
      step _ run
          ∙ step _ (
              store_lem (retabled a1 t hh) (change addr make_free) (
                change_lem g addr null null b make_free nn
                  (write_self a.nodes addr (some (node null b null))))),
      subst (λ (v : Block). IsHeap addr (addr + size) s ((addr, make_free v) ∷ [])) bb
          (record {
            laid = record {
              links = (nn, write_self g addr (some (node null (make_free b) null)), refl, tt);
              first_is = refl;
              tiled = (refl, omega arith);
              low = nn;
              high = fits;
              span = omega arith;
            };
            filed =
                Filed-slot
                  (λ r.
                    new_slot r addr (make_free b) (ground arith)
                      (calc_hash_index_top (b.size + node_size) (omega arith)))
                  filed;
          }),
    )
