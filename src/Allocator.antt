-- ===== src/Allocator.antt =====
-- kernel/mm/allocator.c with kernel/include/allocator.h: the allocator behind the kernel's heap.
-- `allocator_t` and the flag `in_allocator` are the record `Allocator`. A `node_t` is kept in two
-- heaps: `nodes` holds its `prev`, `next` and, as the value, `attribute` and `size`; `hashes` holds
-- `hash_prev` and `hash_next`. sizeof(node_t) is 24 (six words of 4 bytes), and pointers and sizes
-- wrap at 2 ^ 32. The word that memory holds where a new node's `attribute` will stand is the
-- argument `stale`; `fuel` bounds the walks along a chain and along the blocks. The interrupt flag,
-- which every operation turns off and restores, is not modelled.
pub mod Index
pub mod Steps
pub mod Chains
pub mod Tiles
pub mod Shape
pub mod Search
pub mod Carve
pub mod Occupy
pub mod Allocate
pub mod Merge
pub mod Coalesce
pub mod Release
pub mod Roundtrip
pub mod Client
pub mod Query
pub mod Demo
mod Tests
use mathlib.Core.WellFounded.{Acc}
use mathlib.Core.Logic.{dite}
use native.Mathlib.Decide.{dec_lt}
use sgos.Prelude.{
  ℕ, zero, suc, ◌+◌, ◌-◌, ◌*◌, ◌/◌, ◌%◌, ◌^◌, ◌<◌, Bool, true, false, not, ◌&&◌, Option, none, some,
  ◌==◌, ltb, leb, if◌then◌else◌, arith,
}
use sgos.Prelude.Order.{lt_wf}
use sgos.Prelude.Run.{
  Run, ok, fault, out_of_fuel, Cmd, pure, and_then, ◌>>=◌, ◌>>◌, get, modify, when,
}
use sgos.Dll.{Ptr, null, Node, node, Heap, write, load, set_prev, set_next}

pub record Block : Type 0 where
  pub attribute : ℕ
  pub size : ℕ

pub record Allocator : Type 0 where
  pub first_node : Ptr
  pub free_table : ℕ → Ptr
  pub in_allocator : ℕ
  pub nodes : Heap Block
  pub hashes : Heap (Unit {0})

abbrev pub max_hash_entry : ℕ
max_hash_entry = 15

-- sizeof(node_t)
abbrev pub node_size : ℕ
node_size = 24

abbrev pub word : ℕ → ℕ
word n = n % 2 ^ 32

-- IS_FREE_NODE, MAKE_FREE and MAKE_OCCUPIED: bit 0 of `attribute`.
abbrev pub is_free : Block → Bool
is_free b = b.attribute % 2 == 1

abbrev pub make_free : Block → Block
make_free b = record b { attribute = b.attribute / 2 * 2 + 1 }

abbrev pub make_occupied : Block → Block
make_occupied b = record b { attribute = b.attribute / 2 * 2 }

abbrev pub is_null : Ptr → Bool
is_null p = p == null

pub half-lt : (k : ℕ) → 1 < k → k / 2 < k
half-lt k h = omega arith

-- `while (k > 1) { k >>= 1; i++; }`
index_loop : (k i : ℕ) → Acc ◌<◌ k → ℕ
index_loop k i (Acc.intro _ smaller) =
    dite (dec_lt 1 k) (λ h. index_loop (k / 2) (suc i) (smaller (k / 2) (half-lt k h))) (λ _. i)

pub calc_hash_index : ℕ → ℕ
unfolding index_loop lt_wf dec_lt
calc_hash_index k =
    let i = index_loop (k / 32) 0 (lt_wf.apply (k / 32)) in
    if leb max_hash_entry i then max_hash_entry - 1 else i

-- Reads of a node, and writes to one.
pub read : Ptr → Cmd Allocator (Node Block)
read p a = elim (load a.nodes p) [ none ↦ fault | some n ↦ ok n a ]

pub read_hash : Ptr → Cmd Allocator (Node (Unit {0}))
read_hash p a = elim (load a.hashes p) [ none ↦ fault | some n ↦ ok n a ]

pub store : (Heap Block → Option (Heap Block)) → Cmd Allocator (Unit {0})
store op a = elim (op a.nodes) [ none ↦ fault | some g ↦ ok tt (record a { nodes = g }) ]

pub store_hash : (Heap (Unit {0}) → Option (Heap (Unit {0}))) → Cmd Allocator (Unit {0})
store_hash op a = elim (op a.hashes) [ none ↦ fault | some g ↦ ok tt (record a { hashes = g }) ]

abbrev pub change : Ptr → (Block → Block) → Heap Block → Option (Heap Block)
change p f h = elim (load h p) [
  | none ↦ none
  | some n ↦ some (write h p (some (record n { v = f n.v })))
]

abbrev pub set_head : ℕ → Ptr → Allocator → Allocator
set_head j p a = record a { free_table = λ i. if i == j then p else a.free_table i }

abbrev pub set_flag : ℕ → Cmd Allocator (Unit {0})
set_flag f = modify λ a. record a { in_allocator = f }

-- HASH_APPEND(i, who->free_table[j])
pub hash_append : Ptr → ℕ → Cmd Allocator (Unit {0})
hash_append i j = do
  l ← get λ a. a.free_table j
  modify λ a. record a { hashes = write a.hashes i (some (node null tt l)) }
  when (not (is_null l)) (store_hash (set_prev l i))
  modify (set_head j i)

-- HASH_DELETE(i, who->free_table[j])
pub hash_delete : Ptr → ℕ → Cmd Allocator (Unit {0})
hash_delete i j = do
  n ← read_hash i
  if is_null n.prev then modify (set_head j n.next) else store_hash (set_next n.prev n.next)
  n' ← read_hash i
  when (not (is_null n'.next)) (store_hash (set_prev n'.next n'.prev))

-- The remaining space behind a block of `siz` bytes becomes a free block of its own.
pub split : Ptr → ℕ → ℕ → ℕ → Cmd Allocator (Unit {0})
split nod siz rest stale = do
  let nod2 = word (nod + word (siz + node_size))
  let fresh : Block = record { attribute = stale; size = rest - node_size }
  modify λ a. record a { nodes = write a.nodes nod2 (some (node null fresh null)) }
  store (change nod λ b. record b { size = siz })
  n ← read nod
  store (set_next nod2 n.next)
  when (not (is_null n.next)) (store (set_prev n.next nod2))
  store (set_next nod nod2)
  store (set_prev nod2 nod)
  hash_append nod2 (calc_hash_index rest)
  store (change nod2 make_free)

-- `int rest = nod->size - siz; ... if (rest >= 32)`
abbrev pub has_rest : ℕ → Bool
has_rest rest = leb 32 rest && ltb rest (2 ^ 31)

-- The body of the search's loop once a block is found in chain `j`.
pub occupy : ℕ → ℕ → ℕ → Ptr → Cmd Allocator Ptr
occupy siz stale j nod = do
  n ← read nod
  let rest = word (n.v.size + 2 ^ 32 - siz)
  hash_delete nod j
  store (change nod make_occupied)
  when (has_rest rest) (split nod siz rest stale)
  set_flag 0
  pure (word (nod + node_size))

-- `while (nod && nod->size < siz) nod = nod->hash_next;`
pub find_fit : ℕ → ℕ → Ptr → Cmd Allocator Ptr
find_fit siz zero nod = λ a. out_of_fuel
find_fit siz (suc k) nod = if is_null nod then pure null else do
  n ← read nod
  if ltb n.v.size siz then (do h ← read_hash nod; find_fit siz k h.next) else pure nod

-- The loop over `j`, with the rounds that are left.
pub alloc_from : ℕ → ℕ → ℕ → ℕ → ℕ → Cmd Allocator Ptr
alloc_from siz stale fuel zero j = do set_flag 0; pure null
alloc_from siz stale fuel (suc r) j = do
  head ← get λ a. a.free_table j
  nod ← find_fit siz fuel head
  if is_null nod then alloc_from siz stale fuel r (j + 1) else occupy siz stale j nod

pub mm_alloc : ℕ → ℕ → ℕ → Cmd Allocator Ptr
mm_alloc siz stale fuel = if siz == 0 then pure null else do
  let i = calc_hash_index (word (siz + node_size))
  set_flag 1
  alloc_from siz stale fuel (max_hash_entry - i) i

pub check_loop : ℕ → ℕ → Ptr → Cmd Allocator ℕ
check_loop addr zero nod = λ a. out_of_fuel
check_loop addr (suc k) nod = if is_null nod then pure 0 else do
  n ← read nod
  if leb nod addr && ltb addr (word (nod + node_size + n.v.size))
      then pure (if is_free n.v then 0 else 1)
      else check_loop addr k n.next

pub mm_check_allocated : ℕ → ℕ → Cmd Allocator ℕ
mm_check_allocated addr fuel = do
  busy ← get λ a. a.in_allocator
  first ← get λ a. a.first_node
  if busy == 0 then check_loop addr fuel first else pure 1

-- `a` takes in `b`, its successor; `c` is the one of the two that is in the table.
pub merge : Ptr → Ptr → Ptr → Cmd Allocator Ptr
merge a b c = do
  n ← read c
  hash_delete c (calc_hash_index (word (n.v.size + node_size)))
  nb ← read b
  store (change a λ d. record d { size = word (d.size + word (nb.v.size + node_size)) })
  store (set_next a nb.next)
  when (not (is_null nb.next)) (store (set_prev nb.next a))
  pure a

-- `nod->prev && IS_FREE_NODE(nod->prev)`, and the same of `nod->next`.
pub free_at : Ptr → Cmd Allocator Bool
free_at p = if is_null p then pure false else do n ← read p; pure (is_free n.v)

pub merge_prev : Ptr → Cmd Allocator Ptr
merge_prev nod = do
  n ← read nod
  f ← free_at n.prev
  if f then merge n.prev nod n.prev else pure nod

pub merge_next : Ptr → Cmd Allocator Ptr
merge_next nod = do
  n ← read nod
  f ← free_at n.next
  if f then merge nod n.next n.next else pure nod

-- mm_free past its two early returns.
pub release : Ptr → Cmd Allocator ℕ
release nod = do
  store (change nod make_free)
  n ← read nod
  nod' ← merge_prev nod
  nod'' ← merge_next nod'
  n' ← read nod''
  hash_append nod'' (calc_hash_index (word (n'.v.size + node_size)))
  pure n.v.size

pub mm_free : Ptr → Cmd Allocator ℕ
mm_free p = if is_null p then pure 0 else do
  let nod = word (p + 2 ^ 32 - node_size)
  n ← read nod
  if is_free n.v then pure 0 else release nod

pub mm_calloc : ℕ → ℕ → ℕ → ℕ → Cmd Allocator Ptr
mm_calloc c n stale fuel = mm_alloc (word (c * n)) stale fuel

pub mm_realloc : Ptr → ℕ → ℕ → ℕ → Cmd Allocator Ptr
mm_realloc p siz stale fuel = do _ ← mm_free p; mm_alloc siz stale fuel

-- `RtlZeroMemory` clears the allocator_t; the node's other fields are set one by one.
pub mm_init_block : ℕ → ℕ → ℕ → Cmd Allocator (Unit {0})
mm_init_block addr size stale = do
  modify λ a. record a { first_node = null; free_table = λ i. null }
  let fresh : Block = record { attribute = stale; size = word (size + 2 ^ 32 - node_size) }
  modify λ a. record a { nodes = write a.nodes addr (some (node null fresh null)) }
  hash_append addr (max_hash_entry - 1)
  store (change addr make_free)
  modify λ a. record a { first_node = addr }
