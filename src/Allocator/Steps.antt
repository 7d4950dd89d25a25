-- ===== src/Allocator/Steps.antt =====
-- One access of the allocator's memory at a time.
use sgos.Prelude.{ℕ, ◌≡◌, ◌≢◌, not, Option, some, if◌then◌else◌, arith, inl, inr, Bool-cases}
use sgos.Prelude.Run.{ok, when, modify}
use sgos.Dll.{Ptr, null, Node, node, Heap, write, link_next, link_prev, set_next, set_prev}
use sgos.Allocator.{Allocator, Block, read, read_hash, store, store_hash, set_head, is_null, change}

abbrev pub with_nodes : Allocator → Heap Block → Allocator
with_nodes a h = record a { nodes = h }

-- The allocator once a chain has changed.
abbrev pub retabled : Allocator → (ℕ → Ptr) → Heap (Unit {0}) → Allocator
retabled a t h = record a { free_table = t; hashes = h }

pub read_lem :
    (a : Allocator) (p : Ptr) {n : Node Block} → p ≢ null → a.nodes p ≡ some n → read p a ≡ ok n a
unfolding read
read_lem a p nn e = ground arith

pub read_hash_lem :
    (a : Allocator) (p : Ptr) {n : Node (Unit {0})}
    → p ≢ null
    → a.hashes p ≡ some n
    → read_hash p a ≡ ok n a
unfolding read_hash
read_hash_lem a p nn e = ground arith

pub store_lem :
    (a : Allocator) (op : Heap Block → Option (Heap Block)) {g : Heap Block}
    → op a.nodes ≡ some g
    → store op a ≡ ok tt (with_nodes a g)
unfolding store
store_lem a op e = ground arith

pub store_hash_lem :
    (a : Allocator) (op : Heap (Unit {0}) → Option (Heap (Unit {0}))) {g : Heap (Unit {0})}
    → op a.hashes ≡ some g
    → store_hash op a ≡ ok tt (retabled a a.free_table g)
unfolding store_hash
store_hash_lem a op e = ground arith

-- `if (p) p->prev = q`
pub guarded_prev :
    (a : Allocator) (p q : Ptr) {g : Heap Block}
    → link_prev p q a.nodes ≡ some g
    → when (not (is_null p)) (store (set_prev p q)) a ≡ ok tt (with_nodes a g)
unfolding store
guarded_prev a p q e = ground arith

pub guarded_hash_prev :
    (a : Allocator) (p q : Ptr) {g : Heap (Unit {0})}
    → link_prev p q a.hashes ≡ some g
    → when (not (is_null p)) (store_hash (set_prev p q)) a ≡ ok tt (retabled a a.free_table g)
unfolding store_hash
guarded_hash_prev a p q e = ground arith

-- `if (b) b->hash_next = c; else free_table[j] = c;`
pub unhook_lem :
    (a : Allocator) (j b c : ℕ) {g : Heap (Unit {0})}
    → link_next b c a.hashes ≡ some g
    → (if is_null b then modify (set_head j c) else store_hash (set_next b c)) a
      ≡ ok tt (retabled a (if is_null b then (set_head j c a).free_table else a.free_table) g)
unfolding store_hash
unhook_lem a j b c e = elim (Bool-cases (is_null b)) [ inl z ↦ ground arith | inr z ↦ ground arith ]

pub change_lem :
    (h : Heap Block) (p b c : Ptr) (v : Block) (f : Block → Block)
    → p ≢ null
    → h p ≡ some (node b v c)
    → change p f h ≡ some (write h p (some (node b (f v) c)))
change_lem h p b c v f nn e = ground arith

pub set_next_lem :
    (h : Heap Block) (p b c q : Ptr) (v : Block)
    → p ≢ null
    → h p ≡ some (node b v c)
    → set_next p q h ≡ some (write h p (some (node b v q)))
unfolding set_next
set_next_lem h p b c q v nn e = ground arith

pub set_prev_lem :
    (h : Heap Block) (p b c q : Ptr) (v : Block)
    → p ≢ null
    → h p ≡ some (node b v c)
    → set_prev p q h ≡ some (write h p (some (node q v c)))
unfolding set_prev
set_prev_lem h p b c q v nn e = ground arith
