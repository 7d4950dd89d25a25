-- ===== src/Allocator/Demo.antt =====
-- A small heap for the tests of kernel/mm/allocator.c: an occupied block between two free ones.
use sgos.Prelude.{
  ℕ, ◌≡◌, refl, inl, inr, false, Bool-cases, none, some, [], ◌∷◌, ◌==◌, if◌then◌else◌, arith,
}
use sgos.Dll.{Ptr, null, node}
use sgos.Dll.Links.{Cells, has, first, Links}
use sgos.Allocator.{Allocator, Block, calc_hash_index}
use sgos.Allocator.Chains.{is_slot}
use sgos.Allocator.Tiles.{slot_of}
use sgos.Allocator.Shape.{IsHeap, Coalesced}

abbrev pub low_block : Block
low_block = record { attribute = 1; size = 40 }

abbrev pub used_block : Block
used_block = record { attribute = 0; size = 100 }

abbrev pub high_block : Block
high_block = record { attribute = 1; size = 76 }

abbrev pub blocks : Cells Block
blocks = (4096, low_block) ∷ (4160, used_block) ∷ (4284, high_block) ∷ []

abbrev pub demo : Allocator
demo = record {
  first_node = 4096;
  free_table = λ i. if i == 1 then 4284 else null;
  in_allocator = 0;
  nodes = λ q.
      if q == 4096
      then some (node null low_block 4160)
      else if q == 4160
      then some (node 4096 used_block 4284)
      else if q == 4284
      then some (node 4160 high_block null)
      else none;
  hashes = λ q.
      if q == 4096
      then some (node 4284 tt null)
      else if q == 4284
      then some (node null tt 4096)
      else none;
}

abbrev free_chain : ℕ → Cells (Unit {0})
free_chain i = if i == 1 then (4284, tt) ∷ (4096, tt) ∷ [] else []

low_index : calc_hash_index 64 ≡ 1
unfolding calc_hash_index
low_index = refl

high_index : calc_hash_index 100 ≡ 1
unfolding calc_hash_index
high_index = refl

slots :
    (q : Ptr)
    → slot_of blocks q ≡ (if q == 4096 then some 1 else if q == 4284 then some 1 else none)
slots q = elim (Bool-cases (q == 4096)) [
  | inl a ↦ rw a (rw low_index)
  | inr a ↦ elim (Bool-cases (q == 4160)) [
    | inl b ↦ let c : (q == 4284) ≡ false = ground arith in rw (a, b, c)
    | inr b ↦ elim (Bool-cases (q == 4284)) [
      | inl c ↦ rw (a, b, c) (rw high_index)
      | inr c ↦ rw (a, b, c)
    ]
  ]
]

demo_members : (i : ℕ) (q : Ptr) → has q (free_chain i) ≡ is_slot i (slot_of blocks q)
demo_members i q = rw (slots q) (ground arith)

demo-Links : (i : ℕ) → Links demo.hashes null (free_chain i) null
demo-Links i = elim (Bool-cases (i == 1)) [
  | inl e ↦ rw e ((ground arith), refl, refl, ((ground arith), refl, refl, tt))
  | inr e ↦ rw e tt
]

demo_heads : (i : ℕ) → demo.free_table i ≡ first (free_chain i) null
demo_heads i = elim (Bool-cases (i == 1)) [ inl e ↦ rw e | inr e ↦ rw e ]

pub demo-IsHeap : IsHeap 4096 4384 demo blocks
demo-IsHeap = record {
  laid = record {
    links = (ground arith, refl, refl, (ground arith, refl, refl, (ground arith, refl, refl, tt)));
    first_is = refl;
    tiled = (refl, (refl, (refl, refl)));
    low = ground arith;
    high = omega arith;
    span = omega arith;
  };
  filed = record {
    chain = free_chain;
    heads = demo_heads;
    links = demo-Links;
    members = demo_members;
  };
}

pub demo-Coalesced : Coalesced blocks
demo-Coalesced = ground arith
