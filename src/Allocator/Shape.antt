-- ===== src/Allocator/Shape.antt =====
-- What the allocator of kernel/mm/allocator.c keeps: the list of its blocks from `start` to `end`.
use sgos.Prelude.{
  ℕ, suc, ◌+◌, ◌^◌, ◌≤◌, ◌<◌, ◌≡◌, ◌≢◌, refl, sym, subst, inl, inr, Bool, true, false, Bool-cases,
  some, [], ◌∷◌, ◌++◌, ◌==◌, if◌then◌else◌, arith, length,
}
use sgos.Prelude.Run.{ok}
use sgos.Dll.{Ptr, null, Node, node, Heap}
use sgos.Dll.Links.{Cells, has, first, last, Links, Links-split}
use sgos.Allocator.{Allocator, Block, read, is_free, node_size}
use sgos.Allocator.Steps.{read_lem}
use sgos.Allocator.Chains.{Filed}
use sgos.Allocator.Tiles.{block_at, Tiled, Tiled-le, Tiled-split, slot_of, block_at-split}

-- The nodes are linked in the order of their addresses, and fill the space.
pub record IsLaid (start end : ℕ) (a : Allocator) (bs : Cells Block) : Type 0 where
  pub links : Links a.nodes null bs null
  pub first_is : a.first_node ≡ first bs null
  pub tiled : Tiled start bs end
  pub low : start ≢ 0
  pub high : end < 2 ^ 32
  pub span : end ≤ start + 2 ^ 31

-- Every free block is in the chain of its size, and the table has nothing else.
pub record IsHeap (start end : ℕ) (a : Allocator) (bs : Cells Block) : Type 0 where
  pub laid : IsLaid start end a bs
  pub filed : Filed a.free_table a.hashes (slot_of bs)

-- No two free blocks are neighbours.
abbrev pub starts_free : Cells Block → Bool
starts_free [] = false
starts_free ((p, b) ∷ xs) = is_free b

abbrev pub Coalesced : Cells Block → Type 0
Coalesced [] = Unit {0}
Coalesced ((p, b) ∷ xs) = (is_free b ≡ true → starts_free xs ≡ false) × Coalesced xs

-- Where a block stands among the others.
pub record At (start end : ℕ) (a : Allocator) (ys : Cells Block) (p : Ptr) (b : Block)
    (zs : Cells Block) : Type 0 where
  pub holds : a.nodes p ≡ some (node (last ys null) b (first zs null))
  pub not_null : p ≢ null
  pub before : Tiled start ys p
  pub after : Tiled (p + node_size + b.size) zs end
  pub from_start : start ≤ p
  pub to_end : p + node_size + b.size ≤ end

pub At_lem :
    (start end : ℕ) (a : Allocator) (ys : Cells Block) (p : Ptr) (b : Block) (zs : Cells Block)
    → IsLaid start end a (ys ++ (p, b) ∷ zs)
    → At start end a ys p b zs
At_lem start end a ys p b zs l =
    let (left, right, apart) = Links-split a.nodes null ys ((p, b) ∷ zs) null l.links in
    let (m, t, u) = Tiled-split start end ys ((p, b) ∷ zs) l.tiled in
    record {
      holds = right.1;
      not_null = right.0;
      before = subst (λ n. Tiled start ys n) (sym (u.0)) t;
      after = subst (λ n. Tiled (n + node_size + b.size) zs end) (sym (u.0)) (u.1);
      from_start = omega (arith, Tiled-le start m ys t, u.0);
      to_end = omega (arith, Tiled-le (m + node_size + b.size) end zs u.1, u.0);
    }

-- A read of a block's node.
pub read_block :
    (start end : ℕ) (a : Allocator) (bs : Cells Block) (p : Ptr) (b : Block)
    → IsLaid start end a bs
    → block_at p bs ≡ some b
    → (n : Node Block) × (read p a ≡ ok n a) × (n.v ≡ b)
read_block start end a bs p b l e =
    let (ys, zs, k) = block_at-split p b bs e in
    let at = At_lem start end a ys p b zs (subst (λ xs. IsLaid start end a xs) k l) in
    (node (last ys null) b (first zs null), read_lem a p at.not_null at.holds, refl)

-- A list of distinct nodes that are all among `bs` is no longer than `bs`.
abbrev pub Distinct : Cells (Unit {0}) → Type 0
Distinct [] = Unit {0}
Distinct ((p, v) ∷ xs) = (has p xs ≡ false) × Distinct xs

pub Distinct-of-Links :
    (h : Heap (Unit {0})) (b : Ptr) (xs : Cells (Unit {0})) (a : Ptr) → Links h b xs a → Distinct xs
Distinct-of-Links h b [] a l = tt
Distinct-of-Links h b ((p, v) ∷ xs) a l = (l.2, Distinct-of-Links h p xs a l.3)

abbrev drop_block : Ptr → Cells Block → Cells Block
drop_block q [] = []
drop_block q ((p, b) ∷ xs) = if q == p then xs else (p, b) ∷ drop_block q xs

length-drop_block :
    (q : Ptr) (bs : Cells Block) → has q bs ≡ true → suc (length (drop_block q bs)) ≡ length bs
length-drop_block q [] h = absurd (cc)
length-drop_block q ((p, b) ∷ xs) h = ground (arith, length-drop_block q xs)

has-drop_block :
    (q r : Ptr) (bs : Cells Block)
    → (r == q) ≡ false
    → has r bs ≡ true
    → has r (drop_block q bs) ≡ true
has-drop_block q r [] d h = h
has-drop_block q r ((p, b) ∷ xs) d h = ground (arith, has-drop_block q r xs d)

other : (q p : ℕ) (xs : Cells (Unit {0})) → has p xs ≡ false → has q xs ≡ true → (q == p) ≡ false
other q p xs o h = elim (Bool-cases (q == p)) [
  | inl e ↦ let e' : q ≡ p = ground arith in absurd (cc (o, h, e'))
  | inr d ↦ d
]

pub length_of_among :
    (xs : Cells (Unit {0})) (bs : Cells Block)
    → Distinct xs
    → ((q : Ptr) → has q xs ≡ true → has q bs ≡ true)
    → length xs ≤ length bs
length_of_among [] bs d m = omega arith
length_of_among ((p, v) ∷ xs) bs d m =
    let rest =
      length_of_among xs (drop_block p bs) d.1
        (λ q h. has-drop_block p q bs (other q p xs d.0 h) (m q (ground arith))) in
    omega (arith, rest, length-drop_block p bs (m p (ground arith)))
