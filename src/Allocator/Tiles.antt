-- ===== src/Allocator/Tiles.antt =====
-- The blocks of the allocator of kernel/mm/allocator.c, as a list: they lie one behind the other,
-- each with its descriptor of 24 bytes in front, and the free ones have a chain of the table.
use sgos.Prelude.{
  ℕ, ◌+◌, ◌≤◌, ◌<◌, ◌≡◌, refl, ◌∙◌, ap, inl, inr, true, false, Bool-cases, Option, none, some, [],
  ◌∷◌, ◌++◌, ◌==◌, if◌then◌else◌, arith, some_injective, if_true,
}
use sgos.Dll.{Ptr}
use sgos.Dll.Links.{Cells, has}
use sgos.Allocator.{Block, is_free, calc_hash_index, node_size}

abbrev pub block_at : Ptr → Cells Block → Option Block
block_at q [] = none
block_at q ((p, b) ∷ xs) = if q == p then some b else block_at q xs

-- From the address `start` up to `end`, with no gap.
abbrev pub Tiled : ℕ → Cells Block → ℕ → Type 0
Tiled start [] end = start ≡ end
Tiled start ((p, b) ∷ xs) end = (p ≡ start) × Tiled (start + node_size + b.size) xs end

-- The chain that a block belongs in.
abbrev pub slot_of_block : Block → Option ℕ
slot_of_block b = if is_free b then some (calc_hash_index (b.size + node_size)) else none

abbrev pub slot_of_option : Option Block → Option ℕ
slot_of_option none = none
slot_of_option (some b) = slot_of_block b

abbrev pub slot_of : Cells Block → Ptr → Option ℕ
slot_of bs q = slot_of_option (block_at q bs)

pub Tiled-le : (s e : ℕ) (xs : Cells Block) → Tiled s xs e → s ≤ e
Tiled-le s e [] t = omega arith
Tiled-le s e ((p, b) ∷ xs) t = omega (arith, Tiled-le (s + node_size + b.size) e xs t.1)

pub Tiled-split :
    (s e : ℕ) (ys zs : Cells Block) → Tiled s (ys ++ zs) e → (m : ℕ) × Tiled s ys m × Tiled m zs e
Tiled-split s e [] zs t = (s, refl, t)
Tiled-split s e ((p, b) ∷ ys) zs t =
    let (m, u, v) = Tiled-split (s + node_size + b.size) e ys zs t.1 in (m, (t.0, u), v)

pub Tiled-join :
    (s m e : ℕ) (ys zs : Cells Block) → Tiled s ys m → Tiled m zs e → Tiled s (ys ++ zs) e
Tiled-join s m e [] zs t u = ground (arith, t, u)
Tiled-join s m e ((p, b) ∷ ys) zs t u = (t.0, Tiled-join (s + node_size + b.size) m e ys zs t.1 u)

pub Tiled-below : (s e q : ℕ) (xs : Cells Block) → Tiled s xs e → q < s → has q xs ≡ false
Tiled-below s e q [] t h = refl
Tiled-below s e q ((p, b) ∷ xs) t h =
    ground (arith, Tiled-below (s + node_size + b.size) e q xs t.1)

pub Tiled-above :
    (s e q : ℕ) (xs : Cells Block) → Tiled s xs e → e < q + node_size → has q xs ≡ false
Tiled-above s e q [] t h = refl
Tiled-above s e q ((p, b) ∷ xs) t h = ground (
  arith,
  Tiled-above (s + node_size + b.size) e q xs t.1,
  Tiled-le (s + node_size + b.size) e xs t.1,
)

pub block_at-append :
    (q : Ptr) (ys zs : Cells Block) → has q ys ≡ false → block_at q (ys ++ zs) ≡ block_at q zs
block_at-append q [] zs o = refl
block_at-append q ((p, b) ∷ ys) zs o = ground (arith, block_at-append q ys zs)

pub block_at_out : (q : Ptr) (xs : Cells Block) → has q xs ≡ false → block_at q xs ≡ none
block_at_out q [] o = refl
block_at_out q ((p, b) ∷ xs) o = ground (arith, block_at_out q xs)

-- A block among others: it is found at its own address, and changes nothing at others.
pub slot_of-insert :
    (q p : Ptr) (b : Block) (ys zs : Cells Block)
    → has p ys ≡ false
    → slot_of (ys ++ (p, b) ∷ zs) q ≡ (if q == p then slot_of_block b else slot_of (ys ++ zs) q)
slot_of-insert q p b [] zs o = elim (Bool-cases (q == p)) [ inl e ↦ rw e | inr e ↦ rw e ]
slot_of-insert q p b ((r, c) ∷ ys) zs o = elim (Bool-cases (q == r)) [
  | inl e ↦ let d : (q == p) ≡ false = ground arith in rw (e, d)
  | inr e ↦ rw e (slot_of-insert q p b ys zs (ground arith))
]

-- The place of a block.
pub block_at-split :
    (p : Ptr) (b : Block) (xs : Cells Block)
    → block_at p xs ≡ some b
    → (ys : Cells Block) × (zs : Cells Block) × (xs ≡ ys ++ (p, b) ∷ zs)
block_at-split p b [] h = absurd (cc)
block_at-split p b ((r, c) ∷ xs) h = elim (Bool-cases (p == r)) [
  | inl e ↦ ([], xs, ground arith)
  | inr e ↦
      let (ys, zs, k) = block_at-split p b xs (ground arith) in
      ((r, c) ∷ ys, zs, ap (λ t. (r, c) ∷ t) k)
]

-- A node in a chain of the table is a free block of the chain's size.
pub slot_of-some :
    (o : Option Block) (j : ℕ)
    → slot_of_option o ≡ some j
    → (b : Block) × (o ≡ some b) × (is_free b ≡ true) × (calc_hash_index (b.size + node_size) ≡ j)
slot_of-some none j h = absurd (cc)
slot_of-some (some b) j h = elim (Bool-cases (is_free b)) [
  | inl f ↦ (b, refl, f, some_injective (if_true (is_free b) _ _ f ∙ h))
  | inr f ↦ absurd (ground arith)
]
