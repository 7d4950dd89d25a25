-- ===== src/Allocator/Allocate.antt =====
-- mm_alloc of kernel/mm/allocator.c, against the list of the blocks.
use sgos.Prelude.{
  ℕ, ◌+◌, ◌-◌, ◌^◌, ◌≤◌, ◌<◌, ◌≡◌, ◌≢◌, refl, ◌∙◌, subst, ◌⊎◌, inl, inr, true, false, Bool-cases,
  some, [], ◌∷◌, ◌++◌, ◌==◌, leb, arith, length,
}
use sgos.Prelude.Run.{ok}
use sgos.Dll.{Ptr, null}
use sgos.Dll.Links.{Cells}
use sgos.Allocator.{
  Allocator, Block, is_free, word, node_size, calc_hash_index, mm_alloc, max_hash_entry, alloc_from,
}
use sgos.Allocator.Index.{calc_hash_index_mono, calc_hash_index-lt}
use sgos.Allocator.Tiles.{block_at, block_at-split}
use sgos.Allocator.Shape.{IsLaid, IsHeap, At_lem, Coalesced, starts_free}
use sgos.Allocator.Search.{Taken, alloc_from_lem}
use sgos.Allocator.Occupy.{carved, occupy_lem, IsHeap-flag}

mm_alloc_run :
    (siz stale fuel : ℕ) (a : Allocator)
    → siz ≢ 0
    → mm_alloc siz stale fuel a
      ≡ alloc_from siz stale fuel
          (max_hash_entry - calc_hash_index (word (siz + node_size)))
          (calc_hash_index (word (siz + node_size)))
          (record a { in_allocator = 1 })
unfolding mm_alloc
mm_alloc_run siz stale fuel a h = let z : (siz == 0) ≡ false = ground arith in rw z

-- A free block with room is in one of the chains that are searched.
fitting_chain :
    (siz size : ℕ)
    → siz ≤ size
    → size < 2 ^ 31
    → (calc_hash_index (word (siz + node_size)) ≤ calc_hash_index (size + node_size))
      × (calc_hash_index (size + node_size) < max_hash_entry)
fitting_chain siz size h k =
    let w : word (siz + node_size) ≡ siz + node_size = omega arith in
    (
      rw w (calc_hash_index_mono (siz + node_size) (size + node_size) (omega arith)),
      calc_hash_index-lt (size + node_size),
    )

size_bound :
    (start end : ℕ) (a : Allocator) (bs : Cells Block) (p : Ptr) (b : Block)
    → IsHeap start end a bs
    → block_at p bs ≡ some b
    → b.size < 2 ^ 31
size_bound start end a bs p b h e =
    let (ys, zs, k) = block_at-split p b bs e in
    let at = At_lem start end a ys p b zs (subst (λ xs. IsLaid start end a xs) k h.laid) in
    omega (arith, at.to_end, at.from_start, h.laid.span)

carved-IsOccupied :
    (siz stale : ℕ) (p : Ptr) (b : Block) (zs : Cells Block)
    → starts_free (carved siz stale p b zs) ≡ false
carved-IsOccupied siz stale p b zs = elim (Bool-cases (leb 32 (b.size - siz))) [
  | inl e ↦ rw e (ground arith)
  | inr e ↦ rw e (ground arith)
]

starts_free-carved :
    (siz stale : ℕ) (ys : Cells Block) (p : Ptr) (b : Block) (zs : Cells Block)
    → starts_free (ys ++ (p, b) ∷ zs) ≡ false
    → starts_free (ys ++ carved siz stale p b zs) ≡ false
starts_free-carved siz stale [] p b zs h = carved-IsOccupied siz stale p b zs
starts_free-carved siz stale ((r, d) ∷ ys) p b zs h = h

carved-Coalesced :
    (siz stale : ℕ) (ys : Cells Block) (p : Ptr) (b : Block) (zs : Cells Block)
    → is_free b ≡ true
    → Coalesced (ys ++ (p, b) ∷ zs)
    → Coalesced (ys ++ carved siz stale p b zs)
carved-Coalesced siz stale [] p b zs f c = elim (Bool-cases (leb 32 (b.size - siz))) [
  | inl e ↦ rw e ((λ k. absurd (ground arith)), ((λ k. c.0 f), c.1))
  | inr e ↦ rw e ((λ k. absurd (ground arith)), c.1)
]
carved-Coalesced siz stale ((r, d) ∷ ys) p b zs f c = (
  (λ k. starts_free-carved siz stale ys p b zs (c.0 k)),
  carved-Coalesced siz stale ys p b zs f c.1,
)

-- What a successful mm_alloc did: a free block with room is occupied, and its rest, if 32 bytes or
-- more, is a free block behind it.
pub record Allocated (start end siz stale fuel : ℕ) (a : Allocator) (bs : Cells Block)
    : Type 0 where
  pub before : Cells Block
  pub address : Ptr
  pub block : Block
  pub behind : Cells Block
  pub place : bs ≡ before ++ (address, block) ∷ behind
  pub was_free : is_free block ≡ true
  pub room : siz ≤ block.size
  pub after : Allocator
  pub run : mm_alloc siz stale fuel a ≡ ok (address + node_size) after
  pub heap : IsHeap start end after (before ++ carved siz stale address block behind)
  pub coalesced : Coalesced (before ++ carved siz stale address block behind)
  pub idle : after.in_allocator ≡ 0

mm_alloc-Taken :
    (start end siz stale fuel : ℕ) (a : Allocator) (bs : Cells Block)
    → IsHeap start end (record a { in_allocator = 1 }) bs
    → Coalesced bs
    → siz ≢ 0
    → Taken siz stale fuel
        (max_hash_entry - calc_hash_index (word (siz + node_size)))
        (calc_hash_index (word (siz + node_size)))
        (record a { in_allocator = 1 })
        bs
    → Allocated start end siz stale fuel a bs
mm_alloc-Taken start end siz stale fuel a bs h co nz t =
    let b = t.fits.block in
    let (ys, zs, k) = block_at-split t.nod b bs t.fits.found in
    let (s, run, h', idle) =
      occupy_lem start end (record a { in_allocator = 1 }) ys t.nod b zs siz stale t.chain
        (subst (λ xs. IsHeap start end (record a { in_allocator = 1 }) xs) k h) t.fits.free
        t.fits.chain t.fits.room in
    record {
      before = ys;
      address = t.nod;
      block = b;
      behind = zs;
      place = k;
      was_free = t.fits.free;
      room = t.fits.room;
      after = s;
      run = mm_alloc_run siz stale fuel a nz ∙ t.run ∙ run;
      heap = h';
      coalesced =
          carved-Coalesced siz stale ys t.nod b zs t.fits.free (subst (λ xs. Coalesced xs) k co);
      idle = idle;
    }

-- mm_alloc either takes a block or gives NULL.
pub mm_alloc_cases :
    (start end siz stale fuel : ℕ) (a : Allocator) (bs : Cells Block)
    → IsHeap start end a bs
    → Coalesced bs
    → length bs < fuel
    → siz ≢ 0
    → (mm_alloc siz stale fuel a ≡ ok null (record a { in_allocator = 0 }))
      ⊎ Allocated start end siz stale fuel a bs
mm_alloc_cases start end siz stale fuel a bs h co enough nz =
    let h' = IsHeap-flag start end 1 a bs h in
    let i = calc_hash_index (word (siz + node_size)) in
    elim (alloc_from_lem siz stale fuel start end (max_hash_entry - i) i
      (record a { in_allocator = 1 }) bs h' enough) [
        | inl x ↦ inl (mm_alloc_run siz stale fuel a nz ∙ x.run)
        | inr t ↦ inr (mm_alloc-Taken start end siz stale fuel a bs h' co nz t)
      ]

-- If some free block has room for `siz` bytes, mm_alloc occupies one that has, and the heap stays
-- well-formed and coalesced.
pub mm_alloc_success :
    (start end siz stale fuel : ℕ) (a : Allocator) (bs : Cells Block) (q : Ptr) (c : Block)
    → IsHeap start end a bs
    → Coalesced bs
    → length bs < fuel
    → siz ≢ 0
    → block_at q bs ≡ some c
    → is_free c ≡ true
    → siz ≤ c.size
    → Allocated start end siz stale fuel a bs
mm_alloc_success start end siz stale fuel a bs q c h co enough nz e f room =
    let h' = IsHeap-flag start end 1 a bs h in
    let (lo, hi) = fitting_chain siz c.size room (size_bound start end a bs q c h e) in
    let i = calc_hash_index (word (siz + node_size)) in
    elim (alloc_from_lem siz stale fuel start end (max_hash_entry - i) i
      (record a { in_allocator = 1 }) bs h' enough) [
        | inl x ↦ absurd (
            x.small (calc_hash_index (c.size + node_size)) q lo (omega arith)
              (record { block = c; found = e; free = f; chain = refl; room = room }))
        | inr t ↦ mm_alloc-Taken start end siz stale fuel a bs h' co nz t
      ]

-- If every free block is smaller than `siz` bytes, mm_alloc gives NULL and changes no block.
pub mm_alloc_failure :
    (start end siz stale fuel : ℕ) (a : Allocator) (bs : Cells Block)
    → IsHeap start end a bs
    → length bs < fuel
    → siz ≢ 0
    → ((q : Ptr) (c : Block) → block_at q bs ≡ some c → is_free c ≡ true → c.size < siz)
    → mm_alloc siz stale fuel a ≡ ok null (record a { in_allocator = 0 })
mm_alloc_failure start end siz stale fuel a bs h enough nz small =
    let i = calc_hash_index (word (siz + node_size)) in
    elim (alloc_from_lem siz stale fuel start end (max_hash_entry - i) i
      (record a { in_allocator = 1 }) bs (IsHeap-flag start end 1 a bs h) enough) [
        | inl x ↦ mm_alloc_run siz stale fuel a nz ∙ x.run
        | inr t ↦
            absurd (omega (arith, small t.nod t.fits.block t.fits.found t.fits.free, t.fits.room))
      ]

pub mm_alloc_zero : (stale fuel : ℕ) (a : Allocator) → mm_alloc 0 stale fuel a ≡ ok null a
unfolding mm_alloc
mm_alloc_zero stale fuel a = refl
