-- ===== src/Allocator/Roundtrip.antt =====
-- mm_alloc and mm_free of kernel/mm/allocator.c together, and the blocks' places in memory.
use sgos.Prelude.{
  ℕ, ◌+◌, ◌-◌, ◌*◌, ◌/◌, ◌≤◌, ◌<◌, ◌≡◌, ◌≢◌, refl, ◌∙◌, sym, ap, subst, ◌⊎◌, inl, inr, true, false,
  Bool-cases, Option, some, [], ◌∷◌, ◌++◌, ◌==◌, leb, arith, length, some_injective,
}
use sgos.Prelude.Run.{ok, step}
use sgos.Dll.{Ptr, null}
use sgos.Dll.Links.{Cells}
use sgos.Allocator.{
  Allocator, Block, is_free, make_free, make_occupied, node_size, mm_alloc, mm_free, mm_realloc,
}
use sgos.Allocator.Tiles.{block_at, block_at-append, Tiled, Tiled-le, Tiled-split, Tiled-above}
use sgos.Allocator.Shape.{IsHeap, Coalesced, starts_free}
use sgos.Allocator.Occupy.{carved, freed, occupied, IsHeap-flag}
use sgos.Allocator.Coalesce.{
  glue, glue_apart, coalesce, coalesce_same, coalesce_before, Coalesced-tail,
}
use sgos.Allocator.Allocate.{Allocated, mm_alloc_success, mm_alloc_failure}
use sgos.Allocator.Release.{mm_free_lem}

Coalesced-swap :
    (ys : Cells Block) (p : Ptr) (b c : Block) (zs : Cells Block)
    → is_free c ≡ is_free b
    → Coalesced (ys ++ (p, b) ∷ zs)
    → Coalesced (ys ++ (p, c) ∷ zs)
Coalesced-swap [] p b c zs e h = ((λ f. h.0 (sym e ∙ f)), h.1)
Coalesced-swap ((r, d) ∷ []) p b c zs e h = ((λ f. e ∙ h.0 f), Coalesced-swap [] p b c zs e h.1)
Coalesced-swap ((r, d) ∷ x ∷ ys) p b c zs e h = (h.0, Coalesced-swap (x ∷ ys) p b c zs e h.1)

-- A free block that was occupied meanwhile, with another size.
free_again :
    (b : Block) (n : ℕ)
    → is_free b ≡ true
    → make_free (record (make_occupied b) { size = n }) ≡ record b { size = n }
free_again b n f =
    let e : b.attribute / 2 * 2 / 2 * 2 + 1 ≡ b.attribute = ground arith in
    ap (λ (k : ℕ). record b { attribute = k; size = n }) e

glue_rest :
    (siz : ℕ) (p q : Ptr) (b : Block) (f : Block) (zs : Cells Block)
    → is_free b ≡ true
    → is_free f ≡ true
    → siz + (f.size + node_size) ≡ b.size
    → starts_free zs ≡ false
    → glue p (record b { size = siz }) (glue q f zs) ≡ (p, b) ∷ zs
glue_rest siz p q b f zs fb ff e s =
    rw (glue_apart q f zs (λ k. s))
      (rw (fb, ff) (ap (λ (n : ℕ). (p, record b { size = n }) ∷ zs) e))

-- A carved block that is free again is glued to its rest.
coalesce-carved :
    (siz stale : ℕ) (ys : Cells Block) (p : Ptr) (b : Block) (zs : Cells Block)
    → is_free b ≡ true
    → leb 32 (b.size - siz) ≡ true
    → Coalesced (ys ++ (p, b) ∷ zs)
    → coalesce (
        ys
        ++ (p, make_free (record (make_occupied b) { size = siz }))
          ∷ (
            p + node_size + siz,
            make_free (record { attribute = stale; size = b.size - siz - node_size }),
          )
          ∷ zs)
      ≡ ys ++ (p, b) ∷ zs
unfolding coalesce
coalesce-carved siz stale ys p b zs fb big co =
    let f : Block = make_free (record { attribute = stale; size = b.size - siz - node_size }) in
    let q = p + node_size + siz in
    let c : Block = record b { size = siz } in
    let tail = Coalesced-tail ys p b zs co in
    rw (free_again b siz fb) (
      coalesce_before ys p c zs ((q, f) ∷ zs) (Coalesced-swap ys p b c zs refl co)
      ∙ ap (λ xs. ys ++ glue p c (glue q f xs)) (coalesce_same zs tail.1)
      ∙ ap (λ xs. ys ++ xs)
          (glue_rest siz p q b f zs fb
            (freed (record { attribute = stale; size = b.size - siz - node_size })) (ground arith)
            (tail.0 fb)))

pub carved_big :
    (siz stale : ℕ) (p : Ptr) (b : Block) (zs : Cells Block)
    → leb 32 (b.size - siz) ≡ true
    → carved siz stale p b zs
      ≡ (p, record (make_occupied b) { size = siz })
        ∷ (
          p + node_size + siz,
          make_free (record { attribute = stale; size = b.size - siz - node_size }),
        )
        ∷ zs
carved_big siz stale p b zs h = rw h

pub carved_exact :
    (siz stale : ℕ) (p : Ptr) (b : Block) (zs : Cells Block)
    → leb 32 (b.size - siz) ≡ false
    → carved siz stale p b zs ≡ (p, make_occupied b) ∷ zs
carved_exact siz stale p b zs h = rw h

freed_after :
    (start end siz stale fuel : ℕ) (a : Allocator) (bs : Cells Block)
    → Coalesced bs
    → (x : Allocated start end siz stale fuel a bs)
    → (n : ℕ) × (s : Allocator) × (mm_free (x.address + node_size) x.after ≡ ok n s)
      × IsHeap start end s bs
      × (siz ≤ n)
      × (n < siz + 32)
freed_after start end siz stale fuel a bs co x =
    let ys = x.before in
    let p = x.address in
    let b = x.block in
    let zs = x.behind in
    let co' = subst (λ xs. Coalesced xs) x.place co in
    elim (Bool-cases (leb 32 (b.size - siz))) [
      | inl big ↦
          let whole = ap (λ xs. ys ++ xs) (carved_big siz stale p b zs big) in
          let f : Block =
            make_free (record { attribute = stale; size = b.size - siz - node_size }) in
          let (s, run, h, _) =
            mm_free_lem start end x.after ys p (record (make_occupied b) { size = siz })
              ((p + node_size + siz, f) ∷ zs)
              (subst (λ xs. IsHeap start end x.after xs) whole x.heap)
              (subst (λ xs. Coalesced xs) whole x.coalesced) (occupied b) in
          let same = coalesce-carved siz stale ys p b zs x.was_free big co' in
          (
            siz,
            s,
            run,
            subst (λ xs. IsHeap start end s xs) (same ∙ sym x.place) h,
            omega arith,
            omega arith,
          )
      | inr exact ↦
          let whole = ap (λ xs. ys ++ xs) (carved_exact siz stale p b zs exact) in
          let (s, run, h, _) =
            mm_free_lem start end x.after ys p (make_occupied b) zs
              (subst (λ xs. IsHeap start end x.after xs) whole x.heap)
              (subst (λ xs. Coalesced xs) whole x.coalesced) (occupied b) in
          let same =
            ap (λ v. coalesce (ys ++ (p, v) ∷ zs)) (free_again b b.size x.was_free)
            ∙ coalesce_same (ys ++ (p, b) ∷ zs) co' in
          (
            b.size,
            s,
            run,
            subst (λ xs. IsHeap start end s xs) (same ∙ sym x.place) h,
            x.room,
            ground arith,
          )
    ]

-- mm_free of what mm_alloc gave leaves the blocks as they were before mm_alloc. The size that it
-- returns is the requested one or up to 31 bytes more.
pub mm_free-mm_alloc :
    (start end siz stale fuel : ℕ) (a : Allocator) (bs : Cells Block) (q : Ptr) (c : Block)
    → IsHeap start end a bs
    → Coalesced bs
    → length bs < fuel
    → siz ≢ 0
    → block_at q bs ≡ some c
    → is_free c ≡ true
    → siz ≤ c.size
    → (p : Ptr) × (s : Allocator) × (mm_alloc siz stale fuel a ≡ ok p s)
      × (n : ℕ) × (s' : Allocator) × (mm_free p s ≡ ok n s')
      × IsHeap start end s' bs
      × (siz ≤ n)
      × (n < siz + 32)
mm_free-mm_alloc start end siz stale fuel a bs q c h co enough nz e f room =
    let x = mm_alloc_success start end siz stale fuel a bs q c h co enough nz e f room in
    let (n, s', run, h', le, lt) = freed_after start end siz stale fuel a bs co x in
    (x.address + node_size, x.after, x.run, n, s', run, h', le, lt)

-- Blocks do not overlap.
block_inside :
    (s e : ℕ) (xs : Cells Block) (p : Ptr) (b : Block)
    → Tiled s xs e
    → block_at p xs ≡ some b
    → (s ≤ p) × (p + node_size + b.size ≤ e)
block_inside s e [] p b t k = absurd (cc)
block_inside s e ((r, c) ∷ xs) p b t k = elim (Bool-cases (p == r)) [
  | inl z ↦
      let rest = Tiled-le (s + node_size + c.size) e xs t.1 in
      let same : c ≡ b = ground arith in
      (ground arith, ground (arith, ap (λ (v : Block). v.size) same))
  | inr z ↦
      let (lo, hi) = block_inside (s + node_size + c.size) e xs p b t.1 (ground arith) in
      (omega arith, hi)
]

pub blocks_apart :
    (s e : ℕ) (xs : Cells Block) (p : Ptr) (b : Block) (q : Ptr) (c : Block)
    → Tiled s xs e
    → block_at p xs ≡ some b
    → block_at q xs ≡ some c
    → p ≢ q
    → (p + node_size + b.size ≤ q) ⊎ (q + node_size + c.size ≤ p)
blocks_apart s e [] p b q c t k l d = absurd (cc)
blocks_apart s e ((r, v) ∷ xs) p b q c t k l d = elim (Bool-cases (p == r)) [
  | inl z ↦
      let z' : (q == r) ≡ false = ground arith in
      let same : v ≡ b = ground arith in
      let (lo, hi) = block_inside (s + node_size + v.size) e xs q c t.1 (ground arith) in
      inl (ground (arith, ap (λ (w : Block). w.size) same))
  | inr z ↦ elim (Bool-cases (q == r)) [
    | inl y ↦
        let same : v ≡ c = ground arith in
        let (lo, hi) = block_inside (s + node_size + v.size) e xs p b t.1 (ground arith) in
        inr (ground (arith, ap (λ (w : Block). w.size) same))
    | inr y ↦ blocks_apart (s + node_size + v.size) e xs p b q c t.1 (ground arith) (ground arith) d
  ]
]

pub block_at_place :
    (s e : ℕ) (ys : Cells Block) (p : Ptr) (b : Block) (zs : Cells Block)
    → Tiled s (ys ++ (p, b) ∷ zs) e
    → block_at p (ys ++ (p, b) ∷ zs) ≡ some b
block_at_place s e ys p b zs t =
    let (m, u, v) = Tiled-split s e ys ((p, b) ∷ zs) t in
    let z : (p == p) ≡ true = ground arith in
    block_at-append p ys ((p, b) ∷ zs) (Tiled-above s m p ys u (omega (arith, v.0))) ∙ rw z

pub free_not_occupied :
    (o : Option Block) (b c : Block)
    → o ≡ some b
    → o ≡ some c
    → is_free b ≡ true
    → ¬ (is_free c ≡ false)
free_not_occupied o b c e k f nf =
    ground (arith, ap (λ (v : Block). v.attribute) (some_injective (sym e ∙ k)))

-- The memory that mm_alloc gives is inside the heap, and outside all occupied blocks and their
-- descriptors.
pub mm_alloc_apart :
    (start end siz stale fuel : ℕ) (a : Allocator) (bs : Cells Block) (q : Ptr) (c : Block)
    (r : Ptr) (d : Block)
    → IsHeap start end a bs
    → Coalesced bs
    → length bs < fuel
    → siz ≢ 0
    → block_at q bs ≡ some c
    → is_free c ≡ true
    → siz ≤ c.size
    → block_at r bs ≡ some d
    → is_free d ≡ false
    → (p : Ptr) × (s : Allocator) × (mm_alloc siz stale fuel a ≡ ok p s)
      × (start + node_size ≤ p)
      × (p + siz ≤ end)
      × ((p + siz ≤ r) ⊎ (r + node_size + d.size ≤ p - node_size))
mm_alloc_apart start end siz stale fuel a bs q c r d h co enough nz e f room k nf =
    let x = mm_alloc_success start end siz stale fuel a bs q c h co enough nz e f room in
    let t = subst (λ xs. Tiled start xs end) x.place h.laid.tiled in
    let here = block_at_place start end x.before x.address x.block x.behind t in
    let there = subst (λ xs. block_at r xs ≡ some d) x.place k in
    let all = x.before ++ (x.address, x.block) ∷ x.behind in
    let (lo, hi) = block_inside start end all x.address x.block t here in
    let fits = x.room in
    (
      x.address + node_size,
      x.after,
      x.run,
      omega arith,
      omega arith,
      elim (blocks_apart start end all x.address x.block r d t here there (λ same.
          free_not_occupied (block_at r all) x.block d
            (subst (λ n. block_at n all ≡ some x.block) same here) there x.was_free nf)) [
              | inl u ↦ inl (omega arith)
              | inr u ↦ inr (omega arith)
            ],
    )

mm_realloc_run :
    (p siz stale fuel n : ℕ) (a s : Allocator)
    → mm_free p a ≡ ok n s
    → mm_realloc p siz stale fuel a ≡ mm_alloc siz stale fuel s
unfolding mm_realloc
mm_realloc_run p siz stale fuel n a s run = step _ run

-- mm_realloc of an occupied block frees it, and where there is a free block with room then, it
-- allocates one such block.
pub mm_realloc_success :
    (start end siz stale fuel : ℕ) (a : Allocator) (ys : Cells Block) (p : Ptr) (b : Block)
    (zs : Cells Block) (q : Ptr) (c : Block)
    → IsHeap start end a (ys ++ (p, b) ∷ zs)
    → Coalesced (ys ++ (p, b) ∷ zs)
    → is_free b ≡ false
    → length (coalesce (ys ++ (p, make_free b) ∷ zs)) < fuel
    → siz ≢ 0
    → block_at q (coalesce (ys ++ (p, make_free b) ∷ zs)) ≡ some c
    → is_free c ≡ true
    → siz ≤ c.size
    → (s : Allocator) × (x : Allocated start end siz stale fuel s
        (coalesce (ys ++ (p, make_free b) ∷ zs)))
      × (mm_realloc (p + node_size) siz stale fuel a ≡ ok (x.address + node_size) x.after)
mm_realloc_success start end siz stale fuel a ys p b zs q c h co nf enough nz e f room =
    let (s, run, h', co') = mm_free_lem start end a ys p b zs h co nf in
    let x =
      mm_alloc_success start end siz stale fuel s (coalesce (ys ++ (p, make_free b) ∷ zs)) q c h'
        co' enough nz e f room in
    (s, x, mm_realloc_run (p + node_size) siz stale fuel b.size a s run ∙ x.run)

-- Where no free block has room, mm_realloc gives NULL, and the block that was passed is free all the
-- same.
pub mm_realloc_failure :
    (start end siz stale fuel : ℕ) (a : Allocator) (ys : Cells Block) (p : Ptr) (b : Block)
    (zs : Cells Block)
    → IsHeap start end a (ys ++ (p, b) ∷ zs)
    → Coalesced (ys ++ (p, b) ∷ zs)
    → is_free b ≡ false
    → length (coalesce (ys ++ (p, make_free b) ∷ zs)) < fuel
    → siz ≢ 0
    → ((q : Ptr) (c : Block)
        → block_at q (coalesce (ys ++ (p, make_free b) ∷ zs)) ≡ some c
        → is_free c ≡ true
        → c.size < siz)
    → (s : Allocator) × (mm_realloc (p + node_size) siz stale fuel a ≡ ok null s)
      × IsHeap start end s (coalesce (ys ++ (p, make_free b) ∷ zs))
mm_realloc_failure start end siz stale fuel a ys p b zs h co nf enough nz small =
    let bs = coalesce (ys ++ (p, make_free b) ∷ zs) in
    let (s, run, h', co') = mm_free_lem start end a ys p b zs h co nf in
    (
      record s { in_allocator = 0 },
      mm_realloc_run (p + node_size) siz stale fuel b.size a s run
          ∙ mm_alloc_failure start end siz stale fuel s bs h' enough nz small,
      IsHeap-flag start end 0 s bs h',
    )
