-- ===== src/Allocator/Search.antt =====
-- The search of kernel/mm/allocator.c for a free block: along one chain, and over the chains.
use sgos.Prelude.{
  ℕ, zero, suc, ◌+◌, ◌≤◌, ◌<◌, ◌≡◌, ◌≢◌, refl, ◌∙◌, sym, ap, subst, ◌⊎◌, inl, inr, true, false,
  Bool-cases, Option, none, some, [], ◌∷◌, ◌==◌, ltb, arith, length,
}
use sgos.Prelude.Run.{ok, step}
use sgos.Dll.{Ptr, null, Node}
use sgos.Dll.Links.{Cells, has, first, Links}
use sgos.Allocator.{
  Allocator, Block, read, is_null, find_fit, alloc_from, occupy, calc_hash_index, node_size,
  is_free,
}
use sgos.Allocator.Steps.{read_hash_lem}
use sgos.Allocator.Chains.{is_slot}
use sgos.Allocator.Tiles.{block_at, slot_of, slot_of_option, slot_of-some}
use sgos.Allocator.Shape.{IsHeap, read_block, length_of_among, Distinct-of-Links}

-- A free block of chain `j` with room for `siz` bytes.
pub record Fits (bs : Cells Block) (siz j : ℕ) (p : Ptr) : Type 0 where
  pub block : Block
  pub found : block_at p bs ≡ some block
  pub free : is_free block ≡ true
  pub chain : calc_hash_index (block.size + node_size) ≡ j
  pub room : siz ≤ block.size

-- The nodes of `xs` are free blocks of chain `j`.
abbrev Free : Cells Block → ℕ → Cells (Unit {0}) → Type 0
Free bs j xs =
    (q : Ptr)
    → has q xs ≡ true
    → (b : Block) × (block_at q bs ≡ some b)
      × (is_free b ≡ true)
      × (calc_hash_index (b.size + node_size) ≡ j)

-- The nodes of `xs` are too small.
abbrev Small : Cells Block → ℕ → Cells (Unit {0}) → Type 0
Small bs siz xs = (q : Ptr) → has q xs ≡ true → (b : Block) → block_at q bs ≡ some b → b.size < siz

-- What the walk along one chain gives.
abbrev Walk : Cells Block → ℕ → ℕ → Cells (Unit {0}) → Ptr → Type 0
Walk bs siz j xs r = ((r ≡ null) × Small bs siz xs) ⊎ ((r ≢ null) × Fits bs siz j r)

Small-cons :
    (bs : Cells Block) (siz : ℕ) (p : Ptr) (xs : Cells (Unit {0})) (b : Block)
    → block_at p bs ≡ some b
    → b.size < siz
    → Small bs siz xs
    → Small bs siz ((p, tt) ∷ xs)
Small-cons bs siz p xs b e h s q i c k = elim (Bool-cases (q == p)) [
  | inl d ↦
      let d' : q ≡ p = ground arith in
      let same : some b ≡ some c = sym e ∙ ap (λ t. block_at t bs) (sym d') ∙ k in ground arith
  | inr d ↦ s q (ground arith) c k
]

Walk-on :
    (bs : Cells Block) (siz j : ℕ) (p : Ptr) (xs : Cells (Unit {0})) (r : Ptr) (b : Block)
    → block_at p bs ≡ some b
    → b.size < siz
    → Walk bs siz j xs r
    → Walk bs siz j ((p, tt) ∷ xs) r
Walk-on bs siz j p xs r b e h (inl (z, s)) = inl (z, Small-cons bs siz p xs b e h s)
Walk-on bs siz j p xs r b e h (inr w) = inr w

find_fit_step_small :
    (siz k : ℕ) (a : Allocator) (p c : Ptr) (n : Node Block)
    → p ≢ null
    → read p a ≡ ok n a
    → (ltb n.v.size siz) ≡ true
    → (b : Ptr) → a.hashes p ≡ some (record { prev = b; next = c; v = tt })
    → find_fit siz (suc k) p a ≡ find_fit siz k c a
unfolding find_fit
find_fit_step_small siz k a p c n nn e h b l =
    let z : is_null p ≡ false = ground arith in
    rw z (step _ e ∙ rw h (step _ (read_hash_lem a p nn l)))

find_fit_stop :
    (siz k : ℕ) (a : Allocator) (p : Ptr) (n : Node Block)
    → p ≢ null
    → read p a ≡ ok n a
    → (ltb n.v.size siz) ≡ false
    → find_fit siz (suc k) p a ≡ ok p a
unfolding find_fit
find_fit_stop siz k a p n nn e h =
    let z : is_null p ≡ false = ground arith in rw z (step _ e ∙ rw h)

find_fit_lem :
    (siz k j : ℕ) (start end : ℕ) (a : Allocator) (bs : Cells Block) (b : Ptr)
    (xs : Cells (Unit {0}))
    → IsHeap start end a bs
    → Links a.hashes b xs null
    → length xs < k
    → Free bs j xs
    → (r : Ptr) × (find_fit siz k (first xs null) a ≡ ok r a) × Walk bs siz j xs r
unfolding find_fit
find_fit_lem siz zero j start end a bs b xs h l fuel f = absurd (omega arith)
find_fit_lem siz (suc k) j start end a bs b [] h l fuel f =
    (null, refl, inl (refl, λ q i. absurd (cc)))
find_fit_lem siz (suc k) j start end a bs b ((p, v) ∷ xs) h l fuel f =
    let (c, at, free, chain) = f p (ground arith) in
    let (n, e, nv) = read_block start end a bs p c h.laid at in
    elim (Bool-cases (ltb n.v.size siz)) [
      | inl small ↦
          let (r, run, w) =
            find_fit_lem siz k j start end a bs p xs h l.3 (omega arith)
              (λ q i. f q (ground arith)) in
          (
            r,
            find_fit_step_small siz k a p (first xs null) n l.0 e small b l.1 ∙ run,
            Walk-on bs siz j p xs r c at (ground arith) w,
          )
      | inr big ↦ (
        p,
        find_fit_stop siz k a p n l.0 e big,
        inr (
          l.0,
          record { block = c; found = at; free = free; chain = chain; room = ground arith },
        ),
      )
    ]

-- The members of a chain are free blocks of the chain's size.
in_slot : (j : ℕ) (o : Option ℕ) → is_slot j o ≡ true → o ≡ some j
in_slot j none h = absurd (cc)
in_slot j (some k) h = ground arith

chain-Free :
    (j : ℕ) (bs : Cells Block) (xs : Cells (Unit {0}))
    → ((q : Ptr) → has q xs ≡ is_slot j (slot_of bs q))
    → Free bs j xs
chain-Free j bs xs m q h = slot_of-some (block_at q bs) j (in_slot j (slot_of bs q) (sym (m q) ∙ h))

-- The loop over the chains, from `j` on: it takes the first block that fits, or all the chains
-- hold blocks that are too small.
pub record Taken (siz stale fuel r j : ℕ) (a : Allocator) (bs : Cells Block) : Type 0 where
  pub chain : ℕ
  pub nod : Ptr
  pub fits : Fits bs siz chain nod
  pub run : alloc_from siz stale fuel r j a ≡ occupy siz stale chain nod a

pub record Exhausted (siz stale fuel r j : ℕ) (a : Allocator) (bs : Cells Block) : Type 0 where
  pub run : alloc_from siz stale fuel r j a ≡ ok null (record a { in_allocator = 0 })
  pub small : (i : ℕ) (p : Ptr) → j ≤ i → i < j + r → ¬ Fits bs siz i p

has-block_at : (q : Ptr) (b : Block) (bs : Cells Block) → block_at q bs ≡ some b → has q bs ≡ true
has-block_at q b [] e = absurd (cc)
has-block_at q b ((p, c) ∷ xs) e = ground (arith, has-block_at q b xs)

-- No chain is longer than the list of the blocks.
chain_length :
    (start end j : ℕ) (a : Allocator) (bs : Cells Block)
    → (h : IsHeap start end a bs) → length (h.filed.chain j) ≤ length bs
chain_length start end j a bs h =
    length_of_among (h.filed.chain j) bs
      (Distinct-of-Links a.hashes null (h.filed.chain j) null (h.filed.links j))
      (λ q i.
        let (b, e, _, _) = chain-Free j bs (h.filed.chain j) (h.filed.members j) q i in
        has-block_at q b bs e)

Walk-chain :
    (siz fuel start end j : ℕ) (a : Allocator) (bs : Cells Block)
    → (h : IsHeap start end a bs) → length bs < fuel
    → (r : Ptr) × (find_fit siz fuel (a.free_table j) a ≡ ok r a)
      × Walk bs siz j (h.filed.chain j) r
Walk-chain siz fuel start end j a bs h enough = rw (h.filed.heads j) (
    find_fit_lem siz fuel j start end a bs null (h.filed.chain j) h (h.filed.links j)
      (omega (arith, chain_length start end j a bs h))
      (chain-Free j bs (h.filed.chain j) (h.filed.members j)))

-- In a chain of which all the nodes are too small, nothing fits.
none-Fits :
    (bs : Cells Block) (siz i : ℕ) (p : Ptr) (xs : Cells (Unit {0}))
    → ((q : Ptr) → has q xs ≡ is_slot i (slot_of bs q))
    → Small bs siz xs
    → ¬ Fits bs siz i p
none-Fits bs siz i p xs m s f =
    let here : slot_of bs p ≡ some i = ap slot_of_option f.found ∙ rw f.free (ap some f.chain) in
    omega (arith, s p (m p ∙ ap (is_slot i) here ∙ ground arith) f.block f.found, f.room)

next_chain :
    (siz stale fuel r j : ℕ) (a : Allocator) (nod : Ptr)
    → find_fit siz fuel (a.free_table j) a ≡ ok nod a
    → nod ≡ null
    → alloc_from siz stale fuel (suc r) j a ≡ alloc_from siz stale fuel r (j + 1) a
unfolding alloc_from
next_chain siz stale fuel r j a nod e z = step _ e ∙ rw z

this_chain :
    (siz stale fuel r j : ℕ) (a : Allocator) (nod : Ptr)
    → find_fit siz fuel (a.free_table j) a ≡ ok nod a
    → nod ≢ null
    → alloc_from siz stale fuel (suc r) j a ≡ occupy siz stale j nod a
unfolding alloc_from
this_chain siz stale fuel r j a nod e nn =
    let z : is_null nod ≡ false = ground arith in step _ e ∙ rw z

no_chain_left :
    (siz stale fuel j : ℕ) (a : Allocator)
    → alloc_from siz stale fuel 0 j a ≡ ok null (record a { in_allocator = 0 })
unfolding alloc_from
no_chain_left siz stale fuel j a = refl

pub alloc_from_lem :
    (siz stale fuel start end r j : ℕ) (a : Allocator) (bs : Cells Block)
    → IsHeap start end a bs
    → length bs < fuel
    → Exhausted siz stale fuel r j a bs ⊎ Taken siz stale fuel r j a bs
alloc_from_lem siz stale fuel start end zero j a bs h enough =
    inl (record { run = no_chain_left siz stale fuel j a; small = λ i p lo hi f. omega arith })
alloc_from_lem siz stale fuel start end (suc r) j a bs h enough =
    let (nod, e, w) = Walk-chain siz fuel start end j a bs h enough in
    elim w [
      | inl (z, s) ↦
          let on = next_chain siz stale fuel r j a nod e z in
          elim (alloc_from_lem siz stale fuel start end r (j + 1) a bs h enough) [
            | inl x ↦ inl (record {
              run = on ∙ x.run;
              small = λ i p lo hi. elim (Bool-cases (i == j)) [
                | inl c ↦
                    let c' : j ≡ i = ground arith in
                    subst (λ n. ¬ Fits bs siz n p) c'
                      (none-Fits bs siz j p (h.filed.chain j) (h.filed.members j) s)
                | inr d ↦ x.small i p (ground arith) (ground arith)
              ];
            })
            | inr t ↦ inr (record { chain = t.chain; nod = t.nod; fits = t.fits; run = on ∙ t.run })
          ]
      | inr (nn, f) ↦ inr (record {
        chain = j;
        nod = nod;
        fits = f;
        run = this_chain siz stale fuel r j a nod e nn;
      })
    ]
