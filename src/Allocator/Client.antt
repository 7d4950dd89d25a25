-- ===== src/Allocator/Client.antt =====
-- The users of kernel/mm/allocator.c: any sequence of mm_alloc and of mm_free of what mm_alloc gave.
use sgos.Prelude.{
  ℕ, zero, suc, ◌+◌, ◌-◌, ◌*◌, ◌^◌, ◌≤◌, ◌<◌, ◌≡◌, ◌≢◌, refl, ◌∙◌, sym, ap, subst, inl, inr, Bool,
  true, false, ◌||◌, ◌&&◌, Bool-cases, some, List, [], ◌∷◌, ◌++◌, ◌==◌, leb, arith, length, ==_iff,
}
use sgos.Prelude.Run.{Run, ok}
use sgos.Dll.{Ptr, null, node}
use sgos.Dll.Links.{Cells, first, last}
use sgos.Allocator.{
  Allocator, Block, is_free, make_free, node_size, mm_alloc, mm_free, mm_init_block,
}
use sgos.Allocator.Tiles.{block_at, Tiled, block_at-split}
use sgos.Allocator.Shape.{IsHeap, Coalesced, At_lem}
use sgos.Allocator.Occupy.{carved, occupied, IsHeap-flag}
use sgos.Allocator.Coalesce.{glue, coalesce}
use sgos.Allocator.Allocate.{Allocated, mm_alloc_cases, mm_alloc_zero}
use sgos.Allocator.Release.{mm_free_lem}
use sgos.Allocator.Query.{mm_init_block-IsHeap}
use sgos.Allocator.Roundtrip.{
  blocks_apart, block_at_place, free_not_occupied, carved_big, carved_exact,
}

abbrev pub owns : Ptr → List Ptr → Bool
owns p [] = false
owns p (q ∷ qs) = (p == q) || owns p qs

abbrev pub Distinct : List Ptr → Type 0
Distinct [] = Unit {0}
Distinct (p ∷ ps) = (owns p ps ≡ false) × Distinct ps

-- A walk of the allocator is never longer than this.
abbrev pub enough : ℕ
enough = 2 ^ 27

-- One call by a user. `live` are the addresses that mm_alloc gave and that were not passed to
-- mm_free since.
pub data Call : Allocator → List Ptr → Allocator → List Ptr → Type 0 where
  took :
      {a s : Allocator} {live : List Ptr} (siz stale fuel : ℕ) (p : Ptr)
      → enough < fuel
      → mm_alloc siz stale fuel a ≡ ok p s
      → p ≢ null
      → Call a live s (p ∷ live)
  refused :
      {a s : Allocator} {live : List Ptr} (siz stale fuel : ℕ)
      → enough < fuel
      → mm_alloc siz stale fuel a ≡ ok null s
      → Call a live s live
  gave :
      {a s : Allocator} {live left : List Ptr} (before after : List Ptr) (p : Ptr) (n : ℕ)
      → live ≡ before ++ p ∷ after
      → left ≡ before ++ after
      → mm_free p a ≡ ok n s
      → Call a live s left

pub data Calls (a : Allocator) (live : List Ptr) : Allocator → List Ptr → Type 0 where
  none_yet : Calls a live a live
  then_call :
      {s t : Allocator} {mid left : List Ptr}
      → Calls a live s mid
      → Call s mid t left
      → Calls a live t left

-- The heap is well-formed, and every live address is that of an occupied block of its own.
pub record Serves (start end : ℕ) (a : Allocator) (live : List Ptr) : Type 0 where
  pub blocks : Cells Block
  pub heap : IsHeap start end a blocks
  pub coalesced : Coalesced blocks
  pub distinct : Distinct live
  pub owned :
      (p : Ptr)
      → owns p live ≡ true
      → (q : Ptr) × (b : Block) × (p ≡ q + node_size)
        × (block_at q blocks ≡ some b)
        × (is_free b ≡ false)

-- Occupied blocks stay where they are.
block_at-glue :
    (r p : Ptr) (b d : Block) (us : Cells Block)
    → is_free d ≡ false
    → block_at r ((p, b) ∷ us) ≡ some d
    → block_at r (glue p b us) ≡ some d
block_at-glue r p b d [] o e = e
block_at-glue r p b d ((q, c) ∷ us) o e = elim (Bool-cases (is_free b && is_free c)) [
  | inl both ↦ rw both (elim (Bool-cases (r == p)) [
    | inl k ↦ absurd (free_not_occupied (some b) b d refl (rw k at e) (ground arith) o)
    | inr k ↦ elim (Bool-cases (r == q)) [
      | inl j ↦ absurd (free_not_occupied (some c) c d refl (rw (k, j) at e) (ground arith) o)
      | inr j ↦ rw (k) (rw (k, j) at e)
    ]
  ])
  | inr no_glue ↦ rw no_glue e
]

block_at-coalesce :
    (r : Ptr) (d : Block) (xs : Cells Block)
    → is_free d ≡ false
    → block_at r xs ≡ some d
    → block_at r (coalesce xs) ≡ some d
unfolding coalesce
block_at-coalesce r d [] o e = e
block_at-coalesce r d ((p, b) ∷ xs) o e =
    block_at-glue r p b d (coalesce xs) o (elim (Bool-cases (r == p)) [
      | inl k ↦ rw k (rw k at e)
      | inr k ↦ rw k (block_at-coalesce r d xs o (rw k at e))
    ])

block_at-replace :
    (r p : Ptr) (b c : Block) (ys zs : Cells Block)
    → (r == p) ≡ false
    → block_at r (ys ++ (p, c) ∷ zs) ≡ block_at r (ys ++ (p, b) ∷ zs)
block_at-replace r p b c [] zs d = rw d
block_at-replace r p b c ((q, v) ∷ ys) zs d = rw (block_at-replace r p b c ys zs d)

block_at-behind :
    (r p q : Ptr) (c f : Block) (ys zs : Cells Block)
    → (r == q) ≡ false
    → block_at r (ys ++ (p, c) ∷ (q, f) ∷ zs) ≡ block_at r (ys ++ (p, c) ∷ zs)
block_at-behind r p q c f [] zs d = rw d
block_at-behind r p q c f ((x, v) ∷ ys) zs d = rw (block_at-behind r p q c f ys zs d)

length_bound : (s e : ℕ) (xs : Cells Block) → Tiled s xs e → s + node_size * length xs ≤ e
length_bound s e [] t = omega arith
length_bound s e ((p, b) ∷ xs) t = omega (arith, length_bound (s + node_size + b.size) e xs t.1)

pub enough_lem :
    (start end fuel : ℕ) (a : Allocator) (bs : Cells Block)
    → IsHeap start end a bs
    → enough < fuel
    → length bs < fuel
enough_lem start end fuel a bs h k =
    omega (arith, length_bound start end bs h.laid.tiled, h.laid.span)

ok_value : {A : Type 0} {x y : A} {s t : Allocator} → Run.ok x s ≡ ok y t → x ≡ y
ok_value e = cc

ok_state : {A : Type 0} {x y : A} {s t : Allocator} → Run.ok x s ≡ ok y t → s ≡ t
ok_state e = cc

-- A carved block in front, and what it is followed by.
carved_view :
    (siz stale : ℕ) (p : Ptr) (b : Block) (zs : Cells Block)
    → (c : Block) × (ws : Cells Block) × (carved siz stale p b zs ≡ (p, c) ∷ ws)
      × (is_free c ≡ false)
carved_view siz stale p b zs = elim (Bool-cases (leb 32 (b.size - siz))) [
  | inl big ↦ (_, _, carved_big siz stale p b zs big, occupied b)
  | inr exact ↦ (_, _, carved_exact siz stale p b zs exact, occupied b)
]

carved_keeps :
    (start end siz stale : ℕ) (ys : Cells Block) (p : Ptr) (b : Block) (zs : Cells Block) (r : Ptr)
    (d : Block)
    → Tiled start (ys ++ (p, b) ∷ zs) end
    → is_free b ≡ true
    → is_free d ≡ false
    → block_at r (ys ++ (p, b) ∷ zs) ≡ some d
    → block_at r (ys ++ carved siz stale p b zs) ≡ some d
carved_keeps start end siz stale ys p b zs r d t fb od e =
    let here = block_at_place start end ys p b zs t in
    let all = ys ++ (p, b) ∷ zs in
    let ne : p ≢ r = λ k.
      free_not_occupied (block_at r all) b d (subst (λ n. block_at n all ≡ some b) k here) e fb
        od in
    let z : (r == p) ≡ false = ground arith in
    let gap = blocks_apart start end all p b r d t here e ne in
    elim (Bool-cases (leb 32 (b.size - siz))) [
      | inl big ↦
          let y : (r == (p + node_size + siz)) ≡ false = ground arith in
          ap (λ xs. block_at r (ys ++ xs)) (carved_big siz stale p b zs big)
          ∙ block_at-behind r p (p + node_size + siz) _ _ ys zs y
          ∙ block_at-replace r p b _ ys zs z
          ∙ e
      | inr exact ↦
          ap (λ xs. block_at r (ys ++ xs)) (carved_exact siz stale p b zs exact)
          ∙ block_at-replace r p b _ ys zs z
          ∙ e
    ]

owns_tail :
    (r p : Ptr) (live : List Ptr) → (r == p) ≡ false → owns r (p ∷ live) ≡ true → owns r live ≡ true
owns_tail r p live d i = ground arith

took_fresh :
    (start end siz stale fuel : ℕ) (a : Allocator) (live : List Ptr)
    → (v : Serves start end a live) → (x : Allocated start end siz stale fuel a v.blocks)
    → owns (x.address + node_size) live ≡ false
took_fresh start end siz stale fuel a live v x =
    elim (Bool-cases (owns (x.address + node_size) live)) [
      | inl i ↦
          let (q, b, eq, at, ob) = v.owned (x.address + node_size) i in
          let same : x.address ≡ q = omega arith in
          let t = subst (λ xs. Tiled start xs end) x.place v.heap.laid.tiled in
          let here = block_at_place start end x.before x.address x.block x.behind t in
          let all = x.before ++ (x.address, x.block) ∷ x.behind in
          absurd (
            free_not_occupied (block_at q all) x.block b
              (subst (λ n. block_at n all ≡ some x.block) same here)
              (subst (λ xs. block_at q xs ≡ some b) x.place at) x.was_free ob)
      | inr o ↦ o
    ]

-- The live addresses after a successful mm_alloc.
took_Serves :
    (start end siz stale fuel : ℕ) (a : Allocator) (live : List Ptr)
    → (v : Serves start end a live) → (x : Allocated start end siz stale fuel a v.blocks)
    → Serves start end x.after ((x.address + node_size) ∷ live)
took_Serves start end siz stale fuel a live v x =
    let ys = x.before in
    let p = x.address in
    let t = subst (λ xs. Tiled start xs end) x.place v.heap.laid.tiled in
    let (c, ws, k, oc) = carved_view siz stale p x.block x.behind in
    let whole = ap (λ xs. ys ++ xs) k in
    let at_p =
      subst (λ xs. block_at p xs ≡ some c) (sym whole)
        (block_at_place start end ys p c ws
          (subst (λ xs. Tiled start xs end) whole x.heap.laid.tiled)) in
    record {
      blocks = ys ++ carved siz stale p x.block x.behind;
      heap = x.heap;
      coalesced = x.coalesced;
      distinct = (took_fresh start end siz stale fuel a live v x, v.distinct);
      owned = λ r i. elim (Bool-cases (r == (p + node_size))) [
        | inl e ↦ (p, c, (==_iff r (p + node_size)).0 e, at_p, oc)
        | inr e ↦
            let (q, b, eq, at, ob) = v.owned r (owns_tail r (p + node_size) live e i) in
            (
              q,
              b,
              eq,
              carved_keeps start end siz stale ys p x.block x.behind q b t x.was_free ob
                  (subst (λ xs. block_at q xs ≡ some b) x.place at),
              ob,
            )
      ];
    }

took_lem :
    (start end siz stale fuel : ℕ) (a s : Allocator) (live : List Ptr) (p : Ptr)
    → Serves start end a live
    → enough < fuel
    → mm_alloc siz stale fuel a ≡ ok p s
    → p ≢ null
    → Serves start end s (p ∷ live)
took_lem start end zero stale fuel a s live p v k run nn =
    absurd (nn (ok_value (sym run ∙ mm_alloc_zero stale fuel a)))
took_lem start end (suc n) stale fuel a s live p v k run nn =
    elim (mm_alloc_cases start end (suc n) stale fuel a v.blocks v.heap v.coalesced
      (enough_lem start end fuel a v.blocks v.heap k) (omega arith)) [
        | inl e ↦ absurd (nn (ok_value (sym run ∙ e)))
        | inr x ↦
            let same = sym run ∙ x.run in
            subst (λ t. Serves start end t (p ∷ live)) (sym (ok_state same))
              (subst (λ q. Serves start end x.after (q ∷ live)) (sym (ok_value same))
                (took_Serves start end (suc n) stale fuel a live v x))
      ]

idle_Serves :
    (start end f : ℕ) (a : Allocator) (live : List Ptr)
    → Serves start end a live
    → Serves start end (record a { in_allocator = f }) live
idle_Serves start end f a live v = record {
  blocks = v.blocks;
  heap = IsHeap-flag start end f a v.blocks v.heap;
  coalesced = v.coalesced;
  distinct = v.distinct;
  owned = v.owned;
}

refused_lem :
    (start end siz stale fuel : ℕ) (a s : Allocator) (live : List Ptr)
    → Serves start end a live
    → enough < fuel
    → mm_alloc siz stale fuel a ≡ ok null s
    → Serves start end s live
refused_lem start end zero stale fuel a s live v k run =
    subst (λ t. Serves start end t live) (sym (ok_state (sym run ∙ mm_alloc_zero stale fuel a))) v
refused_lem start end (suc n) stale fuel a s live v k run =
    elim (mm_alloc_cases start end (suc n) stale fuel a v.blocks v.heap v.coalesced
      (enough_lem start end fuel a v.blocks v.heap k) (omega arith)) [
        | inl e ↦
            subst (λ t. Serves start end t live) (sym (ok_state (sym run ∙ e)))
              (idle_Serves start end 0 a live v)
        | inr x ↦
            let same : null ≡ x.address + node_size = ok_value (sym run ∙ x.run) in
            absurd (omega arith)
      ]

-- A live address is passed to mm_free.
owns-middle : (p : Ptr) (before after : List Ptr) → owns p (before ++ p ∷ after) ≡ true
owns-middle p [] after = ground arith
owns-middle p (q ∷ before) after = ground (arith, owns-middle p before after)

owns-insert :
    (r p : Ptr) (before after : List Ptr)
    → owns r (before ++ p ∷ after) ≡ ((r == p) || owns r (before ++ after))
owns-insert r p [] after = refl
owns-insert r p (q ∷ before) after = ground (arith, owns-insert r p before after)

owns-left :
    (r p : Ptr) (before after : List Ptr)
    → Distinct (before ++ p ∷ after)
    → owns r (before ++ after) ≡ true
    → (owns r (before ++ p ∷ after) ≡ true) × ((r == p) ≡ false)
owns-left r p [] after d i = elim (Bool-cases (r == p)) [
  | inl e ↦ absurd (cc (d.0, subst (λ t. owns t after ≡ true) ((==_iff r p).0 e) i))
  | inr e ↦ (ground arith, e)
]
owns-left r p (q ∷ before) after d i = elim (Bool-cases (r == q)) [
  | inl e ↦ (ground arith, ground (arith, owns-insert q p before after))
  | inr e ↦ let (u, v) = owns-left r p before after d.1 (ground arith) in (ground arith, v)
]

Distinct-left :
    (p : Ptr) (before after : List Ptr)
    → Distinct (before ++ p ∷ after)
    → Distinct (before ++ after)
Distinct-left p [] after d = d.1
Distinct-left p (q ∷ before) after d =
    (ground (arith, owns-insert q p before after), Distinct-left p before after d.1)

other_block :
    (r p q' q : ℕ) → (r == p) ≡ false → r ≡ q' + node_size → p ≡ q + node_size → (q' == q) ≡ false
other_block r p q' q d e k = ground arith

gave_lem :
    (start end : ℕ) (a s : Allocator) (before after : List Ptr) (p n : ℕ)
    → Serves start end a (before ++ p ∷ after)
    → mm_free p a ≡ ok n s
    → Serves start end s (before ++ after)
gave_lem start end a s before after p n v run =
    let (q, b, eq, at, ob) = v.owned p (owns-middle p before after) in
    let (ys, zs, k) = block_at-split q b v.blocks at in
    let (s', run', h, co) =
      mm_free_lem start end a ys q b zs (subst (λ xs. IsHeap start end a xs) k v.heap)
        (subst (λ xs. Coalesced xs) k v.coalesced) ob in
    let same = sym run ∙ ap (λ x. mm_free x a) eq ∙ run' in
    subst (λ t. Serves start end t (before ++ after)) (sym (ok_state same))
      (record {
        blocks = coalesce (ys ++ (q, make_free b) ∷ zs);
        heap = h;
        coalesced = co;
        distinct = Distinct-left p before after v.distinct;
        owned = λ r i.
            let (i', d) = owns-left r p before after v.distinct i in
            let (q', b', eq', at', ob') = v.owned r i' in
            let z : (q' == q) ≡ false = other_block r p q' q d eq' eq in
            (
              q',
              b',
              eq',
              block_at-coalesce q' b' (ys ++ (q, make_free b) ∷ zs) ob' (
                  block_at-replace q' q b (make_free b) ys zs z
                  ∙ subst (λ xs. block_at q' xs ≡ some b') k at'),
              ob',
            );
      })

call_lem :
    (start end : ℕ) {a s : Allocator} {live left : List Ptr}
    → Call a live s left
    → Serves start end a live
    → Serves start end s left
call_lem start end {a} {s} {live} {left} (took siz stale fuel p k run nn) v =
    took_lem start end siz stale fuel a s live p v k run nn
call_lem start end {a} {s} {live} {left} (refused siz stale fuel k run) v =
    refused_lem start end siz stale fuel a s live v k run
call_lem start end {a} {s} {live} {left} (gave before after p n e e' run) v =
    subst (λ l. Serves start end s l) (sym e')
      (gave_lem start end a s before after p n (subst (λ l. Serves start end a l) e v) run)

alloc_returns :
    (start end siz stale fuel : ℕ) (a : Allocator) (live : List Ptr)
    → Serves start end a live
    → enough < fuel
    → (q : Ptr) × (t : Allocator) × (mm_alloc siz stale fuel a ≡ ok q t)
alloc_returns start end zero stale fuel a live v k = (null, a, mm_alloc_zero stale fuel a)
alloc_returns start end (suc n) stale fuel a live v k =
    elim (mm_alloc_cases start end (suc n) stale fuel a v.blocks v.heap v.coalesced
      (enough_lem start end fuel a v.blocks v.heap k) (omega arith)) [
        | inl e ↦ (null, record a { in_allocator = 0 }, e)
        | inr x ↦ (x.address + node_size, x.after, x.run)
      ]

-- The descriptor right before `p` is that of an occupied block, and mm_free of `p` gives the size
-- that it holds.
pub record Returned (a : Allocator) (p : Ptr) : Type 0 where
  pub place : Ptr
  pub prev : Ptr
  pub next : Ptr
  pub block : Block
  pub after : Allocator
  pub at : p ≡ place + node_size
  pub holds : a.nodes place ≡ some (node prev block next)
  pub in_use : is_free block ≡ false
  pub run : mm_free p a ≡ ok block.size after

free_returns :
    (start end : ℕ) (a : Allocator) (live : List Ptr) (p : Ptr)
    → Serves start end a live
    → owns p live ≡ true
    → Returned a p
free_returns start end a live p v i =
    let (q, b, eq, at, ob) = v.owned p i in
    let (ys, zs, k) = block_at-split q b v.blocks at in
    let (s', run', h, co) =
      mm_free_lem start end a ys q b zs (subst (λ xs. IsHeap start end a xs) k v.heap)
        (subst (λ xs. Coalesced xs) k v.coalesced) ob in
    let h' = subst (λ xs. IsHeap start end a xs) k v.heap in
    record {
      place = q;
      prev = last ys null;
      next = first zs null;
      block = b;
      after = s';
      at = eq;
      holds = (At_lem start end a ys q b zs h'.laid).holds;
      in_use = ob;
      run = ap (λ x. mm_free x a) eq ∙ run';
    }

-- A new heap serves.
pub init-Serves :
    (addr size stale : ℕ) (a : Allocator)
    → addr ≢ 0
    → 2 ^ 19 ≤ size
    → size ≤ 2 ^ 31
    → addr + size < 2 ^ 32
    → (s : Allocator) × (mm_init_block addr size stale a ≡ ok tt s) × Serves addr (addr + size) s []
init-Serves addr size stale a nn lo hi fits =
    let (s, run, h) = mm_init_block-IsHeap addr size stale a nn lo hi fits in
    (
      s,
      run,
      record {
        blocks = (addr, make_free (record { attribute = stale; size = size - node_size })) ∷ [];
        heap = h;
        coalesced = ((λ f. refl), tt);
        distinct = tt;
        owned = λ p i. absurd (cc);
      },
    )

-- However users call mm_alloc, and mm_free with addresses that mm_alloc gave and that are not free
-- yet, the heap stays well-formed and coalesced, and every address that is not free yet is that of
-- an occupied block.
pub Calls-Serves :
    (start end : ℕ) (a : Allocator) (live : List Ptr) (s : Allocator) (left : List Ptr)
    → Serves start end a live
    → Calls a live s left
    → Serves start end s left
Calls-Serves start end a live s left v none_yet = v
Calls-Serves start end a live s left v (then_call {s = r} {mid = mid} c k) =
    call_lem start end k (Calls-Serves start end a live r mid v c)

-- After any calls of mm_alloc, and of mm_free with live addresses (given by mm_alloc and not passed
-- to mm_free since), every further call returns: mm_alloc gives an address or NULL, and mm_free
-- of an address that is live gives the size in the descriptor right before the address, which is
-- that of an occupied block.
pub Calls-return :
    (start end siz stale fuel : ℕ) (a s : Allocator) (live left : List Ptr) (p : Ptr)
    → Serves start end a live
    → Calls a live s left
    → enough < fuel
    → owns p left ≡ true
    → ((q : Ptr) × (t : Allocator) × (mm_alloc siz stale fuel s ≡ ok q t)) × Returned s p
Calls-return start end siz stale fuel a s live left p v c k i =
    let w = Calls-Serves start end a live s left v c in
    (alloc_returns start end siz stale fuel s left w k, free_returns start end s left p w i)
