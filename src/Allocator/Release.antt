-- ===== src/Allocator/Release.antt =====
-- mm_free of kernel/mm/allocator.c, against the list of the blocks.
use sgos.Prelude.{
  ℕ, ◌+◌, ◌-◌, ◌^◌, ◌<◌, ◌≡◌, ◌≢◌, refl, ◌∙◌, sym, ap, subst, inl, inr, Bool, true, false,
  Bool-cases, none, some, [], ◌∷◌, ◌++◌, ◌==◌, if◌then◌else◌, arith, append_snoc,
}
use sgos.Prelude.Run.{ok, step, pure}
use sgos.Dll.{Ptr, null, Node, node, Heap, write}
use sgos.Dll.Links.{Cells, has, first, last, snoc-cases}
use sgos.Dll.Splice.{Links-value}
use sgos.Dll.Heads.{write_self}
use sgos.Allocator.{
  Allocator, Block, is_free, is_null, make_free, word, node_size, change, calc_hash_index, merge,
  free_at, merge_prev, merge_next, release, mm_free, hash_append,
}
use sgos.Allocator.Steps.{with_nodes, retabled, read_lem, store_lem, change_lem}
use sgos.Allocator.Chains.{Filed-slot, file, unfile, hash_append_lem}
use sgos.Allocator.Tiles.{slot_of, slot_of-insert}
use sgos.Allocator.Shape.{IsHeap, At_lem, Coalesced}
use sgos.Allocator.Occupy.{relaid, not_before, slot_occupied, freed}
use sgos.Allocator.Merge.{IsLoose, joined, merge_first, merge_second, loose_apart}
use sgos.Allocator.Coalesce.{
  glue, glue_apart, glue_twice, coalesce, coalesce_same, coalesce_before, coalesce-Coalesced,
  Coalesced-tail,
}

free_at-null : (a : Allocator) → free_at null a ≡ ok false a
unfolding free_at
free_at-null a = refl

free_at_lem :
    (a : Allocator) (p : Ptr) (n : Node Block)
    → p ≢ null
    → a.nodes p ≡ some n
    → free_at p a ≡ ok (is_free n.v) a
unfolding free_at
free_at_lem a p n nn e =
    let z : is_null p ≡ false = ground arith in rw z (step _ (read_lem a p nn e))

merge_next_run :
    (a : Allocator) (p : Ptr) (n : Node Block) (f : Bool)
    → p ≢ null
    → a.nodes p ≡ some n
    → free_at n.next a ≡ ok f a
    → merge_next p a ≡ (if f then merge p n.next n.next else pure p) a
unfolding merge_next
merge_next_run a p n f nn e k = step _ (read_lem a p nn e) ∙ step _ k

merge_prev_run :
    (a : Allocator) (p : Ptr) (n : Node Block) (f : Bool)
    → p ≢ null
    → a.nodes p ≡ some n
    → free_at n.prev a ≡ ok f a
    → merge_prev p a ≡ (if f then merge n.prev p n.prev else pure p) a
unfolding merge_prev
merge_prev_run a p n f nn e k = step _ (read_lem a p nn e) ∙ step _ k

-- The free block behind, if there is one, is taken in.
merge_next_lem :
    (start end : ℕ) (a : Allocator) (ys : Cells Block) (p : Ptr) (b : Block) (zs : Cells Block)
    → IsLoose start end a (ys ++ (p, b) ∷ zs) p
    → is_free b ≡ true
    → (s : Allocator) × (merge_next p a ≡ ok p s) × IsLoose start end s (ys ++ glue p b zs) p
merge_next_lem start end a ys p b [] h fb =
    let at = At_lem start end a ys p b [] h.laid in
    (
      a,
      merge_next_run a p (node (last ys null) b null) false at.not_null at.holds (free_at-null a),
      h,
    )
merge_next_lem start end a ys p b ((q, c) ∷ zs) h fb =
    let at = At_lem start end a ys p b ((q, c) ∷ zs) h.laid in
    let (op, oq, oz, d, nq, eq, wb, wc) = loose_apart start end a ys p b q c zs h.laid in
    let run = λ (f : Bool). merge_next_run a p (node (last ys null) b q) f at.not_null at.holds in
    let seen = free_at_lem a q (node p c (first zs null)) nq eq in
    elim (Bool-cases (is_free c)) [
      | inl fc ↦
          let (s, run', h') = merge_second start end a ys p b q c zs h fc in
          (s, run true (seen ∙ ap (λ f. ok f a) fc) ∙ run', rw (fb, fc) h')
      | inr oc ↦ (a, run false (seen ∙ ap (λ f. ok f a) oc), rw (fb, oc) h)
    ]

-- The block that mm_free goes on with, once the one before it is looked at.
record Joined (start end : ℕ) (a : Allocator) (p : Ptr) (zs us : Cells Block) : Type 0 where
  before : Cells Block
  address : Ptr
  block : Block
  after : Allocator
  run : merge_prev p a ≡ ok address after
  loose : IsLoose start end after (before ++ (address, block) ∷ zs) address
  free : is_free block ≡ true
  meaning : before ++ glue address block zs ≡ us

merge_prev_first :
    (start end : ℕ) (a : Allocator) (p : Ptr) (b b0 : Block) (zs : Cells Block)
    → IsLoose start end a ((p, b) ∷ zs) p
    → is_free b ≡ true
    → Coalesced ((p, b0) ∷ zs)
    → Joined start end a p zs (coalesce ((p, b) ∷ zs))
unfolding coalesce
merge_prev_first start end a p b b0 zs h fb co =
    let at = At_lem start end a [] p b zs h.laid in
    record {
      before = [];
      address = p;
      block = b;
      after = a;
      run =
          merge_prev_run a p (node null b (first zs null)) false at.not_null at.holds
            (free_at-null a);
      loose = h;
      free = fb;
      meaning = ap (λ xs. glue p b xs) (sym (coalesce_same zs co.1));
    }

coalesce_middle :
    (ys : Cells Block) (q : Ptr) (c : Block) (p : Ptr) (b b0 : Block) (zs : Cells Block)
    → Coalesced (ys ++ (q, c) ∷ (p, b0) ∷ zs)
    → coalesce (ys ++ (q, c) ∷ (p, b) ∷ zs) ≡ ys ++ glue q c (glue p b zs)
unfolding coalesce
coalesce_middle ys q c p b b0 zs co =
    let tail = Coalesced-tail ys q c ((p, b0) ∷ zs) co in
    coalesce_before ys q c ((p, b0) ∷ zs) ((p, b) ∷ zs) co
    ∙ ap (λ xs. ys ++ glue q c (glue p b xs)) (coalesce_same zs tail.1.1)

merge_prev_behind :
    (start end : ℕ) (a : Allocator) (ys : Cells Block) (q : Ptr) (c : Block) (p : Ptr)
    (b b0 : Block) (zs : Cells Block)
    → IsLoose start end a (ys ++ (q, c) ∷ (p, b) ∷ zs) p
    → is_free b ≡ true
    → Coalesced (ys ++ (q, c) ∷ (p, b0) ∷ zs)
    → Joined start end a p zs (coalesce (ys ++ (q, c) ∷ (p, b) ∷ zs))
merge_prev_behind start end a ys q c p b b0 zs h fb co =
    let at = At_lem start end a ys q c ((p, b) ∷ zs) h.laid in
    let (oq, op, oz, d, np, ep, wc, wb) = loose_apart start end a ys q c p b zs h.laid in
    let run = λ (f : Bool). merge_prev_run a p (node q b (first zs null)) f np ep in
    let seen = free_at_lem a q (node (last ys null) c p) at.not_null at.holds in
    let spec = coalesce_middle ys q c p b b0 zs co in
    elim (Bool-cases (is_free c)) [
      | inl fc ↦
          let (s, run', h') = merge_first start end a ys q c p b zs h fc in
          record {
            before = ys;
            address = q;
            block = joined c b;
            after = s;
            run = run true (seen ∙ ap (λ f. ok f a) fc) ∙ run';
            loose = h';
            free = fc;
            meaning = ap (λ xs. ys ++ xs) (sym (glue_twice q c p b zs fc fb)) ∙ sym spec;
          }
      | inr oc ↦ record {
        before = ys ++ (q, c) ∷ [];
        address = p;
        block = b;
        after = a;
        run = run false (seen ∙ ap (λ f. ok f a) oc);
        loose =
            subst (λ xs. IsLoose start end a xs p) (sym (append_snoc ys ((p, b) ∷ zs) (q, c))) h;
        free = fb;
        meaning =
            append_snoc ys (glue p b zs) (q, c)
            ∙ ap (λ xs. ys ++ xs) (sym (glue_apart q c (glue p b zs) (λ k. absurd (cc))))
            ∙ sym spec;
      }
    ]

merge_prev_lem :
    (start end : ℕ) (a : Allocator) (ys : Cells Block) (p : Ptr) (b b0 : Block) (zs : Cells Block)
    → IsLoose start end a (ys ++ (p, b) ∷ zs) p
    → is_free b ≡ true
    → Coalesced (ys ++ (p, b0) ∷ zs)
    → Joined start end a p zs (coalesce (ys ++ (p, b) ∷ zs))
merge_prev_lem start end a ys p b b0 zs h fb co = elim (snoc-cases ys) [
  | inl e ↦
      let k = λ (v : Block). ap (λ t. t ++ (p, v) ∷ zs) e in
      subst (λ xs. Joined start end a p zs (coalesce xs)) (sym (k b))
        (merge_prev_first start end a p b b0 zs (subst (λ xs. IsLoose start end a xs p) (k b) h) fb
          (subst (λ xs. Coalesced xs) (k b0) co))
  | inr (ys', q, c, e) ↦
      let k = λ (v : Block). ap (λ t. t ++ (p, v) ∷ zs) e ∙ append_snoc ys' ((p, v) ∷ zs) (q, c) in
      subst (λ xs. Joined start end a p zs (coalesce xs)) (sym (k b))
        (merge_prev_behind start end a ys' q c p b b0 zs
          (subst (λ xs. IsLoose start end a xs p) (k b) h) fb
          (subst (λ xs. Coalesced xs) (k b0) co))
]

glue_head :
    (p : Ptr) (b : Block) (zs : Cells Block)
    → is_free b ≡ true
    → (d : Block) × (ws : Cells Block) × (glue p b zs ≡ (p, d) ∷ ws) × (is_free d ≡ true)
glue_head p b [] f = (b, [], refl, f)
glue_head p b ((q, c) ∷ zs) f = elim (Bool-cases (is_free c)) [
  | inl k ↦ (joined b c, zs, rw (f, k), f)
  | inr k ↦ (b, (q, c) ∷ zs, rw (f, k), f)
]

refile :
    (r p : Ptr) (b : Block) (ys zs : Cells Block)
    → has p ys ≡ false
    → is_free b ≡ true
    → word (b.size + node_size) ≡ b.size + node_size
    → slot_of (ys ++ (p, b) ∷ zs) r
      ≡ file p
          (calc_hash_index (word (b.size + node_size)))
          (unfile p (slot_of (ys ++ (p, b) ∷ zs)))
          r
refile r p b ys zs op fb w = elim (Bool-cases (r == p)) [
  | inl e ↦ rw (e, w) (slot_of-insert r p b ys zs op ∙ rw (e, fb))
  | inr e ↦ rw e
]

-- The last step: the block goes into the table.
file_lem :
    (start end : ℕ) (a : Allocator) (ys : Cells Block) (p : Ptr) (b : Block) (zs : Cells Block)
    → IsLoose start end a (ys ++ (p, b) ∷ zs) p
    → is_free b ≡ true
    → (s : Allocator) × (hash_append p (calc_hash_index (word (b.size + node_size))) a ≡ ok tt s)
      × IsHeap start end s (ys ++ (p, b) ∷ zs)
file_lem start end a ys p b zs h fb =
    let at = At_lem start end a ys p b zs h.laid in
    let hi = h.laid.high in
    let bs = ys ++ (p, b) ∷ zs in
    let op = not_before start end a ys p b zs p at (omega arith) in
    let w : word (b.size + node_size) ≡ b.size + node_size = omega (arith, at.to_end) in
    let none_at : unfile p (slot_of bs) p ≡ none = ground arith in
    let (t, hh, run, filed) =
      hash_append_lem a (unfile p (slot_of bs)) p (calc_hash_index (word (b.size + node_size)))
        h.filed none_at at.not_null in
    (
      retabled a t hh,
      run,
      record {
        laid = record {
          links = h.laid.links;
          first_is = h.laid.first_is;
          tiled = h.laid.tiled;
          low = h.laid.low;
          high = h.laid.high;
          span = h.laid.span;
        };
        filed = Filed-slot (λ r. refile r p b ys zs op fb w) filed;
      },
    )

release_run :
    (a a2 a3 s : Allocator) (p r : Ptr) (b d : Block) (l f l' f' : Ptr)
    → p ≢ null
    → r ≢ null
    → a.nodes p ≡ some (node l b f)
    → merge_prev p (with_nodes a (write a.nodes p (some (node l (make_free b) f)))) ≡ ok r a2
    → merge_next r a2 ≡ ok r a3
    → a3.nodes r ≡ some (node l' d f')
    → hash_append r (calc_hash_index (word (d.size + node_size))) a3 ≡ ok tt s
    → release p a ≡ ok b.size s
unfolding release
release_run a a2 a3 s p r b d l f l' f' np nr e prev next e' filed =
    let g : Heap Block = write a.nodes p (some (node l (make_free b) f)) in
    step _ (store_lem a (change p make_free) (change_lem a.nodes p l f b make_free np e))
    ∙ step _ (read_lem (with_nodes a g) p np (write_self a.nodes p (some (node l (make_free b) f))))
    ∙ step _ prev
    ∙ step _ next
    ∙ step _ (read_lem a3 r nr e')
    ∙ step _ filed

release_lem :
    (start end : ℕ) (a : Allocator) (ys : Cells Block) (p : Ptr) (b : Block) (zs : Cells Block)
    → IsHeap start end a (ys ++ (p, b) ∷ zs)
    → Coalesced (ys ++ (p, b) ∷ zs)
    → is_free b ≡ false
    → (s : Allocator) × (release p a ≡ ok b.size s)
      × IsHeap start end s (coalesce (ys ++ (p, make_free b) ∷ zs))
release_lem start end a ys p b zs h co nf =
    let at = At_lem start end a ys p b zs h.laid in
    let op = not_before start end a ys p b zs p at (omega arith) in
    let f = make_free b in
    let a1 = with_nodes a (write a.nodes p (some (node (last ys null) f (first zs null)))) in
    let loose : IsLoose start end a1 (ys ++ (p, f) ∷ zs) p = record {
      laid =
          relaid start end a a1 ys p b f zs zs h.laid refl
            (Links-value a.nodes ys p b f zs h.laid.links) at.after;
      filed = Filed-slot (λ r. sym (slot_occupied r p f b ys zs op nf)) h.filed;
    } in
    let j = merge_prev_lem start end a1 ys p f b zs loose (freed b) co in
    let (a3, next, loose3) =
      merge_next_lem start end j.after j.before j.address j.block zs j.loose j.free in
    let (d, ws, k, fd) = glue_head j.address j.block zs j.free in
    let whole = ap (λ xs. j.before ++ xs) k in
    let loose4 = subst (λ xs. IsLoose start end a3 xs j.address) whole loose3 in
    let (s, filed, heap) = file_lem start end a3 j.before j.address d ws loose4 fd in
    let at3 = At_lem start end a3 j.before j.address d ws loose4.laid in
    (
      s,
      release_run a j.after a3 s p j.address b d (last ys null) (first zs null) (last j.before null)
          (first ws null) at.not_null at3.not_null at.holds j.run next at3.holds filed,
      subst (λ xs. IsHeap start end s xs) (sym whole ∙ j.meaning) heap,
    )

mm_free_run :
    (a : Allocator) (p : Ptr) (n : Node Block)
    → p ≢ null
    → p + node_size < 2 ^ 32
    → a.nodes p ≡ some n
    → mm_free (p + node_size) a ≡ (if is_free n.v then pure 0 else release p) a
unfolding mm_free
mm_free_run a p n nn hi e =
    let z : is_null (p + node_size) ≡ false = ground arith in
    let w : word (p + node_size + 2 ^ 32 - node_size) ≡ p = omega arith in
    rw z (rw w (step _ (read_lem a p nn e)))

-- mm_free of an occupied block returns its size; the block is free, its free neighbours and it are
-- one block, and the heap stays well-formed and coalesced.
pub mm_free_lem :
    (start end : ℕ) (a : Allocator) (ys : Cells Block) (p : Ptr) (b : Block) (zs : Cells Block)
    → IsHeap start end a (ys ++ (p, b) ∷ zs)
    → Coalesced (ys ++ (p, b) ∷ zs)
    → is_free b ≡ false
    → (s : Allocator) × (mm_free (p + node_size) a ≡ ok b.size s)
      × IsHeap start end s (coalesce (ys ++ (p, make_free b) ∷ zs))
      × Coalesced (coalesce (ys ++ (p, make_free b) ∷ zs))
mm_free_lem start end a ys p b zs h co nf =
    let at = At_lem start end a ys p b zs h.laid in
    let hi = h.laid.high in
    let (s, run, heap) = release_lem start end a ys p b zs h co nf in
    (
      s,
      mm_free_run a p (node (last ys null) b (first zs null)) at.not_null (omega (arith, at.to_end))
            at.holds
          ∙ rw nf run,
      heap,
      coalesce-Coalesced (ys ++ (p, make_free b) ∷ zs),
    )

-- mm_free of a block that is free already, and of NULL, gives 0 and changes nothing.
pub mm_free_again :
    (start end : ℕ) (a : Allocator) (ys : Cells Block) (p : Ptr) (b : Block) (zs : Cells Block)
    → IsHeap start end a (ys ++ (p, b) ∷ zs)
    → is_free b ≡ true
    → (mm_free (p + node_size) a ≡ ok 0 a) × (mm_free null a ≡ ok 0 a)
unfolding mm_free
mm_free_again start end a ys p b zs h f =
    let at = At_lem start end a ys p b zs h.laid in
    let hi = h.laid.high in
    (
      mm_free_run a p (node (last ys null) b (first zs null)) at.not_null (omega (arith, at.to_end))
            at.holds
          ∙ rw f,
      refl,
    )
