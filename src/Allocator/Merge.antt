-- ===== src/Allocator/Merge.antt =====
-- `merge` of kernel/mm/allocator.c: a block takes in the one behind it.
use sgos.Prelude.{
  ℕ, ◌+◌, ◌≡◌, ◌≢◌, refl, ◌∙◌, sym, ap, subst, inl, inr, true, false, Bool-cases, Option, none,
  some, ◌∷◌, ◌++◌, ◌==◌, arith,
}
use sgos.Prelude.Run.{ok, step}
use sgos.Dll.{Ptr, null, Node, node, Heap, write, link_prev, set_next}
use sgos.Dll.Links.{
  Cells, has, first, last, Links, Links-frame, Links-write, Links-split, Links-join,
}
use sgos.Dll.Splice.{Apart-out, Apart-tail, Apart-cons, link_prev-Written}
use sgos.Dll.Heads.{write_self}
use sgos.Allocator.{
  Allocator, Block, is_free, word, node_size, change, calc_hash_index, merge, hash_delete,
}
use sgos.Allocator.Steps.{
  with_nodes, retabled, read_lem, store_lem, change_lem, set_next_lem, guarded_prev,
}
use sgos.Allocator.Chains.{Filed, Filed-slot, unfile, hash_delete_lem}
use sgos.Allocator.Tiles.{slot_of, slot_of-insert, Tiled, Tiled-le}
use sgos.Allocator.Shape.{IsLaid, At_lem}
use sgos.Allocator.Occupy.{relaid, not_before, slot_out, slot_here}

-- The block over both.
abbrev pub joined : Block → Block → Block
joined b c = record b { size = b.size + (c.size + node_size) }

-- The nodes are in place, and all free ones but `p` are in the table.
pub record IsLoose (start end : ℕ) (a : Allocator) (bs : Cells Block) (p : Ptr) : Type 0 where
  pub laid : IsLaid start end a bs
  pub filed : Filed a.free_table a.hashes (unfile p (slot_of bs))

-- The writes to the nodes, in the order of the code: `b` is the value of `p` with its new size.
abbrev sized : Heap Block → Ptr → Ptr → Block → Ptr → Heap Block
sized h l p b q = write h p (some (node l b q))

record Absorbed (h : Heap Block) (ys : Cells Block) (p : Ptr) (b : Block) (q : Ptr)
    (zs : Cells Block) : Type 0 where
  mid : Heap Block
  run :
      link_prev
        (first zs null)
        p
        (sized (sized h (last ys null) p b q) (last ys null) p b (first zs null))
      ≡ some mid
  links : Links mid null (ys ++ (p, b) ∷ zs) null

absorb_lem :
    (h : Heap Block) (ys : Cells Block) (p : Ptr) (b b' : Block) (q : Ptr) (c : Block)
    (zs : Cells Block)
    → Links h null (ys ++ (p, b) ∷ (q, c) ∷ zs) null
    → Absorbed h ys p b' q zs
absorb_lem h ys p b b' q c zs l =
    let (left, right, apart) = Links-split h null ys ((p, b) ∷ (q, c) ∷ zs) null l in
    let (out, apart1) = Apart-tail ys ((q, c) ∷ zs) p b apart in
    let (out_q, apart2) = Apart-tail ys zs q c apart1 in
    let pz : has p zs ≡ false = ground arith in
    let n1 = some (node (last ys null) b' q) in
    let n2 = some (node (last ys null) b' (first zs null)) in
    let h1 : Heap Block = write h p n1 in
    let h2 : Heap Block = write h1 p n2 in
    let zs2 : Links h2 q zs null =
      Links-write h1 q zs null p n2 pz (Links-write h q zs null p n1 pz right.3.3) in
    let (h3, e, zs3, same) = link_prev-Written h2 zs q p zs2 in
    let ys2 : Links h2 null ys p =
      Links-write h1 null ys p p n2 out (Links-write h null ys p p n1 out left) in
    record {
      mid = h3;
      run = e;
      links =
          Links-join h3 null ys ((p, b') ∷ zs) null
            (Links-frame h2 h3 null ys p (λ r i. same r (Apart-out ys zs r apart2 i)) ys2)
            (right.0, same p pz ∙ write_self h1 p n2, pz, zs3) (Apart-cons ys zs p b' out apart2);
    }

-- The chain of a node in the table, once `p` and `q` are one block that is in no chain.
slot_joined :
    (r p q : Ptr) (b b' c : Block) (ys zs : Cells Block)
    → has p ys ≡ false
    → has q ys ≡ false
    → has q zs ≡ false
    → (q == p) ≡ false
    → unfile p (slot_of (ys ++ (p, b') ∷ zs)) r
      ≡ unfile p (unfile q (slot_of (ys ++ (p, b) ∷ (q, c) ∷ zs))) r
slot_joined r p q b b' c ys zs op oq oz d = elim (Bool-cases (r == p)) [
  | inl e ↦ rw e
  | inr e ↦ elim (Bool-cases (r == q)) [
    | inl k ↦
        let k' : q ≡ r = ground arith in
        rw (e, k)
          (subst (λ t. slot_of (ys ++ (p, b') ∷ zs) t ≡ none) k' (slot_out q p b' ys zs oq d oz))
    | inr k ↦
        rw (e, k)
          (slot_of-insert r p b' ys zs op
            ∙ rw e (
                sym (
                  slot_of-insert r p b ys ((q, c) ∷ zs) op
                  ∙ rw e (slot_of-insert r q c ys zs oq ∙ rw k))))
  ]
]

unfile_comm :
    (r p q : Ptr) (slot : Ptr → Option ℕ) → unfile p (unfile q slot) r ≡ unfile q (unfile p slot) r
unfile_comm r p q slot = ground arith

merge_run :
    (a : Allocator) (p q x : Ptr) (b c d : Block) (l f : Ptr) (n : Node Block) (t : ℕ → Ptr)
    (h : Heap (Unit {0})) (mid : Heap Block)
    → p ≢ null
    → q ≢ null
    → x ≢ null
    → (q == p) ≡ false
    → a.nodes p ≡ some (node l b q)
    → a.nodes q ≡ some (node p c f)
    → a.nodes x ≡ some n
    → hash_delete x (calc_hash_index (word (n.v.size + node_size))) a ≡ ok tt (retabled a t h)
    → word (b.size + word (c.size + node_size)) ≡ d.size
    → b.attribute ≡ d.attribute
    → link_prev f p (sized (sized a.nodes l p d q) l p d f) ≡ some mid
    → merge p q x a ≡ ok p (with_nodes (retabled a t h) mid)
unfolding merge
merge_run a p q x b c d l f n t h mid np nq nx ne ep eq ex run size attr back =
    let grow : Block → Block = λ k. record k { size = word (k.size + word (c.size + node_size)) } in
    let grown : grow b ≡ d = ground arith in
    step _ (read_lem a x nx ex)
    ∙ step _ run
    ∙ step _ (read_lem (retabled a t h) q nq eq)
    ∙ step _ (
        store_lem (retabled a t h) (change p grow) {g = sized a.nodes l p d q}
          (change_lem a.nodes p l q b grow np ep ∙ ap (λ v. some (sized a.nodes l p v q)) grown))
    ∙ step _ (
        store_lem (with_nodes (retabled a t h) (sized a.nodes l p d q)) (set_next p f) (
          set_next_lem (sized a.nodes l p d q) p l q f d np
            (write_self a.nodes p (some (node l d q)))))
    ∙ step _ (
        guarded_prev (with_nodes (retabled a t h) (sized (sized a.nodes l p d q) l p d f)) f p back)

joined_end : (p n m : ℕ) → p + 24 + n + 24 + m ≡ p + 24 + (n + (m + 24))
joined_end p n m = omega arith

merge-IsLaid :
    (start end : ℕ) (a : Allocator) (ys : Cells Block) (p : Ptr) (b : Block) (q : Ptr) (c : Block)
    (zs : Cells Block) (x : Ptr) (n : Node Block) (slot : Ptr → Option ℕ)
    → IsLaid start end a (ys ++ (p, b) ∷ (q, c) ∷ zs)
    → Filed a.free_table a.hashes slot
    → x ≢ null
    → a.nodes x ≡ some n
    → slot x ≡ some (calc_hash_index (word (n.v.size + node_size)))
    → (s : Allocator) × (merge p q x a ≡ ok p s)
      × IsLaid start end s (ys ++ (p, joined b c) ∷ zs)
      × Filed s.free_table s.hashes (unfile x slot)
merge-IsLaid start end a ys p b q c zs x n slot l fl nx ex here =
    let at = At_lem start end a ys p b ((q, c) ∷ zs) l in
    let (left, right, apart) = Links-split a.nodes null ys ((p, b) ∷ (q, c) ∷ zs) null l.links in
    let (t, h, run, filed) =
      hash_delete_lem a slot x (calc_hash_index (word (n.v.size + node_size))) fl here in
    let d = joined b c in
    let v = absorb_lem a.nodes ys p b d q c zs l.links in
    let s = with_nodes (retabled a t h) v.mid in
    let gap = at.after.0 in
    let rest = at.after.1 in
    let inside = Tiled-le (p + node_size + b.size + node_size + c.size) end zs rest in
    let hi = l.high in
    (
      s,
      merge_run a p q x b c d (last ys null) (first zs null) n t h v.mid at.not_null (right.3.0) nx
          (ground arith) at.holds (right.3.1) ex run (omega arith) refl v.run,
      relaid start end a s ys p b d ((q, c) ∷ zs) zs l refl v.links
          (subst (λ m. Tiled m zs end) (joined_end p b.size c.size) rest),
      filed,
    )

pub loose_apart :
    (start end : ℕ) (a : Allocator) (ys : Cells Block) (p : Ptr) (b : Block) (q : Ptr) (c : Block)
    (zs : Cells Block)
    → IsLaid start end a (ys ++ (p, b) ∷ (q, c) ∷ zs)
    → (has p ys ≡ false)
      × (has q ys ≡ false)
      × (has q zs ≡ false)
      × ((q == p) ≡ false)
      × (q ≢ null)
      × (a.nodes q ≡ some (node p c (first zs null)))
      × (word (b.size + node_size) ≡ b.size + node_size)
      × (word (c.size + node_size) ≡ c.size + node_size)
loose_apart start end a ys p b q c zs l =
    let at = At_lem start end a ys p b ((q, c) ∷ zs) l in
    let (left, right, apart) = Links-split a.nodes null ys ((p, b) ∷ (q, c) ∷ zs) null l.links in
    let gap = at.after.0 in
    let hi = l.high in
    let inside = Tiled-le (p + node_size + b.size + node_size + c.size) end zs at.after.1 in
    (
      not_before start end a ys p b ((q, c) ∷ zs) p at (omega arith),
      not_before start end a ys p b ((q, c) ∷ zs) q at (omega arith),
      right.3.2,
      ground arith,
      right.3.0,
      right.3.1,
      omega arith,
      omega arith,
    )

-- The block behind a loose one is taken in.
pub merge_second :
    (start end : ℕ) (a : Allocator) (ys : Cells Block) (p : Ptr) (b : Block) (q : Ptr) (c : Block)
    (zs : Cells Block)
    → IsLoose start end a (ys ++ (p, b) ∷ (q, c) ∷ zs) p
    → is_free c ≡ true
    → (s : Allocator) × (merge p q q a ≡ ok p s)
      × IsLoose start end s (ys ++ (p, joined b c) ∷ zs) p
merge_second start end a ys p b q c zs h fc =
    let (op, oq, oz, d, nq, eq, wb, wc) = loose_apart start end a ys p b q c zs h.laid in
    let bs = ys ++ (p, b) ∷ (q, c) ∷ zs in
    let here : unfile p (slot_of bs) q ≡ some (calc_hash_index (word (c.size + node_size))) =
      rw d
        (slot_of-insert q p b ys ((q, c) ∷ zs) op ∙ rw d (slot_here q c ys zs oq ∙ rw (fc, wc))) in
    let (s, run, laid, filed) =
      merge-IsLaid start end a ys p b q c zs q (node p c (first zs null)) (unfile p (slot_of bs))
        h.laid h.filed nq eq here in
    (
      s,
      run,
      record {
        laid = laid;
        filed =
            Filed-slot
              (λ r.
                slot_joined r p q b (joined b c) c ys zs op oq oz d
                ∙ unfile_comm r p q (slot_of bs))
              filed;
      },
    )

-- A loose block is taken in by the one before it.
pub merge_first :
    (start end : ℕ) (a : Allocator) (ys : Cells Block) (p : Ptr) (b : Block) (q : Ptr) (c : Block)
    (zs : Cells Block)
    → IsLoose start end a (ys ++ (p, b) ∷ (q, c) ∷ zs) q
    → is_free b ≡ true
    → (s : Allocator) × (merge p q p a ≡ ok p s)
      × IsLoose start end s (ys ++ (p, joined b c) ∷ zs) p
merge_first start end a ys p b q c zs h fb =
    let (op, oq, oz, d, nq, eq, wb, wc) = loose_apart start end a ys p b q c zs h.laid in
    let at = At_lem start end a ys p b ((q, c) ∷ zs) h.laid in
    let bs = ys ++ (p, b) ∷ (q, c) ∷ zs in
    let d' : (p == q) ≡ false = ground arith in
    let here : unfile q (slot_of bs) p ≡ some (calc_hash_index (word (b.size + node_size))) =
      rw d' (slot_here p b ys ((q, c) ∷ zs) op ∙ rw (fb, wb)) in
    let (s, run, laid, filed) =
      merge-IsLaid start end a ys p b q c zs p (node (last ys null) b q) (unfile q (slot_of bs))
        h.laid h.filed at.not_null at.holds here in
    (
      s,
      run,
      record {
        laid = laid;
        filed = Filed-slot (λ r. slot_joined r p q b (joined b c) c ys zs op oq oz d) filed;
      },
    )
