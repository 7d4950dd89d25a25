-- ===== src/Allocator/Carve.antt =====
-- The block that the search of kernel/mm/allocator.c found: it is taken out of the free table, and
-- what it does not need becomes a free block behind it.
use sgos.Prelude.{ℕ, ◌+◌, ◌-◌, ◌≡◌, ◌≢◌, ◌∙◌, false, Option, none, some, ◌∷◌, ◌++◌, ◌==◌, arith}
use sgos.Prelude.Run.{ok, step}
use sgos.Dll.{Ptr, null, node, Heap, write, set_next, set_prev, link_prev}
use sgos.Dll.Links.{
  Cells, has, first, last, Links, Links-frame, Links-write, Links-split, Links-join,
}
use sgos.Dll.Splice.{Apart-out, Apart-tail, Apart-cons, link_prev-Written}
use sgos.Dll.Heads.{write_self, write_other}
use sgos.Allocator.{Allocator, Block, make_free, split, word, node_size, change, calc_hash_index}
use sgos.Allocator.Steps.{
  with_nodes, retabled, read_lem, store_lem, change_lem, set_next_lem, set_prev_lem, guarded_prev,
}
use sgos.Allocator.Chains.{Filed, file, hash_append_lem}

-- The node of `p` gets a new one, `q`, behind it: the heaps after the writes, in the order of the
-- code. `b` comes before `p`, and `a` after it.
abbrev made : Heap Block → Ptr → Block → Heap Block
made h q f = write h q (some (node null f null))

abbrev shrunk : Heap Block → Ptr → Ptr → Block → Ptr → Heap Block
shrunk h b p c a = write h p (some (node b c a))

abbrev next_set : Heap Block → Ptr → Block → Ptr → Heap Block
next_set h q f a = write h q (some (node null f a))

abbrev up_to_next : Heap Block → Ptr → Ptr → Block → Ptr → Block → Ptr → Heap Block
up_to_next h b p c q f a = next_set (shrunk (made h q f) b p c a) q f a

abbrev p_set : Heap Block → Ptr → Ptr → Block → Ptr → Heap Block
p_set h b p c q = write h p (some (node b c q))

abbrev q_set : Heap Block → Ptr → Ptr → Block → Ptr → Heap Block
q_set h p q f a = write h q (some (node p f a))

record Carved (h : Heap Block) (ys : Cells Block) (p : Ptr) (c : Block) (q : Ptr) (f f' : Block)
    (zs : Cells Block) : Type 0 where
  mid : Heap Block
  run : link_prev (first zs null) q (up_to_next h (last ys null) p c q f (first zs null)) ≡ some mid
  kept_p : mid p ≡ some (node (last ys null) c (first zs null))
  kept_q : mid q ≡ some (node null f (first zs null))
  links :
      Links
        (q_set
          (q_set (p_set mid (last ys null) p c q) p q f (first zs null))
          p
          q
          f'
          (first zs null))
        null
        (ys ++ (p, c) ∷ (q, f') ∷ zs)
        null

carve_lem :
    (h : Heap Block) (ys : Cells Block) (p : Ptr) (b c : Block) (q : Ptr) (f f' : Block)
    (zs : Cells Block)
    → Links h null (ys ++ (p, b) ∷ zs) null
    → q ≢ null
    → (p == q) ≡ false
    → has q ys ≡ false
    → has q zs ≡ false
    → Carved h ys p c q f f' zs
carve_lem h ys p b c q f f' zs l nn d oy oz =
    let (left, right, apart) = Links-split h null ys ((p, b) ∷ zs) null l in
    let (out, apart') = Apart-tail ys zs p b apart in
    let d' : (q == p) ≡ false = ground arith in
    let h1 : Heap Block = write h q (some (node null f null)) in
    let h2 : Heap Block = write h1 p (some (node (last ys null) c (first zs null))) in
    let h3 : Heap Block = write h2 q (some (node null f (first zs null))) in
    let zs3 : Links h3 p zs null =
      Links-write h2 p zs null q _ oz
        (Links-write h1 p zs null p _ right.2 (Links-write h p zs null q _ oz right.3)) in
    let (h4, e4, zs4, same) = link_prev-Written h3 zs p q zs3 in
    let h5 : Heap Block = write h4 p (some (node (last ys null) c q)) in
    let h6 : Heap Block = write h5 q (some (node p f (first zs null))) in
    let h7 : Heap Block = write h6 q (some (node p f' (first zs null))) in
    let zs7 : Links h7 q zs null =
      Links-write h6 q zs null q _ oz
        (Links-write h5 q zs null q _ oz (Links-write h4 q zs null p _ right.2 zs4)) in
    let ys3 : Links h3 null ys p =
      Links-write h2 null ys p q _ oy
        (Links-write h1 null ys p p _ out (Links-write h null ys p q _ oy left)) in
    let ys4 : Links h4 null ys p =
      Links-frame h3 h4 null ys p (λ r i. same r (Apart-out ys zs r apart' i)) ys3 in
    let ys7 : Links h7 null ys p =
      Links-write h6 null ys p q _ oy
        (Links-write h5 null ys p q _ oy (Links-write h4 null ys p p _ out ys4)) in
    record {
      mid = h4;
      run = e4;
      kept_p = same p right.2 ∙ write_other h2 q p _ d ∙ write_self h1 p _;
      kept_q = same q oz ∙ write_self h2 q _;
      links =
          Links-join h7 null ys ((p, c) ∷ (q, f') ∷ zs) null ys7
            (
              right.0,
              write_other h6 q p _ d ∙ write_other h5 q p _ d ∙ write_self h4 p _,
              ground arith,
              (nn, write_self h6 q _, oz, zs7),
            )
            (Apart-cons ys ((q, f') ∷ zs) p c out (Apart-cons ys zs q f' oy apart'));
    }

-- `split` on a heap of nodes where `p` is the value `b`, and the table any.
pub split_run :
    (a : Allocator) (ys : Cells Block) (p : Ptr) (b : Block) (zs : Cells Block)
    (siz rest stale q : ℕ) (slot : Ptr → Option ℕ)
    → Links a.nodes null (ys ++ (p, b) ∷ zs) null
    → q ≡ word (p + word (siz + node_size))
    → q ≢ null
    → (p == q) ≡ false
    → has q ys ≡ false
    → has q zs ≡ false
    → Filed a.free_table a.hashes slot
    → slot q ≡ none
    → (g : Heap Block) × (t : ℕ → Ptr) × (h : Heap (Unit {0})) × (split p siz rest stale a
        ≡ ok tt (retabled (with_nodes a g) t h))
      × Links g null
          (ys
            ++ (p, record b { size = siz })
              ∷ (q, make_free (record { attribute = stale; size = rest - node_size }))
              ∷ zs)
          null
      × Filed t h (file q (calc_hash_index rest) slot)
unfolding split
split_run a ys p b zs siz rest stale q slot l qe nn d oy oz fl loose =
    let f : Block = record { attribute = stale; size = rest - node_size } in
    let c : Block = record b { size = siz } in
    let pn = Links-split a.nodes null ys ((p, b) ∷ zs) null l in
    let v = carve_lem a.nodes ys p b c q f (make_free f) zs l nn d oy oz in
    let d' : (q == p) ≡ false = ground arith in
    let (t, h, run, filed) =
      hash_append_lem
        (with_nodes a (q_set (p_set v.mid (last ys null) p c q) p q f (first zs null))) slot q
        (calc_hash_index rest) fl loose nn in
    let small : Block → Block = λ k. record k { size = siz } in
    let g1 : Heap Block = made a.nodes q f in
    let g2 : Heap Block = shrunk g1 (last ys null) p c (first zs null) in
    let g3 : Heap Block = next_set g2 q f (first zs null) in
    let g5 : Heap Block = p_set v.mid (last ys null) p c q in
    let g6 : Heap Block = q_set g5 p q f (first zs null) in
    let at1 = write_other a.nodes q p (some (node null f null)) d ∙ pn.1.1 in
    let at2 =
      write_other g1 p q (some (node (last ys null) c (first zs null))) d'
      ∙ write_self a.nodes q (some (node null f null)) in
    let at5 = write_other v.mid p q (some (node (last ys null) c q)) d' ∙ v.kept_q in
    (
      q_set g6 p q (make_free f) (first zs null),
      t,
      h,
      rw (← qe) (
          step _ (
            store_lem (with_nodes a g1) (change p small)
              (change_lem g1 p (last ys null) (first zs null) b small pn.1.0 at1))
          ∙ step _ (
              read_lem (with_nodes a g2) p pn.1.0
                (write_self g1 p (some (node (last ys null) c (first zs null)))))
          ∙ step _ (
              store_lem (with_nodes a g2) (set_next q (first zs null))
                (set_next_lem g2 q null null (first zs null) f nn at2))
          ∙ step _ (guarded_prev (with_nodes a g3) (first zs null) q v.run)
          ∙ step _ (
              store_lem (with_nodes a v.mid) (set_next p q)
                (set_next_lem v.mid p (last ys null) (first zs null) q c pn.1.0 v.kept_p))
          ∙ step _ (
              store_lem (with_nodes a g5) (set_prev q p)
                (set_prev_lem g5 q null (first zs null) p f nn at5))
          ∙ step _ run
          ∙ store_lem (retabled (with_nodes a g6) t h) (change q make_free) (
              change_lem g6 q p (first zs null) f make_free nn
                (write_self g5 q (some (node p f (first zs null)))))),
      v.links,
      filed,
    )
