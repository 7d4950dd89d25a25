-- ===== src/Allocator/Occupy.antt =====
-- A block of kernel/mm/allocator.c becomes occupied, and its rest a block: the invariant is kept.
use sgos.Prelude.{
  ℕ, ◌+◌, ◌-◌, ◌^◌, ◌≤◌, ◌<◌, ◌≡◌, ◌≢◌, refl, ◌∙◌, sym, ap, subst, inl, inr, true, false,
  Bool-cases, none, some, [], ◌∷◌, ◌++◌, ◌==◌, if◌then◌else◌, leb, arith,
}
use sgos.Prelude.Run.{ok, step, when}
use sgos.Dll.{Ptr, null, node, Heap, write}
use sgos.Dll.Links.{Cells, has, first, last, Links}
use sgos.Dll.Splice.{Links-value}
use sgos.Allocator.{
  Allocator, Block, make_free, make_occupied, is_free, split, occupy, hash_delete, word, node_size,
  has_rest, calc_hash_index, change,
}
use sgos.Allocator.Steps.{with_nodes, retabled, read_lem, store_lem, change_lem}
use sgos.Allocator.Chains.{Filed-slot, file, unfile, hash_delete_lem}
use sgos.Allocator.Tiles.{
  block_at, slot_of, slot_of_block, slot_of_option, slot_of-insert, block_at-append, block_at_out,
  Tiled, Tiled-above, Tiled-below, Tiled-join,
}
use sgos.Allocator.Shape.{IsLaid, IsHeap, At, At_lem}
use sgos.Allocator.Carve.{split_run}

-- A block of `siz` bytes at the place of `b`, and the free rest.
abbrev pub carved : ℕ → ℕ → Ptr → Block → Cells Block → Cells Block
carved siz stale p b zs =
    if leb 32 (b.size - siz)
    then (p, record (make_occupied b) { size = siz })
      ∷ (
        p + node_size + siz,
        make_free (record { attribute = stale; size = b.size - siz - node_size }),
      )
      ∷ zs
    else (p, make_occupied b) ∷ zs

first-swap :
    (ys : Cells Block) (p : Ptr) (b c : Block) (zs ws : Cells Block)
    → first (ys ++ (p, b) ∷ zs) null ≡ first (ys ++ (p, c) ∷ ws) null
first-swap [] p b c zs ws = refl
first-swap ((r, d) ∷ ys) p b c zs ws = refl

-- Other blocks at the place of one.
pub relaid :
    (start end : ℕ) (a s : Allocator) (ys : Cells Block) (p : Ptr) (b c : Block)
    (zs ws : Cells Block)
    → IsLaid start end a (ys ++ (p, b) ∷ zs)
    → s.first_node ≡ a.first_node
    → Links s.nodes null (ys ++ (p, c) ∷ ws) null
    → Tiled (p + node_size + c.size) ws end
    → IsLaid start end s (ys ++ (p, c) ∷ ws)
relaid start end a s ys p b c zs ws l same k t = record {
  links = k;
  first_is = same ∙ l.first_is ∙ first-swap ys p b c zs ws;
  tiled = Tiled-join start p end ys ((p, c) ∷ ws) (At_lem start end a ys p b zs l).before (refl, t);
  low = l.low;
  high = l.high;
  span = l.span;
}

pub slot_occupied :
    (q p : Ptr) (b c : Block) (ys zs : Cells Block)
    → has p ys ≡ false
    → is_free c ≡ false
    → slot_of (ys ++ (p, c) ∷ zs) q ≡ unfile p (slot_of (ys ++ (p, b) ∷ zs)) q
slot_occupied q p b c ys zs o f = elim (Bool-cases (q == p)) [
  | inl e ↦ rw e (slot_of-insert q p c ys zs o ∙ rw (e, f))
  | inr d ↦ rw d (slot_of-insert q p c ys zs o ∙ rw d (sym (slot_of-insert q p b ys zs o ∙ rw d)))
]

slot_behind :
    (r p q : Ptr) (c f : Block) (ys zs : Cells Block)
    → has p ys ≡ false
    → has q ys ≡ false
    → (p == q) ≡ false
    → is_free c ≡ false
    → is_free f ≡ true
    → slot_of (ys ++ (p, c) ∷ (q, f) ∷ zs) r
      ≡ file q (calc_hash_index (f.size + node_size)) (slot_of (ys ++ (p, c) ∷ zs)) r
slot_behind r p q c f ys zs op oq d nf ff = elim (Bool-cases (r == q)) [
  | inl e ↦
      let d' : (r == p) ≡ false = ground arith in
      rw e (
        slot_of-insert r p c ys ((q, f) ∷ zs) op
        ∙ rw d' (slot_of-insert r q f ys zs oq ∙ rw (e, ff)))
  | inr e ↦ rw e (
      slot_of-insert r p c ys ((q, f) ∷ zs) op ∙ elim (Bool-cases (r == p)) [
        | inl k ↦ rw k (sym (slot_of-insert r p c ys zs op ∙ rw k))
        | inr k ↦
            rw k (slot_of-insert r q f ys zs oq ∙ rw e (sym (slot_of-insert r p c ys zs op ∙ rw k)))
      ])
]

slot_same :
    (q p : Ptr) (b c : Block) (ys zs : Cells Block)
    → has p ys ≡ false
    → slot_of_block c ≡ slot_of_block b
    → slot_of (ys ++ (p, c) ∷ zs) q ≡ slot_of (ys ++ (p, b) ∷ zs) q
slot_same q p b c ys zs o e =
    slot_of-insert q p c ys zs o ∙ rw e (sym (slot_of-insert q p b ys zs o))

pub slot_here :
    (p : Ptr) (b : Block) (ys zs : Cells Block)
    → has p ys ≡ false
    → slot_of (ys ++ (p, b) ∷ zs) p ≡ slot_of_block b
slot_here p b ys zs o =
    let z : (p == p) ≡ true = ground arith in slot_of-insert p p b ys zs o ∙ rw z

pub slot_out :
    (q p : Ptr) (b : Block) (ys zs : Cells Block)
    → has q ys ≡ false
    → (q == p) ≡ false
    → has q zs ≡ false
    → slot_of (ys ++ (p, b) ∷ zs) q ≡ none
slot_out q p b ys zs oy d oz =
    let e : block_at q (ys ++ (p, b) ∷ zs) ≡ none =
      block_at-append q ys ((p, b) ∷ zs) oy ∙ rw d (block_at_out q zs oz) in
    ap slot_of_option e

slot_none : (b : Block) → is_free b ≡ false → slot_of_block b ≡ none
slot_none b f = rw f

pub occupied : (b : Block) → is_free (make_occupied b) ≡ false
occupied b = ground arith

-- No block before `p` is at `p` or behind it.
pub not_before :
    (start end : ℕ) (a : Allocator) (ys : Cells Block) (p : Ptr) (b : Block) (zs : Cells Block)
    (q : ℕ)
    → At start end a ys p b zs
    → p ≤ q
    → has q ys ≡ false
not_before start end a ys p b zs q at h = Tiled-above start p q ys at.before (omega arith)

pub freed : (b : Block) → is_free (make_free b) ≡ true
freed b = ground arith

slot_split :
    (r p q : Ptr) (b c f : Block) (rest : ℕ) (ys zs : Cells Block)
    → has p ys ≡ false
    → has q ys ≡ false
    → (p == q) ≡ false
    → is_free b ≡ false
    → is_free c ≡ false
    → f.size + node_size ≡ rest
    → is_free f ≡ true
    → slot_of (ys ++ (p, c) ∷ (q, f) ∷ zs) r
      ≡ file q (calc_hash_index rest) (slot_of (ys ++ (p, b) ∷ zs)) r
slot_split r p q b c f rest ys zs op oq d nb nc e ff =
    slot_behind r p q c f ys zs op oq d nc ff
    ∙ rw e (
        ap (λ o. if r == q then some (calc_hash_index rest) else o)
          (slot_same r p b c ys zs op (slot_none c nc ∙ sym (slot_none b nb))))

rest_end : (p n siz : ℕ) → siz + 32 ≤ n → p + 24 + n ≡ p + 24 + siz + 24 + (n - siz - 24)
rest_end p n siz h = omega arith

rest_size : (n siz : ℕ) → siz + 32 ≤ n → n - siz - 24 + 24 ≡ n - siz
rest_size n siz h = omega arith

-- `split` on the last bytes of a block.
split_lem :
    (start end : ℕ) (a : Allocator) (ys : Cells Block) (p : Ptr) (b : Block) (zs : Cells Block)
    (siz stale : ℕ)
    → IsHeap start end a (ys ++ (p, b) ∷ zs)
    → is_free b ≡ false
    → siz + 32 ≤ b.size
    → (s : Allocator) × (split p siz (b.size - siz) stale a ≡ ok tt s)
      × IsHeap start end s (
          ys
          ++ (p, record b { size = siz })
            ∷ (
              p + node_size + siz,
              make_free (record { attribute = stale; size = b.size - siz - node_size }),
            )
            ∷ zs)
split_lem start end a ys p b zs siz stale h nf room =
    let at = At_lem start end a ys p b zs h.laid in
    let hi = h.laid.high in
    let q = p + node_size + siz in
    let c : Block = record b { size = siz } in
    let f : Block = make_free (record { attribute = stale; size = b.size - siz - node_size }) in
    let op = not_before start end a ys p b zs p at (omega arith) in
    let oq = not_before start end a ys p b zs q at (omega arith) in
    let oz = Tiled-below (p + node_size + b.size) end q zs at.after (omega arith) in
    let d : (q == p) ≡ false = ground arith in
    let d' : (p == q) ≡ false = ground arith in
    let loose : slot_of (ys ++ (p, b) ∷ zs) q ≡ none = slot_out q p b ys zs oq d oz in
    let bound = at.to_end in
    let (g, t, hh, run, links, filed) =
      split_run a ys p b zs siz (b.size - siz) stale q (slot_of (ys ++ (p, b) ∷ zs)) h.laid.links
        (omega arith) (omega arith) d' oq oz h.filed loose in
    let s = retabled (with_nodes a g) t hh in
    (
      s,
      run,
      record {
        laid =
            relaid start end a s ys p b c zs ((q, f) ∷ zs) h.laid refl links
              (refl, subst (λ n. Tiled n zs end) (rest_end p b.size siz room) at.after);
        filed =
            Filed-slot
              (λ r.
                slot_split r p q b c f (b.size - siz) ys zs op oq d' nf nf
                  (rest_size b.size siz room)
                  (freed (record { attribute = stale; size = b.size - siz - node_size })))
              filed;
      },
    )

pub IsHeap-flag :
    (start end f : ℕ) (a : Allocator) (bs : Cells Block)
    → IsHeap start end a bs
    → IsHeap start end (record a { in_allocator = f }) bs
IsHeap-flag start end f a bs h = record {
  laid = record {
    links = h.laid.links;
    first_is = h.laid.first_is;
    tiled = h.laid.tiled;
    low = h.laid.low;
    high = h.laid.high;
    span = h.laid.span;
  };
  filed = h.filed;
}

when-split :
    (p siz stale rest r : ℕ) (s : Allocator) {s' : Allocator}
    → rest ≡ r
    → leb 32 r ≡ true
    → r < 2 ^ 31
    → split p siz r stale s ≡ ok tt s'
    → when (has_rest rest) (split p siz rest stale) s ≡ ok tt s'
when-split p siz stale rest r s e big small run =
    let h : has_rest r ≡ true = ground arith in rw e (rw h run)

when_exact :
    (p siz stale rest r : ℕ) (s : Allocator)
    → rest ≡ r
    → leb 32 r ≡ false
    → when (has_rest rest) (split p siz rest stale) s ≡ ok tt s
when_exact p siz stale rest r s e exact = let h : has_rest r ≡ false = ground arith in rw e (rw h)

word_rest : (n siz : ℕ) → siz ≤ n → n < 2 ^ 32 → word (n + 2 ^ 32 - siz) ≡ n - siz
word_rest n siz h k = omega arith

occupy_run :
    (siz stale j p : ℕ) (a s' : Allocator) (b : Block) (l f : Ptr) (t : ℕ → Ptr)
    (hh : Heap (Unit {0}))
    → p ≢ null
    → a.nodes p ≡ some (node l b f)
    → hash_delete p j a ≡ ok tt (retabled a t hh)
    → when
        (has_rest (word (b.size + 2 ^ 32 - siz)))
        (split p siz (word (b.size + 2 ^ 32 - siz)) stale)
        (with_nodes (retabled a t hh) (write a.nodes p (some (node l (make_occupied b) f))))
      ≡ ok tt s'
    → occupy siz stale j p a ≡ ok (word (p + node_size)) (record s' { in_allocator = 0 })
unfolding occupy
occupy_run siz stale j p a s' b l f t hh nn holds run rest =
    step _ (read_lem a p nn holds)
    ∙ step _ run
    ∙ step _ (
        store_lem (retabled a t hh) (change p make_occupied)
          (change_lem a.nodes p l f b make_occupied nn holds))
    ∙ step _ rest

-- The block that is found leaves the free table, and is occupied.
pub occupy_lem :
    (start end : ℕ) (a : Allocator) (ys : Cells Block) (p : Ptr) (b : Block) (zs : Cells Block)
    (siz stale j : ℕ)
    → IsHeap start end a (ys ++ (p, b) ∷ zs)
    → is_free b ≡ true
    → calc_hash_index (b.size + node_size) ≡ j
    → siz ≤ b.size
    → (s : Allocator) × (occupy siz stale j p a ≡ ok (p + node_size) s)
      × IsHeap start end s (ys ++ carved siz stale p b zs)
      × (s.in_allocator ≡ 0)
occupy_lem start end a ys p b zs siz stale j h fr ch room =
    let at = At_lem start end a ys p b zs h.laid in
    let hi = h.laid.high in
    let op = not_before start end a ys p b zs p at (omega arith) in
    let here : slot_of (ys ++ (p, b) ∷ zs) p ≡ some j =
      slot_here p b ys zs op ∙ rw fr (ap some ch) in
    let (t, hh, run, filed) = hash_delete_lem a (slot_of (ys ++ (p, b) ∷ zs)) p j h.filed here in
    let c = make_occupied b in
    let g : Heap Block = write a.nodes p (some (node (last ys null) c (first zs null))) in
    let s = with_nodes (retabled a t hh) g in
    let mid : IsHeap start end s (ys ++ (p, c) ∷ zs) = record {
      laid =
          relaid start end a s ys p b c zs zs h.laid refl
            (Links-value a.nodes ys p b c zs h.laid.links) at.after;
      filed = Filed-slot (λ r. slot_occupied r p b c ys zs op (occupied b)) filed;
    } in
    let run_to = λ (s' : Allocator).
      occupy_run siz stale j p a s' b (last ys null) (first zs null) t hh at.not_null at.holds
        run in
    let back : word (p + node_size) ≡ p + node_size = omega (arith, at.to_end) in
    let bound : b.size < 2 ^ 31 = omega (arith, at.to_end, at.from_start, h.laid.span) in
    let rest = word_rest b.size siz room (omega arith) in
    elim (Bool-cases (leb 32 (b.size - siz))) [
      | inl big ↦
          let (s', run', h') =
            split_lem start end s ys p c zs siz stale mid (occupied b) (ground arith) in
          (
            record s' { in_allocator = 0 },
            run_to s' (when-split p siz stale _ (b.size - siz) s rest big (omega arith) run')
                ∙ ap (λ r. ok r (record s' { in_allocator = 0 })) back,
            rw big (IsHeap-flag start end 0 s' _ h'),
            refl,
          )
      | inr exact ↦ (
        record s { in_allocator = 0 },
        run_to s (when_exact p siz stale _ (b.size - siz) s rest exact)
            ∙ ap (λ r. ok r (record s { in_allocator = 0 })) back,
        rw exact (IsHeap-flag start end 0 s _ mid),
        refl,
      )
    ]
