-- ===== src/Virtual/Insert.antt =====
-- InsertPreviousVma of kernel/mm/virtual.c.
use sgos.Prelude.{
  ◌≡◌, ◌≢◌, inl, inr, refl, sym, ap, ◌∙◌, Bool, false, ◌||◌, Option, some, [], ◌∷◌, ◌++◌, arith,
  ◌==◌, if◌then◌else◌, Bool-cases,
}
use mathlib.Core.Option.{some-injective}
use sgos.Prelude.Run.{ok}
use sgos.Dll.{Ptr, null, Node, node, Heap, write, set_prev, set_next, link_next, link_prev}
use sgos.Dll.Links.{
  Cells, has, first, last, Links, Links-frame, Links-write, Links-split, last-append, has-append,
  last-ne-null,
}
use sgos.Dll.Splice.{Apart-tail, insert_lem}
use sgos.Virtual.{Vma, VirtualMemory, insert_previous, insert_before, insert_last}

-- The list after an insertion at `buf`, with `b` before it and `a` behind it.
abbrev inserted : VirtualMemory → Ptr → Ptr → Ptr → Heap Vma → VirtualMemory
inserted vm buf b a g = record vm {
  first_allocation = if b == null then buf else vm.first_allocation;
  last_allocation = if a == null then buf else vm.last_allocation;
  cells = g;
}

insert_before_run :
    (vm : VirtualMemory) (buf b r c old : Ptr) (v w : Vma) (mid after : Heap Vma)
    → buf ≢ null
    → r ≢ null
    → r ≢ buf
    → vm.cells r ≡ some (node b w c)
    → vm.cells buf ≡ some (node old v r)
    → mid r ≡ vm.cells r
    → mid buf ≡ vm.cells buf
    → link_next b buf vm.cells ≡ some mid
    → link_prev r buf (write mid buf (some (node b v r))) ≡ some after
    → insert_before buf r vm ≡ ok tt (inserted vm buf b r after)
unfolding insert_before set_prev
insert_before_run vm buf b r c old v w mid after nb nr ne at1 at2 k1 k2 e1 e2 =
    elim (Bool-cases (b == null)) [ inl z ↦ ground arith | inr z ↦ ground arith ]

insert_last_run :
    (vm : VirtualMemory) (buf b old a : Ptr) (v : Vma) (mid : Heap Vma)
    → buf ≢ null
    → vm.last_allocation ≡ b
    → vm.cells buf ≡ some (node old v a)
    → link_next b buf (write vm.cells buf (some (node b v a))) ≡ some mid
    → insert_last buf vm ≡ ok tt (inserted vm buf b null mid)
unfolding insert_last set_prev
insert_last_run vm buf b old a v mid nb e at e1 = elim (Bool-cases (b == null)) [
  | inl z ↦ ground arith
  | inr z ↦ ground arith
]

-- The linked list with the new node between `ys` and `zs`.
pub record IsInserted (vm s : VirtualMemory) (ys : Cells Vma) (buf : Ptr) (v : Vma) (zs : Cells Vma)
    : Type 0 where
  pub links : Links s.cells null (ys ++ (buf, v) ∷ zs) null
  pub first_is : s.first_allocation ≡ first (ys ++ (buf, v) ∷ zs) null
  pub last_is : s.last_allocation ≡ last (ys ++ (buf, v) ∷ zs) null
  pub lock : s.access_lock ≡ vm.access_lock
  pub lower : s.lower_limit ≡ vm.lower_limit
  pub upper : s.upper_limit ≡ vm.upper_limit
  pub cell : s.cells buf ≡ some (node (last ys null) v (first zs null))

first-inserted :
    (h : Heap Vma) (ys : Cells Vma) (buf : Ptr) (v : Vma) (zs : Cells Vma) (a f : Ptr)
    → Links h null ys a
    → f ≡ first (ys ++ zs) null
    → (if last ys null == null then buf else f) ≡ first (ys ++ (buf, v) ∷ zs) null
first-inserted h [] buf v zs a f l e = refl
first-inserted h ((p, w) ∷ ys) buf v zs a f l e = ground (arith, last-ne-null h null p w ys a l)

last-inserted :
    (h : Heap Vma) (ys : Cells Vma) (buf : Ptr) (v : Vma) (zs : Cells Vma) (b f : Ptr)
    → Links h b zs null
    → f ≡ last (ys ++ zs) null
    → (if first zs null == null then buf else f) ≡ last (ys ++ (buf, v) ∷ zs) null
last-inserted h ys buf v [] b f l e = sym (last-append ys ((buf, v) ∷ []) null)
last-inserted h ys buf v ((p, w) ∷ zs) b f l e =
    let nn : (p == null) ≡ false = ground arith in
    rw (nn, last-append ys ((buf, v) ∷ (p, w) ∷ zs) null) (e ∙ last-append ys ((p, w) ∷ zs) null)

write_self : (h : Heap Vma) (p : Ptr) (n : Option (Node Vma)) → write h p n p ≡ n
write_self h p n = ground arith

or_left : (x y : Bool) → (x || y) ≡ false → x ≡ false
or_left x y h = ground arith

appended_same :
    (buf : Ptr) (mid after : Heap Vma) (n : Option (Node Vma))
    → mid buf ≡ n
    → link_prev null buf (write mid buf n) ≡ some after
    → (q : Ptr) → mid q ≡ after q
appended_same buf mid after n e k q =
    let k' : write mid buf n ≡ after = some-injective _ _ k in
    let at : write mid buf n q ≡ after q = ap (λ (g : Heap Vma). g q) k' in ground arith

abbrev Inserts : VirtualMemory → Cells Vma → Ptr → Vma → Cells Vma → Type 0
Inserts vm ys buf v zs =
    (s : VirtualMemory) × (insert_previous buf (first zs null) vm ≡ ok tt s)
    × IsInserted vm s ys buf v zs

-- InsertPreviousVma puts the node before `next`, or at the end for NULL.
pub insert_previous_lem :
    (vm : VirtualMemory) (ys : Cells Vma) (buf old stale : Ptr) (v : Vma) (zs : Cells Vma)
    → Links vm.cells null (ys ++ zs) null
    → vm.first_allocation ≡ first (ys ++ zs) null
    → vm.last_allocation ≡ last (ys ++ zs) null
    → buf ≢ null
    → has buf (ys ++ zs) ≡ false
    → vm.cells buf ≡ some (node old v stale)
    → Inserts vm ys buf v zs
unfolding insert_previous set_next
insert_previous_lem vm ys buf old stale v ((r, w) ∷ zs) l f e nb out at =
    let (left, right, apart) = Links-split vm.cells null ys ((r, w) ∷ zs) null l in
    let h1 : Heap Vma = write vm.cells buf (some (node old v r)) in
    let vm1 : VirtualMemory = record vm { cells = h1 } in
    let l1 = Links-write vm.cells null (ys ++ (r, w) ∷ zs) null buf (some (node old v r)) out l in
    let i = insert_lem h1 ys buf v ((r, w) ∷ zs) l1 nb out in
    let o : (has buf ys || has buf ((r, w) ∷ zs)) ≡ false =
      rw (has-append buf ys ((r, w) ∷ zs)) at out in
    let ne : r ≢ buf = ground arith in
    let run =
      insert_before_run vm1 buf (last ys null) r (first zs null) old v w i.mid i.after nb right.0 ne
        (ground arith) (ground arith) (i.kept_mid r ((Apart-tail ys zs r w apart).0))
        (i.kept_mid buf (ground arith)) i.next_set i.prev_set in
    (
      inserted vm buf (last ys null) r i.after,
      ground arith,
      record {
        links = i.links;
        first_is = first-inserted vm.cells ys buf v ((r, w) ∷ zs) r vm.first_allocation left f;
        last_is =
            last-inserted vm.cells ys buf v ((r, w) ∷ zs) (last ys null) vm.last_allocation right e;
        lock = refl;
        lower = refl;
        upper = refl;
        cell = i.kept;
      },
    )
insert_previous_lem vm ys buf old stale v [] l f e nb out at =
    let (left, right, apart) = Links-split vm.cells null ys [] null l in
    let b = last ys null in
    let e' : vm.last_allocation ≡ b = e ∙ last-append ys [] null in
    let h1 : Heap Vma = write vm.cells buf (some (node old v null)) in
    let h2 : Heap Vma = write h1 buf (some (node b v null)) in
    let l2 =
      Links-write h1 null (ys ++ []) null buf (some (node b v null)) out
        (Links-write vm.cells null (ys ++ []) null buf (some (node old v null)) out l) in
    let i = insert_lem h2 ys buf v [] l2 nb out in
    let o : (has buf ys || false) ≡ false = rw (has-append buf ys []) at out in
    let run =
      insert_last_run (record vm { cells = h1 }) buf b old null v i.mid nb e'
        (write_self vm.cells buf _) i.next_set in
    let kept : i.mid buf ≡ some (node b v null) =
      i.kept_mid buf (or_left _ _ o) ∙ write_self h1 buf _ in
    (
      inserted vm buf b null i.mid,
      ground arith,
      record {
        links =
            Links-frame i.after i.mid null (ys ++ (buf, v) ∷ []) null
              (λ q t. appended_same buf i.mid i.after (some (node b v null)) kept i.prev_set q)
              i.links;
        first_is = first-inserted vm.cells ys buf v [] null vm.first_allocation left f;
        last_is = sym (last-append ys ((buf, v) ∷ []) null);
        lock = refl;
        lower = refl;
        upper = refl;
        cell = kept;
      },
    )
