-- ===== src/Dll/Links.antt =====
-- What a doubly linked segment stands for, and how it changes under writes at its ends.
use sgos.Prelude.{
  ◌≡◌, ◌≢◌, refl, subst, ap, ◌∙◌, ◌⊎◌, inl, inr, Bool, true, false, ◌||◌, Option, some, List, [],
  ◌∷◌, ◌++◌, arith, ◌==◌,
}
use sgos.Dll.{Ptr, null, Node, node, Heap, write, set_prev, set_next}

abbrev pub Cells : Type 0 → Type 0
Cells V = List (Ptr × V)

or_false_left : (x y : Bool) → (x || y) ≡ false → x ≡ false
or_false_left false y h = refl
or_false_left true y h = h

or_false_right : (x y : Bool) → (x || y) ≡ false → y ≡ false
or_false_right false y h = h
or_false_right true y h = absurd (cc)

module _ {V : Type 0} where
  abbrev pub has : Ptr → Cells V → Bool
  has a [] = false
  has a ((p, _) ∷ xs) = (a == p) || has a xs

  abbrev pub first : Cells V → Ptr → Ptr
  first [] d = d
  first ((p, _) ∷ xs) d = p

  abbrev pub last : Cells V → Ptr → Ptr
  last [] d = d
  last ((p, _) ∷ xs) d = last xs p

  -- The nodes `xs` are distinct and linked both ways; `b` precedes them and `a` follows.
  abbrev pub Links : Heap V → Ptr → Cells V → Ptr → Type 0
  Links h b [] a = Unit {0}
  Links h b ((p, v) ∷ xs) a =
      (p ≢ null) × (h p ≡ some (node b v (first xs a))) × (has p xs ≡ false) × Links h p xs a

  pub has-append : (a : Ptr) (xs ys : Cells V) → has a (xs ++ ys) ≡ (has a xs || has a ys)
  has-append a [] ys = refl
  has-append a ((p, v) ∷ xs) ys = ground (arith, has-append a xs ys)

  pub first-append : (xs ys : Cells V) (d : Ptr) → first (xs ++ ys) d ≡ first xs (first ys d)
  first-append [] ys d = refl
  first-append ((p, v) ∷ xs) ys d = refl

  pub last-append : (xs ys : Cells V) (d : Ptr) → last (xs ++ ys) d ≡ last ys (last xs d)
  last-append [] ys d = refl
  last-append ((p, v) ∷ xs) ys d = last-append xs ys p

  abbrev pub Apart : Cells V → Cells V → Type 0
  Apart [] ys = Unit {0}
  Apart ((p, _) ∷ xs) ys = (has p ys ≡ false) × Apart xs ys

  -- Nothing changed in `g` at the addresses of `xs`.
  pub Links-frame :
      (h g : Heap V) (b : Ptr) (xs : Cells V) (a : Ptr)
      → ((p : Ptr) → has p xs ≡ true → g p ≡ h p)
      → Links h b xs a
      → Links g b xs a
  Links-frame h g b [] a same l = tt
  Links-frame h g b ((p, v) ∷ xs) a same l =
      (l.0, ground (arith, same p), l.2, Links-frame h g p xs a (λ q e. ground (arith, same q)) l.3)

  pub Links-split :
      (h : Heap V) (b : Ptr) (xs ys : Cells V) (a : Ptr)
      → Links h b (xs ++ ys) a
      → Links h b xs (first ys a) × Links h (last xs b) ys a × Apart xs ys
  Links-split h b [] ys a l = (tt, l, tt)
  Links-split h b ((p, v) ∷ xs) ys a l =
      let r = Links-split h p xs ys a l.3 in
      let e : first (xs ++ ys) a ≡ first xs (first ys a) = first-append xs ys a in
      let o : (has p xs || has p ys) ≡ false = rw (has-append p xs ys) at (l.2) in
      ((l.0, rw e at (l.1), or_false_left _ _ o, r.0), r.1, (or_false_right _ _ o, r.2))

  pub Links-join :
      (h : Heap V) (b : Ptr) (xs ys : Cells V) (a : Ptr)
      → Links h b xs (first ys a)
      → Links h (last xs b) ys a
      → Apart xs ys
      → Links h b (xs ++ ys) a
  Links-join h b [] ys a l r s = r
  Links-join h b ((p, v) ∷ xs) ys a l r s = (
    l.0,
    ground (arith, first-append xs ys a),
    ground (arith, has-append p xs ys),
    Links-join h p xs ys a l.3 r s.1,
  )

  -- A write outside the segment.
  pub Links-write :
      (h : Heap V) (b : Ptr) (xs : Cells V) (a p : Ptr) (n : Option (Node V))
      → has p xs ≡ false
      → Links h b xs a
      → Links (write h p n) b xs a
  Links-write h b xs a p n out l = Links-frame h (write h p n) b xs a (λ q e. ground arith) l

  -- `p->prev = c` at the first node of a segment.
  abbrev pub Relinked : (Heap V → Option (Heap V)) → Heap V → Ptr → Cells V → Ptr → Ptr → Type 0
  Relinked op h b xs a p =
      (g : Heap V) × (op h ≡ some g) × Links g b xs a × ((q : Ptr) → q ≢ p → g q ≡ h q)

  pub set_prev-first :
      (h : Heap V) (b : Ptr) (p : Ptr) (v : V) (xs : Cells V) (a c : Ptr)
      → Links h b ((p, v) ∷ xs) a
      → Relinked (set_prev p c) h c ((p, v) ∷ xs) a p
  unfolding set_prev
  set_prev-first h b p v xs a c l =
      let n = node c v (first xs a) in
      (
        write h p (some n),
        ground arith,
        (l.0, ground arith, l.2, Links-write h p xs a p (some n) l.2 l.3),
        λ q ne. ground arith,
      )

  pub has-last : (p : Ptr) (v : V) (xs : Cells V) → has (last xs p) ((p, v) ∷ xs) ≡ true
  has-last p v [] = ground arith
  has-last p v ((r, w) ∷ xs) = ground (arith, has-last r w xs)

  pub ne-last : (q p : Ptr) (v : V) (xs : Cells V) → has q ((p, v) ∷ xs) ≡ false → q ≢ last xs p
  ne-last q p v xs out e =
      absurd (cc (has-last p v xs, subst (λ t. has t ((p, v) ∷ xs) ≡ false) e out))

  pub last-ne-null :
      (h : Heap V) (b : Ptr) (p : Ptr) (v : V) (xs : Cells V) (a : Ptr)
      → Links h b ((p, v) ∷ xs) a
      → last xs p ≢ null
  last-ne-null h b p v [] a l = l.0
  last-ne-null h b p v ((r, w) ∷ xs) a l = last-ne-null h p r w xs a l.3

  -- `p->next = c` at the last node of a segment.
  pub set_next-last :
      (h : Heap V) (b : Ptr) (p : Ptr) (v : V) (xs : Cells V) (a c : Ptr)
      → Links h b ((p, v) ∷ xs) a
      → Relinked (set_next (last xs p) c) h b ((p, v) ∷ xs) c (last xs p)
  unfolding set_next
  set_next-last h b p v [] a c l = (
    write h p (some (node b v c)),
    ground arith,
    (l.0, ground arith, refl, tt),
    λ q ne. ground arith,
  )
  set_next-last h b p v ((r, w) ∷ xs) a c l =
      let (g, e, k, same) = set_next-last h p r w xs a c l.3 in
      (g, e, (l.0, same p (ne-last p r w xs l.2) ∙ l.1, l.2, k), same)

  -- A list is empty or has a last node.
  pub snoc-cases :
      (xs : Cells V) → (xs ≡ []) ⊎ ((ys : Cells V) × (p : Ptr) × (v : V) × (xs ≡ ys ++ (p, v) ∷ []))
  snoc-cases [] = inl refl
  snoc-cases ((p, v) ∷ xs) = elim (snoc-cases xs) [
    | inl e ↦ inr ([], p, v, ap (λ t. (p, v) ∷ t) e)
    | inr (ys, r, w, e) ↦ inr ((p, v) ∷ ys, r, w, ap (λ t. (p, v) ∷ t) e)
  ]
