-- ===== src/Dll/Heads.antt =====
-- Lists that only their first node is recorded of (kernel/tm/sched.c): a node is taken out, the
-- link of its successor first, and a node is put at the head.
use sgos.Prelude.{
  ◌≡◌, ◌≢◌, inl, inr, Bool-cases, refl, ◌∙◌, true, false, ◌||◌, Option, some, [], ◌∷◌, ◌++◌, arith,
  ◌==◌, if◌then◌else◌,
}
use sgos.Dll.{Ptr, null, Node, node, Heap, write, link_next, link_prev}
use sgos.Dll.Links.{
  Cells, has, first, last, Links, Links-frame, Links-write, Links-split, Links-join, has-append,
}
use sgos.Dll.Splice.{
  Apart-out, Apart-out_right, Apart-tail, link_next-Written, link_prev-Written, first-unlinked,
}

eq_of_test : (a b : Ptr) → (a == b) ≡ true → a ≡ b
eq_of_test a b h = ground arith

module _ {V : Type 0} where
  pub record Left (h : Heap V) (ys : Cells V) (p : Ptr) (v : V) (zs : Cells V) : Type 0 where
    pub mid : Heap V
    pub after : Heap V
    pub prev_set : link_prev (first zs null) (last ys null) h ≡ some mid
    pub next_set : link_next (last ys null) (first zs null) mid ≡ some after
    pub links : Links after null (ys ++ zs) null
    pub out : has p (ys ++ zs) ≡ false
    pub first_out :
        (if last ys null == null then first zs null else first (ys ++ (p, v) ∷ zs) null)
        ≡ first (ys ++ zs) null
    pub old : h p ≡ some (node (last ys null) v (first zs null))
    pub kept_mid : mid p ≡ some (node (last ys null) v (first zs null))
    pub kept : after p ≡ some (node (last ys null) v (first zs null))
    pub elsewhere : (q : Ptr) → has q (ys ++ (p, v) ∷ zs) ≡ false → after q ≡ h q
    pub not_null : p ≢ null

  pub leave_lem :
      (h : Heap V) (ys : Cells V) (p : Ptr) (v : V) (zs : Cells V)
      → Links h null (ys ++ (p, v) ∷ zs) null
      → Left h ys p v zs
  leave_lem h ys p v zs l =
      let (left, right, apart) = Links-split h null ys ((p, v) ∷ zs) null l in
      let (out, apart') = Apart-tail ys zs p v apart in
      let (mid, e1, k1, same1) = link_prev-Written h zs p (last ys null) right.3 in
      let ys1 = Links-frame h mid null ys p (λ q i. same1 q (Apart-out ys zs q apart' i)) left in
      let (after, e2, k2, same2) = link_next-Written mid ys p (first zs null) ys1 in
      let zs2 =
        Links-frame mid after (last ys null) zs null
          (λ q i. same2 q (Apart-out_right ys zs q apart' i)) k1 in
      let at_mid = same1 p right.2 ∙ right.1 in
      record {
        mid = mid;
        after = after;
        prev_set = e1;
        next_set = e2;
        links = Links-join after null ys zs null k2 zs2 apart';
        out = ground (arith, has-append p ys zs);
        first_out = first-unlinked h ys p v zs left;
        old = right.1;
        kept_mid = at_mid;
        kept = same2 p out ∙ at_mid;
        elsewhere = λ q o.
            let o' : (has q ys || has q ((p, v) ∷ zs)) ≡ false =
              rw (has-append q ys ((p, v) ∷ zs)) at o in
            same2 q (ground arith) ∙ same1 q (ground arith);
        not_null = right.0;
      }

  -- `p->next = head`, `head->prev = p` if there is a head: `p` is the first node.
  pub record Headed (h : Heap V) (p : Ptr) (v : V) (xs : Cells V) : Type 0 where
    pub after : Heap V
    pub prev_set : link_prev (first xs null) p h ≡ some after
    pub links : Links after p xs null
    pub kept : after p ≡ h p
    pub elsewhere : (q : Ptr) → has q xs ≡ false → after q ≡ h q

  pub head_lem :
      (h : Heap V) (p : Ptr) (v : V) (xs : Cells V)
      → Links h null xs null
      → has p xs ≡ false
      → Headed h p v xs
  head_lem h p v xs l out =
      let (after, e, k, same) = link_prev-Written h xs null p l in
      record { after = after; prev_set = e; links = k; kept = same p out; elsewhere = same }

  -- The node of `p`, out of one list, before its new neighbour names it.
  abbrev pub loose : Heap V → Ptr → V → Ptr → Ptr → Heap V
  loose h p v a c = write (write h p (some (node null v a))) p (some (node null v c))

  -- From inside one list to the head of another, with a new value `w`.
  pub record Moved (h : Heap V) (ys : Cells V) (p : Ptr) (v : V) (zs xs : Cells V) (w : V)
      : Type 0 where
    pub left : Left h ys p v zs
    pub headed : Headed (loose left.after p v (first zs null) (first xs null)) p v xs
    pub final : Heap V
    pub final_is : final ≡ write headed.after p (some (node null w (first xs null)))
    pub links_left : Links final null (ys ++ zs) null
    pub links_right : Links final null ((p, w) ∷ xs) null
    pub elsewhere : (q : Ptr) → has q (ys ++ (p, v) ∷ zs) ≡ false → has q xs ≡ false → final q ≡ h q

  pub has-insert :
      (q p : Ptr) (v : V) (ys zs : Cells V)
      → has q (ys ++ (p, v) ∷ zs) ≡ ((q == p) || has q (ys ++ zs))
  has-insert q p v [] zs = refl
  has-insert q p v ((r, w) ∷ ys) zs = ground (arith, has-insert q p v ys zs)

  other_of_out :
      (q p : Ptr) (v : V) (ys zs : Cells V) → has q (ys ++ (p, v) ∷ zs) ≡ false → (q == p) ≡ false
  other_of_out q p v ys zs o = ground (arith, has-insert q p v ys zs)

  pub write_self : (h : Heap V) (p : Ptr) (n : Option (Node V)) → write h p n p ≡ n
  write_self h p n = ground arith

  pub write_other :
      (h : Heap V) (p q : Ptr) (n : Option (Node V)) → (q == p) ≡ false → write h p n q ≡ h q
  write_other h p q n d = ground arith

  loose_other :
      (h : Heap V) (p : Ptr) (v : V) (a c q : Ptr) → (q == p) ≡ false → loose h p v a c q ≡ h q
  loose_other h p v a c q d = ground arith

  in_insert :
      (q p : Ptr) (v : V) (ys zs : Cells V)
      → has q (ys ++ zs) ≡ true
      → has q (ys ++ (p, v) ∷ zs) ≡ true
  in_insert q p v ys zs i = ground (arith, has-insert q p v ys zs)

  other_of_in : (q p : Ptr) (xs : Cells V) → has p xs ≡ false → has q xs ≡ true → (q == p) ≡ false
  other_of_in q p xs o i = elim (Bool-cases (q == p)) [
    | inl e ↦ absurd (cc (o, i, eq_of_test q p e))
    | inr e ↦ e
  ]

  out_of_in :
      (q : Ptr) (xs ys : Cells V)
      → ((r : Ptr) → has r xs ≡ true → has r ys ≡ false)
      → has q ys ≡ true
      → has q xs ≡ false
  out_of_in q xs ys apart i = elim (Bool-cases (has q xs)) [
    | inl e ↦ absurd (cc (apart q e, i))
    | inr e ↦ e
  ]

  pub move_lem :
      (h : Heap V) (ys : Cells V) (p : Ptr) (v : V) (zs xs : Cells V) (w : V)
      → Links h null (ys ++ (p, v) ∷ zs) null
      → Links h null xs null
      → ((q : Ptr) → has q (ys ++ (p, v) ∷ zs) ≡ true → has q xs ≡ false)
      → Moved h ys p v zs xs w
  move_lem h ys p v zs xs w l m apart =
      let u = leave_lem h ys p v zs l in
      let all = ys ++ (p, v) ∷ zs in
      let out : has p xs ≡ false = apart p (ground (arith, has-insert p p v ys zs)) in
      let g = loose u.after p v (first zs null) (first xs null) in
      let m' =
        Links-frame h g null xs null
          (λ q i.
            let o = out_of_in q all xs apart i in
            loose_other u.after p v _ _ q (other_of_out q p v ys zs o) ∙ u.elsewhere q o)
          m in
      let t = head_lem g p v xs m' out in
      let f : Heap V = write t.after p (some (node null w (first xs null))) in
      record {
        left = u;
        headed = t;
        final = f;
        final_is = refl;
        links_left =
            Links-frame u.after f null (ys ++ zs) null
              (λ q i.
                let d = other_of_in q p (ys ++ zs) u.out i in
                write_other t.after p q _ d
                ∙ t.elsewhere q (apart q (in_insert q p v ys zs i))
                ∙ loose_other u.after p v _ _ q d)
              u.links;
        links_right =
            (u.not_null, ground arith, out, Links-write t.after p xs null p _ out t.links);
        elsewhere = λ q o o'.
            let d = other_of_out q p v ys zs o in
            write_other t.after p q _ d
            ∙ t.elsewhere q o'
            ∙ loose_other u.after p v (first zs null) (first xs null) q d
            ∙ u.elsewhere q o;
      }
