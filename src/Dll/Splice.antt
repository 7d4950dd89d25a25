-- ===== src/Dll/Splice.antt =====
-- Taking a node out of a list, and putting one in, by the guarded writes at its neighbours.
use sgos.Prelude.{
  ◌≡◌, ◌≢◌, refl, sym, subst, ◌∙◌, true, false, ◌||◌, Option, some, [], ◌∷◌, ◌++◌, arith, ◌==◌,
  if◌then◌else◌,
}
use sgos.Dll.{Ptr, null, node, Heap, write, link_next, link_prev}
use sgos.Dll.Links.{
  Cells, has, first, last, Links, Links-frame, Links-write, Links-split, Links-join, Apart,
  has-last, last-ne-null, set_prev-first, set_next-last, has-append, last-append,
}

module _ {V : Type 0} where
  pub Apart-out : (xs ys : Cells V) (q : Ptr) → Apart xs ys → has q xs ≡ true → has q ys ≡ false
  Apart-out [] ys q ap h = absurd (cc)
  Apart-out ((p, v) ∷ xs) ys q ap h = ground (arith, Apart-out xs ys q ap.1)

  pub Apart-out_right :
      (xs ys : Cells V) (q : Ptr) → Apart xs ys → has q ys ≡ true → has q xs ≡ false
  Apart-out_right [] ys q ap h = refl
  Apart-out_right ((p, v) ∷ xs) ys q ap h = ground (arith, Apart-out_right xs ys q ap.1)

  pub Apart-tail :
      (xs ys : Cells V) (p : Ptr) (v : V)
      → Apart xs ((p, v) ∷ ys)
      → (has p xs ≡ false) × Apart xs ys
  Apart-tail [] ys p v ap = (refl, tt)
  Apart-tail ((r, w) ∷ xs) ys p v ap =
      let (o, t) = Apart-tail xs ys p v ap.1 in (ground arith, (ground arith, t))

  pub Apart-cons :
      (xs ys : Cells V) (p : Ptr) (v : V) → has p xs ≡ false → Apart xs ys → Apart xs ((p, v) ∷ ys)
  Apart-cons [] ys p v o t = tt
  Apart-cons ((r, w) ∷ xs) ys p v o t = (ground arith, Apart-cons xs ys p v (ground arith) t.1)

  -- `op` succeeds on `h`, makes `xs` a segment from `b` to `a`, and writes at nodes of `xs` only.
  abbrev pub Written : (Heap V → Option (Heap V)) → Heap V → Ptr → Cells V → Ptr → Type 0
  Written op h b xs a =
      (g : Heap V) × (op h ≡ some g) × Links g b xs a × ((q : Ptr) → has q xs ≡ false → g q ≡ h q)

  pub link_next-Written :
      (h : Heap V) (xs : Cells V) (a c : Ptr)
      → Links h null xs a
      → Written (link_next (last xs null) c) h null xs c
  link_next-Written h [] a c l = (h, refl, tt, λ q o. refl)
  link_next-Written h ((p, v) ∷ xs) a c l =
      let (g, e, k, same) = set_next-last h null p v xs a c l in
      (
        g,
        ground (arith, last-ne-null h null p v xs a l),
        k,
        λ q o.
            same q
              (λ e'. absurd (cc (has-last p v xs, subst (λ t. has t ((p, v) ∷ xs) ≡ false) e' o))),
      )

  pub link_prev-Written :
      (h : Heap V) (xs : Cells V) (b c : Ptr)
      → Links h b xs null
      → Written (link_prev (first xs null) c) h c xs null
  link_prev-Written h [] b c l = (h, refl, tt, λ q o. refl)
  link_prev-Written h ((p, v) ∷ xs) b c l =
      let (g, e, k, same) = set_prev-first h b p v xs null c l in
      (g, ground arith, k, λ q o. same q (ground arith))

  -- The ends of the list after that, as the code computes them.
  pub first-unlinked :
      (h : Heap V) (ys : Cells V) (p : Ptr) (v : V) (zs : Cells V)
      → Links h null ys p
      → (if last ys null == null then first zs null else first (ys ++ (p, v) ∷ zs) null)
        ≡ first (ys ++ zs) null
  first-unlinked h [] p v zs l = refl
  first-unlinked h ((r, w) ∷ ys) p v zs l = ground (arith, last-ne-null h null r w ys p l)

  last-unlinked :
      (h : Heap V) (ys : Cells V) (p : Ptr) (v : V) (zs : Cells V)
      → Links h p zs null
      → (if first zs null == null then last ys null else last (ys ++ (p, v) ∷ zs) null)
        ≡ last (ys ++ zs) null
  last-unlinked h ys p v [] l = sym (last-append ys [] null)
  last-unlinked h ys p v ((r, w) ∷ zs) l =
      let nn : (r == null) ≡ false = ground arith in
      rw (nn, last-append ys ((p, v) ∷ (r, w) ∷ zs) null, last-append ys ((r, w) ∷ zs) null)

  -- `node->prev->next = node->next` and `node->next->prev = node->prev`, each where there is such
  -- a neighbour, take the node out.
  pub record Unlinked (h : Heap V) (ys : Cells V) (p : Ptr) (v : V) (zs : Cells V) : Type 0 where
    pub mid : Heap V
    pub after : Heap V
    pub next_set : link_next (last ys null) (first zs null) h ≡ some mid
    pub prev_set : link_prev (first zs null) (last ys null) mid ≡ some after
    pub links : Links after null (ys ++ zs) null
    pub out : has p (ys ++ zs) ≡ false
    pub first_out :
        (if last ys null == null then first zs null else first (ys ++ (p, v) ∷ zs) null)
        ≡ first (ys ++ zs) null
    pub last_out :
        (if first zs null == null then last ys null else last (ys ++ (p, v) ∷ zs) null)
        ≡ last (ys ++ zs) null
    pub old : h p ≡ some (node (last ys null) v (first zs null))
    pub kept_mid : mid p ≡ h p
    pub kept : after p ≡ h p
    pub elsewhere : (q : Ptr) → has q (ys ++ (p, v) ∷ zs) ≡ false → after q ≡ h q
    pub not_null : p ≢ null

  pub unlink_lem :
      (h : Heap V) (ys : Cells V) (p : Ptr) (v : V) (zs : Cells V)
      → Links h null (ys ++ (p, v) ∷ zs) null
      → Unlinked h ys p v zs
  unlink_lem h ys p v zs l =
      let (left, right, apart) = Links-split h null ys ((p, v) ∷ zs) null l in
      let (out, apart') = Apart-tail ys zs p v apart in
      let (mid, e1, k1, same1) = link_next-Written h ys p (first zs null) left in
      let zs1 =
        Links-frame h mid p zs null (λ q i. same1 q (Apart-out_right ys zs q apart' i)) right.3 in
      let (after, e2, k2, same2) = link_prev-Written mid zs p (last ys null) zs1 in
      let ys2 =
        Links-frame mid after null ys (first zs null) (λ q i. same2 q (Apart-out ys zs q apart' i))
          k1 in
      record {
        mid = mid;
        after = after;
        next_set = e1;
        prev_set = e2;
        links = Links-join after null ys zs null ys2 k2 apart';
        out = ground (arith, has-append p ys zs);
        first_out = first-unlinked h ys p v zs left;
        last_out = last-unlinked h ys p v zs right.3;
        old = right.1;
        kept_mid = same1 p out;
        kept = same2 p right.2 ∙ same1 p out;
        elsewhere = λ q o.
            let o' : (has q ys || has q ((p, v) ∷ zs)) ≡ false =
              rw (has-append q ys ((p, v) ∷ zs)) at o in
            same2 q (ground arith) ∙ same1 q (ground arith);
        not_null = right.0;
      }

  -- A node `p` is put between `ys` and `zs`: its neighbours are made to name it, and it to name
  -- them. `h` holds it with any links.
  pub record Inserted (h : Heap V) (ys : Cells V) (p : Ptr) (v : V) (zs : Cells V) : Type 0 where
    pub mid : Heap V
    pub after : Heap V
    pub next_set : link_next (last ys null) p h ≡ some mid
    pub prev_set :
        link_prev (first zs null) p (write mid p (some (node (last ys null) v (first zs null))))
        ≡ some after
    pub links : Links after null (ys ++ (p, v) ∷ zs) null
    pub kept_mid : (q : Ptr) → has q ys ≡ false → mid q ≡ h q
    pub kept : after p ≡ some (node (last ys null) v (first zs null))

  pub insert_lem :
      (h : Heap V) (ys : Cells V) (p : Ptr) (v : V) (zs : Cells V)
      → Links h null (ys ++ zs) null
      → p ≢ null
      → has p (ys ++ zs) ≡ false
      → Inserted h ys p v zs
  insert_lem h ys p v zs l nn out =
      let (left, right, apart) = Links-split h null ys zs null l in
      let out' : (has p ys || has p zs) ≡ false = rw (has-append p ys zs) at out in
      let out_l : has p ys ≡ false = ground arith in
      let out_r : has p zs ≡ false = ground arith in
      let (mid, e1, k1, same1) = link_next-Written h ys (first zs null) p left in
      let n = node (last ys null) v (first zs null) in
      let h3 : Heap V = write mid p (some n) in
      let zs1 =
        Links-frame h h3 (last ys null) zs null
          (λ q i. ground (arith, same1 q (Apart-out_right ys zs q apart i))) right in
      let (after, e2, k2, same2) = link_prev-Written h3 zs (last ys null) p zs1 in
      let ys1 = Links-write mid null ys p p (some n) out_l k1 in
      let ys2 = Links-frame h3 after null ys p (λ q i. same2 q (Apart-out ys zs q apart i)) ys1 in
      let at : after p ≡ some n = same2 p out_r ∙ ground arith in
      record {
        mid = mid;
        after = after;
        next_set = e1;
        prev_set = e2;
        links =
            Links-join after null ys ((p, v) ∷ zs) null ys2 (nn, at, out_r, k2)
              (Apart-cons ys zs p v out_l apart);
        kept_mid = same1;
        kept = at;
      }

  -- A node's data is replaced.
  pub Links-value :
      (h : Heap V) (ys : Cells V) (p : Ptr) (v w : V) (zs : Cells V)
      → Links h null (ys ++ (p, v) ∷ zs) null
      → Links
          (write h p (some (node (last ys null) w (first zs null))))
          null
          (ys ++ (p, w) ∷ zs)
          null
  Links-value h ys p v w zs l =
      let (left, right, apart) = Links-split h null ys ((p, v) ∷ zs) null l in
      let (out, apart') = Apart-tail ys zs p v apart in
      let n = some (node (last ys null) w (first zs null)) in
      Links-join (write h p n) null ys ((p, w) ∷ zs) null (Links-write h null ys p p n out left)
        (right.0, ground arith, right.2, Links-write h p zs null p n right.2 right.3)
        (Apart-cons ys zs p w out apart')

  pub first-value :
      (ys : Cells V) (p : Ptr) (v w : V) (zs : Cells V) (d : Ptr)
      → first (ys ++ (p, v) ∷ zs) d ≡ first (ys ++ (p, w) ∷ zs) d
  first-value [] p v w zs d = refl
  first-value (x ∷ ys) p v w zs d = refl

  pub last-value :
      (ys : Cells V) (p : Ptr) (v w : V) (zs : Cells V) (d : Ptr)
      → last (ys ++ (p, v) ∷ zs) d ≡ last (ys ++ (p, w) ∷ zs) d
  last-value [] p v w zs d = refl
  last-value ((r, u) ∷ ys) p v w zs d = last-value ys p v w zs r
