-- ===== src/Allocator/Chains.antt =====
-- The free table of kernel/mm/allocator.c: HASH_DELETE and HASH_APPEND on its chains.
use sgos.Prelude.{
  ℕ, ◌≡◌, ◌≢◌, refl, ◌∙◌, inl, inr, Bool, true, false, Bool-cases, Option, none, some, [], ◌∷◌,
  ◌++◌, ◌||◌, ◌==◌, if◌then◌else◌, arith, sym, subst, ap,
}
use sgos.Prelude.Run.{ok, step}
use sgos.Dll.{Ptr, null, node, Heap, link_next, link_prev, write}
use sgos.Dll.Links.{Cells, has, first, last, Links, Links-frame, Links-write}
use sgos.Dll.Splice.{Unlinked, unlink_lem}
use sgos.Dll.Heads.{Headed, head_lem, has-insert}
use sgos.Allocator.{Allocator, is_null, set_head, hash_append, hash_delete}
use sgos.Allocator.Steps.{retabled, read_hash_lem, unhook_lem, guarded_hash_prev}

abbrev pub is_slot : ℕ → Option ℕ → Bool
is_slot i none = false
is_slot i (some j) = j == i

-- `slot q` is the chain that the node at `q` is in. No node is in two chains.
pub record Filed (table : ℕ → Ptr) (hashes : Heap (Unit {0})) (slot : Ptr → Option ℕ) : Type 0 where
  pub chain : ℕ → Cells (Unit {0})
  pub heads : (i : ℕ) → table i ≡ first (chain i) null
  pub links : (i : ℕ) → Links hashes null (chain i) null
  pub members : (i : ℕ) (q : Ptr) → has q (chain i) ≡ is_slot i (slot q)

abbrev pub unfile : Ptr → (Ptr → Option ℕ) → Ptr → Option ℕ
unfile p slot q = if q == p then none else slot q

abbrev pub file : Ptr → ℕ → (Ptr → Option ℕ) → Ptr → Option ℕ
file p j slot q = if q == p then some j else slot q

pub Filed-slot :
    {table : ℕ → Ptr} {hashes : Heap (Unit {0})} {slot slot' : Ptr → Option ℕ}
    → ((q : Ptr) → slot' q ≡ slot q)
    → Filed table hashes slot
    → Filed table hashes slot'
Filed-slot same f = record {
  chain = f.chain;
  heads = f.heads;
  links = f.links;
  members = λ i q. f.members i q ∙ ap (is_slot i) (sym (same q));
}

-- The place of a node in its chain.
pub has-split :
    (p : Ptr) (xs : Cells (Unit {0}))
    → has p xs ≡ true
    → (ys : Cells (Unit {0})) × (zs : Cells (Unit {0})) × (xs ≡ ys ++ (p, tt) ∷ zs)
has-split p [] h = absurd (cc)
has-split p ((r, v) ∷ xs) h = elim (Bool-cases (p == r)) [
  | inl e ↦ ([], xs, ground arith)
  | inr e ↦
      let (ys, zs, k) = has-split p xs (ground arith) in ((r, v) ∷ ys, zs, ap (λ t. (r, v) ∷ t) k)
]

-- No node of chain `i` is in another chain `j`.
out_of_chain :
    (i j : ℕ) (o : Option ℕ) → (i == j) ≡ false → is_slot i o ≡ true → is_slot j o ≡ false
out_of_chain i j none d h = refl
out_of_chain i j (some k) d h = ground arith

abbrev put : ℕ → Cells (Unit {0}) → (ℕ → Cells (Unit {0})) → ℕ → Cells (Unit {0})
put j xs chain i = if i == j then xs else chain i

-- Another chain than `j`, where the links changed at the nodes `xs` of `j` only.
other_chain :
    (h g : Heap (Unit {0})) (slot : Ptr → Option ℕ) (xs : Cells (Unit {0})) (i j : ℕ)
    → ((q : Ptr) → is_slot j (slot q) ≡ false → g q ≡ h q)
    → (i == j) ≡ false
    → ((q : Ptr) → has q xs ≡ is_slot i (slot q))
    → Links h null xs null
    → Links g null xs null
other_chain h g slot xs i j same d m l =
    Links-frame h g null xs null (λ q k. same q (out_of_chain i j (slot q) d (ground (arith, m q))))
      l

-- The members of chain `j` once `p` has left it.
member_deleted :
    (q p j : ℕ) (ys zs : Cells (Unit {0})) (slot : Ptr → Option ℕ)
    → has q (ys ++ (p, tt) ∷ zs) ≡ is_slot j (slot q)
    → has p (ys ++ zs) ≡ false
    → has q (ys ++ zs) ≡ is_slot j (unfile p slot q)
member_deleted q p j ys zs slot m out = elim (Bool-cases (q == p)) [
  | inl e ↦
      let e' : q ≡ p = ground arith in rw (e) (subst (λ r. has r (ys ++ zs) ≡ false) (sym e') out)
  | inr d ↦ ground (arith, has-insert q p tt ys zs)
]

member_other :
    (q p i j : ℕ) (slot : Ptr → Option ℕ)
    → slot p ≡ some j
    → (i == j) ≡ false
    → is_slot i (slot q) ≡ is_slot i (unfile p slot q)
member_other q p i j slot e d = elim (Bool-cases (q == p)) [
  | inl k ↦
      let k' : q ≡ p = ground arith in
      rw (k) (ap (λ r. is_slot i (slot r)) k' ∙ ap (is_slot i) e ∙ ground arith)
  | inr k ↦ rw k
]

-- The heads of the chains when the node between `ys` and `zs` has left chain `j`.
abbrev deleted_heads : Allocator → ℕ → Cells (Unit {0}) → Cells (Unit {0}) → ℕ → Ptr
deleted_heads a j ys zs =
    if is_null (last ys null) then (set_head j (first zs null) a).free_table else a.free_table

delete_links :
    (a : Allocator) (p j b c : ℕ) (mid after : Heap (Unit {0}))
    → p ≢ null
    → a.hashes p ≡ some (node b tt c)
    → mid p ≡ some (node b tt c)
    → link_next b c a.hashes ≡ some mid
    → link_prev c b mid ≡ some after
    → hash_delete p j a
      ≡ ok tt (retabled a (if is_null b then (set_head j c a).free_table else a.free_table) after)
unfolding hash_delete
delete_links a p j b c mid after nn e e' n k =
    step _ (read_hash_lem a p nn e)
    ∙ step _ (unhook_lem a j b c n)
    ∙ step _ (read_hash_lem _ p nn e')
    ∙ guarded_hash_prev _ c b k

heads_deleted :
    (a : Allocator) (j n m : ℕ) (ys zs : Cells (Unit {0}))
    → a.free_table j ≡ n
    → (if last ys null == null then first zs null else n) ≡ m
    → deleted_heads a j ys zs j ≡ m
heads_deleted a j n m ys zs e k = ground arith

heads_kept :
    (a : Allocator) (i j : ℕ) (ys zs : Cells (Unit {0}))
    → (i == j) ≡ false
    → deleted_heads a j ys zs i ≡ a.free_table i
heads_kept a i j ys zs d = elim (Bool-cases (is_null (last ys null))) [
  | inl e ↦ ground arith
  | inr e ↦ ground arith
]

delete_at :
    (a : Allocator) (slot : Ptr → Option ℕ) (p : Ptr) (j : ℕ) (ys zs : Cells (Unit {0}))
    → (f : Filed a.free_table a.hashes slot) → slot p ≡ some j
    → f.chain j ≡ ys ++ (p, tt) ∷ zs
    → (u : Unlinked a.hashes ys p tt zs) → Filed (deleted_heads a j ys zs) u.after (unfile p slot)
delete_at a slot p j ys zs f e k u =
    let mem : (q : Ptr) → has q (ys ++ (p, tt) ∷ zs) ≡ is_slot j (slot q) =
      λ q. subst (λ xs. has q xs ≡ is_slot j (slot q)) k (f.members j q) in
    record {
      chain = put j (ys ++ zs) f.chain;
      heads = λ i. elim (Bool-cases (i == j)) [
        | inl e' ↦
            let ij : j ≡ i = ground arith in
            rw e' (
              subst (λ n. deleted_heads a j ys zs n ≡ first (ys ++ zs) null) ij
                (heads_deleted a j _ _ ys zs (f.heads j ∙ ap (λ xs. first xs null) k) u.first_out))
        | inr d ↦ rw d (heads_kept a i j ys zs d ∙ f.heads i)
      ];
      links = λ i. elim (Bool-cases (i == j)) [
        | inl e ↦ rw e u.links
        | inr d ↦ rw d (
            other_chain a.hashes u.after slot (f.chain i) i j (λ q o. u.elsewhere q (mem q ∙ o)) d
              (f.members i) (f.links i))
      ];
      members = λ i q. elim (Bool-cases (i == j)) [
        | inl c ↦
            let c' : j ≡ i = ground arith in
            rw c (
              subst (λ n. has q (ys ++ zs) ≡ is_slot n (unfile p slot q)) c'
                (member_deleted q p j ys zs slot (mem q) u.out))
        | inr d ↦ rw d (f.members i q ∙ member_other q p i j slot e d)
      ];
    }

-- HASH_DELETE takes a node out of the chain that it is in.
pub hash_delete_lem :
    (a : Allocator) (slot : Ptr → Option ℕ) (p : Ptr) (j : ℕ)
    → Filed a.free_table a.hashes slot
    → slot p ≡ some j
    → (t : ℕ → Ptr) × (h : Heap (Unit {0})) × (hash_delete p j a ≡ ok tt (retabled a t h))
      × Filed t h (unfile p slot)
hash_delete_lem a slot p j f e =
    let (ys, zs, k) = has-split p (f.chain j) (f.members j p ∙ ap (is_slot j) e ∙ ground arith) in
    let u =
      unlink_lem a.hashes ys p tt zs (subst (λ xs. Links a.hashes null xs null) k (f.links j)) in
    (
      deleted_heads a j ys zs,
      u.after,
      delete_links a p j (last ys null) (first zs null) u.mid u.after u.not_null u.old
          (u.kept_mid ∙ u.old) u.next_set u.prev_set,
      delete_at a slot p j ys zs f e k u,
    )

append_run :
    (a : Allocator) (p j : ℕ) (xs : Cells (Unit {0}))
    → p ≢ null
    → a.free_table j ≡ first xs null
    → (t : Headed (write a.hashes p (some (node null tt (first xs null)))) p tt xs)
    → hash_append p j a ≡ ok tt (retabled a (set_head j p a).free_table t.after)
unfolding hash_append
append_run a p j xs nn e t =
    rw e (step _ (guarded_hash_prev (retabled a a.free_table _) (first xs null) p t.prev_set))

not_loose :
    (q p i : ℕ) (slot : Ptr → Option ℕ)
    → slot p ≡ none
    → is_slot i (slot q) ≡ true
    → (q == p) ≡ false
not_loose q p i slot e h = elim (Bool-cases (q == p)) [
  | inl k ↦
      let k' : q ≡ p = ground arith in
      absurd (cc (subst (λ r. is_slot i (slot r) ≡ true) k' h, ap (is_slot i) e))
  | inr d ↦ d
]

member_added :
    (q p i j : ℕ) (slot : Ptr → Option ℕ) (here : Bool)
    → here ≡ is_slot i (slot q)
    → (i == j) ≡ true
    → ((q == p) || here) ≡ is_slot i (file p j slot q)
member_added q p i j slot here e c = elim (Bool-cases (q == p)) [
  | inl k ↦ rw k (ground arith)
  | inr k ↦ rw k e
]

member_apart :
    (q p i j : ℕ) (slot : Ptr → Option ℕ)
    → slot p ≡ none
    → (i == j) ≡ false
    → is_slot i (slot q) ≡ is_slot i (file p j slot q)
member_apart q p i j slot e d = elim (Bool-cases (q == p)) [
  | inl k ↦
      let k' : q ≡ p = ground arith in
      rw k (ap (λ r. is_slot i (slot r)) k' ∙ ap (is_slot i) e ∙ ground arith)
  | inr k ↦ rw k
]

append_at :
    (a : Allocator) (slot : Ptr → Option ℕ) (p : Ptr) (j : ℕ)
    → (f : Filed a.free_table a.hashes slot) → slot p ≡ none
    → p ≢ null
    → (t : Headed
        (write a.hashes p (some (node null tt (first (f.chain j) null))))
        p
        tt
        (f.chain j))
    → Filed (set_head j p a).free_table t.after (file p j slot)
append_at a slot p j f e nn t =
    let out : has p (f.chain j) ≡ false = f.members j p ∙ ap (is_slot j) e in
    record {
      chain = put j ((p, tt) ∷ f.chain j) f.chain;
      heads = λ i. elim (Bool-cases (i == j)) [ inl c ↦ rw c refl | inr d ↦ rw d (f.heads i) ];
      links = λ i. elim (Bool-cases (i == j)) [
        | inl c ↦ rw c (nn, t.kept ∙ ground arith, out, t.links)
        | inr d ↦ rw d (
            Links-frame a.hashes t.after null (f.chain i) null
              (λ q h.
                let m = sym (f.members i q) ∙ h in
                let d' = not_loose q p i slot e m in
                t.elsewhere q (f.members j q ∙ out_of_chain i j (slot q) d m) ∙ ground arith)
              (f.links i))
      ];
      members = λ i q. elim (Bool-cases (i == j)) [
        | inl c ↦
            let c' : j ≡ i = ground arith in
            rw c (
              member_added q p i j slot (has q (f.chain j))
                (subst (λ n. has q (f.chain j) ≡ is_slot n (slot q)) c' (f.members j q)) c)
        | inr d ↦ rw d (f.members i q ∙ member_apart q p i j slot e d)
      ];
    }

-- HASH_APPEND puts a node that is in no chain at the head of one.
pub hash_append_lem :
    (a : Allocator) (slot : Ptr → Option ℕ) (p : Ptr) (j : ℕ)
    → Filed a.free_table a.hashes slot
    → slot p ≡ none
    → p ≢ null
    → (t : ℕ → Ptr) × (h : Heap (Unit {0})) × (hash_append p j a ≡ ok tt (retabled a t h))
      × Filed t h (file p j slot)
hash_append_lem a slot p j f e nn =
    let out : has p (f.chain j) ≡ false = f.members j p ∙ ap (is_slot j) e in
    let t =
      head_lem (write a.hashes p (some (node null tt (first (f.chain j) null)))) p tt (f.chain j)
        (Links-write a.hashes null (f.chain j) null p _ out (f.links j)) out in
    (
      (set_head j p a).free_table,
      t.after,
      append_run a p j (f.chain j) nn (f.heads j) t,
      append_at a slot p j f e nn t,
    )
