-- ===== src/Allocator/Coalesce.antt =====
-- The list of the blocks with neighbouring free blocks made one, which mm_free of
-- kernel/mm/allocator.c keeps up.
use sgos.Prelude.{
  ℕ, ◌+◌, ◌≡◌, refl, ◌∙◌, ap, inl, inr, true, false, ◌&&◌, Bool-cases, [], ◌∷◌, ◌++◌, if◌then◌else◌,
  arith,
}
use sgos.Dll.{Ptr}
use sgos.Dll.Links.{Cells}
use sgos.Allocator.{Block, is_free}
use sgos.Allocator.Shape.{Coalesced, starts_free}
use sgos.Allocator.Merge.{joined}

abbrev pub glue : Ptr → Block → Cells Block → Cells Block
glue p b [] = (p, b) ∷ []
glue p b ((q, c) ∷ xs) =
    if is_free b && is_free c then (p, joined b c) ∷ xs else (p, b) ∷ (q, c) ∷ xs

unfoldable pub coalesce : Cells Block → Cells Block
coalesce [] = []
coalesce ((p, b) ∷ xs) = glue p b (coalesce xs)

pub glue_apart :
    (p : Ptr) (b : Block) (xs : Cells Block)
    → (is_free b ≡ true → starts_free xs ≡ false)
    → glue p b xs ≡ (p, b) ∷ xs
glue_apart p b [] h = refl
glue_apart p b ((q, c) ∷ xs) h = elim (Bool-cases (is_free b)) [
  | inl f ↦ rw (f, h f)
  | inr f ↦ rw f
]

pub coalesce_same : (xs : Cells Block) → Coalesced xs → coalesce xs ≡ xs
unfolding coalesce
coalesce_same [] h = refl
coalesce_same ((p, b) ∷ xs) h = rw (coalesce_same xs h.1) (glue_apart p b xs h.0)

glue-Coalesced : (p : Ptr) (b : Block) (xs : Cells Block) → Coalesced xs → Coalesced (glue p b xs)
glue-Coalesced p b [] h = ((λ f. refl), tt)
glue-Coalesced p b ((q, c) ∷ xs) h = elim (Bool-cases (is_free b)) [
  | inl f ↦ elim (Bool-cases (is_free c)) [
    | inl k ↦ rw (f, k) ((λ j. h.0 k), h.1)
    | inr k ↦ rw (f, k) ((λ j. k), h)
  ]
  | inr f ↦ rw f ((λ j. absurd (ground arith)), h)
]

pub coalesce-Coalesced : (xs : Cells Block) → Coalesced (coalesce xs)
unfolding coalesce
coalesce-Coalesced [] = tt
coalesce-Coalesced ((p, b) ∷ xs) = glue-Coalesced p b (coalesce xs) (coalesce-Coalesced xs)

starts_free-glue : (p : Ptr) (b : Block) (xs : Cells Block) → starts_free (glue p b xs) ≡ is_free b
starts_free-glue p b [] = refl
starts_free-glue p b ((q, c) ∷ xs) = elim (Bool-cases (is_free b && is_free c)) [
  | inl k ↦ rw k
  | inr k ↦ rw k
]

starts_free_before :
    (ys : Cells Block) (q : Ptr) (c : Block) (us vs : Cells Block)
    → starts_free (ys ++ glue q c us) ≡ starts_free (ys ++ (q, c) ∷ vs)
starts_free_before [] q c us vs = starts_free-glue q c us
starts_free_before ((r, d) ∷ ys) q c us vs = refl

-- Blocks in front that were coalesced stay as they are.
pub coalesce_before :
    (ys : Cells Block) (q : Ptr) (c : Block) (vs ws : Cells Block)
    → Coalesced (ys ++ (q, c) ∷ vs)
    → coalesce (ys ++ (q, c) ∷ ws) ≡ ys ++ glue q c (coalesce ws)
unfolding coalesce
coalesce_before [] q c vs ws h = refl
coalesce_before ((r, d) ∷ ys) q c vs ws h = rw (coalesce_before ys q c vs ws h.1) (
    glue_apart r d (ys ++ glue q c (coalesce ws))
      (λ f. starts_free_before ys q c (coalesce ws) vs ∙ h.0 f))

pub Coalesced-tail :
    (ys : Cells Block) (q : Ptr) (c : Block) (vs : Cells Block)
    → Coalesced (ys ++ (q, c) ∷ vs)
    → Coalesced ((q, c) ∷ vs)
Coalesced-tail [] q c vs h = h
Coalesced-tail ((r, d) ∷ ys) q c vs h = Coalesced-tail ys q c vs h.1

joined_assoc : (b c d : Block) → joined b (joined c d) ≡ joined (joined b c) d
joined_assoc b c d =
    let e : b.size + (c.size + (d.size + 24) + 24) ≡ b.size + (c.size + 24) + (d.size + 24) =
      omega arith in
    ap (λ (n : ℕ). record b { size = n }) e

-- Three in a row become one whichever are joined first.
pub glue_twice :
    (q : Ptr) (c : Block) (p : Ptr) (b : Block) (zs : Cells Block)
    → is_free c ≡ true
    → is_free b ≡ true
    → glue q c (glue p b zs) ≡ glue q (joined c b) zs
glue_twice q c p b [] fc fb = rw (fc, fb)
glue_twice q c p b ((r, d) ∷ zs) fc fb = elim (Bool-cases (is_free d)) [
  | inl k ↦ rw (fb, k) (rw (fc, fb) (ap (λ v. (q, v) ∷ zs) (joined_assoc c b d)))
  | inr k ↦ rw (fb, k) (rw (fc, fb))
]
