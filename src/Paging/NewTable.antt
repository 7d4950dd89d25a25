-- ===== src/Paging/NewTable.antt =====
-- ArMapOnePage where the directory has no table yet for the address (kernel/arch/i386/mmu/map.c).
use sgos.Prelude.{
  ℕ, ◌+◌, ◌*◌, ◌%◌, ◌<◌, ◌≡◌, ◌≢◌, ◌⊎◌, inl, inr, refl, sym, ap, subst, ◌∙◌, some, arith, ◌==◌,
  if◌then◌else◌, Bool-cases,
}
use sgos.Frames.{get_page, index}
use sgos.Frames.Scan.{Taken, get_page-Taken, get_page-IsFrames, get_page_aligned}
use sgos.Paging.{Paging, frame, directory_slot, table_slot, find_page, new_entry, map_page}
use sgos.Paging.Translate.{Held, Held-ne, Taken-Held, IsDirectory, IsPage, Mapped, entry_is}
use sgos.Paging.Building.{
  entry_of, entry_of_lem, built, built_dir, built_here, built_above, built_below, built_elsewhere,
  map_page_new,
}

-- What a mapping through a new table does.
pub record Tabled (dir virt phys attr : ℕ) (s t : Paging) : Type 0 where
  pub mapped : Mapped dir virt phys attr s t
  pub well_formed : IsDirectory dir t
  pub above :
      (other : ℕ)
      → directory_slot other ≡ directory_slot virt
      → table_slot virt < table_slot other
      → find_page t.memory dir other ≡ some (0, 0)
  pub below :
      (other : ℕ)
      → directory_slot other ≡ directory_slot virt
      → table_slot other < table_slot virt
      → let d = s.memory (index (get_page s.frames).0) (table_slot other) in
        find_page t.memory dir other ≡ some (frame d * 4096, d % 8)
  pub past_table : t.overrun ≡ s.overrun + table_slot virt

module _ (dir virt phys attr : ℕ) (s : Paging) (is : IsDirectory dir s) (p : IsPage virt)
    (q : IsPage phys) (z : s.memory dir (directory_slot virt) ≡ 0)
    (nz : (get_page s.frames).0 ≢ 0) where
  abbrev v : ℕ
  v = (get_page s.frames).0

  abbrev e : ℕ
  e = new_entry phys attr 6 0

  abbrev t : Paging
  t = record {
    frames = (get_page s.frames).1;
    memory = built s.memory dir virt (entry_of v) e;
    overrun = s.overrun + table_slot virt;
  }

  new_is : (frame (entry_of v) ≡ index v) × (entry_of v ≢ 0)
  new_is = entry_of_lem v (get_page_aligned s.frames is.frames).1

  took : Taken s.frames (get_page s.frames).1 (frame (entry_of v))
  took =
      subst (λ i. Taken s.frames (get_page s.frames).1 i) (sym new_is.0)
        (get_page-Taken s.frames is.frames nz)

  not_dir : frame (entry_of v) ≢ dir
  not_dir = ground (arith, Held-ne s.frames (get_page s.frames).1 _ dir took is.dir_taken)

  not_table : (i : ℕ) → i < 1024 → s.memory dir i ≢ 0 → frame (s.memory dir i) ≢ frame (entry_of v)
  not_table i b n = Held-ne s.frames (get_page s.frames).1 _ _ took (is.taken i b n)

  rows :
      (i : ℕ) → t.memory dir i ≡ (if i == directory_slot virt then entry_of v else s.memory dir i)
  rows i = built_dir s.memory dir virt (entry_of v) e new_is.1 not_dir p i

  row_cases :
      (i : ℕ)
      → ((i ≡ directory_slot virt) × (t.memory dir i ≡ entry_of v))
        ⊎ (t.memory dir i ≡ s.memory dir i)
  row_cases i = elim (Bool-cases (i == directory_slot virt)) [
    | inl w ↦ inl (ground arith, ground (arith, rows i))
    | inr w ↦ inr (ground (arith, rows i))
  ]

  ref_new : Held t.frames (frame (entry_of v))
  ref_new = inl (ground (arith, took.refs (frame (entry_of v))))

  ref_old : (j : ℕ) → Held s.frames j → Held t.frames j
  ref_old j n = Taken-Held s.frames (get_page s.frames).1 _ j took n

  well_formed : IsDirectory dir t
  well_formed = record {
    frames = get_page-IsFrames s.frames is.frames;
    dir_taken = ref_old dir is.dir_taken;
    taken = λ i b n. elim (row_cases i) [
      | inl (x, r) ↦ subst (λ w. Held t.frames (frame w)) (sym r) ref_new
      | inr r ↦
          subst (λ w. Held t.frames (frame w)) (sym r)
            (ref_old (frame (s.memory dir i)) (is.taken i b (subst (λ w. w ≢ 0) r n)))
    ];
    apart = λ i b n. elim (row_cases i) [
      | inl (x, r) ↦ subst (λ w. frame w ≢ dir) (sym r) not_dir
      | inr r ↦ subst (λ w. frame w ≢ dir) (sym r) (is.apart i b (subst (λ w. w ≢ 0) r n))
    ];
    distinct = λ i j b c n o f. elim (row_cases i) [
      | inl (x, r) ↦ elim (row_cases j) [
        | inl (y, r') ↦ x ∙ sym y
        | inr r' ↦
            absurd
              (not_table j c (subst (λ w. w ≢ 0) r' o) (ap frame (sym r') ∙ sym f ∙ ap frame r))
      ]
      | inr r ↦ elim (row_cases j) [
        | inl (y, r') ↦
            absurd (not_table i b (subst (λ w. w ≢ 0) r n) (ap frame (sym r) ∙ f ∙ ap frame r'))
        | inr r' ↦
            is.distinct i j b c (subst (λ w. w ≢ 0) r n) (subst (λ w. w ≢ 0) r' o)
              (ap frame (sym r) ∙ f ∙ ap frame r')
      ]
    ];
  }

  tabled : Tabled dir virt phys attr s t
  tabled = record {
    mapped = record {
      here =
          built_here s.memory dir virt (entry_of v) e new_is.1 not_dir p ∙ entry_is phys attr 0 q;
      elsewhere = λ other o ne n.
          built_elsewhere s.memory dir virt (entry_of v) e new_is.1 not_dir p other z n
            (not_table (directory_slot other) (omega arith) n)
            (is.apart (directory_slot other) (omega arith) n);
    };
    well_formed = well_formed;
    above = built_above s.memory dir virt (entry_of v) e new_is.1 not_dir p;
    below = λ other d lt.
        subst
          (λ i.
            let w = s.memory i (table_slot other) in
            find_page t.memory dir other ≡ some (frame w * 4096, w % 8))
          new_is.0 (built_below s.memory dir virt (entry_of v) e new_is.1 not_dir p other d lt);
    past_table = refl;
  }

  -- ArMapOnePage with an address and an attribute, where the directory has no table yet and there
  -- is a page for one: the page is mapped, the pages of all other tables are as before, and the
  -- directory stays well-formed. Of the new table only the entries above that of `virt` are clear;
  -- those below are what the page happened to hold, and as many words are cleared past its end.
  pub map_page-Tabled : Tabled dir virt phys attr s (map_page dir virt phys attr 6 s)
  map_page-Tabled =
      subst (λ u. Tabled dir virt phys attr s u)
        (sym (map_page_new dir virt phys attr v s z refl nz)) tabled
