-- ===== src/Paging/Translate.antt =====
-- What an address is mapped to, before and after ArMapOnePage (kernel/arch/i386/mmu/map.c).
use sgos.Prelude.{
  ℕ, ◌*◌, ◌%◌, ◌^◌, ◌<◌, ◌≡◌, ◌≢◌, ◌⊎◌, inl, inr, refl, sym, ap, subst, ◌∙◌, true, false, Option,
  some, none, arith, ◌==◌, Bool-cases,
}
use sgos.Frames.{Frames}
use sgos.Frames.Scan.{IsFrames, Taken}
use sgos.Paging.{
  Paging, set_word, frame, directory_slot, table_slot, find_page, has_flag, map_zero, new_entry,
  map_page, map_one, query,
}
use sgos.Prelude.Run.{ok}
use sgos.Paging.Entries.{attribute_lem, new_entry_lem}

-- The allocator does not give this page: it is in use, or it lies below the pages that are given
-- out, as the kernel's first directory and table do (0x00300000 and 0x00301000 of multiboot.S).
abbrev pub Held : Frames → ℕ → Type 0
Held f j = (f.page_ref j ≢ 0) ⊎ (j < f.page_front)

-- The page that is taken is none of them, and they stay held.
pub Held-ne : (f g : Frames) (i j : ℕ) → Taken f g i → Held f j → j ≢ i
Held-ne f g i j t (inl n) e = n (ap f.page_ref e ∙ t.was_free)
Held-ne f g i j t (inr lt) e = absurd (omega (arith, t.low))

pub Taken-Held : (f g : Frames) (i j : ℕ) → Taken f g i → Held f j → Held g j
Taken-Held f g i j t (inl n) = inl (ground (arith, t.refs j))
Taken-Held f g i j t (inr lt) = inr (subst (λ p. j < p) (sym t.keeps_front) lt)

-- The directory and its tables are pages that the allocator does not give, each table is that of
-- one entry only, and none is the directory itself.
pub record IsDirectory (dir : ℕ) (s : Paging) : Type 0 where
  pub frames : IsFrames s.frames
  pub dir_taken : Held s.frames dir
  pub taken : (i : ℕ) → i < 1024 → s.memory dir i ≢ 0 → Held s.frames (frame (s.memory dir i))
  pub apart : (i : ℕ) → i < 1024 → s.memory dir i ≢ 0 → frame (s.memory dir i) ≢ dir
  pub distinct :
      (i j : ℕ)
      → i < 1024
      → j < 1024
      → s.memory dir i ≢ 0
      → s.memory dir j ≢ 0
      → frame (s.memory dir i) ≡ frame (s.memory dir j)
      → i ≡ j

-- An address of a page.
abbrev pub IsPage : ℕ → Type 0
IsPage a = (a < 2 ^ 32) × (a % 4096 ≡ 0)

pub find_page_at :
    (m : ℕ → ℕ → ℕ) (dir virt de d : ℕ)
    → m dir (directory_slot virt) ≡ de
    → de ≢ 0
    → m (frame de) (table_slot virt) ≡ d
    → find_page m dir virt ≡ some (frame d * 4096, d % 8)
unfolding find_page
find_page_at m dir virt de d e nz f = ground (arith, attribute_lem d)

pub find_page-none :
    (m : ℕ → ℕ → ℕ) (dir virt : ℕ) → m dir (directory_slot virt) ≡ 0 → find_page m dir virt ≡ none
unfolding find_page
find_page-none m dir virt e = ground arith

-- The same table entry is the same page.
page_of_slots :
    (a b : ℕ)
    → IsPage a
    → IsPage b
    → directory_slot a ≡ directory_slot b
    → table_slot a ≡ table_slot b
    → a ≡ b
page_of_slots a b p q d t = omega arith

pub find_page_same :
    (m n : ℕ → ℕ → ℕ) (dir virt : ℕ)
    → n dir (directory_slot virt) ≡ m dir (directory_slot virt)
    → (m dir (directory_slot virt) ≢ 0
        → n (frame (m dir (directory_slot virt))) (table_slot virt)
          ≡ m (frame (m dir (directory_slot virt))) (table_slot virt))
    → find_page n dir virt ≡ find_page m dir virt
find_page_same m n dir virt e f = elim (Bool-cases (m dir (directory_slot virt) == 0)) [
  | inl z ↦ find_page-none n dir virt (e ∙ zero z) ∙ sym (find_page-none m dir virt (zero z))
  | inr z ↦
      find_page_at n dir virt _ _ e (nonzero z) (f (nonzero z))
      ∙ sym (find_page_at m dir virt _ _ refl (nonzero z) refl)
]
  where
    zero : {a : ℕ} → (a == 0) ≡ true → a ≡ 0
    zero h = ground arith

    nonzero : {a : ℕ} → (a == 0) ≡ false → a ≢ 0
    nonzero h = ground arith

-- A word written in the table of the directory entry for `virt`.
pub find_page-set_word :
    (m : ℕ → ℕ → ℕ) (dir virt de e : ℕ)
    → m dir (directory_slot virt) ≡ de
    → de ≢ 0
    → frame de ≢ dir
    → find_page (set_word m (frame de) (table_slot virt) e) dir virt ≡ some (frame e * 4096, e % 8)
find_page-set_word m dir virt de e at nz apart =
    find_page_at (set_word m (frame de) (table_slot virt) e) dir virt de e (ground arith) nz
      (ground arith)

pub find_page-set_word_ne :
    (s : Paging) (dir virt other e : ℕ)
    → IsDirectory dir s
    → IsPage virt
    → IsPage other
    → other ≢ virt
    → s.memory dir (directory_slot virt) ≢ 0
    → find_page
        (set_word s.memory (frame (s.memory dir (directory_slot virt))) (table_slot virt) e)
        dir
        other
      ≡ find_page s.memory dir other
find_page-set_word_ne s dir virt other e is p q ne nz =
    let i = directory_slot virt in
    let j = directory_slot other in
    let ap = is.apart i (omega arith) nz in
    find_page_same s.memory (set_word s.memory (frame (s.memory dir i)) (table_slot virt) e) dir
      other (ground arith) (λ nz'. ground (arith, is.distinct i j, page_of_slots virt other))

abbrev pub mapping : ℕ → ℕ → Option (ℕ × ℕ)
mapping phys attr = some (phys, attr)

pub entry_is :
    (phys attr old : ℕ)
    → IsPage phys
    → mapping (frame (new_entry phys attr 6 old) * 4096) (new_entry phys attr 6 old % 8)
      ≡ mapping phys (attr % 8)
entry_is phys attr old q = ground (arith, new_entry_lem phys attr old q.0)

-- What a mapping is to do to the translation of `virt`, and to that of all other pages.
pub record Mapped (dir virt phys attr : ℕ) (s t : Paging) : Type 0 where
  pub here : find_page t.memory dir virt ≡ some (phys, attr % 8)
  pub elsewhere :
      (other : ℕ)
      → IsPage other
      → other ≢ virt
      → s.memory dir (directory_slot other) ≢ 0
      → find_page t.memory dir other ≡ find_page s.memory dir other

pub IsDirectory-same :
    (dir : ℕ) (s t : Paging)
    → IsDirectory dir s
    → t.frames ≡ s.frames
    → ((i : ℕ) → i < 1024 → t.memory dir i ≡ s.memory dir i)
    → IsDirectory dir t
IsDirectory-same dir s t is f e = record {
  frames = rw f is.frames;
  dir_taken = rw f is.dir_taken;
  taken = λ i b. rw (e i b, f) (is.taken i b);
  apart = λ i b. rw (e i b) (is.apart i b);
  distinct = λ i j b c. rw (e i b, e j c) (is.distinct i j b c);
}

pub map_page_old :
    (dir virt phys attr flag : ℕ) (s : Paging)
    → s.memory dir (directory_slot virt) ≢ 0
    → has_flag map_zero flag ≡ false
    → map_page dir virt phys attr flag s ≡ record s {
      memory = set_word s.memory (frame (s.memory dir (directory_slot virt))) (table_slot virt) (
          new_entry phys attr flag
            (s.memory (frame (s.memory dir (directory_slot virt))) (table_slot virt)));
    }
unfolding map_page
map_page_old dir virt phys attr flag s nz f = ground arith

-- ArMapOnePage with an address and an attribute, in a table that is there: the page is mapped to
-- that address with that attribute, every other page of the directory as before, and the directory
-- stays well-formed.
pub map_page-Mapped :
    (dir virt phys attr : ℕ) (s : Paging)
    → IsDirectory dir s
    → IsPage virt
    → IsPage phys
    → s.memory dir (directory_slot virt) ≢ 0
    → Mapped dir virt phys attr s (map_page dir virt phys attr 6 s)
      × IsDirectory dir (map_page dir virt phys attr 6 s)
map_page-Mapped dir virt phys attr s is p q nz =
    let de = s.memory dir (directory_slot virt) in
    let old = s.memory (frame de) (table_slot virt) in
    let te = new_entry phys attr 6 old in
    let ap = is.apart (directory_slot virt) (omega arith) nz in
    let t : Paging = record s { memory = set_word s.memory (frame de) (table_slot virt) te } in
    subst (λ u. Mapped dir virt phys attr s u × IsDirectory dir u)
      (sym (map_page_old dir virt phys attr 6 s nz refl))
      (
        record {
          here = find_page-set_word s.memory dir virt de te refl nz ap ∙ entry_is phys attr old q;
          elsewhere = λ other o ne nz'. find_page-set_word_ne s dir virt other te is p o ne nz;
        },
        IsDirectory-same dir s t is refl (λ i b. ground arith),
      )

pub map_one_run :
    (dir virt phys attr flag : ℕ) (s : Paging)
    → IsPage virt
    → IsPage phys
    → map_one dir virt phys attr flag s ≡ ok tt (map_page dir virt phys attr flag s)
unfolding map_one
map_one_run dir virt phys attr flag s p q = ground arith

pub query_run :
    (dir virt : ℕ) (s : Paging)
    → IsPage virt
    → query dir virt s ≡ ok (find_page s.memory dir virt) s
unfolding query
query_run dir virt s p = ground arith
