-- ===== src/Pages/Single.antt =====
-- One page taken and given back (kernel/mm/physical.c).
use sgos.Prelude.{ℕ, ◌*◌, ◌%◌, ◌≡◌, ◌≢◌, refl, sym, ap, subst, ◌∙◌, arith}
use sgos.Prelude.Int.{pos}
use sgos.Prelude.Run.{ok}
use sgos.Frames.{Frames, get_page, free_page}
use sgos.Frames.Scan.{IsFrames, get_page-Taken, get_page-IsFrames, get_page_aligned}
use sgos.Frames.Counts.{free_page-get_page}
use sgos.Paging.{
  Paging, set_word, frame, directory_slot, table_slot, map_page, map_one, query, new_entry,
  map_attribute,
}
use sgos.Paging.Entries.{new_entry_attribute}
use sgos.Paging.Translate.{
  Held, Taken-Held, IsDirectory, IsPage, Mapped, mapping, map_page-Mapped, map_page_old,
  find_page-set_word, find_page_at, find_page-set_word_ne, map_one_run, query_run,
}
use sgos.Pages.{with_flag, acquire_page, release_page}

-- The allocator's state does not matter to a directory, as long as it keeps the pages it holds.
pub IsDirectory-frames :
    (dir : ℕ) (s : Paging) (f : Frames)
    → IsDirectory dir s
    → IsFrames f
    → ((j : ℕ) → Held s.frames j → Held f j)
    → IsDirectory dir (record s { frames = f })
IsDirectory-frames dir s f is g keep = record {
  frames = g;
  dir_taken = keep dir is.dir_taken;
  taken = λ i b n. keep (frame (s.memory dir i)) (is.taken i b n);
  apart = is.apart;
  distinct = is.distinct;
}

acquire_run :
    (dir addr attr : ℕ) (s t : Paging)
    → (get_page s.frames).0 ≢ 0
    → map_one dir addr
        (get_page s.frames).0
        (with_flag 1 attr)
        6
        (record s { frames = (get_page s.frames).1 })
      ≡ ok tt t
    → acquire_page dir addr attr map_attribute s ≡ ok (pos 0) t
unfolding acquire_page
acquire_run dir addr attr s t nz r = ground arith

release_run :
    (dir addr phys attr : ℕ) (s t : Paging)
    → query dir addr s ≡ ok (mapping phys attr) s
    → map_one dir addr 0 0 map_attribute s ≡ ok tt t
    → attr % 2 ≡ 1
    → release_page dir addr s ≡ ok tt (record t { frames = free_page phys t.frames })
unfolding release_page
release_run dir addr phys attr s t q r p = ground arith

with_present : (attr : ℕ) → with_flag 1 attr % 8 % 2 ≡ 1
with_present attr = ground arith

-- What taking a page for an address, and giving it back, come to.
pub record Lent (dir addr attr : ℕ) (s : Paging) : Type 0 where
  pub lent : Paging
  pub back : Paging
  pub acquired : acquire_page dir addr attr map_attribute s ≡ ok (pos 0) lent
  pub mapped : Mapped dir addr (get_page s.frames).0 (with_flag 1 attr) s lent
  pub well_formed : IsDirectory dir lent
  pub released : release_page dir addr lent ≡ ok tt back
  pub counts : (j : ℕ) → back.frames.page_ref j ≡ s.frames.page_ref j
  pub unmapped : Mapped dir addr (get_page s.frames).0 0 s back

some_pair : {a b c d : ℕ} → mapping a b ≡ mapping c d → (a ≡ c) × (b ≡ d)
some_pair h = ground arith

module _ (dir addr attr : ℕ) (s : Paging) (is : IsDirectory dir s) (p : IsPage addr)
    (old : s.memory dir (directory_slot addr) ≢ 0) (nz : (get_page s.frames).0 ≢ 0) where
  abbrev v : ℕ
  v = (get_page s.frames).0

  abbrev s1 : Paging
  s1 = record s { frames = (get_page s.frames).1 }

  is1 : IsDirectory dir s1
  is1 =
      IsDirectory-frames dir s (get_page s.frames).1 is (get_page-IsFrames s.frames is.frames)
        λ j n.
          Taken-Held s.frames (get_page s.frames).1 _ j (get_page-Taken s.frames is.frames nz) n

  q : IsPage v
  q = get_page_aligned s.frames is.frames

  abbrev s2 : Paging
  s2 = map_page dir addr v (with_flag 1 attr) 6 s1

  mapped2 : Mapped dir addr v (with_flag 1 attr) s1 s2 × IsDirectory dir s2
  mapped2 = map_page-Mapped dir addr v (with_flag 1 attr) s1 is1 p q old

  -- The word that maps the address, before and after it is made not present.
  abbrev w : ℕ
  w = s2.memory (frame (s2.memory dir (directory_slot addr))) (table_slot addr)

  abbrev w' : ℕ
  w' = new_entry 0 0 map_attribute w

  abbrev s3 : Paging
  s3 = map_page dir addr 0 0 map_attribute s2

  s2_lem : s2 ≡ record s1 {
    memory = set_word s.memory (frame (s.memory dir (directory_slot addr))) (table_slot addr) (
        new_entry v
          (with_flag 1 attr)
          6
          (s.memory (frame (s.memory dir (directory_slot addr))) (table_slot addr)));
  }
  s2_lem = map_page_old dir addr v (with_flag 1 attr) 6 s1 old refl

  same_slot : s2.memory dir (directory_slot addr) ≡ s.memory dir (directory_slot addr)
  same_slot = rw s2_lem (ground (arith, is.apart (directory_slot addr) (omega arith) old))

  s3_lem : s3 ≡ record s2 {
    memory = set_word s2.memory (frame (s2.memory dir (directory_slot addr))) (table_slot addr) w';
  }
  s3_lem = map_page_old dir addr 0 0 map_attribute s2 (subst (λ d. d ≢ 0) (sym same_slot) old) refl

  nz2 : s2.memory dir (directory_slot addr) ≢ 0
  nz2 = subst (λ d. d ≢ 0) (sym same_slot) old

  apart2 : frame (s2.memory dir (directory_slot addr)) ≢ dir
  apart2 = mapped2.1.apart (directory_slot addr) (omega arith) nz2

  -- What the entry holds is what the page is mapped to.
  entry2 : (frame w * 4096 ≡ v) × (w % 8 ≡ with_flag 1 attr % 8)
  entry2 = some_pair (sym (find_page_at s2.memory dir addr _ w refl nz2 refl) ∙ mapped2.0.here)

  entry3 : mapping (frame w' * 4096) (w' % 8) ≡ mapping v 0
  entry3 = ground (arith, new_entry_attribute 0 0 w, entry2)

  memory3 :
      s3.memory
      ≡ set_word s2.memory (frame (s2.memory dir (directory_slot addr))) (table_slot addr) w'
  memory3 = ap (λ u. u.memory) s3_lem

  frames3 : s3.frames ≡ (get_page s.frames).1
  frames3 = ap (λ u. u.frames) s3_lem ∙ ap (λ u. u.frames) s2_lem

  unmapped3 : Mapped dir addr v 0 s (record s3 { frames = free_page v s3.frames })
  unmapped3 = record {
    here = rw memory3 (
        find_page-set_word s2.memory dir addr (s2.memory dir (directory_slot addr)) w' refl nz2
          apart2
        ∙ entry3);
    elsewhere = λ other o ne n. rw memory3 (
        find_page-set_word_ne s2 dir addr other w' mapped2.1 p o ne nz2
        ∙ mapped2.0.elsewhere other o ne n);
  }

  pub release_page-acquire_page : Lent dir addr attr s
  release_page-acquire_page = record {
    lent = s2;
    back = record s3 { frames = free_page v s3.frames };
    acquired =
        acquire_run dir addr attr s s2 nz (map_one_run dir addr v (with_flag 1 attr) 6 s1 p q);
    mapped = record { here = mapped2.0.here; elsewhere = mapped2.0.elsewhere };
    well_formed = mapped2.1;
    released =
        release_run dir addr v (with_flag 1 attr % 8) s2 s3
          (query_run dir addr s2 p ∙ ap (λ r. ok r s2) mapped2.0.here)
          (map_one_run dir addr 0 0 map_attribute s2 p (ground arith)) (with_present attr);
    counts = λ j. rw frames3 (free_page-get_page s.frames j is.frames nz);
    unmapped = unmapped3;
  }
