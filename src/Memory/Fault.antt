-- ===== src/Memory/Fault.antt =====
-- The page faults of kernel/mm/physical.c: a page written to while it is shared, and a page of a
-- lazy allocation touched for the first time.
use sgos.Prelude.{
  ℕ, ◌/◌, ◌%◌, ◌^◌, ◌<◌, ◌≡◌, ◌≢◌, refl, sym, ap, subst, ◌∙◌, true, false, some, arith,
  if◌then◌else◌, if_true,
}
use sgos.Prelude.Int.{pos}
use sgos.Prelude.Run.{ok, and_then, pure}
use sgos.Frames.{get_page, free_page, get_reference, index}
use sgos.Frames.Scan.{Taken, get_page-Taken, get_page-IsFrames, get_page_aligned}
use sgos.Frames.Counts.{free_page-get_page}
use sgos.Virtual.{Vma, flagged}
use sgos.Paging.{Paging, directory_slot, find_page, map_page, map_one, query, map_attribute}
use sgos.Paging.Translate.{
  Held, Held-ne, Taken-Held, IsDirectory, IsPage, Mapped, IsDirectory-same, map_page-Mapped,
  map_page_old, map_one_run, query_run, mapping,
}
use sgos.Pages.{with_flag, acquire_page}
use sgos.Pages.Single.{IsDirectory-frames, release_page-acquire_page}
use sgos.Memory.{
  Memory, Range, is_kernel, range_of, find_vma, page_of, copy_page, copy_on_write, write_to,
  read_only_in, non_present_in, handle_read_only, handle_non_present, touch, attr_copy_on_write,
  alloc_lazy, alloc_zero,
}

page_of-IsPage : (addr : ℕ) → addr < 2 ^ 32 → IsPage (page_of addr)
page_of-IsPage addr lt = omega arith

-- The current memory after a page was taken and the old one copied to it.
abbrev copied : Memory → ℕ → Paging
copied s old =
    let r = get_page s.paging.frames in
    copy_page (old / 4096) (r.0 / 4096) (record s.paging { frames = r.1 })

copy_run :
    (s : Memory) (addr old attr : ℕ) (t : Paging)
    → (get_page s.paging.frames).0 ≢ 0
    → map_one s.directory addr (get_page s.paging.frames).0 attr 6 (copied s old) ≡ ok tt t
    → copy_on_write addr old attr s
      ≡ ok 1 (record s {
        paging = record t { frames = free_page (get_page s.paging.frames).0 t.frames };
      })
unfolding copy_on_write
copy_run s addr old attr t nz m = ground arith

write_run :
    (s : Memory) (addr old attr : ℕ) (v : Vma)
    → query s.directory addr s.paging ≡ ok (mapping old attr) s.paging
    → 1 < get_reference old s.paging.frames
    → write_to addr v s ≡ copy_on_write addr old v.attribute s
unfolding write_to
write_run s addr old attr v q lt = ground arith

read_only_step :
    (s : Memory) (addr : ℕ) (v : Vma)
    → flagged v.flag attr_copy_on_write ≡ true
    → read_only_in addr (some v) s ≡ write_to (page_of addr) v s
unfolding read_only_in
read_only_step s addr v c =
    ap (λ m. m s)
      (sym (if_true (flagged v.flag attr_copy_on_write) (write_to (page_of addr) v) (pure 0) c))

read_only_run :
    (s : Memory) (fuel addr : ℕ) (v : Vma)
    → find_vma (if is_kernel addr then Range.kernel_range else Range.user_range) fuel addr s
      ≡ ok (some v) s
    → flagged v.flag attr_copy_on_write ≡ true
    → handle_read_only fuel addr s ≡ write_to (page_of addr) v s
unfolding handle_read_only
read_only_run s fuel addr v f c =
    ap (λ m. and_then m (read_only_in addr)) f ∙ read_only_step s addr v c

touch_step :
    (s : Memory) (addr : ℕ) (v : Vma) (t : Paging)
    → flagged v.flag alloc_lazy ≡ true
    → flagged v.flag alloc_zero ≡ false
    → acquire_page s.directory (page_of addr) v.attribute map_attribute s.paging ≡ ok (pos 0) t
    → non_present_in addr (some v) s ≡ ok 1 (record s { paging = t })
unfolding non_present_in touch
touch_step s addr v t l z a = ground arith

module _ (s : Memory) (fuel addr : ℕ) (v : Vma) (lt : addr < 2 ^ 32)
    (is : IsDirectory s.directory s.paging)
    (table : s.paging.memory s.directory (directory_slot (page_of addr)) ≢ 0)
    (nz : (get_page s.paging.frames).0 ≢ 0) where
  abbrev new : ℕ
  new = (get_page s.paging.frames).0

  -- A page fault at an address of a lazy allocation, with a table and a free page, and where the
  -- page need not be cleared: MmHandleNonPresentPageFault returns 1, the page of the address is
  -- mapped to the free page, present and with the attribute of the allocation, all other pages of
  -- the directory stay as they were, and the directory stays well-formed.
  pub handle_non_present-Mapped :
      find_vma (range_of addr) fuel addr s ≡ ok (some v) s
      → flagged v.flag alloc_lazy ≡ true
      → flagged v.flag alloc_zero ≡ false
      → (t : Paging) × (handle_non_present fuel addr s ≡ ok 1 (record s { paging = t }))
        × Mapped s.directory (page_of addr) new (with_flag 1 v.attribute) s.paging t
        × IsDirectory s.directory t
  unfolding handle_non_present
  handle_non_present-Mapped f l z =
      let lent =
        release_page-acquire_page s.directory (page_of addr) v.attribute s.paging is
          (page_of-IsPage addr lt) table nz in
      (
        lent.lent,
        ap (λ m. and_then m (non_present_in addr)) f
            ∙ touch_step s addr v lent.lent l z lent.acquired,
        lent.mapped,
        lent.well_formed,
      )

  abbrev dir : ℕ
  dir = s.directory

  took : Taken s.paging.frames (get_page s.paging.frames).1 (index new)
  took = get_page-Taken s.paging.frames is.frames nz

  not_used : (j : ℕ) → Held s.paging.frames j → j ≢ new / 4096
  not_used j n = Held-ne s.paging.frames (get_page s.paging.frames).1 (index new) j took n

  copied-IsDirectory : (old : ℕ) → IsDirectory dir (copied s old)
  copied-IsDirectory old =
      let f = (get_page s.paging.frames).1 in
      let is1 =
        IsDirectory-frames dir s.paging f is (get_page-IsFrames s.paging.frames is.frames)
          λ j n. Taken-Held s.paging.frames f _ j took n in
      IsDirectory-same dir (record s.paging { frames = f }) (copied s old) is1 refl
        (λ i b. ground (arith, not_used dir is.dir_taken))

  same_row : (old i : ℕ) → (copied s old).memory dir i ≡ s.paging.memory dir i
  same_row old i = ground (arith, not_used dir is.dir_taken)

  -- A write to a page that is shared, in an allocation marked for copy on write, with a free page:
  -- MmHandleReadOnlyPageFault returns 1 and maps the address to the new page with the attribute of
  -- the allocation, but gives the new page back: its count is 0, as that of a free page, and every
  -- other count, that of the shared page too, is as before.
  pub handle_read_only_frees :
      (old attr : ℕ)
      → find_vma (if is_kernel addr then Range.kernel_range else Range.user_range) fuel addr s
        ≡ ok (some v) s
      → flagged v.flag attr_copy_on_write ≡ true
      → find_page s.paging.memory dir (page_of addr) ≡ some (old, attr)
      → 1 < get_reference old s.paging.frames
      → (t : Paging) × (handle_read_only fuel addr s ≡ ok 1 (record s { paging = t }))
        × (find_page t.memory dir (page_of addr) ≡ some (new, v.attribute % 8))
        × (t.frames.page_ref (index new) ≡ 0)
        × ((j : ℕ) → t.frames.page_ref j ≡ s.paging.frames.page_ref j)
  handle_read_only_frees old attr f c e shared =
      let a = page_of addr in
      let p = page_of-IsPage addr lt in
      let q = get_page_aligned s.paging.frames is.frames in
      let w = copied s old in
      let nz' = subst (λ z. z ≢ 0) (sym (same_row old (directory_slot a))) table in
      let (m, _) = map_page-Mapped dir a new v.attribute w (copied-IsDirectory old) p q nz' in
      let u = map_page dir a new v.attribute 6 w in
      let kept : u.frames ≡ (get_page s.paging.frames).1 =
        ap (λ z. z.frames) (map_page_old dir a new v.attribute 6 w nz' refl) in
      let back : (j : ℕ) → (free_page new u.frames).page_ref j ≡ s.paging.frames.page_ref j =
        λ j. rw kept (free_page-get_page s.paging.frames j is.frames nz) in
      (
        record u { frames = free_page new u.frames },
        read_only_run s fuel addr v f c
            ∙ write_run s a old attr v (query_run dir a s.paging p ∙ ap (λ z. ok z s.paging) e)
                shared
            ∙ copy_run s a old v.attribute u nz (map_one_run dir a new v.attribute 6 w p q),
        m.here,
        back (index new) ∙ took.was_free,
        back,
      )
