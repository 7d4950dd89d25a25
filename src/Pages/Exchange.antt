-- ===== src/Pages/Exchange.antt =====
-- Two pages exchanged, or one page shared by two addresses (kernel/mm/physical.c).
use sgos.Prelude.{
  ℕ, ◌*◌, ◌%◌, ◌^◌, ◌<◌, ◌≡◌, ◌≢◌, refl, sym, ap, subst, ◌∙◌, Option, some, none, arith, ◌⊎◌, inl,
  inr, Option-cases, false, ◌+◌, ◌==◌, if◌then◌else◌,
}
use sgos.Prelude.Int.{pos}
use sgos.Prelude.Run.{ok}
use sgos.Frames.{Frames, increase_reference, outside}
use sgos.Frames.Counts.{increase_reference_counts}
use sgos.Paging.{
  Paging, set_word, frame, directory_slot, table_slot, find_page, map_page, new_entry, present,
  attribute,
}
use sgos.Paging.Entries.{attribute_lem}
use sgos.Paging.Translate.{
  IsPage, mapping, map_page_old, find_page_at, map_one_run, query_run, entry_is,
}
use sgos.Pages.{err_invalid, without_flag, swap_page, outputs, duplicate_page}

-- The entries of two addresses are in tables that are there, they are not one and the same, and no
-- table is one of the directories.
pub record Entries (dest da src sa : ℕ) (s : Paging) : Type 0 where
  pub dest_page : IsPage da
  pub src_page : IsPage sa
  pub dest_table : s.memory dest (directory_slot da) ≢ 0
  pub src_table : s.memory src (directory_slot sa) ≢ 0
  pub dest_dest : frame (s.memory dest (directory_slot da)) ≢ dest
  pub dest_src : frame (s.memory dest (directory_slot da)) ≢ src
  pub src_dest : frame (s.memory src (directory_slot sa)) ≢ dest
  pub src_src : frame (s.memory src (directory_slot sa)) ≢ src
  pub differ :
      frame (s.memory dest (directory_slot da)) ≡ frame (s.memory src (directory_slot sa))
      → table_slot da ≢ table_slot sa
  pub dest_fits : s.memory (frame (s.memory dest (directory_slot da))) (table_slot da) < 2 ^ 32
  pub src_fits : s.memory (frame (s.memory src (directory_slot sa))) (table_slot sa) < 2 ^ 32

-- The mappings of the two addresses, and that nothing else was written.
pub record Exchanged (dest da src sa : ℕ) (s t : Paging) (d r : Option (ℕ × ℕ)) : Type 0 where
  pub at_dest : find_page t.memory dest da ≡ d
  pub at_src : find_page t.memory src sa ≡ r
  pub others :
      (q j : ℕ)
      → ((q ≡ frame (s.memory dest (directory_slot da))) → j ≢ table_slot da)
      → ((q ≡ frame (s.memory src (directory_slot sa))) → j ≢ table_slot sa)
      → t.memory q j ≡ s.memory q j

-- The word that maps an address.
abbrev entry : ℕ → ℕ → Paging → ℕ
entry dir a s = s.memory (frame (s.memory dir (directory_slot a))) (table_slot a)

fits : (w : ℕ) → w < 2 ^ 32 → IsPage (frame w * 4096)
fits w b = omega arith

mod8 : (w : ℕ) → w % 8 % 8 ≡ w % 8
mod8 w = omega arith

duplicate_run :
    (dest da src sa : ℕ) (s t : Paging) (x y : ℕ × ℕ)
    → IsPage da
    → IsPage sa
    → find_page s.memory dest da ≡ some x
    → find_page s.memory src sa ≡ some y
    → present x.1 ≡ 0
    → IsPage y.0
    → (let s' : Paging = record s { frames = increase_reference y.0 s.frames } in
        let a = without_flag 2 y.1 in map_page src sa y.0 a 6 (map_page dest da y.0 a 6 s') ≡ t)
    → duplicate_page dest da src sa s ≡ ok (pos 0) t
unfolding duplicate_page
duplicate_run dest da src sa s t x y p q f g h j m =
    let s' : Paging = record s { frames = increase_reference y.0 s.frames } in
    let a = without_flag 2 y.1 in
    ground (
      arith,
      query_run dest da s p,
      query_run src sa s q,
      map_one_run dest da y.0 a 6 s' p j,
      map_one_run src sa y.0 a 6 (map_page dest da y.0 a 6 s') q j,
    )

read_only : (w : ℕ) → without_flag 2 (w % 8) % 8 ≡ without_flag 2 (w % 8)
read_only w = ground arith

swap_run :
    (dest da src sa : ℕ) (s t : Paging) (x y : ℕ × ℕ)
    → IsPage da
    → IsPage sa
    → find_page s.memory dest da ≡ some x
    → find_page s.memory src sa ≡ some y
    → IsPage y.0
    → IsPage x.0
    → map_page src sa x.0 x.1 6 (map_page dest da y.0 y.1 6 s) ≡ t
    → swap_page dest da src sa 6 s ≡ ok (pos 0) t
unfolding swap_page
swap_run dest da src sa s t x y p q f g i j m = ground (
  arith,
  query_run dest da s p,
  query_run src sa s q,
  map_one_run dest da y.0 y.1 6 s p i,
  map_one_run src sa x.0 x.1 6 (map_page dest da y.0 y.1 6 s) q j,
)

entry_mapping : (w : ℕ) → mapping (frame w * 4096) (w % 8) ≡ mapping (frame w * 4096) (attribute w)
entry_mapping w = ap (mapping (frame w * 4096)) (sym (attribute_lem w))

module _ (dest da src sa : ℕ) (s : Paging) (e : Entries dest da src sa s) where
  abbrev dt : ℕ
  dt = frame (s.memory dest (directory_slot da))

  abbrev st : ℕ
  st = frame (s.memory src (directory_slot sa))

  -- Both entries written, with `x` and `y`.
  abbrev both : ℕ → ℕ → ℕ → ℕ → ℕ
  both x y = set_word (set_word s.memory dt (table_slot da) x) st (table_slot sa) y

  both_dest : (x y : ℕ) → find_page (both x y) dest da ≡ mapping (frame x * 4096) (x % 8)
  both_dest x y =
      find_page_at (both x y) dest da (s.memory dest (directory_slot da)) x
        (ground (arith, e.dest_dest, e.src_dest)) e.dest_table (ground (arith, e.differ))

  both_src : (x y : ℕ) → find_page (both x y) src sa ≡ mapping (frame y * 4096) (y % 8)
  both_src x y =
      find_page_at (both x y) src sa (s.memory src (directory_slot sa)) y
        (ground (arith, e.dest_src, e.src_src)) e.src_table (ground arith)

  found_dest :
      find_page s.memory dest da ≡ mapping (frame (entry dest da s) * 4096) (entry dest da s % 8)
  found_dest = find_page_at s.memory dest da _ _ refl e.dest_table refl

  found_src :
      find_page s.memory src sa ≡ mapping (frame (entry src sa s) * 4096) (entry src sa s % 8)
  found_src = find_page_at s.memory src sa _ _ refl e.src_table refl

  -- Two mappings one after the other.
  first : (p1 a1 : ℕ) (f : Frames) → Paging
  first p1 a1 f = map_page dest da p1 a1 6 (record s { frames = f })

  first_lem :
      (p1 a1 : ℕ) (f : Frames)
      → map_page dest da p1 a1 6 (record s { frames = f }) ≡ record s {
        frames = f;
        memory = set_word s.memory dt (table_slot da) (new_entry p1 a1 6 (entry dest da s));
      }
  first_lem p1 a1 f = map_page_old dest da p1 a1 6 (record s { frames = f }) e.dest_table refl

  second_lem :
      (x p2 a2 : ℕ) (f : Frames)
      → let s' : Paging = record s {
        frames = f;
        memory = set_word s.memory dt (table_slot da) x;
      } in
        map_page src sa p2 a2 6 s'
        ≡ record s { frames = f; memory = both x (new_entry p2 a2 6 (entry src sa s)) }
  second_lem x p2 a2 f =
      let m : ℕ → ℕ → ℕ = set_word s.memory dt (table_slot da) x in
      let s' : Paging = record s { frames = f; memory = m } in
      let row : m src (directory_slot sa) ≡ s.memory src (directory_slot sa) =
        ground (arith, e.dest_src) in
      let old : m st (table_slot sa) ≡ s.memory st (table_slot sa) = ground (arith, e.differ) in
      map_page_old src sa p2 a2 6 s' (subst (λ w. w ≢ 0) (sym row) e.src_table) refl
      ∙ rw (row, old) refl

  abbrev wd : ℕ
  wd = entry dest da s

  abbrev ws : ℕ
  ws = entry src sa s

  -- The state after both entries were written.
  abbrev after : Frames → ℕ → ℕ → Paging
  after f x y = record s { frames = f; memory = both x y }

  exchanged :
      (f : Frames) (p1 p2 a1 a2 : ℕ)
      → IsPage p1
      → IsPage p2
      → Exchanged dest da src sa s
          (after f (new_entry p1 a1 6 wd) (new_entry p2 a2 6 ws))
          (mapping p1 (a1 % 8))
          (mapping p2 (a2 % 8))
  exchanged f p1 p2 a1 a2 i j = record {
    at_dest = both_dest _ _ ∙ entry_is p1 a1 wd i;
    at_src = both_src _ _ ∙ entry_is p2 a2 ws j;
    others = λ q j g h. ground arith;
  }

  -- MmSwapPhysicalPage with both flags, of two pages with tables: it returns 0, each address has
  -- the physical page and the attribute that the other one had, nothing else of the memory is
  -- written and no reference count changes.
  pub swap_page_exchanges :
      (t : Paging) × (swap_page dest da src sa 6 s ≡ ok (pos 0) t)
      × (t.frames ≡ s.frames)
      × Exchanged dest da src sa s t (find_page s.memory src sa) (find_page s.memory dest da)
  swap_page_exchanges = (
    after s.frames (new_entry (frame ws * 4096) (ws % 8) 6 wd)
        (new_entry (frame wd * 4096) (wd % 8) 6 ws),
    swap_run dest da src sa s _ _ _ e.dest_page e.src_page found_dest found_src (fits ws e.src_fits)
        (fits wd e.dest_fits)
        (rw (first_lem (frame ws * 4096) (ws % 8) s.frames)
          (second_lem _ (frame wd * 4096) (wd % 8) s.frames)),
    refl,
    rw (found_src, found_dest)
        (rw (mod8 ws, mod8 wd) at
          (exchanged s.frames (frame ws * 4096) (frame wd * 4096) (ws % 8) (wd % 8)
            (fits ws e.src_fits) (fits wd e.dest_fits))),
  )

  -- MmDuplicatePhysicalPage, of a page that is in use less than 255 times, for an address where none
  -- is present and where both addresses have a table: it returns 0, both addresses are mapped to
  -- that physical page without the right to write, nothing else of the memory is written, the count
  -- of the page is one higher, and that of every other page is as before.
  pub duplicate_page_shares :
      wd % 2 ≡ 0
      → outside s.frames (frame ws) ≡ false
      → s.frames.page_ref (frame ws) ≢ 0
      → s.frames.page_ref (frame ws) < 255
      → (t : Paging) × (duplicate_page dest da src sa s ≡ ok (pos 0) t)
        × ((j : ℕ)
            → t.frames.page_ref j
              ≡ (if j == frame ws then s.frames.page_ref (frame ws) + 1 else s.frames.page_ref j))
        × Exchanged dest da src sa s t
            (mapping (frame ws * 4096) (without_flag 2 (ws % 8)))
            (mapping (frame ws * 4096) (without_flag 2 (ws % 8)))
  duplicate_page_shares free o used lt =
      let p = frame ws * 4096 in
      let a = without_flag 2 (ws % 8) in
      let f = increase_reference p s.frames in
      let i = fits ws e.src_fits in
      (
        after f (new_entry p a 6 wd) (new_entry p a 6 ws),
        duplicate_run dest da src sa s _ _ _ e.dest_page e.src_page found_dest found_src
            (omega arith) i (rw (first_lem p a f) (second_lem _ p a f)),
        λ j. increase_reference_counts s.frames p (frame ws) j (omega arith) o used lt,
        rw (read_only ws) at (exchanged f p p a a i i),
      )

-- Where the source has no table, or the destination has a page that is present already,
-- MmDuplicatePhysicalPage returns -ERR_INVALID and changes nothing.
pub duplicate_page_refuses :
    (dest da src sa : ℕ) (s : Paging)
    → IsPage da
    → IsPage sa
    → ((find_page s.memory src sa ≡ none)
        ⊎ ((present (outputs (find_page s.memory dest da)).1 ≢ 0)))
    → duplicate_page dest da src sa s ≡ ok err_invalid s
unfolding duplicate_page
duplicate_page_refuses dest da src sa s p q (inl n) =
    ground (arith, query_run dest da s p, query_run src sa s q)
duplicate_page_refuses dest da src sa s p q (inr n) =
    elim (Option-cases (find_page s.memory src sa)) [
      | inl e ↦ ground (arith, query_run dest da s p, query_run src sa s q)
      | inr (x, e) ↦ ground (arith, query_run dest da s p, query_run src sa s q)
    ]
