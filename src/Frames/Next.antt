-- ===== src/Frames/Next.antt =====
-- MmGetPhysicalPage of kernel/mm/physical.c where the page at `page_it` is free.
use sgos.Prelude.{
  ℕ, zero, suc, ◌+◌, ◌-◌, ◌*◌, ◌%◌, ◌^◌, ◌≤◌, ◌<◌, ◌≡◌, ◌≢◌, ◌∙◌, false, some, arith, ◌==◌, ltb,
}
use sgos.Frames.{Frames, find_free, get_page, search, take, set_ref}

-- The search ends at once.
find_free_first : (ref : ℕ → ℕ) (n i : ℕ) → 0 < n → ref i ≡ 0 → find_free ref n i ≡ some i
unfolding find_free
find_free_first ref zero i h e = absurd (omega arith)
find_free_first ref (suc n) i h e = ground arith

take_run :
    (s : Frames) (i : ℕ)
    → s.page_ref i ≡ 0
    → take s i
      ≡ (i * 4096 % 2 ^ 32, record s { page_ref = set_ref s.page_ref i 1; page_it = i + 1 })
unfolding take
take_run s i e = rw e

search_run :
    (s : Frames)
    → find_free s.page_ref (s.total_pages - s.page_it) s.page_it ≡ some s.page_it
    → search s ≡ take s s.page_it
unfolding search
search_run s e = rw (e, search)

pub get_page_next :
    (s : Frames)
    → s.page_used ≢ s.total_pages
    → s.page_front ≤ s.page_it
    → s.page_it < s.total_pages
    → s.page_ref s.page_it ≡ 0
    → get_page s ≡ (
      s.page_it * 4096 % 2 ^ 32,
      record s { page_ref = set_ref s.page_ref s.page_it 1; page_it = s.page_it + 1 },
    )
unfolding get_page
get_page_next s u lo hi free =
    let a : (s.page_used == s.total_pages) ≡ false = ground arith in
    let b : ltb s.page_it s.page_front ≡ false = ground arith in
    let f = find_free_first s.page_ref (s.total_pages - s.page_it) s.page_it (omega arith) free in
    rw (a, b) (search_run s f ∙ take_run s s.page_it free)
