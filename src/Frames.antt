-- ===== src/Frames.antt =====
-- kernel/mm/physical.c: the reference counts of the physical pages and their allocation.
-- The file's static variables are the record `Frames`; `page_ref` is a byte for each page.
-- An address is a number below 2 ^ 32, a page is 4096 bytes.
pub mod Scan
pub mod Counts
pub mod Next
mod Tests
pub mod Demo
use sgos.Prelude.{
  ℕ, zero, suc, ◌+◌, ◌-◌, ◌*◌, ◌/◌, ◌%◌, ◌^◌, Bool, Option, none, some, ◌||◌, ◌==◌, if◌then◌else◌,
  ltb, leb,
}

pub record Frames : Type 0 where
  pub total_pages : ℕ
  pub page_ref : ℕ → ℕ
  pub page_used : ℕ
  pub page_front : ℕ
  pub page_it : ℕ

abbrev pub page_size : ℕ
page_size = 4096

-- PAGE_INDEX_TO_PHYS_ADDR and PHYS_ADDR_TO_PAGE_INDEX.
abbrev pub address : ℕ → ℕ
address i = i * page_size % 2 ^ 32

abbrev pub index : ℕ → ℕ
index addr = addr / page_size

-- `page_ref[i] = c`
abbrev pub set_ref : (ℕ → ℕ) → ℕ → ℕ → ℕ → ℕ
set_ref f i c j = if j == i then c else f j

-- MmInitializePhysicalMemoryManagement, on memory whose bytes it clears.
unfoldable pub initialize : ℕ → Frames
initialize mem_size =
    let front = index 0x00400000 in
    record {
      total_pages = mem_size / page_size;
      page_ref = λ i. 0;
      page_used = front;
      page_front = front;
      page_it = front;
    }

-- The search loop, from page `i` on for `n` pages.
pub find_free : (ℕ → ℕ) → ℕ → ℕ → Option ℕ
find_free ref zero i = none
find_free ref (suc n) i = let rest = find_free ref n (i + 1) in if ref i == 0 then some i else rest

-- `page_ref[i]++` on a free page, and the page to begin with next time.
take : Frames → ℕ → ℕ × Frames
take s i = (
  address i,
  record s { page_ref = set_ref s.page_ref i ((s.page_ref i + 1) % 256); page_it = i + 1 },
)

-- From `page_it` to the end, then from the first page to `page_it`.
search : Frames → ℕ × Frames
unfolding take find_free
search s = elim (find_free s.page_ref (s.total_pages - s.page_it) s.page_it) [
  | some i ↦ take s i
  | none ↦ elim (find_free s.page_ref (s.page_it - s.page_front) s.page_front) [
    | some i ↦ take s i
    | none ↦ (0, s)
  ]
]

-- MmGetPhysicalPage: the address of a page, or 0.
pub get_page : Frames → ℕ × Frames
unfolding search
get_page s =
    if s.page_used == s.total_pages
    then (0, s)
    else search (if ltb s.page_it s.page_front then record s { page_it = s.page_front } else s)

abbrev pub outside : Frames → ℕ → Bool
outside s i = ltb i s.page_front || leb s.total_pages i

-- MmFreePhysicalPage
pub free_page : ℕ → Frames → Frames
free_page addr s =
    let i = index addr in
    if addr == 0
    then s
    else if outside s i
    then s
    else if s.page_ref i == 0
    then s
    else record s { page_ref = set_ref s.page_ref i (s.page_ref i - 1) }

-- IncreasePhysicalPageReference
pub increase_reference : ℕ → Frames → Frames
increase_reference addr s =
    let i = index addr in
    if outside s i
    then s
    else if s.page_ref i == 0
    then s
    else record s { page_ref = set_ref s.page_ref i ((s.page_ref i + 1) % 256) }

-- GetPhysicalPageReference
pub get_reference : ℕ → Frames → ℕ
get_reference addr s = let i = index addr in if outside s i then 0 else s.page_ref i
