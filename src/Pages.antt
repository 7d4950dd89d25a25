-- ===== src/Pages.antt =====
-- kernel/mm/physical.c, second half: pages of an address space. A space is named here by the page
-- of its directory. The error codes are those that the functions return.
pub mod Single
pub mod Exchange
mod Tests
use sgos.Prelude.{
  ℕ, zero, suc, ◌+◌, ◌-◌, ◌*◌, ◌/◌, ◌%◌, ◌^◌, Bool, true, false, not, Option, none, some, ◌==◌,
  if◌then◌else◌,
}
use sgos.Prelude.Int.{ℤ, pos, negsuc}
use sgos.Prelude.Run.{
  Run, ok, fault, blocked, out_of_fuel, Cmd, pure, and_then, ◌>>=◌, ◌>>◌, get, modify, when,
}
use sgos.Frames.{get_page, free_page, increase_reference}
use sgos.Paging.{Paging, has_flag, present, writable, map_address, map_attribute, query, map_one}

-- -ERR_NOMEM and -ERR_INVALID
abbrev pub err_nomem : ℤ
err_nomem = negsuc 0

abbrev pub err_invalid : ℤ
err_invalid = negsuc 9

-- `x | f` for a single bit `f`.
abbrev pub with_flag : ℕ → ℕ → ℕ
with_flag f x = if has_flag f x then x else x + f

-- `x & ~f` for a single bit `f`.
abbrev pub without_flag : ℕ → ℕ → ℕ
without_flag f x = if has_flag f x then x - f else x

-- MmGetPhysicalPage, MmFreePhysicalPage and IncreasePhysicalPageReference on the whole state.
abbrev pub take_page : Cmd Paging ℕ
take_page s = let r = get_page s.frames in ok r.0 (record s { frames = r.1 })

abbrev pub give_page : ℕ → Cmd Paging (Unit {0})
give_page phys = modify λ s. record s { frames = free_page phys s.frames }

abbrev pub share_page : ℕ → Cmd Paging (Unit {0})
share_page phys = modify λ s. record s { frames = increase_reference phys s.frames }

pub acquire_page : ℕ → ℕ → ℕ → ℕ → Cmd Paging ℤ
acquire_page dir addr attr flag = do
  phys ← take_page
  if phys == 0
      then pure err_nomem
      else map_one dir addr phys (with_flag 1 attr) (with_flag map_address flag) >> pure (pos 0)

abbrev is_zero : ℤ → Bool
is_zero (pos n) = n == 0
is_zero (negsuc n) = false

-- The loop of MmAcquireMultiplePhysicalPages with `count` pages to go.
acquire_pages : ℕ → ℕ → ℕ → ℕ → ℕ → ℕ → Cmd Paging ℕ
unfolding acquire_page
acquire_pages zero dir addr siz attr flag = pure siz
acquire_pages (suc count) dir addr siz attr flag = do
  r ← acquire_page dir addr attr flag
  if is_zero r
      then acquire_pages count dir ((addr + 4096) % 2 ^ 32) siz attr flag
      else pure (siz - suc count * 4096)

pub acquire_multiple : ℕ → ℕ → ℕ → ℕ → ℕ → Cmd Paging ℕ
unfolding acquire_pages
acquire_multiple dir addr siz attr flag = acquire_pages (siz / 4096) dir addr siz attr flag

-- Of MmReleasePhysicalPage, once the page is found.
release_found : ℕ → ℕ → ℕ → ℕ → Cmd Paging (Unit {0})
release_found dir addr phys attr = do
  map_one dir addr 0 0 map_attribute
  when (not (present attr == 0)) (give_page phys)

pub release_page : ℕ → ℕ → Cmd Paging (Unit {0})
unfolding release_found
release_page dir addr = do
  r ← query dir addr
  elim r [ none ↦ pure tt | some (phys, attr) ↦ release_found dir addr phys attr ]

release_pages : ℕ → ℕ → ℕ → Cmd Paging (Unit {0})
unfolding release_page
release_pages zero dir addr = pure tt
release_pages (suc count) dir addr = do
  release_page dir addr
  release_pages count dir ((addr + 4096) % 2 ^ 32)

pub release_multiple : ℕ → ℕ → ℕ → Cmd Paging (Unit {0})
unfolding release_pages
release_multiple dir addr siz = release_pages (siz / 4096) dir addr

-- What a query leaves in its two outputs, 0 before.
abbrev pub outputs : Option (ℕ × ℕ) → ℕ × ℕ
outputs none = (0, 0)
outputs (some r) = r

pub swap_page : ℕ → ℕ → ℕ → ℕ → ℕ → Cmd Paging ℤ
swap_page dest dest_addr src src_addr flag = do
  d ← query dest dest_addr
  s ← query src src_addr
  map_one dest dest_addr (outputs s).0 (outputs s).1 flag
  map_one src src_addr (outputs d).0 (outputs d).1 flag
  pure (pos 0)

-- Both spaces map the page, without the right to write.
share_found : ℕ → ℕ → ℕ → ℕ → ℕ → ℕ → Cmd Paging ℤ
share_found dest dest_addr src src_addr phys attr = do
  share_page phys
  map_one dest dest_addr phys (without_flag 2 attr) (map_address + map_attribute)
  map_one src src_addr phys (without_flag 2 attr) (map_address + map_attribute)
  pure (pos 0)

-- Of MmDuplicatePhysicalPage, once the page to share is found.
duplicate_found : ℕ → ℕ → ℕ → ℕ → ℕ → ℕ → Cmd Paging ℤ
unfolding share_found
duplicate_found dest dest_addr src src_addr phys attr = do
  d ← query dest dest_addr
  if present (outputs d).1 == 0
      then share_found dest dest_addr src src_addr phys attr
      else pure err_invalid

pub duplicate_page : ℕ → ℕ → ℕ → ℕ → Cmd Paging ℤ
unfolding duplicate_found
duplicate_page dest dest_addr src src_addr = do
  s ← query src src_addr
  elim s [
    | none ↦ pure err_invalid
    | some (phys, attr) ↦ duplicate_found dest dest_addr src src_addr phys attr
  ]
