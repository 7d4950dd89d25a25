-- ===== src/Paging.antt =====
-- kernel/arch/i386/mmu/map.c: the page tables. `memory` is the physical memory, by page number and
-- word; a page directory is named by the number of the page that holds it, and so is a page table.
-- An entry is the word of the union PAGE_TABLE: its bits 0, 1 and 2 are `present`, `write` and
-- `user`, the upper 20 bits are `physicalAddress`. The temporary page through which the code reaches
-- a table is not kept; the words that the code writes past it are counted in `overrun`. The TLB is
-- not modelled. A failed ASSERT ends the run as `fault`.
pub mod Entries
pub mod Translate
pub mod Building
pub mod NewTable
pub mod Boot
pub mod Demo
mod Tests
use sgos.Prelude.{
  ℕ, zero, suc, ◌+◌, ◌-◌, ◌*◌, ◌/◌, ◌%◌, ◌^◌, Bool, true, false, not, ◌&&◌, ◌||◌, Option, none,
  some, ◌==◌, if◌then◌else◌, leb,
}
use sgos.Prelude.Run.{
  Run, ok, fault, blocked, out_of_fuel, Cmd, pure, and_then, ◌>>=◌, ◌>>◌, get, modify, when,
}
use sgos.Frames.{Frames, get_page}

pub record Paging : Type 0 where
  pub frames : Frames
  pub memory : ℕ → ℕ → ℕ
  pub overrun : ℕ

abbrev pub set_word : (ℕ → ℕ → ℕ) → ℕ → ℕ → ℕ → ℕ → ℕ → ℕ
set_word m p k v q j = if (q == p) && (j == k) then v else m q j

-- The fields of an entry, read and written.
abbrev pub present : ℕ → ℕ
present w = w % 2

abbrev pub writable : ℕ → ℕ
writable w = w / 2 % 2

abbrev pub user : ℕ → ℕ
user w = w / 4 % 2

abbrev pub frame : ℕ → ℕ
frame w = w / 4096

unfoldable pub set_present : ℕ → ℕ → ℕ
set_present b w = w - w % 2 + b

unfoldable pub set_writable : ℕ → ℕ → ℕ
set_writable b w = w - w / 2 % 2 * 2 + b * 2

unfoldable pub set_user : ℕ → ℕ → ℕ
set_user b w = w - w / 4 % 2 * 4 + b * 4

unfoldable pub set_frame : ℕ → ℕ → ℕ
set_frame p w = p % 2 ^ 20 * 4096 + w % 4096

-- The slots of an address in the directory and in a table.
abbrev pub directory_slot : ℕ → ℕ
directory_slot virt = virt / 2 ^ 22

abbrev pub table_slot : ℕ → ℕ
table_slot virt = virt / 2 ^ 12 % 1024

abbrev pub aligned : ℕ → Bool
aligned a = a % 4096 == 0

-- The flags of ArMapOnePage; those of an attribute are `present`, `writable` and `user` again.
abbrev pub map_address : ℕ
map_address = 2

abbrev pub map_attribute : ℕ
map_attribute = 4

abbrev pub map_zero : ℕ
map_zero = 8

abbrev pub has_flag : ℕ → ℕ → Bool
has_flag f flag = not (flag / f % 2 == 0)

-- `*attr`: PAGE_ATTR_USER, PAGE_ATTR_WRITE and PAGE_ATTR_PRESENT.
pub attribute : ℕ → ℕ
attribute d =
    (if user d == 0 then 0 else 4)
    + (if writable d == 0 then 0 else 2)
    + (if present d == 0 then 0 else 1)

-- What ArQueryPageInformation finds: the physical address and the attribute, or that there is no
-- table.
pub find_page : (ℕ → ℕ → ℕ) → ℕ → ℕ → Option (ℕ × ℕ)
unfolding attribute
find_page m dir virt =
    let de = m dir (directory_slot virt) in
    let d = m (frame de) (table_slot virt) in
    if de == 0 then none else some (frame d * 4096, attribute d)

pub query : ℕ → ℕ → Cmd Paging (Option (ℕ × ℕ))
unfolding find_page
query dir virt s = if aligned virt then ok (find_page s.memory dir virt) s else fault

-- `te->a.physicalAddress = phys_addr>>12`, and a page that is mapped is to be accessible.
pub address_part : ℕ → ℕ → ℕ → ℕ
unfolding set_present set_frame
address_part phys attr te =
    let t = set_frame (phys / 2 ^ 12) te in
    if (present t == 0) && (present attr == 0) then set_present 1 t else t

pub attribute_part : ℕ → ℕ → ℕ
unfolding set_present set_writable set_user
attribute_part attr te =
    set_present (present attr) (set_writable (writable attr) (set_user (user attr) te))

pub new_entry : ℕ → ℕ → ℕ → ℕ → ℕ
unfolding address_part attribute_part
new_entry phys attr flag te =
    let t = if has_flag map_address flag then address_part phys attr te else te in
    if has_flag map_attribute flag then attribute_part attr t else t

-- RtlZeroMemory32( te, PAGE_SIZE>>2 ): 1024 words from the entry on, so past the end of the table.
pub clear_from : ℕ → ℕ → Paging → Paging
clear_from page slot s = record s {
  memory = λ q j. if (q == page) && leb slot j && not (leb 1024 j) then 0 else s.memory q j;
  overrun = s.overrun + slot;
}

pub clear_page : ℕ → Paging → Paging
clear_page page s = record s {
  memory = λ q j. if (q == page) && not (leb 1024 j) then 0 else s.memory q j;
}

-- The entry for `virt` in the table of the directory entry `de`, and the page that it maps to.
write_entry : ℕ → ℕ → ℕ → ℕ → ℕ → Paging → Paging
unfolding new_entry clear_page
write_entry de virt phys attr flag s =
    let te = s.memory (frame de) (table_slot virt) in
    let s' : Paging = record s {
      memory = set_word s.memory (frame de) (table_slot virt) (new_entry phys attr flag te);
    } in
    let page = if has_flag map_address flag then phys / 4096 else frame te in
    if has_flag map_zero flag then clear_page page s' else s'

-- A new table for a directory entry that is 0; there may be no page for it.
new_table : ℕ → ℕ → Paging → Paging
unfolding set_user set_writable set_present
new_table dir virt s =
    let r = get_page s.frames in
    let de = set_present 1 (set_writable 1 (set_user 1 r.0)) in
    let v = if r.0 == 0 then 0 else de in
    record s { frames = r.1; memory = set_word s.memory dir (directory_slot virt) v }

-- The first entry of a table that the directory entry `de` names.
fill_table : ℕ → ℕ → ℕ → ℕ → ℕ → Paging → Paging
unfolding write_entry clear_from
fill_table de virt phys attr flag s =
    write_entry de virt phys attr flag (clear_from (frame de) (table_slot virt) s)

-- The entry through a new table, where there was a page for it.
write_new : ℕ → ℕ → ℕ → ℕ → ℕ → Paging → Paging
write_new dir virt phys attr flag s =
    let s' = new_table dir virt s in
    if (get_page s.frames).0 == 0
    then s'
    else fill_table (s'.memory dir (directory_slot virt)) virt phys attr flag s'

-- ArMapOnePage
pub map_page : ℕ → ℕ → ℕ → ℕ → ℕ → Paging → Paging
unfolding write_entry
map_page dir virt phys attr flag s =
    let de = s.memory dir (directory_slot virt) in
    if de == 0 then write_new dir virt phys attr flag s else write_entry de virt phys attr flag s

pub map_one : ℕ → ℕ → ℕ → ℕ → ℕ → Cmd Paging (Unit {0})
unfolding map_page
map_one dir virt phys attr flag s =
    if aligned phys && aligned virt then ok tt (map_page dir virt phys attr flag s) else fault

pub unmap_one : ℕ → ℕ → Cmd Paging (Unit {0})
unmap_one dir virt = do
  r ← query dir virt
  elim r [ none ↦ pure tt | some _ ↦ map_one dir virt 0 0 (map_address + map_attribute) ]

-- The loops over `count` pages; the addresses wrap as `uint` does.
map_pages : ℕ → ℕ → ℕ → ℕ → ℕ → ℕ → Cmd Paging (Unit {0})
map_pages zero dir virt phys attr flag = pure tt
map_pages (suc count) dir virt phys attr flag = do
  map_one dir virt phys attr flag
  map_pages count dir ((virt + 4096) % 2 ^ 32) ((phys + 4096) % 2 ^ 32) attr flag

unmap_pages : ℕ → ℕ → ℕ → Cmd Paging (Unit {0})
unmap_pages zero dir virt = pure tt
unmap_pages (suc count) dir virt = do
  unmap_one dir virt
  unmap_pages count dir ((virt + 4096) % 2 ^ 32)

pub map_multiple : ℕ → ℕ → ℕ → ℕ → ℕ → ℕ → Cmd Paging (Unit {0})
unfolding map_pages
map_multiple dir virt phys size attr flag = map_pages (size / 4096) dir virt phys attr flag

pub unmap_multiple : ℕ → ℕ → ℕ → Cmd Paging (Unit {0})
unfolding unmap_pages
unmap_multiple dir virt size = unmap_pages (size / 4096) dir virt
