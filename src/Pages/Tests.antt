-- ===== src/Pages/Tests.antt =====
-- Tests of the pages of an address space.
use sgos.Prelude.{ℕ, ◌==◌, if◌then◌else◌, ◌≡◌, refl, arith, ◌*◌, some}
use sgos.Prelude.Int.{pos}
use sgos.Prelude.Run.{ok}
use sgos.Paging.Demo.{memory_unit, has_table}
use sgos.Paging.{Paging}
use sgos.Pages.{duplicate_page}
use sgos.Pages.Exchange.{Entries, Exchanged, duplicate_page_shares}

-- The two first pages of the table, and that the second one is not mapped.
pages_of_table : Entries 1024 0x00401000 1024 0x00400000 memory_unit
pages_of_table = record {
  dest_page = ground arith;
  src_page = ground arith;
  dest_table = has_table;
  src_table = has_table;
  dest_dest = ground arith;
  dest_src = ground arith;
  src_dest = ground arith;
  src_src = ground arith;
  differ = λ _ e. omega arith;
  dest_fits = ground arith;
  src_fits = ground arith;
}

duplicate_page_shares_example :
    (t : Paging) × (duplicate_page 1024 0x00401000 1024 0x00400000 memory_unit ≡ ok (pos 0) t)
    × ((j : ℕ) → t.frames.page_ref j ≡ (if j == 1029 then 3 else memory_unit.frames.page_ref j))
    × Exchanged 1024 0x00401000 1024 0x00400000 memory_unit t
        (some (1029 * 4096, 5))
        (some (1029 * 4096, 5))
duplicate_page_shares_example =
    duplicate_page_shares 1024 0x00401000 1024 0x00400000 memory_unit pages_of_table refl refl
      (ground arith) (omega arith)
