-- ===== src/Paging/Tests.antt =====
-- Tests of the page tables' model.
use sgos.Prelude.{ℕ, ◌*◌, ◌≡◌, refl, arith, some, none}
use sgos.Frames.Demo.{next_free_ne}
use sgos.Paging.{find_page, map_page}
use sgos.Paging.Translate.{IsDirectory, IsPage, Mapped, map_page-Mapped}
use sgos.Paging.NewTable.{Tabled, map_page-Tabled}
use sgos.Paging.Demo.{words, memory_unit, memory_unit-IsDirectory, has_table}

-- 4 MB and the third page above it.
abbrev third : ℕ
third = 0x00402000

find_page_runs : find_page words 1024 0x00400000 ≡ some (1029 * 4096, 7)
unfolding find_page
find_page_runs = refl

find_page_no_table : find_page words 1024 0x00800000 ≡ none
unfolding find_page
find_page_no_table = refl

third-IsPage : IsPage third
third-IsPage = ground arith

map_page-Mapped_example :
    Mapped 1024 third 0x00007000 3 memory_unit (map_page 1024 third 0x00007000 3 6 memory_unit)
    × IsDirectory 1024 (map_page 1024 third 0x00007000 3 6 memory_unit)
map_page-Mapped_example =
    map_page-Mapped 1024 third 0x00007000 3 memory_unit memory_unit-IsDirectory third-IsPage
      (ground arith) has_table

map_page-Tabled_example :
    Tabled 1024 0x00802000 0x00007000 3 memory_unit
      (map_page 1024 0x00802000 0x00007000 3 6 memory_unit)
map_page-Tabled_example =
    map_page-Tabled 1024 0x00802000 0x00007000 3 memory_unit memory_unit-IsDirectory (ground arith)
      (ground arith) refl next_free_ne
