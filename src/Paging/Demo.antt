-- ===== src/Paging/Demo.antt =====
-- A directory with one table of its own, in a small physical memory: an input for the tests of the page
-- tables.
use sgos.Prelude.{ℕ, ◌+◌, ◌*◌, ◌≢◌, arith, ◌==◌, if◌then◌else◌, ltb}
use sgos.Frames.Demo.{machine, machine-IsFrames}
use sgos.Paging.{Paging}
use sgos.Paging.Translate.{IsDirectory}

-- Page 1024 is the directory of a space. Its entry 1 names the table in page 1025, whose entry 0
-- names page 1029. From entry 768 on it has the tables of the kernel, as every directory: first the
-- one at 0x00301000, which maps the first 4 MB, then one in each of the pages from 1030 on. The
-- other pages hold something.
abbrev pub words : ℕ → ℕ → ℕ
words q j =
    if q == 1024
    then if j == 1
      then 1025 * 4096 + 7
      else if j == 768
      then 0x00301000 + 3
      else if ltb 768 j
      then (j + 261) * 4096 + 7
      else 0
    else if q == 0x301
    then j * 4096 + 3
    else if q == 1025
    then if j == 0 then 1029 * 4096 + 7 else 0
    else 1234 * 4096 + 3

abbrev pub memory_unit : Paging
memory_unit = record { frames = machine; memory = words; overrun = 0 }

pub memory_unit-IsDirectory : IsDirectory 1024 memory_unit
memory_unit-IsDirectory = record {
  frames = machine-IsFrames;
  dir_taken = ground arith;
  taken = λ i b n. ground arith;
  apart = λ i b n. ground arith;
  distinct = λ i j b c n m e. ground arith;
}

pub has_table : words 1024 1 ≢ 0
has_table = ground arith
