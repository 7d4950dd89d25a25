-- ===== src/Frames/Demo.antt =====
-- A machine with a few hundred pages above the first 4 MB: an input for the tests that take a page.
use sgos.Prelude.{◌*◌, ◌≡◌, ◌≢◌, refl, arith, ◌==◌, if◌then◌else◌, ltb, ◌&&◌}
use sgos.Frames.{Frames, get_page, find_free, get_reference}
use sgos.Frames.Scan.{IsFrames}

-- Pages 1024, 1025 and those from 1030 to 1284 are in use once, and page 1029 twice.
abbrev pub machine : Frames
machine = record {
  total_pages = 1300;
  page_ref = λ i.
      if i == 1024
      then 1
      else if i == 1025
      then 1
      else if i == 1029
      then 2
      else if ltb 1029 i && ltb i 1285
      then 1
      else 0;
  page_used = 1024;
  page_front = 1024;
  page_it = 1026;
}

pub machine-IsFrames : IsFrames machine
machine-IsFrames = omega arith

-- The page that is taken next.
pub next_free : (get_page machine).0 ≡ 1026 * 4096
unfolding get_page find_free
next_free = refl

pub next_free_ne : (get_page machine).0 ≢ 0
next_free_ne e = omega (arith, next_free)

pub twice : get_reference (1029 * 4096) machine ≡ 2
unfolding get_reference
twice = refl
