-- ===== src/Frames/Tests.antt =====
-- A machine with six pages above the first 4 MB: tests of kernel/mm/physical.c's model.
use sgos.Prelude.{◌*◌, ◌≡◌, ◌≢◌, refl, arith, ◌==◌, if◌then◌else◌}
use sgos.Frames.{Frames, index, get_page, find_free, initialize}
use sgos.Frames.Scan.{IsFrames, Taken, get_page-Taken}
use sgos.Frames.Counts.{initialize-IsFrames}

-- Page 1025 is shared to the limit, page 1024 is used once; the search begins behind the last page.
abbrev used : Frames
used = record {
  total_pages = 1030;
  page_ref = λ i. if i == 1024 then 1 else if i == 1025 then 255 else 0;
  page_used = 1024;
  page_front = 1024;
  page_it = 1030;
}

used-IsFrames : IsFrames used
used-IsFrames = omega arith

abbrev crowded : Frames
crowded = record used { page_ref = λ i. 1 }

crowded-IsFrames : IsFrames crowded
crowded-IsFrames = omega arith

get_page_runs : (get_page used).0 ≡ 1026 * 4096
unfolding get_page find_free
get_page_runs = refl

gives : (get_page used).0 ≢ 0
gives e = omega (arith, get_page_runs)

get_page-Taken_example : Taken used (get_page used).1 (index (get_page used).0)
get_page-Taken_example = get_page-Taken used used-IsFrames gives

crowded_none : (get_page crowded).0 ≡ 0
unfolding get_page find_free
crowded_none = refl

initialize-IsFrames_example : IsFrames (initialize 0x02000000)
initialize-IsFrames_example = initialize-IsFrames 0x02000000 (omega arith) (omega arith)
