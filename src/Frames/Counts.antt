-- ===== src/Frames/Counts.antt =====
-- The reference counts of kernel/mm/physical.c: taking, sharing and giving back a page.
use sgos.Prelude.{
  ℕ, ◌+◌, ◌^◌, ◌≤◌, ◌<◌, ◌≡◌, ◌≢◌, ◌⊎◌, refl, true, false, arith, ◌==◌, if◌then◌else◌,
}
use sgos.Frames.{
  Frames, index, get_page, free_page, increase_reference, get_reference, outside, initialize,
}
use sgos.Frames.Scan.{IsFrames, Taken, get_page-Taken}

-- The start of the kernel on a machine with at least 4 MB meets the bounds.
pub initialize-IsFrames : (mem : ℕ) → 0x00400000 ≤ mem → mem < 2 ^ 32 → IsFrames (initialize mem)
unfolding initialize
initialize-IsFrames mem lo hi = omega arith

free-Taken :
    (s t : Frames) (a i j : ℕ)
    → a ≢ 0
    → i ≡ index a
    → Taken s t i
    → (free_page a t).page_ref j ≡ s.page_ref j
unfolding free_page
free-Taken s t a i j nn e k = ground (arith, k.refs i, k.refs j)

-- Giving a page back at once restores the count of every page.
pub free_page-get_page :
    (s : Frames) (j : ℕ)
    → IsFrames s
    → (get_page s).0 ≢ 0
    → (free_page (get_page s).0 (get_page s).1).page_ref j ≡ s.page_ref j
free_page-get_page s j is h =
    free-Taken s (get_page s).1 (get_page s).0 (index (get_page s).0) j h refl
      (get_page-Taken s is h)

-- A page shared once more and given back once is as it was, and counts one more in between.
pub free_page-increase_reference :
    (s : Frames) (a j : ℕ)
    → outside s (index a) ≡ false
    → a ≢ 0
    → s.page_ref (index a) ≢ 0
    → s.page_ref (index a) < 255
    → ((free_page a (increase_reference a s)).page_ref j ≡ s.page_ref j)
      × (get_reference a (increase_reference a s) ≡ get_reference a s + 1)
unfolding free_page increase_reference get_reference
free_page-increase_reference s a j o nn used lt = ground arith

pub increase_reference_counts :
    (s : Frames) (a i j : ℕ)
    → index a ≡ i
    → outside s i ≡ false
    → s.page_ref i ≢ 0
    → s.page_ref i < 255
    → (increase_reference a s).page_ref j ≡ (if j == i then s.page_ref i + 1 else s.page_ref j)
unfolding increase_reference
increase_reference_counts s a i j e o used lt = ground arith

-- The 256th reference wraps the count of a page to 0, so that the page counts as free.
pub increase_reference_wraps :
    (s : Frames) (a : ℕ)
    → outside s (index a) ≡ false
    → s.page_ref (index a) ≡ 255
    → get_reference a (increase_reference a s) ≡ 0
unfolding increase_reference get_reference
increase_reference_wraps s a o e = ground arith

-- An address below the first page or above the last, and a page that is free, change nothing.
pub guards :
    (s : Frames) (a : ℕ)
    → ((outside s (index a) ≡ true) ⊎ (s.page_ref (index a) ≡ 0))
    → (free_page a s ≡ s) × (increase_reference a s ≡ s) × (get_reference a s ≡ 0)
unfolding free_page increase_reference get_reference
guards s a h = ground arith
