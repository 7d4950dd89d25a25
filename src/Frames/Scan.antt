-- ===== src/Frames/Scan.antt =====
-- MmGetPhysicalPage of kernel/mm/physical.c: which page it gives, and when it gives none.
use sgos.Prelude.{
  ℕ, zero, suc, ◌+◌, ◌-◌, ◌*◌, ◌%◌, ◌^◌, ◌≤◌, ◌<◌, ◌≡◌, ◌≢◌, inl, inr, refl, ap, true, false, none,
  some, arith, ◌==◌, if◌then◌else◌, ltb, Option-cases, Bool-cases,
}
use sgos.Frames.{Frames, index, set_ref, find_free, get_page, search, take}

-- Page 0 is never given out, there are at most 2 ^ 20 pages, and the search begins in range.
pub record IsFrames (s : Frames) : Type 0 where
  pub front_pos : 0 < s.page_front
  pub total : s.total_pages ≤ 2 ^ 20
  pub ordered : s.page_front ≤ s.total_pages
  pub begin : s.page_it ≤ s.total_pages

find_free-some :
    (ref : ℕ → ℕ) (n i k : ℕ) → find_free ref n i ≡ some k → (i ≤ k) × (k < i + n) × (ref k ≡ 0)
unfolding find_free
find_free-some ref zero i k h = absurd (cc)
find_free-some ref (suc n) i k h = ground (arith, find_free-some ref n (i + 1) k)

find_free-none :
    (ref : ℕ → ℕ) (n i k : ℕ) → find_free ref n i ≡ none → i ≤ k → k < i + n → ref k ≢ 0
unfolding find_free
find_free-none ref zero i k h lo hi = absurd (omega arith)
find_free-none ref (suc n) i k h lo hi = elim (Bool-cases (k == i)) [
  | inl e ↦ ground arith
  | inr ne ↦ ground (arith, find_free-none ref n (i + 1) k)
]

-- The page at `i` was free and is taken; all else but the hint is as before.
pub record Taken (s t : Frames) (i : ℕ) : Type 0 where
  pub low : s.page_front ≤ i
  pub high : i < s.total_pages
  pub was_free : s.page_ref i ≡ 0
  pub refs : (j : ℕ) → t.page_ref j ≡ set_ref s.page_ref i 1 j
  pub keeps_front : t.page_front ≡ s.page_front
  pub keeps_total : t.total_pages ≡ s.total_pages
  pub keeps_used : t.page_used ≡ s.page_used
  pub hint : t.page_it ≡ i + 1

-- What a search comes to: a page taken, or none free.
data Outcome (s : Frames) : ℕ × Frames → Type 0 where
  found : {r : ℕ × Frames} (i : ℕ) → r.0 ≡ i * 4096 → Taken s r.1 i → Outcome s r
  full :
      {r : ℕ × Frames}
      → r.0 ≡ 0
      → IsFrames r.1
      → ((k : ℕ) → s.page_front ≤ k → k < s.total_pages → s.page_ref k ≢ 0)
      → Outcome s r

take-Outcome :
    (s : Frames) (i : ℕ)
    → IsFrames s
    → s.page_front ≤ i
    → i < s.total_pages
    → s.page_ref i ≡ 0
    → Outcome s (take s i)
unfolding take
take-Outcome s i is lo hi free = found i (ground arith) (record {
  low = lo;
  high = hi;
  was_free = free;
  refs = λ j. ground arith;
  keeps_front = refl;
  keeps_total = refl;
  keeps_used = refl;
  hint = refl;
})

search-Outcome : (s : Frames) → IsFrames s → s.page_front ≤ s.page_it → Outcome s (search s)
unfolding search
search-Outcome s is lo =
    elim (Option-cases (find_free s.page_ref (s.total_pages - s.page_it) s.page_it)) [
      | inr (i, e) ↦
          let p = find_free-some s.page_ref _ s.page_it i e in
          rw (e, search) (take-Outcome s i is (omega arith) (ground arith) p.2)
      | inl e ↦ elim (Option-cases (find_free s.page_ref (s.page_it - s.page_front) s.page_front)) [
        | inr (i, e') ↦
            let p = find_free-some s.page_ref _ s.page_front i e' in
            rw (e, e', search) (take-Outcome s i is p.0 (ground (arith, is.begin)) p.2)
        | inl e' ↦
            rw (e, e', search)
              (full refl is (λ k lo' hi'. elim (Bool-cases (ltb k s.page_it)) [
                | inl b ↦ find_free-none s.page_ref _ s.page_front k e' lo' (ground arith)
                | inr b ↦ find_free-none s.page_ref _ s.page_it k e (ground arith) (ground arith)
              ]))
      ]
    ]

-- The state in which MmGetPhysicalPage begins its search.
abbrev begun : Frames → Frames
begun s = if ltb s.page_it s.page_front then record s { page_it = s.page_front } else s

begun-IsFrames : (s : Frames) → IsFrames s → IsFrames (begun s)
begun-IsFrames s is = elim (Bool-cases (ltb s.page_it s.page_front)) [
  | inl e ↦ rw e (record {
    front_pos = is.front_pos;
    total = is.total;
    ordered = is.ordered;
    begin = is.ordered;
  })
  | inr e ↦ rw e is
]

Outcome-begun : (s : Frames) (r : ℕ × Frames) → Outcome (begun s) r → Outcome s r
Outcome-begun s r o = elim (Bool-cases (ltb s.page_it s.page_front)) [
  | inl e ↦ restart s r (rw e at o)
  | inr e ↦ rw e at o
]
  where
    restart :
        (s : Frames) (r : ℕ × Frames)
        → Outcome (record s { page_it = s.page_front }) r
        → Outcome s r
    restart s r (found i e t) = found i e (record {
      low = t.low;
      high = t.high;
      was_free = t.was_free;
      refs = t.refs;
      keeps_front = t.keeps_front;
      keeps_total = t.keeps_total;
      keeps_used = t.keeps_used;
      hint = t.hint;
    })
    restart s r (full e f h) = full e f h

get_page-Outcome :
    (s : Frames) → IsFrames s → (s.page_used == s.total_pages) ≡ false → Outcome s (get_page s)
unfolding get_page
get_page-Outcome s is e =
    rw (e, get_page)
      (Outcome-begun s (search (begun s)) (search-Outcome (begun s) (begun-IsFrames s is) (lo s)))
  where
    lo : (s : Frames) → (begun s).page_front ≤ (begun s).page_it
    lo s = ground arith

Outcome-Taken : (s : Frames) (r : ℕ × Frames) → Outcome s r → r.0 ≢ 0 → Taken s r.1 (index r.0)
Outcome-Taken s r (found i e t) h = let e' : index r.0 ≡ i = rw e (omega arith) in rw e' t
Outcome-Taken s r (full e v f) h = absurd (h e)

Outcome-none :
    (s : Frames) (r : ℕ × Frames) (k : ℕ)
    → IsFrames s
    → Outcome s r
    → r.0 ≡ 0
    → s.page_front ≤ k
    → k < s.total_pages
    → s.page_ref k ≢ 0
Outcome-none s r k is (found i e t) h lo hi = absurd (omega (arith, is.front_pos, t.low))
Outcome-none s r k is (full e v f) h lo hi = f k lo hi

get_page_idle : (s : Frames) → (s.page_used == s.total_pages) ≡ true → get_page s ≡ (0, s)
unfolding get_page
get_page_idle s e = rw e

Outcome-page :
    (s : Frames) (r : ℕ × Frames) → IsFrames s → Outcome s r → (r.0 < 2 ^ 32) × (r.0 % 4096 ≡ 0)
Outcome-page s r is (found i e t) = omega (arith, is.total, t.high)
Outcome-page s r is (full e v f) = omega arith

pub get_page_aligned :
    (s : Frames) → IsFrames s → ((get_page s).0 < 2 ^ 32) × ((get_page s).0 % 4096 ≡ 0)
get_page_aligned s is = elim (Bool-cases (s.page_used == s.total_pages)) [
  | inl e ↦ rw (get_page_idle s e) (omega arith, omega arith)
  | inr e ↦ Outcome-page s (get_page s) is (get_page-Outcome s is e)
]

-- A result of MmGetPhysicalPage that is not 0 is the address of a page in range that was free. It
-- has one reference afterwards, and no other count changes.
pub get_page-Taken :
    (s : Frames) → IsFrames s → (get_page s).0 ≢ 0 → Taken s (get_page s).1 (index (get_page s).0)
get_page-Taken s is h = elim (Bool-cases (s.page_used == s.total_pages)) [
  | inl e ↦ absurd (h (ap (λ r. r.0) (get_page_idle s e)))
  | inr e ↦ Outcome-Taken s (get_page s) (get_page-Outcome s is e) h
]

-- Where it returns 0 no page in range is free, whatever page the search began at.
pub get_page_none :
    (s : Frames) (k : ℕ)
    → IsFrames s
    → s.page_used ≢ s.total_pages
    → (get_page s).0 ≡ 0
    → s.page_front ≤ k
    → k < s.total_pages
    → s.page_ref k ≢ 0
get_page_none s k is ne h lo hi =
    Outcome-none s (get_page s) k is (get_page-Outcome s is (ground arith)) h lo hi

Outcome-IsFrames : (s : Frames) (r : ℕ × Frames) → IsFrames s → Outcome s r → IsFrames r.1
Outcome-IsFrames s r is (found i e t) = record {
  front_pos = rw t.keeps_front is.front_pos;
  total = rw t.keeps_total is.total;
  ordered = rw (t.keeps_front, t.keeps_total) is.ordered;
  begin = omega (arith, t.hint, t.keeps_total, t.high);
}
Outcome-IsFrames s r is (full e v f) = v

-- MmGetPhysicalPage keeps the bounds, on every branch.
pub get_page-IsFrames : (s : Frames) → IsFrames s → IsFrames (get_page s).1
get_page-IsFrames s is = elim (Bool-cases (s.page_used == s.total_pages)) [
  | inl e ↦ rw (get_page_idle s e) is
  | inr e ↦ Outcome-IsFrames s (get_page s) is (get_page-Outcome s is e)
]
