-- ===== src/Queue/Pop.antt =====
-- RtlPopBackQueue and RtlPopFrontQueue of kernel/lib/kqueue.c.
use sgos.Prelude.{
  ℕ, suc, ◌+◌, ◌≡◌, ◌≢◌, ◌⊎◌, inl, inr, refl, ◌∙◌, ap, true, false, none, [], ◌∷◌, ◌++◌, arith,
  length,
}
use sgos.Prelude.Int.{negsuc, sub_ℕ, ◌+ℤ◌}
use sgos.Prelude.Run.{ok, Cmd}
use sgos.Dll.{Ptr, null, write, set_prev, set_next}
use sgos.Dll.Links.{
  Cells, has, last, Links-split, ne-last, last-ne-null, last-append, Links-write, set_prev-first,
  set_next-last,
}
use sgos.Queue.{Queue, is_zero, pop_with, pop_back, pop_back_link, pop_front, pop_front_link}
use sgos.Queue.Shape.{
  IsLinked, SameHeader, IsQueue, held, IsLinked-header, count_down, count_drift, length-snoc,
  has_of_Apart, is_zero_drained, is_zero_undrained,
}

abbrev locked : Queue → Queue
locked q = record q { semaphore = held q }

-- The queue after a pop that unlinked `p`.
abbrev popped : Queue → Queue → Ptr → Queue
popped q s p = record s {
  semaphore = q.semaphore;
  cur_num = q.cur_num +ℤ negsuc 0;
  cells = write s.cells p none;
}

pop_with_lem :
    (end_of : Queue → Ptr) (link : Ptr → Cmd Queue ℕ) (d : ℕ) (q s : Queue) (xs : Cells ℕ) (p v : ℕ)
    → IsQueue d q xs
    → end_of (locked q) ≡ p
    → p ≢ null
    → link p (locked q) ≡ ok v s
    → SameHeader s (locked q)
    → pop_with end_of link q ≡ ok v (popped q s p)
unfolding pop_with
pop_with_lem end_of link d q s xs p v is at nn e same = elim is.unlocked [
  | inl off ↦ ground arith
  | inr one ↦ ground arith
]

-- On an empty queue a pop returns NULL, and lowers the count.
pop_with_empty :
    (end_of : Queue → Ptr) (link : Ptr → Cmd Queue ℕ) (d : ℕ) (q : Queue)
    → IsQueue d q []
    → end_of (locked q) ≡ null
    → pop_with end_of link q ≡ ok null (record q { cur_num = q.cur_num +ℤ negsuc 0 })
unfolding pop_with
pop_with_empty end_of link d q is e = elim is.unlocked [
  | inl off ↦ ground arith
  | inr one ↦ ground arith
]

popped-IsQueue :
    (d : ℕ) (q s : Queue) (xs : Cells ℕ) (p : Ptr)
    → IsLinked s xs
    → SameHeader s (locked q)
    → has p xs ≡ false
    → q.cur_num +ℤ negsuc 0 ≡ sub_ℕ (length xs) d
    → (q.use_sem ≡ false) ⊎ (q.semaphore ≡ 1)
    → IsQueue d (popped q s p) xs
popped-IsQueue d q s xs p k same out n free = record {
  linked = record {
    links = Links-write s.cells null xs null p none out k.links;
    back_first = k.back_first;
    front_last = k.front_last;
  };
  count = n;
  unlocked = ground arith;
}

pop_back_link_lem :
    (q : Queue) (p v : ℕ) (xs : Cells ℕ)
    → IsLinked q ((p, v) ∷ xs)
    → (s : Queue) × (pop_back_link p q ≡ ok v s) × IsLinked s xs × SameHeader s q
unfolding pop_back_link set_prev set_next
pop_back_link_lem q p v [] l =
    let s : Queue = record q { back = null; front = null } in
    (s, ground arith, record { links = tt; back_first = refl; front_last = refl }, ground arith)
pop_back_link_lem q p v ((r, w) ∷ xs) l =
    let (g, e, k, same) = set_prev-first q.cells p r w xs null null (l.links.3) in
    let s : Queue = record q { back = r; cells = g } in
    (
      s,
      ground (arith, same p),
      record { links = k; back_first = refl; front_last = l.front_last },
      ground arith,
    )

-- A pop at the back, with what it keeps of the queue's fields.
pub pop_back_keeps :
    (d : ℕ) (q : Queue) (p v : ℕ) (xs : Cells ℕ)
    → IsQueue d q ((p, v) ∷ xs)
    → (s : Queue) × (pop_back q ≡ ok v s)
      × (IsQueue d s xs × (s.cells p ≡ none))
      × (s.has_del ≡ q.has_del)
      × (s.erased ≡ q.erased)
      × (s.use_sem ≡ q.use_sem)
unfolding pop_back
pop_back_keeps d q p v xs is =
    let (s, e, k, same) =
      pop_back_link_lem (locked q) p v xs
        (IsLinked-header q ((p, v) ∷ xs) q.cur_num (held q) is.linked) in
    (
      popped q s p,
      pop_with_lem (λ r. r.back) pop_back_link d q s ((p, v) ∷ xs) p v is is.linked.back_first
          is.linked.links.0 e same,
      (
        popped-IsQueue d q s xs p k same is.linked.links.2
            (count_down q.cur_num (length xs) d is.count) is.unlocked,
        ground arith,
      ),
      same.has_del,
      same.erased,
      same.use_sem,
    )

-- A pop at the back of a queue that is not empty returns the data pushed there last, and unlinks it.
pub pop_back-cons :
    (d : ℕ) (q : Queue) (p v : ℕ) (xs : Cells ℕ)
    → IsQueue d q ((p, v) ∷ xs)
    → (s : Queue) × (pop_back q ≡ ok v s) × IsQueue d s xs × (s.cells p ≡ none)
pop_back-cons d q p v xs is =
    let (s, e, (isq, gone), _, _, _) = pop_back_keeps d q p v xs is in (s, e, isq, gone)

pop_front_link_lem :
    (q : Queue) (p v : ℕ) (xs : Cells ℕ)
    → IsLinked q (xs ++ (p, v) ∷ [])
    → (s : Queue) × (pop_front_link p q ≡ ok v s) × IsLinked s xs × SameHeader s q
unfolding pop_front_link set_prev set_next
pop_front_link_lem q p v [] l =
    let s : Queue = record q { back = null; front = null } in
    (s, ground arith, record { links = tt; back_first = refl; front_last = refl }, ground arith)
pop_front_link_lem q p v ((r, w) ∷ xs) l =
    let (k, one, apart) = Links-split q.cells null ((r, w) ∷ xs) ((p, v) ∷ []) null l.links in
    let out = has_of_Apart ((r, w) ∷ xs) p v apart in
    let (g, e, k', same) = set_next-last q.cells null r w xs p null k in
    let s : Queue = record q { front = last xs r; cells = g } in
    (
      s,
      ground (arith, same p, ne-last p r w xs out, last-ne-null q.cells null r w xs p k),
      record { links = k'; back_first = l.back_first; front_last = refl },
      ground arith,
    )

pop_front_zero : (q : Queue) → is_zero q.cur_num ≡ true → pop_front q ≡ ok null q
unfolding pop_front
pop_front_zero q h = rw h

pop_front_step :
    (q : Queue) → is_zero q.cur_num ≡ false → pop_front q ≡ pop_with (λ r. r.front) pop_front_link q
unfolding pop_front
pop_front_step q h = rw h

-- A pop at the front returns the data pushed there last and unlinks it, unless the count is 0.
pub pop_front-snoc :
    (d : ℕ) (q : Queue) (p v : ℕ) (xs : Cells ℕ)
    → IsQueue d q (xs ++ (p, v) ∷ [])
    → length xs + 1 ≢ d
    → (s : Queue) × (pop_front q ≡ ok v s) × IsQueue d s xs × (s.cells p ≡ none)
pop_front-snoc d q p v xs is h =
    let n : q.cur_num ≡ sub_ℕ (suc (length xs)) d =
      is.count ∙ ap (λ n. sub_ℕ n d) (length-snoc xs (p, v)) in
    let (k, one, apart) = Links-split q.cells null xs ((p, v) ∷ []) null is.linked.links in
    let (s, e, k', same) =
      pop_front_link_lem (locked q) p v xs
        (IsLinked-header q (xs ++ (p, v) ∷ []) q.cur_num (held q) is.linked) in
    let at : q.front ≡ p = is.linked.front_last ∙ last-append xs ((p, v) ∷ []) null in
    (
      popped q s p,
      pop_front_step q (rw n (is_zero_undrained (length xs) d h))
          ∙ pop_with_lem (λ r. r.front) pop_front_link d q s (xs ++ (p, v) ∷ []) p v is at one.0 e
              same,
      popped-IsQueue d q s xs p k' same (has_of_Apart xs p v apart)
          (count_down q.cur_num (length xs) d n) is.unlocked,
      ground arith,
    )

-- With as many entries as the drift, RtlPopFrontQueue returns NULL although there are entries.
pub pop_front_drained :
    (d : ℕ) (q : Queue) (p v : ℕ) (xs : Cells ℕ)
    → IsQueue d q (xs ++ (p, v) ∷ [])
    → length xs + 1 ≡ d
    → pop_front q ≡ ok null q
pop_front_drained d q p v xs is h =
    let n = is.count ∙ ap (λ n. sub_ℕ n d) (length-snoc xs (p, v)) in
    pop_front_zero q (rw n (is_zero_drained (length xs) d h))

-- RtlPopBackQueue on an empty queue returns NULL, and the drift grows by one.
pub pop_back-nil :
    (d : ℕ) (q : Queue)
    → IsQueue d q []
    → (s : Queue) × (pop_back q ≡ ok null s) × IsQueue (suc d) s [] × (s.max_num ≡ q.max_num)
unfolding pop_back
pop_back-nil d q is =
    let c = q.cur_num +ℤ negsuc 0 in
    (
      record q { cur_num = c },
      pop_with_empty (λ r. r.back) pop_back_link d q is is.linked.back_first,
      record {
        linked = IsLinked-header q [] c q.semaphore is.linked;
        count = count_drift q.cur_num 0 d is.count;
        unlocked = is.unlocked;
      },
      refl,
    )
