-- ===== src/Queue/Push.antt =====
-- RtlPushBackQueue of kernel/lib/kqueue.c.
use sgos.Prelude.{
  ℕ, ◌+◌, ◌<◌, ◌≤◌, ◌≡◌, ◌≢◌, inl, inr, refl, ◌∙◌, ap, sym, true, false, some, [], ◌∷◌, ◌++◌, arith,
  length,
}
use sgos.Prelude.Int.{pos, sub_ℕ, ◌+ℤ◌, ltb_ℤ}
use sgos.Prelude.Run.{ok, Cmd}
use sgos.Dll.{Ptr, null, node, write, set_prev, set_next}
use sgos.Dll.Links.{
  Cells, has, last, Links-join, ne-last, has-last, last-ne-null, last-append, Links-write,
  set_prev-first, set_next-last,
}
use sgos.Queue.{Queue, push_with, push_back, push_back_link, push_front, push_front_link, err_nomem}
use sgos.Queue.Shape.{
  IsLinked, SameHeader, IsQueue, held, IsLinked-header, count_up, length-snoc, Apart-single,
}

-- The state at the link of the new node, and the return after it.
abbrev entered : Queue → ℕ → Ptr → Queue
entered q v fresh = record q {
  cells = write q.cells fresh (some (node null v null));
  cur_num = q.cur_num +ℤ pos 1;
  semaphore = held q;
}

push_with_lem :
    (link : Ptr → Cmd Queue (Unit {0})) (d : ℕ) (q s : Queue) (xs : Cells ℕ) (v fresh : ℕ)
    → IsQueue d q xs
    → ltb_ℤ q.cur_num q.max_num ≡ true
    → fresh ≢ null
    → link fresh (entered q v fresh) ≡ ok tt s
    → SameHeader s (entered q v fresh)
    → push_with link v fresh q ≡ ok (pos 0) (record s { semaphore = q.semaphore })
unfolding push_with
push_with_lem link d q s xs v fresh is room nn e same = elim is.unlocked [
  | inl off ↦ ground arith
  | inr one ↦ ground arith
]

sub_room : (n d m : ℕ) → n < m + d → ltb_ℤ (sub_ℕ n d) (pos m) ≡ true
sub_room n d m h = ground arith

has_room :
    (d m : ℕ) (q : Queue) (n : ℕ)
    → q.cur_num ≡ sub_ℕ n d
    → q.max_num ≡ pos m
    → n < m + d
    → ltb_ℤ q.cur_num q.max_num ≡ true
has_room d m q n e max h = rw (e, max) (sub_room n d m h)

sub_full : (n d m : ℕ) → m + d ≤ n → ltb_ℤ (sub_ℕ n d) (pos m) ≡ false
sub_full n d m h = ground arith

-- The node of the push is apart from those that are linked.
entered-IsLinked :
    (d : ℕ) (q : Queue) (xs : Cells ℕ) (v fresh : ℕ)
    → IsQueue d q xs
    → has fresh xs ≡ false
    → IsLinked (entered q v fresh) xs
entered-IsLinked d q xs v fresh is out = record {
  links = Links-write q.cells null xs null fresh _ out is.linked.links;
  back_first = is.linked.back_first;
  front_last = is.linked.front_last;
}

push_back_link_lem :
    (q : Queue) (xs : Cells ℕ) (fresh v : ℕ)
    → IsLinked q xs
    → fresh ≢ null
    → has fresh xs ≡ false
    → q.cells fresh ≡ some (node null v null)
    → (s : Queue) × (push_back_link fresh q ≡ ok tt s)
      × IsLinked s ((fresh, v) ∷ xs)
      × SameHeader s q
unfolding push_back_link set_prev set_next
push_back_link_lem q [] fresh v l nn out c =
    let s : Queue = record q {
      front = fresh;
      back = fresh;
      cells = write (write q.cells fresh (some (node null v null))) fresh (some (node null v null));
    } in
    (s, ground arith, ground arith, ground arith)
push_back_link_lem q ((p, w) ∷ xs) fresh v l nn out c =
    let (g, e, k, same) = set_prev-first q.cells null p w xs null fresh l.links in
    let s : Queue = record q {
      back = fresh;
      cells = write (write g fresh (some (node null v null))) fresh (some (node null v p));
    } in
    (
      s,
      ground (arith, same fresh),
      record {
        links = (
          nn,
          ground arith,
          out,
          Links-write _ fresh ((p, w) ∷ xs) null fresh _ out
              (Links-write g fresh ((p, w) ∷ xs) null fresh _ out k),
        );
        back_first = refl;
        front_last = ground arith;
      },
      ground arith,
    )

-- A push below the limit, with memory for its node, returns 0 and puts its data at the back end.
-- The limit of `m` entries has grown by the drift.
pub push_back-cons :
    (d m : ℕ) (q : Queue) (xs : Cells ℕ) (v fresh : ℕ)
    → IsQueue d q xs
    → q.max_num ≡ pos m
    → length xs < m + d
    → fresh ≢ null
    → has fresh xs ≡ false
    → (s : Queue) × (push_back v fresh q ≡ ok (pos 0) s) × IsQueue d s ((fresh, v) ∷ xs)
unfolding push_back
push_back-cons d m q xs v fresh is max room nn out =
    let (s, e, k, same) =
      push_back_link_lem (entered q v fresh) xs fresh v (entered-IsLinked d q xs v fresh is out) nn
        out (ground arith) in
    (
      record s { semaphore = q.semaphore },
      push_with_lem push_back_link d q s xs v fresh is
          (has_room d m q (length xs) is.count max room) nn e same,
      record {
        linked = IsLinked-header s ((fresh, v) ∷ xs) s.cur_num q.semaphore k;
        count = same.cur_num ∙ count_up q.cur_num (length xs) d is.count;
        unlocked = ground arith;
      },
    )

push_front_link_lem :
    (q : Queue) (xs : Cells ℕ) (fresh v : ℕ)
    → IsLinked q xs
    → fresh ≢ null
    → has fresh xs ≡ false
    → q.cells fresh ≡ some (node null v null)
    → (s : Queue) × (push_front_link fresh q ≡ ok tt s)
      × IsLinked s (xs ++ (fresh, v) ∷ [])
      × SameHeader s q
unfolding push_front_link set_prev set_next
push_front_link_lem q [] fresh v l nn out c =
    let s : Queue = record q {
      front = fresh;
      back = fresh;
      cells = write (write q.cells fresh (some (node null v null))) fresh (some (node null v null));
    } in
    (s, ground arith, ground arith, ground arith)
push_front_link_lem q ((p, w) ∷ xs) fresh v l nn out c =
    let (g, e, k, same) = set_next-last q.cells null p w xs null fresh l.links in
    let s : Queue = record q {
      front = fresh;
      cells =
          write (write g fresh (some (node (last xs p) v null))) fresh
            (some (node (last xs p) v null));
    } in
    (
      s,
      ground (
        arith,
        same fresh,
        ne-last fresh p w xs out,
        has-last p w xs,
        last-ne-null q.cells null p w xs null l.links,
      ),
      record {
        links =
            Links-join _ null ((p, w) ∷ xs) ((fresh, v) ∷ []) null
              (Links-write _ null ((p, w) ∷ xs) fresh fresh _ out
                (Links-write g null ((p, w) ∷ xs) fresh fresh _ out k))
              (nn, ground arith, refl, tt) (Apart-single ((p, w) ∷ xs) fresh v out);
        back_first = ground arith;
        front_last = ground (arith, last-append ((p, w) ∷ xs) ((fresh, v) ∷ []) null);
      },
      ground arith,
    )

-- RtlPushFrontQueue likewise, with the data after all others.
pub push_front-snoc :
    (d m : ℕ) (q : Queue) (xs : Cells ℕ) (v fresh : ℕ)
    → IsQueue d q xs
    → q.max_num ≡ pos m
    → length xs < m + d
    → fresh ≢ null
    → has fresh xs ≡ false
    → (s : Queue) × (push_front v fresh q ≡ ok (pos 0) s) × IsQueue d s (xs ++ (fresh, v) ∷ [])
unfolding push_front
push_front-snoc d m q xs v fresh is max room nn out =
    let (s, e, k, same) =
      push_front_link_lem (entered q v fresh) xs fresh v (entered-IsLinked d q xs v fresh is out) nn
        out (ground arith) in
    (
      record s { semaphore = q.semaphore },
      push_with_lem push_front_link d q s xs v fresh is
          (has_room d m q (length xs) is.count max room) nn e same,
      record {
        linked = IsLinked-header s (xs ++ (fresh, v) ∷ []) s.cur_num q.semaphore k;
        count =
            same.cur_num
            ∙ count_up q.cur_num (length xs) d is.count
            ∙ ap (λ n. sub_ℕ n d) (sym (length-snoc xs (fresh, v)));
        unlocked = ground arith;
      },
    )

full_lem :
    (d m : ℕ) (q : Queue) (xs : Cells ℕ)
    → IsQueue d q xs
    → q.max_num ≡ pos m
    → m + d ≤ length xs
    → ltb_ℤ q.cur_num q.max_num ≡ false
full_lem d m q xs is max h = rw (is.count, max) (sub_full (length xs) d m h)

-- With `m` entries and the drift in the queue, both pushes return -ERR_NOMEM and change nothing.
pub push_full :
    (d m : ℕ) (q : Queue) (xs : Cells ℕ) (v fresh : ℕ)
    → IsQueue d q xs
    → q.max_num ≡ pos m
    → m + d ≤ length xs
    → (push_back v fresh q ≡ ok err_nomem q) × (push_front v fresh q ≡ ok err_nomem q)
unfolding push_back push_front
push_full d m q xs v fresh is max h = let e = full_lem d m q xs is max h in (rw e, rw e)
