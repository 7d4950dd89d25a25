-- ===== src/Queue/Search.antt =====
-- RtlSearchQueue, RtlQuickSearchQueue and RtlRemoveQueueElement of kernel/lib/kqueue.c.
use sgos.Prelude.{
  ℕ, zero, suc, ◌<◌, ◌≡◌, ◌≢◌, ◌⊎◌, inl, inr, refl, ◌∙◌, ap, sym, subst, Bool, false, none, some,
  [], ◌∷◌, ◌++◌, arith, length, length-append, ◌==◌, if◌then◌else◌, Bool-cases,
}
use sgos.Prelude.Int.{negsuc, sub_ℕ, ◌+ℤ◌}
use sgos.Prelude.Run.{ok}
use sgos.Dll.{Ptr, null, node, Heap, write, link_next, link_prev}
use sgos.Dll.Splice.{unlink_lem}
use sgos.Dll.Links.{Cells, first, last, Links, Links-write}
use sgos.Queue.{
  Queue, search_loop, found, search_queue, quick_search_queue, remove_element, remove_link,
}
use sgos.Queue.Shape.{
  IsLinked, SameHeader, IsQueue, held, enter_free, leave-held, IsLinked-header, count_down,
}

-- The first node from the back whose data is a hit.
unfoldable pub find : (ℕ → Bool) → Cells ℕ → Ptr × ℕ
find hit [] = (null, null)
find hit ((p, v) ∷ xs) = if hit v then (p, v) else find hit xs

search_loop_lem :
    (hit : ℕ → Bool) (k : ℕ) (q : Queue) (b : Ptr) (xs : Cells ℕ)
    → Links q.cells b xs null
    → length xs < k
    → search_loop hit k (first xs null) q ≡ ok (find hit xs).0 q
unfolding search_loop find
search_loop_lem hit zero q b xs l h = absurd (omega arith)
search_loop_lem hit (suc k) q b [] l h = refl
search_loop_lem hit (suc k) q b ((p, v) ∷ xs) l h = ground (arith, search_loop_lem hit k q p xs l.3)

found_lem :
    (hit : ℕ → Bool) (q : Queue) (b : Ptr) (xs : Cells ℕ)
    → Links q.cells b xs null
    → found (find hit xs).0 q ≡ ok (find hit xs) q
unfolding found find
found_lem hit q b [] l = refl
found_lem hit q b ((p, v) ∷ xs) l = ground (arith, found_lem hit q p xs l.3)

-- A search returns the first hit from the back and its node, or NULL twice, and changes nothing.
pub search_queue-find :
    (hit : ℕ → Bool) (fuel d : ℕ) (q : Queue) (xs : Cells ℕ)
    → IsQueue d q xs
    → length xs < fuel
    → search_queue hit fuel q ≡ ok (find hit xs) q
unfolding search_queue
search_queue-find hit fuel d q xs is f =
    let loop =
      search_loop_lem hit fuel (record q { semaphore = held q }) null xs is.linked.links f in
    let end = found_lem hit q null xs is.linked.links in
    let loop' =
      subst
        (λ t.
          search_loop hit fuel t (record q { semaphore = held q })
          ≡ ok (find hit xs).0 (record q { semaphore = held q }))
        (sym is.linked.back_first) loop in
    rw (enter_free q is.unlocked, loop', leave-held q is.unlocked) end

quick_search_queue-find :
    (v fuel d : ℕ) (q : Queue) (xs : Cells ℕ)
    → IsQueue d q xs
    → length xs < fuel
    → quick_search_queue v fuel q ≡ ok (find (λ w. w == v) xs) q
unfolding quick_search_queue search_queue
quick_search_queue-find v fuel d q xs is f = search_queue-find (λ w. w == v) fuel d q xs is f

remove_link_run :
    (q : Queue) (p b v a : ℕ) (mid after : Heap ℕ)
    → p ≢ null
    → q.cells p ≡ some (node b v a)
    → mid p ≡ q.cells p
    → link_next b a q.cells ≡ some mid
    → link_prev a b mid ≡ some after
    → remove_link p q
      ≡ ok tt (record q {
        back = if b == null then a else q.back;
        front = if a == null then b else q.front;
        cells = after;
      })
unfolding remove_link
remove_link_run q p b v a mid after nn old same e1 e2 = elim (Bool-cases (b == null)) [
  | inl z ↦ ground arith
  | inr z ↦ ground arith
]

remove_link_lem :
    (q : Queue) (ys : Cells ℕ) (p v : ℕ) (zs : Cells ℕ)
    → IsLinked q (ys ++ (p, v) ∷ zs)
    → (s : Queue) × (remove_link p q ≡ ok tt s) × IsLinked s (ys ++ zs) × SameHeader s q
remove_link_lem q ys p v zs l =
    let u = unlink_lem q.cells ys p v zs l.links in
    let s : Queue = record q {
      back = if last ys null == null then first zs null else q.back;
      front = if first zs null == null then last ys null else q.front;
      cells = u.after;
    } in
    (
      s,
      remove_link_run q p (last ys null) v (first zs null) u.mid u.after u.not_null u.old u.kept_mid
          u.next_set u.prev_set,
      record {
        links = u.links;
        back_first = rw l.back_first u.first_out;
        front_last = rw l.front_last u.last_out;
      },
      ground arith,
    )

abbrev removed : Queue → Queue → Ptr → Queue
removed q s p = record s {
  semaphore = q.semaphore;
  cur_num = q.cur_num +ℤ negsuc 0;
  cells = write s.cells p none;
}

removed_lem :
    (q s : Queue) (p : Ptr)
    → (q.use_sem ≡ false) ⊎ (q.semaphore ≡ 1)
    → remove_link p (record q { semaphore = held q }) ≡ ok tt s
    → SameHeader s (record q { semaphore = held q })
    → remove_element p q ≡ ok tt (removed q s p)
unfolding remove_element
removed_lem q s p free e same = elim free [ inl off ↦ ground arith | inr one ↦ ground arith ]

length-middle :
    (ys : Cells ℕ) (x : Ptr × ℕ) (zs : Cells ℕ) → length (ys ++ x ∷ zs) ≡ suc (length (ys ++ zs))
length-middle ys x zs = omega (arith, length-append ys (x ∷ zs), length-append ys zs)

-- RtlRemoveQueueElement takes out the node that it is given, wherever it stands, and frees it.
pub remove_element-append :
    (d : ℕ) (q : Queue) (ys : Cells ℕ) (p v : ℕ) (zs : Cells ℕ)
    → IsQueue d q (ys ++ (p, v) ∷ zs)
    → (s : Queue) × (remove_element p q ≡ ok tt s) × IsQueue d s (ys ++ zs) × (s.cells p ≡ none)
remove_element-append d q ys p v zs is =
    let q1 : Queue = record q { semaphore = held q } in
    let (s, e, k, same) =
      remove_link_lem q1 ys p v zs (IsLinked-header q _ q.cur_num (held q) is.linked) in
    let out = (unlink_lem q.cells ys p v zs is.linked.links).out in
    (
      removed q s p,
      removed_lem q s p is.unlocked e same,
      record {
        linked = record {
          links = Links-write s.cells null (ys ++ zs) null p none out k.links;
          back_first = k.back_first;
          front_last = k.front_last;
        };
        count =
            count_down q.cur_num (length (ys ++ zs)) d
              (is.count ∙ ap (λ n. sub_ℕ n d) (length-middle ys (p, v) zs));
        unlocked = ground arith;
      },
      ground arith,
    )
