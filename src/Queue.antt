-- ===== src/Queue.antt =====
-- kernel/lib/kqueue.c: the kernel's queue of pointers, a doubly linked list from `back` to `front`.
-- `KQueue` is the record `Queue`, with the memory that its nodes live in (`cells`). What
-- MmAllocateKernelMemory returns is the argument `fresh` (NULL if there is no memory).
-- Of the queue's private semaphore (kernel/ipc/semaphore.c) only the value is kept here: a lock
-- that is not free ends the run as `blocked`. The calls of `del_func` are logged in `erased`.
pub mod Shape
pub mod Push
pub mod Pop
pub mod Search
pub mod Destroy
mod Tests
use sgos.Prelude.{
  ℕ, zero, suc, ◌+◌, ◌-◌, ◌%◌, ◌^◌, Bool, true, false, not, Option, none, some, List, [], ◌∷◌, ◌==◌,
  if◌then◌else◌,
}
use sgos.Prelude.Int.{ℤ, pos, negsuc, ◌+ℤ◌, ◌-ℤ◌, ltb_ℤ}
use sgos.Prelude.Run.{
  Run, ok, fault, blocked, out_of_fuel, Cmd, pure, and_then, ◌>>=◌, ◌>>◌, get, modify, when,
}
use sgos.Dll.{Ptr, null, Node, node, Heap, write, load, set_prev, set_next}

pub record Queue : Type 0 where
  pub front : Ptr
  pub back : Ptr
  pub cur_num : ℤ
  pub max_num : ℤ
  pub use_sem : Bool
  pub semaphore : ℕ
  pub has_del : Bool
  pub erased : List ℕ
  pub cells : Heap ℕ

-- -ERR_NOMEM
abbrev pub err_nomem : ℤ
err_nomem = negsuc 0

abbrev pub max_queue : ℕ
max_queue = 0x70000000

-- IpcLockSemaphore and IpcUnlockSemaphore on the value of the queue's semaphore.
abbrev pub enter : Cmd Queue (Unit {0})
enter q =
    let v = (q.semaphore + 2 ^ 32 - 1) % 2 ^ 32 in
    let q' : Queue = record q { semaphore = v } in
    if q.use_sem then (if v == 0 then ok tt q' else blocked q') else ok tt q

abbrev pub leave : Cmd Queue (Unit {0})
leave q = if q.use_sem then ok tt (record q { semaphore = (q.semaphore + 1) % 2 ^ 32 }) else ok tt q

-- A write to a node, and a read of one.
abbrev pub store : (Heap ℕ → Option (Heap ℕ)) → Cmd Queue (Unit {0})
store op q = elim (op q.cells) [ none ↦ fault | some g ↦ ok tt (record q { cells = g }) ]

abbrev pub read : Ptr → Cmd Queue (Node ℕ)
read p q = elim (load q.cells p) [ none ↦ fault | some n ↦ ok n q ]

-- The node that MmAllocateKernelMemory gives, with `nod->v = data`; its links are still to be set.
abbrev pub allocate : Ptr → ℕ → Cmd Queue (Unit {0})
allocate p v = modify λ q. record q { cells = write q.cells p (some (node null v null)) }

abbrev pub free : Ptr → Cmd Queue (Unit {0})
free p = modify λ q. record q { cells = write q.cells p none }

abbrev pub add_num : ℤ → Cmd Queue (Unit {0})
add_num d = modify λ q. record q { cur_num = q.cur_num +ℤ d }

abbrev pub is_null : Ptr → Bool
is_null p = p == null

abbrev pub is_zero : ℤ → Bool
is_zero (pos n) = n == 0
is_zero (negsuc n) = false

pub create : ℤ → Bool → Bool → Ptr → Cmd Queue ℤ
create size del use_sem fresh q =
    let size' = if is_zero size then pos max_queue else size in
    let q' : Queue = record q {
      front = null;
      back = null;
      cur_num = pos 0;
      max_num = size';
      use_sem = use_sem;
      has_del = del;
    } in
    if use_sem
    then (if is_null fresh then ok err_nomem q' else ok (pos 0) (record q' { semaphore = 1 }))
    else ok (pos 0) q'

-- The first node of the back end: `q->back->prev = nod`, or `q->front = nod` in an empty queue.
push_back_link : Ptr → Cmd Queue (Unit {0})
push_back_link nod = do
  back ← get λ q. q.back
  front ← get λ q. q.front
  if is_null back
      then when (is_null front) (modify λ q. record q { front = nod })
      else store (set_prev back nod)
  store (set_prev nod null)
  store (set_next nod back)
  modify λ q. record q { back = nod }

-- The course of both pushes, around the linking of the new node.
push_with : (Ptr → Cmd Queue (Unit {0})) → ℕ → Ptr → Cmd Queue ℤ
push_with link data' fresh q =
    if not (ltb_ℤ q.cur_num q.max_num)
    then ok err_nomem q
    else if is_null fresh
    then ok err_nomem q
    else (do allocate fresh data'; add_num (pos 1); enter; link fresh; leave; pure (pos 0)) q

pub push_back : ℕ → Ptr → Cmd Queue ℤ
unfolding push_with push_back_link
push_back = push_with push_back_link

push_front_link : Ptr → Cmd Queue (Unit {0})
push_front_link nod = do
  front ← get λ q. q.front
  back ← get λ q. q.back
  if is_null front
      then when (is_null back) (modify λ q. record q { back = nod })
      else store (set_next front nod)
  store (set_prev nod front)
  store (set_next nod null)
  modify λ q. record q { front = nod }

pub push_front : ℕ → Ptr → Cmd Queue ℤ
unfolding push_with push_front_link
push_front = push_with push_front_link

-- Unlinks the node at the front, not null; the result is its data.
pop_front_link : Ptr → Cmd Queue ℕ
pop_front_link front = do
  n ← read front
  when (not (is_null n.prev)) (store (set_next n.prev null))
  n' ← read front
  modify λ q. record q { front = n'.prev }
  when (is_null n'.prev) (modify λ q. record q { back = null })
  pure n.v

-- The course of both pops, around the unlinking of the node at one end.
pop_with : (Queue → Ptr) → (Ptr → Cmd Queue ℕ) → Cmd Queue ℕ
pop_with end_of link = do
  enter
  tmp ← get end_of
  p ← if is_null tmp then pure null else link tmp
  leave
  add_num (negsuc 0)
  when (not (is_null tmp)) (free tmp)
  pure p

pub pop_front : Cmd Queue ℕ
unfolding pop_with pop_front_link
pop_front q = if is_zero q.cur_num then ok null q else pop_with (λ r. r.front) pop_front_link q

-- Unlinks the node at the back, not null; the result is its data.
pop_back_link : Ptr → Cmd Queue ℕ
pop_back_link back = do
  n ← read back
  when (not (is_null n.next)) (store (set_prev n.next null))
  n' ← read back
  modify λ q. record q { back = n'.next }
  when (is_null n'.next) (modify λ q. record q { front = null })
  pure n.v

pub pop_back : Cmd Queue ℕ
unfolding pop_with pop_back_link
pop_back = pop_with (λ r. r.back) pop_back_link

remove_link : Ptr → Cmd Queue (Unit {0})
remove_link nod = do
  n ← read nod
  if is_null n.prev
      then modify (λ q. record q { back = n.next })
      else store (set_next n.prev n.next)
  n' ← read nod
  if is_null n'.next
      then modify (λ q. record q { front = n'.prev })
      else store (set_prev n'.next n'.prev)

pub remove_element : Ptr → Cmd Queue (Unit {0})
unfolding remove_link
remove_element nod = do enter; remove_link nod; add_num (negsuc 0); leave; free nod

-- The loop of the two searches, from `back` on; a node is found by `hit` on its data.
search_loop : (ℕ → Bool) → ℕ → Ptr → Cmd Queue Ptr
search_loop hit zero nod = λ q. out_of_fuel
search_loop hit (suc k) nod =
    if is_null nod
    then pure null
    else do n ← read nod; if hit n.v then pure nod else search_loop hit k n.next

-- `*ret_nod` and the result, NULL where nothing is found.
found : Ptr → Cmd Queue (Ptr × ℕ)
found nod = if is_null nod then pure (null, null) else do n ← read nod; pure (nod, n.v)

pub search_queue : (ℕ → Bool) → ℕ → Cmd Queue (Ptr × ℕ)
unfolding search_loop found
search_queue hit fuel = do
  enter
  back ← get λ q. q.back
  nod ← search_loop hit fuel back
  leave
  found nod

pub quick_search_queue : ℕ → ℕ → Cmd Queue (Ptr × ℕ)
unfolding search_loop found
quick_search_queue v fuel = do
  enter
  back ← get λ q. q.back
  nod ← search_loop (λ w. w == v) fuel back
  leave
  found nod

pub is_empty : Queue → Bool
is_empty q = is_null q.front

erase : ℕ → Cmd Queue (Unit {0})
erase p = modify λ q. record q { erased = p ∷ q.erased }

destroy_loop : ℕ → Cmd Queue (Unit {0})
unfolding is_empty pop_back erase
destroy_loop zero = λ q. out_of_fuel
destroy_loop (suc k) = do
  done ← get is_empty
  if done
      then pure tt
      else do p ← pop_back; del ← get λ q. q.has_del; when del (erase p); destroy_loop k

-- IpcDestroySemaphore on the private semaphore, of which only the value is kept, sets it to 0.
pub destroy : ℕ → Cmd Queue (Unit {0})
unfolding destroy_loop
destroy fuel = do
  modify λ q. record q { cur_num = pos 1; max_num = pos 0 }
  destroy_loop fuel
  sem ← get λ q. q.use_sem
  when sem (modify λ q. record q { semaphore = 0 })
