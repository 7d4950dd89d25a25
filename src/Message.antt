-- ===== src/Message.antt =====
-- kernel/ipc/message.c: the messages of one thread, its owner. The state holds the owner's
-- semaphore and message queue, the scheduler, and the memory of the kernel's messages. Memory that
-- is given back keeps what it held; its address is then in `freed`. What TmGetThreadById finds is an
-- argument: NULL, or the thread. So is what MmAllocateKernelMemory returns.
pub mod Deliver
pub mod Receive
pub mod Outcomes
pub mod Threads
pub mod Roundtrip
mod Tests
use sgos.Prelude.{
  ℕ, zero, suc, ◌+◌, ◌-◌, ◌%◌, ◌^◌, Bool, true, false, not, ◌&&◌, ◌||◌, Option, none, some, List,
  [], ◌∷◌, ◌==◌, if◌then◌else◌, ltb, bit_and,
}
use sgos.Prelude.Int.{ℤ, pos, negsuc}
use sgos.Prelude.Run.{
  Run, ok, fault, blocked, out_of_fuel, Cmd, pure, and_then, ◌>>=◌, ◌>>◌, get, modify, when,
}
use sgos.Dll.{Ptr, null, Heap, Node}
use sgos.Queue.{
  Queue, create, destroy, push_front, push_back, pop_back, search_queue, remove_element,
}
use sgos.Scheduler.{ts_dead, ts_init, same, Thread, Scheduler, read}
use sgos.Scheduler.Threads.{sleep_thread, wakeup_thread, infinite}
use sgos.Semaphore.{Ipc, on_scheduler, lock, unlock}

pub record Message : Type 0 where
  pub thread_id : ℕ
  pub time : ℕ
  pub command : ℕ
  pub arguments : List ℕ
  pub code : ℤ
  pub large : List ℕ

pub record KMessage : Type 0 where
  pub user_message : Message
  pub destination : Ptr
  pub source : Ptr

pub record Mailbox : Type 0 where
  pub ipc : Ipc
  pub queue : Queue
  pub messages : ℕ → KMessage
  pub freed : List ℕ

abbrev pub err_nomem : ℤ
err_nomem = negsuc 0

abbrev pub err_wrongarg : ℤ
err_wrongarg = negsuc 2

abbrev pub err_none : ℤ
err_none = negsuc 3

abbrev pub err_timeout : ℤ
err_timeout = negsuc 12

abbrev pub max_messages_in_queue : ℕ
max_messages_in_queue = 100

-- The operations of the parts, on the whole state.
abbrev pub on_ipc : {A : Type 0} → Cmd Ipc A → Cmd Mailbox A
on_ipc m s = elim (m s.ipc) [
  | ok a t ↦ ok a (record s { ipc = t })
  | fault ↦ fault
  | blocked t ↦ blocked (record s { ipc = t })
  | out_of_fuel ↦ out_of_fuel
]

abbrev pub on_messages : {A : Type 0} → Cmd Queue A → Cmd Mailbox A
on_messages m s = elim (m s.queue) [
  | ok a q ↦ ok a (record s { queue = q })
  | fault ↦ fault
  | blocked q ↦ blocked (record s { queue = q })
  | out_of_fuel ↦ out_of_fuel
]

abbrev pub set_message : (ℕ → KMessage) → ℕ → KMessage → ℕ → KMessage
set_message m k v j = if j == k then v else m j

-- MessageEraser
abbrev pub message_eraser : ℕ → Cmd Mailbox (Unit {0})
message_eraser k = modify λ s. record s { freed = k ∷ s.freed }

-- `p->ThreadId`
abbrev pub thread_id_of : Ptr → Cmd Mailbox ℕ
thread_id_of p = do n ← on_ipc (on_scheduler (read p)); pure n.v.thread_id

-- Whether `p->Source` is the address of a thread, so that its identifier can be read.
abbrev pub has_source : Mailbox → ℕ → Bool
has_source s k =
    not ((s.messages k).source == null)
    && elim (s.ipc.scheduler.threads (s.messages k).source) [ none ↦ false | some n ↦ true ]

-- `p->Source->ThreadId` inside a search, for a message that has a source. A search by source tests
-- no message without one: see `search_source`.
abbrev pub source_id : Mailbox → ℕ → ℕ
source_id s k = elim (s.ipc.scheduler.threads (s.messages k).source) [
  | none ↦ 0
  | some n ↦ n.v.thread_id
]

-- MessageSearcher1, 2 and 3
abbrev pub from_source : Mailbox → Message → ℕ → Bool
from_source s m k = source_id s k == m.thread_id

abbrev pub with_command : Mailbox → Message → ℕ → Bool
with_command s m k = (s.messages k).user_message.command == m.command

abbrev pub from_source_with_command : Mailbox → Message → ℕ → Bool
from_source_with_command s m k = from_source s m k && with_command s m k

-- The queue has a semaphore of its own, which takes memory at `fresh`.
pub initialize_queue : Ptr → Cmd Mailbox (Unit {0})
initialize_queue fresh = do
  on_messages (create (pos max_messages_in_queue) true true fresh)
  pure tt

pub destroy_queue : ℕ → Cmd Mailbox (Unit {0})
destroy_queue fuel = on_messages (destroy fuel)

-- What IpcSend does once the destination is locked and alive, and there is memory at `k`.
deliver : Ptr → Message → ℕ → Ptr → Cmd Mailbox ℤ
deliver dest msg k nod = do
  cur ← get λ s. s.ipc.scheduler.running
  modify λ s. record s {
    messages =
        set_message s.messages k (record { user_message = msg; destination = dest; source = cur });
  }
  on_messages (push_front k nod)
  on_ipc unlock
  on_ipc (on_scheduler (wakeup_thread dest))
  pure (pos 0)

-- IpcSend to the thread `dest`; `wait`, `k` and `nod` are memory for an entry of the semaphore's
-- queue, for the message and for an entry of the message queue.
pub send : Ptr → Message → Ptr → ℕ → Ptr → Cmd Mailbox ℤ
unfolding deliver
send dest msg wait k nod = if dest == null then pure err_wrongarg else do
  on_ipc (lock wait)
  n ← on_ipc (on_scheduler (read dest))
  if same n.v.state ts_dead || same n.v.state ts_init
      then on_ipc unlock >> pure err_wrongarg
      else if k == null
      then on_ipc unlock >> pure err_nomem
      else deliver dest msg k nod

abbrev pub quick_message : ℕ → ℕ → ℕ → ℕ → Message
quick_message tid cmd arg1 arg2 = record {
  thread_id = tid;
  time = 0;
  command = cmd;
  arguments = arg1 ∷ arg2 ∷ 0 ∷ 0 ∷ 0 ∷ 0 ∷ 0 ∷ 0 ∷ 0 ∷ 0 ∷ [];
  code = pos 0;
  large = 0 ∷ 0 ∷ [];
}

pub quick_send : Ptr → ℕ → ℕ → ℕ → ℕ → Ptr → ℕ → Ptr → Cmd Mailbox ℤ
unfolding send
quick_send dest tid cmd arg1 arg2 = send dest (quick_message tid cmd arg1 arg2)

abbrev is_zero : ℤ → Bool
is_zero (pos n) = n == 0
is_zero (negsuc n) = false

-- IpcCall
pub call : Ptr → Message → ℕ → Ptr → ℕ → Ptr → Cmd Mailbox ℤ
unfolding send
call dest msg timeout wait k nod = do
  ret ← send dest msg wait k nod
  if not (is_zero ret) || (timeout == 0) then pure ret else do
    cur ← get λ s. s.ipc.scheduler.running
    on_ipc (on_scheduler (sleep_thread cur timeout))
    pure (pos 0)

-- IpcReply
pub reply : Ptr → Cmd Mailbox ℤ
reply dest = do
  when (not (dest == null)) (on_ipc (on_scheduler (wakeup_thread dest)) >> pure tt)
  pure (pos 0)

-- RtlSearchQueue with a test that reads the source of each message: at one with no source the
-- search faults, as it dereferences a bad pointer.
abbrev pub stops : Mailbox → (ℕ → Bool) → ℕ → Bool
stops s hit k = not (has_source s k) || hit k

pub search_source : (ℕ → Bool) → ℕ → Cmd Mailbox (Ptr × ℕ)
search_source hit fuel s =
    and_then (on_messages (search_queue (stops s hit) fuel) s)
      λ r t. if (r.0 == null) || has_source s r.1 then ok r t else fault

-- The message that IpcReceive looks for, and its entry where it was searched for.
pub choose : Ptr → Message → ℕ → Cmd Mailbox (Ptr × ℕ)
unfolding search_source
choose src msg fuel s =
    if not (src == null) && not (msg.command == 0)
    then search_source (from_source_with_command s msg) fuel s
    else if not (src == null)
    then search_source (from_source s msg) fuel s
    else if not (msg.command == 0)
    then on_messages (search_queue (with_command s msg) fuel) s
    else (do k ← on_messages pop_back; pure (null, k)) s

-- `flag & MSG_KEEP`
abbrev pub keeps : ℕ → Bool
keeps flag = not (bit_and flag 0x40000000 == 0)

-- What becomes of the message `k` with the entry `nod`.
settle : Ptr → Bool → Ptr → ℕ → Ptr → Cmd Mailbox (Unit {0})
settle src keep nod k fresh =
    if not (src == null)
    then when (not keep) (on_messages (remove_element nod) >> message_eraser k)
    else if keep
    then on_messages (push_back k fresh) >> pure tt
    else message_eraser k

-- IpcReceive with a message.
pub hand_over : Ptr → Bool → Ptr → ℕ → Ptr → Cmd Mailbox (ℤ × Message)
unfolding settle
hand_over src keep nod k fresh = do
  on_ipc unlock
  m ← get λ s. s.messages k
  settle src keep nod k fresh
  m' ← get λ s. s.messages k
  id ← thread_id_of m'.source
  pure (pos 1, record m.user_message { thread_id = id })

-- `timeout - (ArGetMilliSecond() - startSleepTime)` as an unsigned number; below 0 as an int.
abbrev pub rest_of : ℕ → ℕ → ℕ → ℕ
rest_of timeout start now = (timeout + 2 ^ 32 - (now + 2 ^ 32 - start) % 2 ^ 32) % 2 ^ 32

abbrev pub timed_out : ℕ → ℕ → ℕ → Bool
timed_out timeout start now =
    not (timeout == infinite) && not (ltb (rest_of timeout start now) (2 ^ 31))

-- IpcReceive without a message, up to the next search.
sleep_on : ℕ → ℕ → ℕ → Cmd Mailbox (Unit {0})
sleep_on timeout start now = do
  on_ipc unlock
  cur ← get λ s. s.ipc.scheduler.running
  on_ipc (
      on_scheduler
        (sleep_thread cur (if timeout == infinite then infinite else rest_of timeout start now)))
  pure tt

-- IpcReceive from `_recv_search` on. `now` says what the clock shows in each round.
pub receive_from :
    ℕ → (ℕ → ℕ) → Ptr → Message → Bool → ℕ → ℕ → ℕ → Ptr → Ptr → Cmd Mailbox (ℤ × Message)
unfolding choose hand_over sleep_on
receive_from zero now src msg keep timeout start fuel wait fresh = λ s. out_of_fuel
receive_from (suc k) now src msg keep timeout start fuel wait fresh =
    let again = receive_from k now src msg keep timeout start fuel wait fresh in
    do
      on_ipc (lock wait)
      r ← choose src msg fuel
      if not (r.1 == null)
          then hand_over src keep r.0 r.1 fresh
          else if timeout == 0
          then on_ipc unlock >> pure (err_none, msg)
          else if timed_out timeout start (now k)
          then pure (err_timeout, msg)
          else sleep_on timeout start (now k) >> again

-- IpcReceive once `thr_cur` is known: this mailbox is that of the current thread. Message/Threads
-- picks it.
pub receive : ℕ → (ℕ → ℕ) → Ptr → Message → ℕ → ℕ → ℕ → Ptr → Ptr → Cmd Mailbox (ℤ × Message)
unfolding receive_from
receive rounds now src msg flag timeout fuel wait fresh =
    receive_from rounds now src msg (keeps flag) timeout (now rounds) fuel wait fresh
