-- ===== src/Semaphore.antt =====
-- kernel/ipc/semaphore.c: one semaphore, with the scheduler that its waiting threads sleep in.
-- `KSemaphore` is the record `Semaphore`; the wait queue is that of kernel/lib/kqueue.c, and its
-- entries are the addresses of threads. What MmAllocateKernelMemory returns for a new entry of the
-- queue is the argument `fresh`.
pub mod Fifo
pub mod Free
mod Tests
use sgos.Prelude.{ℕ, zero, suc, ◌+◌, ◌-◌, ◌%◌, ◌^◌, true, false, not, ◌==◌, if◌then◌else◌}
use sgos.Prelude.Int.{ℤ, pos}
use sgos.Prelude.Run.{
  Run, ok, fault, blocked, out_of_fuel, Cmd, pure, and_then, ◌>>=◌, ◌>>◌, get, modify, when,
}
use sgos.Dll.{Ptr, null}
use sgos.Queue.{Queue, push_front, pop_back, quick_search_queue, remove_element, create}
use sgos.Scheduler.{Scheduler}
use sgos.Scheduler.Clock.{minus32}
use sgos.Scheduler.Threads.{sleep_thread, wakeup_thread, infinite}

pub record Semaphore : Type 0 where
  pub wait_queue : Queue
  pub value : ℕ

pub record Ipc : Type 0 where
  pub semaphore : Semaphore
  pub scheduler : Scheduler

abbrev pub with_queue : Ipc → Queue → Ipc
with_queue s q = record s { semaphore = record s.semaphore { wait_queue = q } }

abbrev pub with_value : Ipc → ℕ → Ipc
with_value s n = record s { semaphore = record s.semaphore { value = n } }

-- The operations of the queue and of the scheduler, on the whole state.
abbrev pub on_queue : {A : Type 0} → Cmd Queue A → Cmd Ipc A
on_queue m s = elim (m s.semaphore.wait_queue) [
  | ok a q ↦ ok a (with_queue s q)
  | fault ↦ fault
  | blocked q ↦ blocked (with_queue s q)
  | out_of_fuel ↦ out_of_fuel
]

abbrev pub on_scheduler : {A : Type 0} → Cmd Scheduler A → Cmd Ipc A
on_scheduler m s = elim (m s.scheduler) [
  | ok a t ↦ ok a (record s { scheduler = t })
  | fault ↦ fault
  | blocked t ↦ blocked (record s { scheduler = t })
  | out_of_fuel ↦ out_of_fuel
]

-- `--sem->value` and `sem->value ++`.
abbrev lower : Cmd Ipc (Unit {0})
lower = modify λ s. with_value s (minus32 s.semaphore.value 1)

abbrev raise : Cmd Ipc (Unit {0})
raise = modify λ s. with_value s ((s.semaphore.value + 1) % 2 ^ 32)

pub initialize_value : ℕ → Cmd Ipc (Unit {0})
initialize_value v = do on_queue (create (pos 0) false false null); modify λ s. with_value s v

pub initialize : Cmd Ipc (Unit {0})
unfolding initialize_value
initialize = initialize_value 1

pub try_lock : Cmd Ipc ℕ
try_lock = do lower; v ← get λ s. s.semaphore.value; if v == 0 then pure 1 else raise >> pure 0

pub lock : Ptr → Cmd Ipc (Unit {0})
lock fresh = do
  lower
  v ← get λ s. s.semaphore.value
  cur ← get λ s. s.scheduler.running
  when (not (v == 0))
      (on_queue (push_front cur fresh) >> on_scheduler (sleep_thread cur infinite) >> pure tt)

pub unlock : Cmd Ipc (Unit {0})
unlock = do
  thr ← on_queue pop_back
  raise
  when (not (thr == null)) (on_scheduler (wakeup_thread thr) >> pure tt)

wake_loop : ℕ → Cmd Ipc (Unit {0})
wake_loop zero = λ s. out_of_fuel
wake_loop (suc k) = do
  thr ← on_queue pop_back
  if thr == null then pure tt else on_scheduler (wakeup_thread thr) >> wake_loop k

pub destroy : ℕ → Cmd Ipc (Unit {0})
unfolding wake_loop
destroy fuel = do wake_loop fuel; modify λ s. with_value s 0

-- IpcRemoveSleepingThread. A thread that is not in the queue is only reported.
pub remove_sleeping : Ptr → ℕ → Cmd Ipc (Unit {0})
remove_sleeping thr fuel = do
  r ← on_queue (quick_search_queue thr fuel)
  when (not (r.1 == null)) (on_queue (remove_element r.0))
