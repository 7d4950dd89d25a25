-- ===== src/Semaphore/Tests.antt =====
-- Runs of kernel/ipc/semaphore.c.
use sgos.Prelude.{
  ◌-◌, ℕ, ◌-◌, ◌^◌, ◌≡◌, refl, false, none, some, [], ◌∷◌, arith, ◌==◌, if◌then◌else◌,
}
use sgos.Prelude.Int.{pos}
use sgos.Prelude.Run.{ok, blocked}
use sgos.Dll.{node, Heap}
use sgos.Queue.{Queue}
use sgos.Queue.Shape.{IsQueue}
use sgos.Scheduler.{ts_ready, ts_sleep}
use sgos.Scheduler.Chains.{IsScheduler, replaced}
use sgos.Scheduler.Clock.Dispatch.{SwitchedTo}
use sgos.Scheduler.Demo.{thread, demo, demo_chains, demo-IsScheduler}
use sgos.Semaphore.{Ipc, lock, unlock}
use sgos.Semaphore.Fifo.{lock_waits, unlock_wakes}

-- Thread 7, at 70, waits.
abbrev one_waiter : Heap ℕ
one_waiter p = if p == 8 then some (node 0 70 0) else none

abbrev waiters : Queue
waiters = record {
  front = 8;
  back = 8;
  cur_num = pos 1;
  max_num = pos 5;
  use_sem = false;
  semaphore = 0;
  has_del = false;
  erased = [];
  cells = one_waiter;
}

waiters-IsQueue : IsQueue 0 waiters ((8, 70) ∷ [])
waiters-IsQueue = record {
  linked = record { links = ground arith; back_first = refl; front_last = refl };
  count = refl;
  unlocked = ground arith;
}

abbrev taken : Ipc
taken = record {
  semaphore = record { wait_queue = waiters; value = 2 ^ 32 - 1 };
  scheduler = demo 10;
}

lock_waits_example :
    (s' : Ipc) × (lock 9 taken ≡ blocked s')
    × (s'.semaphore.value ≡ 2 ^ 32 - 2)
    × IsQueue 0 s'.semaphore.wait_queue ((8, 70) ∷ (9, 10) ∷ [])
    × SwitchedTo 20
        (replaced demo_chains ts_ready
          ((20, thread 2 ts_ready 5) ∷ [])
          ts_sleep
          ((10, thread 1 ts_sleep 5) ∷ demo_chains ts_sleep))
        ts_ready
        ((20, thread 2 ts_ready 5) ∷ [])
        s'.scheduler
lock_waits_example =
    lock_waits taken 0 5 ((8, 70) ∷ []) 9 demo_chains 10 (thread 1 ts_ready 5) []
      ((20, thread 2 ts_ready 5) ∷ []) 20 (thread 2 ts_ready 5) [] (omega arith) (omega arith)
      waiters-IsQueue refl (omega arith) (omega arith) refl (demo-IsScheduler 10) refl refl refl
      refl

unlock_wakes_example :
    (s' : Ipc) × (unlock taken ≡ ok tt s')
    × (s'.semaphore.value ≡ 0)
    × IsQueue 0 s'.semaphore.wait_queue []
    × IsScheduler s'.scheduler (
        replaced demo_chains ts_sleep [] ts_ready
          ((70, thread 7 ts_ready 0) ∷ demo_chains ts_ready))
    × (s'.scheduler.running ≡ 10)
unlock_wakes_example =
    unlock_wakes taken 0 8 70 [] demo_chains (thread 7 ts_sleep 0) [] [] waiters-IsQueue
      (demo-IsScheduler 10) refl
