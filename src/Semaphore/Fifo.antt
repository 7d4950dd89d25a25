-- ===== src/Semaphore/Fifo.antt =====
-- What the operations of kernel/ipc/semaphore.c do to the value, the wait queue and the chains.
use sgos.Prelude.{
  ℕ, ◌+◌, ◌%◌, ◌^◌, ◌<◌, ◌≡◌, ◌≢◌, refl, ap, subst, ◌∙◌, false, [], ◌∷◌, ◌++◌, arith, length, ◌==◌,
  if◌then◌else◌,
}
use sgos.Prelude.Int.{pos}
use sgos.Prelude.Run.{ok, blocked}
use sgos.Dll.{Ptr, null}
use sgos.Dll.Links.{Cells, has}
use sgos.Queue.{Queue, push_front, pop_back}
use sgos.Queue.Shape.{IsQueue}
use sgos.Queue.Push.{push_front-snoc}
use sgos.Queue.Pop.{pop_back-cons}
use sgos.Scheduler.{ts_ready, ts_sleep, Thread, Scheduler}
use sgos.Scheduler.Chains.{Chains, IsScheduler, replaced}
use sgos.Scheduler.Change.{in_not_null}
use sgos.Scheduler.Clock.{minus32}
use sgos.Scheduler.Clock.Dispatch.{sliced, SwitchedTo}
use sgos.Scheduler.Threads.{sleep_thread, wakeup_thread, infinite}
use sgos.Scheduler.Threads.Effects.{wakeup_thread_moves}
use sgos.Scheduler.Threads.Sleep.{sleep_thread_switches}
use sgos.Semaphore.{Ipc, with_value, try_lock, lock, unlock}

-- IpcTryLockSemaphore takes a semaphore whose value is 1, and otherwise returns 0 and changes
-- nothing.
pub try_lock_lem :
    (s : Ipc)
    → s.semaphore.value < 2 ^ 32
    → try_lock s ≡ (if s.semaphore.value == 1 then ok 1 (with_value s 0) else ok 0 s)
unfolding try_lock
try_lock_lem s small = ground arith

lock_wait_run :
    (s : Ipc) (q : Queue) (t : Scheduler) (fresh : Ptr)
    → s.semaphore.value ≢ 1
    → s.semaphore.value < 2 ^ 32
    → push_front s.scheduler.running fresh s.semaphore.wait_queue ≡ ok (pos 0) q
    → sleep_thread s.scheduler.running infinite s.scheduler ≡ blocked t
    → lock fresh s
      ≡ blocked (record {
        semaphore = record { wait_queue = q; value = minus32 s.semaphore.value 1 };
        scheduler = t;
      })
unfolding lock
lock_wait_run s q t fresh ne small p w = ground arith

unlock_wake_run :
    (s : Ipc) (q : Queue) (t : Scheduler) (thr : Ptr)
    → pop_back s.semaphore.wait_queue ≡ ok thr q
    → thr ≢ null
    → wakeup_thread thr s.scheduler ≡ ok (pos 0) t
    → unlock s
      ≡ ok tt (record {
        semaphore = record { wait_queue = q; value = (s.semaphore.value + 1) % 2 ^ 32 };
        scheduler = t;
      })
unfolding unlock
unlock_wake_run s q t thr p nn w = ground arith

-- IpcLockSemaphore of a semaphore that is taken, by the current thread `p`, outside interrupts,
-- where there is memory for an entry of the wait queue (`fresh` is an address that the queue does
-- not use) and the queue is not full, and while the thread `q` is the first other ready one: the
-- call does not return; the value is one lower, `p` is at the end of the wait queue and at the head
-- of the sleeping chain, and `q` runs with a new time slice.
pub lock_waits :
    (s : Ipc) (d m : ℕ) (us : Cells ℕ) (fresh : Ptr) (xs : Chains) (p : Ptr) (v : Thread)
    (ys zs : Cells Thread) (q : Ptr) (w : Thread) (ws : Cells Thread)
    → s.semaphore.value ≢ 1
    → s.semaphore.value < 2 ^ 32
    → IsQueue d s.semaphore.wait_queue us
    → s.semaphore.wait_queue.max_num ≡ pos m
    → length us < m + d
    → fresh ≢ null
    → has fresh us ≡ false
    → IsScheduler s.scheduler xs
    → xs ts_ready ≡ ys ++ (p, v) ∷ zs
    → ys ++ zs ≡ (q, w) ∷ ws
    → s.scheduler.running ≡ p
    → v.is_interrupted ≡ false
    → (s' : Ipc) × (lock fresh s ≡ blocked s')
      × (s'.semaphore.value ≡ minus32 s.semaphore.value 1)
      × IsQueue d s'.semaphore.wait_queue (us ++ (fresh, p) ∷ [])
      × SwitchedTo q
          (replaced xs ts_ready
            (ys ++ zs)
            ts_sleep
            ((p, record v { state = ts_sleep }) ∷ xs ts_sleep))
          ts_ready
          ((q, sliced 5 w) ∷ ws)
          s'.scheduler
lock_waits s d m us fresh xs p v ys zs q w ws ne small isq max room nn out is e k run i =
    let (r, pe, isr) =
      push_front-snoc d m s.semaphore.wait_queue us s.scheduler.running fresh isq max room nn out in
    let (t, se, sw) = sleep_thread_switches s.scheduler xs p v ys zs is e q w ws k run i in
    (
      record {
        semaphore = record { wait_queue = r; value = minus32 s.semaphore.value 1 };
        scheduler = t;
      },
      lock_wait_run s r t fresh ne small pe
          (ap (λ c. sleep_thread c infinite s.scheduler) run ∙ se),
      refl,
      subst (λ c. IsQueue d r (us ++ (fresh, c) ∷ [])) run isr,
      sw,
    )

-- IpcUnlockSemaphore wakes the thread that has waited longest: it leaves the wait queue and the
-- sleeping chain for the head of the ready chain, and the value is one higher.
pub unlock_wakes :
    (s : Ipc) (d : ℕ) (node p : Ptr) (us : Cells ℕ) (xs : Chains) (v : Thread)
    (ys zs : Cells Thread)
    → IsQueue d s.semaphore.wait_queue ((node, p) ∷ us)
    → IsScheduler s.scheduler xs
    → xs ts_sleep ≡ ys ++ (p, v) ∷ zs
    → (s' : Ipc) × (unlock s ≡ ok tt s')
      × (s'.semaphore.value ≡ (s.semaphore.value + 1) % 2 ^ 32)
      × IsQueue d s'.semaphore.wait_queue us
      × IsScheduler s'.scheduler (
          replaced xs ts_sleep
            (ys ++ zs)
            ts_ready
            ((p, record v { state = ts_ready }) ∷ xs ts_ready))
      × (s'.scheduler.running ≡ s.scheduler.running)
unlock_wakes s d node p us xs v ys zs isq is e =
    let (q, pe, isr, _) = pop_back-cons d s.semaphore.wait_queue node p us isq in
    let (t, we, ist, r, _) = wakeup_thread_moves s.scheduler xs ts_sleep p v ys zs is refl e refl in
    let nn = in_not_null s.scheduler xs ts_sleep p v ys zs is refl e in
    (
      record {
        semaphore = record { wait_queue = q; value = (s.semaphore.value + 1) % 2 ^ 32 };
        scheduler = t;
      },
      unlock_wake_run s q t p pe nn we,
      refl,
      isr,
      ist,
      r,
    )
