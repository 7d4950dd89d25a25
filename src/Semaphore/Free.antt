-- ===== src/Semaphore/Free.antt =====
-- kernel/ipc/semaphore.c where nobody waits: a lock that is free, and an unlock with no waiter.
use sgos.Prelude.{ℕ, suc, ◌+◌, ◌%◌, ◌^◌, ◌≡◌, refl, [], arith}
use sgos.Prelude.Run.{ok}
use sgos.Dll.{Ptr, null}
use sgos.Queue.{Queue, pop_back}
use sgos.Queue.Shape.{IsQueue}
use sgos.Queue.Pop.{pop_back-nil}
use sgos.Semaphore.{Ipc, with_value, lock, unlock}

-- IpcLockSemaphore of a free semaphore takes it and returns.
pub lock_free :
    (s : Ipc) (fresh : Ptr) → s.semaphore.value ≡ 1 → lock fresh s ≡ ok tt (with_value s 0)
unfolding lock
lock_free s fresh e = ground arith

unlock_run :
    (s : Ipc) (q : Queue)
    → pop_back s.semaphore.wait_queue ≡ ok null q
    → unlock s
      ≡ ok tt (record s {
        semaphore = record { wait_queue = q; value = (s.semaphore.value + 1) % 2 ^ 32 };
      })
unfolding unlock
unlock_run s q e = ground arith

-- A semaphore that nobody waits for.
pub record IsIdle (drift : ℕ) (s : Ipc) (value : ℕ) : Type 0 where
  pub empty : IsQueue drift s.semaphore.wait_queue []
  pub at : s.semaphore.value ≡ value

-- IpcUnlockSemaphore of a semaphore that is taken and that nobody waits for frees it.
pub unlock_free :
    (d : ℕ) (s : Ipc)
    → IsIdle d s 0
    → (s' : Ipc) × (unlock s ≡ ok tt s') × IsIdle (suc d) s' 1 × (s'.scheduler ≡ s.scheduler)
unlock_free d s is =
    let (q, e, isq, _) = pop_back-nil d s.semaphore.wait_queue is.empty in
    (
      record s { semaphore = record { wait_queue = q; value = (s.semaphore.value + 1) % 2 ^ 32 } },
      unlock_run s q e,
      record { empty = isq; at = omega (arith, is.at) },
      refl,
    )
