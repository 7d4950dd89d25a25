-- ===== src/Scheduler/Threads.antt =====
-- kernel/tm/thread.c: the operations that put a thread to sleep and wake it, on the chains of
-- kernel/tm/sched.c. The results are those of the functions: 0, or the negative error code.
pub mod Effects
pub mod Sleep
use sgos.Prelude.{ℕ, ◌+◌, ◌-◌, ◌*◌, ◌%◌, ◌^◌, true, false, ◌||◌, ◌==◌, if◌then◌else◌}
use sgos.Prelude.Int.{ℤ, pos, negsuc}
use sgos.Prelude.Run.{
  Run, ok, fault, blocked, out_of_fuel, Cmd, pure, and_then, ◌>>=◌, ◌>>◌, get, modify, when,
}
use sgos.Dll.{Ptr, null}
use sgos.Scheduler.{
  ThreadState, ts_ready, ts_paused, ts_sleep, ts_wait, same, Thread, Scheduler, read, change,
  set_thread_state,
}
use sgos.Scheduler.Clock.{schedule}

-- -ERR_UNKNOWN
abbrev pub err_unknown : ℤ
err_unknown = negsuc 4

abbrev pub infinite : ℕ
infinite = 2 ^ 32 - 1

-- GenerateThreadId, with `threadId`, a short, before and after: the identifier and the new value.
-- The low 16 bits of `SpaceId << 16` are 0, so `|` adds.
pub generate_thread_id : ℕ → ℕ → ℕ × ℕ
generate_thread_id space_id thread_id =
    let next = (thread_id + 1) % 2 ^ 16 in
    ((space_id * 2 ^ 16) % 2 ^ 32 + thread_id, if next % 4 == 0 then (next + 1) % 2 ^ 16 else next)

pub resume_thread : Ptr → Cmd Scheduler ℤ
resume_thread thr = do set_thread_state thr ts_ready; pure (pos 0)

pub suspend_thread : Ptr → Cmd Scheduler ℤ
suspend_thread thr = do
  set_thread_state thr ts_paused
  cur ← get λ s. s.running
  when (thr == cur) schedule
  pure (pos 0)

-- `ASSERT( thread->ThreadState != st )`
assert_left : Ptr → ThreadState → Cmd Scheduler (Unit {0})
assert_left thr st = do n ← read thr; if same n.v.state st then (λ s. fault) else pure tt

-- A thread that is put to sleep in the state `st`; if it is the current one, another runs.
rest : Ptr → ThreadState → Cmd Scheduler ℤ
unfolding assert_left
rest thr st = do
  set_thread_state thr st
  cur ← get λ s. s.running
  when (thr == cur) (schedule >> assert_left thr st)
  pure (pos 0)

pub sleep_thread : Ptr → ℕ → Cmd Scheduler ℤ
unfolding rest
sleep_thread thr ms =
    if ms == infinite
    then rest thr ts_sleep
    else do change thr λ v. record v { clock = ms }; rest thr ts_wait

pub wakeup_thread : Ptr → Cmd Scheduler ℤ
wakeup_thread thr = do
  n ← read thr
  if same n.v.state ts_sleep || same n.v.state ts_wait
      then set_thread_state thr ts_ready >> pure (pos 0)
      else pure err_unknown
