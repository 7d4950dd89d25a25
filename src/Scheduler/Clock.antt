-- ===== src/Scheduler/Clock.antt =====
-- TmIncreaseTime and TmSchedule of kernel/tm/sched.c: the clock of the waiting threads and of the
-- current one, and the choice of the next thread.
pub mod Round
pub mod Wake
pub mod Dispatch
pub mod Pick
use sgos.Prelude.{
  ℕ, zero, suc, ◌+◌, ◌-◌, ◌%◌, ◌^◌, Bool, true, false, not, ◌&&◌, ◌||◌, Option, none, some, ◌==◌,
  if◌then◌else◌, leb,
}
use sgos.Prelude.Run.{
  Run, ok, fault, blocked, out_of_fuel, Cmd, pure, and_then, ◌>>=◌, ◌>>◌, get, modify, when,
}
use sgos.Dll.{Ptr, null}
use sgos.Scheduler.{
  ThreadState, ts_ready, ts_idle, same, Thread, Scheduler, read, change, is_null, set_thread_state,
}

-- `clock <= 0` on the int.
abbrev pub expired : ℕ → Bool
expired clock = (clock == 0) || leb (2 ^ 31) clock

abbrev pub minus32 : ℕ → ℕ → ℕ
minus32 a b = (a + 2 ^ 32 - b) % 2 ^ 32

-- `ms`, the milliseconds of a clock tick: 1000 / RTC_FREQUENCY.
abbrev pub ms : ℕ
ms = 5

-- `if( prev ) thr = prev; else thr = ThreadingBox.wait`.
back_to : Ptr → Cmd Scheduler Ptr
back_to prev = if is_null prev then get (λ s. s.wait) else pure prev

-- One round of the loop over the waiting threads, at `thr`; the result is where the loop goes on
-- from.
pub tick : Ptr → Cmd Scheduler Ptr
unfolding back_to
tick thr = do
  change thr λ v. record v { clock = minus32 v.clock ms }
  n ← read thr
  if expired n.v.clock then set_thread_state thr ts_ready >> back_to n.prev else pure thr

pub tick_loop : ℕ → Ptr → Cmd Scheduler (Unit {0})
unfolding tick
tick_loop zero thr = λ s. out_of_fuel
tick_loop (suc k) thr =
    if is_null thr
    then pure tt
    else do at ← tick thr; if is_null at then pure tt else do m ← read at; tick_loop k m.next

-- ArSwitchThread, as far as these files see it.
switch_thread : Ptr → Cmd Scheduler (Unit {0})
switch_thread thr s = blocked (record s { running = thr; next = null })

-- `thr`, with its time slice, is what runs next; from an interrupt the switch is left to its end.
pub dispatch : Ptr → Ptr → ℕ → Cmd Scheduler (Unit {0})
unfolding switch_thread
dispatch cur thr slice = do
  change thr λ v. record v { clock = slice }
  if thr == cur then pure tt else do
    modify λ s. record s { next = thr }
    c ← read cur
    if c.v.is_interrupted then pure tt else switch_thread thr

ready_at : Ptr → Cmd Scheduler Ptr
ready_at thr = do m ← read thr; if same m.v.state ts_ready then pure thr else get λ s. s.ready

-- The ready thread that follows the current one, else the first ready one.
pub next_ready : Ptr → Cmd Scheduler Ptr
unfolding ready_at
next_ready cur = do
  n ← read cur
  thr ← pure (if same n.v.state ts_ready then n.next else null)
  if is_null thr then get (λ s. s.ready) else ready_at thr

-- `if( thr && thr->ThreadState == TS_IDLE ) thr = next`.
idle_after : Ptr → Ptr → Cmd Scheduler Ptr
idle_after thr next =
    if is_null thr
    then pure thr
    else do m ← read thr; if same m.v.state ts_idle then pure next else pure thr

-- The idle thread that follows the current one if `thr` is idle, else the first idle one.
next_idle : Ptr → Ptr → Cmd Scheduler Ptr
unfolding idle_after
next_idle cur thr = do
  n ← read cur
  at ← idle_after thr n.next
  if is_null at then get (λ s. s.idle) else pure at

-- "No ready threads. Do some idle things!" Without an idle thread the kernel stops.
run_idle : Ptr → Ptr → Cmd Scheduler (Unit {0})
unfolding dispatch next_idle
run_idle cur thr = do at ← next_idle cur thr; if is_null at then (λ s. fault) else dispatch cur at 1

pub schedule : Cmd Scheduler (Unit {0})
unfolding dispatch next_ready run_idle
schedule = do
  cur ← get λ s. s.running
  thr ← next_ready cur
  if is_null thr then run_idle cur thr else dispatch cur thr 5

pub increase_time : ℕ → Cmd Scheduler (Unit {0})
unfolding tick_loop schedule
increase_time fuel = do
  first ← get λ s. s.wait
  tick_loop fuel first
  thr ← get λ s. s.running
  n ← read thr
  second ← get λ s. s.rtc_second
  when (not n.v.is_kernel_thread) (
      change thr
        λ v. record v { user_time = elim v.user_time [ none ↦ none | some t ↦ some second ] })
  change thr λ v. record v { clock = minus32 v.clock 1 }
  m ← read thr
  can ← get λ s. s.can_schedule
  if expired m.v.clock && (can == 0) then schedule else pure tt
