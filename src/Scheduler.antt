-- ===== src/Scheduler.antt =====
-- kernel/tm/sched.c and kernel/tm/thread.c: the threads and the chains that schedule them.
-- `ThreadingBox`, `CanSchedule` and `rtc_second` are the record `Scheduler`, with the memory that
-- the KThread objects live in (`threads`); the two links of a node are those of its
-- ScheduleInformation, and its data is what else these files use of a KThread. A `clock` is an int:
-- a number below 2 ^ 32 in two's complement. A call of ArSwitchThread that changes to another
-- thread ends the run as `blocked`, in the state that thread finds. A failed ASSERT ends it as
-- `fault`, as KeBugCheck does.
pub mod Chains
pub mod Move
pub mod Clock
pub mod Change
pub mod Threads
pub mod Demo
mod Tests
use sgos.Prelude.{
  ℕ, zero, suc, ◌+◌, ◌-◌, ◌%◌, ◌^◌, Bool, true, false, not, ◌&&◌, ◌||◌, Option, none, some, ◌==◌,
  if◌then◌else◌, leb,
}
use sgos.Prelude.Int.{ℤ, pos, negsuc}
use sgos.Prelude.Run.{
  Run, ok, fault, blocked, out_of_fuel, Cmd, pure, and_then, ◌>>=◌, ◌>>◌, get, modify, when,
}
use sgos.Dll.{Ptr, null, Node, node, Heap, write, load, set_prev, set_next}

pub data ThreadState : Type 0 where
  ts_init ts_ready ts_running ts_paused ts_sleep ts_wait ts_dead ts_idle : ThreadState

-- The numbers of the enumeration.
abbrev pub code : ThreadState → ℕ
code ts_init = 0
code ts_ready = 1
code ts_running = 2
code ts_paused = 3
code ts_sleep = 4
code ts_wait = 5
code ts_dead = 6
code ts_idle = 7

abbrev pub same : ThreadState → ThreadState → Bool
same a b = code a == code b

pub record Thread : Type 0 where
  pub thread_id : ℕ
  pub state : ThreadState
  pub clock : ℕ
  pub is_kernel_thread : Bool
  pub is_interrupted : Bool
  -- UserModeThreadInformation: its CurrentTime, where there is one.
  pub user_time : Option ℕ

pub record Scheduler : Type 0 where
  pub running : Ptr
  pub next : Ptr
  pub ready : Ptr
  pub sleep : Ptr
  pub paused : Ptr
  pub dead : Ptr
  pub wait : Ptr
  pub idle : Ptr
  pub can_schedule : ℕ
  pub rtc_second : ℕ
  pub threads : Heap Thread

pub initialize : Scheduler → Scheduler
initialize s = record s {
  running = null;
  next = null;
  ready = null;
  sleep = null;
  paused = null;
  dead = null;
  wait = null;
  idle = null;
  can_schedule = 0;
}

-- `*GetThreadChain(st)`, where there is a chain, and the assignment to it.
abbrev pub head : ThreadState → Scheduler → Option Ptr
head ts_init s = none
head ts_ready s = some s.ready
head ts_running s = some s.running
head ts_paused s = some s.paused
head ts_sleep s = some s.sleep
head ts_wait s = some s.wait
head ts_dead s = some s.dead
head ts_idle s = some s.idle

abbrev pub set_head : ThreadState → Ptr → Scheduler → Scheduler
set_head ts_init p s = s
set_head ts_ready p s = record s { ready = p }
set_head ts_running p s = record s { running = p }
set_head ts_paused p s = record s { paused = p }
set_head ts_sleep p s = record s { sleep = p }
set_head ts_wait p s = record s { wait = p }
set_head ts_dead p s = record s { dead = p }
set_head ts_idle p s = record s { idle = p }

-- Reads and writes of a KThread.
abbrev pub store : (Heap Thread → Option (Heap Thread)) → Cmd Scheduler (Unit {0})
store op s = elim (op s.threads) [ none ↦ fault | some g ↦ ok tt (record s { threads = g }) ]

abbrev pub read : Ptr → Cmd Scheduler (Node Thread)
read p s = elim (load s.threads p) [ none ↦ fault | some n ↦ ok n s ]

abbrev pub change : Ptr → (Thread → Thread) → Cmd Scheduler (Unit {0})
change p f s = elim (load s.threads p) [
  | none ↦ fault
  | some n ↦ ok tt (record s { threads = write s.threads p (some (node n.prev (f n.v) n.next)) })
]

abbrev pub is_null : Ptr → Bool
is_null p = p == null

-- `if(link && *link)`: out of the chain of its state.
leave_chain : Ptr → Cmd Scheduler (Unit {0})
leave_chain thr = do
  n ← read thr
  link ← get (head n.v.state)
  elim link [
    | none ↦ pure tt
    | some h ↦ if is_null h then pure tt else do
      when (not (is_null n.next)) (store (set_prev n.next n.prev))
      n' ← read thr
      if is_null n'.prev
          then modify (set_head n.v.state n'.next)
          else store (set_next n'.prev n'.next)
  ]

-- At the head of the chain of a state.
enter_chain : Ptr → ThreadState → Cmd Scheduler (Unit {0})
enter_chain thr st = do
  link ← get (head st)
  elim link [
    | none ↦ pure tt
    | some h ↦ do
      store (set_next thr h)
      when (not (is_null h)) (store (set_prev h thr))
      modify (set_head st thr)
  ]

pub set_thread_state : Ptr → ThreadState → Cmd Scheduler (Unit {0})
unfolding leave_chain enter_chain
set_thread_state thr st = do
  n ← read thr
  if same n.v.state st then pure tt else do
    leave_chain thr
    store (set_prev thr null)
    enter_chain thr st
    change thr λ v. record v { state = st }
