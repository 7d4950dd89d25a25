-- ===== src/Scheduler/Demo.antt =====
-- A small scheduler (kernel/tm/sched.c), for runs on concrete chains.
use sgos.Prelude.{ℕ, ◌≡◌, refl, true, false, none, some, [], ◌∷◌, arith, ◌==◌, if◌then◌else◌}
use sgos.Dll.{Ptr, null, node, Heap}
use sgos.Dll.Links.{first, Links}
use sgos.Scheduler.{
  ThreadState, ts_init, ts_ready, ts_running, ts_paused, ts_sleep, ts_wait, ts_dead, ts_idle,
  Thread, Scheduler, head,
}
use sgos.Scheduler.Chains.{chained, Chains, AllIn, IsScheduler}

abbrev pub thread : ℕ → ThreadState → ℕ → Thread
thread i st c = record {
  thread_id = i;
  state = st;
  clock = c;
  is_kernel_thread = true;
  is_interrupted = false;
  user_time = none;
}

-- Threads 1 and 2 are ready, 3 and 4 wait, 5 is idle, 6 is paused, 7 sleeps.
abbrev pub demo_threads : Heap Thread
demo_threads p =
    if p == 10
    then some (node 0 (thread 1 ts_ready 5) 20)
    else if p == 20
    then some (node 10 (thread 2 ts_ready 5) 0)
    else if p == 30
    then some (node 0 (thread 3 ts_wait 3) 40)
    else if p == 40
    then some (node 30 (thread 4 ts_wait 100) 0)
    else if p == 50
    then some (node 0 (thread 5 ts_idle 1) 0)
    else if p == 60
    then some (node 0 (thread 6 ts_paused 0) 0)
    else if p == 70
    then some (node 0 (thread 7 ts_sleep 0) 0)
    else none

abbrev pub demo : Ptr → Scheduler
demo p = record {
  running = p;
  next = 0;
  ready = 10;
  sleep = 70;
  paused = 60;
  dead = 0;
  wait = 30;
  idle = 50;
  can_schedule = 0;
  rtc_second = 0;
  threads = demo_threads;
}

abbrev pub demo_chains : Chains
demo_chains ts_ready = (10, thread 1 ts_ready 5) ∷ (20, thread 2 ts_ready 5) ∷ []
demo_chains ts_wait = (30, thread 3 ts_wait 3) ∷ (40, thread 4 ts_wait 100) ∷ []
demo_chains ts_idle = (50, thread 5 ts_idle 1) ∷ []
demo_chains ts_paused = (60, thread 6 ts_paused 0) ∷ []
demo_chains ts_sleep = (70, thread 7 ts_sleep 0) ∷ []
demo_chains _ = []

pub demo-Links :
    (st : ThreadState) → chained st ≡ true → Links demo_threads null (demo_chains st) null
demo-Links ts_init c = tt
demo-Links ts_running c = tt
demo-Links ts_sleep c = (omega arith, refl, refl, tt)
demo-Links ts_dead c = tt
demo-Links ts_ready c = (omega arith, refl, refl, (omega arith, refl, refl, tt))
demo-Links ts_wait c = (omega arith, refl, refl, (omega arith, refl, refl, tt))
demo-Links ts_idle c = (omega arith, refl, refl, tt)
demo-Links ts_paused c = (omega arith, refl, refl, tt)

pub demo_heads :
    (p : Ptr) (st : ThreadState)
    → chained st ≡ true
    → head st (demo p) ≡ some (first (demo_chains st) null)
demo_heads p st c = ground arith

pub demo_states : (st : ThreadState) → chained st ≡ true → AllIn st (demo_chains st)
demo_states ts_init c = tt
demo_states ts_running c = tt
demo_states ts_sleep c = (refl, tt)
demo_states ts_dead c = tt
demo_states ts_ready c = (refl, (refl, tt))
demo_states ts_wait c = (refl, (refl, tt))
demo_states ts_idle c = (refl, tt)
demo_states ts_paused c = (refl, tt)

pub demo-IsScheduler : (p : Ptr) → IsScheduler (demo p) demo_chains
demo-IsScheduler p = record { links = demo-Links; heads = demo_heads p; states = demo_states }
