-- ===== src/Scheduler/Tests.antt =====
-- Runs of kernel/tm/sched.c and kernel/tm/thread.c on small chains.
use sgos.Prelude.{◌≡◌, refl, true, some, [], ◌∷◌, arith}
use sgos.Prelude.Run.{ok, blocked}
use sgos.Dll.{null}
use sgos.Dll.Links.{first, Links}
use sgos.Scheduler.{
  ThreadState, ts_init, ts_ready, ts_running, ts_paused, ts_sleep, ts_wait, ts_dead, ts_idle,
  Scheduler, head, set_thread_state,
}
use sgos.Scheduler.Chains.{chained, Chains, AllIn, IsScheduler, replaced}
use sgos.Scheduler.Move.{set_thread_state_moves}
use sgos.Scheduler.Clock.{tick_loop, schedule}
use sgos.Scheduler.Clock.Round.{Waits, at_head, left_waiting, made_ready}
use sgos.Scheduler.Clock.Wake.{tick_loop_lem}
use sgos.Scheduler.Clock.Dispatch.{SwitchedTo}
use sgos.Scheduler.Clock.Pick.{schedule_next}
use sgos.Scheduler.Threads.{infinite, sleep_thread}
use sgos.Scheduler.Threads.Sleep.{sleep_thread_switches}
use sgos.Scheduler.Demo.{
  thread, demo_threads, demo, demo_chains, demo-Links, demo_states, demo-IsScheduler,
}

set_thread_state_moves_example :
    (s' : Scheduler) × (set_thread_state 30 ts_sleep (demo 10) ≡ ok tt s')
    × IsScheduler s' (
        replaced demo_chains ts_wait
          ((40, thread 4 ts_wait 100) ∷ [])
          ts_sleep
          ((30, thread 3 ts_sleep 3) ∷ demo_chains ts_sleep))
    × (s'.running ≡ 10)
    × (s'.next ≡ 0)
set_thread_state_moves_example =
    set_thread_state_moves (demo 10) demo_chains 30 (thread 3 ts_wait 3) []
      ((40, thread 4 ts_wait 100) ∷ []) ts_sleep (demo-IsScheduler 10) refl refl refl refl

-- Thread 3 wakes; thread 4, passed over, keeps its clock of 100.
tick_loop_lem_example :
    (s' : Scheduler) × (tick_loop 3 30 (demo 10) ≡ ok tt s')
    × IsScheduler s' (
        Waits demo_chains
          (left_waiting at_head (demo_chains ts_wait))
          (made_ready at_head (demo_chains ts_wait) (demo_chains ts_ready)))
tick_loop_lem_example = tick_loop_lem 3 (demo 10) demo_chains (omega arith) (demo-IsScheduler 10)

head_passed_over : left_waiting at_head (demo_chains ts_wait) ≡ (40, thread 4 ts_wait 100) ∷ []
unfolding left_waiting
head_passed_over = refl

schedule_next_example :
    (s' : Scheduler) × (schedule (demo 10) ≡ blocked s')
    × SwitchedTo 20 demo_chains ts_ready
        ((10, thread 1 ts_ready 5) ∷ (20, thread 2 ts_ready 5) ∷ [])
        s'
schedule_next_example =
    schedule_next (demo 10) demo_chains 10 (thread 1 ts_ready 5) 20 (thread 2 ts_ready 5) [] []
      (demo-IsScheduler 10) refl refl refl

sleep_thread_switches_example :
    (s' : Scheduler) × (sleep_thread 10 infinite (demo 10) ≡ blocked s')
    × SwitchedTo 20
        (replaced demo_chains ts_ready
          ((20, thread 2 ts_ready 5) ∷ [])
          ts_sleep
          ((10, thread 1 ts_sleep 5) ∷ demo_chains ts_sleep))
        ts_ready
        ((20, thread 2 ts_ready 5) ∷ [])
        s'
sleep_thread_switches_example =
    sleep_thread_switches (demo 10) demo_chains 10 (thread 1 ts_ready 5) []
      ((20, thread 2 ts_ready 5) ∷ []) (demo-IsScheduler 10) refl 20 (thread 2 ts_ready 5) [] refl
      refl refl

-- The same without the ready and the sleeping threads.
abbrev quiet : Scheduler
quiet = record (demo 60) { ready = 0; sleep = 0 }

abbrev quiet_chains : Chains
quiet_chains ts_wait = demo_chains ts_wait
quiet_chains ts_idle = demo_chains ts_idle
quiet_chains ts_paused = demo_chains ts_paused
quiet_chains _ = []

quiet-Links :
    (st : ThreadState) → chained st ≡ true → Links demo_threads null (quiet_chains st) null
quiet-Links ts_init c = tt
quiet-Links ts_ready c = tt
quiet-Links ts_running c = tt
quiet-Links ts_paused c = demo-Links ts_paused c
quiet-Links ts_sleep c = tt
quiet-Links ts_wait c = demo-Links ts_wait c
quiet-Links ts_dead c = tt
quiet-Links ts_idle c = demo-Links ts_idle c

quiet_heads :
    (st : ThreadState) → chained st ≡ true → head st quiet ≡ some (first (quiet_chains st) null)
quiet_heads st c = ground arith

quiet_states : (st : ThreadState) → chained st ≡ true → AllIn st (quiet_chains st)
quiet_states ts_init c = tt
quiet_states ts_ready c = tt
quiet_states ts_running c = tt
quiet_states ts_paused c = demo_states ts_paused c
quiet_states ts_sleep c = tt
quiet_states ts_wait c = demo_states ts_wait c
quiet_states ts_dead c = tt
quiet_states ts_idle c = demo_states ts_idle c

quiet-IsScheduler : IsScheduler quiet quiet_chains
quiet-IsScheduler = record { links = quiet-Links; heads = quiet_heads; states = quiet_states }
