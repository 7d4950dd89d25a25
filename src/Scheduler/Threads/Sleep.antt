-- ===== src/Scheduler/Threads/Sleep.antt =====
-- TmSleepThread of kernel/tm/thread.c.
use sgos.Prelude.{ℕ, ◌≡◌, ◌≢◌, refl, sym, ◌∙◌, true, false, [], ◌∷◌, ◌++◌, arith}
use sgos.Prelude.Int.{pos}
use sgos.Prelude.Run.{ok, blocked}
use sgos.Dll.{Ptr, null}
use sgos.Dll.Links.{Cells, first}
use sgos.Scheduler.{
  ThreadState, ts_ready, ts_sleep, ts_wait, same, Thread, Scheduler, change, set_thread_state,
}
use sgos.Scheduler.Chains.{chained, Chains, IsScheduler, replaced}
use sgos.Scheduler.Clock.{schedule}
use sgos.Scheduler.Clock.Dispatch.{sliced, SwitchedTo}
use sgos.Scheduler.Clock.Pick.{schedule_first}
use sgos.Scheduler.Change.{
  IsScheduler-same, put, replaced-put, change_in, move_in, in_not_null, in_cell,
}
use sgos.Scheduler.Threads.{infinite, rest, sleep_thread}

rest_switch_run :
    (s s1 s2 : Scheduler) (p : Ptr) (st : ThreadState)
    → set_thread_state p st s ≡ ok tt s1
    → s1.running ≡ p
    → schedule s1 ≡ blocked s2
    → rest p st s ≡ blocked s2
unfolding rest
rest_switch_run s s1 s2 p st m r d = ground arith

rest_other_run :
    (s s1 : Scheduler) (p : Ptr) (st : ThreadState)
    → set_thread_state p st s ≡ ok tt s1
    → s1.running ≢ p
    → rest p st s ≡ ok (pos 0) s1
unfolding rest
rest_other_run s s1 p st m r = ground arith

sleep_infinite_run : (s : Scheduler) (p : Ptr) → sleep_thread p infinite s ≡ rest p ts_sleep s
unfolding sleep_thread
sleep_infinite_run s p = refl

sleep_timed_run :
    (s s1 : Scheduler) (p : Ptr) (ms : ℕ)
    → ms ≢ infinite
    → change p (sliced ms) s ≡ ok tt s1
    → sleep_thread p ms s ≡ rest p ts_wait s1
unfolding sleep_thread
sleep_timed_run s s1 p ms ne c = ground arith

module _ (s : Scheduler) (xs : Chains) (p : Ptr) (v : Thread) (ys zs : Cells Thread)
    (is : IsScheduler s xs) (e : xs ts_ready ≡ ys ++ (p, v) ∷ zs) where
  rest_switches :
      (st : ThreadState) (q : Ptr) (w : Thread) (us : Cells Thread)
      → chained st ≡ true
      → same ts_ready st ≡ false
      → ys ++ zs ≡ (q, w) ∷ us
      → s.running ≡ p
      → v.is_interrupted ≡ false
      → (s' : Scheduler) × (rest p st s ≡ blocked s')
        × SwitchedTo q
            (replaced xs ts_ready (ys ++ zs) st ((p, record v { state = st }) ∷ xs st))
            ts_ready
            ((q, sliced 5 w) ∷ us)
            s'
  rest_switches st q w us c d k run i =
      let (s1, m, is1, r, _) = move_in s xs ts_ready p v ys zs is refl e st c d in
      let ss = replaced xs ts_ready (ys ++ zs) st ((p, record v { state = st }) ∷ xs st) in
      let v' : Thread = record v { state = st } in
      let at : ss st ≡ (p, v') ∷ xs st = ground arith in
      let rd : ss ts_ready ≡ (q, w) ∷ us = ground arith in
      let cell = in_cell s1 ss st p v' [] (xs st) is1 c at in
      let nn = in_not_null s1 ss st p v' [] (xs st) is1 c at in
      let (s2, sch, sw) =
        schedule_first s1 ss p null (first (xs st) null) v' q w us is1 rd (r ∙ run) nn cell
          (ground arith) i in
      (s2, rest_switch_run s s1 s2 p st m (r ∙ run) sch, sw)

  -- TmSleepThread without end, by the current thread, outside interrupts, while another thread is
  -- ready: the call does not return; the current thread is at the head of the sleeping chain and
  -- no longer in the ready one, and the first thread that is still ready runs.
  pub sleep_thread_switches :
      (q : Ptr) (w : Thread) (us : Cells Thread)
      → ys ++ zs ≡ (q, w) ∷ us
      → s.running ≡ p
      → v.is_interrupted ≡ false
      → (s' : Scheduler) × (sleep_thread p infinite s ≡ blocked s')
        × SwitchedTo q
            (replaced xs ts_ready
              (ys ++ zs)
              ts_sleep
              ((p, record v { state = ts_sleep }) ∷ xs ts_sleep))
            ts_ready
            ((q, sliced 5 w) ∷ us)
            s'
  sleep_thread_switches q w us k run i =
      let (s', d, sw) = rest_switches ts_sleep q w us refl refl k run i in
      (s', sleep_infinite_run s p ∙ d, sw)

  -- For a while, of another ready thread than the current one: it returns 0, and the thread is at
  -- the head of the waiting chain with its clock set to the time.
  pub sleep_thread_waits :
      (ms : ℕ)
      → ms ≢ infinite
      → s.running ≢ p
      → (s' : Scheduler) × (sleep_thread p ms s ≡ ok (pos 0) s')
        × IsScheduler s' (
            replaced xs ts_ready
              (ys ++ zs)
              ts_wait
              ((p, record v { state = ts_wait; clock = ms }) ∷ xs ts_wait))
        × (s'.running ≡ s.running)
  sleep_thread_waits ms ne other =
      let (s1, c, is1, r1, _, _) = change_in s xs ts_ready p v ys zs is refl e (sliced ms) refl in
      let cs = put xs ts_ready (ys ++ (p, sliced ms v) ∷ zs) in
      let (s2, m, is2, r2, _) =
        move_in s1 cs ts_ready p (sliced ms v) ys zs is1 refl refl ts_wait refl refl in
      (
        s2,
        sleep_timed_run s s1 p ms ne c
            ∙ rest_other_run s1 s2 p ts_wait m (λ z. other (sym (r2 ∙ r1) ∙ z)),
        IsScheduler-same s2 _ _ (replaced-put xs ts_ready ts_wait _ _ _) is2,
        r2 ∙ r1,
      )
